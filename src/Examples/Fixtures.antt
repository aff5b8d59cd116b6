-- ===== src/Examples/Fixtures.antt =====
-- What the examples share: a codec that writes vehicles of one shape, a database that knows a few
-- uuids, and events of two vehicles.
use event_stream_platform.Prelude.{
  ℕ, ◌+◌, ◌*◌, ◌≡◌, refl, sym, ◌∙◌, ap, inl, inr, String, Bool, true, false, not, ◌&&◌, ◌||◌,
  Option, none, some, [], ◌∷◌, arith, ◌==◌, str_eq, if◌then◌else◌, eq_iff, Bool-cases, Result, ok,
  err,
}
use event_stream_platform.Prelude.Int.{pos, eq_ℤ, eq_ℤ-sound}
use event_stream_platform.Event.Float.{Float64, finite, inf, nan}
use event_stream_platform.Event.Types.{
  Bytes, Envelope, VehiclePosition, Observation, Codec, CodecLaws, IsNumeric, version,
  vehicle_position, second,
}
use event_stream_platform.Broker.{Fate, FateLaws}
use event_stream_platform.Sink.Transaction.{Postgres, DbError, pg}
use event_stream_platform.Sink.Apply.{Store, Input}

-- Seconds after an instant of the year 2025.
abbrev pub at : ℕ → ℕ
at n = 63870000000 * second + n * second

abbrev pub place : Float64
place = finite (pos 5)

abbrev pub bus : ℕ → ℕ → VehiclePosition
bus ts sequence = record {
  vehicle_id = "bus-7";
  route_id = "r-1";
  lat = place;
  lon = place;
  speed_kph = none;
  bearing_deg = none;
  event_ts = ts;
  sequence = sequence;
}

abbrev pub is_place : Float64 → Bool
is_place (finite z) = eq_ℤ z (pos 5)
is_place _ = false

abbrev pub is_none {ℓ} : {A : Type ℓ} → Option A → Bool
is_none none = true
is_none (some a) = false

abbrev pub is_bus : VehiclePosition → Bool
is_bus v =
    str_eq v.vehicle_id "bus-7"
    && str_eq v.route_id "r-1"
    && is_place v.lat
    && is_place v.lon
    && is_none v.speed_kph
    && is_none v.bearing_deg

abbrev pub is_plain : Envelope → Bool
is_plain e =
    eq_ℤ e.schema_version version
    && str_eq e.event_type vehicle_position
    && str_eq e.source "ingest"

abbrev pub envelope : String → ℕ → Bytes → Envelope
envelope id t payload = record {
  schema_version = version;
  event_id = id;
  event_type = vehicle_position;
  produced_at = t;
  source = "ingest";
  payload = payload;
}

abbrev pub read_bus : Bytes → Option VehiclePosition
read_bus (ts ∷ q ∷ []) = some (bus ts q)
read_bus _ = none

abbrev pub read_plain : Bytes → Option Envelope
read_plain (k ∷ t ∷ payload) = some (envelope (if k == 1 then "id-1" else "id-2") t payload)
read_plain _ = none

abbrev pub write_plain : Envelope → Option Bytes
write_plain e =
    if not (is_plain e)
    then none
    else if str_eq e.event_id "id-1"
    then some (1 ∷ e.produced_at ∷ e.payload)
    else if str_eq e.event_id "id-2"
    then some (2 ∷ e.produced_at ∷ e.payload)
    else none

abbrev pub read_report : Bytes → Option Observation
read_report (k ∷ ts ∷ q ∷ []) =
    some (record { position = bus ts q; event_id = if k == 0 then "" else "id-1" })
read_report _ = none

abbrev pub codec : Codec
codec = record {
  is_uuid = λ s. str_eq s "id-1" || str_eq s "id-2";
  read_envelope = read_plain;
  read_position = read_bus;
  read_observation = read_report;
  write_position = λ v. if is_bus v then some (v.event_ts ∷ v.sequence ∷ []) else none;
  write_envelope = write_plain;
}

is_place_sound : (f : Float64) → is_place f ≡ true → f ≡ place
is_place_sound (finite z) h = ap finite (eq_ℤ-sound z (pos 5) h)
is_place_sound (inf b) h = absurd (ground arith)
is_place_sound nan h = absurd (ground arith)

is_none_sound {ℓ} : {A : Type ℓ} (o : Option A) → is_none o ≡ true → o ≡ none
is_none_sound none h = refl
is_none_sound (some a) h = absurd (ground arith)

is_bus_sound : (v : VehiclePosition) → is_bus v ≡ true → v ≡ bus v.event_ts v.sequence
is_bus_sound v h =
    let a : v.vehicle_id ≡ "bus-7" = ground (arith, eq_iff v.vehicle_id "bus-7") in
    let b : v.route_id ≡ "r-1" = ground (arith, eq_iff v.route_id "r-1") in
    let c : v.lat ≡ place = is_place_sound v.lat (ground arith) in
    let d : v.lon ≡ place = is_place_sound v.lon (ground arith) in
    let e : v.speed_kph ≡ none = is_none_sound v.speed_kph (ground arith) in
    let f : v.bearing_deg ≡ none = is_none_sound v.bearing_deg (ground arith) in cc

is_plain_sound :
    (e : Envelope) → is_plain e ≡ true → e ≡ envelope e.event_id e.produced_at e.payload
is_plain_sound e h =
    let a : e.schema_version ≡ version = eq_ℤ-sound e.schema_version version (ground arith) in
    let b : e.event_type ≡ vehicle_position =
      ground (arith, eq_iff e.event_type vehicle_position) in
    let c : e.source ≡ "ingest" = ground (arith, eq_iff e.source "ingest") in cc

pub bus-IsNumeric : (ts q : ℕ) → IsNumeric (bus ts q)
bus-IsNumeric ts q = record { lat = tt; lon = tt; speed = tt; bearing = tt }

IsNumeric-bus : (raw : Bytes) (v : VehiclePosition) → read_bus raw ≡ some v → IsNumeric v
IsNumeric-bus [] v h = absurd (ground arith)
IsNumeric-bus (a ∷ []) v h = absurd (ground arith)
IsNumeric-bus (a ∷ b ∷ []) v h = let e : v ≡ bus a b = ground arith in rw e (bus-IsNumeric a b)
IsNumeric-bus (a ∷ b ∷ c ∷ r) v h = absurd (ground arith)

IsNumeric-report : (raw : Bytes) (o : Observation) → read_report raw ≡ some o → IsNumeric o.position
IsNumeric-report [] o h = absurd (ground arith)
IsNumeric-report (a ∷ []) o h = absurd (ground arith)
IsNumeric-report (a ∷ b ∷ []) o h = absurd (ground arith)
IsNumeric-report (a ∷ b ∷ c ∷ []) o h =
    let e : o.position ≡ bus b c = ground arith in rw e (bus-IsNumeric b c)
IsNumeric-report (a ∷ b ∷ c ∷ d ∷ r) o h = absurd (ground arith)

bus_back :
    (v : VehiclePosition) (p : Bytes)
    → codec.write_position v ≡ some p
    → codec.read_position p ≡ some v
bus_back v p h =
    let it : is_bus v ≡ true = ground arith in
    let e : p ≡ v.event_ts ∷ v.sequence ∷ [] = ground arith in
    rw e (ap some (sym (is_bus_sound v it)))

plain_back :
    (v : VehiclePosition) (e : Envelope) (raw : Bytes)
    → codec.write_position v ≡ some e.payload
    → codec.write_envelope e ≡ some raw
    → codec.read_envelope raw ≡ some e
plain_back v e raw w h =
    let it : is_plain e ≡ true = ground arith in
    let k = eq_iff e.event_id "id-1" in
    let l = eq_iff e.event_id "id-2" in
    elim (Bool-cases (str_eq e.event_id "id-1")) [
      | inl q ↦
          let r : raw ≡ 1 ∷ e.produced_at ∷ e.payload = ground (arith, q) in
          let a : e.event_id ≡ "id-1" = k.0 q in
          rw r (
            ap some
              (ap (λ id. envelope id e.produced_at e.payload) (sym a) ∙ sym (is_plain_sound e it)))
      | inr q ↦
          let y : str_eq e.event_id "id-2" ≡ true = ground (arith, q) in
          let r : raw ≡ 2 ∷ e.produced_at ∷ e.payload = ground (arith, q, y) in
          let a : e.event_id ≡ "id-2" = l.0 y in
          rw r (
            ap some
              (ap (λ id. envelope id e.produced_at e.payload) (sym a) ∙ sym (is_plain_sound e it)))
    ]

-- The codec has the laws that are asked of encoding/json.
pub codec-CodecLaws : CodecLaws codec
codec-CodecLaws = record {
  numeric_observation = IsNumeric-report;
  numeric_position = IsNumeric-bus;
  position_back = bus_back;
  position_text = λ v h. absurd (ground arith);
  envelope_back = plain_back;
}

abbrev pub uuid_of : String → Result DbError ℕ
uuid_of s =
    if str_eq s "id-1"
    then ok 1
    else if str_eq s "id-2"
    then ok 2
    else if str_eq s "at-0"
    then ok 10
    else if str_eq s "at-1"
    then ok 11
    else err (pg "22P02")

abbrev pub postgres : Postgres
postgres = record {
  uuid = uuid_of;
  show_uuid = λ n. if n == 1 then "id-1" else "id-2";
  text = λ s. none;
  real = ok;
  stamp = λ t. t;
}

abbrev pub store : Store
store = record { postgres = postgres; consumer_id = "consumer-1" }

abbrev pub input : String → ℕ → ℕ → Input
input id ts q = record {
  envelope = envelope id (at 100) (ts ∷ q ∷ []);
  position = bus ts q;
  partition = 0;
  offset = q;
}

abbrev pub fine : ℕ → Fate
fine i = record { is_written = true; is_acknowledged = true }

pub fine-FateLaws : FateLaws fine
fine-FateLaws = record { acknowledged = λ i h. refl }
