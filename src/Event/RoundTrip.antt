-- ===== src/Event/RoundTrip.antt =====
-- What Accept lets through, as the consumer reads it back.
use event_stream_platform.Prelude.{
  ℕ, ap, ◌≡◌, refl, ◌≢◌, inl, inr, String, true, none, some, [], ◌∷◌, arith, eq_iff, str_eq,
  if◌then◌else◌, ok, err, Bool-cases, Option-cases, Result-cases,
}
use event_stream_platform.Event.Types.{
  Bytes, Codec, CodecLaws, Envelope, VehiclePosition, EventError, unmarshalable,
  rejected_when_built, zero_time, vehicle_position, version, Observation,
}
use event_stream_platform.Event.Validate.{
  validate, validate_header, validate_clock, is_empty, is_known_event_type,
}
use event_stream_platform.Event.Accept.{
  decode, as_vehicle_position, build, marshal, accept, identify,
}
use event_stream_platform.Event.Bounds.{IsSound, validate-iff-IsSound}

is_empty-nil : (p : Bytes) → is_empty p ≡ true → p ≡ []
is_empty-nil [] h = refl
is_empty-nil (b ∷ bs) h = cc

-- What Build gives: its fields, and what it has checked.
pub record Built (c : Codec) (source : String) (v : VehiclePosition) (id : String) (now : ℕ)
    (e : Envelope) : Type 0 where
  pub schema_version : e.schema_version ≡ version
  pub event_id : e.event_id ≡ id
  pub event_type : e.event_type ≡ vehicle_position
  pub produced_at : e.produced_at ≡ now
  pub source_kept : e.source ≡ source
  pub payload : c.write_position v ≡ some e.payload
  pub identity : id ≢ ""
  pub is_uuid : c.is_uuid id ≡ true
  pub is_valid : validate v ≡ none

build-Built :
    (c : Codec) (source : String) (v : VehiclePosition) (id : String) (now : ℕ) (e : Envelope)
    → build c source v id now ≡ ok e
    → Built c source v id now e
unfolding build
build-Built c source v id now e h = ground (arith, eq_iff id "")

-- The steps of a successful Accept.
pub record Accepted (c : Codec) (minted : String) (raw : Bytes) (source : String) (now : ℕ)
    (e : Envelope) (v : VehiclePosition) : Type 0 where
  pub observation : Observation
  pub was_read : c.read_observation raw ≡ some observation
  pub position : v ≡ observation.position
  pub in_time : validate_clock v now ≡ none
  pub identified : identify c minted observation.event_id ≡ ok e.event_id
  pub built : Built c source v e.event_id now e

accept-Accepted :
    (c : Codec) (minted : String) (raw : Bytes) (source : String) (now : ℕ) (e : Envelope)
    (v : VehiclePosition)
    → accept c minted raw source now ≡ ok (e, v)
    → Accepted c minted raw source now e v
accept-Accepted c minted raw source now e v h = elim (Option-cases (c.read_observation raw)) [
  | inl x ↦ absurd (unfold accept in ground (arith, x))
  | inr (o, x) ↦ elim (Result-cases (identify c minted o.event_id)) [
    | inl (id, y) ↦
        let b : build c source o.position id now ≡ ok e = unfold accept in ground (arith, x, y) in
        let k = build-Built c source o.position id now e b in
        let w : v ≡ o.position = unfold accept in ground (arith, x, y) in
        record {
          observation = o;
          was_read = x;
          position = w;
          in_time = unfold accept in ground (arith, x, y);
          identified = ground (arith, y, k.event_id);
          built = build-Built c source v e.event_id now e (cc (b, w, k.event_id));
        }
    | inr (r, y) ↦ absurd (unfold accept in ground (arith, x, y))
  ]
]

header_passes :
    (c : Codec) (e : Envelope)
    → e.schema_version ≡ version
    → e.event_id ≢ ""
    → c.is_uuid e.event_id ≡ true
    → e.event_type ≡ vehicle_position
    → e.produced_at ≢ zero_time
    → e.payload ≢ []
    → validate_header c e ≡ none
unfolding validate_header
header_passes c e s i u t p l = elim (Bool-cases (is_empty e.payload)) [
  | inl y ↦ absurd (l (is_empty-nil e.payload y))
  | inr n ↦ ground (arith, eq_iff e.event_id "", ap (λ x. str_eq x "") t, n)
]

-- When the codec has the laws of JSON: whatever Accept lets through and Marshal writes (at a time that is not Go's zero time), the
-- consumer decodes to the same envelope and, as a vehicle position, to the same sound position.
pub accept-decode :
    (c : Codec)
    → CodecLaws c
    → (minted : String) (raw : Bytes) (source : String) (now : ℕ) (e : Envelope)
      (v : VehiclePosition) (wire : Bytes)
    → now ≢ zero_time
    → accept c minted raw source now ≡ ok (e, v)
    → marshal c e ≡ ok wire
    → (decode c wire ≡ ok e)
      × (is_known_event_type e ≡ true)
      × (as_vehicle_position c e ≡ ok v)
      × IsSound v
accept-decode c l minted raw source now e v wire t h m =
    let a = accept-Accepted c minted raw source now e v h in
    let b = a.built in
    let w : c.write_envelope e ≡ some wire = unfold marshal in ground arith in
    let back = l.envelope_back v e wire b.payload w in
    let header =
      header_passes c e b.schema_version b.identity b.is_uuid b.event_type
        (ground (arith, b.produced_at)) (λ z. l.position_text v (ground (arith, b.payload, z))) in
    (
      unfold decode in ground (arith, back, header),
      unfold is_known_event_type in
          ground (arith, eq_iff e.event_type vehicle_position, b.event_type),
      unfold as_vehicle_position in
          ground (
            arith,
            eq_iff e.event_type vehicle_position,
            b.event_type,
            l.position_back v e.payload b.payload,
            b.is_valid,
          ),
      (validate-iff-IsSound v
            (rw a.position (l.numeric_observation raw a.observation a.was_read))).0
          b.is_valid,
    )

-- When Accept lets an observation through: an identity that the producer supplies is kept, letter for letter; one is minted only for an
-- observation without.
pub accept-event_id :
    (c : Codec) (minted : String) (raw : Bytes) (source : String) (now : ℕ) (o : Observation)
    (e : Envelope) (v : VehiclePosition)
    → c.read_observation raw ≡ some o
    → accept c minted raw source now ≡ ok (e, v)
    → e.event_id ≡ (if str_eq o.event_id "" then minted else o.event_id)
accept-event_id c minted raw source now o e v r h =
    let a = accept-Accepted c minted raw source now e v h in
    let same : a.observation ≡ o = ground (arith, a.was_read) in
    unfold identify in ground (arith, a.identified, same)

-- Build repeats the checks that Accept has made, and they never disagree: if Accept reports that an
-- observation was "accepted by validation but rejected when built", its payload did not marshal.
pub accept_rebuilt :
    (c : Codec) (minted : String) (raw : Bytes) (source : String) (now : ℕ) (x : EventError)
    → minted ≢ ""
    → c.is_uuid minted ≡ true
    → accept c minted raw source now ≡ err (rejected_when_built x)
    → x ≡ unmarshalable
unfolding accept build
accept_rebuilt c minted raw source now x m u h = ground (arith, eq_iff minted "")
