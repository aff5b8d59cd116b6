-- ===== src/Event/Float.antt =====
-- Go's float64, as far as internal/event and the sink use it: comparison with numbers.
-- A finite float64 is a whole multiple of 2^-1074, so it is kept as that multiple, exactly.
use event_stream_platform.Prelude.{ℕ, suc, ◌*◌, ◌-◌, ◌^◌, Bool, true, false}
use event_stream_platform.Prelude.Int.{ℤ, pos, negsuc, ltb_ℤ, leb_ℤ, ◌≤ℤ◌}

pub data Float64 : Type 0 where
  finite : ℤ → Float64
  inf : Bool → Float64
  nan : Float64

-- The number of the smallest positive float64 in 1.
pub float_unit : ℕ
float_unit = 2 ^ 1074

-- An integer as a multiple of that unit.
unfoldable pub units : ℤ → ℤ
unfolding float_unit
units (pos n) = pos (n * float_unit)
units (negsuc n) = negsuc (suc n * float_unit - 1)

-- A float64 literal of an integral value.
abbrev pub whole : ℤ → Float64
whole z = finite (units z)

-- `a < b`: false whenever either is not a number. `inf true` is +Inf.
abbrev pub lt_float : Float64 → Float64 → Bool
lt_float (finite a) (finite b) = ltb_ℤ a b
lt_float (finite a) (inf b) = b
lt_float (inf true) b = false
lt_float (inf false) (finite b) = true
lt_float (inf false) (inf b) = b
lt_float (inf false) nan = false
lt_float _ _ = false

-- `a <= b`, likewise.
abbrev pub le_float : Float64 → Float64 → Bool
le_float (finite a) (finite b) = leb_ℤ a b
le_float (finite a) (inf b) = b
le_float (inf false) (finite b) = true
le_float (inf false) (inf b) = true
le_float (inf true) (inf b) = b
le_float _ _ = false

-- A number between two integers, the ends included.
abbrev pub Within : ℤ → ℤ → Float64 → Type 0
Within lo hi (finite a) = (units lo ≤ℤ a) × (a ≤ℤ units hi)
Within lo hi _ = ⊥

abbrev pub IsFinite : Float64 → Type 0
IsFinite (finite a) = Unit {0}
IsFinite _ = ⊥
