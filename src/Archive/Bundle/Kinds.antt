-- ===== src/Archive/Bundle/Kinds.antt =====
-- The two-byte discriminants of `ComputationType`.
use cachee_cli.Base.{ℕ, ◌^◌, ◌<◌, ◌≡◌, ◌≢◌, ◌↔◌, refl, arith}
use cachee_cli.Archive.Types.{ComputationType, custom, to_u16, from_u16}

-- An application-defined type that does not use a discriminant of the built-in ones.
abbrev pub IsCanonical : ComputationType → Type 0
IsCanonical (custom v) = (v ≢ 1) × (v ≢ 2) × (v ≢ 3) × (v ≢ 4) × (v ≢ 5) × (v ≢ 18)
IsCanonical _ = Unit

abbrev pub FitsU16 : ComputationType → Type 0
FitsU16 t = to_u16 t < 2 ^ 16

from_u16-IsCanonical : (t : ComputationType) → from_u16 (to_u16 t) ≡ t → IsCanonical t
unfolding to_u16 from_u16
from_u16-IsCanonical (custom v) h = (
  λ e. ground arith,
  λ e. ground arith,
  λ e. ground arith,
  λ e. ground arith,
  λ e. ground arith,
  λ e. ground arith,
)
from_u16-IsCanonical _ h = tt

pub from_u16-to_u16 : (t : ComputationType) → IsCanonical t → from_u16 (to_u16 t) ≡ t
unfolding to_u16 from_u16
from_u16-to_u16 (custom v) h = ground arith
from_u16-to_u16 _ h = refl

to_u16-from_u16 : (v : ℕ) → to_u16 (from_u16 v) ≡ v
unfolding to_u16 from_u16
to_u16-from_u16 v = ground arith

-- Encoding a decoded discriminant gives it back, for every number; decoding an encoded type gives
-- it back exactly when it is a built-in type or a custom number that no built-in type uses.
pub discriminants :
    ((v : ℕ) → to_u16 (from_u16 v) ≡ v)
    × ((t : ComputationType) → (from_u16 (to_u16 t) ≡ t) ↔ IsCanonical t)
discriminants = (to_u16-from_u16, λ t. (from_u16-IsCanonical t, from_u16-to_u16 t))
