-- ===== src/Trust.antt =====
-- src/trust.rs: verification modes, trust levels, provenance, and the policy on mode changes.
-- A trust score or a sample rate, an `f64` in the source, is a number of thousandths: the modelled
-- code only stores 0.0 and 1.0 and copies scores.
pub mod Policy
use cachee_cli.Base.{ℕ, ◌<◌, Str, Bool, true, false, Option, none, some, List, Result, ok, err, ltb}
use cachee_cli.Archive.Types.{ComputationFingerprint}
use cachee_cli.Lifecycle.{EntryState}
use cachee_cli.Base.{◌&&◌, if◌then◌else◌, bytes_eq, ascii}

pub data VerificationMode : Type 0 where
  always_verify trust_cached : VerificationMode
  probabilistic : ℕ → VerificationMode
  age_weighted : ℕ → VerificationMode

pub record TrustLevel : Type 0 where
  pub verification_mode : VerificationMode
  pub last_verified_at : ℕ
  pub verification_count : ℕ
  pub signatures_checked : ℕ
  pub trust_score : ℕ

pub record Provenance : Type 0 where
  pub computed_by : Str
  pub computed_at : ℕ
  pub computation_duration_us : ℕ
  pub verified_by : List Str

-- `VerifiedRead<T>`
pub record VerifiedRead (T : Type 0) : Type 0 where
  pub value : T
  pub trust_level : TrustLevel
  pub computation_fingerprint : ComputationFingerprint
  pub entry_state : EntryState
  pub provenance : Provenance

unfoldable pub mode_strictness : Str → ℕ
mode_strictness mode =
    if bytes_eq mode (ascii "trust_cached")
    then 1
    else if bytes_eq mode (ascii "probabilistic")
    then 2
    else if bytes_eq mode (ascii "age_weighted")
    then 3
    else if bytes_eq mode (ascii "always_verify")
    then 4
    else 0

-- The two messages name the current or the minimum mode, and the proposed one.
pub data PolicyError : Type 0 where
  mode_locked : Str → Str → PolicyError
  below_minimum : Str → Str → PolicyError

unfoldable pub check_minimum : Str → Option Str → Result PolicyError (Unit {0})
check_minimum proposed none = ok tt
check_minimum proposed (some min) =
    if ltb (mode_strictness proposed) (mode_strictness min)
    then err (below_minimum min proposed)
    else ok tt

unfoldable pub is_mode_change_allowed :
    Str → Str → Bool → Option Str → Result PolicyError (Unit {0})
unfolding check_minimum
is_mode_change_allowed current proposed locked minimum =
    if locked && ltb (mode_strictness proposed) (mode_strictness current)
    then err (mode_locked current proposed)
    else check_minimum proposed minimum
