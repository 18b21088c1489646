-- ===== src/ReadContract.antt =====
-- src/read_contract.rs: what a verified read returns. A trust score is a number of thousandths.
use cachee_cli.Base.{ℕ, Bytes, Bool, Option}
use cachee_cli.Archive.Types.{ComputationFingerprint}
use cachee_cli.Lifecycle.{EntryState, ValidityWindow}
use cachee_cli.Trust.{Provenance}

pub data VerificationStatus : Type 0 where
  -- verified_at, all_three, two_of_three
  fully_verified : ℕ → Bool → Bool → VerificationStatus
  -- the three flags that the reason prints
  verification_failed : Bool → Bool → Bool → VerificationStatus
  -- originally_verified_at, age_secs
  cached_verification : ℕ → ℕ → VerificationStatus
  -- last_verified_at, trust_score
  unverified : ℕ → ℕ → VerificationStatus

pub record SignatureSummary : Type 0 where
  pub mldsa_valid : Option Bool
  pub falcon_valid : Option Bool
  pub slhdsa_valid : Option Bool
  pub two_of_three : Bool
  pub last_full_check : ℕ

pub record CacheeReadResponse : Type 0 where
  pub value : Bytes
  pub fingerprint : ComputationFingerprint
  pub verification : VerificationStatus
  pub signatures : SignatureSummary
  pub provenance : Provenance
  pub state : EntryState
  pub validity : ValidityWindow
