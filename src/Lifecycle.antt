-- ===== src/Lifecycle.antt =====
-- src/lifecycle.rs: lifecycle states, authorities and proofs, validity windows, chains.
use cachee_cli.Base.{ℕ, Bytes, Str, Bool, true, false, Option, List}

pub data TransitionAuthority : Type 0 where
  original_issuer : Str → TransitionAuthority
  regulator : Bytes → TransitionAuthority
  signature_bearer system : TransitionAuthority

pub data TransitionProof : Type 0 where
  system_initiated : TransitionProof
  issuer_signature : Bytes → TransitionProof
  regulator_attestation : Bytes → Bytes → TransitionProof

pub data EntryState : Type 0 where
  active : EntryState
  -- successor
  superseded : Bytes → EntryState
  -- reason, revoked_at, revocation_attestation
  revoked : Str → ℕ → Option Bytes → EntryState
  -- valid_until
  expired : ℕ → EntryState
  -- family, deprecation_date, two_of_three_valid
  deprecated : Str → ℕ → Bool → EntryState

unfoldable pub is_reversible : EntryState → Bool
is_reversible (superseded _) = false
is_reversible (revoked _ _ _) = false
is_reversible (expired _) = true
is_reversible (deprecated _ _ _) = true
is_reversible active = true

pub data RevalidationTrigger : Type 0 where
  time_based : ℕ → RevalidationTrigger
  state_dependent : Bytes → RevalidationTrigger
  external_signal : Str → RevalidationTrigger

pub record ValidityWindow : Type 0 where
  pub valid_from : ℕ
  pub valid_until : Option ℕ
  pub revalidation_trigger : Option RevalidationTrigger

pub record ChainEntry : Type 0 where
  pub content_address : Bytes
  pub state : EntryState
  pub transitioned_at : ℕ
  pub attestation : Option Bytes

pub record SupersessionChain : Type 0 where
  pub current : Bytes
  pub history : List ChainEntry

pub record StateAnchor : Type 0 where
  pub system : Str
  pub state_id : Bytes
  pub state_timestamp : ℕ

pub record RevalidationPolicy : Type 0 where
  pub max_age_secs : ℕ
  pub auto_revalidate : Bool
  pub triggers : List RevalidationTrigger

pub record TemporalBinding : Type 0 where
  pub computed_at : ℕ
  pub state_anchor : Option StateAnchor
  pub validity : ValidityWindow
  pub revalidation : Option RevalidationPolicy
