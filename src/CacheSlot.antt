-- ===== src/CacheSlot.antt =====
-- src/cache_slot.rs: the storage unit, its lifecycle transitions, and write conflicts.
-- The clock and the `Instant` are parameters: a call of `now_ns()` is an argument in nanoseconds.
pub mod Transitions
pub mod Conflicts
use cachee_cli.Base.{
  ℕ, ◌+◌, ◌%◌, ◌^◌, Bytes, Str, Bool, true, false, Option, none, some, List, [], ◌∷◌, ◌++◌,
}
use cachee_cli.Base.{
  Result, ok, err, bytes_eq, not, ◌&&◌, if◌then◌else◌, ltb, length, take, drop, ascii,
}
use cachee_cli.Archive.Types.{ComputationFingerprint, Codecs, empty_fingerprint, zero_hash}
use cachee_cli.Archive.Fingerprint.{digest, has_valid_hashes}
use cachee_cli.Lifecycle.{
  EntryState, active, superseded, revoked, expired, deprecated, TemporalBinding,
}
use cachee_cli.Lifecycle.{TransitionAuthority, TransitionProof, ValidityWindow}
use cachee_cli.Trust.{TrustLevel, Provenance, VerificationMode}

pub data WriteConflict : Type 0 where
  no_conflict : WriteConflict
  -- existing_address, incoming_hash
  fingerprint_collision : Bytes → Bytes → WriteConflict
  -- existing_fingerprint, incoming_fingerprint
  result_duplicate : ComputationFingerprint → ComputationFingerprint → WriteConflict

pub data ConflictPolicy : Type 0 where
  reject fork supersede : ConflictPolicy

pub record CacheSlot : Type 0 where
  pub value : Bytes
  pub fingerprint : ComputationFingerprint
  pub cache_expires_at : ℕ
  pub state : EntryState
  pub trust : TrustLevel
  pub temporal : TemporalBinding
  pub provenance : Provenance
  pub created_at : ℕ
  pub content_address : Bytes

unfoldable pub detect_conflict :
    Codecs → Option CacheSlot → Bytes → ComputationFingerprint → WriteConflict
detect_conflict c none incoming_value incoming_fingerprint = no_conflict
detect_conflict c (some existing) incoming_value incoming_fingerprint =
    let incoming_hash = c.sha3_256 incoming_value in
    let existing_hash = c.sha3_256 existing.value in
    let same_result = bytes_eq incoming_hash existing_hash in
    let same_fingerprint =
      bytes_eq (digest c existing.fingerprint) (digest c incoming_fingerprint) in
    if same_fingerprint && not same_result
    then fingerprint_collision existing.content_address incoming_hash
    else if same_result && not same_fingerprint
    then result_duplicate existing.fingerprint incoming_fingerprint
    else no_conflict

-- SHA3-256(value_hash || fingerprint.digest())
unfoldable pub slot_address_input : Codecs → Bytes → ComputationFingerprint → Bytes
slot_address_input c value fp = c.sha3_256 value ++ digest c fp

unfoldable pub compute_content_address : Codecs → Bytes → ComputationFingerprint → Bytes
compute_content_address c value fp = c.sha3_256 (slot_address_input c value fp)

-- `now` is `now_ns()`, `instant` is `Instant::now()` in nanoseconds, `ttl` is in nanoseconds; the
-- 64-bit sum of time and `ttl as u64` wraps in a release build.
unfoldable pub new_slot :
    Codecs → ℕ → ℕ → Bytes → ComputationFingerprint → ℕ → VerificationMode → Str → CacheSlot
new_slot c now instant value fingerprint ttl verification_mode node_id = record {
  value = value;
  fingerprint = fingerprint;
  cache_expires_at = instant + ttl;
  state = active;
  trust = record {
    verification_mode = verification_mode;
    last_verified_at = now;
    verification_count = 0;
    signatures_checked = 0;
    trust_score = 1000;
  };
  temporal = record {
    computed_at = now;
    state_anchor = none;
    validity = record {
      valid_from = now;
      valid_until = some ((now + ttl % 2 ^ 64) % 2 ^ 64);
      revalidation_trigger = none;
    };
    revalidation = none;
  };
  provenance = record {
    computed_by = node_id;
    computed_at = now;
    computation_duration_us = 0;
    verified_by = [];
  };
  created_at = now;
  content_address = compute_content_address c value fingerprint;
}

unfoldable pub has_valid_fingerprint : CacheSlot → Bool
has_valid_fingerprint s = has_valid_hashes s.fingerprint

pub record StateTransition : Type 0 where
  pub from : EntryState
  pub to : EntryState
  pub transitioned_at : ℕ
  pub content_address : Bytes
  pub authority : TransitionAuthority
  pub proof : TransitionProof

pub data TransitionError : Type 0 where
  terminal_superseded terminal_revoked : TransitionError
  illegal_transition : EntryState → EntryState → TransitionError

-- The match on the two states: `ok` goes on, `err` is the early return.
unfoldable pub check_transition : EntryState → EntryState → Result TransitionError (Unit {0})
check_transition active (superseded _) = ok tt
check_transition active (revoked _ _ _) = ok tt
check_transition active (expired _) = ok tt
check_transition active (deprecated _ _ _) = ok tt
check_transition active active = err (illegal_transition active active)
check_transition (expired _) active = ok tt
check_transition (deprecated _ _ _) active = ok tt
check_transition (superseded _) _ = err terminal_superseded
check_transition (revoked _ _ _) _ = err terminal_revoked
check_transition old new = err (illegal_transition old new)

-- The slot after the call, and what it returns; `now` is `now_ns()`.
unfoldable pub transition :
    ℕ
    → CacheSlot
    → EntryState
    → TransitionAuthority
    → TransitionProof
    → CacheSlot × Result TransitionError StateTransition
unfolding check_transition
transition now s new_state authority proof = elim (check_transition s.state new_state) [
  | err e ↦ (s, err e)
  | ok _ ↦ (
    record s { state = new_state },
    ok (record {
      from = s.state;
      to = new_state;
      transitioned_at = now;
      content_address = s.content_address;
      authority = authority;
      proof = proof;
    }),
  )
]

unfoldable pub is_evictable : CacheSlot → Bool
is_evictable s = elim s.state [ active ↦ true | _ ↦ false ]

-- `decode` is `hex::decode(…).ok()`, and `package_version` the build's CARGO_PKG_VERSION.
unfoldable pub parse_fingerprint : (Str → Option Bytes) → Str → Str → ComputationFingerprint
parse_fingerprint decode package_version hex_str = elim (decode hex_str) [
  | none ↦ empty_fingerprint
  | some bytes ↦ if ltb (length bytes) 96 then empty_fingerprint else record {
    input_hash = take 32 bytes;
    computation_hash = take 32 (drop 32 bytes);
    parameter_hash = take 32 (drop 64 bytes);
    version = record { engine = ascii "cachee-cli"; version = package_version; circuit_id = none };
    hardware_class = none;
  }
]
