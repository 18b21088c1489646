-- ===== src/Daemon/Verified.antt =====
-- `get_verified` of src/daemon.rs: a verified read.
pub mod Missed
use cachee_cli.Base.{
  ℕ, Bytes, Str, Bool, true, false, Option, none, some, List, [], ◌&&◌, ok, err, if◌then◌else◌,
  ascii, find_key,
}
use cachee_cli.Archive.Types.{empty_fingerprint}
use cachee_cli.Archive.Verify.{CryptographicValidity, verify}
use cachee_cli.Lifecycle.{active}
use cachee_cli.CacheSlot.{CacheSlot, has_valid_fingerprint}
use cachee_cli.ContentStore.{ContentStore, get}
use cachee_cli.ReadContract.{VerificationStatus, SignatureSummary, CacheeReadResponse}
use cachee_cli.ReadContract.{fully_verified, verification_failed, unverified}
use cachee_cli.Daemon.World.{World, Shared}

-- A summary without a check.
abbrev pub no_check : SignatureSummary
no_check = record {
  mldsa_valid = none;
  falcon_valid = none;
  slhdsa_valid = none;
  two_of_three = false;
  last_full_check = 0;
}

-- What a verification of the stored bundle reports.
unfoldable pub checked : ℕ → CryptographicValidity → VerificationStatus × SignatureSummary
checked now_ns r =
    if r.two_of_three
    then (
      fully_verified now_ns (r.mldsa_valid && r.falcon_valid && r.slhdsa_valid) r.two_of_three,
      record {
        mldsa_valid = some r.mldsa_valid;
        falcon_valid = some r.falcon_valid;
        slhdsa_valid = some r.slhdsa_valid;
        two_of_three = r.two_of_three;
        last_full_check = now_ns;
      },
    )
    else (
      verification_failed r.mldsa_valid r.falcon_valid r.slhdsa_valid,
      record {
        mldsa_valid = some r.mldsa_valid;
        falcon_valid = some r.falcon_valid;
        slhdsa_valid = some r.slhdsa_valid;
        two_of_three = false;
        last_full_check = now_ns;
      },
    )

module _ (w : World) where
  -- The lookup in the content store; an error counts as no bundle.
  unfoldable pub check_stored :
      ContentStore w.env.sled w.codecs → CacheSlot → ℕ → VerificationStatus × SignatureSummary
  unfolding checked
  check_stored store slot now_ns = elim (get w.env.sled w.codecs store slot.content_address) [
    | ok (some bundle) ↦ checked now_ns (verify w.crypto bundle).cryptographic
    | ok none ↦ (unverified slot.trust.last_verified_at slot.trust.trust_score, no_check)
    | err e ↦ (unverified slot.trust.last_verified_at slot.trust.trust_score, no_check)
  ]

  unfoldable pub check_slot :
      ContentStore w.env.sled w.codecs → CacheSlot → ℕ → VerificationStatus × SignatureSummary
  unfolding check_stored
  check_slot store slot now_ns =
      if has_valid_fingerprint slot
      then check_stored store slot now_ns
      else (unverified slot.trust.last_verified_at 0, no_check)

  unfoldable pub slot_response :
      ContentStore w.env.sled w.codecs → Bytes → ℕ → Option CacheSlot → CacheeReadResponse
  unfolding check_slot
  slot_response store value now_ns (some slot) =
      let outcome = check_slot store slot now_ns in
      record {
        value = value;
        fingerprint = slot.fingerprint;
        verification = outcome.0;
        signatures = outcome.1;
        provenance = slot.provenance;
        state = slot.state;
        validity = slot.temporal.validity;
      }
  slot_response store value now_ns none = record {
    value = value;
    fingerprint = empty_fingerprint;
    verification = unverified 0 0;
    signatures = no_check;
    provenance = record {
      computed_by = ascii "unknown";
      computed_at = 0;
      computation_duration_us = 0;
      verified_by = [];
    };
    state = active;
    validity = record { valid_from = 0; valid_until = none; revalidation_trigger = none };
  }

  -- The state after the engine's read, and the response; `none` is a key that the engine misses.
  unfoldable pub get_verified : Shared w → Str → ℕ → Shared w × Option CacheeReadResponse
  unfolding slot_response
  get_verified s key now_ns =
      let (engine, found) = w.engine.get s.engine key in
      elim found [
        | none ↦ (record s { engine = engine }, none)
        | some value ↦ (
          record s { engine = engine },
          some (slot_response s.store value now_ns (find_key key s.slots)),
        )
      ]
