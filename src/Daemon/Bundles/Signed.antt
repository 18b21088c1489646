-- ===== src/Daemon/Bundles/Signed.antt =====
-- Whether the bundle of a SET verifies.
use cachee_cli.Base.{◌<◌, Bytes, Str, true, false, none, some, [], ◌≡◌, refl, inl, inr}
use cachee_cli.Archive.Types.{CacheeArchiveBundle, Codecs, complete, partial}
use cachee_cli.Archive.Verify.{verify, is_valid}
use cachee_cli.Archive.Verify.Verdict.{Accepts, is_valid-verify}
use cachee_cli.Crypto.{PqFamily, PqCrypto}
use cachee_cli.CacheSlot.{CacheSlot}
use cachee_cli.PqKeys.{PqKeySet, sign, sign_one, public_keys}
use cachee_cli.Daemon.Bundles.{slot_to_bundle, assemble, bundle_identity, no_keys, no_signatures}

-- A key pair of a family: both keys are readable, and what the secret key signs is readable and
-- accepted under the public key.
pub record Pair (f : PqFamily) (public_key secret_key : Bytes) : Type 0 where
  pub public_ok : f.public_key_ok public_key ≡ true
  pub secret_ok : f.secret_key_ok secret_key ≡ true
  pub signature_ok : (m : Bytes) → f.signature_ok (f.detached_sign m secret_key) ≡ true
  pub accepted :
      (m : Bytes) → f.verify_detached_signature (f.detached_sign m secret_key) m public_key ≡ true

pub record Pairs (pq : PqCrypto) (keys : PqKeySet) : Type 0 where
  pub mldsa : Pair pq.dilithium3 keys.mldsa_pk keys.mldsa_sk
  pub falcon : Pair pq.falcon512 keys.falcon_pk keys.falcon_sk
  pub slhdsa : Pair pq.sphincssha2128fsimple keys.slhdsa_pk keys.slhdsa_sk

Pair-Accepts :
    (f : PqFamily) (pk sk m : Bytes) → Pair f pk sk → Accepts f pk m (f.detached_sign m sk)
Pair-Accepts f pk sk m p = record {
  key_read = p.public_ok;
  signature_read = p.signature_ok m;
  accepted = p.accepted m;
}

no_key : (f : PqFamily) (m s : Bytes) → f.public_key_ok [] ≡ false → ¬ (Accepts f [] m s)
no_key f m s unread a = cc (unread, a.key_read)

-- The bundle that a key set makes.
unfoldable signed_bundle : Codecs → PqCrypto → CacheSlot → PqKeySet → Str → CacheeArchiveBundle
signed_bundle c pq slot keys issuer =
    let h = c.sha3_256 slot.value in
    assemble h slot (public_keys keys)
      (record {
        mldsa_sig = pq.dilithium3.detached_sign h keys.mldsa_sk;
        falcon_sig = pq.falcon512.detached_sign h keys.falcon_sk;
        slhdsa_sig = pq.sphincssha2128fsimple.detached_sign h keys.slhdsa_sk;
      })
      complete (bundle_identity (some keys) issuer)

-- With a key set whose pairs work, and a slot that was not made at time 0, the bundle is made, and
-- is reported valid. Without keys the bundle is made, and is not reported valid, if no family reads
-- an empty public key.
pub slot_to_bundle-is_valid :
    (c : Codecs) (pq : PqCrypto) (slot : CacheSlot) (keys : PqKeySet) (issuer : Str)
    → Pairs pq keys
    → 0 < slot.created_at
    → pq.dilithium3.public_key_ok [] ≡ false
    → pq.falcon512.public_key_ok [] ≡ false
    → pq.sphincssha2128fsimple.public_key_ok [] ≡ false
    → ((b : CacheeArchiveBundle) × (slot_to_bundle c pq slot (some keys) issuer ≡ some b)
        × (is_valid (verify pq b) ≡ true))
      × ((b : CacheeArchiveBundle) × (slot_to_bundle c pq slot none issuer ≡ some b)
          × ¬ (is_valid (verify pq b) ≡ true))
unfolding slot_to_bundle sign sign_one public_keys assemble signed_bundle
slot_to_bundle-is_valid c pq slot keys issuer pairs late no_m no_f no_s =
    let h = c.sha3_256 slot.value in
    (
      (
        signed_bundle c pq slot keys issuer,
        rw (pairs.mldsa.secret_ok, pairs.falcon.secret_ok, pairs.slhdsa.secret_ok) refl,
        (is_valid-verify pq _).1 (
          refl,
          refl,
          late,
          inl (Pair-Accepts _ _ _ h pairs.mldsa, Pair-Accepts _ _ _ h pairs.falcon),
        ),
      ),
      (
        assemble h slot no_keys no_signatures partial (bundle_identity none issuer),
        refl,
        λ v. elim ((is_valid-verify pq _).0 v).3 [
          | inl (m, f) ↦ no_key _ _ _ no_m m
          | inr (inl (m, s)) ↦ no_key _ _ _ no_m m
          | inr (inr (f, s)) ↦ no_key _ _ _ no_f f
        ],
      ),
    )
