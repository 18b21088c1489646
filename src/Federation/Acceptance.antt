-- ===== src/Federation/Acceptance.antt =====
-- When a remote bundle is accepted.
use cachee_cli.Base.{Bytes, Bool, true, false, List, ◌≡◌, ◌≢◌, ◌↔◌, ◌⊎◌, inl, inr, not, ◌&&◌, arith}
use cachee_cli.Base.{bytes_eq_iff, refl}
use cachee_cli.Crypto.{PqCrypto}
use cachee_cli.Archive.Types.{CacheeArchiveBundle, Codecs, cab_magic, zero_hash}
use cachee_cli.Archive.Verify.{verify, is_valid, has_valid_fingerprint}
use cachee_cli.Archive.Verify.Verdict.{
  TwoFamiliesAccept, two_of_three-check_signatures, is_valid-verify,
}
use cachee_cli.Archive.Fingerprint.{has_valid_hashes}
use cachee_cli.Federation.{TrustBoundary, self_only, trusted_peers, any_verifiable, trusted_issuers}
use cachee_cli.Federation.{accepted, contains, check_boundary}
use cachee_cli.Federation.{accept_remote_bundle}

-- The issuer's key hash is among the trusted ones.
abbrev pub IssuerListed : Codecs → List Bytes → CacheeArchiveBundle → Type 0
IssuerListed c issuers b = contains issuers (c.sha3_256 b.signer_keys.mldsa65) ≡ true

abbrev pub BoundaryAllows : TrustBoundary → Type 0 → Type 0
BoundaryAllows self_only listed = ⊥
BoundaryAllows (trusted_peers _) listed = listed
BoundaryAllows any_verifiable listed = Unit
BoundaryAllows (trusted_issuers _) listed = listed

abbrev pub HasFingerprint : CacheeArchiveBundle → Type 0
HasFingerprint b =
    (b.computation_fingerprint.input_hash ≢ zero_hash)
    × (b.computation_fingerprint.computation_hash ≢ zero_hash)

verified_two :
    (pq : PqCrypto) (b : CacheeArchiveBundle)
    → ((verify pq b).cryptographic.two_of_three ≡ true)
      ↔ ((b.magic ≡ cab_magic) × TwoFamiliesAccept pq b)
unfolding verify
verified_two pq b =
    let m = bytes_eq_iff b.magic cab_magic in
    let t = two_of_three-check_signatures pq b in
    (λ h. (m.0 (ground arith), t.0 (ground arith)), λ h. ground (arith, m.1 h.0, t.1 h.1))

not_both_fail : (v t : Bool) → (not v && not t) ≡ false → (v ≡ true) ⊎ (t ≡ true)
not_both_fail v t h = ground arith

-- The first rule asks for the magic bytes and two families: a valid verdict asks for more.
first_rule :
    (pq : PqCrypto) (b : CacheeArchiveBundle)
    → ((not (is_valid (verify pq b)) && not (verify pq b).cryptographic.two_of_three) ≡ false)
      ↔ ((b.magic ≡ cab_magic) × TwoFamiliesAccept pq b)
first_rule pq b = (
  λ h. elim (not_both_fail _ _ h) [
    | inl v ↦ (let p = (is_valid-verify pq b).0 v in (p.0, p.3))
    | inr t ↦ (verified_two pq b).0 t
  ],
  λ h. rw ((verified_two pq b).1 h) (ground arith),
)

fingerprint_rule :
    (b : CacheeArchiveBundle) → (not (has_valid_fingerprint b) ≡ false) ↔ HasFingerprint b
unfolding has_valid_fingerprint has_valid_hashes
fingerprint_rule b =
    let i = bytes_eq_iff b.computation_fingerprint.input_hash zero_hash in
    let f = bytes_eq_iff b.computation_fingerprint.computation_hash zero_hash in
    (
      λ h. (grind (arith, i.0, i.1), grind (arith, f.0, f.1)),
      λ h. grind (arith, i.0, i.1, f.0, f.1),
    )

boundary_rule :
    (t : TrustBoundary) (trusted : Bool)
    → (check_boundary t trusted ≡ accepted) ↔ BoundaryAllows t (trusted ≡ true)
unfolding check_boundary
boundary_rule self_only trusted = (λ h. cc, λ h. absurd h)
boundary_rule (trusted_peers _) trusted = (λ h. ground arith, λ h. ground arith)
boundary_rule any_verifiable trusted = (λ h. tt, λ h. refl)
boundary_rule (trusted_issuers _) trusted = (λ h. ground arith, λ h. ground arith)

-- The three rules in order.
rules_in_order :
    (c : Codecs) (pq : PqCrypto) (b : CacheeArchiveBundle) (t : TrustBoundary)
    (issuers : List Bytes)
    → (accept_remote_bundle c pq b t issuers ≡ accepted) ↔ (
        ((not (is_valid (verify pq b)) && not (verify pq b).cryptographic.two_of_three) ≡ false)
        × (not (has_valid_fingerprint b) ≡ false)
        × (check_boundary t (contains issuers (c.sha3_256 b.signer_keys.mldsa65)) ≡ accepted))
unfolding accept_remote_bundle
rules_in_order c pq b t issuers =
    (λ h. (ground arith, ground arith, ground arith), λ h. rw (h.0, h.1) h.2)

-- A remote bundle is accepted exactly when it has the magic bytes, two families accept its
-- signatures, its input and computation hashes are not all zeros, and the boundary allows it:
-- never in self-only mode, always for any verifiable result, and otherwise if the hash of the
-- signer's ML-DSA key is listed. The content hash and the timestamp do not matter.
pub accepted_iff :
    (c : Codecs) (pq : PqCrypto) (b : CacheeArchiveBundle) (t : TrustBoundary)
    (issuers : List Bytes)
    → (accept_remote_bundle c pq b t issuers ≡ accepted) ↔ (
        (b.magic ≡ cab_magic)
        × TwoFamiliesAccept pq b
        × HasFingerprint b
        × BoundaryAllows t (IssuerListed c issuers b))
accepted_iff c pq b t issuers =
    let r = rules_in_order c pq b t issuers in
    let s = first_rule pq b in
    let f = fingerprint_rule b in
    let l = boundary_rule t (contains issuers (c.sha3_256 b.signer_keys.mldsa65)) in
    (
      λ h. (let p = r.0 h in ((s.0 p.0).0, (s.0 p.0).1, f.0 p.1, l.0 p.2)),
      λ h. r.1 (s.1 (h.0, h.1), f.1 h.2, l.1 h.3),
    )

-- The acceptance rule does not look at the verdict: a bundle whose primitive does not commit to its
-- content hash is reported invalid, and is accepted all the same if it passes the other rules.
pub accepted_although_invalid :
    (c : Codecs) (pq : PqCrypto) (b : CacheeArchiveBundle) (issuers : List Bytes)
    → b.magic ≡ cab_magic
    → TwoFamiliesAccept pq b
    → HasFingerprint b
    → b.primitive.value_hash ≢ b.content_hash
    → (is_valid (verify pq b) ≢ true)
      × (accept_remote_bundle c pq b any_verifiable issuers ≡ accepted)
accepted_although_invalid c pq b issuers magic two fp differs = (
  λ v. differs ((is_valid-verify pq b).0 v).1,
  (accepted_iff c pq b any_verifiable issuers).1 (magic, two, fp, tt),
)
