-- ===== src/Archive/Verify/Verdict.antt =====
-- What a verdict says of the bundle.
use cachee_cli.Base.{◌<◌, Bytes, Bool, true, false, ◌≡◌, ◌↔◌, ◌⊎◌, inl, inr, arith}
use cachee_cli.Base.{bytes_eq, bytes_eq_iff, ltb, leb, unwrap_or, refl, ltb→lt, lt→ltb}
use cachee_cli.Crypto.{PqCrypto, PqFamily, verify_family, valid_count}
use cachee_cli.Crypto.{verify_mldsa65, verify_falcon512, verify_slhdsa128f}
use cachee_cli.Archive.Types.{CacheeArchiveBundle, cab_magic}
use cachee_cli.Archive.Verify.{verify, is_valid, check_signatures, check_structure, verdict_of}

-- A signature that the family's crate reads, and accepts for the message.
pub record Accepts (f : PqFamily) (public_key message signature : Bytes) : Type 0 where
  pub key_read : f.public_key_ok public_key ≡ true
  pub signature_read : f.signature_ok signature ≡ true
  pub accepted : f.verify_detached_signature signature message public_key ≡ true

abbrev pub AtLeastTwo : Type 0 → Type 0 → Type 0 → Type 0
AtLeastTwo P Q R = (P × Q) ⊎ (P × R) ⊎ (Q × R)

-- Two of the three families accept the bundle's signatures over its content hash.
abbrev pub TwoFamiliesAccept : PqCrypto → CacheeArchiveBundle → Type 0
TwoFamiliesAccept pq b =
    AtLeastTwo (Accepts pq.dilithium3 b.signer_keys.mldsa65 b.content_hash b.signatures.mldsa65)
      (Accepts pq.falcon512 b.signer_keys.falcon512 b.content_hash b.signatures.falcon512)
      (Accepts pq.sphincssha2128fsimple b.signer_keys.slhdsa128f b.content_hash
        b.signatures.slhdsa128f)

family-Accepts :
    (f : PqFamily) (pk m s : Bytes)
    → (unwrap_or (verify_family f pk m s) false ≡ true) ↔ Accepts f pk m s
unfolding verify_family
family-Accepts f pk m s = (λ h. ground arith, λ h. ground arith)

count_two :
    (a b c : Bool) → leb 2 (valid_count a b c) ≡ true → AtLeastTwo (a ≡ true) (b ≡ true) (c ≡ true)
unfolding valid_count
count_two true true c h = inl (refl, refl)
count_two true false true h = inr (inl (refl, refl))
count_two false true true h = inr (inr (refl, refl))
count_two true false false h = cc
count_two false true false h = cc
count_two false false true h = cc
count_two false false false h = cc

two_count :
    (a b c : Bool) → AtLeastTwo (a ≡ true) (b ≡ true) (c ≡ true) → leb 2 (valid_count a b c) ≡ true
unfolding valid_count
two_count a b c h = ground arith

AtLeastTwo-map :
    {P Q R P' Q' R' : Type 0}
    → (P → P')
    → (Q → Q')
    → (R → R')
    → AtLeastTwo P Q R
    → AtLeastTwo P' Q' R'
AtLeastTwo-map f g h (inl (p, q)) = inl (f p, g q)
AtLeastTwo-map f g h (inr (inl (p, r))) = inr (inl (f p, h r))
AtLeastTwo-map f g h (inr (inr (q, r))) = inr (inr (g q, h r))

-- The two-of-three flag is set exactly when at least two families can read their key and signature
-- and accept the signature over the content hash.
pub two_of_three-check_signatures :
    (pq : PqCrypto) (b : CacheeArchiveBundle)
    → ((check_signatures pq b).two_of_three ≡ true) ↔ TwoFamiliesAccept pq b
unfolding check_signatures verify_mldsa65 verify_falcon512 verify_slhdsa128f
two_of_three-check_signatures pq b =
    let k = b.signer_keys in
    let s = b.signatures in
    let m = b.content_hash in
    let d = family-Accepts pq.dilithium3 k.mldsa65 m s.mldsa65 in
    let f = family-Accepts pq.falcon512 k.falcon512 m s.falcon512 in
    let p = family-Accepts pq.sphincssha2128fsimple k.slhdsa128f m s.slhdsa128f in
    (
      λ h. AtLeastTwo-map d.0 f.0 p.0 (count_two _ _ _ h),
      λ h. two_count _ _ _ (AtLeastTwo-map d.1 f.1 p.1 h),
    )

-- The tests that a valid verdict has passed.
passed_tests :
    (pq : PqCrypto) (b : CacheeArchiveBundle)
    → is_valid (verify pq b) ≡ true
    → (bytes_eq b.magic cab_magic ≡ true)
      × (bytes_eq b.primitive.value_hash b.content_hash ≡ true)
      × (ltb 0 b.timestamp_ns ≡ true)
      × ((check_signatures pq b).two_of_three ≡ true)
unfolding verify is_valid verdict_of check_structure
passed_tests pq b h = ground arith

passing_tests :
    (pq : PqCrypto) (b : CacheeArchiveBundle)
    → bytes_eq b.magic cab_magic ≡ true
    → bytes_eq b.primitive.value_hash b.content_hash ≡ true
    → ltb 0 b.timestamp_ns ≡ true
    → (check_signatures pq b).two_of_three ≡ true
    → is_valid (verify pq b) ≡ true
unfolding verify is_valid verdict_of check_structure
passing_tests pq b h i j k = ground arith

-- A bundle is reported valid exactly when it has the magic bytes, the primitive commits to the
-- content hash, the timestamp is not zero, and at least two families accept their signatures.
pub is_valid-verify :
    (pq : PqCrypto) (b : CacheeArchiveBundle)
    → (is_valid (verify pq b) ≡ true) ↔ (
        (b.magic ≡ cab_magic)
        × (b.primitive.value_hash ≡ b.content_hash)
        × (0 < b.timestamp_ns)
        × TwoFamiliesAccept pq b)
is_valid-verify pq b =
    let m = bytes_eq_iff b.magic cab_magic in
    let v = bytes_eq_iff b.primitive.value_hash b.content_hash in
    let t = two_of_three-check_signatures pq b in
    (
      λ h. let p = passed_tests pq b h in (m.0 p.0, v.0 p.1, ltb→lt 0 b.timestamp_ns p.2, t.0 p.3),
      λ h. passing_tests pq b (m.1 h.0) (v.1 h.1) (lt→ltb 0 b.timestamp_ns h.2) (t.1 h.3),
    )
