-- ===== src/PqKeys/Rotation.antt =====
-- What any number of rotations keeps.
use cachee_cli.Base.{
  ℕ, ◌+◌, ◌%◌, ◌^◌, Bytes, false, List, [], ◌∷◌, ◌≡◌, refl, ap, ◌∙◌, arith, length,
}
use cachee_cli.PqKeys.{PqKeySet, KeyPairs, CryptoPosture, generate, rotate, compute_key_id}

module _ (sha3_256 : Bytes → Bytes) where
  abbrev pub rotate_all : List (KeyPairs × ℕ) → PqKeySet → PqKeySet
  rotate_all [] keys = keys
  rotate_all ((drawn, now) ∷ rest) keys = rotate_all rest (rotate sha3_256 drawn now keys)

  -- The key set after `n` rotations of one whose posture was `posture`.
  pub record Rotated (n : ℕ) (posture : CryptoPosture) (keys : PqKeySet) : Type 0 where
    pub key_id :
        keys.metadata.key_id ≡ compute_key_id sha3_256 keys.mldsa_pk keys.falcon_pk keys.slhdsa_pk
    pub version : keys.metadata.version ≡ (1 + n) % 2 ^ 32
    pub same_posture : keys.metadata.posture ≡ posture
    pub not_revoked : keys.metadata.revoked ≡ false

  rotate-Rotated :
      (n : ℕ) (p : CryptoPosture) (keys : PqKeySet) (drawn : KeyPairs) (now : ℕ)
      → Rotated n p keys
      → Rotated (n + 1) p (rotate sha3_256 drawn now keys)
  unfolding rotate
  rotate-Rotated n p keys drawn now r = record {
    key_id = refl;
    version = ap (λ v. (v + 1) % 2 ^ 32) r.version ∙ (omega arith);
    same_posture = r.same_posture;
    not_revoked = refl;
  }

  rotate_all-Rotated :
      (n : ℕ) (p : CryptoPosture) (keys : PqKeySet) (draws : List (KeyPairs × ℕ))
      → Rotated n p keys
      → Rotated (n + length draws) p (rotate_all draws keys)
  rotate_all-Rotated n p keys [] r = record {
    key_id = r.key_id;
    version = r.version ∙ (omega arith);
    same_posture = r.same_posture;
    not_revoked = r.not_revoked;
  }
  rotate_all-Rotated n p keys ((drawn, now) ∷ rest) r =
      let s =
        rotate_all-Rotated (n + 1) p (rotate sha3_256 drawn now keys) rest
          (rotate-Rotated n p keys drawn now r) in
      record {
        key_id = s.key_id;
        version = s.version ∙ (omega arith);
        same_posture = s.same_posture;
        not_revoked = s.not_revoked;
      }

  -- After any number of rotations of a fresh key set, the identifier is the hash of the current
  -- public keys, the version is one more than the number of rotations, modulo 2^32, and the posture
  -- is the first one.
  pub generate-Rotated :
      (drawn : KeyPairs) (now : ℕ) (p : CryptoPosture) (draws : List (KeyPairs × ℕ))
      → Rotated (length draws) p (rotate_all draws (generate sha3_256 drawn now p))
  unfolding generate
  generate-Rotated drawn now p draws =
      let s =
        rotate_all-Rotated 0 p (generate sha3_256 drawn now p) draws
          (record { key_id = refl; version = refl; same_posture = refl; not_revoked = refl }) in
      record {
        key_id = s.key_id;
        version = s.version ∙ (omega arith);
        same_posture = s.same_posture;
        not_revoked = s.not_revoked;
      }
