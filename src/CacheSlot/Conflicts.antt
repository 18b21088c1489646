-- ===== src/CacheSlot/Conflicts.antt =====
-- What a write conflict says of the stored and the incoming result.
use cachee_cli.Base.{Bytes, true, some, ◌≡◌, ◌≢◌, ◌↔◌, ap, arith, bytes_eq}
use cachee_cli.Base.{bytes_eq_iff}
use cachee_cli.Archive.Types.{ComputationFingerprint, Codecs}
use cachee_cli.Archive.Fingerprint.{digest}
use cachee_cli.CacheSlot.{CacheSlot, no_conflict, fingerprint_collision, result_duplicate}
use cachee_cli.CacheSlot.{detect_conflict}

-- The hash does not collide on these two texts.
abbrev pub Separates : Codecs → Bytes → Bytes → Type 0
Separates c x y = c.sha3_256 x ≡ c.sha3_256 y → x ≡ y

module _ (c : Codecs) (s : CacheSlot) (value : Bytes) (fp : ComputationFingerprint) where
  same_hash_iff :
      Separates c value s.value
      → (bytes_eq (c.sha3_256 value) (c.sha3_256 s.value) ≡ true) ↔ (value ≡ s.value)
  same_hash_iff sep =
      let e = bytes_eq_iff (c.sha3_256 value) (c.sha3_256 s.value) in
      (λ h. sep (e.0 h), λ h. e.1 (ap c.sha3_256 h))

  -- A write over an existing slot collides exactly when the digests agree and the values differ,
  -- duplicates a result exactly when the values agree and the digests differ, and has no conflict
  -- exactly when both agree or both differ, if the hash separates the two values.
  pub conflict_iff :
      Separates c value s.value
      → ((detect_conflict c (some s) value fp
            ≡ fingerprint_collision s.content_address (c.sha3_256 value))
          ↔ ((digest c s.fingerprint ≡ digest c fp) × (value ≢ s.value)))
        × ((detect_conflict c (some s) value fp ≡ result_duplicate s.fingerprint fp)
            ↔ ((value ≡ s.value) × (digest c s.fingerprint ≢ digest c fp)))
        × ((detect_conflict c (some s) value fp ≡ no_conflict)
            ↔ ((value ≡ s.value) ↔ (digest c s.fingerprint ≡ digest c fp)))
  unfolding detect_conflict
  conflict_iff sep =
      let v = same_hash_iff sep in
      let d = bytes_eq_iff (digest c s.fingerprint) (digest c fp) in
      (
        (
          λ h. (grind (arith, v.0, v.1, d.0, d.1), grind (arith, v.0, v.1, d.0, d.1)),
          λ h. grind (arith, v.0, v.1, d.0, d.1),
        ),
        (
          λ h. (grind (arith, v.0, v.1, d.0, d.1), grind (arith, v.0, v.1, d.0, d.1)),
          λ h. grind (arith, v.0, v.1, d.0, d.1),
        ),
        (
          λ h. (grind (arith, v.0, v.1, d.0, d.1), grind (arith, v.0, v.1, d.0, d.1)),
          λ h. grind (arith, v.0, v.1, d.0, d.1),
        ),
      )
