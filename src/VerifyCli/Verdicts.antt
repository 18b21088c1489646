-- ===== src/VerifyCli/Verdicts.antt =====
-- When the standalone verifier reports a bundle as valid, and how it ends.
use cachee_cli.Base.{
  ◌+◌, ◌^◌, ◌<◌, Bytes, Str, true, false, ◌||◌, Option, none, some, List, [], ◌∷◌, ok, err, ◌≡◌,
  ◌↔◌, ◌⊎◌, refl, inl, inr, arith, Bool-cases, Result-cases, bytes_eq, bytes_eq_iff, ascii, length,
  wrap64, wrap64-small, ltb,
}
use mathlib.Core.Path.{subst}
use cachee_cli.Crypto.{PqCrypto}
use cachee_cli.Archive.Types.{CacheeArchiveBundle, Codecs, cab_magic}
use cachee_cli.Archive.Wire.{Error}
use cachee_cli.Archive.Bundle.{deserialize}
use cachee_cli.Archive.Verify.{verify, is_valid}
use cachee_cli.Archive.Verify.Verdict.{
  TwoFamiliesAccept, two_of_three-check_signatures, is_valid-verify,
}
use cachee_cli.VerifyCli.{
  verify_file, verified_file, failed_file, verify_one, print_result, verify_entries,
  verify_directory, magic_of, deserialization_failed, count_one, Counts, exit, panicked,
}

exit-one : ¬ (exit 1 ≡ exit 0)
exit-one h = cc h

two_of_three-verify :
    (pq : PqCrypto) (b : CacheeArchiveBundle)
    → ((verify pq b).cryptographic.two_of_three ≡ true)
      ↔ ((b.magic ≡ cab_magic) × TwoFamiliesAccept pq b)
unfolding verify
two_of_three-verify pq b = elim (Bool-cases (bytes_eq b.magic cab_magic)) [
  | inr wrong ↦ (
    λ h. absurd (cc (rw (verify, wrong) at h)),
    λ h. absurd (cc ((bytes_eq_iff b.magic cab_magic).1 h.0, wrong)),
  )
  | inl right ↦
      let two = two_of_three-check_signatures pq b in
      (
        λ h. ((bytes_eq_iff b.magic cab_magic).0 right, two.0 (rw (verify, right) at h)),
        λ h. rw (verify, right) (two.1 h.1),
      )
]

valid_iff :
    (pq : PqCrypto) (b : CacheeArchiveBundle)
    → ((is_valid (verify pq b) || (verify pq b).cryptographic.two_of_three) ≡ true)
      ↔ ((b.magic ≡ cab_magic) × TwoFamiliesAccept pq b)
valid_iff pq b = (
  λ h. elim (Bool-cases (verify pq b).cryptographic.two_of_three) [
    | inl two ↦ (two_of_three-verify pq b).0 two
    | inr few ↦ elim (Bool-cases (is_valid (verify pq b))) [
      | inl v ↦ let a = (is_valid-verify pq b).0 v in (a.0, a.3)
      | inr invalid ↦ absurd (cc (rw (invalid, few) at h))
    ]
  ],
  λ h. ground (arith, (two_of_three-verify pq b).1 h),
)

module _ (c : Codecs) (pq : PqCrypto) (hex_encode : Bytes → Str) where
  -- The file can be read, and holds a bundle with the magic bytes and two accepted signatures.
  abbrev pub Accepted : Option Bytes → Type 0
  Accepted none = ⊥
  Accepted (some bytes) =
      (b : CacheeArchiveBundle) × (deserialize c bytes ≡ ok b)
      × (b.magic ≡ cab_magic)
      × TwoFamiliesAccept pq b

  -- The verifier calls a file valid exactly when it can be read, deserializes to a bundle with the
  -- magic bytes, and two of the three families accept their signatures over its content hash: neither
  -- the primitive's value hash nor the timestamp counts.
  pub verify_file-Accepted :
      (path : Str) (found : Option Bytes)
      → ((verify_file c pq hex_encode path found).valid ≡ true) ↔ Accepted found
  unfolding verify_file verified_file failed_file
  verify_file-Accepted path none = (λ h. cc h, λ h. absurd h)
  verify_file-Accepted path (some bytes) = elim (Result-cases (deserialize c bytes)) [
    | inl (b, read) ↦
        let v = valid_iff pq b in
        (
          λ h. (
            b,
            read,
            (v.0 (rw (verify_file, read) at h)).0,
            (v.0 (rw (verify_file, read) at h)).1,
          ),
          λ h.
              rw (verify_file, read)
                (v.1 (
                  let e : h.0 ≡ b = cc (h.1, read) in
                  subst (λ x. (x.magic ≡ cab_magic) × TwoFamiliesAccept pq x) e (h.2, h.3))),
        )
    | inr (e, fails) ↦
        (λ h. absurd (cc (rw (verify_file, fails) at h)), λ h. absurd (cc (h.1, fails)))
  ]

  -- With --json the verifier ends with code 0 on the files that can be read, deserialize to a bundle
  -- with the magic bytes, and have two accepted signatures over the content hash, and with code 1 on
  -- the others.
  pub verify_one-exit :
      (path : Str) (found : Option Bytes)
      → ((verify_one c pq hex_encode path found true ≡ exit 0) × Accepted found)
        ⊎ ((verify_one c pq hex_encode path found true ≡ exit 1) × ¬ (Accepted found))
  unfolding verify_one print_result
  verify_one-exit path found = elim (Bool-cases (verify_file c pq hex_encode path found).valid) [
    | inl valid ↦ inl (rw (verify_one, valid) refl, (verify_file-Accepted path found).0 valid)
    | inr invalid ↦
        inr
          (rw (verify_one, invalid) refl, λ a. cc ((verify_file-Accepted path found).1 a, invalid))
  ]

  failed_bytes :
      (path : Str) (bytes : Bytes) (e : Error)
      → deserialize c bytes ≡ err e
      → verify_file c pq hex_encode path (some bytes)
        ≡ failed_file path (magic_of bytes) (deserialization_failed e)
  unfolding verify_file
  failed_bytes path bytes e fails = rw (verify_file, fails) refl

  -- Without --json the verifier panics on a file that cannot be read, and on one that does not
  -- deserialize.
  pub verify_one-panicked :
      (path : Str) (found : Option Bytes)
      → ((bytes : Bytes) → found ≡ some bytes → (e : Error) × (deserialize c bytes ≡ err e))
      → verify_one c pq hex_encode path found false ≡ panicked
  unfolding verify_one verify_file print_result failed_file
  verify_one-panicked path none unreadable = refl
  verify_one-panicked path (some bytes) unreadable =
      let (e, fails) = unreadable bytes refl in
      rw (verify_one, failed_bytes path bytes e fails) refl

  -- Every file with the extension is called valid.
  abbrev pub AllAccepted : List (Str × Option Str × Option Bytes) → Type 0
  AllAccepted [] = Unit
  AllAccepted ((path, none, found) ∷ files) = AllAccepted files
  AllAccepted ((path, some ext, found) ∷ files) =
      (ext ≡ ascii "cab" → Accepted found) × AllAccepted files

  entries_invalid :
      (files : List (Str × Option Str × Option Bytes)) (n : Counts)
      → n.invalid + length files < 2 ^ 64
      → ((verify_entries c pq hex_encode files n).invalid ≡ 0)
        ↔ ((n.invalid ≡ 0) × AllAccepted files)
  unfolding verify_entries count_one
  entries_invalid [] n fits = (λ h. (h, tt), λ h. h.0)
  entries_invalid ((path, none, found) ∷ files) n fits =
      entries_invalid files n (omega (arith, fits))
  entries_invalid ((path, some ext, found) ∷ files) n fits =
      let r = verify_file c pq hex_encode path found in
      let accepted = verify_file-Accepted path found in
      elim (Bool-cases (bytes_eq ext (ascii "cab"))) [
        | inr other ↦
            let rest = entries_invalid files n (omega (arith, fits)) in
            rw (verify_entries, other)
              (
                λ h.
                    let i = rest.0 h in
                    (i.0, (λ e. absurd (cc ((bytes_eq_iff ext (ascii "cab")).1 e, other)), i.1)),
                λ h. rest.1 (h.0, h.1.1),
              )
        | inl cab ↦ elim (Bool-cases r.valid) [
          | inl valid ↦
              let next : Counts = record n {
                total = wrap64 (n.total + 1);
                valid = wrap64 (n.valid + 1);
              } in
              let rest = entries_invalid files next (omega (arith, fits)) in
              rw (verify_entries, cab, count_one, valid)
                (
                  λ h. let i = rest.0 h in (i.0, (λ e. accepted.0 valid, i.1)),
                  λ h. rest.1 (h.0, h.1.1),
                )
          | inr invalid ↦
              let next : Counts = record n {
                total = wrap64 (n.total + 1);
                invalid = wrap64 (n.invalid + 1);
              } in
              let small = wrap64-small (n.invalid + 1) (omega (arith, fits)) in
              let rest = entries_invalid files next (omega (arith, fits, small)) in
              rw (verify_entries, cab, count_one, invalid)
                (
                  λ h. absurd (omega (arith, (rest.0 h).0, small)),
                  λ h.
                      absurd
                        (cc (accepted.1 (h.1.0 ((bytes_eq_iff ext (ascii "cab")).0 cab)), invalid)),
                )
        ]
      ]

  -- With --dir, on a directory that it can read, the verifier ends with code 0 exactly when every file
  -- whose extension is cab can be read, deserializes to a bundle with the magic bytes, and has two
  -- accepted signatures; there are fewer than 2^64 files.
  pub verify_directory-AllAccepted :
      (files : List (Str × Option Str × Option Bytes))
      → length files < 2 ^ 64
      → (verify_directory c pq hex_encode (some files) ≡ exit 0) ↔ AllAccepted files
  unfolding verify_directory
  verify_directory-AllAccepted files fits =
      let start : Counts = record { total = 0; valid = 0; invalid = 0 } in
      let bad = (verify_entries c pq hex_encode files start).invalid in
      let iff = entries_invalid files start (omega (arith, fits)) in
      elim (Bool-cases (ltb 0 bad)) [
        | inl some_bad ↦ (
          λ h. absurd (exit-one (rw (some_bad, verify_directory) at h)),
          λ a. absurd (ground (arith, iff.1 (refl, a), some_bad)),
        )
        | inr none_bad ↦
            (λ h. (iff.0 (ground (arith, none_bad))).1, λ a. rw (none_bad, verify_directory) refl)
      ]
