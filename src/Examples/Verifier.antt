-- ===== src/Examples/Verifier.antt =====
-- The theorems on the standalone verifier, at files with one bundle.
use cachee_cli.Base.{
  Bytes, Str, Option, none, some, List, [], ◌∷◌, ◌≡◌, ◌↔◌, ◌⊎◌, arith, ascii, true,
}
use cachee_cli.VerifyCli.{verify_one, verify_directory, exit}
use cachee_cli.VerifyCli.Verdicts.{
  Accepted, AllAccepted, verify_one-exit, verify_directory-AllAccepted,
}
use cachee_cli.Archive.Bundle.{serialize}
use cachee_cli.Examples.{toy_codecs, toy_crypto, toy_bundle}

abbrev toy_file : Option Bytes
toy_file = some (serialize toy_codecs toy_bundle)

abbrev toy_files : List (Str × Option Str × Option Bytes)
toy_files =
    (ascii "a.cab", some (ascii "cab"), toy_file) ∷ (ascii "b.txt", some (ascii "txt"), none) ∷ []

verify_one-exit_example :
    ((verify_one toy_codecs toy_crypto (λ xs. xs) (ascii "a.cab") toy_file true ≡ exit 0)
      × Accepted toy_codecs toy_crypto (λ xs. xs) toy_file)
    ⊎ ((verify_one toy_codecs toy_crypto (λ xs. xs) (ascii "a.cab") toy_file true ≡ exit 1)
        × ¬ (Accepted toy_codecs toy_crypto (λ xs. xs) toy_file))
verify_one-exit_example = verify_one-exit toy_codecs toy_crypto (λ xs. xs) (ascii "a.cab") toy_file

verify_directory-AllAccepted_example :
    (verify_directory toy_codecs toy_crypto (λ xs. xs) (some toy_files) ≡ exit 0)
    ↔ AllAccepted toy_codecs toy_crypto (λ xs. xs) toy_files
verify_directory-AllAccepted_example =
    verify_directory-AllAccepted toy_codecs toy_crypto (λ xs. xs) toy_files (omega arith)
