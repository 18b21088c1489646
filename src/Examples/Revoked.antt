-- ===== src/Examples/Revoked.antt =====
-- The theorem on a revoked key, at a directory with two files.
use cachee_cli.Base.{
  Bytes, Str, true, Option, none, some, [], ◌∷◌, ◌++◌, ◌≡◌, refl, err, ascii, find_key, put_key,
  remove_key, bytes_eq, replicate, lines, finish_lines, split_on, split_onto, strip_cr, find_line,
  starts_with,
}
use cachee_cli.Config.{parse_failed}
use cachee_cli.Security.{api_key_text, toml_line, quoted_field}
use cachee_cli.Security.Revoking.{
  KeyDir, key_revoked, OnlyIn, OtherKey, auth_revoke, auth_revoke-load_api_keys,
}
use cachee_cli.Daemon.Connection.{ApiKeyRegistry}
use cachee_cli.Daemon.KeyFiles.{extract_toml_field, read_key_files, add_credentials, load_api_keys}

abbrev toy_dir : KeyDir
toy_dir =
    (
      ascii "apikey-a1.toml",
      some (api_key_text (ascii "a1") (ascii "app") (ascii "read") (ascii "0606") (ascii "7")),
    )
    ∷ (ascii "apikey-b2.toml", none)
    ∷ []

abbrev toy_hash : Bytes
toy_hash = replicate 32 6

toy_dir-OnlyIn :
    OnlyIn (λ s. some toy_hash) toy_hash (ascii "apikey-" ++ (ascii "a1" ++ ascii ".toml")) toy_dir
unfolding bytes_eq
toy_dir-OnlyIn = (tt, (tt, tt))

toy_dir-revoked : (auth_revoke true (ascii "a1") toy_dir).1 ≡ key_revoked
unfolding auth_revoke find_key bytes_eq
toy_dir-revoked = refl

-- A toy hash: the text itself.
abbrev toy_sha3 : Bytes → Bytes
toy_sha3 s = s

abbrev toy_credentials : Option Str
toy_credentials = some (toml_line (ascii "api_key") (ascii "ck_live"))

abbrev toy_registry : ApiKeyRegistry
toy_registry =
    (
      ascii "ck_live",
      record {
        key_id = ascii "cli-credentials";
        label = ascii "CLI signup key";
        permissions = ascii "read,write";
        ops_limit = 1000;
      },
    )
    ∷ []

toy_credentials-OtherKey : OtherKey (λ s. some toy_hash) toy_hash toy_sha3 toy_credentials
unfolding bytes_eq extract_toml_field quoted_field lines finish_lines split_on split_onto strip_cr
    find_line starts_with toml_line
toy_credentials-OtherKey = refl

toy_registry-loaded :
    load_api_keys
      (λ s. some toy_hash)
      toy_sha3
      (some (auth_revoke true (ascii "a1") toy_dir).0)
      toy_credentials
      (err parse_failed)
    ≡ some toy_registry
unfolding load_api_keys auth_revoke find_key remove_key bytes_eq read_key_files add_credentials
    put_key extract_toml_field quoted_field lines finish_lines split_on split_onto strip_cr
    find_line starts_with toml_line
toy_registry-loaded = refl

auth_revoke-load_api_keys_example : find_key toy_hash toy_registry ≡ none
auth_revoke-load_api_keys_example =
    auth_revoke-load_api_keys (λ s. some toy_hash) toy_hash toy_sha3 true (ascii "a1") toy_dir
      toy_credentials (err parse_failed) toy_registry toy_dir-OnlyIn toy_credentials-OtherKey
      toy_dir-revoked toy_registry-loaded
