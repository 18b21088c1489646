-- ===== src/Security/Revoking.antt =====
-- `auth_revoke` of src/security.rs, and the registry that src/daemon.rs loads after it.
use cachee_cli.Base.{
  Bytes, Str, Bool, false, Option, none, some, List, [], ◌∷◌, ◌++◌, ◌≡◌, refl, sym, ap, ◌∙◌, inl,
  inr, Result, length, ◌==◌, ascii, find_key, put_key, remove_key, bytes_eq, find_key-put_other,
  Bool-cases, Option-cases, All, ◌&&◌, starts_with, ends_with, if◌then◌else◌,
}
use cachee_cli.Daemon.Connection.{ApiKeyEntry, ApiKeyRegistry}
use cachee_cli.Config.{ConfigError, CacheeConfig}
use cachee_cli.Daemon.KeyFiles.{
  read_entry, read_key_files, add_credentials, load_api_keys, extract_toml_field,
}

-- The files of the directory of keys, each with its text, if it can be read.
abbrev pub KeyDir : Type 0
KeyDir = List (Bytes × Option Str)

pub data Revoked : Type 0 where
  key_revoked key_not_found remove_failed : Revoked

-- The directory afterwards, and the outcome. The flag is whether `remove_file` succeeds.
unfoldable pub auth_revoke : Bool → Str → KeyDir → KeyDir × Revoked
auth_revoke removable key_id dir =
    let name = ascii "apikey-" ++ (key_id ++ ascii ".toml") in
    elim (find_key name dir) [
      | none ↦ (dir, key_not_found)
      | some text ↦ if removable then (remove_key name dir, key_revoked) else (dir, remove_failed)
    ]

module _ (hex_decode : Str → Option Bytes) (hash : Bytes) where
  abbrev OtherHash : Option (Bytes × ApiKeyEntry) → Type 0
  OtherHash none = Unit
  OtherHash (some (h, entry)) = bytes_eq h hash ≡ false

  -- The file does not give the hash.
  abbrev pub Foreign : Option Str → Type 0
  Foreign none = Unit
  Foreign (some content) = OtherHash (read_entry hex_decode content)

  -- Every file but the one of the name is foreign.
  abbrev pub OnlyIn : Str → KeyDir → Type 0
  OnlyIn name [] = Unit
  OnlyIn name ((n, text) ∷ dir) =
      (if bytes_eq n name then Unit {0} else Foreign text) × OnlyIn name dir

  read-Foreign :
      (dir : KeyDir) (registry : ApiKeyRegistry)
      → All (λ f. Foreign f.1) dir
      → find_key hash (read_key_files hex_decode dir registry) ≡ find_key hash registry
  unfolding read_key_files
  read-Foreign [] registry a = refl
  read-Foreign ((n, none) ∷ dir) registry a = read-Foreign dir registry a.1
  read-Foreign ((n, some content) ∷ dir) registry a =
      elim (Bool-cases (starts_with n (ascii "apikey-") && ends_with n (ascii ".toml"))) [
        | inr other ↦ rw (read_key_files, other) (read-Foreign dir registry a.1)
        | inl named ↦ elim (Option-cases (read_entry hex_decode content)) [
          | inl bare ↦ rw (read_key_files, named, bare) (read-Foreign dir registry a.1)
          | inr ((h, entry), read) ↦
              let apart : bytes_eq h hash ≡ false = rw read at a.0 in
              rw (read_key_files, named, read)
                (read-Foreign dir (put_key h entry registry) a.1
                  ∙ find_key-put_other h hash entry registry apart)
        ]
      ]

  removed-Foreign :
      (name : Str) (dir : KeyDir) → OnlyIn name dir → All (λ f. Foreign f.1) (remove_key name dir)
  unfolding remove_key
  removed-Foreign name [] o = tt
  removed-Foreign name ((n, text) ∷ dir) o = elim (Bool-cases (bytes_eq n name)) [
    | inl same ↦ rw (remove_key, same) (removed-Foreign name dir o.1)
    | inr differ ↦
        let foreign : Foreign text = rw differ at o.0 in
        rw (remove_key, differ) (foreign, removed-Foreign name dir o.1)
  ]

  revoked-read_key_files :
      (removable : Bool) (key_id : Str) (dir : KeyDir)
      → OnlyIn (ascii "apikey-" ++ (key_id ++ ascii ".toml")) dir
      → (auth_revoke removable key_id dir).1 ≡ key_revoked
      → find_key hash (read_key_files hex_decode (auth_revoke removable key_id dir).0 []) ≡ none
  unfolding auth_revoke find_key
  revoked-read_key_files removable key_id dir o done =
      let name = ascii "apikey-" ++ (key_id ++ ascii ".toml") in
      elim (Option-cases (find_key name dir)) [
        | inl miss ↦ absurd (cc (rw (auth_revoke, miss) at done))
        | inr (text, hit) ↦ elim (Bool-cases removable) [
          | inr stays ↦ absurd (cc (rw (auth_revoke, hit, stays) at done))
          | inl goes ↦
              rw (auth_revoke, hit, goes)
                (read-Foreign (remove_key name dir) [] (removed-Foreign name dir o))
        ]
      ]

  module _ (sha3_256 : Bytes → Bytes) where
    -- The key of credentials.toml has another hash.
    abbrev pub OtherKey : Option Str → Type 0
    OtherKey none = Unit
    OtherKey (some content) =
        bytes_eq (sha3_256 (extract_toml_field content (ascii "api_key"))) hash ≡ false

    credentials-OtherKey :
        (credentials : Option Str) (config : Result ConfigError CacheeConfig)
        (registry : ApiKeyRegistry)
        → OtherKey credentials
        → find_key hash (add_credentials sha3_256 credentials config registry)
          ≡ find_key hash registry
    unfolding add_credentials
    credentials-OtherKey none config registry o = refl
    credentials-OtherKey (some content) config registry o =
        let api_key = extract_toml_field content (ascii "api_key") in
        elim (Bool-cases (length api_key == 0)) [
          | inl empty ↦ rw (add_credentials, empty) refl
          | inr given ↦
              rw (add_credentials, given) (find_key-put_other (sha3_256 api_key) hash _ registry o)
        ]

    -- After `auth_revoke` found the key's file and removed it, the registry that the daemon loads next
    -- from the directory and from credentials.toml does not have the hash, if no other file of the
    -- directory gives it and the key of credentials.toml has another hash.
    pub auth_revoke-load_api_keys :
        (removable : Bool) (key_id : Str) (dir : KeyDir) (credentials : Option Str)
        (config : Result ConfigError CacheeConfig) (registry : ApiKeyRegistry)
        → OnlyIn (ascii "apikey-" ++ (key_id ++ ascii ".toml")) dir
        → OtherKey credentials
        → (auth_revoke removable key_id dir).1 ≡ key_revoked
        → load_api_keys hex_decode sha3_256
            (some (auth_revoke removable key_id dir).0)
            credentials
            config
          ≡ some registry
        → find_key hash registry ≡ none
    unfolding load_api_keys
    auth_revoke-load_api_keys removable key_id dir credentials config registry o other done loaded =
        let left = read_key_files hex_decode (auth_revoke removable key_id dir).0 [] in
        let same : add_credentials sha3_256 credentials config left ≡ registry = cc loaded in
        ap (find_key hash) (sym same)
        ∙ credentials-OtherKey credentials config left other
        ∙ revoked-read_key_files removable key_id dir o done
