-- ===== src/Security.antt =====
-- src/security.rs: API key files and the identity file. The random bytes, the clock and the
-- directory are parameters.
pub mod Lines
pub mod Tls
pub mod Revoking
use cachee_cli.Base.{
  Bytes, Str, Option, none, some, [], ◌∷◌, ◌++◌, ascii, concat, lines, find_line, second, split_on,
  ◌>>=◌,
}

-- `name = "value"`, without and with the end of the line.
abbrev pub quoted_line : Str → Str → Str
quoted_line name value = (name ++ ascii " = ") ++ 34 ∷ (value ++ 34 ∷ [])

abbrev pub toml_line : Str → Str → Str
toml_line name value = quoted_line name value ++ 10 ∷ []

-- What `auth_create` prints into the file: `hash` is `hex::encode` of the secret's hash, and `created`
-- the decimal number of `now_unix()`.
unfoldable pub api_key_text : Str → Str → Str → Str → Str → Str
api_key_text key_id label permissions hash created =
    toml_line (ascii "key_id") key_id
    ++ (toml_line (ascii "label") label
        ++ (toml_line (ascii "permissions") permissions
            ++ (toml_line (ascii "secret_hash") hash
                ++ ((ascii "created = " ++ created) ++ 10 ∷ []))))

-- The file's name and text, and the secret that is printed.
unfoldable pub auth_create :
    (Bytes → Str) → (Bytes → Bytes) → Bytes → Bytes → Str → Str → Str → Str × Str × Str
unfolding api_key_text
auth_create hex_encode sha3_256 random_id random_secret label permissions created =
    let key_id = hex_encode random_id in
    let secret = hex_encode random_secret in
    (
      ascii "apikey-" ++ key_id ++ ascii ".toml",
      api_key_text key_id label permissions (hex_encode (sha3_256 secret)) created,
      secret,
    )

abbrev pub or_text : Str → Option Str → Str
or_text d none = d
or_text d (some s) = s

-- The text between the first two quotation marks of the first line that starts with the field.
unfoldable pub quoted_field : Str → Str → Option Str
quoted_field content field = do line ← find_line field (lines content); second (split_on 34 line)

unfoldable pub extract_field : Str → Str → Str
unfolding quoted_field
extract_field content field = or_text (ascii "unknown") (quoted_field content field)

-- A row of `auth_list`.
unfoldable pub list_row : Str → Str × Str × Str
unfolding extract_field
list_row content = (
  extract_field content (ascii "key_id"),
  extract_field content (ascii "label"),
  extract_field content (ascii "permissions"),
)

-- What `rotate_keys` makes of the identity file: the archive's name, and the new text.
unfoldable pub rotate_identity : Str → Str → Str → Str × Str
unfolding extract_field
rotate_identity old_content new_key_id generated =
    let old_key_id = extract_field old_content (ascii "key_id") in
    (
      ascii "identity-" ++ old_key_id ++ ascii ".toml.bak",
      concat (
          ascii "# Cachee PQ Identity"
          ∷ (10 ∷ [])
          ∷ ascii "# Generated: "
          ∷ generated
          ∷ (10 ∷ [])
          ∷ ascii "# Rotated from: "
          ∷ old_key_id
          ∷ (10 ∷ [])
          ∷ toml_line (ascii "key_id") new_key_id
          ∷ ascii "algorithms = ["
          ∷ (34 ∷ [])
          ∷ ascii "ML-DSA-65"
          ∷ (34 ∷ [])
          ∷ ascii ", "
          ∷ (34 ∷ [])
          ∷ ascii "FALCON-512"
          ∷ (34 ∷ [])
          ∷ ascii ", "
          ∷ (34 ∷ [])
          ∷ ascii "SLH-DSA"
          ∷ (34 ∷ [])
          ∷ ascii "]"
          ∷ (10 ∷ [])
          ∷ []),
    )
