-- ===== src/Daemon/KeyFiles/Created.antt =====
-- What the daemon reads of a key file that `auth_create` wrote.
use cachee_cli.Base.{
  Bytes, Str, Option, some, List, [], ◌∷◌, ◌++◌, ◌≡◌, refl, ap, ◌∙◌, ascii, length, All-append,
  Without, lines, split_on, split_onto-piece, finish_lines, strip_cr, find_line, starts_with,
  second, parse_u64, ◌>>=◌,
}
use cachee_cli.Security.{quoted_line, toml_line, api_key_text, quoted_field}
use cachee_cli.Security.Lines.{Plain, quoted_line-Without, next_line, quoted_piece, unstripped}
use cachee_cli.Daemon.KeyFiles.{extract_toml_field, read_entry}

abbrev created_lines : Str → Str → Str → Str → Str → List Str
created_lines key_id label permissions hash created =
    quoted_line (ascii "key_id") key_id
    ∷ quoted_line (ascii "label") label
    ∷ quoted_line (ascii "permissions") permissions
    ∷ quoted_line (ascii "secret_hash") hash
    ∷ (ascii "created = " ++ created)
    ∷ []
    ∷ []

split-api_key_text :
    (key_id label permissions hash created : Str)
    → Plain key_id
    → Plain label
    → Plain permissions
    → Plain hash
    → Without 10 created
    → split_on 10 (api_key_text key_id label permissions hash created)
      ≡ created_lines key_id label permissions hash created
unfolding split_on api_key_text
split-api_key_text key_id label permissions hash created k l p h c =
    let q_id =
      quoted_line-Without (ascii "key_id") key_id (refl, (refl, (refl, (refl, (refl, (refl, tt))))))
        k.1 in
    let q_label =
      quoted_line-Without (ascii "label") label (refl, (refl, (refl, (refl, (refl, tt))))) l.1 in
    let q_permissions =
      quoted_line-Without (ascii "permissions") permissions
        (refl, (refl, (refl, (refl, (refl, (refl, (refl, (refl, (refl, (refl, (refl, tt)))))))))))
        p.1 in
    let q_hash =
      quoted_line-Without (ascii "secret_hash") hash
        (refl, (refl, (refl, (refl, (refl, (refl, (refl, (refl, (refl, (refl, (refl, tt)))))))))))
        h.1 in
    let q_created =
      All-append _ (ascii "created = ") created
        (refl, (refl, (refl, (refl, (refl, (refl, (refl, (refl, (refl, (refl, tt)))))))))) c in
    let last = (ascii "created = " ++ created) ++ 10 ∷ [] in
    let from_hash = toml_line (ascii "secret_hash") hash ++ last in
    let from_permissions = toml_line (ascii "permissions") permissions ++ from_hash in
    let from_label = toml_line (ascii "label") label ++ from_permissions in
    next_line (quoted_line (ascii "key_id") key_id) from_label _ q_id (
      next_line (quoted_line (ascii "label") label) from_permissions _ q_label (
        next_line (quoted_line (ascii "permissions") permissions) from_hash _ q_permissions (
          next_line (quoted_line (ascii "secret_hash") hash) last _ q_hash
            (split_onto-piece 10 [] (ascii "created = " ++ created) [] q_created refl))))

lines-api_key_text :
    (key_id label permissions hash created : Str)
    → Plain key_id
    → Plain label
    → Plain permissions
    → Plain hash
    → Without 10 created
    → lines (api_key_text key_id label permissions hash created)
      ≡ quoted_line (ascii "key_id") key_id
        ∷ quoted_line (ascii "label") label
        ∷ quoted_line (ascii "permissions") permissions
        ∷ quoted_line (ascii "secret_hash") hash
        ∷ strip_cr (ascii "created = " ++ created)
        ∷ []
unfolding lines finish_lines
lines-api_key_text key_id label permissions hash created k l p h c =
    rw
      (
        split-api_key_text key_id label permissions hash created k l p h c,
        unstripped (ascii "key_id") key_id,
        unstripped (ascii "label") label,
        unstripped (ascii "permissions") permissions,
        unstripped (ascii "secret_hash") hash,
      )
      refl

-- What `auth_create` writes, the daemon reads back as the hash with the key's number, label and
-- permissions, and without a limit, if these and the printed hash have no quotation mark and no
-- newline, the printed time has no newline, and `hex::decode` gives 32 bytes for the printed hash.
pub read_entry-api_key_text :
    (hex_decode : Str → Option Bytes) (key_id label permissions hash created : Str) (bytes : Bytes)
    → Plain key_id
    → Plain label
    → Plain permissions
    → Plain hash
    → Without 10 created
    → hex_decode hash ≡ some bytes
    → length bytes ≡ 32
    → read_entry hex_decode (api_key_text key_id label permissions hash created)
      ≡ some (
        bytes,
        record { key_id = key_id; label = label; permissions = permissions; ops_limit = 0 },
      )
unfolding read_entry extract_toml_field quoted_field find_line starts_with parse_u64 strip_cr
read_entry-api_key_text hex_decode key_id label permissions hash created bytes k l p h c decoded
      wide =
    let whole = lines-api_key_text key_id label permissions hash created k l p h c in
    let found =
      λ (name : Str). ap (λ ls. find_line name ls >>= λ line. second (split_on 34 line)) whole in
    let at_id =
      found (ascii "key_id")
      ∙ quoted_piece (ascii "key_id") key_id (refl, (refl, (refl, (refl, (refl, (refl, tt))))))
          k.0 in
    let at_label =
      found (ascii "label")
      ∙ quoted_piece (ascii "label") label (refl, (refl, (refl, (refl, (refl, tt))))) l.0 in
    let at_permissions =
      found (ascii "permissions")
      ∙ quoted_piece (ascii "permissions") permissions
          (refl, (refl, (refl, (refl, (refl, (refl, (refl, (refl, (refl, (refl, (refl, tt)))))))))))
          p.0 in
    let at_hash =
      found (ascii "secret_hash")
      ∙ quoted_piece (ascii "secret_hash") hash
          (refl, (refl, (refl, (refl, (refl, (refl, (refl, (refl, (refl, (refl, (refl, tt)))))))))))
          h.0 in
    let at_limit = found (ascii "ops_limit") in
    rw
      (
        read_entry, extract_toml_field, quoted_field, at_hash, decoded, wide, at_id, at_label,
        at_permissions, at_limit,
      )
      refl
