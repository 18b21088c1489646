-- ===== src/PqKeys/Files.antt =====
-- A saved key set is loaded back.
use cachee_cli.Base.{
  Bytes, Str, Option, some, List, [], ◌∷◌, ◌≡◌, refl, sym, ap, ◌∙◌, if◌then◌else◌, ascii, bytes_eq,
  inl, inr, Bool-cases,
}
use cachee_cli.Base.{
  bind-some, ◌++◌, find_key, put_key, find_key-put_key, find_key-put_other, bytes_eq→eq,
}
use cachee_cli.PqKeys.{
  KeyMetadata, PqKeySet, Directory, write_all, key_files, restrict, save, load, read_metadata,
}

-- A directory whose files hold what was last written to them.
pub record DirectoryLaws (fs : Directory) : Type 0 where
  pub contents : fs.Dir → List (Bytes × Bytes)
  pub read_lem : (d : fs.Dir) (name : Str) → fs.read d name ≡ find_key name (contents d)
  pub write_lem :
      (d d' : fs.Dir) (name : Str) (text : Bytes)
      → fs.write d name text ≡ some d'
      → contents d' ≡ put_key name text (contents d)
  pub set_permissions_lem :
      (d : fs.Dir) (name : Str) → contents (fs.set_permissions d name) ≡ contents d

abbrev put_files : List (Str × Bytes) → List (Bytes × Bytes) → List (Bytes × Bytes)
put_files [] m = m
put_files ((name, text) ∷ files) m = put_files files (put_key name text m)

-- The last of the files with a name.
abbrev last_file : Str → List (Str × Bytes) → Option Bytes → Option Bytes
last_file name [] found = found
last_file name ((n, text) ∷ files) found =
    last_file name files (if bytes_eq n name then some text else found)

find_key-put_one :
    (name n text : Bytes) (m : List (Bytes × Bytes))
    → find_key name (put_key n text m) ≡ (if bytes_eq n name then some text else find_key name m)
find_key-put_one name n text m = elim (Bool-cases (bytes_eq n name)) [
  | inl same ↦ rw same (
      ap (λ k. find_key k (put_key n text m)) (sym (bytes_eq→eq n name same))
      ∙ find_key-put_key n text m)
  | inr differ ↦ rw differ (find_key-put_other n name text m differ)
]

find_key-put_files :
    (name : Str) (files : List (Str × Bytes)) (m : List (Bytes × Bytes))
    → find_key name (put_files files m) ≡ last_file name files (find_key name m)
find_key-put_files name [] m = refl
find_key-put_files name ((n, text) ∷ files) m =
    find_key-put_files name files (put_key n text m)
    ∙ ap (last_file name files) (find_key-put_one name n text m)

module _ (fs : Directory) (laws : DirectoryLaws fs) (metadata_to_json : KeyMetadata → Option Bytes)
    (metadata_of_json : Bytes → Option KeyMetadata) (sha3_256 : Bytes → Bytes) where
  open laws use {contents}

  write_all-contents :
      (files : List (Str × Bytes)) (d d' : fs.Dir)
      → write_all fs files d ≡ some d'
      → contents d' ≡ put_files files (contents d)
  unfolding write_all
  write_all-contents [] d d' h = ap contents (cc h)
  write_all-contents ((name, text) ∷ files) d d' h =
      let first = bind-some (fs.write d name text) (λ next. write_all fs files next) d' h in
      write_all-contents files first.0 d' first.2
      ∙ ap (put_files files) (laws.write_lem d first.0 name text first.1)

  restrict-contents : (d : fs.Dir) → contents (restrict fs d) ≡ contents d
  unfolding restrict
  restrict-contents d =
      laws.set_permissions_lem _ _ ∙ laws.set_permissions_lem _ _ ∙ laws.set_permissions_lem _ _

  -- What a successful `save` left in the directory: the key files, and then the metadata.
  save-contents :
      (keys : PqKeySet) (d d' : fs.Dir)
      → save fs metadata_to_json metadata_of_json sha3_256 keys d ≡ some d'
      → (j : Bytes) × (m : List (Bytes × Bytes)) × (metadata_to_json keys.metadata ≡ some j)
        × (contents d' ≡ put_files (key_files keys ++ (ascii "metadata.json", j) ∷ []) m)
  unfolding save
  save-contents keys d d' h =
      let made = bind-some (fs.create_dir_all d) _ d' h in
      let written = bind-some (write_all fs (key_files keys) made.0) _ d' made.2 in
      let json = bind-some (metadata_to_json keys.metadata) _ d' written.2 in
      (
        json.0,
        contents made.0,
        json.1,
        laws.write_lem (restrict fs written.0) d' (ascii "metadata.json") json.0 json.2
            ∙ ap (put_key (ascii "metadata.json") json.0) (
                restrict-contents written.0
                ∙ write_all-contents (key_files keys) made.0 written.0 written.1),
      )

  read-file :
      (files : List (Str × Bytes)) (m : List (Bytes × Bytes)) (d : fs.Dir) (name text : Bytes)
      → contents d ≡ put_files files m
      → last_file name files (find_key name m) ≡ some text
      → fs.read d name ≡ some text
  read-file files m d name text h found =
      laws.read_lem d name ∙ ap (find_key name) h ∙ find_key-put_files name files m ∙ found

  -- A key set that was saved is loaded back whole, if the directory's files hold what was last
  -- written to them and `serde_json` reads back the metadata that it wrote.
  pub load-save :
      (keys : PqKeySet) (d d' : fs.Dir)
      → ((j : Bytes)
          → metadata_to_json keys.metadata ≡ some j
          → metadata_of_json j ≡ some keys.metadata)
      → save fs metadata_to_json metadata_of_json sha3_256 keys d ≡ some d'
      → load fs metadata_to_json metadata_of_json sha3_256 d' ≡ some keys
  unfolding load read_metadata bytes_eq
  load-save keys d d' json h =
      let s = save-contents keys d d' h in
      let files = key_files keys ++ (ascii "metadata.json", s.0) ∷ [] in
      let at = read-file files s.1 d' in
      rw
        (
          at (ascii "mldsa65.pub") keys.mldsa_pk s.3 refl,
          at (ascii "falcon512.pub") keys.falcon_pk s.3 refl,
          at (ascii "slhdsa128f.pub") keys.slhdsa_pk s.3 refl,
          at (ascii "mldsa65.key") keys.mldsa_sk s.3 refl,
          at (ascii "falcon512.key") keys.falcon_sk s.3 refl,
          at (ascii "slhdsa128f.key") keys.slhdsa_sk s.3 refl,
          at (ascii "metadata.json") s.0 s.3 refl,
          json s.0 s.2,
          read_metadata,
          load,
        )
        refl
