-- ===== src/Signup/Account.antt =====
-- What `verify` of src/signup.rs leaves behind, and what `whoami` makes of it.
use cachee_cli.Base.{
  ◌<◌, Bytes, Str, Option, none, some, ◌≡◌, refl, sym, ap, ◌∙◌, inl, inr, Bool-cases, ok, length,
  lt→ltb, Option-cases, Result-cases, Result,
}
use mathlib.Core.Path.{subst}
use cachee_cli.Config.{CacheeConfig}
use cachee_cli.Signup.{
  Toml, Disk, write_done, after_write, Files, save_credentials, remove_pending, finish_verify,
  Credentials, VerifyRequest, VerifyResponse, Answer, answered, AccountError, AccountDone, shown,
  load_credentials, load, record_plan, accept_answer, key_ends, verify, verify_request, whoami,
  with_plan,
}

-- `toml` reads back what it printed.
pub record TomlLaws (toml : Toml) : Type 0 where
  pub read_config :
      (c : CacheeConfig) (text : Bytes)
      → toml.print_config c ≡ some text
      → toml.parse_config text ≡ some c
  pub read_credentials :
      (c : Credentials) (text : Bytes)
      → toml.print_credentials c ≡ some text
      → toml.parse_credentials text ≡ some c

abbrev pub credentials_of : VerifyResponse → Credentials
credentials_of r = record { api_key = r.api_key; email = r.email }

short_key : (key : Str) → length key < 12 → key_ends key ≡ none
unfolding key_ends
short_key key h = rw (lt→ltb (length key) 12 h) refl

record_plan-credentials :
    (toml : Toml) (disk : Disk) (r : VerifyResponse) (files : Files)
    → (record_plan toml disk r files).0.credentials ≡ files.credentials
unfolding record_plan
record_plan-credentials toml disk r files = elim (Result-cases (load toml files)) [
  | inr (e, fails) ↦ rw (record_plan, fails) refl
  | inl (config, loaded) ↦
      elim (Option-cases (toml.print_config (with_plan r.plan r.ops_limit config))) [
        | inl fails ↦ rw (record_plan, loaded, fails) refl
        | inr (text, printed) ↦ rw (record_plan, loaded, printed) refl
      ]
]

remove_pending-credentials :
    (disk : Disk) (files : Files) → (remove_pending disk files).credentials ≡ files.credentials
unfolding remove_pending
remove_pending-credentials disk files = elim (Bool-cases disk.pending_removed) [
  | inl gone ↦ rw gone refl
  | inr stays ↦ rw stays refl
]

finish_verify-credentials :
    (toml : Toml) (disk : Disk) (r : VerifyResponse) (files : Files)
    → (finish_verify toml disk r files).0.credentials ≡ files.credentials
unfolding finish_verify
finish_verify-credentials toml disk r files =
    let cleaned = remove_pending disk files in
    let kept =
      record_plan-credentials toml disk r cleaned ∙ remove_pending-credentials disk files in
    elim (Result-cases (record_plan toml disk r cleaned).1) [
      | inr (e, fails) ↦ rw (finish_verify, fails) kept
      | inl (u, planned) ↦ elim (Option-cases (key_ends r.api_key)) [
        | inl panics ↦ rw (finish_verify, planned, shown, panics) kept
        | inr (ends, whole) ↦ rw (finish_verify, planned, shown, whole) kept
      ]
    ]

save_credentials-written :
    (toml : Toml) (disk : Disk) (creds : Credentials) (files : Files) (text : Bytes)
    → toml.print_credentials creds ≡ some text
    → disk.credentials_write ≡ write_done
    → (save_credentials toml disk creds files).0.credentials ≡ some text
unfolding save_credentials
save_credentials-written toml disk creds files text printed done =
    rw (save_credentials, printed, done) (ap (λ d. after_write d text) done)

-- Once the credentials are written they stay, whatever fails after it.
accept_answer-credentials :
    (toml : Toml) (disk : Disk) (r : VerifyResponse) (files : Files) (text : Bytes)
    → toml.print_credentials (credentials_of r) ≡ some text
    → disk.credentials_write ≡ write_done
    → (accept_answer toml disk r files).0.credentials ≡ some text
unfolding accept_answer
accept_answer-credentials toml disk r files text printed done =
    let saved = save_credentials toml disk (credentials_of r) files in
    let there = save_credentials-written toml disk (credentials_of r) files text printed done in
    elim (Result-cases saved.1) [
      | inr (e, fails) ↦ rw (accept_answer, fails) there
      | inl (u, kept) ↦
          rw (accept_answer, kept) (finish_verify-credentials toml disk r saved.0 ∙ there)
    ]

-- A panic, or an error.
abbrev pub Unfinished : Option (Result AccountError AccountDone) → Type 0
Unfinished (some (ok done)) = ⊥
Unfinished _ = Unit

finish_verify-Unfinished :
    (toml : Toml) (disk : Disk) (r : VerifyResponse) (files : Files)
    → length r.api_key < 12
    → Unfinished (finish_verify toml disk r files).1
unfolding finish_verify
finish_verify-Unfinished toml disk r files short =
    elim (Result-cases (record_plan toml disk r (remove_pending disk files)).1) [
      | inr (e, fails) ↦ rw (finish_verify, fails) tt
      | inl (u, planned) ↦ rw (finish_verify, planned, shown, short_key r.api_key short) tt
    ]

accept_answer-Unfinished :
    (toml : Toml) (disk : Disk) (r : VerifyResponse) (files : Files)
    → length r.api_key < 12
    → Unfinished (accept_answer toml disk r files).1
unfolding accept_answer
accept_answer-Unfinished toml disk r files short =
    let saved = save_credentials toml disk (credentials_of r) files in
    elim (Result-cases saved.1) [
      | inr (e, fails) ↦ rw (accept_answer, fails) tt
      | inl (u, done) ↦
          rw (accept_answer, done) (finish_verify-Unfinished toml disk r saved.0 short)
    ]

module _ (toml : Toml) (laws : TomlLaws toml) (server : VerifyRequest → Answer VerifyResponse) where
  verify-accepted :
      (disk : Disk) (email : Option Str) (code : Str) (files : Files) (request : VerifyRequest)
      (r : VerifyResponse)
      → verify_request email code files ≡ ok request
      → server request ≡ answered r
      → verify toml disk server email code files ≡ accept_answer toml disk r files
  unfolding verify
  verify-accepted disk email code files request r asked answer = rw (verify, asked, answer) refl

  -- A verification that the server accepts leaves the account's credentials on disk, as they are
  -- loaded again, also when their permissions or the plan cannot be set or the printing of the key
  -- panics. The credentials print and their file is written, and TOML reads back what it printed.
  pub verify-credentials :
      (disk : Disk) (email : Option Str) (code : Str) (files : Files) (request : VerifyRequest)
      (r : VerifyResponse) (text : Bytes)
      → verify_request email code files ≡ ok request
      → server request ≡ answered r
      → toml.print_credentials (credentials_of r) ≡ some text
      → disk.credentials_write ≡ write_done
      → load_credentials toml (verify toml disk server email code files).0 ≡ some (credentials_of r)
  unfolding load_credentials
  verify-credentials disk email code files request r text asked answer printed done =
      let on_disk =
        ap (λ o. o.0.credentials) (verify-accepted disk email code files request r asked answer)
        ∙ accept_answer-credentials toml disk r files text printed done in
      rw (load_credentials, on_disk) (laws.read_credentials (credentials_of r) text printed)

  -- If the server accepts with a key that is shorter than 12 bytes, `verify` does not end in success,
  -- and `whoami` on the files that it leaves panics, if the credentials print and their file is
  -- written, whether the other calls of the file system succeed or not. TOML reads back what it
  -- printed.
  pub verify-short_key :
      (disk : Disk) (email : Option Str) (code : Str) (files : Files) (request : VerifyRequest)
      (r : VerifyResponse) (text : Bytes)
      → verify_request email code files ≡ ok request
      → server request ≡ answered r
      → toml.print_credentials (credentials_of r) ≡ some text
      → disk.credentials_write ≡ write_done
      → length r.api_key < 12
      → (let out = verify toml disk server email code files in
          Unfinished out.1 × ((whoami toml out.0).1 ≡ none))
  unfolding whoami
  verify-short_key disk email code files request r text asked answer printed done short =
      let loaded =
        verify-credentials disk email code files request r text asked answer printed done in
      (
        subst (λ o. Unfinished o.1)
            (sym (verify-accepted disk email code files request r asked answer))
            (accept_answer-Unfinished toml disk r files short),
        rw (whoami, loaded, shown, short_key r.api_key short) refl,
      )
