-- ===== src/Signup.antt =====
-- src/signup.rs: the account's files, and the steps that write and read them. HTTP and TOML are
-- parameters; what is printed to the user is left out, but not the slices that can panic.
pub mod Pending
pub mod Account
use cachee_cli.Base.{
  ℕ, ◌-◌, ◌+◌, Bytes, Str, Bool, true, false, not, Option, none, some, List, [], ◌∷◌, ◌++◌, ◌&&◌,
  ◌||◌, Result, ok, err, if◌then◌else◌, ltb, leb, ◌==◌, between, ascii, contains_text, get_or, take,
  drop, length,
}
use cachee_cli.Config.{CacheeConfig, Plan, ConfigError, load_config}
use cachee_cli.Security.{toml_line, quoted_field}

pub record SignupResponse : Type 0 where
  pub message : Str
  pub email : Str
  pub verification_id : Str
  pub code : Option Str

pub record VerifyRequest : Type 0 where
  pub email : Str
  pub code : Str
  pub verification_id : Str

pub record VerifyResponse : Type 0 where
  pub api_key : Str
  pub email : Str
  pub plan : Str
  pub ops_limit : ℕ

pub record Credentials : Type 0 where
  pub api_key : Str
  pub email : Str

-- The crate `toml` on the two types; printing may fail.
pub record Toml : Type 0 where
  pub print_config : CacheeConfig → Option Bytes
  pub parse_config : Bytes → Option CacheeConfig
  pub print_credentials : Credentials → Option Bytes
  pub parse_credentials : Bytes → Option Credentials

-- The files of `cachee_dir`; `none` is a file that does not exist. Every file can be read.
pub record Files : Type 0 where
  pub config : Option Bytes
  pub credentials : Option Bytes
  pub pending_signup : Option Bytes

-- How `std::fs::write` ends: the text is in the file, or it fails and leaves something in the file,
-- be it nothing, a part of the text, or what was there.
pub data Write : Type 0 where
  write_done : Write
  write_failed : Option Bytes → Write

abbrev pub after_write : Write → Bytes → Option Bytes
after_write write_done text = some text
after_write (write_failed left) text = left

-- How the calls of the file system end that these commands make: the writes, and whether
-- `set_permissions` and the two `remove_file` succeed.
pub record Disk : Type 0 where
  pub config_write : Write
  pub credentials_write : Write
  pub pending_write : Write
  pub permissions_set : Bool
  pub pending_removed : Bool
  pub credentials_removed : Bool

-- What the server answers: no answer, a status that is not a success, a body that does not parse, or
-- the body.
pub data Answer (A : Type 0) : Type 0 where
  unreachable refused unreadable : Answer A
  answered : A → Answer A

pub data AccountError : Type 0 where
  invalid_email no_pending_signup no_verification_id : AccountError
  request_failed server_refused bad_response : AccountError
  print_failed io_failed : AccountError

pub data AccountDone : Type 0 where
  already_signed_in not_signed_in code_sent logged_out : AccountDone
  -- the two ends of the key that are printed
  verified signed_in : Str → Str → AccountDone

-- `none` is a panic.
abbrev pub Outcome : Type 0
Outcome = Files × Option (Result AccountError AccountDone)

-- `content(file)`, and `load_credentials`.
unfoldable pub load_credentials : Toml → Files → Option Credentials
load_credentials toml files = elim files.credentials [
  | none ↦ none
  | some content ↦ toml.parse_credentials content
]

abbrev is_some : Option Bytes → Bool
is_some none = false
is_some (some b) = true

-- `config::load`
unfoldable pub load : Toml → Files → Result ConfigError CacheeConfig
load toml files = load_config toml.parse_config (is_some files.config) files.config

-- The text of the pending file.
unfoldable pub pending_text : Str → Str → Str
pending_text email verification_id =
    toml_line (ascii "email") email ++ toml_line (ascii "verification_id") verification_id

-- The result of a step that ends in a write.
abbrev pub write_result : Write → Result AccountError (Unit {0})
write_result write_done = ok tt
write_result (write_failed left) = err io_failed

unfoldable pub save_pending : Disk → SignupResponse → Files → Outcome
unfolding pending_text
save_pending disk result files =
    let text = pending_text result.email result.verification_id in
    let after : Files = record files { pending_signup = after_write disk.pending_write text } in
    elim (write_result disk.pending_write) [
      | err e ↦ (after, some (err e))
      | ok u ↦ (after, some (ok code_sent))
    ]

unfoldable pub email_plausible : Str → Bool
email_plausible email = contains_text email (b'@' ∷ []) && contains_text email (b'.' ∷ [])

unfoldable pub signup : Toml → Disk → Str → Answer SignupResponse → Files → Outcome
unfolding email_plausible load_credentials save_pending
signup toml disk email answer files =
    if not (email_plausible email)
    then (files, some (err invalid_email))
    else elim (load_credentials toml files) [
      | some creds ↦ (files, some (ok already_signed_in))
      | none ↦ elim answer [
        | unreachable ↦ (files, some (err request_failed))
        | refused ↦ (files, some (err server_refused))
        | unreadable ↦ (files, some (err bad_response))
        | answered result ↦ save_pending disk result files
      ]
    ]

-- The end of a slice lies between two characters.
abbrev boundary : Str → ℕ → Bool
boundary s i = i == length s || not (between 128 191 (get_or s i 0))

-- `key[..12]` and `key[key.len() - 4..]`; `none` is a panic.
unfoldable pub key_ends : Str → Option (Str × Str)
key_ends key =
    if ltb (length key) 12
    then none
    else if boundary key 12 && boundary key (length key - 4)
    then some (take 12 key, drop (length key - 4) key)
    else none

-- The request that `verify` sends.
unfoldable pub verify_request : Option Str → Str → Files → Result AccountError VerifyRequest
verify_request email code files =
    let content = or_empty files.pending_signup in
    elim (given email (quoted_field content (ascii "email"))) [
      | none ↦ err no_pending_signup
      | some address ↦ elim (quoted_field content (ascii "verification_id")) [
        | none ↦ err no_verification_id
        | some id ↦ ok (record { email = address; code = code; verification_id = id })
      ]
    ]
  where
    or_empty : Option Bytes → Str
    or_empty none = []
    or_empty (some content) = content

    given : Option Str → Option Str → Option Str
    given none found = found
    given (some e) found = some e

abbrev pub with_plan : Str → ℕ → CacheeConfig → CacheeConfig
with_plan tier ops config = record config {
  plan = record (config.plan) { tier = tier; ops_per_month = ops };
}

-- `save_credentials`: printed, written, and readable by the user only.
unfoldable pub save_credentials :
    Toml → Disk → Credentials → Files → Files × Result AccountError (Unit {0})
save_credentials toml disk creds files = elim (toml.print_credentials creds) [
  | none ↦ (files, err print_failed)
  | some text ↦
      let after : Files = record files { credentials = after_write disk.credentials_write text } in
      elim (write_result disk.credentials_write) [
        | err e ↦ (after, err e)
        | ok u ↦ (after, if disk.permissions_set then ok tt else err io_failed)
      ]
]

-- An error of this `remove_file` is ignored.
unfoldable pub remove_pending : Disk → Files → Files
remove_pending disk files =
    if disk.pending_removed then record files { pending_signup = none } else files

-- The plan in the configuration file, if that can be loaded.
unfoldable pub record_plan :
    Toml → Disk → VerifyResponse → Files → Files × Result AccountError (Unit {0})
unfolding load
record_plan toml disk result files = elim (load toml files) [
  | err e ↦ (files, ok tt)
  | ok config ↦ elim (toml.print_config (with_plan result.plan result.ops_limit config)) [
    | none ↦ (files, err print_failed)
    | some text ↦ (
      record files { config = after_write disk.config_write text },
      write_result disk.config_write,
    )
  ]
]

-- The key's ends are printed last, after the files are written.
unfoldable pub shown : (Str → Str → AccountDone) → Str → Files → Outcome
unfolding key_ends
shown done key files = elim (key_ends key) [
  | none ↦ (files, none)
  | some (front, back) ↦ (files, some (ok (done front back)))
]

-- The rest of `verify` after the credentials are saved.
unfoldable pub finish_verify : Toml → Disk → VerifyResponse → Files → Outcome
unfolding record_plan shown remove_pending
finish_verify toml disk result files =
    let (after, planned) = record_plan toml disk result (remove_pending disk files) in
    elim planned [ err e ↦ (after, some (err e)) | ok u ↦ shown verified result.api_key after ]

-- What `verify` does with the server's answer.
unfoldable pub accept_answer : Toml → Disk → VerifyResponse → Files → Outcome
unfolding save_credentials finish_verify
accept_answer toml disk result files =
    let creds : Credentials = record { api_key = result.api_key; email = result.email } in
    let (after, saved) = save_credentials toml disk creds files in
    elim saved [ err e ↦ (after, some (err e)) | ok u ↦ finish_verify toml disk result after ]

-- The server is a function of the request.
unfoldable pub verify :
    Toml → Disk → (VerifyRequest → Answer VerifyResponse) → Option Str → Str → Files → Outcome
unfolding verify_request accept_answer
verify toml disk server email code files = elim (verify_request email code files) [
  | err e ↦ (files, some (err e))
  | ok request ↦ elim (server request) [
    | unreachable ↦ (files, some (err request_failed))
    | refused ↦ (files, some (err server_refused))
    | unreadable ↦ (files, some (err bad_response))
    | answered result ↦ accept_answer toml disk result files
  ]
]

unfoldable pub whoami : Toml → Files → Outcome
unfolding load_credentials shown
whoami toml files = elim (load_credentials toml files) [
  | none ↦ (files, some (ok not_signed_in))
  | some creds ↦ shown signed_in creds.api_key files
]

unfoldable pub logout : Disk → Files → Outcome
logout disk files = elim files.credentials [
  | none ↦ (files, some (ok not_signed_in))
  | some text ↦
      if disk.credentials_removed
      then (record files { credentials = none }, some (ok logged_out))
      else (files, some (err io_failed))
]
