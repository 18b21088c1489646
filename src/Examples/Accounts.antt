-- ===== src/Examples/Accounts.antt =====
-- The theorems on the account's files and on the plan.
use cachee_cli.Base.{
  ℕ, Bytes, Option, none, some, [], ◌∷◌, ◌++◌, ◌≡◌, ◌∙◌, refl, sym, ap, true, false, arith, ok,
  ascii, length, take, drop, take-append, drop-append, if◌then◌else◌, ◌==◌, lines, finish_lines,
  split_on, split_onto, strip_cr, find_line, starts_with,
}
use cachee_cli.Config.{Process, default_config}
use cachee_cli.Security.{quoted_field}
use cachee_cli.Signup.{
  Toml, Disk, write_done, write_failed, Files, Credentials, pending_text, with_plan, VerifyRequest,
  VerifyResponse, answered, verify, verify_request, whoami,
}
use cachee_cli.Signup.Account.{TomlLaws, credentials_of, Unfinished, verify-short_key}
use cachee_cli.PlanCommands.{Body, Response, success, unreachable}

abbrev toy_process : Process
toy_process = record {
  issuer_variable = none;
  cachee_pid = ascii "cachee-7";
  cachee_dir = ascii "/home/.cachee";
}

-- Credentials are printed with the length of the key at the front.
abbrev toy_print : Credentials → Bytes
toy_print c = length c.api_key ∷ (c.api_key ++ c.email)

abbrev toy_parse : Bytes → Option Credentials
toy_parse [] = none
toy_parse (n ∷ s) = some (record { api_key = take n s; email = drop n s })

abbrev toy_toml : Toml
toy_toml = record {
  print_config = λ c. none;
  parse_config = λ text. none;
  print_credentials = λ c. some (toy_print c);
  parse_credentials = toy_parse;
}

toy_read : (c : Credentials) → toy_parse (toy_print c) ≡ some c
toy_read c =
    ap (λ k. some (record { api_key = k; email = drop (length c.api_key) (c.api_key ++ c.email) }))
      (take-append c.api_key c.email)
    ∙ ap (λ e. some (record { api_key = c.api_key; email = e })) (drop-append c.api_key c.email)

toy_toml-TomlLaws : TomlLaws toy_toml
toy_toml-TomlLaws = record {
  read_config = λ c text h. absurd (cc h);
  read_credentials =
      λ c text h. let same : toy_print c ≡ text = cc h in ap toy_parse (sym same) ∙ toy_read c;
}

abbrev toy_answer : VerifyResponse
toy_answer = record {
  api_key = ascii "ck_short";
  email = ascii "a@b.c";
  plan = ascii "free";
  ops_limit = 10;
}

abbrev pending_files : Files
pending_files = record {
  config = none;
  credentials = none;
  pending_signup = some (pending_text (ascii "a@b.c") (ascii "v1"));
}

abbrev toy_request : VerifyRequest
toy_request = record { email = ascii "a@b.c"; code = ascii "123456"; verification_id = ascii "v1" }

toy_request-read : verify_request none (ascii "123456") pending_files ≡ ok toy_request
unfolding verify_request pending_text quoted_field lines finish_lines split_on split_onto strip_cr
    find_line starts_with
toy_request-read = refl

-- The permissions of the credentials cannot be set.
abbrev toy_disk : Disk
toy_disk = record {
  config_write = write_failed none;
  credentials_write = write_done;
  pending_write = write_done;
  permissions_set = false;
  pending_removed = false;
  credentials_removed = true;
}

verify-short_key_example :
    (let out =
        verify toy_toml toy_disk (λ r. answered toy_answer) none (ascii "123456") pending_files in
      Unfinished out.1 × ((whoami toy_toml out.0).1 ≡ none))
verify-short_key_example =
    verify-short_key toy_toml toy_toml-TomlLaws (λ r. answered toy_answer) toy_disk none
      (ascii "123456") pending_files toy_request toy_answer (toy_print (credentials_of toy_answer))
      toy_request-read refl refl refl (omega arith)

-- A configuration is printed as its tier, and read as the default with that tier.
abbrev plan_toml : Toml
plan_toml = record toy_toml {
  print_config = λ c. some c.plan.tier;
  parse_config = λ text. some (with_plan text 10 (default_config toy_process));
}

abbrev signed_in_files : Files
signed_in_files = record {
  config = some (ascii "free");
  credentials = some (toy_print (credentials_of toy_answer));
  pending_signup = none;
}

abbrev toy_body : Body
toy_body = record {
  checkout_url = some (ascii "https://pay");
  error = none;
  plan = some (ascii "starter");
  ops_limit = some 20000000;
}

-- The third poll reports the tier.
abbrev toy_polls : ℕ → Response
toy_polls n = if n == 3 then success toy_body else unreachable
