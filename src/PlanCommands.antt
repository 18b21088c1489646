-- ===== src/PlanCommands.antt =====
-- src/plan.rs: `upgrade` and `sync`, and how `usage` reads INFO. HTTP and TOML are parameters; the
-- prices, the bars and the bills are floating-point text and are left out.
pub mod Changes
pub mod Usage
use cachee_cli.Base.{
  ℕ, zero, suc, ◌+◌, Bytes, Str, Bool, true, false, not, Option, none, some, List, [], ◌∷◌, ◌&&◌,
  ◌||◌, Result, ok, err, if◌then◌else◌, bytes_eq, ascii, find_line, lines, split_on, second,
  parse_u64, trim, ◌>>=◌,
}
use cachee_cli.Config.{CacheeConfig, Plan, ConfigError}
use cachee_cli.Signup.{
  Toml, Files, Write, write_done, write_failed, Credentials, load_credentials, load, with_plan,
}

-- The fields that are read of a JSON body; a body that does not parse has none.
pub record Body : Type 0 where
  pub checkout_url : Option Str
  pub error : Option Str
  pub plan : Option Str
  pub ops_limit : Option ℕ

pub data Response : Type 0 where
  unreachable : Response
  -- a status that is not a success, with its body
  refused : Body → Response
  success : Body → Response

pub data PlanError : Type 0 where
  unknown_tier no_checkout_url unreachable_server print_failed io_failed : PlanError
  upgrade_failed : Str → PlanError
  server_returned : PlanError
  config_failed : ConfigError → PlanError

pub data PlanDone : Type 0 where
  not_signed_in timed_out : PlanDone
  -- tier, ops_limit
  upgraded synced : Str → ℕ → PlanDone

abbrev pub Outcome : Type 0
Outcome = Files × Result PlanError PlanDone

abbrev valid_tiers : List Str
valid_tiers =
    ascii "payg"
    ∷ ascii "starter"
    ∷ ascii "scale"
    ∷ ascii "institutional"
    ∷ ascii "institutional-plus"
    ∷ ascii "unlimited"
    ∷ []

abbrev has_text : List Str → Str → Bool
has_text [] s = false
has_text (t ∷ ts) s = bytes_eq t s || has_text ts s

unfoldable pub is_valid_tier : Str → Bool
is_valid_tier tier = has_text valid_tiers tier

abbrev pub text_or : Str → Option Str → Str
text_or d none = d
text_or d (some s) = s

abbrev pub number_or : ℕ → Option ℕ → ℕ
number_or d none = d
number_or d (some n) = n

-- `tier != "free" && tier != "payg"`
unfoldable pub attested : Str → Bool
attested tier = not (bytes_eq tier (ascii "free")) && not (bytes_eq tier (ascii "payg"))

-- The attestation is switched on and never off.
unfoldable pub apply_plan : Str → ℕ → CacheeConfig → CacheeConfig
unfolding attested
apply_plan tier ops config =
    let planned = with_plan tier ops config in
    if attested tier then record planned { attest_enabled = true } else planned

-- The configuration is loaded, changed and written; the write may fail.
unfoldable pub write_plan : Toml → Write → (Str → ℕ → PlanDone) → Str → ℕ → Files → Outcome
unfolding load apply_plan
write_plan toml disk done tier ops files = elim (load toml files) [
  | err e ↦ (files, err (config_failed e))
  | ok config ↦ elim (toml.print_config (apply_plan tier ops config)) [
    | none ↦ (files, err print_failed)
    | some text ↦ elim disk [
      | write_done ↦ (record files { config = some text }, ok (done tier ops))
      | write_failed left ↦ (record files { config = left }, err io_failed)
    ]
  ]
]

-- The limit that a poll confirms, if it reports the tier.
unfoldable pub confirmation : Str → Response → Option ℕ
confirmation tier (success body) =
    if bytes_eq (text_or (ascii "free") body.plan) tier
    then some (number_or 0 body.ops_limit)
    else none
confirmation tier _ = none

-- The polls that are left, of the responses from `attempt` on.
unfoldable pub poll : Toml → Write → Str → ℕ → (ℕ → Response) → ℕ → Files → Outcome
unfolding confirmation write_plan
poll toml disk tier zero responses attempt files = (files, ok timed_out)
poll toml disk tier (suc left) responses attempt files =
    let later = poll toml disk tier left responses (attempt + 1) files in
    elim (confirmation tier (responses attempt)) [
      | none ↦ later
      | some ops_limit ↦ write_plan toml disk upgraded tier ops_limit files
    ]

-- `for attempt in 1..=60`
abbrev pub attempts : ℕ
attempts = 60

unfoldable pub upgrade : Toml → Write → Str → Response → (ℕ → Response) → Files → Outcome
unfolding is_valid_tier poll load_credentials
upgrade toml disk tier checkout responses files =
    if not (is_valid_tier tier)
    then (files, err unknown_tier)
    else elim (load_credentials toml files) [
      | none ↦ (files, ok not_signed_in)
      | some creds ↦ elim checkout [
        | unreachable ↦ (files, err unreachable_server)
        | refused body ↦ (files, err (upgrade_failed (text_or (ascii "Unknown error") body.error)))
        | success body ↦ elim body.checkout_url [
          | none ↦ (files, err no_checkout_url)
          | some url ↦ poll toml disk tier attempts responses 1 files
        ]
      ]
    ]

unfoldable pub sync : Toml → Write → Response → Files → Outcome
unfolding load_credentials write_plan
sync toml disk response files = elim (load_credentials toml files) [
  | none ↦ (files, ok not_signed_in)
  | some creds ↦ elim response [
    | unreachable ↦ (files, err unreachable_server)
    | refused body ↦ (files, err server_returned)
    | success body ↦
        write_plan toml disk synced (text_or (ascii "free") body.plan)
          (number_or 10000000 body.ops_limit) files
  ]
]

-- `get_val` of `usage`: the number after the colon of the first line that starts with the key.
unfoldable pub get_val : Str → Str → ℕ
get_val info key =
    number_or 0
      (do line ← find_line key (lines info); v ← second (split_on b':' line); parse_u64 (trim v))

-- The operations, the memory and the keys that `usage` shows.
unfoldable pub usage_counts : Str → ℕ × ℕ × ℕ
unfolding get_val
usage_counts info = (
  get_val info (ascii "total_ops:"),
  get_val info (ascii "used_memory:"),
  get_val info (ascii "total_keys:"),
)
