-- ===== src/Examples/Server.antt =====
-- The theorems on the daemon, at an engine over an association list.
use cachee_cli.Base.{
  ℕ, Bytes, true, false, none, some, List, [], ◌∷◌, ◌≡◌, ◌⊎◌, refl, inl, inr, arith, replicate,
  length, ascii, find_key, put_key, remove_key, join, bytes_eq, bytes_eq_iff, contains_text,
  starts_with, split_whitespace, split_from, space_width, from_utf8_lossy, eq_ignore_ascii_case,
  ascii_lower, Bool-cases,
}
use cachee_cli.Archive.Types.{empty_fingerprint}
use cachee_cli.Client.{set_request}
use cachee_cli.Client.Requests.{PlainWord, set_arguments-set_request}
use cachee_cli.Daemon.Writes.{set_arguments}
use cachee_cli.Base.{ok, join, between, eq_ignore_ascii_case, ascii_lower}
use cachee_cli.Archive.Types.{Codecs}
use cachee_cli.Lifecycle.{revoked, is_reversible}
use cachee_cli.Trust.{trust_cached}
use cachee_cli.CacheSlot.{CacheSlot, new_slot, has_valid_fingerprint, parse_fingerprint}
use cachee_cli.Archive.Fingerprint.{has_valid_hashes}
use cachee_cli.Daemon.Writes.{handle_set}
use cachee_cli.Daemon.Bundles.{slot_to_bundle}
use cachee_cli.PqKeys.{sign}
use cachee_cli.Daemon.Protocol.{words_of}
use cachee_cli.ReadContract.{CacheeReadResponse}
use cachee_cli.Daemon.World.{Engine, World, Settings, Clock, Shared}
use cachee_cli.Daemon.Protocol
use cachee_cli.Daemon.Protocol.{Command}
use cachee_cli.Daemon.Verified.{get_verified, slot_response}
use cachee_cli.Daemon.Verified.Missed.{Collision}
use cachee_cli.Daemon.Commands.{dispatch, run_commands, handle_resp}
use cachee_cli.Daemon.Commands.Changes.{Resets}
use cachee_cli.Daemon.Commands.Entries.{EntryChange, dispatch-EntryChange, run_commands-final}
use cachee_cli.Daemon.Commands.Unverified.{Unchecked, get_verified-Unchecked}
use cachee_cli.Daemon.Connection.{
  ApiKeyEntry, ConnState, Server, Answer, serve, serve_all, new_connection, can_write, answered,
  quota_exceeded, logged_out,
}
use cachee_cli.Daemon.Connection
use cachee_cli.Daemon.Connection.Permissions.{NoWriter, serve_all-NoWriter, server_of, conn_of}
use mathlib.Core.Path.{subst}
use cachee_cli.Daemon.Connection.Refusals.{
  Ordinary, HasQuota, answer_of, serve-handle_resp, serve-revoked,
}
use cachee_cli.Examples.{toy_crypto, toy_codecs, toy_laws, toy_fingerprint}
use cachee_cli.Examples.Logs.{toy_env, toy_log}
use cachee_cli.Examples.Keys.{toy_keys}

-- A hash with 32 bytes.
abbrev narrow_codecs : Codecs
narrow_codecs = record toy_codecs { sha3_256 = λ xs. replicate 32 (length xs) }

abbrev pub toy_engine : Engine
toy_engine = record {
  State = List (Bytes × Bytes);
  set = λ m k v. put_key k v m;
  get = λ m k. (m, find_key k m);
  delete = λ m k. (remove_key k m, true);
}

abbrev pub toy_world : World
toy_world = record {
  codecs = narrow_codecs;
  crypto = toy_crypto;
  env = toy_env;
  engine = toy_engine;
  hex_decode = λ s. some s;
  package_version = ascii "0.2";
}

abbrev pub toy_settings : Settings
toy_settings = record {
  strict_mode = false;
  safe_read_mode = false;
  issuer_id = ascii "node";
  pq_keys = some toy_keys;
}

abbrev pub toy_clock : Clock
toy_clock = record { slot = 1000; instant = 50; request = 1001; transition = 1002; audit = 1003 }

abbrev pub empty_shared : Shared toy_world
empty_shared = record {
  engine = [];
  slots = [];
  store = record { db = []; count = 0 };
  log = toy_log;
}

-- A SET with a fingerprint of 96 bytes.
abbrev pub toy_set : Command
toy_set = Protocol.set (ascii "SET" ∷ ascii "k" ∷ ascii "v" ∷ ascii "FP" ∷ replicate 96 65 ∷ [])

abbrev after_set : Shared toy_world
after_set = run_commands toy_world toy_settings ((toy_clock, toy_set) ∷ []) empty_shared

abbrev toy_response : CacheeReadResponse
toy_response =
    slot_response toy_world after_set.store (ascii "v") 2000 (find_key (ascii "k") after_set.slots)

found_k : (get_verified toy_world after_set (ascii "k") 2000).1 ≡ some toy_response
unfolding get_verified run_commands dispatch find_key handle_set bytes_eq put_key
    has_valid_fingerprint has_valid_hashes new_slot parse_fingerprint slot_to_bundle sign join
found_k = refl

get_verified-Unchecked_example : Unchecked toy_response.verification ⊎ Collision narrow_codecs
get_verified-Unchecked_example =
    get_verified-Unchecked toy_world (λ x. refl) toy_laws toy_settings ((toy_clock, toy_set) ∷ [])
      empty_shared (ascii "k") 2000 toy_response refl refl found_k

abbrev stored_slot : CacheSlot
stored_slot =
    new_slot narrow_codecs 1000 50 (ascii "v") toy_fingerprint 3600 trust_cached (ascii "node")

abbrev dead_slot : CacheSlot
dead_slot = record stored_slot { state = revoked (ascii "leak") 900 none }

abbrev one_slot : CacheSlot → Shared toy_world
one_slot slot = record empty_shared { slots = (ascii "k", slot) ∷ [] }

dispatch-EntryChange_example :
    EntryChange toy_world toy_settings toy_clock
      (Protocol.invalidate (ascii "k") (ascii "leak"))
      (ascii "k")
      (find_key (ascii "k") (one_slot stored_slot).slots)
      (find_key
        (ascii "k")
        (dispatch toy_world toy_settings toy_clock
          (Protocol.invalidate (ascii "k") (ascii "leak"))
          (one_slot stored_slot)).0.slots)
dispatch-EntryChange_example =
    dispatch-EntryChange toy_world toy_settings toy_clock
      (Protocol.invalidate (ascii "k") (ascii "leak")) (ascii "k") (one_slot stored_slot)

abbrev other_commands : List (Clock × Command)
other_commands =
    (toy_clock, Protocol.supersede (ascii "k") (ascii "k"))
    ∷ (toy_clock, Protocol.del (ascii "j"))
    ∷ []

at_k : find_key (ascii "k") (one_slot dead_slot).slots ≡ some dead_slot
unfolding find_key bytes_eq
at_k = refl

not_k : ¬ (ascii "j" ≡ ascii "k")
unfolding bytes_eq
not_k e = cc ((bytes_eq_iff (ascii "j") (ascii "k")).1 e)

other_key : ¬ (Resets (Protocol.supersede (ascii "k") (ascii "k")) (ascii "k"))
other_key (inl e) = e
other_key (inr e) = e

other_del : ¬ (Resets (Protocol.del (ascii "j")) (ascii "k"))
other_del (inl e) = e
other_del (inr e) = not_k e

dead : is_reversible dead_slot.state ≡ false
unfolding is_reversible
dead = refl

run_commands-final_example :
    find_key
      (ascii "k")
      (run_commands toy_world toy_settings other_commands (one_slot dead_slot)).slots
    ≡ some dead_slot
run_commands-final_example =
    run_commands-final toy_world toy_settings (ascii "k") dead_slot other_commands
      (one_slot dead_slot) (other_key, (other_del, tt)) at_k dead

abbrev reader : ApiKeyEntry
reader = record {
  key_id = ascii "r";
  label = ascii "app";
  permissions = ascii "read";
  ops_limit = 5;
}

abbrev writer : ApiKeyEntry
writer = record reader { permissions = ascii "read,write" }

abbrev toy_hash : Bytes
toy_hash = replicate 32 6

abbrev toy_server : ApiKeyEntry → Server toy_world
toy_server entry = record {
  shared = one_slot stored_slot;
  registry = (toy_hash, entry) ∷ [];
  counters = [];
}

reader-NoWriter : NoWriter (toy_server reader).registry
unfolding find_key can_write contains_text starts_with
reader-NoWriter h e found = elim (Bool-cases (bytes_eq toy_hash h)) [
  | inl same ↦
      let it : reader ≡ e = cc (rw (same, find_key) at found) in
      subst (λ x. can_write x ≡ false) it refl
  | inr differ ↦ absurd (cc (rw (differ, find_key) at found))
]

abbrev toy_inputs : List (Clock × Bytes)
toy_inputs = (toy_clock, ascii "AUTH secret") ∷ (toy_clock, ascii "DEL k") ∷ []

new_connection-out : (new_connection true).authenticated ≡ false
unfolding new_connection
new_connection-out = refl

serve_all-NoWriter_example :
    ((serve_all toy_world toy_settings true toy_inputs
        (toy_server reader)
        (new_connection true)).0.shared.slots
      ≡ (toy_server reader).shared.slots)
    × ((serve_all toy_world toy_settings true toy_inputs
          (toy_server reader)
          (new_connection true)).0.shared.store
        ≡ (toy_server reader).shared.store)
serve_all-NoWriter_example =
    serve_all-NoWriter toy_world toy_settings toy_inputs (toy_server reader) (new_connection true)
      reader-NoWriter new_connection-out

abbrev logged_in : ApiKeyEntry → ConnState
logged_in entry = record { authenticated = true; key_entry = some entry; key_hash = some toy_hash }

toy_input-Ordinary : Ordinary (ascii "SET k v")
unfolding words_of split_whitespace split_from space_width from_utf8_lossy eq_ignore_ascii_case
    ascii_lower bytes_eq
toy_input-Ordinary = (refl, refl)

toy_key-found : (e : ApiKeyEntry) → find_key toy_hash (toy_server e).registry ≡ some e
unfolding find_key bytes_eq
toy_key-found e = refl

writer-can_write : can_write writer ≡ true
unfolding can_write contains_text starts_with
writer-can_write = refl

writer-HasQuota : HasQuota writer []
unfolding find_key
writer-HasQuota = inr (omega arith)

serve-handle_resp_example :
    ((server_of toy_world toy_settings (
        serve toy_world toy_settings true toy_clock
          (ascii "SET k v")
          (toy_server writer)
          (logged_in writer))).shared
      ≡ (handle_resp toy_world toy_settings toy_clock
          (ascii "SET k v")
          (toy_server writer).shared).0)
    × (answer_of toy_world toy_settings (
          serve toy_world toy_settings true toy_clock
            (ascii "SET k v")
            (toy_server writer)
            (logged_in writer))
        ≡ answered toy_world toy_settings true
            (handle_resp toy_world toy_settings toy_clock
              (ascii "SET k v")
              (toy_server writer).shared).1)
serve-handle_resp_example =
    serve-handle_resp toy_world toy_settings toy_clock (ascii "SET k v") (toy_server writer)
      (logged_in writer) toy_hash writer writer toy_input-Ordinary refl refl refl
      (toy_key-found writer) writer-can_write writer-HasQuota

abbrev empty_registry : Server toy_world
empty_registry = record (toy_server writer) { registry = [] }

no_key : find_key toy_hash empty_registry.registry ≡ none
unfolding find_key
no_key = refl

serve-revoked_example :
    (let out =
        serve toy_world toy_settings true toy_clock
          (ascii "SET k v")
          empty_registry
          (logged_in writer) in
      ((server_of toy_world toy_settings out).shared ≡ empty_registry.shared)
      × (((answer_of toy_world toy_settings out ≡ Connection.revoked)
            × (conn_of toy_world toy_settings out ≡ logged_out))
          ⊎ ((n : ℕ) × (m : ℕ) × (answer_of toy_world toy_settings out ≡ quota_exceeded n m)
              × (conn_of toy_world toy_settings out ≡ logged_in writer))))
serve-revoked_example =
    serve-revoked toy_world toy_settings toy_clock (ascii "SET k v") empty_registry
      (logged_in writer) toy_hash toy_input-Ordinary refl refl no_key

pub k-PlainWord : PlainWord (ascii "k")
unfolding eq_ignore_ascii_case ascii_lower bytes_eq between
k-PlainWord = ((omega arith, tt), refl)

number-PlainWord : PlainWord (ascii "60")
unfolding eq_ignore_ascii_case ascii_lower bytes_eq between
number-PlainWord = ((omega arith, (omega arith, tt)), refl)

set_arguments-set_request_example :
    (set_arguments toy_world toy_settings toy_clock
        (words_of (set_request (ascii "k") (ascii "k") none))
      ≡ some (ok (ascii "k", empty_fingerprint)))
    × (set_arguments toy_world toy_settings toy_clock
          (words_of (set_request (ascii "k") (ascii "k") (some (ascii "60"))))
        ≡ some (ok (join (ascii "k" ∷ ascii "EX" ∷ ascii "60" ∷ []), empty_fingerprint)))
set_arguments-set_request_example =
    set_arguments-set_request toy_world toy_settings toy_clock (ascii "k") (ascii "k") (ascii "60")
      refl k-PlainWord k-PlainWord number-PlainWord
