-- ===== src/Daemon/Protocol.antt =====
-- The commands of `handle_resp` in src/daemon.rs, read from the words of the input, and its replies
-- before they are printed as RESP.
use cachee_cli.Base.{
  ℕ, Bytes, Str, List, [], ◌∷◌, if◌then◌else◌, bytes_eq, ascii, upper, join, split_whitespace,
  from_utf8_lossy,
}
use cachee_cli.Lifecycle.{EntryState}
use cachee_cli.CacheSlot.{TransitionError}
use cachee_cli.Audit.{AuditEntry, AuditError}
use cachee_cli.ReadContract.{CacheeReadResponse}

pub data Command : Type 0 where
  empty_input unknown_command ping : Command
  -- all the words, the command's name first
  set : List Str → Command
  get get_verified del state audit_log : Str → Command
  -- key, reason
  invalidate : Str → Str → Command
  -- old_key, new_key
  supersede : Str → Str → Command
  info audit_verify audit_anchor : Command

pub data CommandError : Type 0 where
  empty_command fingerprint_required safe_mode : CommandError
  key_not_found new_key_not_found old_key_not_found unknown : CommandError
  transition_refused : TransitionError → CommandError
  -- broken_at, count
  chain_broken : ℕ → ℕ → CommandError
  audit_verify_failed audit_anchor_failed : AuditError → CommandError

pub data Reply : Type 0 where
  pong okay null : Reply
  bulk : Str → Reply
  integer : ℕ → Reply
  -- printed by `serde_json`
  response : CacheeReadResponse → Reply
  history : List AuditEntry → Reply
  -- printed by `{:?}`
  entry_state : EntryState → Reply
  -- version, slots, l2_bundles; the engine's statistics are left out
  statistics : Str → ℕ → ℕ → Reply
  -- count, head
  chain_intact : ℕ → Bytes → Reply
  merkle_root : Bytes → Reply
  failure : CommandError → Reply

-- An arm `"NAME" if parts.len() >= n`, by the words after the name.
abbrev pub with_key : (Str → Command) → List Str → Command
with_key make (key ∷ rest) = make key
with_key make [] = unknown_command

abbrev set_command : Str → List Str → Command
set_command name (key ∷ value ∷ rest) = set (name ∷ key ∷ value ∷ rest)
set_command name _ = unknown_command

abbrev invalidate_command : List Str → Command
invalidate_command (key ∷ code ∷ word ∷ rest) = invalidate key (join (word ∷ rest))
invalidate_command _ = unknown_command

abbrev supersede_command : List Str → Command
supersede_command (old_key ∷ new_key ∷ rest) = supersede old_key new_key
supersede_command _ = unknown_command

-- The `match` on the name in upper case.
unfoldable pub named : Str → Str → List Str → Command
named upper_name name args =
    if bytes_eq upper_name (ascii "PING")
    then ping
    else if bytes_eq upper_name (ascii "SET")
    then set_command name args
    else if bytes_eq upper_name (ascii "GET")
    then with_key get args
    else if bytes_eq upper_name (ascii "GETVERIFIED")
    then with_key get_verified args
    else if bytes_eq upper_name (ascii "DEL")
    then with_key del args
    else if bytes_eq upper_name (ascii "INVALIDATE")
    then invalidate_command args
    else if bytes_eq upper_name (ascii "SUPERSEDE")
    then supersede_command args
    else if bytes_eq upper_name (ascii "STATE")
    then with_key state args
    else if bytes_eq upper_name (ascii "INFO")
    then info
    else if bytes_eq upper_name (ascii "AUDITLOG")
    then with_key audit_log args
    else if bytes_eq upper_name (ascii "AUDITVERIFY")
    then audit_verify
    else if bytes_eq upper_name (ascii "AUDITANCHOR")
    then audit_anchor
    else unknown_command

unfoldable pub command_of : List Str → Command
unfolding named
command_of [] = empty_input
command_of (name ∷ args) = named (upper name) name args

-- `from_utf8_lossy(data)` and `split_whitespace`.
unfoldable pub words_of : Bytes → List Str
words_of input = split_whitespace (from_utf8_lossy input)
