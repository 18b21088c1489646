-- ===== src/Daemon/Printing.antt =====
-- How src/daemon.rs prints its replies as RESP. `serde_json`, `{:?}` of the states, the errors of the
-- database, `stats()` of the engine and the two clock readings of INFO are parameters.
use cachee_cli.Base.{
  ℕ, Bytes, Str, List, [], ◌∷◌, ◌++◌, ascii, concat, length, decimal, crlf, print_rows,
}
use cachee_cli.Lifecycle.{EntryState}
use cachee_cli.CacheSlot
use cachee_cli.CacheSlot.{TransitionError}
use cachee_cli.Audit
use cachee_cli.Audit.{AuditEntry, AuditError}
use cachee_cli.ReadContract.{CacheeReadResponse}
use cachee_cli.Daemon.Protocol
use cachee_cli.Daemon.Protocol.{CommandError, Reply}

-- `CacheeStats`, as far as INFO prints it, and the times of the last reload and flush; `hit_rate` is
-- the text that `{:.4}` prints.
pub record Statistics : Type 0 where
  pub total_ops : ℕ
  pub hit_rate : Str
  pub hits_l0 : ℕ
  pub hits_l1 : ℕ
  pub misses : ℕ
  pub key_count : ℕ
  pub memory_bytes : ℕ
  pub last_reload : ℕ
  pub last_flush : ℕ

pub record Printer : Type 0 where
  pub response_json : CacheeReadResponse → Str
  pub history_json : List AuditEntry → Str
  pub debug_state : EntryState → Str
  -- an error of the database or of `serde_json`
  pub log_error : AuditError → Str
  pub hex_encode : Bytes → Str
  pub statistics : Statistics

unfoldable pub bulk_string : Str → Str
bulk_string s = b'$' ∷ decimal (length s) ++ (crlf ++ (s ++ crlf))

abbrev error_line : Str → Str
error_line text = ascii "-ERR " ++ (text ++ crlf)

module _ (p : Printer) where
  unfoldable pub print_transition_error : TransitionError → Str
  print_transition_error CacheSlot.terminal_superseded = ascii "terminal state: superseded"
  print_transition_error CacheSlot.terminal_revoked = ascii "terminal state: revoked"
  print_transition_error (CacheSlot.illegal_transition old_state new_state) = concat (
      ascii "illegal transition: "
      ∷ p.debug_state old_state
      ∷ ascii " -> "
      ∷ p.debug_state new_state
      ∷ [])

  unfoldable pub print_log_error : AuditError → Str
  print_log_error Audit.no_entries_since_anchor = ascii "no entries since last anchor"
  print_log_error e = p.log_error e

  unfoldable pub print_error : CommandError → Str
  unfolding print_transition_error print_log_error
  print_error Protocol.empty_command = error_line (ascii "empty command")
  print_error Protocol.fingerprint_required =
      error_line (ascii "computation fingerprint required (strict mode)")
  print_error Protocol.safe_mode = error_line (
      concat (
        ascii "Use GETVERIFIED for verified reads. GET is disabled in safe mode. "
        ∷ ascii "Set read_mode = "
        ∷ (34 ∷ ascii "compatible")
        ∷ (34 ∷ ascii " to enable unverified reads.")
        ∷ []))
  print_error Protocol.key_not_found = error_line (ascii "key not found")
  print_error Protocol.new_key_not_found = error_line (ascii "new key not found")
  print_error Protocol.old_key_not_found = error_line (ascii "old key not found")
  print_error Protocol.unknown = error_line (ascii "unknown command")
  print_error (Protocol.transition_refused e) = error_line (print_transition_error e)
  print_error (Protocol.chain_broken broken_at count) = error_line (
      concat (
        ascii "BROKEN chain broken at sequence "
        ∷ decimal broken_at
        ∷ ascii ", "
        ∷ decimal count
        ∷ ascii " entries verified before break"
        ∷ []))
  print_error (Protocol.audit_verify_failed e) =
      error_line (ascii "audit verify failed: " ++ print_log_error e)
  print_error (Protocol.audit_anchor_failed e) = error_line (print_log_error e)

  -- A field of INFO, by its name and value.
  abbrev pub info_row : Str → Str → Str
  info_row name value = name ++ b':' ∷ value

  -- The lines of INFO: version, slots, l2_bundles.
  abbrev pub info_rows : Str → ℕ → ℕ → List Str
  info_rows version slots bundles =
      ascii "# Cachee"
      ∷ info_row (ascii "version") version
      ∷ info_row (ascii "total_ops") (decimal p.statistics.total_ops)
      ∷ info_row (ascii "hit_rate") p.statistics.hit_rate
      ∷ info_row (ascii "hits_l0") (decimal p.statistics.hits_l0)
      ∷ info_row (ascii "hits_l1") (decimal p.statistics.hits_l1)
      ∷ info_row (ascii "misses") (decimal p.statistics.misses)
      ∷ info_row (ascii "keys") (decimal p.statistics.key_count)
      ∷ info_row (ascii "memory_bytes") (decimal p.statistics.memory_bytes)
      ∷ info_row (ascii "slots") (decimal slots)
      ∷ info_row (ascii "l2_bundles") (decimal bundles)
      ∷ info_row (ascii "key_registry_last_reload") (decimal p.statistics.last_reload)
      ∷ info_row (ascii "last_usage_flush") (decimal p.statistics.last_flush)
      ∷ []

  unfoldable pub info_text : Str → ℕ → ℕ → Str
  unfolding print_rows
  info_text version slots bundles = print_rows (info_rows version slots bundles)

  unfoldable pub print_reply : Reply → Str
  unfolding bulk_string print_error info_text
  print_reply Protocol.pong = ascii "+PONG" ++ crlf
  print_reply Protocol.okay = ascii "+OK" ++ crlf
  print_reply Protocol.null = ascii "$-1" ++ crlf
  print_reply (Protocol.bulk s) = bulk_string s
  print_reply (Protocol.integer n) = b':' ∷ decimal n ++ crlf
  print_reply (Protocol.response r) = bulk_string (p.response_json r)
  print_reply (Protocol.history entries) = bulk_string (p.history_json entries)
  print_reply (Protocol.entry_state s) = bulk_string (p.debug_state s)
  print_reply (Protocol.statistics version slots bundles) =
      bulk_string (info_text version slots bundles)
  print_reply (Protocol.chain_intact count head) = bulk_string (
      concat (
        ascii "OK "
        ∷ decimal count
        ∷ ascii " entries verified, chain intact, head="
        ∷ p.hex_encode head
        ∷ []))
  print_reply (Protocol.merkle_root root) =
      bulk_string (ascii "OK merkle_root=" ++ p.hex_encode root)
  print_reply (Protocol.failure e) = print_error e
