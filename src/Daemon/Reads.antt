-- ===== src/Daemon/Reads.antt =====
-- The commands of src/daemon.rs that read: GET, GETVERIFIED, STATE, INFO and the audit commands.
use cachee_cli.Base.{
  Str, Bool, true, false, Option, none, some, [], ◌∷◌, ◌&&◌, ok, err, if◌then◌else◌, ascii,
  find_key, length, from_utf8_lossy, concat,
}
use cachee_cli.Audit.{
  AuditEventType, verification_performed, verification_failed, append, key_history, verify_chain,
  head, compute_merkle_anchor,
}
use cachee_cli.ReadContract
use cachee_cli.ReadContract.{VerificationStatus, CacheeReadResponse}
use cachee_cli.ContentStore.{store_len}
use cachee_cli.Daemon.World.{World, Settings, Clock, Shared}
use cachee_cli.Daemon.Protocol.{
  Reply, failure, bulk, null, response, history, entry_state, statistics, chain_intact, merkle_root,
  safe_mode, chain_broken, audit_verify_failed, audit_anchor_failed,
}
use cachee_cli.Daemon.Verified.{get_verified}

-- `unwrap_or(false)`
abbrev or_false : Option Bool → Bool
or_false none = false
or_false (some b) = b

abbrev bool_text : Bool → Str
bool_text true = ascii "true"
bool_text false = ascii "false"

unfoldable pub failure_reason : Bool → Bool → Bool → Str
failure_reason mldsa falcon slhdsa = concat (
    ascii "signature check failed: mldsa="
    ∷ bool_text mldsa
    ∷ ascii ", falcon="
    ∷ bool_text falcon
    ∷ ascii ", slhdsa="
    ∷ bool_text slhdsa
    ∷ [])

-- The event that a verified read logs, if any.
unfoldable pub read_event : Str → CacheeReadResponse → Option AuditEventType
unfolding failure_reason
read_event key r = elim r.verification [
  | ReadContract.fully_verified _ _ _ ↦
      let m = or_false r.signatures.mldsa_valid in
      let f = or_false r.signatures.falcon_valid in
      let s = or_false r.signatures.slhdsa_valid in
      some (verification_performed key m f s r.signatures.two_of_three (m && f && s))
  | ReadContract.verification_failed m f s ↦ some (verification_failed key (failure_reason m f s))
  | ReadContract.cached_verification _ _ ↦ none
  | ReadContract.unverified _ _ ↦ none
]

module _ (w : World) (settings : Settings) (clock : Clock) where
  -- `let _ = log.append(event)`
  unfoldable pub log_event : Shared w → AuditEventType → Shared w
  log_event s event = record s { log = (append w.env s.log clock.audit event).0 }

  abbrev log_some : Shared w → Option AuditEventType → Shared w
  log_some s none = s
  log_some s (some event) = log_event s event

  unfoldable pub handle_get : Str → Shared w → Shared w × Reply
  handle_get key s =
      let (engine, found) = w.engine.get s.engine key in
      if settings.safe_read_mode then (s, failure safe_mode) else elim found [
        | none ↦ (record s { engine = engine }, null)
        | some value ↦ (record s { engine = engine }, bulk (from_utf8_lossy value))
      ]

  unfoldable pub reply_verified : Str → Shared w × Option CacheeReadResponse → Shared w × Reply
  unfolding log_event read_event
  reply_verified key (s, none) = (s, null)
  reply_verified key (s, some r) = (log_some s (read_event key r), response r)

  unfoldable pub handle_get_verified : Str → Shared w → Shared w × Reply
  unfolding reply_verified get_verified
  handle_get_verified key s = reply_verified key (get_verified w s key clock.request)

  unfoldable pub handle_state : Str → Shared w → Shared w × Reply
  handle_state key s = elim (find_key key s.slots) [
    | none ↦ (s, null)
    | some slot ↦ (s, entry_state slot.state)
  ]

  unfoldable pub handle_info : Shared w → Shared w × Reply
  handle_info s =
      (s, statistics w.package_version (length s.slots) (store_len w.env.sled w.codecs s.store))

  unfoldable pub handle_audit_log : Str → Shared w → Shared w × Reply
  handle_audit_log key s = (s, history (key_history w.env s.log key))

  unfoldable pub handle_audit_verify : Shared w → Shared w × Reply
  handle_audit_verify s = elim (verify_chain w.env s.log) [
    | ok (count, none) ↦ (s, chain_intact count (head w.env s.log))
    | ok (count, some broken_at) ↦ (s, failure (chain_broken broken_at count))
    | err e ↦ (s, failure (audit_verify_failed e))
  ]

  unfoldable pub handle_audit_anchor : Shared w → Shared w × Reply
  handle_audit_anchor s =
      let (log, outcome) = compute_merkle_anchor w.env s.log clock.audit in
      elim outcome [
        | ok root ↦ (record s { log = log }, merkle_root root)
        | err e ↦ (record s { log = log }, failure (audit_anchor_failed e))
      ]
