-- ===== src/Daemon/Commands/Kept.antt =====
-- The commands that leave the slot registry and the content store as they are.
use cachee_cli.Base.{
  Str, Option, none, some, ◌≡◌, refl, inl, inr, Bool-cases, Option-cases, Result-cases, find_key,
}
use cachee_cli.Audit.{verify_chain, compute_merkle_anchor}
use cachee_cli.ReadContract.{CacheeReadResponse}
use cachee_cli.Daemon.World.{World, Settings, Clock, Shared}
use cachee_cli.Daemon.Protocol
use cachee_cli.Daemon.Protocol.{Command}
use cachee_cli.Daemon.Verified.{get_verified}
use cachee_cli.Daemon.Reads.{
  log_event, handle_get, handle_get_verified, reply_verified, read_event, handle_state,
  handle_audit_verify, handle_audit_anchor, handle_info, handle_audit_log,
}
use cachee_cli.Daemon.Commands.{dispatch}

-- Not a SET, DEL, INVALIDATE or SUPERSEDE.
abbrev pub ReadsOnly : Command → Type 0
ReadsOnly (Protocol.set parts) = ⊥
ReadsOnly (Protocol.del key) = ⊥
ReadsOnly (Protocol.invalidate key reason) = ⊥
ReadsOnly (Protocol.supersede old_key new_key) = ⊥
ReadsOnly _ = Unit

module _ (w : World) (settings : Settings) (clock : Clock) where
  abbrev pub Kept : Shared w → Shared w → Type 0
  Kept s t = (t.slots ≡ s.slots) × (t.store ≡ s.store)

  get-Kept : (key : Str) (s : Shared w) → Kept s (handle_get w settings clock key s).0
  unfolding handle_get
  get-Kept key s = elim (Bool-cases settings.safe_read_mode) [
    | inl safe ↦ rw safe (refl, refl)
    | inr open_mode ↦ elim (Option-cases (w.engine.get s.engine key).1) [
      | inl miss ↦ rw (open_mode, miss) (refl, refl)
      | inr (v, hit) ↦ rw (open_mode, hit) (refl, refl)
    ]
  ]

  get_verified-Kept : (key : Str) (s : Shared w) → Kept s (get_verified w s key clock.request).0
  unfolding get_verified
  get_verified-Kept key s = elim (Option-cases (w.engine.get s.engine key).1) [
    | inl miss ↦ rw (miss, get_verified) (refl, refl)
    | inr (v, hit) ↦ rw (hit, get_verified) (refl, refl)
  ]

  reply-Kept :
      (key : Str) (s t : Shared w) (r : Option CacheeReadResponse)
      → Kept s t
      → Kept s (reply_verified w settings clock key (t, r)).0
  unfolding reply_verified log_event
  reply-Kept key s t none k = k
  reply-Kept key s t (some r) k = elim (Option-cases (read_event key r)) [
    | inl quiet ↦ rw quiet k
    | inr (e, event) ↦ rw event k
  ]

  handle_get_verified-Kept :
      (key : Str) (s : Shared w) → Kept s (handle_get_verified w settings clock key s).0
  unfolding handle_get_verified
  handle_get_verified-Kept key s =
      let r = get_verified w s key clock.request in
      reply-Kept key s r.0 r.1 (get_verified-Kept key s)

  state-Kept : (key : Str) (s : Shared w) → Kept s (handle_state w settings clock key s).0
  unfolding handle_state
  state-Kept key s = elim (Option-cases (find_key key s.slots)) [
    | inl miss ↦ rw (miss, handle_state) (refl, refl)
    | inr (slot, hit) ↦ rw (hit, handle_state) (refl, refl)
  ]

  audit_verify-Kept : (s : Shared w) → Kept s (handle_audit_verify w settings clock s).0
  unfolding handle_audit_verify
  audit_verify-Kept s = elim (Result-cases (verify_chain w.env s.log)) [
    | inr (e, fails) ↦ rw (fails, handle_audit_verify) (refl, refl)
    | inl ((count, broken), walked) ↦ elim (Option-cases broken) [
      | inl whole ↦ rw (walked, whole, handle_audit_verify) (refl, refl)
      | inr (at_sequence, cut) ↦ rw (walked, cut, handle_audit_verify) (refl, refl)
    ]
  ]

  audit_anchor-Kept : (s : Shared w) → Kept s (handle_audit_anchor w settings clock s).0
  unfolding handle_audit_anchor
  audit_anchor-Kept s = elim (Result-cases (compute_merkle_anchor w.env s.log clock.audit).1) [
    | inl (root, done) ↦ rw (done, handle_audit_anchor) (refl, refl)
    | inr (e, fails) ↦ rw (fails, handle_audit_anchor) (refl, refl)
  ]

  pub dispatch-Kept :
      (cmd : Command) (s : Shared w) → ReadsOnly cmd → Kept s (dispatch w settings clock cmd s).0
  unfolding dispatch handle_info handle_audit_log
  dispatch-Kept Protocol.empty_input s r = (refl, refl)
  dispatch-Kept Protocol.unknown_command s r = (refl, refl)
  dispatch-Kept Protocol.ping s r = (refl, refl)
  dispatch-Kept (Protocol.set parts) s r = absurd r
  dispatch-Kept (Protocol.get key) s r = get-Kept key s
  dispatch-Kept (Protocol.get_verified key) s r = handle_get_verified-Kept key s
  dispatch-Kept (Protocol.del key) s r = absurd r
  dispatch-Kept (Protocol.invalidate key reason) s r = absurd r
  dispatch-Kept (Protocol.supersede old_key new_key) s r = absurd r
  dispatch-Kept (Protocol.state key) s r = state-Kept key s
  dispatch-Kept Protocol.info s r = (refl, refl)
  dispatch-Kept (Protocol.audit_log key) s r = (refl, refl)
  dispatch-Kept Protocol.audit_verify s r = audit_verify-Kept s
  dispatch-Kept Protocol.audit_anchor s r = audit_anchor-Kept s
