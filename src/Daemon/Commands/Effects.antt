-- ===== src/Daemon/Commands/Effects.antt =====
-- What each command of src/daemon.rs does to the engine.
use cachee_cli.Base.{
  Str, Option, none, some, ◌≡◌, ◌⊎◌, refl, inl, inr, Bool-cases, Option-cases, Result-cases,
  find_key, put_key,
}
use cachee_cli.Archive.Types.{ComputationFingerprint}
use cachee_cli.Lifecycle.{EntryState, system, system_initiated}
use cachee_cli.Trust.{trust_cached}
use cachee_cli.CacheSlot.{CacheSlot, new_slot, transition}
use cachee_cli.Audit.{AuditEventType, verify_chain, compute_merkle_anchor}
use cachee_cli.ReadContract.{CacheeReadResponse}
use cachee_cli.Daemon.World.{World, Settings, Clock, Shared}
use cachee_cli.Daemon.Protocol
use cachee_cli.Daemon.Protocol.{Command, Reply, CommandError}
use cachee_cli.Daemon.Verified.{get_verified}
use cachee_cli.Daemon.Reads.{
  log_event, handle_get, handle_get_verified, reply_verified, read_event, handle_state,
  handle_audit_verify, handle_audit_anchor,
}
use cachee_cli.Daemon.Writes.{
  set_ttl, persist, set_value, move_slot, handle_invalidate, handle_supersede, log_created,
}

module _ (w : World) (settings : Settings) where
  -- A read's effect on the engine.
  abbrev pub Looked : Shared w → Shared w → Type 0
  Looked s t = (t.engine ≡ s.engine) ⊎ ((key : Str) × (t.engine ≡ (w.engine.get s.engine key).0))

  pub get-Looked :
      (clock : Clock) (key : Str) (s : Shared w) → Looked s (handle_get w settings clock key s).0
  unfolding handle_get
  get-Looked clock key s = elim (Bool-cases settings.safe_read_mode) [
    | inl safe ↦ rw safe (inl refl)
    | inr open_mode ↦ elim (Option-cases (w.engine.get s.engine key).1) [
      | inl miss ↦ rw (open_mode, miss) (inr (key, refl))
      | inr (v, hit) ↦ rw (open_mode, hit) (inr (key, refl))
    ]
  ]

  verified-Looked :
      (clock : Clock) (key : Str) (s : Shared w) → Looked s (get_verified w s key clock.request).0
  unfolding get_verified
  verified-Looked clock key s = elim (Option-cases (w.engine.get s.engine key).1) [
    | inl miss ↦ rw (miss, get_verified) (inr (key, refl))
    | inr (v, hit) ↦ rw (hit, get_verified) (inr (key, refl))
  ]

  reply-Looked :
      (clock : Clock) (key : Str) (s t : Shared w) (r : Option CacheeReadResponse)
      → Looked s t
      → Looked s (reply_verified w settings clock key (t, r)).0
  unfolding reply_verified log_event
  reply-Looked clock key s t none k = k
  reply-Looked clock key s t (some r) k = elim (Option-cases (read_event key r)) [
    | inl quiet ↦ rw quiet k
    | inr (e, event) ↦ rw event k
  ]

  pub get_verified-Looked :
      (clock : Clock) (key : Str) (s : Shared w)
      → Looked s (handle_get_verified w settings clock key s).0
  unfolding handle_get_verified
  get_verified-Looked clock key s =
      let r = get_verified w s key clock.request in
      reply-Looked clock key s r.0 r.1 (verified-Looked clock key s)

  pub state-engine :
      (clock : Clock) (key : Str) (s : Shared w)
      → (handle_state w settings clock key s).0.engine ≡ s.engine
  unfolding handle_state
  state-engine clock key s = elim (Option-cases (find_key key s.slots)) [
    | inl miss ↦ rw (miss, handle_state) refl
    | inr (slot, hit) ↦ rw (hit, handle_state) refl
  ]

  pub audit_verify-engine :
      (clock : Clock) (s : Shared w) → (handle_audit_verify w settings clock s).0.engine ≡ s.engine
  unfolding handle_audit_verify
  audit_verify-engine clock s = elim (Result-cases (verify_chain w.env s.log)) [
    | inr (e, fails) ↦ rw (fails, handle_audit_verify) refl
    | inl ((count, broken), walked) ↦ elim (Option-cases broken) [
      | inl whole ↦ rw (walked, whole, handle_audit_verify) refl
      | inr (at_sequence, cut) ↦ rw (walked, cut, handle_audit_verify) refl
    ]
  ]

  pub audit_anchor-engine :
      (clock : Clock) (s : Shared w) → (handle_audit_anchor w settings clock s).0.engine ≡ s.engine
  unfolding handle_audit_anchor
  audit_anchor-engine clock s =
      elim (Result-cases (compute_merkle_anchor w.env s.log clock.audit).1) [
        | inl (root, done) ↦ rw (done, handle_audit_anchor) refl
        | inr (e, fails) ↦ rw (fails, handle_audit_anchor) refl
      ]

  move_slot-engine :
      (clock : Clock) (key : Str) (slot : CacheSlot) (new_state : EntryState)
      (event : AuditEventType) (s : Shared w)
      → (move_slot w settings clock key slot new_state event s).0.engine ≡ s.engine
  unfolding move_slot log_event
  move_slot-engine clock key slot new_state event s =
      elim (Result-cases (transition clock.transition slot new_state system system_initiated).1) [
        | inl (t, done) ↦ rw (done, move_slot) refl
        | inr (e, refused) ↦ rw (refused, move_slot) refl
      ]

  pub invalidate-engine :
      (clock : Clock) (key reason : Str) (s : Shared w)
      → (handle_invalidate w settings clock key reason s).0.engine ≡ s.engine
  unfolding handle_invalidate
  invalidate-engine clock key reason s = elim (Option-cases (find_key key s.slots)) [
    | inl miss ↦ rw (miss, handle_invalidate) refl
    | inr (slot, hit) ↦ rw (hit, handle_invalidate) (move_slot-engine clock key slot _ _ s)
  ]

  pub supersede-engine :
      (clock : Clock) (old_key new_key : Str) (s : Shared w)
      → (handle_supersede w settings clock old_key new_key s).0.engine ≡ s.engine
  unfolding handle_supersede
  supersede-engine clock old_key new_key s = elim (Option-cases (find_key new_key s.slots)) [
    | inl miss ↦ rw (miss, handle_supersede) refl
    | inr (new, hit) ↦ elim (Option-cases (find_key old_key s.slots)) [
      | inl miss ↦ rw (hit, miss, handle_supersede) refl
      | inr (slot, found) ↦
          rw (hit, found, handle_supersede) (move_slot-engine clock old_key slot _ _ s)
    ]
  ]

  log_created-engine :
      (clock : Clock) (key : Str) (slot : Option CacheSlot) (s : Shared w)
      → (log_created w settings clock key slot s).engine ≡ s.engine
  unfolding log_created log_event
  log_created-engine clock key none s = refl
  log_created-engine clock key (some slot) s = refl

  -- A SET's effect on the engine, with its reply.
  abbrev pub Written : Str → Str → Shared w → Shared w × Option Reply → Type 0
  Written key value s out =
      ((out.0.engine ≡ s.engine) × (out.1 ≡ none))
      ⊎ ((out.0.engine ≡ w.engine.set s.engine key value) × (out.1 ≡ some Protocol.okay))

  pub set_value-Written :
      (clock : Clock) (key value : Str) (fp : ComputationFingerprint) (s : Shared w)
      → Written key value s (set_value w settings clock key value fp s)
  unfolding set_value
  set_value-Written clock key value fp s =
      let slots =
        put_key key
          (new_slot w.codecs clock.slot clock.instant value fp set_ttl trust_cached
            settings.issuer_id)
          s.slots in
      elim (Option-cases (persist w settings clock (find_key key slots) s.store)) [
        | inl panics ↦ inl (rw (set_value, panics) refl, rw (set_value, panics) refl)
        | inr (store, done) ↦ inr (
          rw (set_value, done) (log_created-engine clock key (find_key key slots) _),
          rw (set_value, done) refl,
        )
      ]
