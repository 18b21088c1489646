-- ===== src/Daemon/Commands/Changes.antt =====
-- What a command does to the slot registry and the content store.
use cachee_cli.Base.{
  Str, Option, none, some, List, [], ◌≡◌, ◌⊎◌, refl, inl, inr, Bool-cases, Option-cases,
  Result-cases, find_key, put_key, remove_key, find_key-put_key, get_or,
}
use cachee_cli.Archive.Types.{CacheeArchiveBundle, ComputationFingerprint}
use cachee_cli.Lifecycle.{EntryState, system, system_initiated}
use cachee_cli.Trust.{trust_cached}
use cachee_cli.CacheSlot.{CacheSlot, new_slot, transition, has_valid_fingerprint}
use cachee_cli.Audit.{AuditEventType}
use cachee_cli.ContentStore.{ContentStore, put}
use cachee_cli.Daemon.World.{World, Settings, Clock, Shared}
use cachee_cli.Daemon.Bundles.{slot_to_bundle}
use cachee_cli.Daemon.Protocol
use cachee_cli.Daemon.Protocol.{Command}
use cachee_cli.Daemon.Reads.{log_event}
use cachee_cli.Daemon.Writes.{
  set_ttl, persist, set_value, handle_set, set_arguments, handle_del, move_slot, handle_invalidate,
  handle_supersede, log_created,
}
use cachee_cli.Daemon.Commands.{dispatch}
use cachee_cli.Daemon.Commands.Kept.{Kept, dispatch-Kept}

-- A SET of the key.
abbrev pub Sets : Command → Str → Type 0
Sets (Protocol.set parts) key = get_or parts 1 [] ≡ key
Sets _ key = ⊥

-- A DEL of the key.
abbrev pub Deletes : Command → Str → Type 0
Deletes (Protocol.del k) key = k ≡ key
Deletes _ key = ⊥

-- A SET or a DEL of the key.
abbrev pub Resets : Command → Str → Type 0
Resets cmd key = Sets cmd key ⊎ Deletes cmd key

module _ (w : World) (settings : Settings) (clock : Clock) where
  -- The slot that a SET makes.
  abbrev pub made : Str → ComputationFingerprint → CacheSlot
  made value fp =
      new_slot w.codecs clock.slot clock.instant value fp set_ttl trust_cached settings.issuer_id

  abbrev pub StoreAfter : CacheSlot → Shared w → Shared w → Type 0
  StoreAfter slot s t =
      (t.store ≡ s.store)
      ⊎ ((b : CacheeArchiveBundle) × (slot_to_bundle w.codecs w.crypto slot settings.pq_keys
              settings.issuer_id
            ≡ some b)
          × (t.store ≡ (put w.env.sled w.codecs s.store b).0))

  pub data Change (cmd : Command) (s t : Shared w) : Type 0 where
    kept : Kept w settings clock s t → Change cmd s t
    fresh :
        (key value : Str) (fp : ComputationFingerprint)
        → Sets cmd key
        → t.slots ≡ put_key key (made value fp) s.slots
        → StoreAfter (made value fp) s t
        → Change cmd s t
    removed :
        (key : Str)
        → Deletes cmd key
        → t.slots ≡ remove_key key s.slots
        → t.store ≡ s.store
        → Change cmd s t
    moved :
        (key : Str) (slot : CacheSlot) (new_state : EntryState)
        → find_key key s.slots ≡ some slot
        → t.slots
          ≡ put_key key
              (transition clock.transition slot new_state system system_initiated).0
              s.slots
        → t.store ≡ s.store
        → Change cmd s t

  del-Change :
      (key : Str) (s : Shared w) → Change (Protocol.del key) s (handle_del w settings clock key s).0
  unfolding handle_del log_event
  del-Change key s = elim (Bool-cases (w.engine.delete s.engine key).1) [
    | inl gone ↦ removed key refl (rw gone refl) (rw gone refl)
    | inr absent ↦ removed key refl (rw absent refl) (rw absent refl)
  ]

  move_slot-Change :
      (cmd : Command) (key : Str) (slot : CacheSlot) (new_state : EntryState)
      (event : AuditEventType) (s : Shared w)
      → find_key key s.slots ≡ some slot
      → Change cmd s (move_slot w settings clock key slot new_state event s).0
  unfolding move_slot log_event
  move_slot-Change cmd key slot new_state event s h =
      elim (Result-cases (transition clock.transition slot new_state system system_initiated).1) [
        | inl (t, done) ↦
            moved key slot new_state h (rw (done, move_slot) refl) (rw (done, move_slot) refl)
        | inr (e, refused) ↦
            moved key slot new_state h (rw (refused, move_slot) refl) (rw (refused, move_slot) refl)
      ]

  invalidate-Change :
      (key reason : Str) (s : Shared w)
      → Change
          (Protocol.invalidate key reason)
          s
          (handle_invalidate w settings clock key reason s).0
  unfolding handle_invalidate
  invalidate-Change key reason s = elim (Option-cases (find_key key s.slots)) [
    | inl miss ↦ rw (miss, handle_invalidate) (kept (refl, refl))
    | inr (slot, hit) ↦ rw (hit, handle_invalidate) (move_slot-Change _ key slot _ _ s hit)
  ]

  supersede-Change :
      (old_key new_key : Str) (s : Shared w)
      → Change
          (Protocol.supersede old_key new_key)
          s
          (handle_supersede w settings clock old_key new_key s).0
  unfolding handle_supersede
  supersede-Change old_key new_key s = elim (Option-cases (find_key new_key s.slots)) [
    | inl miss ↦ rw (miss, handle_supersede) (kept (refl, refl))
    | inr (new, hit) ↦ elim (Option-cases (find_key old_key s.slots)) [
      | inl miss ↦ rw (hit, miss, handle_supersede) (kept (refl, refl))
      | inr (slot, found) ↦
          rw (hit, found, handle_supersede) (move_slot-Change _ old_key slot _ _ s found)
    ]
  ]

  persist-StoreAfter :
      (slot : CacheSlot) (store after : ContentStore w.env.sled w.codecs)
      → persist w settings clock (some slot) store ≡ some after
      → (after ≡ store)
        ⊎ ((b : CacheeArchiveBundle) × (slot_to_bundle w.codecs w.crypto slot settings.pq_keys
                settings.issuer_id
              ≡ some b)
            × (after ≡ (put w.env.sled w.codecs store b).0))
  unfolding persist
  persist-StoreAfter slot store after h = elim (Bool-cases (has_valid_fingerprint slot)) [
    | inr bare ↦ inl (cc (rw (bare, persist) at h))
    | inl signed ↦
        elim (Option-cases
          (slot_to_bundle w.codecs w.crypto slot settings.pq_keys settings.issuer_id)) [
            | inl panics ↦ absurd (cc (rw (signed, panics, persist) at h))
            | inr (b, bundle) ↦ inr (b, bundle, cc (rw (signed, bundle, persist) at h))
          ]
  ]

  log_created-Kept :
      (key : Str) (slot : Option CacheSlot) (s : Shared w)
      → Kept w settings clock s (log_created w settings clock key slot s)
  unfolding log_created log_event
  log_created-Kept key none s = (refl, refl)
  log_created-Kept key (some slot) s = (refl, refl)

  pub set_value-slots :
      (key value : Str) (fp : ComputationFingerprint) (s : Shared w)
      → (set_value w settings clock key value fp s).0.slots ≡ put_key key (made value fp) s.slots
  unfolding set_value
  set_value-slots key value fp s =
      let slot = made value fp in
      let found = find_key-put_key key slot s.slots in
      elim (Option-cases (persist w settings clock (some slot) s.store)) [
        | inl panics ↦ rw (set_value, found, panics) refl
        | inr (store, done) ↦
            let slots = put_key key slot s.slots in
            let after : Shared w = record s {
              engine = w.engine.set s.engine key value;
              slots = slots;
              store = store;
            } in
            rw (set_value, found, done) (log_created-Kept key (find_key key slots) after).0
      ]

  set_value-Change :
      (cmd : Command) (key value : Str) (fp : ComputationFingerprint) (s : Shared w)
      → Sets cmd key
      → Change cmd s (set_value w settings clock key value fp s).0
  unfolding set_value log_created log_event
  set_value-Change cmd key value fp s r =
      let slot = made value fp in
      let found = find_key-put_key key slot s.slots in
      elim (Option-cases (persist w settings clock (some slot) s.store)) [
        | inl panics ↦
            fresh key value fp r (set_value-slots key value fp s)
              (inl (rw (set_value, found, panics) refl))
        | inr (store, done) ↦
            let slots = put_key key slot s.slots in
            let after : Shared w = record s {
              engine = w.engine.set s.engine key value;
              slots = slots;
              store = store;
            } in
            let logged = log_created-Kept key (find_key key slots) after in
            fresh key value fp r (set_value-slots key value fp s)
              (rw (set_value, found, done, logged.1) (persist-StoreAfter slot s.store store done))
      ]

  set-Change :
      (parts : List Str) (s : Shared w)
      → Change (Protocol.set parts) s (handle_set w settings clock parts s).0
  unfolding handle_set
  set-Change parts s = elim (Option-cases (set_arguments w settings clock parts)) [
    | inl panics ↦ rw (panics, handle_set) (kept (refl, refl))
    | inr (outcome, read) ↦ elim (Result-cases outcome) [
      | inr (e, refused) ↦ rw (read, refused, handle_set) (kept (refl, refl))
      | inl ((value, fp), parsed) ↦
          rw (read, parsed, handle_set) (set_value-Change (Protocol.set parts) _ value fp s refl)
    ]
  ]

  -- Every command leaves the registry and the content store as they are, or is a SET that registers
  -- a fresh slot under its key and may store that slot's bundle, or is a DEL that removes its key, or
  -- applies one transition to one slot.
  pub dispatch-Change :
      (cmd : Command) (s : Shared w) → Change cmd s (dispatch w settings clock cmd s).0
  unfolding dispatch
  dispatch-Change (Protocol.set parts) s = set-Change parts s
  dispatch-Change (Protocol.del key) s = del-Change key s
  dispatch-Change (Protocol.invalidate key reason) s = invalidate-Change key reason s
  dispatch-Change (Protocol.supersede old_key new_key) s = supersede-Change old_key new_key s
  dispatch-Change Protocol.empty_input s =
      kept (dispatch-Kept w settings clock Protocol.empty_input s tt)
  dispatch-Change Protocol.unknown_command s =
      kept (dispatch-Kept w settings clock Protocol.unknown_command s tt)
  dispatch-Change Protocol.ping s = kept (dispatch-Kept w settings clock Protocol.ping s tt)
  dispatch-Change (Protocol.get key) s =
      kept (dispatch-Kept w settings clock (Protocol.get key) s tt)
  dispatch-Change (Protocol.get_verified key) s =
      kept (dispatch-Kept w settings clock (Protocol.get_verified key) s tt)
  dispatch-Change (Protocol.state key) s =
      kept (dispatch-Kept w settings clock (Protocol.state key) s tt)
  dispatch-Change Protocol.info s = kept (dispatch-Kept w settings clock Protocol.info s tt)
  dispatch-Change (Protocol.audit_log key) s =
      kept (dispatch-Kept w settings clock (Protocol.audit_log key) s tt)
  dispatch-Change Protocol.audit_verify s =
      kept (dispatch-Kept w settings clock Protocol.audit_verify s tt)
  dispatch-Change Protocol.audit_anchor s =
      kept (dispatch-Kept w settings clock Protocol.audit_anchor s tt)
