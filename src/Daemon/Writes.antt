-- ===== src/Daemon/Writes.antt =====
-- The commands of src/daemon.rs that write: SET, DEL, INVALIDATE and SUPERSEDE.
use cachee_cli.Base.{
  ℕ, ◌+◌, ◌-◌, ◌*◌, Str, Bool, true, false, Option, none, some, List, [], ◌∷◌, ◌++◌, ◌&&◌, Result,
  ok, err, if◌then◌else◌, ltb, ascii, find_key, put_key, remove_key, take, drop, get_or, join,
  eq_ignore_ascii_case,
}
use cachee_cli.Archive.Types.{ComputationFingerprint, empty_fingerprint}
use cachee_cli.Archive.Fingerprint.{digest}
use cachee_cli.Lifecycle.{EntryState, revoked, superseded, system, system_initiated}
use cachee_cli.Trust.{trust_cached}
use cachee_cli.CacheSlot.{CacheSlot, new_slot, parse_fingerprint, has_valid_fingerprint, transition}
use cachee_cli.Audit.{AuditEventType, state_transition, entry_created, entry_deleted}
use cachee_cli.ContentStore.{ContentStore, put}
use cachee_cli.PqKeys.{PqKeySet}
use cachee_cli.Daemon.World.{World, Settings, Clock, Shared}
use cachee_cli.Daemon.Bundles.{slot_to_bundle}
use cachee_cli.Daemon.Protocol.{
  CommandError, Reply, failure, okay, integer, fingerprint_required, key_not_found,
  new_key_not_found, old_key_not_found, transition_refused,
}
use cachee_cli.Daemon.Reads.{log_event}

-- `parts.iter().position(|p| p.eq_ignore_ascii_case("FP"))`
unfoldable pub fp_position : List Str → Option ℕ
unfolding eq_ignore_ascii_case
fp_position [] = none
fp_position (p ∷ parts) =
    let later = fp_position parts in
    if eq_ignore_ascii_case p (ascii "FP")
    then some 0
    else elim later [ none ↦ none | some i ↦ some (i + 1) ]

abbrev is_some : Option PqKeySet → Bool
is_some none = false
is_some (some keys) = true

-- `Duration::from_secs(3600)`
abbrev pub set_ttl : ℕ
set_ttl = 3600 * 1000000000

module _ (w : World) (settings : Settings) (clock : Clock) where
  -- The value and the fingerprint of a SET. `none` is the panic of `parts[2..idx]` when the first
  -- FP stands before the value.
  unfoldable pub set_arguments :
      List Str → Option (Result CommandError (Str × ComputationFingerprint))
  unfolding fp_position
  set_arguments parts = elim (fp_position parts) [
    | none ↦
        if settings.strict_mode
        then some (err fingerprint_required)
        else some (ok (join (drop 2 parts), empty_fingerprint))
    | some idx ↦
        if ltb idx 2
        then none
        else some (
            ok (
              join (take (idx - 2) (drop 2 parts)),
              parse_fingerprint w.hex_decode w.package_version (get_or parts (idx + 1) []),
            ))
  ]

  -- The content store after a SET; `none` is a panic of `sign`. An error of `put` is printed.
  unfoldable pub persist :
      Option CacheSlot
      → ContentStore w.env.sled w.codecs
      → Option (ContentStore w.env.sled w.codecs)
  persist none store = some store
  persist (some slot) store =
      if has_valid_fingerprint slot
      then elim (slot_to_bundle w.codecs w.crypto slot settings.pq_keys settings.issuer_id) [
        | none ↦ none
        | some bundle ↦ some (put w.env.sled w.codecs store bundle).0
      ]
      else some store

  unfoldable pub created_event : Str → CacheSlot → AuditEventType
  created_event key slot =
      entry_created key (w.env.hex_encode slot.content_address)
        (w.env.hex_encode (digest w.codecs slot.fingerprint))
        (is_some settings.pq_keys && has_valid_fingerprint slot)

  unfoldable pub log_created : Str → Option CacheSlot → Shared w → Shared w
  unfolding log_event created_event
  log_created key none s = s
  log_created key (some slot) s = log_event w settings clock s (created_event key slot)

  unfoldable pub set_value : Str → Str → ComputationFingerprint → Shared w → Shared w × Option Reply
  unfolding persist log_created
  set_value key value fingerprint s =
      let slot =
        new_slot w.codecs clock.slot clock.instant value fingerprint set_ttl trust_cached
          settings.issuer_id in
      let slots = put_key key slot s.slots in
      elim (persist (find_key key slots) s.store) [
        | none ↦ (record s { slots = slots }, none)
        | some store ↦ (
          log_created key (find_key key slots)
              (record s { engine = w.engine.set s.engine key value; slots = slots; store = store }),
          some okay,
        )
      ]

  -- A `none` reply is a panic.
  unfoldable pub handle_set : List Str → Shared w → Shared w × Option Reply
  unfolding set_arguments set_value
  handle_set parts s = elim (set_arguments parts) [
    | none ↦ (s, none)
    | some (err e) ↦ (s, some (failure e))
    | some (ok (value, fingerprint)) ↦ set_value (get_or parts 1 []) value fingerprint s
  ]

  unfoldable pub handle_del : Str → Shared w → Shared w × Reply
  unfolding log_event
  handle_del key s =
      let (engine, deleted) = w.engine.delete s.engine key in
      let removed : Shared w = record s { engine = engine; slots = remove_key key s.slots } in
      if deleted
      then (log_event w settings clock removed (entry_deleted key), integer 1)
      else (removed, integer 0)

  -- `slot.transition(…)` on the entry, and what the two commands do with its outcome.
  unfoldable pub move_slot :
      Str → CacheSlot → EntryState → AuditEventType → Shared w → Shared w × Reply
  unfolding log_event
  move_slot key slot new_state event s =
      let (after, outcome) = transition clock.transition slot new_state system system_initiated in
      let moved : Shared w = record s { slots = put_key key after s.slots } in
      elim outcome [
        | ok t ↦ (log_event w settings clock moved event, okay)
        | err e ↦ (moved, failure (transition_refused e))
      ]

  unfoldable pub handle_invalidate : Str → Str → Shared w → Shared w × Reply
  unfolding move_slot
  handle_invalidate key reason s = elim (find_key key s.slots) [
    | none ↦ (s, failure key_not_found)
    | some slot ↦
        move_slot key slot (revoked reason clock.request none)
          (state_transition key (ascii "Active") (ascii "Revoked") (ascii "System") (some reason)) s
  ]

  unfoldable pub handle_supersede : Str → Str → Shared w → Shared w × Reply
  unfolding move_slot
  handle_supersede old_key new_key s = elim (find_key new_key s.slots) [
    | none ↦ (s, failure new_key_not_found)
    | some new_slot ↦ elim (find_key old_key s.slots) [
      | none ↦ (s, failure old_key_not_found)
      | some slot ↦
          move_slot old_key slot (superseded new_slot.content_address)
            (state_transition old_key (ascii "Active") (ascii "Superseded(" ++ new_key ++ ascii ")")
              (ascii "System") none)
            s
    ]
  ]
