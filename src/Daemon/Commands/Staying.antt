-- ===== src/Daemon/Commands/Staying.antt =====
-- The commands of src/daemon.rs under which no key loses its slot.
use cachee_cli.Base.{
  Bytes, Str, some, List, ◌≡◌, sym, ◌∙◌, inl, inr, Bool-cases, find_key, put_key, find_key-put_key,
  find_key-put_other, bytes_eq, bytes_eq→eq,
}
use mathlib.Core.Path.{subst}
use cachee_cli.CacheSlot.{CacheSlot}
use cachee_cli.Daemon.World.{World, Settings, Clock, Shared}
use cachee_cli.Daemon.Protocol
use cachee_cli.Daemon.Protocol.{Command}
use cachee_cli.Daemon.Commands.Changes.{Change, Sets, Deletes, kept, fresh, removed, moved}

-- The key has a slot.
abbrev pub HasSlot : List (Bytes × CacheSlot) → Str → Type 0
HasSlot slots j = (slot : CacheSlot) × (find_key j slots ≡ some slot)

-- No key loses its slot.
abbrev pub SlotsStay : List (Bytes × CacheSlot) → List (Bytes × CacheSlot) → Type 0
SlotsStay before after = (j : Str) → HasSlot before j → HasSlot after j

pub put_key-SlotsStay :
    (key : Str) (slot : CacheSlot) (slots : List (Bytes × CacheSlot))
    → SlotsStay slots (put_key key slot slots)
put_key-SlotsStay key slot slots j (old, found) = elim (Bool-cases (bytes_eq key j)) [
  | inl same ↦ (
    slot,
    subst (λ x. find_key x (put_key key slot slots) ≡ some slot) (bytes_eq→eq key j same)
        (find_key-put_key key slot slots),
  )
  | inr differ ↦ (old, find_key-put_other key j slot slots differ ∙ found)
]

-- The slots of a command that is neither a SET nor a DEL stay.
abbrev pub NotReset : Command → Type 0
NotReset (Protocol.set parts) = ⊥
NotReset (Protocol.del key) = ⊥
NotReset _ = Unit

no_set : (cmd : Command) (key : Str) → Sets cmd key → NotReset cmd → ⊥
no_set (Protocol.set parts) key r n = n
no_set (Protocol.del k) key r n = r
no_set Protocol.empty_input key r n = r
no_set Protocol.unknown_command key r n = r
no_set Protocol.ping key r n = r
no_set (Protocol.get k) key r n = r
no_set (Protocol.get_verified k) key r n = r
no_set (Protocol.invalidate k reason) key r n = r
no_set (Protocol.supersede old_key new_key) key r n = r
no_set (Protocol.state k) key r n = r
no_set Protocol.info key r n = r
no_set (Protocol.audit_log k) key r n = r
no_set Protocol.audit_verify key r n = r
no_set Protocol.audit_anchor key r n = r

no_del : (cmd : Command) (key : Str) → Deletes cmd key → NotReset cmd → ⊥
no_del (Protocol.del k) key r n = n
no_del (Protocol.set parts) key r n = r
no_del Protocol.empty_input key r n = r
no_del Protocol.unknown_command key r n = r
no_del Protocol.ping key r n = r
no_del (Protocol.get k) key r n = r
no_del (Protocol.get_verified k) key r n = r
no_del (Protocol.invalidate k reason) key r n = r
no_del (Protocol.supersede old_key new_key) key r n = r
no_del (Protocol.state k) key r n = r
no_del Protocol.info key r n = r
no_del (Protocol.audit_log k) key r n = r
no_del Protocol.audit_verify key r n = r
no_del Protocol.audit_anchor key r n = r

module _ (w : World) (settings : Settings) where
  pub change-SlotsStay :
      (clock : Clock) (cmd : Command) (s t : Shared w)
      → Change w settings clock cmd s t
      → NotReset cmd
      → SlotsStay s.slots t.slots
  change-SlotsStay clock cmd s t (kept k) n j h = subst (λ m. HasSlot m j) (sym k.0) h
  change-SlotsStay clock cmd s t (fresh key value fp r slots store) n j h =
      absurd (no_set cmd key r n)
  change-SlotsStay clock cmd s t (removed key r slots store) n j h = absurd (no_del cmd key r n)
  change-SlotsStay clock cmd s t (moved key slot new_state found slots store) n j h =
      subst (λ m. HasSlot m j) (sym slots) (put_key-SlotsStay key _ s.slots j h)
