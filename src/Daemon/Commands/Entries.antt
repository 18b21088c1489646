-- ===== src/Daemon/Commands/Entries.antt =====
-- The lifecycle of the entry under one key.
use cachee_cli.Base.{
  Bytes, Str, true, false, Option, none, some, List, [], ◌∷◌, ◌≡◌, ◌⊎◌, refl, sym, ap, ◌∙◌, inl,
  inr, Bool-cases, bytes_eq, bytes_eq→eq, find_key, put_key, remove_key, find_key-put_key,
  find_key-put_other, find_key-remove_key, find_key-remove_other, All,
}
use cachee_cli.Archive.Types.{ComputationFingerprint}
use cachee_cli.Lifecycle.{EntryState, system, system_initiated, is_reversible}
use cachee_cli.CacheSlot.{CacheSlot}
use mathlib.Core.Path.{subst}
use cachee_cli.CacheSlot.Transitions.{
  Step, to_superseded, to_revoked, to_expired, to_deprecated, revalidate, reattest, Request, submit,
  transition_lem,
}
use cachee_cli.Daemon.World.{World, Settings, Clock, Shared}
use cachee_cli.Daemon.Protocol.{Command}
use cachee_cli.Daemon.Commands.{dispatch, run_commands}
use cachee_cli.Daemon.Commands.Changes.{
  Change, Sets, Deletes, Resets, made, kept, fresh, removed, moved, dispatch-Change,
}

module _ (w : World) (settings : Settings) where
  pub data EntryChange (clock : Clock) (cmd : Command) (key : Str) (before after : Option CacheSlot)
      : Type 0 where
    same : after ≡ before → EntryChange clock cmd key before after
    created :
        (value : Str) (fp : ComputationFingerprint)
        → Sets cmd key
        → after ≡ some (made w settings clock value fp)
        → EntryChange clock cmd key before after
    deleted : Deletes cmd key → after ≡ none → EntryChange clock cmd key before after
    stepped :
        (slot : CacheSlot) (new_state : EntryState)
        → before ≡ some slot
        → after ≡ some (record slot { state = new_state })
        → Step slot.state new_state
        → EntryChange clock cmd key before after

  abbrev request : Clock → EntryState → Request
  request clock new_state = record {
    now = clock.transition;
    new_state = new_state;
    authority = system;
    proof = system_initiated;
  }

  -- The key that a command touches is this one, or another.
  one_key : (k key : Str) → (k ≡ key) ⊎ (bytes_eq k key ≡ false)
  one_key k key = elim (Bool-cases (bytes_eq k key)) [
    | inl same_key ↦ inl (bytes_eq→eq k key same_key)
    | inr differ ↦ inr differ
  ]

  found_put :
      (k key : Str) (slot : CacheSlot) (m : List (Bytes × CacheSlot))
      → k ≡ key
      → find_key key (put_key k slot m) ≡ some slot
  found_put k key slot m e =
      ap (λ x. find_key x (put_key k slot m)) (sym e) ∙ find_key-put_key k slot m

  step-EntryChange :
      (clock : Clock) (cmd : Command) (key : Str) (slot : CacheSlot) (st : EntryState)
      (m : List (Bytes × CacheSlot))
      → find_key key m ≡ some slot
      → EntryChange clock cmd key (find_key key m) (some (submit slot (request clock st)).0)
  step-EntryChange clock cmd key slot st m found = elim (transition_lem slot (request clock st)) [
    | inl (done, after, step) ↦ stepped slot st found (ap some after) step
    | inr (e, refused, after, no_step) ↦ same (ap some after ∙ sym found)
  ]

  entry_after :
      (clock : Clock) (cmd : Command) (key : Str) (s t : Shared w)
      → Change w settings clock cmd s t
      → EntryChange clock cmd key (find_key key s.slots) (find_key key t.slots)
  entry_after clock cmd key s t (kept k) = same (ap (find_key key) k.0)
  entry_after clock cmd key s t (fresh k value fp r slots store) = elim (one_key k key) [
    | inl e ↦
        created value fp (subst (Sets cmd) e r)
          (ap (find_key key) slots ∙ found_put k key (made w settings clock value fp) s.slots e)
    | inr differ ↦ same (ap (find_key key) slots ∙ find_key-put_other k key _ s.slots differ)
  ]
  entry_after clock cmd key s t (removed k r slots store) = elim (one_key k key) [
    | inl e ↦ deleted (subst (Deletes cmd) e r) (
        ap (find_key key) slots
        ∙ ap (λ x. find_key x (remove_key k s.slots)) (sym e)
        ∙ find_key-remove_key k s.slots)
    | inr differ ↦ same (ap (find_key key) slots ∙ find_key-remove_other k key s.slots differ)
  ]
  entry_after clock cmd key s t (moved k slot st found slots store) = elim (one_key k key) [
    | inl e ↦
        subst (EntryChange clock cmd key (find_key key s.slots))
          (sym (
            ap (find_key key) slots ∙ found_put k key (submit slot (request clock st)).0 s.slots e))
          (step-EntryChange clock cmd key slot st s.slots
            (ap (λ x. find_key x s.slots) (sym e) ∙ found))
    | inr differ ↦ same (ap (find_key key) slots ∙ find_key-put_other k key _ s.slots differ)
  ]

  -- Under a command, the entry of every key stays as it is, or is a fresh active one made by a SET of
  -- that key, or goes by a DEL of that key, or changes its state along an arrow of the lifecycle and
  -- nothing else.
  pub dispatch-EntryChange :
      (clock : Clock) (cmd : Command) (key : Str) (s : Shared w)
      → EntryChange clock cmd key
          (find_key key s.slots)
          (find_key key (dispatch w settings clock cmd s).0.slots)
  dispatch-EntryChange clock cmd key s =
      entry_after clock cmd key s _ (dispatch-Change w settings clock cmd s)

  Step-is_reversible : {old new : EntryState} → Step old new → is_reversible old ≡ true
  unfolding is_reversible
  Step-is_reversible (to_superseded _) = refl
  Step-is_reversible (to_revoked _ _ _) = refl
  Step-is_reversible (to_expired _) = refl
  Step-is_reversible (to_deprecated _ _ _) = refl
  Step-is_reversible (revalidate _) = refl
  Step-is_reversible (reattest _ _ _) = refl

  final_after :
      (clock : Clock) (cmd : Command) (key : Str) (slot : CacheSlot)
      (before after : Option CacheSlot)
      → EntryChange clock cmd key before after
      → ¬ (Resets cmd key)
      → before ≡ some slot
      → is_reversible slot.state ≡ false
      → after ≡ some slot
  final_after clock cmd key slot before after (same e) no_reset found final = e ∙ found
  final_after clock cmd key slot before after (created value fp r e) no_reset found final =
      absurd (no_reset (inl r))
  final_after clock cmd key slot before after (deleted r e) no_reset found final =
      absurd (no_reset (inr r))
  final_after clock cmd key slot before after (stepped x st was is step) no_reset found final =
      absurd (cc (Step-is_reversible step, final, was, found))

  -- Commands of the key by anyone but SET and DEL.
  abbrev pub NoReset : Str → Clock × Command → Type 0
  NoReset key (clock, cmd) = ¬ (Resets cmd key)

  -- An entry that is revoked or superseded is found unchanged after any sequence of commands of which
  -- none is a SET or a DEL of its key.
  pub run_commands-final :
      (key : Str) (slot : CacheSlot) (cmds : List (Clock × Command)) (s : Shared w)
      → All (NoReset key) cmds
      → find_key key s.slots ≡ some slot
      → is_reversible slot.state ≡ false
      → find_key key (run_commands w settings cmds s).slots ≡ some slot
  unfolding run_commands
  run_commands-final key slot [] s quiet found final = found
  run_commands-final key slot ((clock, cmd) ∷ cmds) s quiet found final =
      run_commands-final key slot cmds (dispatch w settings clock cmd s).0 quiet.1
        (final_after clock cmd key slot _ _ (dispatch-EntryChange clock cmd key s) quiet.0 found
          final)
        final
