-- ===== src/Daemon/Commands/Overlaps/Turns.antt =====
-- Overlapping SETs and DELs of src/daemon.rs leave no key of the engine without a slot.
use cachee_cli.Base.{
  Str, none, some, List, [], ◌∷◌, ◌≡◌, ◌⊎◌, refl, inl, inr, Option-cases, find_key, All,
}
use mathlib.Core.Path.{subst}
use cachee_cli.Daemon.World.{World, Settings, Shared}
use cachee_cli.Daemon.Engines.{EngineLaws}
use cachee_cli.Daemon.Reads.{log_event}
use cachee_cli.Daemon.Writes.{persist}
use cachee_cli.Daemon.Commands.{dispatch}
use cachee_cli.Daemon.Commands.Changes.{dispatch-Change}
use cachee_cli.Daemon.Commands.Staying.{HasSlot, change-SlotsStay}
use cachee_cli.Daemon.Commands.Covered.{Covered, dispatch-Held}
use cachee_cli.Daemon.Commands.Overlaps.{
  Phase, idle, setting, deleting, Flow, Turn, registers, stores, sets, deletes, removes, logs,
  commands, take_turn, take_turns, InSteps,
}
use cachee_cli.Daemon.Commands.Overlaps.Phases.{
  Safe, AllSafe, Safe-stays, AllSafe-stays, registers-AllSafe, stores-AllSafe, sets-AllSafe,
  deletes-AllSafe, removes-AllSafe,
}

Phase-cases : (p : Phase) → (p ≡ idle) ⊎ (p ≡ setting) ⊎ (p ≡ deleting)
Phase-cases idle = inl refl
Phase-cases setting = inr (inl refl)
Phase-cases deleting = inr (inr refl)

module _ (w : World) (settings : Settings) where
  module _ (laws : EngineLaws w.engine) where
    take_turn-AllSafe :
        (turn : Turn w settings) (f next : Flow w settings)
        → InSteps w settings turn
        → take_turn w settings turn f ≡ some next
        → AllSafe w settings laws f
        → AllSafe w settings laws next
    unfolding take_turn log_event
    take_turn-AllSafe (registers clock key value fp) f next n h safe =
        elim (Phase-cases (f.phase key)) [
          | inl free ↦
              subst (AllSafe w settings laws) (cc (rw (free, take_turn) at h))
                (registers-AllSafe w settings laws clock key value fp f safe)
          | inr (inl busy) ↦ absurd (cc (rw (busy, take_turn) at h))
          | inr (inr busy) ↦ absurd (cc (rw (busy, take_turn) at h))
        ]
    take_turn-AllSafe (stores clock key) f next n h safe = elim (Phase-cases (f.phase key)) [
      | inl free ↦ absurd (cc (rw (free, take_turn) at h))
      | inr (inl started) ↦
          let store = persist w settings clock (find_key key f.shared.slots) f.shared.store in
          subst (AllSafe w settings laws) (cc (rw (started, take_turn) at h))
            (stores-AllSafe w settings laws key store f started safe)
      | inr (inr busy) ↦ absurd (cc (rw (busy, take_turn) at h))
    ]
    take_turn-AllSafe (sets key value) f next n h safe = elim (Phase-cases (f.phase key)) [
      | inl free ↦ absurd (cc (rw (free, take_turn) at h))
      | inr (inl started) ↦
          subst (AllSafe w settings laws) (cc (rw (started, take_turn) at h))
            (sets-AllSafe w settings laws key value f started safe)
      | inr (inr busy) ↦ absurd (cc (rw (busy, take_turn) at h))
    ]
    take_turn-AllSafe (deletes key) f next n h safe = elim (Phase-cases (f.phase key)) [
      | inl free ↦
          subst (AllSafe w settings laws) (cc (rw (free, take_turn) at h))
            (deletes-AllSafe w settings laws key f safe)
      | inr (inl busy) ↦ absurd (cc (rw (busy, take_turn) at h))
      | inr (inr busy) ↦ absurd (cc (rw (busy, take_turn) at h))
    ]
    take_turn-AllSafe (removes key) f next n h safe = elim (Phase-cases (f.phase key)) [
      | inl free ↦ absurd (cc (rw (free, take_turn) at h))
      | inr (inl busy) ↦ absurd (cc (rw (busy, take_turn) at h))
      | inr (inr started) ↦
          subst (AllSafe w settings laws) (cc (rw (started, take_turn) at h))
            (removes-AllSafe w settings laws key f started safe)
    ]
    take_turn-AllSafe (logs clock event) f next n h safe =
        subst (AllSafe w settings laws) (cc h) (λ j.
          Safe-stays w settings laws (f.phase j) j f.shared
            (log_event w settings clock f.shared event) (inr refl) (λ x. x) (safe j))
    take_turn-AllSafe (commands clock cmd) f next n h safe =
        let t = (dispatch w settings clock cmd f.shared).0 in
        subst (AllSafe w settings laws) (cc h) (
          AllSafe-stays w settings laws f t (dispatch-Held w settings laws clock cmd f.shared n)
            (change-SlotsStay w settings clock cmd f.shared t
              (dispatch-Change w settings clock cmd f.shared) n)
            safe)

    run-AllSafe :
        (turns : List (Turn w settings)) (f last : Flow w settings)
        → All (InSteps w settings) turns
        → take_turns w settings turns f ≡ some last
        → AllSafe w settings laws f
        → AllSafe w settings laws last
    unfolding take_turns
    run-AllSafe [] f last n h safe =
        let same : f ≡ last = cc h in subst (AllSafe w settings laws) same safe
    run-AllSafe (turn ∷ turns) f last n h safe = elim (Option-cases (take_turn w settings turn f)) [
      | inl stuck ↦ absurd (cc (rw (take_turns, stuck) at h))
      | inr (next, went) ↦
          run-AllSafe turns next last n.1 (rw (take_turns, went) at h)
            (take_turn-AllSafe turn f next n.0 went safe)
    ]

    -- In every sequence of steps of SETs, DELs and other commands, where the steps of SETs and DELs of
    -- several keys come between each other, those for one key do not overlap, and any other command
    -- comes between them as one step, each key that the engine holds has a slot at the end, finished
    -- or not, if it is so at the beginning. The engine behaves as a map that may forget.
    pub take_turns-HasSlot :
        (turns : List (Turn w settings)) (s : Shared w) (last : Flow w settings) (key : Str)
        → Covered w settings laws s
        → All (InSteps w settings) turns
        → take_turns w settings turns (record { shared = s; phase = λ j. idle }) ≡ some last
        → (laws.contents last.shared.engine key ≡ none) ⊎ HasSlot last.shared.slots key
    take_turns-HasSlot turns s last key covered n h =
        safe_key (last.phase key) (run-AllSafe turns _ last n h covered key)
      where
        safe_key :
            (p : Phase)
            → Safe w settings laws p key last.shared
            → (laws.contents last.shared.engine key ≡ none) ⊎ HasSlot last.shared.slots key
        safe_key idle safe = safe
        safe_key setting slot = inr slot
        safe_key deleting gone = inl gone
