-- ===== src/Daemon/Commands/Overlaps.antt =====
-- Commands of several connections of src/daemon.rs that overlap: a SET and a DEL in the steps between
-- which their locks are free, and the other commands whole.
pub mod Phases
pub mod Turns
use cachee_cli.Base.{
  Bytes, Str, false, Option, none, some, List, [], ◌∷◌, ◌≡◌, ◌⊎◌, refl, ◌∙◌, inl, inr, bytes_eq,
  bytes_eq→eq, bytes_eq_refl, Bool-cases, Option-cases, find_key, find_key-put_key,
  find_key-remove_other, if◌then◌else◌, All,
}
use mathlib.Core.Path.{subst}
use cachee_cli.Archive.Types.{ComputationFingerprint}
use cachee_cli.ContentStore.{ContentStore}
use cachee_cli.Audit.{AuditEventType}
use cachee_cli.Daemon.World.{World, Settings, Clock, Shared}
use cachee_cli.Daemon.Engines.{Held, AllHeld, EngineLaws, update}
use cachee_cli.Daemon.Protocol.{Command}
use cachee_cli.Daemon.Reads.{log_event}
use cachee_cli.Daemon.Writes.{persist}
use cachee_cli.Daemon.Commands.{dispatch}
use cachee_cli.Daemon.Commands.Changes.{made, dispatch-Change}
use cachee_cli.Daemon.Commands.Staying.{
  HasSlot, SlotsStay, put_key-SlotsStay, NotReset, change-SlotsStay,
}
use cachee_cli.Daemon.Commands.Covered.{Covered, dispatch-Held}
use cachee_cli.Daemon.Commands.Races.{set_register, set_into_engine, del_from_engine, del_slot}

-- What is under way for a key: nothing, a SET that has registered its slot and not yet called the
-- engine, or a DEL that has called the engine and not yet removed the slot.
pub data Phase : Type 0 where
  idle setting deleting : Phase

abbrev pub at_key : Str → Phase → (Str → Phase) → Str → Phase
at_key key p phase j = if bytes_eq key j then p else phase j

module _ (w : World) (settings : Settings) where
  pub record Flow : Type 0 where
    pub shared : Shared w
    pub phase : Str → Phase

  -- A step of some connection: a SET registers the slot, stores the bundle, calls the engine; a DEL
  -- calls the engine and removes the slot; both write the log; any other command is one step.
  pub data Turn : Type 0 where
    registers : Clock → Str → Bytes → ComputationFingerprint → Turn
    stores : Clock → Str → Turn
    sets : Str → Bytes → Turn
    deletes removes : Str → Turn
    logs : Clock → AuditEventType → Turn
    commands : Clock → Command → Turn

  -- A panic ends the SET.
  abbrev pub stored_or_panicked : Str → Option (ContentStore w.env.sled w.codecs) → Flow → Flow
  stored_or_panicked key none f = record f { phase = at_key key idle f.phase }
  stored_or_panicked key (some store) f = record f { shared = record (f.shared) { store = store } }

  -- `none` is a SET or a DEL of a key for which one is under way, and a step that is not next.
  unfoldable pub take_turn : Turn → Flow → Option Flow
  unfolding set_register set_into_engine del_from_engine del_slot persist log_event dispatch
  take_turn (registers clock key value fp) f = elim (f.phase key) [
    | idle ↦ some (record {
      shared = set_register w settings clock key value fp f.shared;
      phase = at_key key setting f.phase;
    })
    | setting ↦ none
    | deleting ↦ none
  ]
  take_turn (stores clock key) f = elim (f.phase key) [
    | idle ↦ none
    | setting ↦ some (
        stored_or_panicked key
          (persist w settings clock (find_key key f.shared.slots) f.shared.store) f)
    | deleting ↦ none
  ]
  take_turn (sets key value) f = elim (f.phase key) [
    | idle ↦ none
    | setting ↦ some (record {
      shared = set_into_engine w settings key value f.shared;
      phase = at_key key idle f.phase;
    })
    | deleting ↦ none
  ]
  take_turn (deletes key) f = elim (f.phase key) [
    | idle ↦ some (record {
      shared = del_from_engine w settings key f.shared;
      phase = at_key key deleting f.phase;
    })
    | setting ↦ none
    | deleting ↦ none
  ]
  take_turn (removes key) f = elim (f.phase key) [
    | idle ↦ none
    | setting ↦ none
    | deleting ↦
        some (record { shared = del_slot w settings key f.shared; phase = at_key key idle f.phase })
  ]
  take_turn (logs clock event) f =
      some (record f { shared = log_event w settings clock f.shared event })
  take_turn (commands clock cmd) f =
      some (record f { shared = (dispatch w settings clock cmd f.shared).0 })

  unfoldable pub take_turns : List Turn → Flow → Option Flow
  unfolding take_turn
  take_turns [] f = some f
  take_turns (turn ∷ turns) f = elim (take_turn turn f) [
    | none ↦ none
    | some next ↦ take_turns turns next
  ]

  -- SET and DEL are not taken whole.
  abbrev pub InSteps : Turn → Type 0
  InSteps (commands clock cmd) = NotReset cmd
  InSteps _ = Unit
