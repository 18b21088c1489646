-- ===== src/Daemon/Commands/Covered.antt =====
-- The engine and the slot registry of src/daemon.rs against each other: every key that the engine
-- holds has a slot.
use cachee_cli.Base.{
  Str, none, some, List, [], ◌∷◌, ◌≡◌, ◌⊎◌, refl, sym, ◌∙◌, inl, inr, Bool-cases, Option-cases,
  Result-cases, find_key, put_key, remove_key, find_key-put_key, find_key-remove_other, bytes_eq,
  bytes_eq→eq, get_or, ap,
}
use mathlib.Core.Path.{subst}
use cachee_cli.CacheSlot.{CacheSlot}
use cachee_cli.Daemon.World.{World, Settings, Clock, Shared}
use cachee_cli.Daemon.Engines.{Held, AllHeld, EngineLaws, update}
use cachee_cli.Daemon.Protocol
use cachee_cli.Daemon.Protocol.{Command}
use cachee_cli.Daemon.Reads.{
  handle_get, handle_get_verified, handle_info, handle_audit_log, log_event,
}
use cachee_cli.Daemon.Writes.{set_value, handle_set, set_arguments, handle_del}
use cachee_cli.Daemon.Commands.{dispatch, run_commands}
use cachee_cli.Daemon.Commands.Changes.{made, set_value-slots, dispatch-Change}
use cachee_cli.Daemon.Commands.Staying.{
  HasSlot, SlotsStay, put_key-SlotsStay, NotReset, change-SlotsStay,
}
use cachee_cli.Daemon.Commands.Effects.{
  Looked, get-Looked, get_verified-Looked, state-engine, audit_verify-engine, audit_anchor-engine,
  invalidate-engine, supersede-engine, set_value-Written,
}

module _ (w : World) (settings : Settings) (laws : EngineLaws w.engine) where
  -- Every key that the engine holds has a slot.
  abbrev pub Covered : Shared w → Type 0
  Covered s = (j : Str) → (laws.contents s.engine j ≡ none) ⊎ HasSlot s.slots j

  stay-Covered :
      (s t : Shared w)
      → AllHeld (laws.contents t.engine) (laws.contents s.engine)
      → SlotsStay s.slots t.slots
      → Covered s
      → Covered t
  stay-Covered s t held stay c j = elim (held j) [
    | inl gone ↦ inl gone
    | inr same ↦ elim (c j) [ inl gone ↦ inl (same ∙ gone) | inr slot ↦ inr (stay j slot) ]
  ]

  engine-Held :
      (s t : Shared w)
      → t.engine ≡ s.engine
      → AllHeld (laws.contents t.engine) (laws.contents s.engine)
  engine-Held s t same j = inr (ap (λ e. laws.contents e j) same)

  Looked-Held :
      (s t : Shared w)
      → Looked w settings s t
      → AllHeld (laws.contents t.engine) (laws.contents s.engine)
  Looked-Held s t (inl same) = engine-Held s t same
  Looked-Held s t (inr (key, looked)) =
      subst (λ e. AllHeld (laws.contents e) (laws.contents s.engine)) (sym looked)
        (laws.get-contents s.engine key)

  -- A command that is neither, by its effect on the engine.
  other-Covered :
      (clock : Clock) (cmd : Command) (s : Shared w)
      → NotReset cmd
      → AllHeld (laws.contents (dispatch w settings clock cmd s).0.engine) (laws.contents s.engine)
      → Covered s
      → Covered (dispatch w settings clock cmd s).0
  other-Covered clock cmd s n held c =
      let t = (dispatch w settings clock cmd s).0 in
      stay-Covered s t held
        (change-SlotsStay w settings clock cmd s t (dispatch-Change w settings clock cmd s) n) c

  same-Covered :
      (clock : Clock) (cmd : Command) (s : Shared w)
      → NotReset cmd
      → (dispatch w settings clock cmd s).0.engine ≡ s.engine
      → Covered s
      → Covered (dispatch w settings clock cmd s).0
  same-Covered clock cmd s n same c =
      other-Covered clock cmd s n (engine-Held s (dispatch w settings clock cmd s).0 same) c

  deleted-Covered :
      (key : Str) (s t : Shared w)
      → t.engine ≡ (w.engine.delete s.engine key).0
      → t.slots ≡ remove_key key s.slots
      → Covered s
      → Covered t
  deleted-Covered key s t engine slots c j =
      let held : Held (laws.contents t.engine j) (update key none (laws.contents s.engine) j) =
        subst (λ e. Held (laws.contents e j) (update key none (laws.contents s.engine) j))
          (sym engine) (laws.delete-contents s.engine key j) in
      elim (Bool-cases (bytes_eq key j)) [
        | inl same ↦
            let gone : Held (laws.contents t.engine j) none = rw same at held in
            elim gone [ inl e ↦ inl e | inr e ↦ inl e ]
        | inr differ ↦
            let still : Held (laws.contents t.engine j) (laws.contents s.engine j) =
              rw differ at held in
            elim still [
              | inl gone ↦ inl gone
              | inr equal ↦ elim (c j) [
                | inl gone ↦ inl (equal ∙ gone)
                | inr (slot, found) ↦ inr (
                  slot,
                  ap (find_key j) slots ∙ find_key-remove_other key j s.slots differ ∙ found,
                )
              ]
            ]
      ]

  del-Covered :
      (clock : Clock) (key : Str) (s : Shared w)
      → Covered s
      → Covered (handle_del w settings clock key s).0
  unfolding handle_del log_event
  del-Covered clock key s c =
      let t = (handle_del w settings clock key s).0 in
      elim (Bool-cases (w.engine.delete s.engine key).1) [
        | inl gone ↦
            deleted-Covered key s t (rw (handle_del, gone) refl) (rw (handle_del, gone) refl) c
        | inr absent ↦
            deleted-Covered key s t (rw (handle_del, absent) refl) (rw (handle_del, absent) refl) c
      ]

  -- A SET puts a slot, and the value into the engine or not.
  set-Covered :
      (key value : Str) (slot : CacheSlot) (s t : Shared w)
      → (t.engine ≡ s.engine) ⊎ (t.engine ≡ w.engine.set s.engine key value)
      → t.slots ≡ put_key key slot s.slots
      → Covered s
      → Covered t
  set-Covered key value slot s t (inl same) slots c j =
      stay-Covered s t (engine-Held s t same)
        (λ i h. subst (λ m. HasSlot m i) (sym slots) (put_key-SlotsStay key slot s.slots i h)) c j
  set-Covered key value slot s t (inr written) slots c j =
      let held : Held (laws.contents t.engine j)
          (update key (some value) (laws.contents s.engine) j) =
        subst (λ e. Held (laws.contents e j) (update key (some value) (laws.contents s.engine) j))
          (sym written) (laws.set-contents s.engine key value j) in
      elim (Bool-cases (bytes_eq key j)) [
        | inl same ↦ inr (
            subst (λ m. HasSlot m j) (sym slots)
              (
                slot,
                subst (λ x. find_key x (put_key key slot s.slots) ≡ some slot)
                    (bytes_eq→eq key j same) (find_key-put_key key slot s.slots),
              ))
        | inr differ ↦
            let still : Held (laws.contents t.engine j) (laws.contents s.engine j) =
              rw differ at held in
            elim still [
              | inl gone ↦ inl gone
              | inr equal ↦ elim (c j) [
                | inl gone ↦ inl (equal ∙ gone)
                | inr h ↦
                    inr (
                      subst (λ m. HasSlot m j) (sym slots) (put_key-SlotsStay key slot s.slots j h))
              ]
            ]
      ]

  handle_set-Covered :
      (clock : Clock) (parts : List Str) (s : Shared w)
      → Covered s
      → Covered (handle_set w settings clock parts s).0
  unfolding handle_set
  handle_set-Covered clock parts s c = elim (Option-cases (set_arguments w settings clock parts)) [
    | inl panics ↦ rw (panics, handle_set) c
    | inr (outcome, read) ↦ elim (Result-cases outcome) [
      | inr (e, refused) ↦ rw (read, refused, handle_set) c
      | inl ((value, fp), parsed) ↦
          let key = get_or parts 1 [] in
          let out = set_value w settings clock key value fp s in
          let engine : (out.0.engine ≡ s.engine)
              ⊎ (out.0.engine ≡ w.engine.set s.engine key value) =
            elim (set_value-Written w settings clock key value fp s) [
              | inl (same, panics) ↦ inl same
              | inr (written, fine) ↦ inr written
            ] in
          rw (read, parsed, handle_set)
            (set-Covered key value (made w settings clock value fp) s out.0 engine
              (set_value-slots w settings clock key value fp s) c)
    ]
  ]

  dispatch-Covered :
      (clock : Clock) (cmd : Command) (s : Shared w)
      → Covered s
      → Covered (dispatch w settings clock cmd s).0
  unfolding dispatch handle_info handle_audit_log
  dispatch-Covered clock (Protocol.set parts) s c = handle_set-Covered clock parts s c
  dispatch-Covered clock (Protocol.del key) s c = del-Covered clock key s c
  dispatch-Covered clock Protocol.empty_input s c = c
  dispatch-Covered clock Protocol.unknown_command s c = c
  dispatch-Covered clock Protocol.ping s c = c
  dispatch-Covered clock (Protocol.get key) s c =
      other-Covered clock (Protocol.get key) s tt
        (Looked-Held s (handle_get w settings clock key s).0 (get-Looked w settings clock key s)) c
  dispatch-Covered clock (Protocol.get_verified key) s c =
      other-Covered clock (Protocol.get_verified key) s tt
        (Looked-Held s (handle_get_verified w settings clock key s).0
          (get_verified-Looked w settings clock key s))
        c
  dispatch-Covered clock (Protocol.invalidate key reason) s c =
      same-Covered clock (Protocol.invalidate key reason) s tt
        (invalidate-engine w settings clock key reason s) c
  dispatch-Covered clock (Protocol.supersede old_key new_key) s c =
      same-Covered clock (Protocol.supersede old_key new_key) s tt
        (supersede-engine w settings clock old_key new_key s) c
  dispatch-Covered clock (Protocol.state key) s c =
      same-Covered clock (Protocol.state key) s tt (state-engine w settings clock key s) c
  dispatch-Covered clock Protocol.info s c = same-Covered clock Protocol.info s tt refl c
  dispatch-Covered clock (Protocol.audit_log key) s c =
      same-Covered clock (Protocol.audit_log key) s tt refl c
  dispatch-Covered clock Protocol.audit_verify s c =
      same-Covered clock Protocol.audit_verify s tt (audit_verify-engine w settings clock s) c
  dispatch-Covered clock Protocol.audit_anchor s c =
      same-Covered clock Protocol.audit_anchor s tt (audit_anchor-engine w settings clock s) c

  -- No other command puts a value into the engine.
  pub dispatch-Held :
      (clock : Clock) (cmd : Command) (s : Shared w)
      → NotReset cmd
      → AllHeld (laws.contents (dispatch w settings clock cmd s).0.engine) (laws.contents s.engine)
  unfolding dispatch handle_info handle_audit_log
  dispatch-Held clock (Protocol.set parts) s n = absurd n
  dispatch-Held clock (Protocol.del key) s n = absurd n
  dispatch-Held clock Protocol.empty_input s n = engine-Held s s refl
  dispatch-Held clock Protocol.unknown_command s n = engine-Held s s refl
  dispatch-Held clock Protocol.ping s n = engine-Held s s refl
  dispatch-Held clock (Protocol.get key) s n =
      Looked-Held s (handle_get w settings clock key s).0 (get-Looked w settings clock key s)
  dispatch-Held clock (Protocol.get_verified key) s n =
      Looked-Held s (handle_get_verified w settings clock key s).0
        (get_verified-Looked w settings clock key s)
  dispatch-Held clock (Protocol.invalidate key reason) s n =
      λ j. inr (ap (λ e. laws.contents e j) (invalidate-engine w settings clock key reason s))
  dispatch-Held clock (Protocol.supersede old_key new_key) s n =
      λ j. inr (ap (λ e. laws.contents e j) (supersede-engine w settings clock old_key new_key s))
  dispatch-Held clock (Protocol.state key) s n =
      λ j. inr (ap (λ e. laws.contents e j) (state-engine w settings clock key s))
  dispatch-Held clock Protocol.info s n = engine-Held s s refl
  dispatch-Held clock (Protocol.audit_log key) s n = engine-Held s s refl
  dispatch-Held clock Protocol.audit_verify s n =
      λ j. inr (ap (λ e. laws.contents e j) (audit_verify-engine w settings clock s))
  dispatch-Held clock Protocol.audit_anchor s n =
      λ j. inr (ap (λ e. laws.contents e j) (audit_anchor-engine w settings clock s))

  -- Every sequence of commands, each carried out whole before the next, keeps it that each key that
  -- the engine holds has a slot. Commands that come between the locks of another are not covered.
  run_commands-Covered :
      (cmds : List (Clock × Command)) (s : Shared w)
      → Covered s
      → Covered (run_commands w settings cmds s)
  unfolding run_commands
  run_commands-Covered [] s c = c
  run_commands-Covered ((clock, cmd) ∷ cmds) s c =
      run_commands-Covered cmds (dispatch w settings clock cmd s).0 (dispatch-Covered clock cmd s c)
