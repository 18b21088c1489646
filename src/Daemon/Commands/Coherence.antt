-- ===== src/Daemon/Commands/Coherence.antt =====
-- What the clients of src/daemon.rs read, against what they were told of their own commands.
use cachee_cli.Base.{
  Bytes, Str, Option, none, some, List, [], ◌∷◌, ◌≡◌, ◌⊎◌, refl, sym, ◌∙◌, inl, inr, Bool-cases,
  Option-cases, Result-cases, Result, ok, find_key, get_or, from_utf8_lossy,
}
use mathlib.Core.Path.{subst}
use cachee_cli.Archive.Types.{ComputationFingerprint}
use cachee_cli.ReadContract.{CacheeReadResponse}
use cachee_cli.Daemon.World.{World, Settings, Clock, Shared}
use cachee_cli.Daemon.Engines.{Values, update, Held, AllHeld, EngineLaws, Held-trans, update-Held}
use cachee_cli.Daemon.Protocol
use cachee_cli.Daemon.Protocol.{Command, Reply, CommandError}
use cachee_cli.Daemon.Verified.{get_verified, slot_response}
use cachee_cli.Daemon.Reads.{
  log_event, handle_get, handle_get_verified, reply_verified, handle_info, handle_audit_log,
}
use cachee_cli.Daemon.Writes.{set_value, handle_set, set_arguments, handle_del}
use cachee_cli.Daemon.Commands.{dispatch, run_commands}
use cachee_cli.Daemon.Commands.Effects.{
  Looked, get-Looked, get_verified-Looked, state-engine, audit_verify-engine, audit_anchor-engine,
  invalidate-engine, supersede-engine, set_value-Written,
}

-- The reply to a GET: nil, the refusal of the safe mode, or the expected value.
abbrev pub Coherent : Option Bytes → Option Reply → Type 0
Coherent expected r =
    (r ≡ some Protocol.null)
    ⊎ (r ≡ some (Protocol.failure Protocol.safe_mode))
    ⊎ ((v : Bytes) × (expected ≡ some v) × (r ≡ some (Protocol.bulk (from_utf8_lossy v))))

-- The reply to a GETVERIFIED: nil, or a response with the expected value.
abbrev pub CoherentVerified : Option Bytes → Option Reply → Type 0
CoherentVerified expected r =
    (r ≡ some Protocol.null)
    ⊎ ((a : CacheeReadResponse) × (expected ≡ some a.value) × (r ≡ some (Protocol.response a)))

module _ (w : World) (settings : Settings) where
  -- The value that the words of a SET give.
  abbrev given : Str → Option (Result CommandError (Str × ComputationFingerprint)) → Values → Values
  given key (some (ok (value, fp))) f = update key (some value) f
  given key _ f = f

  -- What a client knows of the values after a command and its reply: a SET that was answered OK
  -- gives its key the value, and a DEL takes it away.
  abbrev pub told : Clock → Command → Option Reply → Values → Values
  told clock (Protocol.set parts) (some Protocol.okay) f =
      given (get_or parts 1 []) (set_arguments w settings clock parts) f
  told clock (Protocol.set parts) _ f = f
  told clock (Protocol.del key) _ f = update key none f
  told clock _ _ f = f

  -- The commands with their replies.
  unfoldable pub transcript :
      List (Clock × Command) → Shared w → List (Clock × Command × Option Reply)
  transcript [] s = []
  transcript ((clock, cmd) ∷ cmds) s =
      let out = dispatch w settings clock cmd s in (clock, cmd, out.1) ∷ transcript cmds out.0

  unfoldable pub replay : List (Clock × Command × Option Reply) → Values → Values
  replay [] f = f
  replay ((clock, cmd, r) ∷ heard) f = replay heard (told clock cmd r f)

  module _ (laws : EngineLaws w.engine) where
    -- The engine holds, for each key, nothing or what is expected.
    abbrev pub Agrees : Shared w → Values → Type 0
    Agrees s f = AllHeld (laws.contents s.engine) f

    kept-Agrees :
        (s : Shared w) (e : w.engine.State) (f : Values)
        → e ≡ s.engine
        → Agrees s f
        → AllHeld (laws.contents e) f
    kept-Agrees s e f same h = subst (λ x. AllHeld (laws.contents x) f) (sym same) h

    Looked-Agrees : (s t : Shared w) (f : Values) → Looked w settings s t → Agrees s f → Agrees t f
    Looked-Agrees s t f (inl same) h = kept-Agrees s t.engine f same h
    Looked-Agrees s t f (inr (key, looked)) h =
        subst (λ e. AllHeld (laws.contents e) f) (sym looked)
          (λ j. Held-trans _ _ _ (laws.get-contents s.engine key j) (h j))

    del-Agrees :
        (clock : Clock) (key : Str) (s : Shared w) (f : Values)
        → Agrees s f
        → Agrees (handle_del w settings clock key s).0 (update key none f)
    unfolding handle_del log_event
    del-Agrees clock key s f h =
        let after : AllHeld (laws.contents (w.engine.delete s.engine key).0) (update key none f) =
          λ j.
            Held-trans _ _ _ (laws.delete-contents s.engine key j) (update-Held key none _ f h j) in
        elim (Bool-cases (w.engine.delete s.engine key).1) [
          | inl gone ↦ rw gone after
          | inr absent ↦ rw absent after
        ]

    set-Agrees :
        (clock : Clock) (parts : List Str) (s : Shared w) (f : Values)
        → Agrees s f
        → Agrees
            (handle_set w settings clock parts s).0
            (told clock (Protocol.set parts) (handle_set w settings clock parts s).1 f)
    unfolding handle_set
    set-Agrees clock parts s f h = elim (Option-cases (set_arguments w settings clock parts)) [
      | inl panics ↦ rw (panics, handle_set) h
      | inr (outcome, read) ↦ elim (Result-cases outcome) [
        | inr (e, refused) ↦ rw (read, refused, handle_set) h
        | inl ((value, fp), parsed) ↦
            let key = get_or parts 1 [] in
            let out = set_value w settings clock key value fp s in
            elim (set_value-Written w settings clock key value fp s) [
              | inl (same, panics) ↦
                  rw (read, parsed, handle_set, panics) (kept-Agrees s out.0.engine f same h)
              | inr (written, fine) ↦
                  rw (read, parsed, handle_set, fine, read, parsed)
                    (subst (λ e. AllHeld (laws.contents e) (update key (some value) f))
                      (sym written)
                      (λ j.
                        Held-trans _ _ _ (laws.set-contents s.engine key value j)
                          (update-Held key (some value) _ f h j)))
            ]
      ]
    ]

    dispatch-Agrees :
        (clock : Clock) (cmd : Command) (s : Shared w) (f : Values)
        → Agrees s f
        → Agrees
            (dispatch w settings clock cmd s).0
            (told clock cmd (dispatch w settings clock cmd s).1 f)
    unfolding dispatch handle_info handle_audit_log
    dispatch-Agrees clock Protocol.empty_input s f h = h
    dispatch-Agrees clock Protocol.unknown_command s f h = h
    dispatch-Agrees clock Protocol.ping s f h = h
    dispatch-Agrees clock (Protocol.set parts) s f h = set-Agrees clock parts s f h
    dispatch-Agrees clock (Protocol.get key) s f h =
        Looked-Agrees s (handle_get w settings clock key s).0 f (get-Looked w settings clock key s)
          h
    dispatch-Agrees clock (Protocol.get_verified key) s f h =
        Looked-Agrees s (handle_get_verified w settings clock key s).0 f
          (get_verified-Looked w settings clock key s) h
    dispatch-Agrees clock (Protocol.del key) s f h = del-Agrees clock key s f h
    dispatch-Agrees clock (Protocol.invalidate key reason) s f h =
        kept-Agrees s _ f (invalidate-engine w settings clock key reason s) h
    dispatch-Agrees clock (Protocol.supersede old_key new_key) s f h =
        kept-Agrees s _ f (supersede-engine w settings clock old_key new_key s) h
    dispatch-Agrees clock (Protocol.state key) s f h =
        kept-Agrees s _ f (state-engine w settings clock key s) h
    dispatch-Agrees clock Protocol.info s f h = h
    dispatch-Agrees clock (Protocol.audit_log key) s f h = h
    dispatch-Agrees clock Protocol.audit_verify s f h =
        kept-Agrees s _ f (audit_verify-engine w settings clock s) h
    dispatch-Agrees clock Protocol.audit_anchor s f h =
        kept-Agrees s _ f (audit_anchor-engine w settings clock s) h

    run_commands-Agrees :
        (cmds : List (Clock × Command)) (s : Shared w) (f : Values)
        → Agrees s f
        → Agrees (run_commands w settings cmds s) (replay (transcript cmds s) f)
    unfolding run_commands transcript replay
    run_commands-Agrees [] s f h = h
    run_commands-Agrees ((clock, cmd) ∷ cmds) s f h =
        run_commands-Agrees cmds (dispatch w settings clock cmd s).0 _
          (dispatch-Agrees clock cmd s f h)

    found-Held : (v : Bytes) (x y : Option Bytes) → x ≡ some v → Held x y → y ≡ some v
    found-Held v x y found (inl gone) = absurd (cc (found, gone))
    found-Held v x y found (inr same) = sym same ∙ found

    get-Coherent :
        (clock : Clock) (key : Str) (s : Shared w) (f : Values)
        → Agrees s f
        → Coherent (f key) (dispatch w settings clock (Protocol.get key) s).1
    unfolding dispatch handle_get
    get-Coherent clock key s f h = elim (Bool-cases settings.safe_read_mode) [
      | inl safe ↦ inr (inl (rw (dispatch, handle_get, safe) refl))
      | inr open_mode ↦ elim (Option-cases (w.engine.get s.engine key).1) [
        | inl miss ↦ inl (rw (dispatch, handle_get, open_mode, miss) refl)
        | inr (v, hit) ↦ inr (
            inr (
              v,
              found-Held v _ _ hit (Held-trans _ _ _ (laws.get-value s.engine key) (h key)),
              rw (dispatch, handle_get, open_mode, hit) refl,
            ))
      ]
    ]

    verified-Coherent :
        (clock : Clock) (key : Str) (s : Shared w) (f : Values)
        → Agrees s f
        → CoherentVerified (f key) (dispatch w settings clock (Protocol.get_verified key) s).1
    unfolding dispatch handle_get_verified get_verified reply_verified slot_response
    verified-Coherent clock key s f h = elim (Option-cases (w.engine.get s.engine key).1) [
      | inl miss ↦ inl (rw (miss, get_verified) refl)
      | inr (v, hit) ↦
          let expected : f key ≡ some v =
            found-Held v _ _ hit (Held-trans _ _ _ (laws.get-value s.engine key) (h key)) in
          elim (Option-cases (find_key key s.slots)) [
            | inl bare ↦ inr (
              slot_response w s.store v clock.request none,
              expected,
              rw (hit, get_verified, bare) refl,
            )
            | inr (slot, met) ↦ inr (
              slot_response w s.store v clock.request (some slot),
              expected,
              rw (hit, get_verified, met) refl,
            )
          ]
    ]

    -- After any sequence of commands, each carried out whole before the next, from a state that agrees
    -- with the values `f`, a GET replies nil, refuses, or gives the value that the transcript of the
    -- commands and their replies, replayed on `f`, leaves under its key; a GETVERIFIED replies nil or
    -- a response with that value. This is the key's own value also when its entry is superseded.
    pub run_commands-Coherent :
        (cmds : List (Clock × Command)) (s : Shared w) (f : Values) (clock : Clock) (key : Str)
        → Agrees s f
        → Coherent
            (replay (transcript cmds s) f key)
            (dispatch w settings clock (Protocol.get key) (run_commands w settings cmds s)).1
          × CoherentVerified
              (replay (transcript cmds s) f key)
              (dispatch w settings clock
                (Protocol.get_verified key)
                (run_commands w settings cmds s)).1
    run_commands-Coherent cmds s f clock key h =
        let after = run_commands-Agrees cmds s f h in
        let t = run_commands w settings cmds s in
        (get-Coherent clock key t _ after, verified-Coherent clock key t _ after)
