-- ===== src/Examples/Readers.antt =====
-- The theorem on what the daemon's clients read, at an engine over an association list.
use cachee_cli.Base.{◌≡◌, ◌⊎◌}
use cachee_cli.Base.{
  Bytes, Str, none, some, List, [], ◌∷◌, ◌∙◌, refl, sym, ap, inl, inr, ascii, find_key, put_key,
  remove_key, find_key-put_key, find_key-put_other, find_key-remove_key, find_key-remove_other,
  bytes_eq, bytes_eq→eq, Bool-cases,
}
use cachee_cli.Daemon.World.{Clock}
use cachee_cli.Daemon.Engines.{EngineLaws, Values, AllHeld, update}
use cachee_cli.Daemon.Protocol
use cachee_cli.Daemon.Protocol.{Command}
use cachee_cli.Daemon.Commands.{dispatch, run_commands}
use cachee_cli.Daemon.Commands.Coherence.{
  Agrees, Coherent, CoherentVerified, replay, transcript, run_commands-Coherent,
}
use cachee_cli.Daemon.Commands.Staying.{HasSlot}
use cachee_cli.Daemon.Commands.Covered.{Covered}
use cachee_cli.Daemon.Commands.Races.{set_register, set_into_engine, del_from_engine, del_slot}
use cachee_cli.Daemon.Commands.Overlaps.{
  idle, setting, deleting, at_key, Flow, Turn, registers, sets, deletes, removes, commands,
  take_turn, take_turns,
}
use cachee_cli.Daemon.Commands.Overlaps.Turns.{take_turns-HasSlot}
use cachee_cli.Examples.{toy_fingerprint}
use cachee_cli.Examples.Server.{
  toy_engine, toy_world, toy_settings, toy_clock, toy_set, empty_shared,
}

pub put_key-contents :
    (m : List (Bytes × Bytes)) (k : Str) (v : Bytes)
    → AllHeld (λ j. find_key j (put_key k v m)) (update k (some v) (λ j. find_key j m))
put_key-contents m k v j = elim (Bool-cases (bytes_eq k j)) [
  | inl same ↦ inr (
      rw same (
        ap (λ x. find_key x (put_key k v m)) (sym (bytes_eq→eq k j same)) ∙ find_key-put_key k v m))
  | inr differ ↦ inr (rw differ (find_key-put_other k j v m differ))
]

pub remove_key-contents :
    (m : List (Bytes × Bytes)) (k : Str)
    → AllHeld (λ j. find_key j (remove_key k m)) (update k none (λ j. find_key j m))
remove_key-contents m k j = elim (Bool-cases (bytes_eq k j)) [
  | inl same ↦ inr (
      rw same (
        ap (λ x. find_key x (remove_key k m)) (sym (bytes_eq→eq k j same))
        ∙ find_key-remove_key k m))
  | inr differ ↦ inr (rw differ (find_key-remove_other k j m differ))
]

abbrev pub toy_engine_laws : EngineLaws toy_engine
toy_engine_laws = record {
  contents = λ m k. find_key k m;
  get-value = λ m k. inr refl;
  get-contents = λ m k j. inr refl;
  set-contents = put_key-contents;
  delete-contents = remove_key-contents;
}

abbrev nothing : Values
nothing = λ j. none

abbrev toy_history : List (Clock × Command)
toy_history =
    (toy_clock, toy_set)
    ∷ (toy_clock, Protocol.del (ascii "j"))
    ∷ (toy_clock, Protocol.get (ascii "k"))
    ∷ []

empty-Agrees : Agrees toy_world toy_settings toy_engine_laws empty_shared nothing
unfolding find_key
empty-Agrees j = inl refl

run_commands-Coherent_example :
    Coherent
      (replay toy_world toy_settings
        (transcript toy_world toy_settings toy_history empty_shared)
        nothing
        (ascii "k"))
      (dispatch toy_world toy_settings toy_clock
        (Protocol.get (ascii "k"))
        (run_commands toy_world toy_settings toy_history empty_shared)).1
    × CoherentVerified
        (replay toy_world toy_settings
          (transcript toy_world toy_settings toy_history empty_shared)
          nothing
          (ascii "k"))
        (dispatch toy_world toy_settings toy_clock
          (Protocol.get_verified (ascii "k"))
          (run_commands toy_world toy_settings toy_history empty_shared)).1
run_commands-Coherent_example =
    run_commands-Coherent toy_world toy_settings toy_engine_laws toy_history empty_shared nothing
      toy_clock (ascii "k") empty-Agrees

empty-Covered : Covered toy_world toy_settings toy_engine_laws empty_shared
unfolding find_key
empty-Covered j = inl refl

-- A DEL of j and a PING come between the steps of a SET of k.
abbrev toy_turns : List (Turn toy_world toy_settings)
toy_turns =
    registers toy_clock (ascii "k") (ascii "v") toy_fingerprint
    ∷ deletes (ascii "j")
    ∷ commands toy_clock Protocol.ping
    ∷ sets (ascii "k") (ascii "v")
    ∷ removes (ascii "j")
    ∷ []

abbrev toy_last : Flow toy_world toy_settings
toy_last =
    let begun =
      set_register toy_world toy_settings toy_clock (ascii "k") (ascii "v") toy_fingerprint
        empty_shared in
    let deleted = del_from_engine toy_world toy_settings (ascii "j") begun in
    let written = set_into_engine toy_world toy_settings (ascii "k") (ascii "v") deleted in
    record {
      shared = del_slot toy_world toy_settings (ascii "j") written;
      phase = at_key (ascii "j") idle (
          at_key (ascii "k") idle
            (at_key (ascii "j") deleting (at_key (ascii "k") setting (λ key. idle))));
    }

toy_turns-taken :
    take_turns toy_world toy_settings toy_turns
      (record { shared = empty_shared; phase = λ key. idle })
    ≡ some toy_last
unfolding take_turns take_turn set_register set_into_engine del_from_engine del_slot dispatch
    bytes_eq
toy_turns-taken = refl

take_turns-HasSlot_example :
    (toy_engine_laws.contents toy_last.shared.engine (ascii "k") ≡ none)
    ⊎ HasSlot toy_last.shared.slots (ascii "k")
take_turns-HasSlot_example =
    take_turns-HasSlot toy_world toy_settings toy_engine_laws toy_turns empty_shared toy_last
      (ascii "k") empty-Covered (tt, (tt, (tt, (tt, (tt, tt))))) toy_turns-taken
