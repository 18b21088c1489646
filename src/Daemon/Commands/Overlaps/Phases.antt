-- ===== src/Daemon/Commands/Overlaps/Phases.antt =====
-- What holds of a key of src/daemon.rs while a SET or a DEL of it is under way.
use cachee_cli.Base.{
  Bytes, Str, false, Option, none, some, ◌≡◌, ◌⊎◌, refl, ◌∙◌, inl, inr, bytes_eq, bytes_eq→eq,
  bytes_eq_refl, Bool-cases, find_key-put_key, find_key-remove_other,
}
use mathlib.Core.Path.{subst}
use cachee_cli.Archive.Types.{ComputationFingerprint}
use cachee_cli.ContentStore.{ContentStore}
use cachee_cli.Daemon.World.{World, Settings, Clock, Shared}
use cachee_cli.Daemon.Engines.{Held, AllHeld, EngineLaws, update}
use cachee_cli.Daemon.Commands.Changes.{made}
use cachee_cli.Daemon.Commands.Staying.{HasSlot, SlotsStay, put_key-SlotsStay}
use cachee_cli.Daemon.Commands.Races.{set_register, set_into_engine, del_from_engine, del_slot}
use cachee_cli.Daemon.Commands.Overlaps.{
  Phase, idle, setting, deleting, at_key, Flow, stored_or_panicked,
}

module _ (w : World) (settings : Settings) where
  module _ (laws : EngineLaws w.engine) where
    -- What holds of a key in each phase, of its value in the engine and of the slots.
    abbrev pub Safe : Phase → Str → Shared w → Type 0
    Safe idle j s = (laws.contents s.engine j ≡ none) ⊎ HasSlot s.slots j
    Safe setting j s = HasSlot s.slots j
    Safe deleting j s = laws.contents s.engine j ≡ none

    abbrev pub AllSafe : Flow w settings → Type 0
    AllSafe f = (j : Str) → Safe (f.phase j) j f.shared

    -- A key keeps its phase when the engine holds no more of it and its slot stays.
    pub Safe-stays :
        (p : Phase) (j : Str) (s t : Shared w)
        → Held (laws.contents t.engine j) (laws.contents s.engine j)
        → (HasSlot s.slots j → HasSlot t.slots j)
        → Safe p j s
        → Safe p j t
    Safe-stays idle j s t (inl gone) stay safe = inl gone
    Safe-stays idle j s t (inr same) stay (inl gone) = inl (same ∙ gone)
    Safe-stays idle j s t (inr same) stay (inr slot) = inr (stay slot)
    Safe-stays setting j s t held stay slot = stay slot
    Safe-stays deleting j s t (inl gone) stay safe = gone
    Safe-stays deleting j s t (inr same) stay safe = same ∙ safe

    -- One key changes its phase, and the others keep theirs.
    AllSafe-at_key :
        (key : Str) (p : Phase) (f : Flow w settings) (t : Shared w)
        → AllSafe f
        → Safe p key t
        → ((j : Str)
            → bytes_eq key j ≡ false
            → Held (laws.contents t.engine j) (laws.contents f.shared.engine j)
              × (HasSlot f.shared.slots j → HasSlot t.slots j))
        → AllSafe (record { shared = t; phase = at_key key p f.phase })
    AllSafe-at_key key p f t safe here there j = elim (Bool-cases (bytes_eq key j)) [
      | inl same ↦
          subst (λ i. Safe (at_key key p f.phase i) i t) (bytes_eq→eq key j same)
            (rw (bytes_eq_refl key) here)
      | inr differ ↦
          let (held, stay) = there j differ in
          rw differ (Safe-stays (f.phase j) j f.shared t held stay (safe j))
    ]

    update-other :
        (key j : Str) (v : Option Bytes) (e : w.engine.State) (s : Shared w)
        → bytes_eq key j ≡ false
        → Held (laws.contents e j) (update key v (laws.contents s.engine) j)
        → Held (laws.contents e j) (laws.contents s.engine j)
    update-other key j v e s differ h = rw differ at h

    update-none :
        (key : Str) (e : w.engine.State) (s : Shared w)
        → Held (laws.contents e key) (update key none (laws.contents s.engine) key)
        → laws.contents e key ≡ none
    update-none key e s (inl gone) = gone
    update-none key e s (inr same) = same ∙ rw (bytes_eq_refl key) refl

    -- The same phases, with a state in which the engine holds no more and the slots stay.
    pub AllSafe-stays :
        (f : Flow w settings) (t : Shared w)
        → AllHeld (laws.contents t.engine) (laws.contents f.shared.engine)
        → SlotsStay f.shared.slots t.slots
        → AllSafe f
        → AllSafe (record f { shared = t })
    AllSafe-stays f t held stay safe j =
        Safe-stays (f.phase j) j f.shared t (held j) (stay j) (safe j)

    pub registers-AllSafe :
        (clock : Clock) (key value : Str) (fp : ComputationFingerprint) (f : Flow w settings)
        → AllSafe f
        → AllSafe (record {
          shared = set_register w settings clock key value fp f.shared;
          phase = at_key key setting f.phase;
        })
    unfolding set_register
    registers-AllSafe clock key value fp f safe =
        let slot = made w settings clock value fp in
        let t = set_register w settings clock key value fp f.shared in
        AllSafe-at_key key setting f t safe (slot, find_key-put_key key slot f.shared.slots)
          (λ j differ. (inr refl, put_key-SlotsStay key slot f.shared.slots j))

    pub sets-AllSafe :
        (key : Str) (value : Bytes) (f : Flow w settings)
        → f.phase key ≡ setting
        → AllSafe f
        → AllSafe (record {
          shared = set_into_engine w settings key value f.shared;
          phase = at_key key idle f.phase;
        })
    unfolding set_into_engine
    sets-AllSafe key value f started safe =
        let slot : HasSlot f.shared.slots key =
          subst (λ p. Safe p key f.shared) started (safe key) in
        let t = set_into_engine w settings key value f.shared in
        AllSafe-at_key key idle f t safe (inr slot) (λ j differ. (
          update-other key j (some value) t.engine f.shared differ
              (laws.set-contents f.shared.engine key value j),
          λ h. h,
        ))

    pub deletes-AllSafe :
        (key : Str) (f : Flow w settings)
        → AllSafe f
        → AllSafe (record {
          shared = del_from_engine w settings key f.shared;
          phase = at_key key deleting f.phase;
        })
    unfolding del_from_engine
    deletes-AllSafe key f safe =
        let t = del_from_engine w settings key f.shared in
        let after = laws.delete-contents f.shared.engine key in
        AllSafe-at_key key deleting f t safe (update-none key t.engine f.shared (after key))
          (λ j differ. (update-other key j none t.engine f.shared differ (after j), λ h. h))

    pub removes-AllSafe :
        (key : Str) (f : Flow w settings)
        → f.phase key ≡ deleting
        → AllSafe f
        → AllSafe
            (record { shared = del_slot w settings key f.shared; phase = at_key key idle f.phase })
    unfolding del_slot
    removes-AllSafe key f started safe =
        let gone : laws.contents f.shared.engine key ≡ none =
          subst (λ p. Safe p key f.shared) started (safe key) in
        let t = del_slot w settings key f.shared in
        AllSafe-at_key key idle f t safe (inl gone) (λ j differ.
          (inr refl, λ h. (h.0, find_key-remove_other key j f.shared.slots differ ∙ h.1)))

    pub stores-AllSafe :
        (key : Str) (store : Option (ContentStore w.env.sled w.codecs)) (f : Flow w settings)
        → f.phase key ≡ setting
        → AllSafe f
        → AllSafe (stored_or_panicked w settings key store f)
    stores-AllSafe key (some store) f started safe j =
        Safe-stays (f.phase j) j f.shared (record (f.shared) { store = store }) (inr refl) (λ h. h)
          (safe j)
    stores-AllSafe key none f started safe j =
        let slot : HasSlot f.shared.slots key =
          subst (λ p. Safe p key f.shared) started (safe key) in
        AllSafe-at_key key idle f f.shared safe (inr slot) (λ i differ. (inr refl, λ h. h)) j
