-- ===== src/Daemon/Engines.antt =====
-- The engine of src/daemon.rs as a map that may forget: what its calls are documented to do to the
-- values of the keys. A value may be gone at any time, evicted or out of its time to live, and no
-- key ever holds a value that was not set under it.
use cachee_cli.Base.{
  Bytes, Str, Option, none, some, ◌≡◌, ◌⊎◌, ◌∙◌, refl, inl, inr, if◌then◌else◌, bytes_eq,
  Bool-cases,
}
use cachee_cli.Daemon.World.{Engine}

abbrev pub Values : Type 0
Values = Str → Option Bytes

-- The key's value replaced.
abbrev pub update : Str → Option Bytes → Values → Values
update k v f = λ j. if bytes_eq k j then v else f j

-- Nothing, or what is expected.
abbrev pub Held : Option Bytes → Option Bytes → Type 0
Held found expected = (found ≡ none) ⊎ (found ≡ expected)

abbrev pub AllHeld : Values → Values → Type 0
AllHeld f g = (j : Str) → Held (f j) (g j)

pub record EngineLaws (e : Engine) : Type 0 where
  pub contents : e.State → Values
  pub get-value : (s : e.State) (k : Str) → Held (e.get s k).1 (contents s k)
  pub get-contents : (s : e.State) (k : Str) → AllHeld (contents (e.get s k).0) (contents s)
  pub set-contents :
      (s : e.State) (k : Str) (v : Bytes)
      → AllHeld (contents (e.set s k v)) (update k (some v) (contents s))
  pub delete-contents :
      (s : e.State) (k : Str) → AllHeld (contents (e.delete s k).0) (update k none (contents s))

pub Held-trans : (x y z : Option Bytes) → Held x y → Held y z → Held x z
Held-trans x y z (inl gone) h = inl gone
Held-trans x y z (inr same) (inl gone) = inl (same ∙ gone)
Held-trans x y z (inr same) (inr equal) = inr (same ∙ equal)

pub update-Held :
    (k : Str) (v : Option Bytes) (f g : Values)
    → AllHeld f g
    → AllHeld (update k v f) (update k v g)
update-Held k v f g h j = elim (Bool-cases (bytes_eq k j)) [
  | inl same ↦ rw same (inr refl)
  | inr differ ↦ rw differ (h j)
]
