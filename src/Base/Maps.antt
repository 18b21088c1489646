-- ===== src/Base/Maps.antt =====
-- A `HashMap` with byte strings as keys: an association list with one entry for a key.
use mathlib.Core.Path.{◌≡◌, refl, ap}
use mathlib.Core.Logic.{inl, inr}
use mathlib.Core.Bool.{false}
use mathlib.Core.Option.{Option, none, some}
use mathlib.Core.List.{List, [], ◌∷◌}
use cachee_cli.Base.Tests.{if◌then◌else◌, Bool-cases}
use cachee_cli.Base.ByteStrings.{Bytes, bytes_eq, bytes_eq_refl, bytes_eq→eq}

module _ {V : Type 0} where
  -- `get`
  unfoldable pub find_key : Bytes → List (Bytes × V) → Option V
  find_key k [] = none
  find_key k ((j, v) ∷ m) = if bytes_eq j k then some v else find_key k m

  -- `insert`
  unfoldable pub put_key : Bytes → V → List (Bytes × V) → List (Bytes × V)
  put_key k v [] = (k, v) ∷ []
  put_key k v ((j, w) ∷ m) = if bytes_eq j k then (k, v) ∷ m else (j, w) ∷ put_key k v m

  -- `remove`
  unfoldable pub remove_key : Bytes → List (Bytes × V) → List (Bytes × V)
  remove_key k [] = []
  remove_key k ((j, w) ∷ m) = if bytes_eq j k then remove_key k m else (j, w) ∷ remove_key k m

  pub find_key-put_key :
      (k : Bytes) (v : V) (m : List (Bytes × V)) → find_key k (put_key k v m) ≡ some v
  unfolding find_key put_key
  find_key-put_key k v [] = rw (bytes_eq_refl k) refl
  find_key-put_key k v ((j, w) ∷ m) = elim (Bool-cases (bytes_eq j k)) [
    | inl same ↦ rw (same, bytes_eq_refl k) refl
    | inr differ ↦ rw (differ, differ) (find_key-put_key k v m)
  ]

  pub find_key-put_other :
      (k other : Bytes) (v : V) (m : List (Bytes × V))
      → bytes_eq k other ≡ false
      → find_key other (put_key k v m) ≡ find_key other m
  unfolding find_key put_key
  find_key-put_other k other v [] h = rw h refl
  find_key-put_other k other v ((j, w) ∷ m) h = elim (Bool-cases (bytes_eq j k)) [
    | inl same ↦ rw (same, h, ap (λ x. bytes_eq x other) (bytes_eq→eq j k same), h) refl
    | inr differ ↦ rw (differ, find_key-put_other k other v m h) refl
  ]

  pub find_key-remove_key : (k : Bytes) (m : List (Bytes × V)) → find_key k (remove_key k m) ≡ none
  unfolding find_key remove_key
  find_key-remove_key k [] = refl
  find_key-remove_key k ((j, w) ∷ m) = elim (Bool-cases (bytes_eq j k)) [
    | inl same ↦ rw same (find_key-remove_key k m)
    | inr differ ↦ rw (differ, differ) (find_key-remove_key k m)
  ]

  pub find_key-remove_other :
      (k other : Bytes) (m : List (Bytes × V))
      → bytes_eq k other ≡ false
      → find_key other (remove_key k m) ≡ find_key other m
  unfolding find_key remove_key
  find_key-remove_other k other [] h = refl
  find_key-remove_other k other ((j, w) ∷ m) h = elim (Bool-cases (bytes_eq j k)) [
    | inl same ↦
        rw (same, ap (λ x. bytes_eq x other) (bytes_eq→eq j k same), h)
          (find_key-remove_other k other m h)
    | inr differ ↦ rw (differ, find_key-remove_other k other m h) refl
  ]
