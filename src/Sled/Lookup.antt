-- ===== src/Sled/Lookup.antt =====
-- Insertion and lookup in an ordered map.
use cachee_cli.Base.{
  Bytes, false, some, List, [], ◌∷◌, ◌≡◌, refl, ap, bytes_eq, bytes_eq_refl, bytes_eq→eq,
  Bool-cases, inl, inr,
}
use cachee_cli.Sled.{ordered_get, ordered_put, lex_lt}

pub ordered_get-put :
    (k v : Bytes) (m : List (Bytes × Bytes)) → ordered_get k (ordered_put k v m) ≡ some v
unfolding ordered_get ordered_put
ordered_get-put k v [] = rw (bytes_eq_refl k) refl
ordered_get-put k v ((j, w) ∷ m) = elim (Bool-cases (bytes_eq j k)) [
  | inl same ↦ rw (same, bytes_eq_refl k) refl
  | inr differ ↦ elim (Bool-cases (lex_lt k j)) [
    | inl low ↦ rw (differ, low, bytes_eq_refl k) refl
    | inr high ↦ rw (differ, high, differ) (ordered_get-put k v m)
  ]
]

pub ordered_get-put_other :
    (k v other : Bytes) (m : List (Bytes × Bytes))
    → bytes_eq k other ≡ false
    → ordered_get other (ordered_put k v m) ≡ ordered_get other m
unfolding ordered_get ordered_put
ordered_get-put_other k v other [] h = rw h refl
ordered_get-put_other k v other ((j, w) ∷ m) h = elim (Bool-cases (bytes_eq j k)) [
  | inl same ↦ rw (same, h, ap (λ x. bytes_eq x other) (bytes_eq→eq j k same), h) refl
  | inr differ ↦ elim (Bool-cases (lex_lt k j)) [
    | inl low ↦ rw (differ, low, h) refl
    | inr high ↦ rw (differ, high, ordered_get-put_other k v other m h) refl
  ]
]
