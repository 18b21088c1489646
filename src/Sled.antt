-- ===== src/Sled.antt =====
-- The `sled` crate as a parameter: the calls that the audit log and the content store make of it,
-- and what its documentation says of them. A `Db` is an ordered map from byte strings to byte
-- strings, its keys in lexicographic order; `none` and `false` are an error of the crate.
pub mod Order
pub mod Lookup
use cachee_cli.Base.{
  ℕ, Bytes, Bool, Option, none, some, List, [], ◌∷◌, ◌≡◌, Result, ok, err, ltb, ◌==◌,
}
use cachee_cli.Base.{if◌then◌else◌, bytes_eq, ◌||◌, ◌&&◌, false, true, length}

pub record Sled : Type 1 where
  pub Db : Type 0
  pub insert : Db → Bytes → Bytes → Option Db
  pub flush : Db → Bool
  -- `none` is an error, `some none` an absent key
  pub get : Db → Bytes → Option (Option Bytes)
  pub contains_key : Db → Bytes → Option Bool
  pub last : Db → Option (Option (Bytes × Bytes))
  pub iter : Db → List (Option (Bytes × Bytes))
  pub len : Db → ℕ

-- Lexicographic order.
unfoldable pub lex_lt : Bytes → Bytes → Bool
lex_lt xs [] = false
lex_lt [] (y ∷ ys) = true
lex_lt (x ∷ xs) (y ∷ ys) = ltb x y || (x == y) && lex_lt xs ys

-- Insertion into an ordered map: a value under the same key is replaced.
unfoldable pub ordered_put : Bytes → Bytes → List (Bytes × Bytes) → List (Bytes × Bytes)
ordered_put k v [] = (k, v) ∷ []
ordered_put k v ((j, w) ∷ m) =
    if bytes_eq j k
    then (k, v) ∷ m
    else if lex_lt k j
    then (k, v) ∷ (j, w) ∷ m
    else (j, w) ∷ ordered_put k v m

unfoldable pub ordered_get : Bytes → List (Bytes × Bytes) → Option Bytes
ordered_get k [] = none
ordered_get k ((j, w) ∷ m) = if bytes_eq j k then some w else ordered_get k m

abbrev pub all_some : List (Bytes × Bytes) → List (Option (Bytes × Bytes))
all_some [] = []
all_some (x ∷ xs) = some x ∷ all_some xs

abbrev pub last_item : List (Bytes × Bytes) → Option (Bytes × Bytes)
last_item [] = none
last_item (x ∷ []) = some x
last_item (x ∷ y ∷ xs) = last_item (y ∷ xs)

-- The documented behaviour of the calls on a database whose reads do not fail.
pub record SledLaws (s : Sled) : Type 0 where
  pub contents : s.Db → List (Bytes × Bytes)
  pub contents-insert :
      (db db' : s.Db) (k v : Bytes)
      → s.insert db k v ≡ some db'
      → contents db' ≡ ordered_put k v (contents db)
  pub iter_lem : (db : s.Db) → s.iter db ≡ all_some (contents db)
  pub last_lem : (db : s.Db) → s.last db ≡ some (last_item (contents db))
  pub get_lem : (db : s.Db) (k : Bytes) → s.get db k ≡ some (ordered_get k (contents db))
