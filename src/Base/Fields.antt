-- ===== src/Base/Fields.antt =====
-- Lines of text, the pieces between a byte, and decimal numbers, as Rust's `str` has them.
use Prim.Native.Nat.{ℕ, ◌+◌, ◌-◌, ◌*◌, ◌^◌}
use mathlib.Core.Path.{◌≡◌, refl, ap, sym, ◌∙◌}
use mathlib.Core.Logic.{inl, inr}
use mathlib.Core.Bool.{Bool, true, false, ◌&&◌}
use mathlib.Core.List.{List, [], ◌∷◌, ◌++◌, append_assoc, append-nil}
use mathlib.Core.Option.{Option, none, some}
use cachee_cli.Base.Tests.{if◌then◌else◌, ltb, leb, ◌==◌, Bool-cases}
use cachee_cli.Base.ByteStrings.{Str, All, bytes_eq}
use cachee_cli.Base.Lists.{length, drop}
use cachee_cli.Base.Utf8.{between}
use cachee_cli.Base.Text.{starts_with}

-- `split(c)` after a part of the current piece.
unfoldable pub split_onto : ℕ → Str → Str → List Str
split_onto c piece [] = piece ∷ []
split_onto c piece (d ∷ s) =
    let next = split_onto c [] s in
    let longer = split_onto c (piece ++ d ∷ []) s in if d == c then piece ∷ next else longer

unfoldable pub split_on : ℕ → Str → List Str
unfolding split_onto
split_on c = split_onto c []

unfoldable pub strip_cr : Str → Str
strip_cr [] = []
strip_cr (a ∷ []) = if a == 13 then [] else a ∷ []
strip_cr (a ∷ b ∷ s) = a ∷ strip_cr (b ∷ s)

-- A text that ends in a newline has no last line after it.
unfoldable pub finish_lines : List Str → List Str
unfolding strip_cr
finish_lines [] = []
finish_lines ([] ∷ []) = []
finish_lines ((a ∷ l) ∷ []) = (a ∷ l) ∷ []
finish_lines (l ∷ m ∷ rest) = strip_cr l ∷ finish_lines (m ∷ rest)

unfoldable pub lines : Str → List Str
unfolding split_on finish_lines
lines s = finish_lines (split_on 10 s)

-- `find(|l| l.starts_with(prefix))`
unfoldable pub find_line : Str → List Str → Option Str
find_line prefix [] = none
find_line prefix (l ∷ rest) =
    let later = find_line prefix rest in if starts_with l prefix then some l else later

abbrev pub second : List Str → Option Str
second [] = none
second (a ∷ []) = none
second (a ∷ b ∷ rest) = some b

unfoldable pub digits_from : ℕ → Str → Option ℕ
unfolding between
digits_from n [] = some n
digits_from n (d ∷ s) =
    let rest = digits_from (n * 10 + (d - 48)) s in if between 48 57 d then rest else none

-- `parse::<u64>()`: digits, after a plus sign if there is one.
unfoldable pub parse_u64 : Str → Option ℕ
unfolding digits_from
parse_u64 s = elim (digits s) [ none ↦ none | some n ↦ if ltb n (2 ^ 64) then some n else none ]
  where
    digits : Str → Option ℕ
    digits [] = none
    digits (a ∷ []) = digits_from 0 (a ∷ [])
    digits (a ∷ b ∷ s) = if a == 43 then digits_from 0 (b ∷ s) else digits_from 0 (a ∷ b ∷ s)

unfoldable pub parse_u32 : Str → Option ℕ
unfolding parse_u64
parse_u32 s = elim (parse_u64 s) [ none ↦ none | some n ↦ if ltb n (2 ^ 32) then some n else none ]

unfoldable pub ends_with : Str → Str → Bool
ends_with s suffix =
    leb (length suffix) (length s) && bytes_eq (drop (length s - length suffix) s) suffix

-- No byte of the text is `c`.
abbrev pub Without : ℕ → Str → Type 0
Without c s = All (λ d. (d == c) ≡ false) s

-- The piece up to the first separator.
pub split_onto-piece :
    (c : ℕ) (w x s : Str)
    → Without c x
    → (c == c) ≡ true
    → split_onto c w (x ++ c ∷ s) ≡ (w ++ x) ∷ split_onto c [] s
unfolding split_onto
split_onto-piece c w [] s q e = rw e (ap (λ t. t ∷ split_onto c [] s) (sym (append-nil w)))
split_onto-piece c w (d ∷ x) s q e = rw q.0 (
    split_onto-piece c (w ++ d ∷ []) x s q.1 e
    ∙ ap (λ t. t ∷ split_onto c [] s) (append_assoc w (d ∷ []) x))

pub strip_cr-end : (x : Str) (a : ℕ) → (a == 13) ≡ false → strip_cr (x ++ a ∷ []) ≡ x ++ a ∷ []
unfolding strip_cr
strip_cr-end [] a h = rw h refl
strip_cr-end (b ∷ []) a h = ap (λ t. b ∷ t) (strip_cr-end [] a h)
strip_cr-end (b ∷ d ∷ x) a h = ap (λ t. b ∷ t) (strip_cr-end (d ∷ x) a h)

abbrev pub lacks : ℕ → Str → Bool
lacks c [] = true
lacks c (d ∷ s) = if d == c then false else lacks c s

pub lacks-Without : (c : ℕ) (s : Str) → lacks c s ≡ true → Without c s
lacks-Without c [] h = tt
lacks-Without c (d ∷ s) h = elim (Bool-cases (d == c)) [
  | inl same ↦ absurd (cc (rw same at h))
  | inr differ ↦ (differ, lacks-Without c s (rw differ at h))
]
