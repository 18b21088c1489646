-- ===== src/Base/Rows.antt =====
-- Lines that end in CR LF, and what `lines` reads of them.
use Prim.Native.Nat.{ℕ}
use mathlib.Core.Path.{◌≡◌, refl, sym, ap, ◌∙◌}
use mathlib.Core.Logic.{inl, inr}
use mathlib.Core.List.{List, [], ◌∷◌, ◌++◌, append_assoc}
use cachee_cli.Base.Tests.{◌==◌, Bool-cases}
use cachee_cli.Base.ByteStrings.{Str, All, All-append}
use cachee_cli.Base.Text.{crlf}
use cachee_cli.Base.Fields.{
  split_onto, split_on, split_onto-piece, strip_cr, finish_lines, lines, Without,
}

unfoldable pub print_rows : List Str → Str
print_rows [] = []
print_rows (row ∷ rows) = row ++ (crlf ++ print_rows rows)

strip_cr-cr : (x : Str) → strip_cr (x ++ 13 ∷ []) ≡ x
unfolding strip_cr
strip_cr-cr [] = refl
strip_cr-cr (a ∷ []) = refl
strip_cr-cr (a ∷ b ∷ x) = ap (λ t. a ∷ t) (strip_cr-cr (b ∷ x))

-- There is always a first piece.
first_piece : (c : ℕ) (w s : Str) → (m : Str) × (rest : List Str) × (split_onto c w s ≡ m ∷ rest)
unfolding split_onto
first_piece c w [] = (w, [], refl)
first_piece c w (d ∷ s) = elim (Bool-cases (d == c)) [
  | inl same ↦ (w, split_onto c [] s, rw (split_onto, same) refl)
  | inr differ ↦ rw (split_onto, differ) (first_piece c (w ++ d ∷ []) s)
]

split-row :
    (row s : Str)
    → Without 10 row
    → split_onto 10 [] (row ++ (crlf ++ s)) ≡ (row ++ 13 ∷ []) ∷ split_onto 10 [] s
split-row row s q =
    ap (split_onto 10 []) (sym (append_assoc row (13 ∷ []) (10 ∷ s)))
    ∙ split_onto-piece 10 [] (row ++ 13 ∷ []) s (All-append _ row (13 ∷ []) q (refl, tt)) refl

finished_row :
    (row s : Str)
    → Without 10 row
    → finish_lines (split_onto 10 [] (row ++ (crlf ++ s))) ≡ row ∷ finish_lines (split_onto 10 [] s)
unfolding finish_lines
finished_row row s q =
    let (m, rest, shape) = first_piece 10 [] s in
    ap finish_lines (split-row row s q)
    ∙ ap (λ t. finish_lines ((row ++ 13 ∷ []) ∷ t)) shape
    ∙ ap (λ t. t ∷ finish_lines (m ∷ rest)) (strip_cr-cr row)
    ∙ ap (λ t. row ∷ finish_lines t) (sym shape)

rows_read :
    (rows : List Str)
    → All (Without 10) rows
    → finish_lines (split_onto 10 [] (print_rows rows)) ≡ rows
unfolding print_rows finish_lines split_onto
rows_read [] q = refl
rows_read (row ∷ rows) q =
    finished_row row (print_rows rows) q.0 ∙ ap (λ t. row ∷ t) (rows_read rows q.1)

-- `lines` takes off both characters of the ends.
pub lines-print_rows : (rows : List Str) → All (Without 10) rows → lines (print_rows rows) ≡ rows
unfolding lines split_on
lines-print_rows rows q = rows_read rows q

pub print_rows-append : (xs ys : List Str) → print_rows (xs ++ ys) ≡ print_rows xs ++ print_rows ys
unfolding print_rows
print_rows-append [] ys = refl
print_rows-append (x ∷ xs) ys =
    ap (λ t. x ++ (crlf ++ t)) (print_rows-append xs ys)
    ∙ sym (append_assoc x (crlf ++ print_rows xs) (print_rows ys))
