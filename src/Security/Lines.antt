-- ===== src/Security/Lines.antt =====
-- Lines of the form `name = "value"`, as src/security.rs and src/signup.rs write them, and what their
-- readers find.
use cachee_cli.Base.{
  Str, some, List, [], ◌∷◌, ◌++◌, ◌≡◌, refl, sym, ap, ◌∙◌, ascii, All-append, Without, split_on,
  split_onto, split_onto-piece, strip_cr, strip_cr-end, second,
}
use mathlib.Core.List.{append_assoc}
use cachee_cli.Security.{quoted_line}

-- A text that can stand between quotation marks on one line.
abbrev pub Plain : Str → Type 0
Plain s = Without 34 s × Without 10 s

pub quoted_line-Without :
    (name value : Str) → Without 10 name → Without 10 value → Without 10 (quoted_line name value)
quoted_line-Without name value n v =
    All-append _ (name ++ ascii " = ") (34 ∷ (value ++ 34 ∷ []))
      (All-append _ name (ascii " = ") n (refl, (refl, (refl, tt))))
      (refl, All-append _ value (34 ∷ []) v (refl, tt))

pub first_line :
    (l rest : Str)
    → Without 10 l
    → split_onto 10 [] ((l ++ 10 ∷ []) ++ rest) ≡ l ∷ split_onto 10 [] rest
first_line l rest q =
    ap (split_onto 10 []) (append_assoc l (10 ∷ []) rest) ∙ split_onto-piece 10 [] l rest q refl

pub next_line :
    (l rest : Str) (ls : List Str)
    → Without 10 l
    → split_onto 10 [] rest ≡ ls
    → split_onto 10 [] ((l ++ 10 ∷ []) ++ rest) ≡ l ∷ ls
next_line l rest ls q e = first_line l rest q ∙ ap (λ t. l ∷ t) e

pub quoted_piece :
    (name value : Str)
    → Without 34 name
    → Without 34 value
    → second (split_on 34 (quoted_line name value)) ≡ some value
unfolding split_on split_onto
quoted_piece name value n v =
    rw
      (
        split_onto-piece 34 [] (name ++ ascii " = ") (value ++ 34 ∷ [])
            (All-append _ name (ascii " = ") n (refl, (refl, (refl, tt)))) refl,
        split_onto-piece 34 [] value [] v refl,
      )
      refl

pub unstripped : (name value : Str) → strip_cr (quoted_line name value) ≡ quoted_line name value
unstripped name value =
    let assoc = append_assoc (name ++ ascii " = ") (34 ∷ value) (34 ∷ []) in
    ap strip_cr (sym assoc) ∙ strip_cr-end ((name ++ ascii " = ") ++ 34 ∷ value) 34 refl ∙ assoc
