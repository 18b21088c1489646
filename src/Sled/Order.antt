-- ===== src/Sled/Order.antt =====
-- Big-endian keys of one width are in the order of their numbers, so that appending under the next
-- number is insertion at the end.
use cachee_cli.Base.{ℕ, zero, suc, ◌/◌, ◌%◌, ◌^◌, ◌<◌, Bytes, true, false, List, [], ◌∷◌, ◌++◌}
use cachee_cli.Base.{◌≡◌, refl, sym, ap, ◌∙◌, arith, length, length-to_be, to_be}
use cachee_cli.Base.{bytes_eq, lt→ltb}
use cachee_cli.Base.{All, to_be-suc, ◌*◌, bytes_eq-nil_cons, bytes_eq-cons}
use native.Mathlib.Nat.{pow-suc}
use native.Mathlib.Decide.{dec_lt}
use cachee_cli.Sled.{lex_lt, ordered_put}

lex_lt-snoc_lt :
    (xs ys : Bytes) (a b : ℕ)
    → length xs ≡ length ys
    → lex_lt xs ys ≡ true
    → lex_lt (xs ++ a ∷ []) (ys ++ b ∷ []) ≡ true
unfolding lex_lt
lex_lt-snoc_lt [] [] a b l h = cc
lex_lt-snoc_lt [] (y ∷ ys) a b l h = absurd (omega arith)
lex_lt-snoc_lt (x ∷ xs) [] a b l h = cc
lex_lt-snoc_lt (x ∷ xs) (y ∷ ys) a b l h = ground (arith, lex_lt-snoc_lt xs ys a b)

lex_lt-snoc_eq : (xs : Bytes) (a b : ℕ) → a < b → lex_lt (xs ++ a ∷ []) (xs ++ b ∷ []) ≡ true
unfolding lex_lt
lex_lt-snoc_eq [] a b h = rw (lt→ltb a b h)
lex_lt-snoc_eq (x ∷ xs) a b h = ground (arith, lex_lt-snoc_eq xs a b h)

pub lex_lt-to_be : (k m n : ℕ) → m < n → n < 256 ^ k → lex_lt (to_be k m) (to_be k n) ≡ true
lex_lt-to_be zero m n h fits = absurd (omega arith)
lex_lt-to_be (suc k) m n h fits =
    let scaled : n < 256 ^ k * 256 = simp pow-suc at fits in
    let small : n / 256 < 256 ^ k = omega arith in
    rw (to_be-suc k m, to_be-suc k n)
      (elim (dec_lt (m / 256) (n / 256)) [
        | yes p ↦
            lex_lt-snoc_lt (to_be k (m / 256)) (to_be k (n / 256)) (m % 256) (n % 256)
              (length-to_be k (m / 256) ∙ sym (length-to_be k (n / 256)))
              (lex_lt-to_be k (m / 256) (n / 256) p small)
        | no p ↦
            let same : n / 256 ≡ m / 256 = omega arith in
            rw same (lex_lt-snoc_eq (to_be k (m / 256)) (m % 256) (n % 256) (omega arith))
      ])

lex_lt-asymm :
    (xs ys : Bytes) → lex_lt xs ys ≡ true → (lex_lt ys xs ≡ false) × (bytes_eq xs ys ≡ false)
unfolding lex_lt
lex_lt-asymm xs [] h = cc
lex_lt-asymm [] (y ∷ ys) h = (refl, bytes_eq-nil_cons y ys)
lex_lt-asymm (x ∷ xs) (y ∷ ys) h = ground (arith, bytes_eq-cons x y xs ys, lex_lt-asymm xs ys)

-- A key above all the keys is inserted at the end.
pub ordered_put-append :
    (k v : Bytes) (m : List (Bytes × Bytes))
    → All (λ p. lex_lt p.0 k ≡ true) m
    → ordered_put k v m ≡ m ++ (k, v) ∷ []
unfolding ordered_put
ordered_put-append k v [] h = refl
ordered_put-append k v ((j, w) ∷ m) h =
    let a = lex_lt-asymm j k h.0 in
    rw (a.1, a.0) (ap (λ l. (j, w) ∷ l) (ordered_put-append k v m h.1))
