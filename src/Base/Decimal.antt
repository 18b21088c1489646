-- ===== src/Base/Decimal.antt =====
-- The decimal digits of a 64-bit number, as Rust prints it.
use Prim.Native.Nat.{ℕ, zero, suc, ◌+◌, ◌-◌, ◌*◌, ◌/◌, ◌%◌, ◌^◌, ◌≤◌, ◌<◌}
use mathlib.Core.Path.{◌≡◌, refl, ap, ◌∙◌}
use mathlib.Core.Logic.{inl, inr}
use mathlib.Core.Bool.{true}
use mathlib.Core.List.{[], ◌∷◌}
use mathlib.Core.Option.{some}
use native.Mathlib.Omega.{arith}
use native.Mathlib.Numerals.{unary_clauses}
use cachee_cli.Base.Tests.{if◌then◌else◌, ltb, Bool-cases, ltb→lt, lt→ltb}
use cachee_cli.Base.ByteStrings.{Str, All}
use cachee_cli.Base.Lists.{length}
use cachee_cli.Base.Utf8.{between}
use cachee_cli.Base.Fields.{digits_from}

-- The digits in front of `tail`.
unfoldable pub digits_onto : ℕ → ℕ → Str → Str
digits_onto zero n tail = tail
digits_onto (suc fuel) n tail =
    let shown = (48 + n % 10) ∷ tail in
    let longer = digits_onto fuel (n / 10) shown in if ltb n 10 then shown else longer

-- A number below 2^64 has at most 20 digits.
unfoldable pub decimal : ℕ → Str
unfolding digits_onto
decimal n = digits_onto 20 n []

abbrev pub Digit : ℕ → Type 0
Digit c = (48 ≤ c) × (c < 58)

digits_onto-Digit : (fuel n : ℕ) (tail : Str) → All Digit tail → All Digit (digits_onto fuel n tail)
unfolding digits_onto
digits_onto-Digit zero n tail d = d
digits_onto-Digit (suc fuel) n tail d =
    let shown : All Digit ((48 + n % 10) ∷ tail) = ((omega arith, omega arith), d) in
    elim (Bool-cases (ltb n 10)) [
      | inl small ↦ rw (digits_onto, small) shown
      | inr large ↦ rw (digits_onto, large) (digits_onto-Digit fuel (n / 10) _ shown)
    ]

pub decimal-Digit : (n : ℕ) → All Digit (decimal n)
unfolding decimal
decimal-Digit n = digits_onto-Digit 20 n [] tt

read_digit :
    (m n : ℕ) (tail : Str)
    → digits_from m ((48 + n % 10) ∷ tail) ≡ digits_from (m * 10 + n % 10) tail
unfolding digits_from between
read_digit m n tail =
    let digit : between 48 57 (48 + n % 10) ≡ true = ground arith in
    let value : 48 + n % 10 - 48 ≡ n % 10 = omega arith in rw (digits_from, digit, value) refl

tenth : (k n : ℕ) → n < 10 ^ suc k → n / 10 < 10 ^ k
tenth k n h = let bound : n < 10 ^ k * 10 = simp unary_clauses at h in omega (arith, bound)

last_digit :
    (fuel n : ℕ) (tail : Str)
    → ltb n 10 ≡ true
    → digits_from 0 (digits_onto (suc fuel) n tail) ≡ digits_from n tail
unfolding digits_onto
last_digit fuel n tail small =
    let same : 0 * 10 + n % 10 ≡ n = omega (arith, ltb→lt n 10 small) in
    rw (digits_onto, small) (read_digit 0 n tail ∙ ap (λ k. digits_from k tail) same)

digits_from-digits_onto :
    (fuel n : ℕ) (tail : Str)
    → n < 10 ^ suc fuel
    → digits_from 0 (digits_onto (suc fuel) n tail) ≡ digits_from n tail
unfolding digits_onto
digits_from-digits_onto zero n tail h = last_digit 0 n tail (lt→ltb n 10 h)
digits_from-digits_onto (suc fuel) n tail h = elim (Bool-cases (ltb n 10)) [
  | inl small ↦ last_digit (suc fuel) n tail small
  | inr large ↦
      let whole : n / 10 * 10 + n % 10 ≡ n = omega arith in
      rw (digits_onto, large)
        (digits_from-digits_onto fuel (n / 10) ((48 + n % 10) ∷ tail) (tenth (suc fuel) n h)
          ∙ read_digit (n / 10) n tail
          ∙ ap (λ k. digits_from k tail) whole)
]

pub digits_from-decimal : (n : ℕ) → n < 2 ^ 64 → digits_from 0 (decimal n) ≡ some n
unfolding decimal digits_from
digits_from-decimal n h = digits_from-digits_onto 19 n [] (omega (arith, h))

-- A text with a character at its front that is a digit.
abbrev pub Led : Str → Type 0
Led s = (c : ℕ) × (rest : Str) × (s ≡ c ∷ rest) × All Digit (c ∷ rest)

digits_onto-Led :
    (fuel n x : ℕ) (tail : Str) → All Digit (x ∷ tail) → Led (digits_onto fuel n (x ∷ tail))
unfolding digits_onto
digits_onto-Led zero n x tail d = (x, tail, refl, d)
digits_onto-Led (suc fuel) n x tail d =
    let shown : All Digit ((48 + n % 10) ∷ x ∷ tail) = ((omega arith, omega arith), d) in
    elim (Bool-cases (ltb n 10)) [
      | inl small ↦ rw (digits_onto, small) (48 + n % 10, x ∷ tail, refl, shown)
      | inr large ↦ rw (digits_onto, large) (digits_onto-Led fuel (n / 10) _ _ shown)
    ]

pub decimal-Led : (n : ℕ) → Led (decimal n)
unfolding decimal digits_onto
decimal-Led n =
    let shown : All Digit ((48 + n % 10) ∷ []) = ((omega arith, omega arith), tt) in
    elim (Bool-cases (ltb n 10)) [
      | inl small ↦ rw (decimal, digits_onto, small) (48 + n % 10, [], refl, shown)
      | inr large ↦ rw (decimal, digits_onto, large) (digits_onto-Led 19 (n / 10) _ _ shown)
    ]

length-digits_onto :
    (fuel n : ℕ) (tail : Str) → length (digits_onto fuel n tail) ≤ fuel + length tail
unfolding digits_onto
length-digits_onto zero n tail = omega arith
length-digits_onto (suc fuel) n tail =
    let later = length-digits_onto fuel (n / 10) ((48 + n % 10) ∷ tail) in
    elim (Bool-cases (ltb n 10)) [
      | inl small ↦ rw (digits_onto, small) (omega arith)
      | inr large ↦ rw (digits_onto, large) (omega (arith, later))
    ]

pub length-decimal : (n : ℕ) → length (decimal n) ≤ 20
unfolding decimal
length-decimal n = length-digits_onto 20 n []
