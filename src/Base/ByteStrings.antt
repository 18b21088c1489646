-- ===== src/Base/ByteStrings.antt =====
-- Byte strings (`Vec<u8>`, `[u8; N]`, `&[u8]`) as lists of numbers below 256, their equality, and the
-- big-endian encoding of `to_be_bytes` and `from_be_bytes`.
use Prim.Native.Nat.{ℕ, zero, suc, ◌+◌, ◌*◌, ◌/◌, ◌%◌, ◌^◌, ◌<◌}
use mathlib.Core.Path.{◌≡◌, refl, sym, ap, ◌∙◌}
use mathlib.Core.Logic.{◌↔◌}
use mathlib.Core.Bool.{Bool, true, false, ◌&&◌}
use mathlib.Core.List.{List, [], ◌∷◌, ◌++◌}
use native.Mathlib.Omega.{arith}
use native.Mathlib.Nat.{pow-suc}
use cachee_cli.Base.Tests.{◌==◌}
use cachee_cli.Base.Lists.{length, length-append}

abbrev pub Bytes : Type 0
Bytes = List ℕ

-- A Rust `String` is the byte string of its UTF-8 encoding.
abbrev pub Str : Type 0
Str = List ℕ

abbrev pub All {ℓ κ} : {A : Type ℓ} → (A → Type κ) → List A → Type κ
All P [] = Unit
All P (x ∷ xs) = P x × All P xs

pub All-append {ℓ κ} :
    {A : Type ℓ} (P : A → Type κ) (xs ys : List A) → All P xs → All P ys → All P (xs ++ ys)
All-append P [] ys h k = k
All-append P (x ∷ xs) ys h k = (h.0, All-append P xs ys h.1 k)

abbrev pub IsByte : ℕ → Type 0
IsByte b = b < 256

unfoldable pub bytes_eq : Bytes → Bytes → Bool
bytes_eq [] [] = true
bytes_eq (x ∷ xs) (y ∷ ys) = (x == y) && bytes_eq xs ys
bytes_eq _ _ = false

pub bytes_eq→eq : (xs ys : Bytes) → bytes_eq xs ys ≡ true → xs ≡ ys
unfolding bytes_eq
bytes_eq→eq [] [] h = refl
bytes_eq→eq [] (y ∷ ys) h = cc
bytes_eq→eq (x ∷ xs) [] h = cc
bytes_eq→eq (x ∷ xs) (y ∷ ys) h = ground (arith, bytes_eq→eq xs ys)

pub bytes_eq-nil_cons : (y : ℕ) (ys : Bytes) → bytes_eq [] (y ∷ ys) ≡ false
unfolding bytes_eq
bytes_eq-nil_cons y ys = refl

pub bytes_eq-cons :
    (x y : ℕ) (xs ys : Bytes) → bytes_eq (x ∷ xs) (y ∷ ys) ≡ ((x == y) && bytes_eq xs ys)
unfolding bytes_eq
bytes_eq-cons x y xs ys = refl

pub bytes_eq_refl : (xs : Bytes) → bytes_eq xs xs ≡ true
unfolding bytes_eq
bytes_eq_refl [] = refl
bytes_eq_refl (x ∷ xs) = ground (arith, bytes_eq_refl xs)

pub bytes_eq_iff : (xs ys : Bytes) → (bytes_eq xs ys ≡ true) ↔ (xs ≡ ys)
bytes_eq_iff xs ys = (bytes_eq→eq xs ys, λ e. ap (bytes_eq xs) (sym e) ∙ bytes_eq_refl xs)

-- The `k` bytes of `n`, the most significant first; higher digits are lost.
pub to_be : ℕ → ℕ → Bytes
to_be zero n = []
to_be (suc k) n = to_be k (n / 256) ++ (n % 256) ∷ []

pub to_be-suc : (k n : ℕ) → to_be (suc k) n ≡ to_be k (n / 256) ++ (n % 256) ∷ []
unfolding to_be
to_be-suc k n = refl

pub be_digits : ℕ → Bytes → ℕ
be_digits acc [] = acc
be_digits acc (b ∷ bs) = be_digits (acc * 256 + b) bs

abbrev pub from_be : Bytes → ℕ
from_be = be_digits 0

pub length-to_be : (k n : ℕ) → length (to_be k n) ≡ k
unfolding to_be
length-to_be zero n = refl
length-to_be (suc k) n =
    length-append (to_be k (n / 256)) ((n % 256) ∷ [])
    ∙ (let e : length (to_be k (n / 256)) + 1 ≡ suc k = omega (arith, length-to_be k (n / 256)) in
        e)

be_digits-append :
    (acc : ℕ) (xs : Bytes) (b : ℕ) → be_digits acc (xs ++ b ∷ []) ≡ be_digits acc xs * 256 + b
unfolding be_digits
be_digits-append acc [] b = refl
be_digits-append acc (x ∷ xs) b = be_digits-append (acc * 256 + x) xs b

-- Reading back what was written, for a number that fits.
pub from_be-to_be : (k n : ℕ) → n < 256 ^ k → from_be (to_be k n) ≡ n
unfolding to_be be_digits
from_be-to_be zero n h = omega arith
from_be-to_be (suc k) n h =
    be_digits-append 0 (to_be k (n / 256)) (n % 256)
    ∙ (let scaled : n < 256 ^ k * 256 = simp pow-suc at h in
        let fits : n / 256 < 256 ^ k = omega arith in
        let ih : from_be (to_be k (n / 256)) ≡ n / 256 = from_be-to_be k (n / 256) fits in
        omega arith)

pub to_be-IsByte : (k n : ℕ) → All IsByte (to_be k n)
unfolding to_be
to_be-IsByte zero n = tt
to_be-IsByte (suc k) n =
    All-append IsByte (to_be k (n / 256)) ((n % 256) ∷ []) (to_be-IsByte k (n / 256)) (omega arith)
