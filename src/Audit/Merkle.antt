-- ===== src/Audit/Merkle.antt =====
-- The Merkle anchors of the audit log.
use cachee_cli.Base.{ℕ, zero, suc, ◌+◌, ◌-◌, ◌≤◌, ◌^◌, Bytes, some, List, [], ◌∷◌, ◌++◌}
use cachee_cli.Base.{◌≡◌, refl, sym, ap, ◌∙◌, arith, length, length-append}
use native.Mathlib.Nat.{pow-suc}
use cachee_cli.Archive.Types.{zero_hash}
use cachee_cli.Audit.{Env, next_level, climb, merkle_root}

module _ (env : Env) where
  open env use {sha3_256}

  length-next_level :
      (xs : List Bytes)
      → (length (next_level env xs) + length (next_level env xs) ≤ length xs + 1)
        × (length xs ≤ length (next_level env xs) + length (next_level env xs))
  unfolding next_level
  length-next_level [] = omega arith
  length-next_level (a ∷ []) = omega arith
  length-next_level (a ∷ b ∷ rest) = omega (arith, length-next_level rest)

  climb-enough :
      (fuel : ℕ) (a : Bytes) (xs : List Bytes)
      → length xs ≤ fuel
      → (root : Bytes) × (climb env fuel (a ∷ xs) ≡ some root)
  unfolding climb next_level
  climb-enough fuel a [] h = (a, refl)
  climb-enough zero a (b ∷ xs) h = absurd (omega arith)
  climb-enough (suc fuel) a (b ∷ xs) h =
      climb-enough fuel (sha3_256 (a ++ b)) (next_level env xs)
        (omega (arith, length-next_level xs))

  -- The loop ends: the fuel that `merkle_root` gives it is enough for every list of leaves.
  pub merkle_root-total :
      (leaves : List Bytes) → (root : Bytes) × (merkle_root env leaves ≡ some root)
  unfolding merkle_root
  merkle_root-total [] = (zero_hash, refl)
  merkle_root-total (a ∷ rest) = climb-enough (length rest) a rest (omega arith)

  climb_mono :
      (fuel more : ℕ) (xs : List Bytes) (root : Bytes)
      → climb env fuel xs ≡ some root
      → fuel ≤ more
      → climb env more xs ≡ some root
  unfolding climb
  climb_mono fuel more [] root h le = absurd (cc h)
  climb_mono fuel more (a ∷ []) root h le = h
  climb_mono zero more (a ∷ b ∷ rest) root h le = absurd (cc h)
  climb_mono (suc fuel) zero (a ∷ b ∷ rest) root h le = absurd (omega arith)
  climb_mono (suc fuel) (suc more) (a ∷ b ∷ rest) root h le =
      climb_mono fuel more (next_level env (a ∷ b ∷ rest)) root h (omega arith)

  -- Perfect binary trees of a height.
  abbrev pub Tree : ℕ → Type 0
  Tree zero = Bytes
  Tree (suc n) = Tree n × Tree n

  abbrev pub leaves_of : (n : ℕ) → Tree n → List Bytes
  leaves_of zero a = a ∷ []
  leaves_of (suc n) t = leaves_of n t.0 ++ leaves_of n t.1

  abbrev pub root_of : (n : ℕ) → Tree n → Bytes
  root_of zero a = a
  root_of (suc n) t = sha3_256 (root_of n t.0 ++ root_of n t.1)

  abbrev collapse : (n : ℕ) → Tree (suc n) → Tree n
  collapse zero t = sha3_256 (t.0 ++ t.1)
  collapse (suc n) t = (collapse n t.0, collapse n t.1)

  root_of-collapse : (n : ℕ) (t : Tree (suc n)) → root_of n (collapse n t) ≡ root_of (suc n) t
  root_of-collapse zero t = refl
  root_of-collapse (suc n) t = λ i. sha3_256 (root_of-collapse n t.0 i ++ root_of-collapse n t.1 i)

  next_level-append :
      (k : ℕ) (xs ys : List Bytes)
      → length xs ≡ k + k
      → next_level env (xs ++ ys) ≡ next_level env xs ++ next_level env ys
  unfolding next_level
  next_level-append k [] ys h = refl
  next_level-append k (x ∷ []) ys h = absurd (omega arith)
  next_level-append k (x ∷ y ∷ xs) ys h =
      ap (λ l. sha3_256 (x ++ y) ∷ l) (next_level-append (k - 1) xs ys (omega arith))

  length-leaves_of-suc :
      (n : ℕ) (t : Tree (suc n))
      → length (leaves_of (suc n) t) ≡ length (leaves_of n t.0) + length (leaves_of n t.1)
  length-leaves_of-suc n t = length-append (leaves_of n t.0) (leaves_of n t.1)

  length-leaves_of : (n : ℕ) (t : Tree n) → length (leaves_of n t) ≡ 2 ^ n
  length-leaves_of zero t = refl
  length-leaves_of (suc n) t =
      omega (
        arith,
        length-leaves_of-suc n t,
        length-leaves_of n t.0,
        length-leaves_of n t.1,
        pow-suc 2 n,
      )

  leaves_of-collapse :
      (n : ℕ) (t : Tree (suc n)) → next_level env (leaves_of (suc n) t) ≡ leaves_of n (collapse n t)
  unfolding next_level
  leaves_of-collapse zero t = refl
  leaves_of-collapse (suc n) t =
      next_level-append (2 ^ n) (leaves_of (suc n) t.0) (leaves_of (suc n) t.1)
        (omega (arith, length-leaves_of (suc n) t.0, pow-suc 2 n))
      ∙ (λ i. leaves_of-collapse n t.0 i ++ leaves_of-collapse n t.1 i)

  climb-suc :
      (n : ℕ) (xs : List Bytes)
      → 2 ≤ length xs
      → climb env (suc n) xs ≡ climb env n (next_level env xs)
  unfolding climb
  climb-suc n [] h = absurd (omega arith)
  climb-suc n (a ∷ []) h = absurd (omega arith)
  climb-suc n (a ∷ b ∷ xs) h = refl

  suc-pow : (n : ℕ) → n + 1 ≤ 2 ^ n
  suc-pow zero = omega arith
  suc-pow (suc n) = omega (arith, suc-pow n, pow-suc 2 n)

  merkle_root-climb :
      (n : ℕ) (xs : List Bytes) (root : Bytes)
      → climb env n xs ≡ some root
      → n + 1 ≤ length xs
      → merkle_root env xs ≡ some root
  unfolding merkle_root
  merkle_root-climb n [] root h le = absurd (omega arith)
  merkle_root-climb n (a ∷ xs) root h le = climb_mono n (length xs) (a ∷ xs) root h (omega arith)

  climb-Tree : (n : ℕ) (t : Tree n) → climb env n (leaves_of n t) ≡ some (root_of n t)
  unfolding climb
  climb-Tree zero t = refl
  climb-Tree (suc n) t =
      climb-suc n (leaves_of (suc n) t)
        (omega (arith, length-leaves_of (suc n) t, suc-pow n, pow-suc 2 n))
      ∙ ap (climb env n) (leaves_of-collapse n t)
      ∙ climb-Tree n (collapse n t)
      ∙ ap some (root_of-collapse n t)

  -- On the leaves of a perfect binary tree, the loop computes the root hash of the tree.
  pub merkle_root-Tree : (n : ℕ) (t : Tree n) → merkle_root env (leaves_of n t) ≡ some (root_of n t)
  merkle_root-Tree n t =
      merkle_root-climb n (leaves_of n t) (root_of n t) (climb-Tree n t)
        (omega (arith, length-leaves_of n t, suc-pow n))

  climb-merkle_root :
      (n : ℕ) (xs : List Bytes)
      → 1 ≤ length xs
      → length xs ≤ n + 1
      → climb env n xs ≡ merkle_root env xs
  unfolding merkle_root
  climb-merkle_root n [] low high = absurd (omega arith)
  climb-merkle_root n (a ∷ xs) low high =
      let found = climb-enough (length xs) a xs (omega arith) in
      climb_mono (length xs) n (a ∷ xs) found.0 found.1 (omega arith) ∙ sym found.1

  -- Two lists that one level makes equal have one root.
  merkle_root-level :
      (xs ys : List Bytes)
      → 2 ≤ length xs
      → 2 ≤ length ys
      → next_level env xs ≡ next_level env ys
      → merkle_root env xs ≡ merkle_root env ys
  merkle_root-level xs ys hx hy h =
      let n = length xs + length ys in
      sym (climb-merkle_root (suc n) xs (omega arith) (omega arith))
      ∙ climb-suc n xs hx
      ∙ ap (climb env n) h
      ∙ sym (climb-suc n ys hy)
      ∙ climb-merkle_root (suc n) ys (omega arith) (omega arith)

  -- The root does not tell an odd list of three leaves or more from the list that has its last leaf
  -- once more.
  pub merkle_root-duplicate :
      (k : ℕ) (xs : List Bytes) (a : Bytes)
      → length xs ≡ (k + 1) + (k + 1)
      → merkle_root env (xs ++ a ∷ []) ≡ merkle_root env (xs ++ a ∷ a ∷ [])
  unfolding next_level
  merkle_root-duplicate k xs a h =
      merkle_root-level (xs ++ a ∷ []) (xs ++ a ∷ a ∷ []) (omega (arith, length-append xs (a ∷ [])))
        (omega (arith, length-append xs (a ∷ a ∷ [])))
        (next_level-append (k + 1) xs (a ∷ []) h
          ∙ sym (next_level-append (k + 1) xs (a ∷ a ∷ []) h))
