-- ===== src/Trust/Policy.antt =====
-- What a mode change under the policy can do.
use cachee_cli.Base.{◌≤◌, Str, Bool, true, false, Option, none, some, List, [], ◌∷◌, ok, err}
use cachee_cli.Base.{◌≡◌, ◌↔◌, refl, arith, Result-cases, inl, inr}
use native.Mathlib.Nat.{le_trans}
use cachee_cli.Trust.{is_mode_change_allowed, mode_strictness}

abbrev pub AtLeastMinimum : Str → Option Str → Type 0
AtLeastMinimum proposed none = Unit
AtLeastMinimum proposed (some min) = mode_strictness min ≤ mode_strictness proposed

-- A change is allowed exactly when it is no downgrade of a locked mode and is not below the minimum.
pub mode_change_iff :
    (current proposed : Str) (locked : Bool) (minimum : Option Str)
    → (is_mode_change_allowed current proposed locked minimum ≡ ok tt) ↔ (
        (locked ≡ true → mode_strictness current ≤ mode_strictness proposed)
        × AtLeastMinimum proposed minimum)
unfolding is_mode_change_allowed
mode_change_iff current proposed true none =
    (λ h. (λ _. ground arith, tt), λ h. ground (arith, h.0 refl))
mode_change_iff current proposed false none = (λ h. (λ e. cc, tt), λ h. refl)
mode_change_iff current proposed true (some m) =
    (λ h. (λ _. ground arith, ground arith), λ h. ground (arith, h.0 refl, h.1))
mode_change_iff current proposed false (some m) =
    (λ h. (λ e. cc, ground arith), λ h. ground (arith, h.1))

-- The mode of a caller that is asked for one change after another and follows the answers: a
-- refused change keeps the mode.
unfoldable pub apply_changes : Str → Option Str → List Str → Str
apply_changes mode minimum [] = mode
apply_changes mode minimum (p ∷ ps) = elim (is_mode_change_allowed mode p true minimum) [
  | ok _ ↦ apply_changes p minimum ps
  | err _ ↦ apply_changes mode minimum ps
]

-- While the mode is locked, no sequence of requested changes lowers its strictness.
pub locked_never_downgrades :
    (mode : Str) (minimum : Option Str) (requests : List Str)
    → mode_strictness mode ≤ mode_strictness (apply_changes mode minimum requests)
unfolding apply_changes
locked_never_downgrades mode minimum [] = omega arith
locked_never_downgrades mode minimum (p ∷ ps) =
    elim (Result-cases (is_mode_change_allowed mode p true minimum)) [
      | inl (u, e) ↦
          let up = ((mode_change_iff mode p true minimum).0 e).0 refl in
          rw (e, apply_changes) (le_trans up (locked_never_downgrades p minimum ps))
      | inr (x, e) ↦ rw (e, apply_changes) (locked_never_downgrades mode minimum ps)
    ]
