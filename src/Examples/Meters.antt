-- ===== src/Examples/Meters.antt =====
-- The theorems on quotas, at concrete limits.
use cachee_cli.Base.{◌+◌, ◌≤◌, some, [], ◌∷◌, ◌≡◌, refl, arith}
use cachee_cli.Daemon.Quota.{
  Meter, fetch_add, fetch_sub, run, step, charge, undo, fresh, quota_holds,
}

-- One operation went through under a limit of one, and the second was taken back.
abbrev spent : Meter
spent = record { counter = 1; admitted = 1; over = 0 }

spent-run : run 1 (fetch_add ∷ fetch_add ∷ fetch_sub ∷ []) fresh ≡ some spent
unfolding run step charge undo
spent-run = refl

quota_holds_example : (spent.admitted ≤ 1) × (spent.counter ≡ spent.admitted + spent.over)
quota_holds_example =
    quota_holds 1 (fetch_add ∷ fetch_add ∷ fetch_sub ∷ []) spent (omega arith) (omega arith)
      (tt, (tt, (tt, tt))) spent-run
