-- ===== src/Daemon/Quota.antt =====
-- The ops quota of src/daemon.rs: one atomic counter for each key, shared by its connections, with
-- the background flush. A key with the limit 0 is unlimited and has no counter, so that a limit here
-- is positive. Each atomic operation is a step, so that a run is an interleaving of them.
use cachee_cli.Base.{
  ℕ, zero, suc, ◌+◌, ◌-◌, ◌^◌, ◌≤◌, ◌<◌, Option, none, some, List, [], ◌∷◌, ◌≡◌, refl, ap, arith,
  leb, le→leb, if◌then◌else◌, wrap64, wrap64-small, length, Bool-cases, Option-cases, inl, inr, All,
}
use mathlib.Core.Path.{subst}

-- The counter, and what the connections have seen of it: how many operations went through, and how
-- many are between the `fetch_add` that went over the limit and its `fetch_sub`.
pub record Meter : Type 0 where
  pub counter : ℕ
  pub admitted : ℕ
  pub over : ℕ

-- One atomic operation of a connection or of the flush.
pub data Event : Type 0 where
  fetch_add fetch_sub flush : Event

-- `fetch_add(1)`, and the test of the value before it.
unfoldable pub charge : ℕ → Meter → Meter
charge limit m =
    if leb limit m.counter
    then record m { counter = wrap64 (m.counter + 1); over = suc m.over }
    else record m { counter = wrap64 (m.counter + 1); admitted = m.admitted + 1 }

-- `fetch_sub(1)`, by a connection that went over; it wraps.
unfoldable pub undo : Meter → Option Meter
undo m = elim m.over [
  | zero ↦ none
  | suc over ↦ some (record m { counter = wrap64 (m.counter + (2 ^ 64 - 1)); over = over })
]

-- `swap(0)`, with a delivery that succeeds.
unfoldable pub flush_counter : Meter → Meter
flush_counter m = record m { counter = 0 }

unfoldable pub step : ℕ → Event → Meter → Option Meter
step limit fetch_add m = some (charge limit m)
step limit fetch_sub m = undo m
step limit flush m = some (flush_counter m)

-- An interleaving; `none` is a `fetch_sub` that no connection is about to do.
unfoldable pub run : ℕ → List Event → Meter → Option Meter
run limit [] m = some m
run limit (e ∷ es) m = elim (step limit e m) [ none ↦ none | some next ↦ run limit es next ]

abbrev pub fresh : Meter
fresh = record { counter = 0; admitted = 0; over = 0 }

abbrev pub NoFlush : Event → Type 0
NoFlush fetch_add = Unit
NoFlush fetch_sub = Unit
NoFlush flush = ⊥

-- The counter is exact, within the limit, and far enough from wrapping for the steps to come.
pub record Exact (limit steps : ℕ) (m : Meter) : Type 0 where
  pub exact : m.counter ≡ m.admitted + m.over
  pub within : m.admitted ≤ limit
  pub room : m.counter + steps < 2 ^ 64

charge-Exact :
    (limit steps : ℕ) (m : Meter) → Exact limit (suc steps) m → Exact limit steps (charge limit m)
unfolding charge
charge-Exact limit steps m x =
    let w = wrap64-small (m.counter + 1) (omega (arith, x.room)) in
    elim (Bool-cases (leb limit m.counter)) [
      | inl high ↦
          rw (high, w)
            (record {
              exact = omega (arith, x.exact);
              within = x.within;
              room = omega (arith, x.room);
            })
      | inr low ↦
          rw (low, w)
            (record {
              exact = omega (arith, x.exact);
              within = ground (arith, x.exact, x.within);
              room = omega (arith, x.room);
            })
    ]

wrap64-back : (c : ℕ) → 1 ≤ c → c < 2 ^ 64 → wrap64 (c + (2 ^ 64 - 1)) ≡ c - 1
wrap64-back c low high = omega arith

undo_one :
    (limit steps c a o : ℕ)
    → Exact limit (suc steps) (record { counter = c; admitted = a; over = suc o })
    → Exact limit steps (record { counter = wrap64 (c + (2 ^ 64 - 1)); admitted = a; over = o })
undo_one limit steps c a o x =
    let w = wrap64-back c (omega (arith, x.exact)) (omega (arith, x.room)) in
    rw w
      (record { exact = omega (arith, x.exact); within = x.within; room = omega (arith, x.room) })

undo_at :
    (limit steps c a o : ℕ) (next : Meter)
    → Exact limit (suc steps) (record { counter = c; admitted = a; over = o })
    → undo (record { counter = c; admitted = a; over = o }) ≡ some next
    → Exact limit steps next
unfolding undo
undo_at limit steps c a zero next x h = absurd (cc h)
undo_at limit steps c a (suc o) next x h =
    subst (Exact limit steps) (cc h) (undo_one limit steps c a o x)

undo-Exact :
    (limit steps : ℕ) (m next : Meter)
    → Exact limit (suc steps) m
    → undo m ≡ some next
    → Exact limit steps next
undo-Exact limit steps m next x h = undo_at limit steps m.counter m.admitted m.over next x h

run-Exact :
    (limit : ℕ) (es : List Event) (m last : Meter)
    → Exact limit (length es) m
    → All NoFlush es
    → run limit es m ≡ some last
    → Exact limit 0 last
unfolding run step
run-Exact limit [] m last x q h = subst (Exact limit 0) (cc h) x
run-Exact limit (fetch_add ∷ es) m last x q h =
    run-Exact limit es (charge limit m) last (charge-Exact limit (length es) m x) q.1 h
run-Exact limit (flush ∷ es) m last x q h = absurd q.0
run-Exact limit (fetch_sub ∷ es) m last x q h = elim (Option-cases (undo m)) [
  | inl stuck ↦ absurd (cc (rw (stuck, run) at h))
  | inr (next, went) ↦
      run-Exact limit es next last (undo-Exact limit (length es) m next x went) q.1
        (rw (went, run) at h)
]

-- In every interleaving of the connections' atomic operations without a flush, shorter than 2^64,
-- the operations that go through are never more than a positive limit, and the counter is their
-- number plus that of the connections that are about to take back theirs.
pub quota_holds :
    (limit : ℕ) (es : List Event) (last : Meter)
    → 0 < limit
    → length es < 2 ^ 64
    → All NoFlush es
    → run limit es fresh ≡ some last
    → (last.admitted ≤ limit) × (last.counter ≡ last.admitted + last.over)
quota_holds limit es last positive short quiet h =
    let x =
      run-Exact limit es fresh last
        (record { exact = refl; within = omega arith; room = omega (arith, short) }) quiet h in
    (x.within, x.exact)

charge_over :
    (limit : ℕ) (m : Meter)
    → limit ≤ m.counter
    → charge limit m ≡ record m { counter = wrap64 (m.counter + 1); over = suc m.over }
unfolding charge
charge_over limit m over = rw (le→leb limit m.counter over) refl

-- A flush between the `fetch_add` of a connection that goes over a positive 64-bit limit and its
-- `fetch_sub` leaves the counter at 2^64 - 1, and then the next operation is refused.
pub flush_underflows :
    (limit : ℕ) (m : Meter)
    → 0 < limit
    → limit ≤ m.counter
    → limit < 2 ^ 64
    → (last : Meter) × (run limit (fetch_add ∷ flush ∷ fetch_sub ∷ []) m ≡ some last)
      × (last.counter ≡ 2 ^ 64 - 1)
      × ((charge limit last).admitted ≡ m.admitted)
unfolding run step flush_counter undo
flush_underflows limit m positive over fits =
    let last : Meter = record m { counter = 2 ^ 64 - 1 } in
    (
      last,
      ap (λ c. run limit (flush ∷ fetch_sub ∷ []) c) (charge_over limit m over),
      refl,
      ap (λ c. c.admitted) (charge_over limit last (omega arith)),
    )
