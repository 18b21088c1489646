-- ===== src/Daemon/Flusher.antt =====
-- The usage flusher of src/daemon.rs: what it reports to the server of one key's counter, while the
-- connections of the key go on to change it. Each atomic operation is a step.
use cachee_cli.Base.{
  ℕ, ◌+◌, ◌-◌, ◌%◌, ◌^◌, Str, Bool, true, false, Option, none, some, List, [], ◌∷◌, ◌++◌, ◌≡◌, refl,
  arith, if◌then◌else◌, ◌==◌, wrap64, ascii, contains_text, inl, inr, Option-cases, Bool-cases,
}
use mathlib.Core.Path.{subst}
use cachee_cli.Security.{quoted_field, or_text}

-- The key that the flusher gives, of the text of credentials.toml if it can be read.
unfoldable pub flush_key : Option Str → Str
flush_key none = []
flush_key (some content) = or_text [] (quoted_field content (ascii "api_key"))

-- Where it posts, by the variable AUTH1_PROXY_BASE.
unfoldable pub usage_url : Option Str → Str
usage_url variable =
    let auth1_base = or_text (ascii "https://cachee.ai/api/cachee-usage") variable in
    if contains_text auth1_base (ascii "cachee.ai")
    then auth1_base
    else auth1_base ++ ascii "/api/cachee/cli/usage"

-- The counter, the operations in a request that is under way, those of the requests that ended in
-- success, those of the requests that the server accepted and that did not end so, those that the
-- server has accepted in all, and how often the connections added and took back.
pub record Ledger : Type 0 where
  pub counter : ℕ
  pub in_flight : Option ℕ
  pub confirmed_ops : ℕ
  pub unconfirmed_ops : ℕ
  pub accepted : ℕ
  pub added : ℕ
  pub taken_back : ℕ

-- How a request ends: with a success; without one, though the server accepted it (the answer is late
-- or lost, or an error of the server after the acceptance); or without the server accepting it.
pub data Sent : Type 0 where
  confirmed timed_out not_accepted : Sent

-- `resp.status().is_success()` of an answer.
unfoldable pub is_success : Sent → Bool
is_success confirmed = true
is_success timed_out = false
is_success not_accepted = false

-- `fetch_add(1)` and `fetch_sub(1)` of a connection; `swap(0)` of the flusher, and the end of its
-- request.
pub data Step : Type 0 where
  connection_adds connection_takes_back flusher_swaps : Step
  flusher_sent : Sent → Step

unfoldable pub swapped : Ledger → Ledger
swapped m = if m.counter == 0 then m else record m { counter = 0; in_flight = some m.counter }

-- What the server notes of the request, which the flusher cannot see.
unfoldable pub received : Sent → ℕ → Ledger → Ledger
received confirmed ops m = record m {
  confirmed_ops = m.confirmed_ops + ops;
  accepted = m.accepted + ops;
}
received timed_out ops m = record m {
  unconfirmed_ops = m.unconfirmed_ops + ops;
  accepted = m.accepted + ops;
}
received not_accepted ops m = m

-- What was in the request is done with after a success, and else added back.
unfoldable pub finished : Sent → ℕ → Ledger → Ledger
unfolding is_success received
finished sent ops m =
    let noted = received sent ops m in
    if is_success sent
    then record noted { in_flight = none }
    else record noted { in_flight = none; counter = wrap64 (m.counter + ops) }

-- `none` is a step that the flusher, one thread, cannot take.
unfoldable pub take_step : Step → Ledger → Option Ledger
unfolding swapped finished
take_step connection_adds m =
    some (record m { counter = wrap64 (m.counter + 1); added = m.added + 1 })
take_step connection_takes_back m =
    some (record m { counter = wrap64 (m.counter + (2 ^ 64 - 1)); taken_back = m.taken_back + 1 })
take_step flusher_swaps m = elim m.in_flight [ none ↦ some (swapped m) | some ops ↦ none ]
take_step (flusher_sent sent) m = elim m.in_flight [
  | none ↦ none
  | some ops ↦ some (finished sent ops m)
]

unfoldable pub run_steps : List Step → Ledger → Option Ledger
unfolding take_step
run_steps [] m = some m
run_steps (e ∷ es) m = elim (take_step e m) [ none ↦ none | some next ↦ run_steps es next ]

abbrev pub ops_in : Option ℕ → ℕ
ops_in none = 0
ops_in (some ops) = ops

-- Nothing is lost, up to 2^64.
abbrev pub Balanced : Ledger → Type 0
Balanced m =
    (m.counter + ops_in m.in_flight + m.confirmed_ops + m.taken_back) % 2 ^ 64 ≡ m.added % 2 ^ 64

-- What the server has accepted exceeds what was confirmed by what was accepted and added back.
abbrev pub Surplus : Ledger → Type 0
Surplus m = m.accepted ≡ m.confirmed_ops + m.unconfirmed_ops

abbrev pub Accounted : Ledger → Type 0
Accounted m = Balanced m × Surplus m

swapped-Accounted : (m : Ledger) → m.in_flight ≡ none → Accounted m → Accounted (swapped m)
unfolding swapped
swapped-Accounted m idle (b, extra) =
    let still : (m.counter + 0 + m.confirmed_ops + m.taken_back) % 2 ^ 64 ≡ m.added % 2 ^ 64 =
      subst
        (λ f. (m.counter + ops_in f + m.confirmed_ops + m.taken_back) % 2 ^ 64 ≡ m.added % 2 ^ 64)
        idle b in
    elim (Bool-cases (m.counter == 0)) [
      | inl empty ↦ rw (swapped, empty) (b, extra)
      | inr full ↦ rw (swapped, full) (omega (arith, still), extra)
    ]

in_request :
    (ops : ℕ) (m : Ledger)
    → m.in_flight ≡ some ops
    → Balanced m
    → (m.counter + ops + m.confirmed_ops + m.taken_back) % 2 ^ 64 ≡ m.added % 2 ^ 64
in_request ops m busy b =
    subst (λ f. (m.counter + ops_in f + m.confirmed_ops + m.taken_back) % 2 ^ 64 ≡ m.added % 2 ^ 64)
      busy b

finished-Accounted :
    (sent : Sent) (ops : ℕ) (m : Ledger)
    → m.in_flight ≡ some ops
    → Accounted m
    → Accounted (finished sent ops m)
unfolding finished received is_success
finished-Accounted confirmed ops m busy (b, extra) =
    let sum = in_request ops m busy b in (omega (arith, sum), omega (arith, extra))
finished-Accounted timed_out ops m busy (b, extra) =
    let sum = in_request ops m busy b in (omega (arith, sum), omega (arith, extra))
finished-Accounted not_accepted ops m busy (b, extra) =
    let sum = in_request ops m busy b in (omega (arith, sum), extra)

step-Accounted :
    (e : Step) (m next : Ledger) → take_step e m ≡ some next → Accounted m → Accounted next
unfolding take_step
step-Accounted connection_adds m next h (b, extra) =
    let after : Ledger = record m { counter = wrap64 (m.counter + 1); added = m.added + 1 } in
    let same : after ≡ next = cc h in
    let balanced : Accounted after = (omega (arith, b), extra) in subst Accounted same balanced
step-Accounted connection_takes_back m next h (b, extra) =
    let after : Ledger = record m {
      counter = wrap64 (m.counter + (2 ^ 64 - 1));
      taken_back = m.taken_back + 1;
    } in
    let same : after ≡ next = cc h in
    let balanced : Accounted after = (omega (arith, b), extra) in subst Accounted same balanced
step-Accounted flusher_swaps m next h b = elim (Option-cases m.in_flight) [
  | inr (ops, busy) ↦ absurd (cc (rw (take_step, busy) at h))
  | inl idle ↦
      let same : swapped m ≡ next = cc (rw (take_step, idle) at h) in
      subst Accounted same (swapped-Accounted m idle b)
]
step-Accounted (flusher_sent sent) m next h b = elim (Option-cases m.in_flight) [
  | inl idle ↦ absurd (cc (rw (take_step, idle) at h))
  | inr (ops, busy) ↦
      let same : finished sent ops m ≡ next = cc (rw (take_step, busy) at h) in
      subst Accounted same (finished-Accounted sent ops m busy b)
]

run_steps-Accounted :
    (es : List Step) (m last : Ledger) → Accounted m → run_steps es m ≡ some last → Accounted last
unfolding run_steps
run_steps-Accounted [] m last b h = let same : m ≡ last = cc h in subst Accounted same b
run_steps-Accounted (e ∷ es) m last b h = elim (Option-cases (take_step e m)) [
  | inl stuck ↦ absurd (cc (rw (run_steps, stuck) at h))
  | inr (next, went) ↦
      run_steps-Accounted es next last (step-Accounted e m next went b) (rw (run_steps, went) at h)
]

abbrev pub empty_ledger : Ledger
empty_ledger = record {
  counter = 0;
  in_flight = none;
  confirmed_ops = 0;
  unconfirmed_ops = 0;
  accepted = 0;
  added = 0;
  taken_back = 0;
}

-- In every interleaving of the connections' atomic operations with the flusher's, the counter, the
-- request under way, what the requests that ended in success reported and what was taken back add up
-- to what was added, up to 2^64, so that no operation is lost. The server has accepted what those
-- requests reported and, beyond it, what was in the requests that it accepted without the flusher
-- seeing a success: these operations are added back to the counter too.
pub usage_is_conserved :
    (es : List Step) (last : Ledger) → run_steps es empty_ledger ≡ some last → Accounted last
usage_is_conserved es last h = run_steps-Accounted es empty_ledger last (refl, refl) h
