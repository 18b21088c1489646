-- ===== src/Audit/Nonces.antt =====
-- The replay defence of the audit log: which nonces `check_nonce` accepts.
use cachee_cli.Base.{
  suc, ◌+◌, ◌≤◌, ◌<◌, Bytes, Bool, true, false, List, [], ◌∷◌, ltb, lt→ltb, le→ltb,
}
use cachee_cli.Base.{
  ◌≡◌, refl, ap, ◌∙◌, arith, length, bytes_eq, bytes_eq_refl, bytes_eq→eq, ◌||◌, Bool-cases, not,
  inl, inr,
}
use cachee_cli.Audit.{Env, AuditLog, seen, check_nonce, nonce_cap}

seen-cons : (ns : List Bytes) (n old : Bytes) → seen ns old ≡ true → seen (n ∷ ns) old ≡ true
unfolding seen
seen-cons ns n old h = ground (arith, h)

seen-one : (n old : Bytes) → bytes_eq n old ≡ false → seen (n ∷ []) old ≡ false
unfolding seen
seen-one n old h = rw h refl

seen-distinct :
    (ns : List Bytes) (old new : Bytes)
    → seen ns old ≡ true
    → seen ns new ≡ false
    → bytes_eq new old ≡ false
seen-distinct ns old new h g = elim (Bool-cases (bytes_eq new old)) [
  | inr differ ↦ differ
  | inl same ↦ absurd (cc (ap (seen ns) (bytes_eq→eq new old same), h, g))
]

module _ (env : Env) where
  -- The nonces of a run of calls, each checked in turn, and the answers.
  abbrev pub check_all : AuditLog env → List Bytes → AuditLog env × List Bool
  check_all log [] = (log, [])
  check_all log (n ∷ ns) =
      let r = check_nonce env log n in let rest = check_all r.0 ns in (rest.0, r.1 ∷ rest.1)

  -- A nonce is accepted exactly when it is not in the set, and is in the set from then on.
  pub check_nonce_lem :
      (log : AuditLog env) (nonce : Bytes)
      → ((check_nonce env log nonce).1 ≡ not (seen log.seen_nonces nonce))
        × (seen (check_nonce env log nonce).0.seen_nonces nonce ≡ true)
  unfolding check_nonce seen
  check_nonce_lem log nonce = elim (Bool-cases (seen log.seen_nonces nonce)) [
    | inl h ↦ rw (h, check_nonce) (refl, h)
    | inr h ↦ elim (Bool-cases (ltb nonce_cap (length (nonce ∷ log.seen_nonces)))) [
      | inl full ↦ rw (h, full, check_nonce) (refl, ap (λ b. b || false) (bytes_eq_refl nonce))
      | inr room ↦
          rw (h, room, check_nonce)
            (refl, ap (λ b. b || seen log.seen_nonces nonce) (bytes_eq_refl nonce))
    ]
  ]

  -- Until the set is full, every nonce of it stays in it.
  check_nonce-keeps :
      (log : AuditLog env) (nonce old : Bytes)
      → length log.seen_nonces < nonce_cap
      → seen log.seen_nonces old ≡ true
      → seen (check_nonce env log nonce).0.seen_nonces old ≡ true
  unfolding check_nonce
  check_nonce-keeps log nonce old room h = elim (Bool-cases (seen log.seen_nonces nonce)) [
    | inl found ↦ rw (found, check_nonce) h
    | inr fresh ↦
        rw (fresh, check_nonce, le→ltb nonce_cap (suc (length log.seen_nonces)) room)
          (seen-cons log.seen_nonces nonce old h)
  ]

  length-check_nonce :
      (log : AuditLog env) (nonce : Bytes)
      → length (check_nonce env log nonce).0.seen_nonces ≤ length log.seen_nonces + 1
  unfolding check_nonce
  length-check_nonce log nonce = elim (Bool-cases (seen log.seen_nonces nonce)) [
    | inl found ↦ rw (found, check_nonce) (omega arith)
    | inr fresh ↦ elim (Bool-cases (ltb nonce_cap (length (nonce ∷ log.seen_nonces)))) [
      | inl full ↦ rw (fresh, check_nonce, full) (omega arith)
      | inr room ↦ rw (fresh, check_nonce, room) (omega arith)
    ]
  ]

  check_all-keeps :
      (log : AuditLog env) (others : List Bytes) (old : Bytes)
      → length log.seen_nonces + length others ≤ nonce_cap
      → seen log.seen_nonces old ≡ true
      → seen (check_all log others).0.seen_nonces old ≡ true
  check_all-keeps log [] old room h = h
  check_all-keeps log (n ∷ ns) old room h =
      check_all-keeps (check_nonce env log n).0 ns old (omega (arith, length-check_nonce log n))
        (check_nonce-keeps log n old (omega arith) h)

  -- A nonce that was checked is rejected when it comes again, after whatever other nonces, as long
  -- as the set has room for them all.
  pub replay_rejected :
      (log : AuditLog env) (nonce : Bytes) (others : List Bytes)
      → length log.seen_nonces + length others < nonce_cap
      → (check_nonce env (check_all (check_nonce env log nonce).0 others).0 nonce).1 ≡ false
  replay_rejected log nonce others room =
      let log' = (check_nonce env log nonce).0 in
      (check_nonce_lem (check_all log' others).0 nonce).0
      ∙ ap not (
          check_all-keeps log' others nonce (omega (arith, length-check_nonce log nonce))
            (check_nonce_lem log nonce).1)

  check_nonce-clears :
      (log : AuditLog env) (nonce : Bytes)
      → length log.seen_nonces ≡ nonce_cap
      → seen log.seen_nonces nonce ≡ false
      → (check_nonce env log nonce).0.seen_nonces ≡ nonce ∷ []
  unfolding check_nonce
  check_nonce-clears log nonce full fresh =
      rw (fresh, check_nonce, lt→ltb nonce_cap (suc (length log.seen_nonces)) (omega arith)) refl

  -- A full set is emptied by the next new nonce: an old one is then accepted once more.
  pub replay_after_clear :
      (log : AuditLog env) (old new : Bytes)
      → length log.seen_nonces ≡ nonce_cap
      → seen log.seen_nonces old ≡ true
      → seen log.seen_nonces new ≡ false
      → ((check_nonce env log old).1 ≡ false)
        × ((check_nonce env (check_nonce env log new).0 old).1 ≡ true)
  replay_after_clear log old new full seen_old unseen =
      let log' = (check_nonce env log new).0 in
      let forgotten : seen log'.seen_nonces old ≡ false =
        rw (check_nonce-clears log new full unseen)
          (seen-one new old (seen-distinct log.seen_nonces old new seen_old unseen)) in
      (
        (check_nonce_lem log old).0 ∙ ap not seen_old,
        (check_nonce_lem log' old).0 ∙ ap not forgotten,
      )
