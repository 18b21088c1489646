-- ===== src/Audit/Chain.antt =====
-- Chains of audit entries and the databases that hold them: one entry more, and what the loops of
-- `verify_chain` and `open` make of them.
use cachee_cli.Base.{ℕ, ◌+◌, ◌^◌, ◌≤◌, ◌<◌, Bytes, true, none, some, List, [], ◌∷◌, ◌++◌}
use cachee_cli.Base.{ok, ◌≡◌, refl, sym, ap, ◌∙◌, arith, bytes_eq_refl, to_be, length}
use cachee_cli.Base.{All}
use cachee_cli.Base.{wrap64-small}
use cachee_cli.Archive.Types.{zero_hash}
use cachee_cli.Sled.{lex_lt, all_some, last_item}
use cachee_cli.Sled.Order.{lex_lt-to_be}
use cachee_cli.Audit.{Env, AuditEntry, compute_hash}
use cachee_cli.Audit.{walk, hashes, readable, chain_state}

module _ (env : Env) where
  open env use {sled, entry_to_json, entry_of_json}

  -- Entries that follow one another from a link and a number on.
  abbrev pub Chained : Bytes → ℕ → List AuditEntry → Type 0
  Chained p n [] = Unit
  Chained p n (e ∷ es) =
      (e.prev_hash ≡ p)
      × (e.hash ≡ compute_hash env e.prev_hash e.event e.timestamp_ns e.sequence)
      × (e.sequence ≡ n)
      × Chained e.hash (n + 1) es

  -- The database holds the entries, each under its number.
  abbrev pub Stored : List AuditEntry → List (Bytes × Bytes) → Type 0
  Stored [] [] = Unit
  Stored (e ∷ es) ((k, v) ∷ m) = (k ≡ to_be 8 e.sequence) × (entry_of_json v ≡ some e) × Stored es m
  Stored _ _ = ⊥

  pub Stored-snoc :
      (es : List AuditEntry) (m : List (Bytes × Bytes)) (e : AuditEntry) (v : Bytes)
      → Stored es m
      → entry_of_json v ≡ some e
      → Stored (es ++ e ∷ []) (m ++ (to_be 8 e.sequence, v) ∷ [])
  Stored-snoc [] [] e v h j = (refl, j, tt)
  Stored-snoc [] (x ∷ m) e v h j = absurd h
  Stored-snoc (x ∷ es) [] e v h j = absurd h
  Stored-snoc (x ∷ es) ((k, w) ∷ m) e v h j = (h.0, h.1, Stored-snoc es m e v h.2 j)

  pub Stored-below :
      (es : List AuditEntry) (m : List (Bytes × Bytes)) (p : Bytes) (s n : ℕ)
      → Stored es m
      → Chained p s es
      → s + length es ≤ n
      → n < 256 ^ 8
      → All (λ x. lex_lt x.0 (to_be 8 n) ≡ true) m
  Stored-below [] [] p s n h c b f = tt
  Stored-below [] (x ∷ m) p s n h c b f = absurd h
  Stored-below (e ∷ es) [] p s n h c b f = absurd h
  Stored-below (e ∷ es) ((k, w) ∷ m) p s n h c b f =
      let low : e.sequence < n = omega (arith, c.2) in
      (
        rw (h.0) (lex_lt-to_be 8 e.sequence n low f),
        Stored-below es m e.hash (s + 1) n h.2 c.3 (omega arith) f,
      )

  pub walk-Stored :
      (es : List AuditEntry) (m : List (Bytes × Bytes)) (p : Bytes) (n count : ℕ)
      → Stored es m
      → Chained p n es
      → count + length es < 2 ^ 64
      → walk env (all_some m) p count ≡ ok (count + length es, none)
  unfolding walk
  walk-Stored [] [] p n count h c b = ap (λ k. ok (k, none)) (omega arith)
  walk-Stored [] (x ∷ m) p n count h c b = absurd h
  walk-Stored (e ∷ es) [] p n count h c b = absurd h
  walk-Stored (e ∷ es) ((k, v) ∷ m) p n count h c b =
      rw
        (
          h.1,
          c.0,
          bytes_eq_refl p,
          sym c.0,
          sym c.1,
          bytes_eq_refl e.hash,
          wrap64-small (count + 1) (omega arith),
          walk-Stored es m e.hash (n + 1) (count + 1) h.2 c.3 (omega arith),
        )
        (ap (λ k. ok (k, none)) (omega arith))

  abbrev pub last_hash : Bytes → List AuditEntry → Bytes
  last_hash p [] = p
  last_hash p (e ∷ es) = last_hash e.hash es

  pub Chained-snoc :
      (es : List AuditEntry) (p : Bytes) (n : ℕ) (e : AuditEntry)
      → Chained p n es
      → e.prev_hash ≡ last_hash p es
      → e.hash ≡ compute_hash env e.prev_hash e.event e.timestamp_ns e.sequence
      → e.sequence ≡ n + length es
      → Chained p n (es ++ e ∷ [])
  Chained-snoc [] p n e c hp hh hs = (hp, hh, omega arith, tt)
  Chained-snoc (x ∷ es) p n e c hp hh hs =
      (c.0, c.1, c.2, Chained-snoc es x.hash (n + 1) e c.3 hp hh (omega arith))

  pub last_hash-snoc :
      (p : Bytes) (es : List AuditEntry) (e : AuditEntry) → last_hash p (es ++ e ∷ []) ≡ e.hash
  last_hash-snoc p [] e = refl
  last_hash-snoc p (x ∷ es) e = last_hash-snoc x.hash es e

  pub hashes-snoc :
      (es : List AuditEntry) (e : AuditEntry)
      → hashes env (es ++ e ∷ []) ≡ hashes env es ++ e.hash ∷ []
  unfolding hashes
  hashes-snoc [] e = refl
  hashes-snoc (x ∷ es) e = ap (λ l. x.hash ∷ l) (hashes-snoc es e)

  pub readable-Stored :
      (es : List AuditEntry) (m : List (Bytes × Bytes))
      → Stored es m
      → readable env (all_some m) ≡ es
  unfolding readable
  readable-Stored [] [] h = refl
  readable-Stored [] (x ∷ m) h = absurd h
  readable-Stored (e ∷ es) [] h = absurd h
  readable-Stored (e ∷ es) ((k, v) ∷ m) h = rw (h.1) (ap (λ l. e ∷ l) (readable-Stored es m h.2))

  chain_state-last_item :
      (e : AuditEntry) (es : List AuditEntry) (m : List (Bytes × Bytes)) (p : Bytes) (n : ℕ)
      → Stored (e ∷ es) m
      → Chained p n (e ∷ es)
      → n + length (e ∷ es) < 2 ^ 64
      → chain_state env (last_item m) ≡ ok (last_hash p (e ∷ es), n + length (e ∷ es))
  unfolding chain_state
  chain_state-last_item e es [] p n h c b = absurd h
  chain_state-last_item e [] ((k, v) ∷ []) p n h c b =
      rw (h.1, c.2) (ap (λ k. ok (e.hash, k)) (wrap64-small (n + 1) (omega arith)))
  chain_state-last_item e [] (x ∷ y ∷ m) p n h c b = absurd h.2
  chain_state-last_item e (f ∷ es) (x ∷ []) p n h c b = absurd h.2
  chain_state-last_item e (f ∷ es) (x ∷ y ∷ m) p n h c b =
      chain_state-last_item f es (y ∷ m) e.hash (n + 1) h.2 c.3 (omega arith)
      ∙ ap (λ k. ok (last_hash f.hash es, k)) (omega arith)

  pub chain_state-Stored :
      (es : List AuditEntry) (m : List (Bytes × Bytes))
      → Stored es m
      → Chained zero_hash 0 es
      → length es < 2 ^ 64
      → chain_state env (last_item m) ≡ ok (last_hash zero_hash es, length es)
  unfolding chain_state
  chain_state-Stored [] [] h c b = refl
  chain_state-Stored [] (x ∷ m) h c b = absurd h
  chain_state-Stored (e ∷ es) m h c b =
      chain_state-last_item e es m zero_hash 0 h c (omega arith)
      ∙ ap (λ k. ok (last_hash e.hash es, k)) (omega arith)
