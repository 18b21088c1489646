-- ===== src/Audit/Log.antt =====
-- The audit log as a whole: what `append` keeps, what `verify_chain` reports, what `open` recovers.
use cachee_cli.Base.{ℕ, ◌+◌, ◌^◌, ◌<◌, Bytes, Str, none, some, List, [], ◌∷◌, ◌++◌}
use cachee_cli.Base.{ok, ◌≡◌, refl, sym, ap, ◌∙◌, arith, to_be, length}
use cachee_cli.Base.{length-append, Bool-cases, Option-cases, inl, inr}
use cachee_cli.Base.{wrap64-small}
use cachee_cli.Archive.Types.{zero_hash}
use cachee_cli.Sled.{SledLaws}
use cachee_cli.Sled.Order.{ordered_put-append}
use cachee_cli.Audit.{Env, AuditEntry, AuditEventType, AuditLog, next_entry, append}
use cachee_cli.Audit.{verify_chain, hashes, readable, open_log, open_with}
use cachee_cli.Audit.Chain.{
  Stored, Chained, last_hash, Stored-snoc, Stored-below, walk-Stored, Chained-snoc, hashes-snoc,
  readable-Stored, chain_state-Stored, last_hash-snoc,
}

module _ (env : Env) (laws : SledLaws env.sled) where
  open env use {sled, entry_to_json, entry_of_json}
  open laws use {contents}

  -- The log holds `es` and its in-memory state agrees with them.
  pub record WellFormed (log : AuditLog env) (es : List AuditEntry) : Type 0 where
    pub stored : Stored env es (contents log.db)
    pub chained : Chained env zero_hash 0 es
    pub head : log.head_hash ≡ last_hash env zero_hash es
    pub next : log.next_sequence ≡ length es
    pub small : length es < 2 ^ 64
    pub leaves : log.merkle_leaves ≡ hashes env es

  -- On a well-formed log over a database that behaves as `SledLaws` says, `verify_chain` finds no
  -- broken link, and counts as many entries as the log has given out numbers.
  pub verify_chain-WellFormed :
      (log : AuditLog env) (es : List AuditEntry)
      → WellFormed log es
      → verify_chain env log ≡ ok (log.next_sequence, none)
  unfolding verify_chain
  verify_chain-WellFormed log es w =
      rw
        (
          laws.iter_lem log.db,
          walk-Stored env es (contents log.db) zero_hash 0 0 w.stored w.chained
              (omega (arith, w.small)),
          w.next,
        )
        (ap (λ k. ok (k, none)) (omega arith))

  next_entry-Chained :
      (log : AuditLog env) (es : List AuditEntry) (t : ℕ) (event : AuditEventType)
      → WellFormed log es
      → Chained env zero_hash 0 (es ++ next_entry env log t event ∷ [])
  unfolding next_entry
  next_entry-Chained log es t event w =
      Chained-snoc env es zero_hash 0 (next_entry env log t event) w.chained w.head refl
        (omega (arith, w.next))

  next_entry-Stored :
      (log : AuditLog env) (es : List AuditEntry) (t : ℕ) (event : AuditEventType) (j : Bytes)
      (db : sled.Db)
      → WellFormed log es
      → log.next_sequence < 2 ^ 64
      → sled.insert log.db (to_be 8 log.next_sequence) j ≡ some db
      → entry_of_json j ≡ some (next_entry env log t event)
      → Stored env (es ++ next_entry env log t event ∷ []) (contents db)
  unfolding next_entry
  next_entry-Stored log es t event j db w fits put read =
      rw
        (
          laws.contents-insert log.db db (to_be 8 log.next_sequence) j put,
          ordered_put-append (to_be 8 log.next_sequence) j (contents log.db) (
              Stored-below env es (contents log.db) zero_hash 0 log.next_sequence w.stored w.chained
                (omega (arith, w.next)) fits),
        )
        (Stored-snoc env es (contents log.db) (next_entry env log t event) j w.stored read)

  -- A successful append keeps the log well formed, with the new entry at its end, if the database
  -- behaves as `SledLaws` says, what `serde_json` writes of an entry it reads back, and the next
  -- number does not reach 2^64.
  pub append-WellFormed :
      (log : AuditLog env) (es : List AuditEntry) (t : ℕ) (event : AuditEventType) (h : Bytes)
      → ((e : AuditEntry) (j : Bytes) → entry_to_json e ≡ some j → entry_of_json j ≡ some e)
      → log.next_sequence + 1 < 2 ^ 64
      → WellFormed log es
      → (append env log t event).1 ≡ ok h
      → WellFormed (append env log t event).0 (es ++ next_entry env log t event ∷ [])
  unfolding append
  append-WellFormed log es t event h json fits w done =
      elim (Option-cases (entry_to_json (next_entry env log t event))) [
        | inl fails ↦ cc (rw (fails, append) at done)
        | inr (j, saved) ↦ elim (Option-cases (sled.insert log.db (to_be 8 log.next_sequence) j)) [
          | inl fails ↦ cc (rw (saved, fails, append) at done)
          | inr (db, put) ↦ elim (Bool-cases (sled.flush db)) [
            | inr fails ↦ cc (rw (saved, put, fails, append) at done)
            | inl flushed ↦
                rw (saved, put, flushed, append)
                  (record {
                    stored =
                        next_entry-Stored log es t event j db w (omega arith) put (json _ j saved);
                    chained = next_entry-Chained log es t event w;
                    head = sym (last_hash-snoc env zero_hash es (next_entry env log t event));
                    next =
                        wrap64-small (log.next_sequence + 1) fits
                        ∙ (omega
                            (arith, w.next, length-append es (next_entry env log t event ∷ [])));
                    small =
                        omega (arith, w.next, length-append es (next_entry env log t event ∷ []));
                    leaves =
                        ap (λ l. l ++ (next_entry env log t event).hash ∷ []) w.leaves
                        ∙ sym (hashes-snoc env es (next_entry env log t event));
                  })
          ]
        ]
      ]

  -- Opening the database of a well-formed log again succeeds and gives back its head and its next
  -- number, in a log that is well formed for the same entries, if the database behaves as
  -- `SledLaws` says.
  pub open_log-WellFormed :
      (log : AuditLog env) (es : List AuditEntry) (issuer : Str)
      → WellFormed log es
      → (log' : AuditLog env) × (open_log env log.db issuer ≡ ok log')
        × WellFormed log' es
        × (log'.head_hash ≡ log.head_hash)
        × (log'.next_sequence ≡ log.next_sequence)
  unfolding open_log open_with
  open_log-WellFormed log es issuer w =
      let log' : AuditLog env = record {
        db = log.db;
        head_hash = last_hash env zero_hash es;
        next_sequence = length es;
        issuer_id = issuer;
        seen_nonces = [];
        merkle_leaves = hashes env (readable env (sled.iter log.db));
        last_merkle_root = none;
        last_anchor_sequence = 0;
      } in
      (
        log',
        rw
            (
              laws.last_lem log.db,
              open_log,
              chain_state-Stored env es (contents log.db) w.stored w.chained w.small,
            )
            refl,
        record {
          stored = w.stored;
          chained = w.chained;
          head = refl;
          next = refl;
          small = w.small;
          leaves = ap (hashes env) (
              ap (readable env) (laws.iter_lem log.db)
              ∙ readable-Stored env es (contents log.db) w.stored);
        },
        sym w.head,
        sym w.next,
      )
