-- ===== src/Audit/Tampering.antt =====
-- What two logs that `verify_chain` accepts have in common.
use cachee_cli.Base.{ℕ, suc, ◌+◌, Bytes, Option, none, some, List, [], ◌∷◌, ◌++◌, wrap64}
use cachee_cli.Base.{
  ok, ◌≡◌, ◌≢◌, ◌⊎◌, inl, inr, refl, sym, ap, ◌∙◌, arith, bytes_eq, bytes_eq→eq, bytes_eq_iff,
  to_be, length, length-to_be, Option-cases, Bool-cases,
}
use cachee_cli.Archive.Types.{zero_hash}
use cachee_cli.Archive.Fingerprint.Digest.{append-split}
use cachee_cli.Sled.{SledLaws, all_some}
use cachee_cli.Audit.{
  Env, AuditEntry, AuditLog, compute_hash, hash_input, event_bytes, walk, verify_chain, readable,
  export_all,
}
use cachee_cli.Audit.Chain.{last_hash}
use mathlib.Core.List.{append-nil}

module _ (env : Env) where
  open env use {sled, sha3_256, entry_of_json}

  -- Two texts on which the hash collides.
  abbrev pub Collision : Type 0
  Collision = (x : Bytes) × (y : Bytes) × (x ≢ y) × (sha3_256 x ≡ sha3_256 y)

  same_text : (x y : Bytes) → sha3_256 x ≡ sha3_256 y → (x ≡ y) ⊎ Collision
  same_text x y h = elim (Bool-cases (bytes_eq x y)) [
    | inl same ↦ inl (bytes_eq→eq x y same)
    | inr differ ↦ inr (x, y, (λ e. cc (differ, (bytes_eq_iff x y).1 e)), h)
  ]

  -- Entries whose links and hashes fit, from a link on.
  abbrev pub Linked : Bytes → List AuditEntry → Type 0
  Linked p [] = Unit
  Linked p (e ∷ es) =
      (e.prev_hash ≡ p)
      × (e.hash ≡ compute_hash env e.prev_hash e.event e.timestamp_ns e.sequence)
      × Linked e.hash es

  -- The entries agree in all that the hash covers, the event by its JSON text.
  abbrev pub SameHistory : List AuditEntry → List AuditEntry → Type 0
  SameHistory [] [] = Unit
  SameHistory (e ∷ es) (f ∷ fs) =
      (e.prev_hash ≡ f.prev_hash)
      × (e.hash ≡ f.hash)
      × (to_be 8 e.timestamp_ns ≡ to_be 8 f.timestamp_ns)
      × (to_be 8 e.sequence ≡ to_be 8 f.sequence)
      × (event_bytes env e.event ≡ event_bytes env f.event)
      × SameHistory es fs
  SameHistory _ _ = ⊥

  same_input :
      (e f : AuditEntry)
      → length e.prev_hash ≡ length f.prev_hash
      → hash_input env e.prev_hash e.event e.timestamp_ns e.sequence
        ≡ hash_input env f.prev_hash f.event f.timestamp_ns f.sequence
      → (e.prev_hash ≡ f.prev_hash)
        × (to_be 8 e.timestamp_ns ≡ to_be 8 f.timestamp_ns)
        × (to_be 8 e.sequence ≡ to_be 8 f.sequence)
        × (event_bytes env e.event ≡ event_bytes env f.event)
  unfolding hash_input
  same_input e f len h =
      let a = append-split e.prev_hash _ f.prev_hash _ len h in
      let b =
        append-split (to_be 8 e.timestamp_ns) _ (to_be 8 f.timestamp_ns) _
          (length-to_be 8 e.timestamp_ns ∙ sym (length-to_be 8 f.timestamp_ns)) a.1 in
      let c =
        append-split (to_be 8 e.sequence) _ (to_be 8 f.sequence) _
          (length-to_be 8 e.sequence ∙ sym (length-to_be 8 f.sequence)) b.1 in
      (a.0, b.0, c.0, rw (append-nil _, append-nil _) at c.1)

  module _ (size : (x : Bytes) → length (sha3_256 x) ≡ 32) where
    Linked-length :
        (p : Bytes) (e : AuditEntry)
        → e.hash ≡ compute_hash env e.prev_hash e.event e.timestamp_ns e.sequence
        → length e.hash ≡ 32
    unfolding compute_hash
    Linked-length p e h = ap length h ∙ size _

    Linked-same :
        (es fs : List AuditEntry) (p q : Bytes)
        → length p ≡ length q
        → length es ≡ length fs
        → Linked p es
        → Linked q fs
        → last_hash env p es ≡ last_hash env q fs
        → ((p ≡ q) × SameHistory es fs) ⊎ Collision
    unfolding compute_hash
    Linked-same [] [] p q lp l c d h = inl (h, tt)
    Linked-same [] (f ∷ fs) p q lp l c d h = absurd (omega arith)
    Linked-same (e ∷ es) [] p q lp l c d h = absurd (omega arith)
    Linked-same (e ∷ es) (f ∷ fs) p q lp l c d h =
        elim (Linked-same es fs e.hash f.hash (Linked-length p e c.1 ∙ sym (Linked-length q f d.1))
          (omega arith) c.2 d.2 h) [
            | inr found ↦ inr found
            | inl (same, rest) ↦ elim (same_text _ _ (sym c.1 ∙ same ∙ d.1)) [
              | inr found ↦ inr found
              | inl texts ↦
                  let fields = same_input e f (ap length c.0 ∙ lp ∙ sym (ap length d.0)) texts in
                  inl
                    (sym c.0 ∙ fields.0 ∙ d.0, (fields.0, same, fields.1, fields.2, fields.3, rest))
            ]
          ]

  walk-cons :
      (key v : Bytes) (e : AuditEntry) (items : List (Option (Bytes × Bytes))) (p : Bytes)
      (count k : ℕ)
      → entry_of_json v ≡ some e
      → walk env (some (key, v) ∷ items) p count ≡ ok (k, none)
      → (e.prev_hash ≡ p)
        × (e.hash ≡ compute_hash env e.prev_hash e.event e.timestamp_ns e.sequence)
        × (walk env items e.hash (wrap64 (count + 1)) ≡ ok (k, none))
  unfolding walk
  walk-cons key v e items p count k read h =
      let expected = compute_hash env e.prev_hash e.event e.timestamp_ns e.sequence in
      elim (Bool-cases (bytes_eq e.prev_hash p)) [
        | inr unlinked ↦ absurd (cc (rw (read, unlinked, walk) at h))
        | inl linked ↦ elim (Bool-cases (bytes_eq e.hash expected)) [
          | inr changed ↦ absurd (cc (rw (read, linked, changed, walk) at h))
          | inl same ↦ (
            bytes_eq→eq e.prev_hash p linked,
            bytes_eq→eq e.hash expected same,
            rw (read, linked, same, walk) at h,
          )
        ]
      ]

  walk-Linked :
      (m : List (Bytes × Bytes)) (p : Bytes) (count k : ℕ)
      → walk env (all_some m) p count ≡ ok (k, none)
      → Linked p (readable env (all_some m)) × (length (readable env (all_some m)) ≡ length m)
  unfolding walk readable
  walk-Linked [] p count k h = (tt, refl)
  walk-Linked ((key, v) ∷ m) p count k h = elim (Option-cases (entry_of_json v)) [
    | inl unreadable ↦ absurd (cc (rw (unreadable, walk) at h))
    | inr (e, read) ↦
        let step = walk-cons key v e (all_some m) p count k read h in
        let rest = walk-Linked m e.hash (wrap64 (count + 1)) k step.2 in
        rw read ((step.0, step.1, rest.0), ap suc rest.1)
  ]

  exported :
      (laws : SledLaws sled) (log : AuditLog env) (n : ℕ)
      → verify_chain env log ≡ ok (n, none)
      → Linked zero_hash (export_all env log)
        × (length (export_all env log) ≡ length (laws.contents log.db))
  unfolding verify_chain export_all
  exported laws log n h =
      let items = laws.iter_lem log.db in
      rw items (
        walk-Linked (laws.contents log.db) zero_hash 0 n
          (ap (λ l. walk env l zero_hash 0) (sym items) ∙ h))

  -- Two databases of one size that `verify_chain` accepts, and whose last entries have one hash, agree
  -- entry by entry in all that the hash covers, or show two texts on which the hash collides. The
  -- hash is 32 bytes long, and the databases behave as `SledLaws` says.
  pub same_head-SameHistory :
      (laws : SledLaws sled) (log log' : AuditLog env) (n n' : ℕ)
      → ((x : Bytes) → length (sha3_256 x) ≡ 32)
      → verify_chain env log ≡ ok (n, none)
      → verify_chain env log' ≡ ok (n', none)
      → length (laws.contents log.db) ≡ length (laws.contents log'.db)
      → last_hash env zero_hash (export_all env log) ≡ last_hash env zero_hash (export_all env log')
      → SameHistory (export_all env log) (export_all env log') ⊎ Collision
  unfolding verify_chain export_all
  same_head-SameHistory laws log log' n n' size ok_log ok_log' sizes heads =
      let a = exported laws log n ok_log in
      let b = exported laws log' n' ok_log' in
      elim (Linked-same size (export_all env log) (export_all env log') zero_hash zero_hash refl
        (a.1 ∙ sizes ∙ sym b.1) a.0 b.0 heads) [
          | inl (same, history) ↦ inl history
          | inr found ↦ inr found
        ]

  cons-walk :
      (key v : Bytes) (e : AuditEntry) (items : List (Option (Bytes × Bytes))) (p : Bytes)
      (count k : ℕ)
      → entry_of_json v ≡ some e
      → e.prev_hash ≡ p
      → e.hash ≡ compute_hash env e.prev_hash e.event e.timestamp_ns e.sequence
      → walk env items e.hash (wrap64 (count + 1)) ≡ ok (k, none)
      → walk env (some (key, v) ∷ items) p count ≡ ok (k, none)
  unfolding walk
  cons-walk key v e items p count k read linked same rest =
      let expected = compute_hash env e.prev_hash e.event e.timestamp_ns e.sequence in
      rw (read, (bytes_eq_iff e.prev_hash p).1 linked, (bytes_eq_iff e.hash expected).1 same, walk)
        rest

  walk-prefix :
      (items more : List (Option (Bytes × Bytes))) (p : Bytes) (count k : ℕ)
      → walk env (items ++ more) p count ≡ ok (k, none)
      → (n : ℕ) × (walk env items p count ≡ ok (n, none))
  unfolding walk
  walk-prefix [] more p count k h = (count, refl)
  walk-prefix (none ∷ items) more p count k h = absurd (cc h)
  walk-prefix (some (key, v) ∷ items) more p count k h = elim (Option-cases (entry_of_json v)) [
    | inl unreadable ↦ absurd (cc (rw (unreadable, walk) at h))
    | inr (e, read) ↦
        let step = walk-cons key v e (items ++ more) p count k read h in
        let rest = walk-prefix items more e.hash (wrap64 (count + 1)) k step.2 in
        (rest.0, cons-walk key v e items p count rest.0 read step.0 step.1 rest.1)
  ]

  all_some-append :
      (m more : List (Bytes × Bytes)) → all_some (m ++ more) ≡ all_some m ++ all_some more
  all_some-append [] more = refl
  all_some-append (x ∷ m) more = ap (λ l. some x ∷ l) (all_some-append m more)

  -- If `verify_chain` accepts a database, it accepts the database without any number of its last
  -- entries, for databases that behave as `SledLaws` says.
  pub truncation_accepted :
      (laws : SledLaws sled) (log log' : AuditLog env) (more : List (Bytes × Bytes)) (n : ℕ)
      → verify_chain env log ≡ ok (n, none)
      → laws.contents log.db ≡ laws.contents log'.db ++ more
      → (k : ℕ) × (verify_chain env log' ≡ ok (k, none))
  unfolding verify_chain
  truncation_accepted laws log log' more n h split =
      let items : sled.iter log.db ≡ all_some (laws.contents log'.db) ++ all_some more =
        laws.iter_lem log.db ∙ ap all_some split ∙ all_some-append (laws.contents log'.db) more in
      rw (laws.iter_lem log'.db) (
        walk-prefix (all_some (laws.contents log'.db)) (all_some more) zero_hash 0 n
          (ap (λ l. walk env l zero_hash 0) (sym items) ∙ h))
