-- ===== src/Audit/Anchors.antt =====
-- The anchors of the audit log: which leaves an anchor covers.
use cachee_cli.Base.{ℕ, ◌+◌, Bytes, Option, none, some, [], ◌∷◌}
use cachee_cli.Base.{
  Result, ok, err, ◌≡◌, refl, sym, ap, ◌∙◌, length, length-append, drop, drop-length, List-cases,
  Option-cases, Bool-cases, inl, inr, to_be,
}
use cachee_cli.Base.{wrap64-small, ◌<◌, ◌^◌}
use cachee_cli.Audit.AuditError.{no_entries_since_anchor}
use cachee_cli.Audit.{
  Env, AuditError, AuditEventType, AuditLog, append, merkle_root, compute_merkle_anchor, next_entry,
}
use cachee_cli.Audit.{anchor_root, record_anchor, anchor_event, leaves_since_anchor}

module _ (env : Env) where
  open env use {sled, entry_to_json}

  -- Every number that was given out has its leaf.
  abbrev pub InStep : AuditLog env → Type 0
  InStep log = length log.merkle_leaves ≡ log.next_sequence

  append-InStep :
      (log : AuditLog env) (t : ℕ) (event : AuditEventType)
      → log.next_sequence + 1 < 2 ^ 64
      → InStep log
      → InStep (append env log t event).0
  unfolding append
  append-InStep log t event fits h =
      elim (Option-cases (entry_to_json (next_entry env log t event))) [
        | inl fails ↦ rw (fails, append) h
        | inr (j, saved) ↦ elim (Option-cases (sled.insert log.db (to_be 8 log.next_sequence) j)) [
          | inl fails ↦ rw (saved, fails, append) h
          | inr (db, put) ↦ elim (Bool-cases (sled.flush db)) [
            | inr fails ↦ rw (saved, put, fails, append) h
            | inl flushed ↦
                rw (saved, put, flushed, append)
                  (length-append log.merkle_leaves ((next_entry env log t event).hash ∷ [])
                    ∙ ap (λ k. k + 1) h
                    ∙ sym (wrap64-small (log.next_sequence + 1) fits))
          ]
        ]
      ]

  abbrev Covered : AuditLog env → Type 0
  Covered log = log.last_anchor_sequence ≡ length log.merkle_leaves

  record_anchor-Covered :
      (root r : Bytes) (done : AuditLog env × Result AuditError Bytes)
      → InStep done.0
      → (record_anchor env root done).1 ≡ ok r
      → Covered (record_anchor env root done).0
  unfolding record_anchor
  record_anchor-Covered root r (log, err e) step h = absurd (cc h)
  record_anchor-Covered root r (log, ok x) step h = sym step

  anchor_root-Covered :
      (log : AuditLog env) (t : ℕ) (root : Option Bytes) (r : Bytes)
      → log.next_sequence + 1 < 2 ^ 64
      → InStep log
      → (anchor_root env log t root).1 ≡ ok r
      → Covered (anchor_root env log t root).0
  unfolding anchor_root
  anchor_root-Covered log t none r fits step h = absurd (cc h)
  anchor_root-Covered log t (some root) r fits step h =
      record_anchor-Covered root r (append env log t (anchor_event env log root))
        (append-InStep log t (anchor_event env log root) fits step) h

  anchor-Covered :
      (log : AuditLog env) (t : ℕ) (r : Bytes)
      → log.next_sequence + 1 < 2 ^ 64
      → InStep log
      → (compute_merkle_anchor env log t).1 ≡ ok r
      → Covered (compute_merkle_anchor env log t).0
  unfolding compute_merkle_anchor
  anchor-Covered log t r fits step h = elim (List-cases (leaves_since_anchor env log)) [
    | inl empty ↦ absurd (cc (rw (empty, compute_merkle_anchor) at h))
    | inr (a, rest, full) ↦
        rw (full, compute_merkle_anchor)
          (anchor_root-Covered log t (merkle_root env (a ∷ rest)) r fits step
            (rw (full, compute_merkle_anchor) at h))
  ]

  Covered-refused :
      (log : AuditLog env) (t : ℕ)
      → Covered log
      → compute_merkle_anchor env log t ≡ (log, err no_entries_since_anchor)
  unfolding compute_merkle_anchor
  Covered-refused log t h =
      let empty : leaves_since_anchor env log ≡ [] =
        ap (λ k. drop k log.merkle_leaves) h ∙ drop-length log.merkle_leaves in
      rw (empty, compute_merkle_anchor) refl

  -- If an anchor succeeds on a log that has as many leaves as numbers given out, fewer than 2^64 - 1,
  -- then a second anchor right after it is refused.
  pub anchor_twice :
      (log : AuditLog env) (t t' : ℕ) (root : Bytes)
      → log.next_sequence + 1 < 2 ^ 64
      → InStep log
      → (compute_merkle_anchor env log t).1 ≡ ok root
      → compute_merkle_anchor env (compute_merkle_anchor env log t).0 t'
        ≡ ((compute_merkle_anchor env log t).0, err no_entries_since_anchor)
  anchor_twice log t t' root fits step done =
      Covered-refused (compute_merkle_anchor env log t).0 t'
        (anchor-Covered log t root fits step done)
