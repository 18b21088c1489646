-- ===== src/Examples/Logs.antt =====
-- The theorems on the audit log, at a log over an association list.
use cachee_cli.Base.{
  ℕ, zero, suc, Bytes, false, Option, none, some, [], ◌∷◌, ◌++◌, ◌≡◌, refl, ap, sym, ◌∙◌, ok,
  length, take, drop, replicate, ascii, take-append, drop-append, arith, bytes_eq-cons,
}
use cachee_cli.Archive.Types.{zero_hash}
use cachee_cli.Examples.{toy_sled, toy_laws}
use cachee_cli.Audit.{
  Env, AuditLog, AuditEntry, AuditEventType, entry_deleted, append, next_entry, open_log,
  verify_chain, merkle_root, check_nonce, hashes, seen,
}
use cachee_cli.Audit.Log.{
  WellFormed, append-WellFormed, verify_chain-WellFormed, open_log-WellFormed,
}
use cachee_cli.Audit.Merkle.{Tree, leaves_of, root_of, merkle_root-total, merkle_root-Tree}
use cachee_cli.Audit.Tampering.{SameHistory, Collision, same_head-SameHistory}
use cachee_cli.Base.{◌⊎◌}
use cachee_cli.Audit.{export_all}
use cachee_cli.Audit.Nonces.{check_all, replay_rejected}

-- Only deletions are written: the numbers, the lengths, and then the texts.
abbrev to_json : AuditEntry → Option Bytes
to_json e = elim e.event [
  | entry_deleted k ↦ some (
      e.sequence ∷ e.timestamp_ns ∷ length e.prev_hash ∷ length e.hash ∷ length k ∷ e.prev_hash
      ++ (e.hash ++ (k ++ e.issuer_id)))
  | _ ↦ none
]

abbrev of_json : Bytes → Option AuditEntry
of_json (sequence ∷ timestamp_ns ∷ p ∷ h ∷ k ∷ text) = some (record {
  sequence = sequence;
  prev_hash = take p text;
  hash = take h (drop p text);
  timestamp_ns = timestamp_ns;
  event = entry_deleted (take k (drop h (drop p text)));
  issuer_id = drop k (drop h (drop p text));
})
of_json _ = none

abbrev pub toy_env : Env
toy_env = record {
  sled = toy_sled;
  sha3_256 = λ xs. replicate 32 (length xs);
  event_to_json = λ e. elim e [ entry_deleted k ↦ some k | _ ↦ none ];
  entry_to_json = to_json;
  entry_of_json = of_json;
  hex_encode = λ xs. xs;
}

deletion-to_json :
    (n t : ℕ) (p x issuer : Bytes) (event : AuditEventType) (j : Bytes)
    → to_json (record {
      sequence = n;
      prev_hash = p;
      hash = x;
      timestamp_ns = t;
      event = event;
      issuer_id = issuer;
    })
      ≡ some j
    → of_json j
      ≡ some (record {
        sequence = n;
        prev_hash = p;
        hash = x;
        timestamp_ns = t;
        event = event;
        issuer_id = issuer;
      })
deletion-to_json n t p x issuer (entry_deleted k) j h =
    let written : (n ∷ t ∷ length p ∷ length x ∷ length k ∷ p ++ (x ++ (k ++ issuer))) ≡ j = cc h in
    let after_p = drop-append p (x ++ (k ++ issuer)) in
    let after_x = ap (drop (length x)) after_p ∙ drop-append x (k ++ issuer) in
    ap of_json (sym written) ∙ (λ i. some (record {
      sequence = n;
      prev_hash = take-append p (x ++ (k ++ issuer)) i;
      hash = (ap (take (length x)) after_p ∙ take-append x (k ++ issuer)) i;
      timestamp_ns = t;
      event = entry_deleted ((ap (take (length k)) after_x ∙ take-append k issuer) i);
      issuer_id = (ap (drop (length k)) after_x ∙ drop-append k issuer) i;
    }))
deletion-to_json n t p x issuer _ j h = cc h

of_json-to_json : (e : AuditEntry) (j : Bytes) → to_json e ≡ some j → of_json j ≡ some e
of_json-to_json e j h =
    deletion-to_json e.sequence e.timestamp_ns e.prev_hash e.hash e.issuer_id e.event j h

abbrev pub toy_log : AuditLog toy_env
toy_log = record {
  db = [];
  head_hash = zero_hash;
  next_sequence = 0;
  issuer_id = ascii "h33";
  seen_nonces = [];
  merkle_leaves = [];
  last_merkle_root = none;
  last_anchor_sequence = 0;
}

toy_log-WellFormed : WellFormed toy_env toy_laws toy_log []
unfolding hashes
toy_log-WellFormed = record {
  stored = tt;
  chained = tt;
  head = refl;
  next = refl;
  small = omega arith;
  leaves = refl;
}

abbrev deletion : AuditEventType
deletion = entry_deleted (ascii "k")

-- The log after one deletion.
abbrev pub log_one : AuditLog toy_env
log_one = (append toy_env toy_log 50 deletion).0

abbrev pub entry_one : AuditEntry
entry_one = next_entry toy_env toy_log 50 deletion

append-one : (append toy_env toy_log 50 deletion).1 ≡ ok entry_one.hash
unfolding append next_entry
append-one = refl

append-WellFormed_example : WellFormed toy_env toy_laws log_one ([] ++ entry_one ∷ [])
append-WellFormed_example =
    append-WellFormed toy_env toy_laws toy_log [] 50 deletion entry_one.hash of_json-to_json
      (omega arith) toy_log-WellFormed append-one

pub log_one-WellFormed : WellFormed toy_env toy_laws log_one (entry_one ∷ [])
log_one-WellFormed =
    append-WellFormed toy_env toy_laws toy_log [] 50 deletion entry_one.hash of_json-to_json
      (omega arith) toy_log-WellFormed append-one

verify_chain-WellFormed_example : verify_chain toy_env log_one ≡ ok (log_one.next_sequence, none)
verify_chain-WellFormed_example =
    verify_chain-WellFormed toy_env toy_laws log_one (entry_one ∷ []) log_one-WellFormed

open_log-WellFormed_example :
    (log' : AuditLog toy_env) × (open_log toy_env log_one.db (ascii "h33") ≡ ok log')
    × WellFormed toy_env toy_laws log' (entry_one ∷ [])
    × (log'.head_hash ≡ log_one.head_hash)
    × (log'.next_sequence ≡ log_one.next_sequence)
open_log-WellFormed_example =
    open_log-WellFormed toy_env toy_laws log_one (entry_one ∷ []) (ascii "h33") log_one-WellFormed

merkle_root-total_example :
    (root : Bytes) × (merkle_root toy_env ((1 ∷ []) ∷ (2 ∷ []) ∷ (3 ∷ []) ∷ []) ≡ some root)
merkle_root-total_example = merkle_root-total toy_env ((1 ∷ []) ∷ (2 ∷ []) ∷ (3 ∷ []) ∷ [])

abbrev toy_tree : Tree toy_env 2
toy_tree = ((1 ∷ [], 2 ∷ []), (3 ∷ [], 4 ∷ []))

merkle_root-Tree_example :
    merkle_root toy_env (leaves_of toy_env 2 toy_tree) ≡ some (root_of toy_env 2 toy_tree)
merkle_root-Tree_example = merkle_root-Tree toy_env 2 toy_tree

-- Every entry is written, so that an anchor can be appended.
abbrev anchor_env : Env
anchor_env = record toy_env { entry_to_json = λ e. some [] }

abbrev two_leaves : AuditLog anchor_env
two_leaves = record {
  db = [];
  head_hash = zero_hash;
  next_sequence = 2;
  issuer_id = ascii "h33";
  seen_nonces = [];
  merkle_leaves = (1 ∷ []) ∷ (2 ∷ []) ∷ [];
  last_merkle_root = none;
  last_anchor_sequence = 0;
}

replay_rejected_example :
    (check_nonce toy_env
      (check_all toy_env (check_nonce toy_env toy_log (7 ∷ [])).0 ((8 ∷ []) ∷ [])).0
      (7 ∷ [])).1
    ≡ false
replay_rejected_example = replay_rejected toy_env toy_log (7 ∷ []) ((8 ∷ []) ∷ []) (omega arith)

length-replicate : (n : ℕ) (x : Bytes) → length (replicate n x) ≡ n
length-replicate zero x = refl
length-replicate (suc n) x = ap suc (length-replicate n x)

seen-replicate_other : (n : ℕ) → seen (replicate n (7 ∷ [])) (8 ∷ []) ≡ false
unfolding seen
seen-replicate_other zero = refl
seen-replicate_other (suc n) = rw (bytes_eq-cons 7 8 [] []) (seen-replicate_other n)

-- The log under another issuer's name.
abbrev log_renamed : AuditLog toy_env
log_renamed = record log_one { issuer_id = ascii "other" }

log_one-intact : verify_chain toy_env log_one ≡ ok (log_one.next_sequence, none)
log_one-intact =
    verify_chain-WellFormed toy_env toy_laws log_one (entry_one ∷ []) log_one-WellFormed

log_renamed-intact : verify_chain toy_env log_renamed ≡ ok (log_one.next_sequence, none)
unfolding verify_chain
log_renamed-intact = log_one-intact

same_head-SameHistory_example :
    SameHistory toy_env (export_all toy_env log_one) (export_all toy_env log_renamed)
    ⊎ Collision toy_env
unfolding export_all
same_head-SameHistory_example =
    same_head-SameHistory toy_env toy_laws log_one log_renamed log_one.next_sequence
      log_one.next_sequence (λ x. refl) log_one-intact log_renamed-intact refl refl
