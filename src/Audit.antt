-- ===== src/Audit.antt =====
-- src/audit.rs: the hash-chained audit log. `sled`, `serde_json`, `sha3` and the clock are
-- parameters: a call of the clock is the argument `timestamp_ns`.
pub mod Chain
pub mod Log
pub mod Anchors
pub mod Merkle
pub mod Nonces
pub mod Tampering
use cachee_cli.Base.{
  ℕ, ◌+◌, ◌-◌, Bytes, Str, Bool, true, false, Option, none, some, List, [], ◌∷◌, ◌++◌,
}
use cachee_cli.Base.{
  Result, ok, err, ltb, ◌==◌, ◌||◌, not, if◌then◌else◌, bytes_eq, to_be, length, drop, concat, zero,
  suc,
}
use cachee_cli.Base.{wrap64}
use cachee_cli.Archive.Types.{zero_hash}
use cachee_cli.Sled.{Sled}

pub data AuditEventType : Type 0 where
  -- key, from_state, to_state, authority, reason
  state_transition : Str → Str → Str → Str → Option Str → AuditEventType
  -- key, mldsa_valid, falcon_valid, slhdsa_valid, two_of_three, all_three
  verification_performed : Str → Bool → Bool → Bool → Bool → Bool → AuditEventType
  -- key, error
  verification_failed : Str → Str → AuditEventType
  -- key, content_address, fingerprint_digest, signed
  entry_created : Str → Str → Str → Bool → AuditEventType
  -- key
  entry_deleted : Str → AuditEventType
  -- old_key_id, new_key_id, old_version, new_version
  key_rotation : ℕ → ℕ → ℕ → ℕ → AuditEventType
  -- version, attest_enabled, verify_mode
  daemon_start : Str → Bool → Str → AuditEventType
  -- command, nonce
  replay_rejected : Str → Str → AuditEventType
  -- merkle_root, from_sequence, to_sequence, entry_count
  merkle_anchor : Str → ℕ → ℕ → ℕ → AuditEventType

pub record AuditEntry : Type 0 where
  pub sequence : ℕ
  pub prev_hash : Bytes
  pub hash : Bytes
  pub timestamp_ns : ℕ
  pub event : AuditEventType
  pub issuer_id : Str

-- What the log calls: the database, the hash, the two JSON codecs (`none` is an error), and
-- `hex::encode`.
pub record Env : Type 1 where
  pub sled : Sled
  pub sha3_256 : Bytes → Bytes
  pub event_to_json : AuditEventType → Option Bytes
  pub entry_to_json : AuditEntry → Option Bytes
  pub entry_of_json : Bytes → Option AuditEntry
  pub hex_encode : Bytes → Str

pub data AuditError : Type 0 where
  audit_serialize audit_write audit_flush audit_scan audit_read audit_deserialize : AuditError
  no_entries_since_anchor : AuditError

unfoldable pub seen : List Bytes → Bytes → Bool
seen [] nonce = false
seen (n ∷ ns) nonce = bytes_eq n nonce || seen ns nonce

abbrev pub nonce_cap : ℕ
nonce_cap = 100000

module _ (env : Env) where
  open env use {sled, sha3_256, event_to_json, entry_to_json, entry_of_json, hex_encode}

  pub record AuditLog : Type 0 where
    pub db : sled.Db
    pub head_hash : Bytes
    pub next_sequence : ℕ
    pub issuer_id : Str
    pub seen_nonces : List Bytes
    pub merkle_leaves : List Bytes
    pub last_merkle_root : Option Bytes
    pub last_anchor_sequence : ℕ

  -- `serde_json::to_vec(event).unwrap_or_default()`
  unfoldable pub event_bytes : AuditEventType → Bytes
  event_bytes event = elim (event_to_json event) [ none ↦ [] | some j ↦ j ]

  -- SHA3-256(prev_hash || timestamp || sequence || event)
  unfoldable pub hash_input : Bytes → AuditEventType → ℕ → ℕ → Bytes
  hash_input prev_hash event timestamp_ns sequence =
      concat (prev_hash ∷ to_be 8 timestamp_ns ∷ to_be 8 sequence ∷ event_bytes event ∷ [])

  unfoldable pub compute_hash : Bytes → AuditEventType → ℕ → ℕ → Bytes
  compute_hash prev_hash event timestamp_ns sequence =
      sha3_256 (hash_input prev_hash event timestamp_ns sequence)

  -- The hash and number that the last stored entry leaves for the next one.
  unfoldable pub chain_state : Option (Bytes × Bytes) → Result AuditError (Bytes × ℕ)
  chain_state none = ok (zero_hash, 0)
  chain_state (some (k, v)) = elim (entry_of_json v) [
    | none ↦ err audit_deserialize
    | some entry ↦ ok (entry.hash, wrap64 (entry.sequence + 1))
  ]

  -- `db.iter().flatten()`, and the entries that can be read: errors and unreadable ones are skipped.
  unfoldable pub readable : List (Option (Bytes × Bytes)) → List AuditEntry
  readable [] = []
  readable (none ∷ items) = readable items
  readable (some (k, v) ∷ items) =
      let rest = readable items in
      elim (entry_of_json v) [ none ↦ rest | some entry ↦ entry ∷ rest ]

  unfoldable pub hashes : List AuditEntry → List Bytes
  hashes [] = []
  hashes (e ∷ es) = e.hash ∷ hashes es

  unfoldable pub open_with :
      sled.Db → Str → Result AuditError (Bytes × ℕ) → Result AuditError AuditLog
  open_with db issuer_id (err e) = err e
  open_with db issuer_id (ok (head_hash, next_sequence)) = ok (record {
    db = db;
    head_hash = head_hash;
    next_sequence = next_sequence;
    issuer_id = issuer_id;
    seen_nonces = [];
    merkle_leaves = hashes (readable (sled.iter db));
    last_merkle_root = none;
    last_anchor_sequence = 0;
  })

  -- `db` is what `sled::open` returned.
  unfoldable pub open_log : sled.Db → Str → Result AuditError AuditLog
  open_log db issuer_id = elim (sled.last db) [
    | none ↦ err audit_scan
    | some last ↦ open_with db issuer_id (chain_state last)
  ]

  -- The entry that the log appends next.
  unfoldable pub next_entry : AuditLog → ℕ → AuditEventType → AuditEntry
  next_entry log timestamp_ns event = record {
    sequence = log.next_sequence;
    prev_hash = log.head_hash;
    hash = compute_hash log.head_hash event timestamp_ns log.next_sequence;
    timestamp_ns = timestamp_ns;
    event = event;
    issuer_id = log.issuer_id;
  }

  -- The in-memory state moves on only when the entry is stored and flushed. A failed flush leaves
  -- the entry in the database.
  unfoldable pub append : AuditLog → ℕ → AuditEventType → AuditLog × Result AuditError Bytes
  append log timestamp_ns event =
      let entry = next_entry log timestamp_ns event in
      elim (entry_to_json entry) [
        | none ↦ (log, err audit_serialize)
        | some entry_bytes ↦ elim (sled.insert log.db (to_be 8 log.next_sequence) entry_bytes) [
          | none ↦ (log, err audit_write)
          | some db ↦ if not (sled.flush db) then (record log { db = db }, err audit_flush) else (
            record log {
              db = db;
              head_hash = entry.hash;
              next_sequence = wrap64 (log.next_sequence + 1);
              merkle_leaves = log.merkle_leaves ++ entry.hash ∷ [];
            },
            ok entry.hash,
          )
        ]
      ]

  -- The walk of `verify_chain` from a link and a count.
  unfoldable pub walk : List (Option (Bytes × Bytes)) → Bytes → ℕ → Result AuditError (ℕ × Option ℕ)
  walk [] prev_hash count = ok (count, none)
  walk (none ∷ items) prev_hash count = err audit_read
  walk (some (k, v) ∷ items) prev_hash count = elim (entry_of_json v) [
    | none ↦ err audit_deserialize
    | some entry ↦
        let rest = walk items entry.hash (wrap64 (count + 1)) in
        if not (bytes_eq entry.prev_hash prev_hash)
        then ok (count, some entry.sequence)
        else if not (
            bytes_eq entry.hash
              (compute_hash entry.prev_hash entry.event entry.timestamp_ns entry.sequence))
        then ok (count, some entry.sequence)
        else rest
  ]

  unfoldable pub verify_chain : AuditLog → Result AuditError (ℕ × Option ℕ)
  verify_chain log = walk (sled.iter log.db) zero_hash 0

  unfoldable pub event_key : AuditEventType → Option Str
  event_key (state_transition k _ _ _ _) = some k
  event_key (verification_performed k _ _ _ _ _) = some k
  event_key (verification_failed k _) = some k
  event_key (entry_created k _ _ _) = some k
  event_key (entry_deleted k) = some k
  event_key _ = none

  unfoldable pub about_key : Str → AuditEntry → Bool
  about_key key e = elim (event_key e.event) [ none ↦ false | some k ↦ bytes_eq k key ]

  unfoldable pub keep_key : Str → List AuditEntry → List AuditEntry
  keep_key key [] = []
  keep_key key (e ∷ es) = let rest = keep_key key es in if about_key key e then e ∷ rest else rest

  unfoldable pub key_history : AuditLog → Str → List AuditEntry
  key_history log key = keep_key key (readable (sled.iter log.db))

  unfoldable pub export_all : AuditLog → List AuditEntry
  export_all log = readable (sled.iter log.db)

  -- The set is kept without repetitions, its newest nonce first.
  unfoldable pub check_nonce : AuditLog → Bytes → AuditLog × Bool
  check_nonce log nonce = if seen log.seen_nonces nonce then (log, false) else (
    record log {
      seen_nonces =
          if ltb nonce_cap (length (nonce ∷ log.seen_nonces))
          then nonce ∷ []
          else nonce ∷ log.seen_nonces;
    },
    true,
  )

  -- One level: `chunks(2)`, an odd last hash paired with itself.
  unfoldable pub next_level : List Bytes → List Bytes
  next_level [] = []
  next_level (a ∷ []) = sha3_256 (a ++ a) ∷ []
  next_level (a ∷ b ∷ rest) = sha3_256 (a ++ b) ∷ next_level rest

  -- `while current_level.len() > 1`, on fuel; `none` is fuel run out.
  unfoldable pub climb : ℕ → List Bytes → Option Bytes
  climb fuel [] = none
  climb fuel (a ∷ []) = some a
  climb zero (a ∷ b ∷ rest) = none
  climb (suc fuel) (a ∷ b ∷ rest) = climb fuel (next_level (a ∷ b ∷ rest))

  unfoldable pub merkle_root : List Bytes → Option Bytes
  unfolding climb next_level
  merkle_root [] = some zero_hash
  merkle_root (a ∷ rest) = climb (length rest) (a ∷ rest)

  -- The anchor's event, and the log after it. A failed append leaves the anchor as it was.
  unfoldable pub record_anchor :
      Bytes → AuditLog × Result AuditError Bytes → AuditLog × Result AuditError Bytes
  record_anchor root (log', err e) = (log', err e)
  record_anchor root (log', ok _) = (
    record log' { last_merkle_root = some root; last_anchor_sequence = log'.next_sequence },
    ok root,
  )

  abbrev pub leaves_since_anchor : AuditLog → List Bytes
  leaves_since_anchor log = drop log.last_anchor_sequence log.merkle_leaves

  unfoldable pub anchor_event : AuditLog → Bytes → AuditEventType
  anchor_event log root =
      merkle_anchor (hex_encode root) log.last_anchor_sequence (log.next_sequence - 1)
        (length (leaves_since_anchor log))

  unfoldable pub anchor_root : AuditLog → ℕ → Option Bytes → AuditLog × Result AuditError Bytes
  anchor_root log timestamp_ns none = (log, err no_entries_since_anchor)
  anchor_root log timestamp_ns (some root) =
      record_anchor root (append log timestamp_ns (anchor_event log root))

  unfoldable pub compute_merkle_anchor : AuditLog → ℕ → AuditLog × Result AuditError Bytes
  compute_merkle_anchor log timestamp_ns = elim (leaves_since_anchor log) [
    | [] ↦ (log, err no_entries_since_anchor)
    | a ∷ rest ↦ anchor_root log timestamp_ns (merkle_root (a ∷ rest))
  ]

  unfoldable pub last_anchor : AuditLog → Option Bytes
  last_anchor log = log.last_merkle_root

  unfoldable pub len : AuditLog → ℕ
  len log = log.next_sequence

  unfoldable pub is_empty : AuditLog → Bool
  is_empty log = log.next_sequence == 0

  unfoldable pub head : AuditLog → Bytes
  head log = log.head_hash
