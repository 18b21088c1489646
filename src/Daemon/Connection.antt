-- ===== src/Daemon/Connection.antt =====
-- A connection of src/daemon.rs: authentication, the quota, revocation, permissions, and then the
-- command. One input is one step; the atomic operations on a counter stand in Daemon/Quota.antt.
pub mod Refusals
pub mod Answers
pub mod ReadCommands
pub mod Permissions
use cachee_cli.Base.{
  ℕ, ◌+◌, ◌-◌, ◌^◌, Bytes, Str, Bool, true, false, not, ◌&&◌, ◌||◌, Option, none, some, List, [],
  ◌∷◌, if◌then◌else◌, ltb, leb, bytes_eq, ascii, wrap64, upper, eq_ignore_ascii_case, contains_text,
  find_key, put_key,
}
use cachee_cli.Daemon.World.{World, Settings, Clock, Shared}
use cachee_cli.Daemon.Protocol.{Reply, words_of}
use cachee_cli.Daemon.Commands.{handle_resp}

pub record ApiKeyEntry : Type 0 where
  pub key_id : Str
  pub label : Str
  pub permissions : Str
  pub ops_limit : ℕ

unfoldable pub can_read : ApiKeyEntry → Bool
can_read e =
    contains_text e.permissions (ascii "read") || contains_text e.permissions (ascii "admin")

unfoldable pub can_write : ApiKeyEntry → Bool
can_write e =
    contains_text e.permissions (ascii "write") || contains_text e.permissions (ascii "admin")

unfoldable pub can_admin : ApiKeyEntry → Bool
can_admin e = contains_text e.permissions (ascii "admin")

pub record ConnState : Type 0 where
  pub authenticated : Bool
  pub key_entry : Option ApiKeyEntry
  pub key_hash : Option Bytes

-- The state of a new connection.
unfoldable pub new_connection : Bool → ConnState
new_connection require_auth = record {
  authenticated = not require_auth;
  key_entry = none;
  key_hash = none;
}

abbrev pub logged_out : ConnState
logged_out = record { authenticated = false; key_entry = none; key_hash = none }

-- What is written to the socket.
pub data Answer : Type 0 where
  auth_needs_key invalid_key pong no_auth revoked no_write no_admin panic : Answer
  authenticated_as : ApiKeyEntry → Answer
  -- current, ops_limit
  quota_exceeded : ℕ → ℕ → Answer
  reply : Reply → Answer

abbrev pub ApiKeyRegistry : Type 0
ApiKeyRegistry = List (Bytes × ApiKeyEntry)

abbrev pub OpsCounters : Type 0
OpsCounters = List (Bytes × ℕ)

unfoldable pub handle_auth :
    (Bytes → Bytes) → List Str → ApiKeyRegistry → ConnState → ConnState × Answer
handle_auth sha3_256 (name ∷ secret ∷ rest) registry conn =
    elim (find_key (sha3_256 secret) registry) [
      | none ↦ (logged_out, invalid_key)
      | some entry ↦ (
        record { authenticated = true; key_entry = some entry; key_hash = some (sha3_256 secret) },
        authenticated_as entry,
      )
    ]
handle_auth sha3_256 _ registry conn = (conn, auth_needs_key)

abbrev pub or_zero : Option ℕ → ℕ
or_zero none = 0
or_zero (some n) = n

-- `fetch_add`, and `fetch_sub` past the limit: the counters, and the refusal.
unfoldable pub charge_key : ApiKeyEntry → OpsCounters → OpsCounters × Option Answer
charge_key entry counters =
    let current = or_zero (find_key entry.key_id counters) in
    let added = wrap64 (current + 1) in
    if leb entry.ops_limit current
    then (
      put_key entry.key_id (wrap64 (added + (2 ^ 64 - 1))) counters,
      some (quota_exceeded current entry.ops_limit),
    )
    else (put_key entry.key_id added counters, none)

unfoldable pub check_quota : Option ApiKeyEntry → OpsCounters → OpsCounters × Option Answer
unfolding charge_key
check_quota none counters = (counters, none)
check_quota (some entry) counters =
    if ltb 0 entry.ops_limit then charge_key entry counters else (counters, none)

-- The key is still in the registry.
unfoldable pub still_valid : Bool → Option Bytes → ApiKeyRegistry → Bool
still_valid require_auth none registry = true
still_valid require_auth (some hash) registry = elim (find_key hash registry) [
  | none ↦ not require_auth
  | some e ↦ true
]

abbrev pub first_word : List Str → Str
first_word [] = []
first_word (p ∷ parts) = p

abbrev pub needs_write : Str → Bool
needs_write cmd =
    bytes_eq cmd (ascii "SET")
    || bytes_eq cmd (ascii "DEL")
    || bytes_eq cmd (ascii "INVALIDATE")
    || bytes_eq cmd (ascii "SUPERSEDE")
    || bytes_eq cmd (ascii "FLUSH")

abbrev pub needs_admin : Str → Bool
needs_admin cmd =
    bytes_eq cmd (ascii "AUDITLOG")
    || bytes_eq cmd (ascii "AUDITVERIFY")
    || bytes_eq cmd (ascii "AUDITANCHOR")

-- The refusal of a command that the key may not give.
unfoldable pub check_permission : Bool → Option ApiKeyEntry → Str → Option Answer
check_permission require_auth none cmd = none
check_permission require_auth (some entry) cmd =
    if require_auth && needs_write cmd && not (can_write entry)
    then some no_write
    else if require_auth && needs_admin cmd && not (can_admin entry) && not (can_write entry)
    then some no_admin
    else none

abbrev pub is_command : List Str → Str → Bool
is_command [] name = false
is_command (p ∷ parts) name = eq_ignore_ascii_case p name

module _ (w : World) where
  pub record Server : Type 0 where
    pub shared : Shared w
    pub registry : ApiKeyRegistry
    pub counters : OpsCounters

  module _ (settings : Settings) (require_auth : Bool) where
    abbrev pub answered : Option Reply → Answer
    answered none = panic
    answered (some r) = reply r

    -- `handle_resp`, and the answer.
    unfoldable pub execute : Clock → Bytes → Server → ConnState → Server × ConnState × Answer
    execute clock input server conn =
        let (shared, r) = handle_resp w settings clock input server.shared in
        (record server { shared = shared }, conn, answered r)

    -- After the quota: revocation, permission, and the command.
    unfoldable pub serve_admitted : Clock → Bytes → Server → ConnState → Server × ConnState × Answer
    unfolding execute
    serve_admitted clock input server conn =
        if not (still_valid require_auth conn.key_hash server.registry)
        then (server, logged_out, revoked)
        else elim (check_permission require_auth conn.key_entry
            (upper (first_word (words_of input)))) [
              | some refusal ↦ (server, conn, refusal)
              | none ↦ execute clock input server conn
            ]

    unfoldable pub serve_charged :
        Clock
        → Bytes
        → Server
        → ConnState
        → OpsCounters × Option Answer
        → Server × ConnState × Answer
    unfolding serve_admitted
    serve_charged clock input server conn (counters, some refusal) =
        (record server { counters = counters }, conn, refusal)
    serve_charged clock input server conn (counters, none) =
        serve_admitted clock input (record server { counters = counters }) conn

    unfoldable pub serve_authenticated :
        Clock → Bytes → Server → ConnState → Server × ConnState × Answer
    unfolding serve_charged
    serve_authenticated clock input server conn =
        serve_charged clock input server conn (check_quota conn.key_entry server.counters)

    -- One turn of the connection's loop.
    unfoldable pub serve : Clock → Bytes → Server → ConnState → Server × ConnState × Answer
    unfolding serve_authenticated handle_auth
    serve clock input server conn =
        let parts = words_of input in
        if is_command parts (ascii "AUTH")
        then (
          server,
          (handle_auth w.codecs.sha3_256 parts server.registry conn).0,
          (handle_auth w.codecs.sha3_256 parts server.registry conn).1,
        )
        else if is_command parts (ascii "PING")
        then (server, conn, pong)
        else if not conn.authenticated
        then (server, conn, no_auth)
        else serve_authenticated clock input server conn

    -- The turns of one connection. A panic ends its task.
    unfoldable pub serve_all : List (Clock × Bytes) → Server → ConnState → Server × ConnState
    unfolding serve
    serve_all [] server conn = (server, conn)
    serve_all ((clock, input) ∷ inputs) server conn =
        let (next, state, answer) = serve clock input server conn in
        let rest = serve_all inputs next state in elim answer [ panic ↦ (next, state) | _ ↦ rest ]
