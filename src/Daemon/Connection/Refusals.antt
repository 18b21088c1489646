-- ===== src/Daemon/Connection/Refusals.antt =====
-- When a connection refuses a command, and when it carries it out.
use cachee_cli.Base.{
  ℕ, ◌<◌, Bytes, Str, Bool, true, false, Option, none, some, ◌≡◌, ◌⊎◌, refl, inl, inr, arith,
  Bool-cases, find_key, put_key, ◌+◌, ascii, wrap64, ltb, leb, upper,
}
use cachee_cli.Daemon.World.{World, Settings, Clock}
use cachee_cli.Daemon.Protocol.{words_of}
use cachee_cli.Daemon.Commands.{handle_resp}
use cachee_cli.Daemon.Connection.{
  ApiKeyEntry, ConnState, Answer, OpsCounters, Server, quota_exceeded, revoked, is_command,
  first_word, or_zero, can_write, still_valid, check_permission, charge_key, check_quota, answered,
  execute, serve_admitted, serve_charged, serve_authenticated, serve, logged_out, new_connection,
}
use cachee_cli.Daemon.Connection.Permissions.{server_of, conn_of}

-- Neither AUTH nor PING.
abbrev pub Ordinary : Bytes → Type 0
Ordinary input =
    (is_command (words_of input) (ascii "AUTH") ≡ false)
    × (is_command (words_of input) (ascii "PING") ≡ false)

-- The key has no limit, or its counter is below it.
abbrev pub HasQuota : ApiKeyEntry → OpsCounters → Type 0
HasQuota e counters = (e.ops_limit ≡ 0) ⊎ (or_zero (find_key e.key_id counters) < e.ops_limit)

check_quota-HasQuota :
    (e : ApiKeyEntry) (counters : OpsCounters)
    → HasQuota e counters
    → (after : OpsCounters) × (check_quota (some e) counters ≡ (after, none))
unfolding check_quota charge_key
check_quota-HasQuota e counters (inl unlimited) = (counters, rw unlimited refl)
check_quota-HasQuota e counters (inr below) =
    let has_limit : ltb 0 e.ops_limit ≡ true = ground (arith, below) in
    let admits : leb e.ops_limit (or_zero (find_key e.key_id counters)) ≡ false =
      ground (arith, below) in
    let current = or_zero (find_key e.key_id counters) in
    (put_key e.key_id (wrap64 (current + 1)) counters, rw (has_limit, admits) refl)

check_quota-refusal :
    (entry : Option ApiKeyEntry) (counters : OpsCounters)
    → ((check_quota entry counters).1 ≡ none)
      ⊎ ((n : ℕ) × (m : ℕ) × ((check_quota entry counters).1 ≡ some (quota_exceeded n m)))
unfolding check_quota charge_key
check_quota-refusal none counters = inl refl
check_quota-refusal (some e) counters = elim (Bool-cases (ltb 0 e.ops_limit)) [
  | inr unlimited ↦ inl (rw (check_quota, unlimited) refl)
  | inl limited ↦ elim (Bool-cases (leb e.ops_limit (or_zero (find_key e.key_id counters)))) [
    | inl over ↦ inr (
      or_zero (find_key e.key_id counters),
      e.ops_limit,
      rw (check_quota, limited, charge_key, over) refl,
    )
    | inr below ↦ inl (rw (check_quota, limited, charge_key, below) refl)
  ]
]

may_write :
    (e : ApiKeyEntry)
    → can_write e ≡ true
    → (require_auth : Bool) (cmd : Str) → check_permission require_auth (some e) cmd ≡ none
unfolding check_permission
may_write e h require_auth cmd = ground (arith, h)

module _ (w : World) (settings : Settings) where
  abbrev pub answer_of : Server w × ConnState × Answer → Answer
  answer_of (server, conn, answer) = answer

  serve-Ordinary :
      (clock : Clock) (input : Bytes) (server : Server w) (conn : ConnState)
      → Ordinary input
      → conn.authenticated ≡ true
      → serve w settings true clock input server conn
        ≡ serve_authenticated w settings true clock input server conn
  unfolding serve
  serve-Ordinary clock input server conn o is = rw (serve, o.0, o.1, is) refl

  -- A daemon that requires no authentication carries out the first command of a connection.
  pub serve-open :
      (clock : Clock) (input : Bytes) (server : Server w)
      → Ordinary input
      → serve w settings false clock input server (new_connection false)
        ≡ execute w settings false clock input server (new_connection false)
  unfolding serve serve_authenticated serve_charged serve_admitted check_quota still_valid
      check_permission new_connection
  serve-open clock input server o = rw (serve, o.0, o.1) refl

  -- An authenticated connection whose key is registered, may write, and is below its limit or has
  -- none, gets its command carried out: the answer is that of `handle_resp` on the input, and the
  -- shared state is the one that it leaves.
  pub serve-handle_resp :
      (clock : Clock) (input : Bytes) (server : Server w) (conn : ConnState) (hash : Bytes)
      (e registered : ApiKeyEntry)
      → Ordinary input
      → conn.authenticated ≡ true
      → conn.key_entry ≡ some e
      → conn.key_hash ≡ some hash
      → find_key hash server.registry ≡ some registered
      → can_write e ≡ true
      → HasQuota e server.counters
      → ((server_of w settings (serve w settings true clock input server conn)).shared
          ≡ (handle_resp w settings clock input server.shared).0)
        × (answer_of (serve w settings true clock input server conn)
            ≡ answered w settings true (handle_resp w settings clock input server.shared).1)
  unfolding serve_authenticated serve_charged serve_admitted still_valid execute
  serve-handle_resp clock input server conn hash e registered o is entry key found writer quota =
      let (counters, q) = check_quota-HasQuota e server.counters quota in
      let p = may_write e writer true (upper (first_word (words_of input))) in
      rw
        (
          serve-Ordinary clock input server conn o is,
          serve_authenticated,
          entry,
          q,
          serve_charged,
          serve_admitted,
          key,
          still_valid,
          found,
          entry,
          p,
        )
        (refl, refl)

  -- On an authenticated connection whose key has left the registry no command changes the shared
  -- state: the answer is the revocation, after which the connection is not authenticated, or that the
  -- quota is exceeded.
  pub serve-revoked :
      (clock : Clock) (input : Bytes) (server : Server w) (conn : ConnState) (hash : Bytes)
      → Ordinary input
      → conn.authenticated ≡ true
      → conn.key_hash ≡ some hash
      → find_key hash server.registry ≡ none
      → (let out = serve w settings true clock input server conn in
          ((server_of w settings out).shared ≡ server.shared)
          × (((answer_of out ≡ revoked) × (conn_of w settings out ≡ logged_out))
              ⊎ ((n : ℕ) × (m : ℕ) × (answer_of out ≡ quota_exceeded n m)
                  × (conn_of w settings out ≡ conn))))
  unfolding serve_authenticated serve_charged serve_admitted still_valid
  serve-revoked clock input server conn hash o is key gone =
      elim (check_quota-refusal conn.key_entry server.counters) [
        | inl within ↦
            rw
              (
                serve-Ordinary clock input server conn o is,
                serve_authenticated,
                within,
                serve_charged,
                serve_admitted,
                key,
                still_valid,
                gone,
              )
              (refl, inl (refl, refl))
        | inr (n, m, over) ↦
            rw
              (
                serve-Ordinary clock input server conn o is,
                serve_authenticated,
                over,
                serve_charged,
              )
              (refl, inr (n, m, refl, refl))
      ]
