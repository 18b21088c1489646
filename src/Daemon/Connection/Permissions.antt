-- ===== src/Daemon/Connection/Permissions.antt =====
-- What the permissions of the registered keys hold a connection to.
use cachee_cli.Base.{
  Bytes, Str, true, false, not, Option, none, some, List, [], ◌∷◌, ◌≡◌, ◌⊎◌, refl, sym, ◌∙◌, inl,
  inr, Bool-cases, Option-cases, find_key, ascii, upper,
}
use mathlib.Core.Path.{subst}
use cachee_cli.Daemon.World.{World, Settings, Clock}
use cachee_cli.Daemon.Protocol.{command_of, words_of}
use cachee_cli.Daemon.Commands.{handle_resp}
use cachee_cli.Daemon.Commands.Kept.{dispatch-Kept}
use cachee_cli.Daemon.Connection.{
  ApiKeyEntry, ConnState, Answer, panic, ApiKeyRegistry, OpsCounters, Server, handle_auth,
  needs_write, first_word, can_write, check_permission, check_quota, still_valid, execute,
  serve_admitted, serve_charged, serve_authenticated, serve, serve_all, is_command,
}
use cachee_cli.Daemon.Connection.ReadCommands.{command-Reading}

permitted :
    (e : ApiKeyEntry) (cmd : Str)
    → check_permission true (some e) cmd ≡ none
    → can_write e ≡ false
    → needs_write cmd ≡ false
unfolding check_permission
permitted e cmd h reader = elim (Bool-cases (needs_write cmd)) [
  | inr free ↦ free
  | inl writes ↦ absurd (cc (rw (check_permission, writes, reader) at h))
]

-- No registered key may write.
abbrev pub NoWriter : ApiKeyRegistry → Type 0
NoWriter registry =
    (h : Bytes) (e : ApiKeyEntry) → find_key h registry ≡ some e → can_write e ≡ false

abbrev pub Limited : ConnState → Type 0
Limited conn =
    (conn.authenticated ≡ false)
    ⊎ ((e : ApiKeyEntry) × (conn.key_entry ≡ some e) × (can_write e ≡ false))

auth-Limited :
    (sha3_256 : Bytes → Bytes) (parts : List Str) (registry : ApiKeyRegistry) (conn : ConnState)
    → NoWriter registry
    → Limited conn
    → Limited (handle_auth sha3_256 parts registry conn).0
unfolding handle_auth
auth-Limited sha3_256 [] registry conn no_writer l = l
auth-Limited sha3_256 (name ∷ []) registry conn no_writer l = l
auth-Limited sha3_256 (name ∷ secret ∷ rest) registry conn no_writer l =
    elim (Option-cases (find_key (sha3_256 secret) registry)) [
      | inl unknown ↦ rw (handle_auth, unknown) (inl refl)
      | inr (e, found) ↦ rw (handle_auth, found) (inr (e, refl, no_writer _ e found))
    ]

module _ (w : World) (settings : Settings) where
  abbrev pub server_of : Server w × ConnState × Answer → Server w
  server_of (server, conn, answer) = server

  abbrev pub conn_of : Server w × ConnState × Answer → ConnState
  conn_of (server, conn, answer) = conn

  -- The same entries, bundles and keys as before, and a connection that may still not write.
  record Harmless (server after : Server w) (conn : ConnState) : Type 0 where
    slots : after.shared.slots ≡ server.shared.slots
    store : after.shared.store ≡ server.shared.store
    registry : after.registry ≡ server.registry
    limited : Limited conn

  abbrev Turn : Server w → Server w × ConnState × Answer → Type 0
  Turn server out = Harmless server (server_of out) (conn_of out)

  execute-Harmless :
      (clock : Clock) (input : Bytes) (server : Server w) (conn : ConnState) (e : ApiKeyEntry)
      → conn.key_entry ≡ some e
      → can_write e ≡ false
      → check_permission true (some e) (upper (first_word (words_of input))) ≡ none
      → Turn server (execute w settings true clock input server conn)
  unfolding execute handle_resp
  execute-Harmless clock input server conn e has reader free =
      let r = command-Reading (words_of input) (permitted e _ free reader) in
      let k = dispatch-Kept w settings clock (command_of (words_of input)) server.shared r.reads in
      record { slots = k.0; store = k.1; registry = refl; limited = inr (e, has, reader) }

  admitted-Harmless :
      (clock : Clock) (input : Bytes) (server : Server w) (conn : ConnState) (e : ApiKeyEntry)
      → conn.key_entry ≡ some e
      → can_write e ≡ false
      → Turn server (serve_admitted w settings true clock input server conn)
  unfolding serve_admitted
  admitted-Harmless clock input server conn e has reader =
      elim (Bool-cases (still_valid true conn.key_hash server.registry)) [
        | inr gone ↦
            rw (serve_admitted, gone)
              (record { slots = refl; store = refl; registry = refl; limited = inl refl })
        | inl valid ↦
            elim (Option-cases
              (check_permission true (some e) (upper (first_word (words_of input))))) [
                | inr (refusal, refused) ↦
                    rw (serve_admitted, valid, has, refused)
                      (record {
                        slots = refl;
                        store = refl;
                        registry = refl;
                        limited = inr (e, has, reader);
                      })
                | inl free ↦
                    rw (serve_admitted, valid, has, free)
                      (execute-Harmless clock input server conn e has reader free)
              ]
      ]

  charged-Harmless :
      (clock : Clock) (input : Bytes) (server : Server w) (conn : ConnState) (e : ApiKeyEntry)
      (counters : OpsCounters) (refusal : Option Answer)
      → conn.key_entry ≡ some e
      → can_write e ≡ false
      → Turn server (serve_charged w settings true clock input server conn (counters, refusal))
  unfolding serve_charged
  charged-Harmless clock input server conn e counters (some refusal) has reader = record {
    slots = refl;
    store = refl;
    registry = refl;
    limited = inr (e, has, reader);
  }
  charged-Harmless clock input server conn e counters none has reader =
      let charged : Server w = record server { counters = counters } in
      let h = admitted-Harmless clock input charged conn e has reader in
      record { slots = h.slots; store = h.store; registry = h.registry; limited = h.limited }

  authenticated-Harmless :
      (clock : Clock) (input : Bytes) (server : Server w) (conn : ConnState)
      → not conn.authenticated ≡ false
      → Limited conn
      → Turn server (serve_authenticated w settings true clock input server conn)
  unfolding serve_authenticated
  authenticated-Harmless clock input server conn is (inl out) = absurd (cc (rw out at is))
  authenticated-Harmless clock input server conn is (inr (e, has, reader)) =
      let q = check_quota conn.key_entry server.counters in
      charged-Harmless clock input server conn e q.0 q.1 has reader

  serve-Harmless :
      (clock : Clock) (input : Bytes) (server : Server w) (conn : ConnState)
      → NoWriter server.registry
      → Limited conn
      → Turn server (serve w settings true clock input server conn)
  unfolding serve
  serve-Harmless clock input server conn no_writer l =
      let parts = words_of input in
      elim (Bool-cases (is_command parts (ascii "AUTH"))) [
        | inl auth ↦
            rw (serve, auth)
              (record {
                slots = refl;
                store = refl;
                registry = refl;
                limited = auth-Limited w.codecs.sha3_256 parts server.registry conn no_writer l;
              })
        | inr no_auth ↦ elim (Bool-cases (is_command parts (ascii "PING"))) [
          | inl ping ↦
              rw (serve, no_auth, ping)
                (record { slots = refl; store = refl; registry = refl; limited = l })
          | inr no_ping ↦ elim (Bool-cases (not conn.authenticated)) [
            | inl out ↦
                rw (serve, no_auth, no_ping, out)
                  (record { slots = refl; store = refl; registry = refl; limited = l })
            | inr is ↦
                rw (serve, no_auth, no_ping, is)
                  (authenticated-Harmless clock input server conn is l)
          ]
        ]
      ]

  abbrev Untouched : Server w → Server w × ConnState → Type 0
  Untouched server (after, conn) =
      (after.shared.slots ≡ server.shared.slots) × (after.shared.store ≡ server.shared.store)

  -- What follows a turn, by its answer.
  go_on :
      (inputs : List (Clock × Bytes)) (server : Server w) (out : Server w × ConnState × Answer)
      → Turn server out
      → Untouched (server_of out) (serve_all w settings true inputs (server_of out) (conn_of out))
      → Untouched server (elim out.2 [
        | panic ↦ (server_of out, conn_of out)
        | _ ↦ serve_all w settings true inputs (server_of out) (conn_of out)
      ])
  go_on inputs server (next, conn, panic) t u = (t.slots, t.store)
  go_on inputs server (next, conn, _) t u = (u.0 ∙ t.slots, u.1 ∙ t.store)

  serve_all-Untouched :
      (inputs : List (Clock × Bytes)) (server : Server w) (conn : ConnState)
      → NoWriter server.registry
      → Limited conn
      → Untouched server (serve_all w settings true inputs server conn)
  unfolding serve_all
  serve_all-Untouched [] server conn no_writer l = (refl, refl)
  serve_all-Untouched ((clock, input) ∷ inputs) server conn no_writer l =
      let t = serve-Harmless clock input server conn no_writer l in
      let out = serve w settings true clock input server conn in
      go_on inputs server out t (
        serve_all-Untouched inputs (server_of out) (conn_of out)
          (subst NoWriter (sym t.registry) no_writer) t.limited)

  -- With authentication required, and no registered key that may write, a connection that is not yet
  -- authenticated leaves the entries and the stored bundles as they are, whatever it sends.
  pub serve_all-NoWriter :
      (inputs : List (Clock × Bytes)) (server : Server w) (conn : ConnState)
      → NoWriter server.registry
      → conn.authenticated ≡ false
      → ((serve_all w settings true inputs server conn).0.shared.slots ≡ server.shared.slots)
        × ((serve_all w settings true inputs server conn).0.shared.store ≡ server.shared.store)
  serve_all-NoWriter inputs server conn no_writer out =
      serve_all-Untouched inputs server conn no_writer (inl out)
