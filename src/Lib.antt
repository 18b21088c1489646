-- ===== src/Lib.antt =====
-- cachee-cli: a cache of computation results that are signed under three post-quantum families,
-- carry a fingerprint of their computation and a lifecycle state, and leave a hash-chained log.
--
-- The program's parts, and where they are modelled (paths from the repository's root):
--   src/archive.rs     a bundle is a primitive of 58 bytes, keys, signatures, an anchor and a
--                      fingerprint, with a wire format and a verdict: Archive/Types (data),
--                      Archive/Wire (`read_u16` ... as functions of the bytes and the position),
--                      Archive/Primitive, Archive/Fingerprint, Archive/Bundle (`serialize`,
--                      `deserialize`), Archive/Verify (`verify`).
--   src/crypto.rs      the check of a signature under a family: Crypto. `verify` calls it.
--   src/lifecycle.rs   entry states, authorities, validity: Lifecycle.
--   src/trust.rs       verification modes and the policy on their changes: Trust.
--   src/cache_slot.rs  a slot holds a value, its fingerprint and its state; `transition` moves it
--                      along the lifecycle and `detect_conflict` compares a write with it: CacheSlot.
--   src/keys.rs        the scopes of regulator keys: Keys.
--   src/federation.rs  whether a bundle of another node is accepted, by `verify` and the trust
--                      boundary: Federation.
--   src/audit.rs       the log: entries chained by hash in a database, nonces, Merkle anchors: Audit,
--                      and for its proofs Audit/Chain, Log, Merkle, Anchors, Nonces,
--                      Tampering.
--   src/content_store.rs  bundles in a database under their content addresses: ContentStore.
--   src/read_contract.rs  what a verified read returns: ReadContract.
--   src/pq_keys.rs     key sets, their files, signing and rotation: PqKeys, with PqKeys/Files and
--                      PqKeys/Rotation.
--   src/config.rs      the configuration and its defaults: Config.
--   src/security.rs    the texts of API key files and of the identity file: Security, with
--                      Security/Revoking (`auth_revoke`) and Security/Tls.
--   src/attest.rs      the switch of the attestation: Attest.
--   src/data.rs        `flush`, `dump` and `restore`: Client/Data.
--   src/daemon.rs      a server of commands over an engine, a registry of slots, the content store
--                      and the audit log. Daemon/World (the shared state), Protocol (commands and
--                      replies), Reads and Writes (one function for each command), Commands
--                      (`handle_resp`), Bundles (`slot_to_bundle`), Verified (`get_verified`),
--                      Connection (`handle_auth` and one turn of the loop: quota, revocation,
--                      permissions, command; its answers as text in Connection/Answers), KeyFiles (`load_api_keys`, the cold start), Quota and
--                      Flusher (the counter of a key, and its reports to the server, as
--                      interleavings of atomic operations), Printing (the replies as RESP),
--                      Processes (`stop`), and Engines (the engine as a map that may forget).
--   src/bin/verify.rs  the standalone verifier, with its exit codes: VerifyCli.
--   src/resp.rs        the command line's client: the texts of its requests and how it reads the
--                      replies: Client; Client/Session sets its requests against the daemon.
--   src/signup.rs      the account's files: Signup, with Signup/Pending and Signup/Account.
--   src/plan.rs        `upgrade`, `sync`, and what `usage` reads: PlanCommands.
--   src/diagnostics.rs  `doctor` and the tail of `logs`: Diagnostics.
--   Base holds the shared helpers, Sled the interface of the database, Examples concrete crates and
--   data with the tests.
--
-- Conventions. A byte is a natural number, a fixed-size array a list whose length a hypothesis
-- states, a `String` its UTF-8 bytes; sums of 64-bit counters and casts to 16 and 32 bits wrap.
-- `&mut self` is a state that goes in and comes out. An error message is a constructor with the
-- values that the message prints. A clock reading is an argument.
--
-- Parameters. `sha3`, `serde_json`, `hex`, the three `pqcrypto` crates and `sled` are records of
-- functions (Codecs, PqCrypto, Env, Sled); `SledLaws` states that a `sled` tree is an ordered map
-- whose reads see the writes. Where a theorem needs that a hash does not collide, or that an identity
-- or an entry survives JSON, it says so. The operating system (System), the server's answers and
-- TOML (Toml, with TomlLaws: what is printed is read back) are arguments of the commands. So is how
-- the calls of the file system end (Write and Disk in Signup): a write that fails leaves whatever it
-- leaves in the file. The TLS files of Security/Tls are taken to be written.
--
-- The flusher. How a request to the server ends is an argument of its step: with a success, without
-- one though the server accepted it, or not accepted (Sent in Daemon/Flusher); a success means that
-- the server accepted it. The flusher sees the first alone as a success, and adds the operations back
-- after the other two.
--
-- Fuel. The loop of `merkle_root` runs on one unit of fuel for each leaf after the first; a level
-- halves the list, so that the loop ends before the fuel does. The digits of a number are printed on
-- fuel 20, enough for 64 bits: what is printed is read back. The 60 polls of `upgrade` are the
-- source's. No other loop needs fuel.
--
-- Steps. A command runs as one step on the shared state. The source takes the locks one after the
-- other, so that commands of other connections may come between in a run of the program, and the
-- theorems on sequences of commands are about commands that are carried out whole, one after the
-- other. Daemon/Commands/Overlaps takes SET and DEL apart into the steps between their locks and lets
-- those for different keys come between each other. Daemon/Commands/Races writes out the steps of a SET and a DEL that come between each other,
-- after which a key is in the engine without a slot. An input is what one read of the socket
-- returns. A reply that is absent is a panic of the connection's task.
--
-- Clients. In Client/Session every request goes over a new connection and through all checks of the
-- daemon (`serve`), and its answer is printed as Daemon/Connection/Answers says. A request and a
-- reply arrive whole, in one read each; the buffers' sizes are the source's. The engine is a
-- parameter: EngineLaws states that a read returns nothing or what the engine holds, and that a
-- call leaves each key with nothing or with what a map would hold.
--
-- Not modelled: of src/daemon.rs the start of the listeners, `status`, the metrics, and the HTTP of the
-- flusher; the exports of src/content_store.rs, which write files; the prices and bills of
-- src/plan.rs, which are floating-point text; the sockets of src/resp.rs, and its reading of a time to
-- live; `info`, `metrics`, `export` and the templates of src/diagnostics.rs; the types without
-- operations of src/storage.rs, src/cache_api.rs and src/observability.rs; the command line,
-- benchmarks and demos, which print and measure.
-- `to_uppercase` is modelled as far as a comparison with ASCII words tells.
pub mod Base
pub mod Crypto
pub mod Archive
pub mod Lifecycle
pub mod Trust
pub mod CacheSlot
pub mod ReadContract
pub mod PqKeys
pub mod Security
pub mod Signup
pub mod PlanCommands
pub mod Diagnostics
pub mod Attest
pub mod Config
pub mod Keys
pub mod Federation
pub mod Daemon
pub mod VerifyCli
pub mod Client
pub mod Sled
pub mod ContentStore
pub mod Audit
pub mod Examples
