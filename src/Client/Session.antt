-- ===== src/Client/Session.antt =====
-- The command line's client of src/resp.rs against the daemon of src/daemon.rs, each time on a new
-- connection. A request and a reply each arrive whole, in one read of the other side's buffer.
use cachee_cli.Base.{
  ℕ, ◌≤◌, Bytes, Str, Bool, List, false, eq_ignore_ascii_case, ascii_lower, Option, none, some, [],
  ◌∷◌, ◌++◌, ◌≡◌, ◌⊎◌, refl, sym, ap, ◌∙◌, inl, inr, arith, ascii, All, ok, take, length,
  length-append, take_all, from_utf8_lossy, join, crlf, find_key-put_key, upper, upper_from,
  upper_first, between, bytes_eq, bytes_eq_refl, Without, starts_with, contains_text, lossy_from,
  expect_next, lead,
}
use mathlib.Core.Path.{subst}
use cachee_cli.Archive.Types.{empty_fingerprint}
use cachee_cli.Archive.Fingerprint.{has_valid_hashes}
use cachee_cli.Trust.{trust_cached}
use cachee_cli.CacheSlot.{new_slot, has_valid_fingerprint}
use cachee_cli.Daemon.World.{World, Settings, Clock, Shared}
use cachee_cli.Daemon.Engines.{EngineLaws, Held, AllHeld, Held-trans, update}
use cachee_cli.Daemon.Protocol
use cachee_cli.Daemon.Protocol.{Reply, command_of, named, words_of}
use cachee_cli.Daemon.Printing.{Printer, print_reply, bulk_string}
use cachee_cli.Daemon.Connection.{
  Server, ConnState, Answer, new_connection, serve, execute, answered,
}
use cachee_cli.Daemon.Connection.Refusals.{Ordinary, serve-open}
use cachee_cli.Daemon.Connection.Answers.{print_answer}
use cachee_cli.Daemon.Reads.{handle_get}
use cachee_cli.Daemon.Writes.{set_ttl, persist, set_value, handle_set, set_arguments}
use cachee_cli.Daemon.Commands.{dispatch, handle_resp}
use cachee_cli.Daemon.Commands.Effects.{set_value-Written}
use cachee_cli.Client.{
  Output, ok_line, nil, payload, set_request, get_request, set_output, get_output,
}
use cachee_cli.Client.Requests.{
  Visible, Word, PlainWord, Word-Ascii, lossy-Ascii, words_of-join, set-Word,
  set_arguments-set_request,
}
use cachee_cli.Client.Replies.{get_output-bulk_string, bulk_string-Ascii, length-bulk_string}

Visible-Without : (s : Str) → All Visible s → Without 13 s
Visible-Without [] v = tt
Visible-Without (c ∷ s) v = (ground (arith, v.0), Visible-Without s v.1)

Word-Visible : (s : Str) → Word s → All Visible s
Word-Visible [] v = absurd v
Word-Visible (c ∷ s) v = v

module _ (w : World) (settings : Settings) (p : Printer) where
  -- The daemon after a turn, and what the client reads of the answer into `buf`.
  abbrev read_answer : ℕ → Server w × ConnState × Answer → Server w × Str
  read_answer buf (after, conn, answer) =
      (after, from_utf8_lossy (take buf (print_answer p answer)))

  -- What the client reads into `buf`, and the daemon afterwards: the daemon reads at most 4096 bytes
  -- and serves them on the new connection.
  unfoldable pub exchange : Bool → ℕ → Clock → Bytes → Server w → Server w × Str
  unfolding new_connection serve print_answer
  exchange require_auth buf clock request server =
      read_answer buf (
        serve w settings require_auth clock (take 4096 request) server
          (new_connection require_auth))

  -- `set` of src/resp.rs: the daemon afterwards, and what is printed.
  unfoldable pub client_set : Bool → Clock → Str → Str → Option Str → Server w → Server w × Output
  unfolding exchange
  client_set require_auth clock key value ttl server =
      let out = exchange require_auth 256 clock (set_request key value ttl) server in
      (out.0, set_output out.1)

  unfoldable pub client_get : Bool → Clock → Str → Server w → Server w × Output
  unfolding exchange
  client_get require_auth clock key server =
      let out = exchange require_auth 65536 clock (get_request key) server in
      (out.0, get_output out.1)

  -- What a reply is on the socket, on a connection that needs no key.
  abbrev printed : Option Reply → Str
  printed r = print_answer p (answered w settings false r)

  abbrev read_reply : ℕ → Server w → Shared w × Option Reply → Server w × Str
  read_reply buf server (after, r) =
      (record server { shared = after }, from_utf8_lossy (take buf (printed r)))

  Ordinary-words :
      (input name : Bytes) (rest : List Str)
      → words_of input ≡ name ∷ rest
      → eq_ignore_ascii_case name (ascii "AUTH") ≡ false
      → eq_ignore_ascii_case name (ascii "PING") ≡ false
      → Ordinary input
  Ordinary-words input name rest words no_auth no_ping = rw words (no_auth, no_ping)

  -- A request that needs no key, from its words.
  pub exchange-words :
      (buf : ℕ) (clock : Clock) (request name : Bytes) (rest : List Str) (server : Server w)
      → length request ≤ 4096
      → words_of request ≡ name ∷ rest
      → eq_ignore_ascii_case name (ascii "AUTH") ≡ false
      → eq_ignore_ascii_case name (ascii "PING") ≡ false
      → exchange false buf clock request server
        ≡ read_reply buf server (dispatch w settings clock (command_of (name ∷ rest)) server.shared)
  unfolding exchange execute handle_resp
  exchange-words buf clock request name rest server fits words no_auth no_ping =
      let whole = take_all 4096 request fits in
      let served =
        serve-open w settings clock request server
          (Ordinary-words request name rest words no_auth no_ping) in
      ap (λ x. read_answer buf (serve w settings false clock x server (new_connection false))) whole
      ∙ ap (read_answer buf) served
      ∙ ap (λ ws. read_reply buf server (dispatch w settings clock (command_of ws) server.shared))
          words

  set-words :
      (key value : Str)
      → command_of (ascii "SET" ∷ key ∷ value ∷ []) ≡ Protocol.set (ascii "SET" ∷ key ∷ value ∷ [])
  unfolding command_of named upper upper_from upper_first between bytes_eq
  set-words key value = refl

  get-words : (key : Str) → command_of (ascii "GET" ∷ key ∷ []) ≡ Protocol.get key
  unfolding command_of named upper upper_from upper_first between bytes_eq
  get-words key = refl

  get-Word : Word (ascii "GET")
  get-Word = (omega arith, (omega arith, (omega arith, tt)))

  length-set_request :
      (key value : Str)
      → (length (get_request key) ≤ length (set_request key value none))
        × (length value ≤ length (set_request key value none))
  unfolding set_request get_request join
  length-set_request key value =
      let whole = length-append (key ++ 32 ∷ value) crlf in
      let words = length-append key (32 ∷ value) in
      let short = length-append key crlf in
      (omega (arith, whole, words, short), omega (arith, whole, words))

  exchange-set :
      (buf : ℕ) (clock : Clock) (key value : Str) (server : Server w)
      → Word key
      → Word value
      → length (set_request key value none) ≤ 4096
      → exchange false buf clock (set_request key value none) server ≡ (
          let set = Protocol.set (ascii "SET" ∷ key ∷ value ∷ []) in
          read_reply buf server (dispatch w settings clock set server.shared))
  unfolding set_request eq_ignore_ascii_case ascii_lower bytes_eq
  exchange-set buf clock key value server k v fits =
      exchange-words buf clock (set_request key value none) (ascii "SET") (key ∷ value ∷ []) server
        fits (words_of-join (ascii "SET") (key ∷ value ∷ []) set-Word (k, (v, tt))) refl refl
      ∙ ap (λ cmd. read_reply buf server (dispatch w settings clock cmd server.shared))
          (set-words key value)

  exchange-get :
      (buf : ℕ) (clock : Clock) (key : Str) (server : Server w)
      → Word key
      → length (get_request key) ≤ 4096
      → exchange false buf clock (get_request key) server
        ≡ read_reply buf server (dispatch w settings clock (Protocol.get key) server.shared)
  unfolding get_request eq_ignore_ascii_case ascii_lower bytes_eq
  exchange-get buf clock key server k fits =
      exchange-words buf clock (get_request key) (ascii "GET") (key ∷ []) server fits
        (words_of-join (ascii "GET") (key ∷ []) get-Word (k, tt)) refl refl
      ∙ ap (λ cmd. read_reply buf server (dispatch w settings clock cmd server.shared))
          (get-words key)

  -- A SET without a fingerprint signs nothing, and so cannot panic.
  set_value-unsigned :
      (clock : Clock) (key value : Str) (s : Shared w)
      → (set_value w settings clock key value empty_fingerprint s).1 ≡ some Protocol.okay
  unfolding set_value persist has_valid_fingerprint has_valid_hashes new_slot bytes_eq
  set_value-unsigned clock key value s =
      let slot =
        new_slot w.codecs clock.slot clock.instant value empty_fingerprint set_ttl trust_cached
          settings.issuer_id in
      rw (set_value, find_key-put_key key slot s.slots, persist) refl

  -- The state and the reply of a SET of two plain words.
  set-engine :
      (clock : Clock) (key value : Str) (s : Shared w)
      → settings.strict_mode ≡ false
      → PlainWord key
      → PlainWord value
      → (let out = dispatch w settings clock (Protocol.set (ascii "SET" ∷ key ∷ value ∷ [])) s in
          (out.0.engine ≡ w.engine.set s.engine key value) × (out.1 ≡ some Protocol.okay))
  unfolding dispatch handle_set set_request
  set-engine clock key value s lax k v =
      let words = words_of-join (ascii "SET") (key ∷ value ∷ []) set-Word (k.0, (v.0, tt)) in
      let read : set_arguments w settings clock (ascii "SET" ∷ key ∷ value ∷ [])
          ≡ some (ok (value, empty_fingerprint)) =
        ap (set_arguments w settings clock) (sym words)
        ∙ (set_arguments-set_request w settings clock key value value lax k v v).0 in
      let fine = set_value-unsigned clock key value s in
      elim (set_value-Written w settings clock key value empty_fingerprint s) [
        | inl (same, panics) ↦ absurd (cc (fine, panics))
        | inr (written, done) ↦
            (rw (dispatch, handle_set, read) written, rw (dispatch, handle_set, read) done)
      ]

  -- What the client prints when the engine finds nothing, or an ASCII text that fits.
  printed-nil : get_output (from_utf8_lossy (take 65536 (printed (some Protocol.null)))) ≡ nil
  unfolding get_output from_utf8_lossy print_answer print_reply starts_with lossy_from expect_next
      between
  printed-nil = refl

  printed-okay : set_output (from_utf8_lossy (take 256 (printed (some Protocol.okay)))) ≡ ok_line
  unfolding set_output from_utf8_lossy print_answer print_reply starts_with lossy_from expect_next
      between contains_text
  printed-okay = refl

  printed-payload :
      (value : Str)
      → All Visible value
      → length value ≤ 4096
      → get_output (from_utf8_lossy (take 65536 (printed (some (Protocol.bulk value)))))
        ≡ payload value
  unfolding from_utf8_lossy print_answer print_reply
  printed-payload value v fits =
      let size = length-bulk_string value in
      ap (λ t. get_output (lossy_from lead [] t))
        (take_all 65536 (bulk_string value) (omega (arith, size, fits)))
      ∙ ap get_output
          (lossy-Ascii (bulk_string value) (bulk_string-Ascii value (Word-Ascii value v)))
      ∙ get_output-bulk_string value (Visible-Without value v)

  lossy-Visible : (value : Str) → All Visible value → from_utf8_lossy value ≡ value
  unfolding from_utf8_lossy
  lossy-Visible value v = lossy-Ascii value (Word-Ascii value v)

  get-found :
      (clock : Clock) (key : Str) (server : Server w)
      → settings.safe_read_mode ≡ false
      → Word key
      → length (get_request key) ≤ 4096
      → (value : Str) → All Visible value
      → length value ≤ 4096
      → Held (w.engine.get server.shared.engine key).1 (some value)
      → ((client_get false clock key server).1 ≡ nil)
        ⊎ ((client_get false clock key server).1 ≡ payload value)
  unfolding client_get dispatch handle_get
  get-found clock key server open_mode k fits value v short held =
      let asked = exchange-get 65536 clock key server k fits in
      elim held [
        | inl miss ↦ inl (
            ap (λ out. get_output out.1) asked
            ∙ rw (dispatch, handle_get, open_mode, miss) printed-nil)
        | inr hit ↦ inr (
            ap (λ out. get_output out.1) asked
            ∙ rw (dispatch, handle_get, open_mode, hit, lossy-Visible value v)
                (printed-payload value v short))
      ]

  -- On a daemon that requires no authentication and is neither in strict nor in safe mode, after the
  -- client has set a key to a value, both words of visible ASCII characters other than FP, it prints
  -- OK, and a following get prints the value, or nil when the engine has dropped it, if the request
  -- fits the daemon's buffer of 4096 bytes; the engine behaves as a map that may forget.
  pub client_get-client_set :
      (laws : EngineLaws w.engine) (set_clock get_clock : Clock) (key value : Str)
      (server : Server w)
      → settings.strict_mode ≡ false
      → settings.safe_read_mode ≡ false
      → PlainWord key
      → PlainWord value
      → length (set_request key value none) ≤ 4096
      → (let out = client_set false set_clock key value none server in
          (out.1 ≡ ok_line)
          × (((client_get false get_clock key out.0).1 ≡ nil)
              ⊎ ((client_get false get_clock key out.0).1 ≡ payload value)))
  unfolding client_set
  client_get-client_set laws set_clock get_clock key value server lax open_mode k v fits =
      let asked = exchange-set 256 set_clock key value server k.0 v.0 fits in
      let out =
        dispatch w settings set_clock (Protocol.set (ascii "SET" ∷ key ∷ value ∷ []))
          server.shared in
      let after : Server w = record server { shared = out.0 } in
      let (written, okay) = set-engine set_clock key value server.shared lax k v in
      let sizes = length-set_request key value in
      let state : (client_set false set_clock key value none server).0 ≡ after =
        ap (λ o. o.0) asked in
      let stored : AllHeld (laws.contents out.0.engine)
          (update key (some value) (laws.contents server.shared.engine)) =
        subst
          (λ e.
            AllHeld (laws.contents e)
              (update key (some value) (laws.contents server.shared.engine)))
          (sym written) (laws.set-contents server.shared.engine key value) in
      let held : Held (w.engine.get out.0.engine key).1 (some value) =
        Held-trans _ _ _ (laws.get-value out.0.engine key) (
          subst (λ x. Held (laws.contents out.0.engine key) x) (rw (bytes_eq_refl key) refl)
            (stored key)) in
      (
        ap (λ o. set_output o.1) asked
            ∙ ap (λ r. set_output (from_utf8_lossy (take 256 (printed r)))) okay
            ∙ printed-okay,
        subst
            (λ t.
              ((client_get false get_clock key t).1 ≡ nil)
              ⊎ ((client_get false get_clock key t).1 ≡ payload value))
            (sym state)
            (get-found get_clock key after open_mode k.0 (omega (arith, sizes.0, fits)) value
              (Word-Visible value v.0) (omega (arith, sizes.1, fits)) held),
      )
