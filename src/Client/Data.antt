-- ===== src/Client/Data.antt =====
-- src/data.rs: `flush` and `dump` against the daemon, and `restore`. The file system and the clock are
-- arguments.
use cachee_cli.Base.{
  ℕ, Bytes, Str, Bool, true, false, Option, none, [], ◌∷◌, ◌++◌, ◌≡◌, refl, ap, arith,
  eq_ignore_ascii_case, ascii_lower, if◌then◌else◌, ascii, concat, decimal, contains_text, trim,
  crlf, from_utf8_lossy, lossy_from, expect_next, between, split_whitespace, split_from,
  space_width, upper, upper_from, upper_first, bytes_eq, starts_with, trim_start_from,
  trim_end_from,
}
use cachee_cli.Daemon.World.{World, Settings, Clock}
use cachee_cli.Daemon.Protocol.{command_of, named, words_of}
use cachee_cli.Daemon.Commands.{dispatch}
use cachee_cli.Daemon.Connection.{Server}
use cachee_cli.Daemon.Connection.Answers.{print_answer}
use cachee_cli.Daemon.Printing.{Printer, print_reply, print_error}
use cachee_cli.Client.Session.{exchange, exchange-words}
use cachee_cli.PlanCommands.{get_val}

pub data Flushed : Type 0 where
  needs_confirmation all_flushed : Flushed
  flush_response : Str → Flushed

unfoldable pub flush_request : Bytes
flush_request = ascii "FLUSHALL" ++ crlf

-- The text that `dump` writes, of the reply to INFO.
unfoldable pub dump_snapshot : Str → ℕ → Str
unfolding get_val
dump_snapshot info now = concat (
    (b'{' ∷ 34 ∷ ascii "format")
    ∷ (34 ∷ b':' ∷ 34 ∷ ascii "cachee-dump-v1")
    ∷ (34 ∷ b',' ∷ 34 ∷ ascii "keys")
    ∷ (34 ∷ b':' ∷ [])
    ∷ decimal (get_val info (ascii "keys:"))
    ∷ (b',' ∷ 34 ∷ ascii "timestamp")
    ∷ (34 ∷ b':' ∷ [])
    ∷ decimal now
    ∷ (b'}' ∷ 10 ∷ [])
    ∷ [])

-- `restore` prints the file's text, if it exists and can be read, and restores nothing.
unfoldable pub restore : Bool → Option Str → Option Str
restore false content = none
restore true content = content

module _ (w : World) (settings : Settings) (p : Printer) where
  abbrev flushed : Server w × Str → Server w × Flushed
  flushed (server, response) = (
    server,
    if contains_text response (ascii "OK") then all_flushed else flush_response (trim response),
  )

  -- `flush`, with --yes or without.
  unfoldable pub flush : Bool → Clock → Bool → Server w → Server w × Flushed
  unfolding exchange flush_request
  flush require_auth clock false server = (server, needs_confirmation)
  flush require_auth clock true server =
      flushed (exchange w settings p require_auth 256 clock flush_request server)

  flush-words : words_of flush_request ≡ ascii "FLUSHALL" ∷ []
  unfolding words_of split_whitespace split_from space_width between from_utf8_lossy lossy_from
      expect_next flush_request
  flush-words = refl

  flush-exchange :
      (clock : Clock) (server : Server w)
      → exchange w settings p false 256 clock flush_request server
        ≡ (server, ascii "-ERR unknown command" ++ crlf)
  unfolding eq_ignore_ascii_case ascii_lower bytes_eq flush_request dispatch print_answer
      print_reply print_error from_utf8_lossy lossy_from expect_next between command_of named upper
      upper_from upper_first
  flush-exchange clock server =
      exchange-words w settings p 256 clock flush_request (ascii "FLUSHALL") [] server (omega arith)
        flush-words refl refl

  -- `flush` deletes nothing on a daemon that requires no authentication: the daemon does not know the
  -- command, and its refusal is printed.
  pub flush-refused :
      (clock : Clock) (server : Server w)
      → flush false clock true server ≡ (server, flush_response (ascii "-ERR unknown command"))
  unfolding flush contains_text starts_with trim trim_start_from trim_end_from space_width between
  flush-refused clock server = ap flushed (flush-exchange clock server)
