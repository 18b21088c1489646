-- ===== src/Daemon/Connection/Answers.antt =====
-- How a connection of src/daemon.rs writes its answers to the socket.
use cachee_cli.Base.{Str, [], ◌∷◌, ◌++◌, ascii, concat, decimal, crlf, ltb, if◌then◌else◌}
use cachee_cli.Daemon.Printing.{Printer, print_reply}
use cachee_cli.Daemon.Connection.{
  ApiKeyEntry, Answer, auth_needs_key, invalid_key, pong, no_auth, revoked, no_write, no_admin,
  panic, authenticated_as, quota_exceeded, reply,
}

unfoldable pub print_entry : ApiKeyEntry → Str
print_entry e = concat (
    ascii "+OK authenticated as "
    ∷ e.label
    ∷ ascii " ("
    ∷ e.permissions
    ∷ ascii ", limit="
    ∷ (if ltb 0 e.ops_limit then decimal e.ops_limit else ascii "unlimited")
    ∷ (b')' ∷ crlf)
    ∷ [])

-- A panic ends the connection without an answer.
unfoldable pub print_answer : Printer → Answer → Str
unfolding print_entry print_reply
print_answer p auth_needs_key = ascii "-ERR AUTH requires a key argument" ++ crlf
print_answer p invalid_key = ascii "-ERR invalid API key" ++ crlf
print_answer p pong = ascii "+PONG" ++ crlf
print_answer p no_auth = ascii "-NOAUTH Authentication required. Send AUTH <api_key> first." ++ crlf
print_answer p revoked = ascii "-NOAUTH key has been revoked. Re-authenticate." ++ crlf
print_answer p no_write = ascii "-NOPERM this key does not have write permission" ++ crlf
print_answer p no_admin = ascii "-NOPERM this key does not have admin permission" ++ crlf
print_answer p panic = []
print_answer p (authenticated_as e) = print_entry e
print_answer p (quota_exceeded current limit) = concat (
    ascii "-QUOTA ops limit exceeded ("
    ∷ decimal current
    ∷ (b'/' ∷ [])
    ∷ decimal limit
    ∷ ascii " ops). Upgrade your plan: cachee plan upgrade starter"
    ∷ crlf
    ∷ [])
print_answer p (reply r) = print_reply p r
