-- ===== src/Client.antt =====
-- src/resp.rs: the command line's client of the daemon: the text that it sends, and what it prints
-- of the reply. The socket is left out, and so is the reading of a time to live.
pub mod Requests
pub mod Replies
pub mod Session
pub mod Data
use cachee_cli.Base.{
  ℕ, Bytes, Str, Bool, true, false, Option, none, some, List, [], ◌∷◌, ◌++◌, if◌then◌else◌, ◌==◌,
  ascii, starts_with, contains_text, join, crlf,
}

-- `ttl` is the printed number.
unfoldable pub set_request : Str → Str → Option Str → Bytes
set_request key value none = join (ascii "SET" ∷ key ∷ value ∷ []) ++ crlf
set_request key value (some ttl) = join (ascii "SET" ∷ key ∷ value ∷ ascii "EX" ∷ ttl ∷ []) ++ crlf

unfoldable pub get_request : Str → Bytes
get_request key = join (ascii "GET" ∷ key ∷ []) ++ crlf

unfoldable pub del_request : Str → Bytes
del_request key = join (ascii "DEL" ∷ key ∷ []) ++ crlf

unfoldable pub ttl_request : Str → Bytes
ttl_request key = join (ascii "TTL" ∷ key ∷ []) ++ crlf

unfoldable pub keys_request : Str → Bytes
keys_request pattern = join (ascii "KEYS" ∷ pattern ∷ []) ++ crlf

-- What is printed; `trimmed` is a reply without the white space at its ends, `silent` nothing.
pub data Output : Type 0 where
  ok_line nil silent : Output
  payload trimmed : Str → Output
  integer_line : ℕ → Output

unfoldable pub set_output : Str → Output
set_output response = if contains_text response (ascii "OK") then ok_line else trimmed response

-- `split("\r\n")` after a part of the current piece.
unfoldable pub split_crlf : Str → Str → List Str
split_crlf piece [] = piece ∷ []
split_crlf piece (a ∷ []) = (piece ++ a ∷ []) ∷ []
split_crlf piece (a ∷ b ∷ s) =
    let next = split_crlf [] s in
    let longer = split_crlf (piece ++ a ∷ []) (b ∷ s) in
    if a == 13 then (if b == 10 then piece ∷ next else longer) else longer

unfoldable pub get_output : Str → Output
unfolding split_crlf
get_output response =
    if starts_with response (ascii "$-1")
    then nil
    else if starts_with response (ascii "$")
    then elim (split_crlf [] response) [ first ∷ text ∷ rest ↦ payload text | _ ↦ silent ]
    else trimmed response

unfoldable pub del_output : Str → Output
del_output response = integer_line (if contains_text response (ascii ":1") then 1 else 0)
