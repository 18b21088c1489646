-- ===== src/Base/Text.antt =====
-- What the program uses of Rust's `str`, on strings of UTF-8 bytes.
use Prim.Native.Nat.{ℕ, zero, suc, ◌+◌, ◌-◌}
use mathlib.Core.Bool.{Bool, true, false, ◌&&◌, ◌||◌}
use mathlib.Core.List.{List, [], ◌∷◌, ◌++◌}
use cachee_cli.Base.Tests.{if◌then◌else◌, ◌==◌}
use cachee_cli.Base.Lists.{get_or}
use cachee_cli.Base.ByteStrings.{Str, bytes_eq}
use cachee_cli.Base.Utf8.{between}

-- How many bytes the Unicode white space at the front takes; 0 is none.
unfoldable pub space_width : Str → ℕ
unfolding between
space_width s =
    let a = get_or s 0 0 in
    let b = get_or s 1 0 in
    let c = get_or s 2 0 in
    if between 9 13 a || a == 32
    then 1
    else if a == 0xc2 && (b == 0x85 || b == 0xa0)
    then 2
    else if (a == 0xe1 && b == 0x9a && c == 0x80)
        || (a == 0xe2 && b == 0x80 && (between 0x80 0x8a c || c == 0xa8 || c == 0xa9 || c == 0xaf))
        || (a == 0xe2 && b == 0x81 && c == 0x9f)
        || (a == 0xe3 && b == 0x80 && c == 0x80)
    then 3
    else 0

abbrev pub close_word : Str → List Str → List Str
close_word [] words = words
close_word (c ∷ w) words = (c ∷ w) ∷ words

-- `split_whitespace` after a partial word, with bytes of white space still to pass over.
unfoldable pub split_from : ℕ → Str → Str → List Str
unfolding space_width
split_from pass word [] = close_word word []
split_from (suc pass) word (c ∷ s) = split_from pass word s
split_from zero word (c ∷ s) =
    let width = space_width (c ∷ s) in
    let longer = split_from zero (word ++ c ∷ []) s in
    let closed = close_word word (split_from (width - 1) [] s) in
    if width == 0 then longer else closed

unfoldable pub split_whitespace : Str → List Str
unfolding split_from
split_whitespace = split_from 0 []

-- `trim_start`, with bytes of white space still to pass over.
unfoldable pub trim_start_from : ℕ → Str → Str
unfolding space_width
trim_start_from pass [] = []
trim_start_from (suc pass) (c ∷ s) = trim_start_from pass s
trim_start_from zero (c ∷ s) =
    let width = space_width (c ∷ s) in
    let shorter = trim_start_from (width - 1) s in if width == 0 then c ∷ s else shorter

-- `trim_end`; `gap` is the white space since the last other character.
unfoldable pub trim_end_from : ℕ → Str → Str → Str
unfolding space_width
trim_end_from pass gap [] = []
trim_end_from (suc pass) gap (c ∷ s) = trim_end_from pass (gap ++ c ∷ []) s
trim_end_from zero gap (c ∷ s) =
    let width = space_width (c ∷ s) in
    let kept = trim_end_from zero [] s in
    let longer = trim_end_from (width - 1) (gap ++ c ∷ []) s in
    if width == 0 then (gap ++ c ∷ []) ++ kept else longer

unfoldable pub trim : Str → Str
unfolding trim_start_from trim_end_from
trim s = trim_end_from 0 [] (trim_start_from 0 s)

-- The end of a line of RESP, CR LF.
abbrev pub crlf : Str
crlf = 13 ∷ 10 ∷ []

-- `join(" ")`
unfoldable pub join : List Str → Str
join [] = []
join (w ∷ []) = w
join (w ∷ v ∷ words) = w ++ 32 ∷ join (v ∷ words)

-- What `to_uppercase` makes of the first character, and how many more bytes that takes: ASCII
-- letters, and the other characters whose upper case is ASCII (ı, ſ, ß and the Latin ligatures).
-- A character whose upper case is not ASCII stays: no command name has one.
unfoldable pub upper_first : ℕ → Str → ℕ × Str
unfolding between
upper_first a s =
    let b = get_or s 0 0 in
    let c = get_or s 1 0 in
    if between 97 122 a
    then (0, (a - 32) ∷ [])
    else if a == 0xc4 && b == 0xb1
    then (1, b'I' ∷ [])
    else if a == 0xc5 && b == 0xbf
    then (1, b'S' ∷ [])
    else if a == 0xc3 && b == 0x9f
    then (1, b'S' ∷ b'S' ∷ [])
    else if a == 0xef && b == 0xac
    then ligature c
    else (0, a ∷ [])
  where
    ligature : ℕ → ℕ × Str
    ligature c =
        if c == 0x80
        then (2, b'F' ∷ b'F' ∷ [])
        else if c == 0x81
        then (2, b'F' ∷ b'I' ∷ [])
        else if c == 0x82
        then (2, b'F' ∷ b'L' ∷ [])
        else if c == 0x83
        then (2, b'F' ∷ b'F' ∷ b'I' ∷ [])
        else if c == 0x84
        then (2, b'F' ∷ b'F' ∷ b'L' ∷ [])
        else if c == 0x85 || c == 0x86
        then (2, b'S' ∷ b'T' ∷ [])
        else (0, 0xef ∷ [])

unfoldable pub upper_from : ℕ → Str → Str
unfolding upper_first
upper_from pass [] = []
upper_from (suc pass) (a ∷ s) = upper_from pass s
upper_from zero (a ∷ s) = let r = upper_first a s in r.1 ++ upper_from r.0 s

-- `to_uppercase`, as far as a comparison with ASCII words tells.
unfoldable pub upper : Str → Str
unfolding upper_from
upper = upper_from 0

unfoldable pub ascii_lower : Str → Str
unfolding between
ascii_lower [] = []
ascii_lower (a ∷ s) = (if between 65 90 a then a + 32 else a) ∷ ascii_lower s

unfoldable pub eq_ignore_ascii_case : Str → Str → Bool
unfolding ascii_lower
eq_ignore_ascii_case a b = bytes_eq (ascii_lower a) (ascii_lower b)

unfoldable pub starts_with : Str → Str → Bool
starts_with s [] = true
starts_with [] (p ∷ prefix) = false
starts_with (c ∷ s) (p ∷ prefix) = c == p && starts_with s prefix

-- `haystack.contains(needle)`
unfoldable pub contains_text : Str → Str → Bool
unfolding starts_with
contains_text [] needle = starts_with [] needle
contains_text (c ∷ s) needle = starts_with (c ∷ s) needle || contains_text s needle
