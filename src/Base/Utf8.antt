-- ===== src/Base/Utf8.antt =====
-- `String::from_utf8`: the well-formed byte sequences of the Unicode standard, as an automaton.
use mathlib.Core.Bool.{Bool, true, false, ◌&&◌}
use mathlib.Core.List.{[], ◌∷◌, ◌++◌}
use mathlib.Core.Path.{◌≡◌, refl}
use mathlib.Core.Option.{Option, none, some}
use Prim.Native.Nat.{ℕ}
use Prim.Native.Char.{code}
use Prim.Native.String.{String}
use cachee_cli.Base.Tests.{leb, ◌==◌, if◌then◌else◌}
use cachee_cli.Base.ByteStrings.{Bytes, Str}

-- The bytes of an ASCII literal.
abbrev pub ascii : String → Str
ascii String.[] = []
ascii (String.◌∷◌ c s) = code c ∷ ascii s

-- What the next byte may be: a lead byte, one of `n` plain continuation bytes, or the restricted
-- second byte after E0, ED, F0 and F4.
pub data Expect : Type 0 where
  lead one two three after_e0 after_ed after_f0 after_f4 : Expect

unfoldable pub between : ℕ → ℕ → ℕ → Bool
between lo hi b = leb lo b && leb b hi

unfoldable pub expect_next : Expect → ℕ → Option Expect
unfolding between
expect_next lead b =
    if between 0x00 0x7f b
    then some lead
    else if between 0xc2 0xdf b
    then some one
    else if b == 0xe0
    then some after_e0
    else if b == 0xed
    then some after_ed
    else if between 0xe1 0xef b
    then some two
    else if b == 0xf0
    then some after_f0
    else if between 0xf1 0xf3 b
    then some three
    else if b == 0xf4
    then some after_f4
    else none
expect_next one b = if between 0x80 0xbf b then some lead else none
expect_next two b = if between 0x80 0xbf b then some one else none
expect_next three b = if between 0x80 0xbf b then some two else none
expect_next after_e0 b = if between 0xa0 0xbf b then some one else none
expect_next after_ed b = if between 0x80 0x9f b then some one else none
expect_next after_f0 b = if between 0x90 0xbf b then some two else none
expect_next after_f4 b = if between 0x80 0x8f b then some two else none

unfoldable pub accepts : Bytes → Expect → Bool
accepts [] lead = true
accepts [] _ = false
accepts (b ∷ bs) s = elim (expect_next s b) [ none ↦ false | some t ↦ accepts bs t ]

unfoldable pub utf8_valid : Bytes → Bool
unfolding accepts expect_next
utf8_valid bs = accepts bs lead

pub from_utf8 : Bytes → Option Str
from_utf8 bs = if utf8_valid bs then some bs else none

pub from_utf8_valid : (s : Str) → utf8_valid s ≡ true → from_utf8 s ≡ some s
unfolding from_utf8
from_utf8_valid s h = rw h

utf8_euro : utf8_valid (0xe2 ∷ 0x82 ∷ 0xac ∷ []) ≡ true
unfolding utf8_valid
utf8_euro = refl

utf8_surrogate : utf8_valid (0xed ∷ 0xa0 ∷ 0x80 ∷ []) ≡ false
unfolding utf8_valid
utf8_surrogate = refl

-- U+FFFD
abbrev replacement : Bytes
replacement = 0xef ∷ 0xbf ∷ 0xbd ∷ []

abbrev flush_partial : Bytes → Bytes
flush_partial [] = []
flush_partial (_ ∷ _) = replacement

-- The decoder, in a state and with the bytes of an unfinished character: an ill-formed one becomes
-- U+FFFD, and the byte that broke it off is read again as a first byte.
unfoldable pub lossy_from : Expect → Bytes → Bytes → Bytes
unfolding expect_next
lossy_from s partial [] = flush_partial partial
lossy_from s partial (b ∷ bs) =
    let fresh = lossy_from lead [] bs in
    elim (expect_next s b) [
      | some lead ↦ partial ++ b ∷ fresh
      | some t ↦ lossy_from t (partial ++ b ∷ []) bs
      | none ↦ flush_partial partial ++ elim (expect_next lead b) [
        | some lead ↦ b ∷ fresh
        | some t ↦ lossy_from t (b ∷ []) bs
        | none ↦ replacement ++ fresh
      ]
    ]

-- `String::from_utf8_lossy`
unfoldable pub from_utf8_lossy : Bytes → Str
unfolding lossy_from
from_utf8_lossy = lossy_from lead []

utf8_lossy :
    from_utf8_lossy (b'a' ∷ 0xe2 ∷ 0x82 ∷ b'b' ∷ []) ≡ b'a' ∷ 0xef ∷ 0xbf ∷ 0xbd ∷ b'b' ∷ []
unfolding from_utf8_lossy
utf8_lossy = refl
