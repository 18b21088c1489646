-- ===== src/Client/Requests.antt =====
-- What the daemon reads of the client's requests.
use cachee_cli.Base.{
  ℕ, ◌≤◌, ◌<◌, Str, false, none, some, List, [], ◌∷◌, ◌++◌, ◌≡◌, refl, sym, ap, ◌∙◌, arith, ascii,
  All, All-append, ok, bytes_eq, ascii_lower, eq_ignore_ascii_case, space_width, split_from,
  split_whitespace, close_word, from_utf8_lossy, lossy_from, lead, expect_next, join, between, crlf,
}
use mathlib.Core.List.{append_assoc, append-nil}
use cachee_cli.Archive.Types.{empty_fingerprint}
use cachee_cli.Daemon.World.{World, Settings, Clock}
use cachee_cli.Daemon.Protocol.{words_of}
use cachee_cli.Daemon.Writes.{set_arguments, fp_position}
use cachee_cli.Client.{set_request}

-- A visible ASCII character.
abbrev pub Visible : ℕ → Type 0
Visible c = (33 ≤ c) × (c < 127)

space_width-Visible : (c : ℕ) (s : Str) → Visible c → space_width (c ∷ s) ≡ 0
unfolding space_width between
space_width-Visible c s v = ground (arith, v)

split_word :
    (w x s : Str)
    → All Visible x
    → split_from 0 w (x ++ 32 ∷ s) ≡ close_word (w ++ x) (split_from 0 [] s)
unfolding split_from space_width between
split_word w [] s v = ap (λ t. close_word t (split_from 0 [] s)) (sym (append-nil w))
split_word w (c ∷ x) s v = rw (space_width-Visible c (x ++ 32 ∷ s) v.0) (
    split_word (w ++ c ∷ []) x s v.1
    ∙ ap (λ t. close_word t (split_from 0 [] s)) (append_assoc w (c ∷ []) x))

split_last : (w x : Str) → All Visible x → split_from 0 w (x ++ crlf) ≡ close_word (w ++ x) []
unfolding split_from space_width between
split_last w [] v = ap (λ t. close_word t []) (sym (append-nil w))
split_last w (c ∷ x) v =
    rw (space_width-Visible c (x ++ crlf) v.0)
      (split_last (w ++ c ∷ []) x v.1 ∙ ap (λ t. close_word t []) (append_assoc w (c ∷ []) x))

-- A word of visible ASCII characters.
abbrev pub Word : Str → Type 0
Word [] = ⊥
Word (c ∷ w) = All Visible (c ∷ w)

split-join :
    (w : Str) (ws : List Str)
    → Word w
    → All Word ws
    → split_from 0 [] (join (w ∷ ws) ++ crlf) ≡ w ∷ ws
unfolding join
split-join [] ws v vs = absurd v
split-join (c ∷ w) [] v vs = split_last [] (c ∷ w) v
split-join (c ∷ w) (x ∷ ws) v vs =
    ap (split_from 0 []) (append_assoc (c ∷ w) (32 ∷ join (x ∷ ws)) crlf)
    ∙ split_word [] (c ∷ w) (join (x ∷ ws) ++ crlf) v
    ∙ ap (λ t. (c ∷ w) ∷ t) (split-join x ws vs.0 vs.1)

abbrev pub Ascii : ℕ → Type 0
Ascii c = c < 128

plain_byte : (c : ℕ) → c < 128 → expect_next lead c ≡ some lead
unfolding expect_next between
plain_byte c h = ground (arith, h)

pub lossy-Ascii : (s : Str) → All Ascii s → lossy_from lead [] s ≡ s
unfolding lossy_from expect_next between
lossy-Ascii [] a = refl
lossy-Ascii (c ∷ s) a = rw (lossy_from, plain_byte c a.0) (ap (λ t. c ∷ t) (lossy-Ascii s a.1))

pub Word-Ascii : (w : Str) → All Visible w → All Ascii w
Word-Ascii [] v = tt
Word-Ascii (c ∷ w) v = (omega (arith, v.0), Word-Ascii w v.1)

join-Ascii : (w : Str) (ws : List Str) → Word w → All Word ws → All Ascii (join (w ∷ ws))
unfolding join
join-Ascii [] ws v vs = absurd v
join-Ascii (c ∷ w) [] v vs = Word-Ascii (c ∷ w) v
join-Ascii (c ∷ w) (x ∷ ws) v vs =
    All-append Ascii (c ∷ w) (32 ∷ join (x ∷ ws)) (Word-Ascii (c ∷ w) v)
      (omega arith, join-Ascii x ws vs.0 vs.1)

pub words_of-join :
    (w : Str) (ws : List Str) → Word w → All Word ws → words_of (join (w ∷ ws) ++ crlf) ≡ w ∷ ws
unfolding words_of split_whitespace from_utf8_lossy
words_of-join w ws v vs =
    ap (split_from 0 []) (
      lossy-Ascii (join (w ∷ ws) ++ crlf) (
        All-append Ascii (join (w ∷ ws)) crlf (join-Ascii w ws v vs)
          (omega arith, (omega arith, tt))))
    ∙ split-join w ws v vs

-- A word that does not mark a fingerprint.
abbrev pub PlainWord : Str → Type 0
PlainWord w = Word w × (eq_ignore_ascii_case w (ascii "FP") ≡ false)

pub set-Word : Word (ascii "SET")
set-Word = (omega arith, (omega arith, (omega arith, tt)))

ex-Word : Word (ascii "EX")
ex-Word = (omega arith, (omega arith, tt))

no_fp_three :
    (key value : Str)
    → eq_ignore_ascii_case key (ascii "FP") ≡ false
    → eq_ignore_ascii_case value (ascii "FP") ≡ false
    → fp_position (ascii "SET" ∷ key ∷ value ∷ []) ≡ none
unfolding fp_position eq_ignore_ascii_case ascii_lower between bytes_eq
no_fp_three key value k v = rw (k, v) refl

no_fp_five :
    (key value ttl : Str)
    → eq_ignore_ascii_case key (ascii "FP") ≡ false
    → eq_ignore_ascii_case value (ascii "FP") ≡ false
    → eq_ignore_ascii_case ttl (ascii "FP") ≡ false
    → fp_position (ascii "SET" ∷ key ∷ value ∷ ascii "EX" ∷ ttl ∷ []) ≡ none
unfolding fp_position eq_ignore_ascii_case ascii_lower between bytes_eq
no_fp_five key value ttl k v t = rw (k, v, t) refl

-- Of the client's SET without a time to live, the daemon, when it is not in strict mode, takes the
-- value that was given; of the one with a time to live it takes the value, EX and the time together
-- as the value. The key, the value and the time are words of visible ASCII characters other than FP.
pub set_arguments-set_request :
    (w : World) (settings : Settings) (clock : Clock) (key value ttl : Str)
    → settings.strict_mode ≡ false
    → PlainWord key
    → PlainWord value
    → PlainWord ttl
    → (set_arguments w settings clock (words_of (set_request key value none))
        ≡ some (ok (value, empty_fingerprint)))
      × (set_arguments w settings clock (words_of (set_request key value (some ttl)))
          ≡ some (ok (join (value ∷ ascii "EX" ∷ ttl ∷ []), empty_fingerprint)))
unfolding set_request set_arguments join
set_arguments-set_request w settings clock key value ttl lax k v t = (
  ap (set_arguments w settings clock)
        (words_of-join (ascii "SET") (key ∷ value ∷ []) set-Word (k.0, (v.0, tt)))
      ∙ rw (set_arguments, no_fp_three key value k.1 v.1, lax) refl,
  ap (set_arguments w settings clock) (
        words_of-join (ascii "SET") (key ∷ value ∷ ascii "EX" ∷ ttl ∷ []) set-Word
          (k.0, (v.0, (ex-Word, (t.0, tt)))))
      ∙ rw (set_arguments, no_fp_five key value ttl k.1 v.1 t.1, lax) refl,
)
