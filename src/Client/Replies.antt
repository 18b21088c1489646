-- ===== src/Client/Replies.antt =====
-- What the command line's client prints of the daemon's bulk replies.
use cachee_cli.Base.{
  ℕ, ◌≤◌, Str, false, [], ◌∷◌, ◌++◌, ◌≡◌, refl, sym, ap, ◌∙◌, arith, ascii, All, All-append, ◌==◌,
  Without, decimal, Digit, decimal-Led, decimal-Digit, crlf, length, length-append, length-decimal,
  ◌+◌, starts_with,
}
use mathlib.Core.List.{append_assoc, append-nil}
use cachee_cli.Client.{payload, split_crlf, get_output}
use cachee_cli.Client.Requests.{Ascii}
use cachee_cli.Daemon.Printing.{bulk_string}

-- The piece up to the first CR LF.
split_crlf-piece :
    (w x s : Str) → Without 13 x → split_crlf w (x ++ 13 ∷ 10 ∷ s) ≡ (w ++ x) ∷ split_crlf [] s
unfolding split_crlf
split_crlf-piece w [] s q = ap (λ t. t ∷ split_crlf [] s) (sym (append-nil w))
split_crlf-piece w (d ∷ []) s q = rw (split_crlf, q.0) refl
split_crlf-piece w (d ∷ e ∷ x) s q =
    rw (split_crlf, q.0)
      (split_crlf-piece (w ++ d ∷ []) (e ∷ x) s q.1
        ∙ ap (λ t. t ∷ split_crlf [] s) (append_assoc w (d ∷ []) (e ∷ x)))

not_cr : (c : ℕ) → Digit c → (c == 13) ≡ false
not_cr c d = ground (arith, d)

not_dash : (c : ℕ) → Digit c → (c == 45) ≡ false
not_dash c d = ground (arith, d)

digits-Without : (s : Str) → All Digit s → Without 13 s
digits-Without [] d = tt
digits-Without (c ∷ s) d = (not_cr c d.0, digits-Without s d.1)

pieces :
    (x value : Str)
    → All Digit x
    → Without 13 value
    → split_crlf [] ((b'$' ∷ x) ++ (crlf ++ (value ++ crlf))) ≡ (b'$' ∷ x) ∷ value ∷ [] ∷ []
unfolding split_crlf
pieces x value d q =
    split_crlf-piece [] (b'$' ∷ x) (value ++ crlf) (refl, digits-Without x d)
    ∙ ap (λ t. (b'$' ∷ x) ∷ t) (split_crlf-piece [] value [] q)

not_nil : (c : ℕ) (s : Str) → Digit c → starts_with (b'$' ∷ c ∷ s) (ascii "$-1") ≡ false
unfolding starts_with
not_nil c s d = rw (not_dash c d) refl

-- The client prints the payload of a bulk reply, if it has no carriage return.
pub get_output-bulk_string :
    (value : Str) → Without 13 value → get_output (bulk_string value) ≡ payload value
unfolding get_output bulk_string starts_with
get_output-bulk_string value q =
    let n = decimal (length value) in
    let tail = crlf ++ (value ++ crlf) in
    let (c, rest, led, d) = decimal-Led (length value) in
    let found : starts_with (b'$' ∷ (n ++ tail)) (ascii "$-1") ≡ false =
      ap (λ t. starts_with (b'$' ∷ (t ++ tail)) (ascii "$-1")) led ∙ not_nil c (rest ++ tail) d.0 in
    rw (get_output, found, pieces n value (decimal-Digit (length value)) q) refl

Digits-Ascii : (s : Str) → All Digit s → All Ascii s
Digits-Ascii [] d = tt
Digits-Ascii (c ∷ s) d = (omega (arith, d.0.1), Digits-Ascii s d.1)

pub bulk_string-Ascii : (value : Str) → All Ascii value → All Ascii (bulk_string value)
unfolding bulk_string
bulk_string-Ascii value a = (
  omega arith,
  All-append Ascii (decimal (length value)) (crlf ++ (value ++ crlf))
      (Digits-Ascii (decimal (length value)) (decimal-Digit (length value)))
      (omega arith, (omega arith, All-append Ascii value crlf a (omega arith, (omega arith, tt)))),
)

pub length-bulk_string : (value : Str) → length (bulk_string value) ≤ length value + 25
unfolding bulk_string
length-bulk_string value =
    let n = decimal (length value) in
    omega (
      arith,
      length-decimal (length value),
      length-append n (crlf ++ (value ++ crlf)),
      length-append value crlf,
    )
