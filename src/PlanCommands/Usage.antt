-- ===== src/PlanCommands/Usage.antt =====
-- What `usage` of src/plan.rs reads of the daemon's INFO.
use cachee_cli.Base.{
  ℕ, ◌^◌, ◌<◌, Str, true, false, some, [], ◌∷◌, ◌++◌, ◌≡◌, refl, sym, ap, ◌∙◌, arith, ascii, All,
  All-append, Without, lacks, lacks-Without, lines, lines-print_rows, print_rows, print_rows-append,
  crlf, decimal, decimal-Digit, Digit, length, ◌==◌, find_line, second, split_on, split_onto,
  parse_u64, digits_from, digits_from-decimal, decimal-Led, trim, lt→ltb, starts_with, ◌>>=◌,
  trim_start_from, trim_end_from, space_width, between,
}
use mathlib.Core.List.{append_assoc, append-nil}
use cachee_cli.Daemon.Protocol
use cachee_cli.Daemon.Printing.{Printer, info_row, info_rows, info_text, bulk_string, print_reply}
use cachee_cli.PlanCommands.{get_val, usage_counts}

digits-Without : (c : ℕ) (s : Str) → c < 48 → All Digit s → Without c s
digits-Without c [] low d = tt
digits-Without c (x ∷ s) low d = (ground (arith, low, d.0), digits-Without c s low d.1)

-- White space does not touch digits.
space_width-Digit : (c : ℕ) (s : Str) → Digit c → space_width (c ∷ s) ≡ 0
unfolding space_width between
space_width-Digit c s d = ground (arith, d)

trim_end-Digit : (w s : Str) → All Digit s → trim_end_from 0 [] s ≡ s
unfolding trim_end_from
trim_end-Digit w [] d = refl
trim_end-Digit w (c ∷ s) d =
    rw (trim_end_from, space_width-Digit c s d.0) (ap (λ t. c ∷ t) (trim_end-Digit w s d.1))

trim-Digit : (s : Str) → All Digit s → trim s ≡ s
unfolding trim trim_start_from
trim-Digit [] d = refl
trim-Digit (c ∷ s) d =
    rw (trim, trim_start_from, space_width-Digit c s d.0) (trim_end-Digit [] (c ∷ s) d)

parse-Digit :
    (c : ℕ) (s : Str) (n : ℕ)
    → All Digit (c ∷ s)
    → digits_from 0 (c ∷ s) ≡ some n
    → n < 2 ^ 64
    → parse_u64 (c ∷ s) ≡ some n
unfolding parse_u64
parse-Digit c [] n d read h = rw (parse_u64, read, lt→ltb n (2 ^ 64) h) refl
parse-Digit c (x ∷ s) n d read h =
    let plain : (c == 43) ≡ false = ground (arith, d.0) in
    rw (parse_u64, plain, read, lt→ltb n (2 ^ 64) h) refl

parse-decimal : (n : ℕ) → n < 2 ^ 64 → parse_u64 (decimal n) ≡ some n
parse-decimal n h =
    let (c, rest, led, d) = decimal-Led n in
    ap parse_u64 led
    ∙ parse-Digit c rest n d (ap (digits_from 0) (sym led) ∙ digits_from-decimal n h) h

digits-Uncut : (w s : Str) → All Digit s → split_onto b':' w s ≡ (w ++ s) ∷ []
unfolding split_onto
digits-Uncut w [] d = ap (λ t. t ∷ []) (sym (append-nil w))
digits-Uncut w (c ∷ s) d =
    let other : (c == 58) ≡ false = ground (arith, d.0) in
    rw (split_onto, other)
      (digits-Uncut (w ++ c ∷ []) s d.1 ∙ ap (λ t. t ∷ []) (append_assoc w (c ∷ []) s))

module _ (p : Printer) (version : Str) (slots bundles : ℕ) where
  row-Without :
      (name value : Str)
      → lacks 10 name ≡ true
      → Without 10 value
      → Without 10 (info_row p name value)
  row-Without name value n v = All-append _ name (b':' ∷ value) (lacks-Without 10 name n) (refl, v)

  number-Without :
      (name : Str) (n : ℕ) → lacks 10 name ≡ true → Without 10 (info_row p name (decimal n))
  number-Without name n l =
      row-Without name (decimal n) l (digits-Without 10 (decimal n) (omega arith) (decimal-Digit n))

  info_rows-Without :
      Without 10 version
      → Without 10 p.statistics.hit_rate
      → All (Without 10) (info_rows p version slots bundles)
  info_rows-Without v r = (
    lacks-Without 10 (ascii "# Cachee") refl,
    (
      row-Without (ascii "version") version refl v,
      (
        number-Without (ascii "total_ops") _ refl,
        (
          row-Without (ascii "hit_rate") p.statistics.hit_rate refl r,
          (
            number-Without (ascii "hits_l0") _ refl,
            (
              number-Without (ascii "hits_l1") _ refl,
              (
                number-Without (ascii "misses") _ refl,
                (
                  number-Without (ascii "keys") _ refl,
                  (
                    number-Without (ascii "memory_bytes") _ refl,
                    (
                      number-Without (ascii "slots") _ refl,
                      (
                        number-Without (ascii "l2_bundles") _ refl,
                        (
                          number-Without (ascii "key_registry_last_reload") _ refl,
                          (number-Without (ascii "last_usage_flush") _ refl, tt),
                        ),
                      ),
                    ),
                  ),
                ),
              ),
            ),
          ),
        ),
      ),
    ),
  )

  abbrev size_row : Str
  size_row = b'$' ∷ decimal (length (info_text p version slots bundles))

  -- The lines of the whole reply: its size, the fields, and an empty one.
  lines-reply :
      Without 10 version
      → Without 10 p.statistics.hit_rate
      → lines (print_reply p (Protocol.statistics version slots bundles))
        ≡ size_row ∷ (info_rows p version slots bundles ++ [] ∷ [])
  unfolding print_reply bulk_string info_text print_rows
  lines-reply v r =
      let rows = info_rows p version slots bundles in
      let n = length (info_text p version slots bundles) in
      ap (λ t. lines (size_row ++ (crlf ++ t))) (sym (print_rows-append rows ([] ∷ [])))
      ∙ lines-print_rows (size_row ∷ (rows ++ [] ∷ [])) (
        (refl, digits-Without 10 (decimal n) (omega arith) (decimal-Digit n)),
        All-append (Without 10) rows ([] ∷ []) (info_rows-Without v r) (tt, tt),
      )

  total_ops-piece :
      (n : ℕ)
      → second (split_on b':' (info_row p (ascii "total_ops") (decimal n))) ≡ some (decimal n)
  unfolding split_on split_onto
  total_ops-piece n = rw (digits-Uncut [] (decimal n) (decimal-Digit n)) refl

  -- Of INFO, `usage` reads the number of operations, and 0 for the memory and the keys, whatever the
  -- daemon reports: it looks for names that INFO does not have. The version and the hit rate have no
  -- newline, and the number is below 2^64.
  pub usage_counts-statistics :
      Without 10 version
      → Without 10 p.statistics.hit_rate
      → p.statistics.total_ops < 2 ^ 64
      → usage_counts (print_reply p (Protocol.statistics version slots bundles))
        ≡ (p.statistics.total_ops, 0, 0)
  unfolding usage_counts get_val find_line starts_with
  usage_counts-statistics v r fits =
      let whole = lines-reply v r in
      let n = p.statistics.total_ops in
      let found = λ (name : Str).
        ap (λ ls. find_line name ls >>= λ l. second (split_on b':' l) >>= λ t. parse_u64 (trim t))
          whole in
      rw
        (
          usage_counts,
          get_val,
          found (ascii "total_ops:"),
          found (ascii "used_memory:"),
          found (ascii "total_keys:"),
          total_ops-piece n,
          trim-Digit (decimal n) (decimal-Digit n),
          parse-decimal n fits,
        )
        refl
