-- ===== src/Archive/Wire/Laws.antt =====
-- What each reader returns on the encoding that the writers produce, at any position of any input.
use cachee_cli.Base.{ℕ, ◌+◌, ◌%◌, ◌^◌, ◌≤◌, ◌<◌, Bytes, [], ◌∷◌, ◌++◌, ◌≡◌, refl}
use cachee_cli.Base.{ap, ◌∙◌, arith, ok, length, drop}
use cachee_cli.Base.{length-append, take-append, drop-append, drop-drop}
use cachee_cli.Base.{get_or-drop, to_be, from_be, length-to_be, from_be-to_be, le→ltb}
use cachee_cli.Base.{from_utf8_valid, utf8_valid, true, take}
use cachee_cli.Archive.Wire.{
  Error, Reader, pure, ◌>>=◌, slice, read_slice, read_byte, read_u16, read_u64,
}
use cachee_cli.Archive.Wire.{read_length_prefixed_u16, read_length_prefixed_u32, utf8_string}
use cachee_cli.Archive.Wire.{unexpected_end, unexpected_end_need}
use cachee_cli.Archive.Wire.{write_length_prefixed_u16, write_length_prefixed_u32}
use mathlib.Core.List.{append_assoc, append-nil}
use mathlib.Core.Path.{subst}

-- What is left of `bytes` at `pos` is `rest`.
pub record At (bytes : Bytes) (pos : ℕ) (rest : Bytes) : Type 0 where
  pub left : drop pos bytes ≡ rest
  pub within : length bytes ≡ pos + length rest

pub At-start : (bytes rest : Bytes) → bytes ≡ rest → At bytes 0 rest
At-start bytes rest e = record { left = e; within = ap length e ∙ (omega arith) }

pub At-skip :
    (e : Bytes) {bytes rest : Bytes} {pos : ℕ}
    → At bytes pos (e ++ rest)
    → At bytes (pos + length e) rest
At-skip e {bytes} {rest} {pos} h = record {
  left = drop-drop pos (length e) bytes ∙ ap (drop (length e)) h.left ∙ drop-append e rest;
  within = omega (arith, h.within, length-append e rest);
}

-- `m` consumes the encoding `e` and returns `a`, whatever follows.
pub record Reads {A : Type 0} (m : Reader A) (a : A) (e : Bytes) : Type 0 where
  pub run :
      (bytes : Bytes) (pos : ℕ) (rest : Bytes)
      → At bytes pos (e ++ rest)
      → m bytes pos ≡ ok (a, pos + length e)

pub Reads-bind :
    {A B : Type 0} (m : Reader A) (f : A → Reader B) (a : A) {b : B} {d e : Bytes}
    → Reads m a d
    → Reads (f a) b e
    → Reads (m >>= f) b (d ++ e)
unfolding ◌>>=◌
Reads-bind m f a {b} {d} {e} hm hf = record {
  run = λ bytes pos rest h.
      let h' : At bytes pos (d ++ (e ++ rest)) = rw (append_assoc d e rest) at h in
      rw (hm.run bytes pos (e ++ rest) h', ◌>>=◌)
        (hf.run bytes (pos + length d) rest (At-skip d h')
          ∙ ap (λ n. ok (b, n)) (omega (arith, length-append d e)));
}

pub Reads-pure : {A : Type 0} (a : A) → Reads (pure a) a []
unfolding pure
Reads-pure a = record { run = λ bytes pos rest h. ap (λ n. ok (a, n)) (omega arith) }

-- A last step that only wraps what was read.
pub Reads-map :
    {A B : Type 0} (m : Reader A) (g : A → B) (a : A) {e : Bytes}
    → Reads m a e
    → Reads (m >>= λ x. pure (g x)) (g a) e
Reads-map m g a {e} h = subst (Reads _ _) (append-nil e) (Reads-bind m _ a h (Reads-pure (g a)))

pub Reads-slice : (e : Bytes) (n : ℕ) (er : ℕ → Error) → length e ≡ n → Reads (read_slice n er) e e
unfolding read_slice
Reads-slice e n er len = record {
  run = λ bytes pos rest h.
      let enough : pos + n ≤ length bytes = omega (arith, h.within, length-append e rest) in
      rw (le→ltb (length bytes) (pos + n) enough)
        (rw (h.left, ← len) (ap (λ l. ok (l, pos + length e)) (take-append e rest)));
}

pub Reads-unchecked : (e : Bytes) (n : ℕ) → length e ≡ n → Reads (slice n) e e
unfolding slice
Reads-unchecked e n len = record {
  run = λ bytes pos rest h.
      rw (h.left, ← len) (ap (λ l. ok (l, pos + length e)) (take-append e rest));
}

-- The element of a fixed layout that starts at a known offset, and the step to the next one.
pub At-field :
    (e : Bytes) (n : ℕ) (rest : Bytes) {bytes : Bytes} {pos : ℕ}
    → length e ≡ n
    → At bytes pos (e ++ rest)
    → take n (drop pos bytes) ≡ e
At-field e n rest {bytes} {pos} len h = rw (h.left, ← len) (take-append e rest)

pub At-next :
    (e : Bytes) (n : ℕ) (rest : Bytes) {bytes : Bytes} {pos : ℕ}
    → length e ≡ n
    → At bytes pos (e ++ rest)
    → At bytes (pos + n) rest
At-next e n rest len h = rw (← len) (At-skip e h)

pub Reads-byte : (b : ℕ) (er : Error) → Reads (read_byte er) b (b ∷ [])
unfolding read_byte
Reads-byte b er = record {
  run = λ bytes pos rest h.
      let more : pos < length bytes = omega (arith, h.within) in
      ground (arith, get_or-drop pos bytes 0 b rest h.left);
}

-- A big-endian number of `k` bytes that fits.
pub Reads-number :
    {A : Type 0} (k n : ℕ) (er : ℕ → Error) (f : ℕ → Reader A) {a : A} {e : Bytes}
    → n < 256 ^ k
    → Reads (f n) a e
    → Reads (read_slice k er >>= λ val. f (from_be val)) a (to_be k n ++ e)
Reads-number k n er f fits hf =
    Reads-bind _ _ (to_be k n) (Reads-slice (to_be k n) k er (length-to_be k n))
      (rw (from_be-to_be k n fits) hf)

pub Reads-u16 : (n : ℕ) → n < 2 ^ 16 → Reads read_u16 n (to_be 2 n)
unfolding read_u16
Reads-u16 n h = rw append-nil at (Reads-number 2 n unexpected_end pure h (Reads-pure n))

pub Reads-u64 : (n : ℕ) → n < 2 ^ 64 → Reads read_u64 n (to_be 8 n)
unfolding read_u64
Reads-u64 n h = rw append-nil at (Reads-number 8 n unexpected_end pure h (Reads-pure n))

pub Reads-length_prefixed_u16 :
    (l : Bytes) → length l < 2 ^ 16 → Reads read_length_prefixed_u16 l (write_length_prefixed_u16 l)
unfolding read_length_prefixed_u16 write_length_prefixed_u16
Reads-length_prefixed_u16 l h =
    let low : length l % 2 ^ 16 ≡ length l = omega arith in
    rw low (Reads-bind _ _ (length l) (Reads-u16 (length l) h) (Reads-slice l (length l) _ refl))

pub Reads-length_prefixed_u32 :
    (l : Bytes) → length l < 2 ^ 32 → Reads read_length_prefixed_u32 l (write_length_prefixed_u32 l)
unfolding read_length_prefixed_u32 write_length_prefixed_u32
Reads-length_prefixed_u32 l h =
    let low : length l % 2 ^ 32 ≡ length l = omega arith in
    rw low (
      Reads-number 4 (length l) _ (λ n. read_slice n (λ pos. unexpected_end_need pos n)) h
        (Reads-slice l (length l) _ refl))

pub Reads-utf8 : (s : Bytes) → utf8_valid s ≡ true → Reads (utf8_string s) s []
unfolding utf8_string
Reads-utf8 s h = record {
  run =
      λ bytes pos rest a. rw (from_utf8_valid s h, utf8_string) (ap (λ n. ok (s, n)) (omega arith));
}

pub length-length_prefixed_u16 : (l : Bytes) → length (write_length_prefixed_u16 l) ≡ 2 + length l
unfolding write_length_prefixed_u16
length-length_prefixed_u16 l =
    omega (arith, length-append (to_be 2 (length l % 2 ^ 16)) l, length-to_be 2 (length l % 2 ^ 16))

pub length-length_prefixed_u32 : (l : Bytes) → length (write_length_prefixed_u32 l) ≡ 4 + length l
unfolding write_length_prefixed_u32
length-length_prefixed_u32 l =
    omega (arith, length-append (to_be 4 (length l % 2 ^ 32)) l, length-to_be 4 (length l % 2 ^ 32))
