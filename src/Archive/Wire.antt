-- ===== src/Archive/Wire.antt =====
-- The wire helpers of src/archive.rs. `Reader A` is a function of `bytes` and `&mut pos`: it returns
-- the value with the new position, or the error. A slice `bytes[pos..pos + n]` stands behind the
-- length test that keeps it in range, as in the source.
pub mod Laws
use cachee_cli.Base.{ℕ, ◌+◌, ◌%◌, ◌^◌, Bytes, Option, none, some, ◌++◌, Result, ok, err, length}
use cachee_cli.Base.{take, drop, get_or, ltb, leb, if◌then◌else◌, to_be, from_be, from_utf8, Bool}

-- One constructor for each message of `bail!`, with the numbers that the message prints.
pub data Error : Type 0 where
  missing_magic missing_primitive parse_primitive missing_content_hash : Error
  missing_anchor_flag missing_anchor parse_anchor missing_completeness : Error
  invalid_magic : Bytes → Error
  invalid_completeness : ℕ → Error
  unexpected_end : ℕ → Error
  unexpected_end_need : ℕ → ℕ → Error
  fp_too_short fp_engine_length fp_engine_truncated fp_version_length fp_version_truncated : Error
  fp_circuit_flag fp_circuit_length fp_circuit_truncated fp_hardware : Error
  fp_hw_id_length fp_hw_id_truncated invalid_utf8 : Error
  fp_invalid_hw_class : ℕ → Error

abbrev pub Reader : Type 0 → Type 0
Reader A = Bytes → ℕ → Result Error (A × ℕ)

unfoldable pub pure : {A : Type 0} → A → Reader A
pure a bytes pos = ok (a, pos)

infixl 5 ◌>>=◌
unfoldable pub ◌>>=◌ : {A B : Type 0} → Reader A → (A → Reader B) → Reader B
◌>>=◌ m f bytes pos = elim (m bytes pos) [ ok (a, pos') ↦ f a bytes pos' | err e ↦ err e ]

-- `if bytes.len() < pos + n { bail!(e) }`, then `bytes[pos..pos + n]` and `pos += n`.
unfoldable pub read_slice : ℕ → (ℕ → Error) → Reader Bytes
read_slice n e bytes pos =
    if ltb (length bytes) (pos + n) then err (e pos) else ok (take n (drop pos bytes), pos + n)

-- A slice with no test of its own, where an earlier test covers it.
unfoldable pub slice : ℕ → Reader Bytes
slice n bytes pos = ok (take n (drop pos bytes), pos + n)

-- `if pos >= bytes.len() { bail!(e) }`, then `bytes[pos]` and `pos += 1`.
unfoldable pub read_byte : Error → Reader ℕ
read_byte e bytes pos = if leb (length bytes) pos then err e else ok (get_or bytes pos 0, pos + 1)

unfoldable pub read_u16 : Reader ℕ
read_u16 = do val ← read_slice 2 unexpected_end; pure (from_be val)

unfoldable pub read_u64 : Reader ℕ
read_u64 = do val ← read_slice 8 unexpected_end; pure (from_be val)

unfoldable pub read_length_prefixed_u16 : Reader Bytes
read_length_prefixed_u16 = do len ← read_u16; read_slice len (λ pos. unexpected_end_need pos len)

unfoldable pub read_length_prefixed_u32 : Reader Bytes
read_length_prefixed_u32 = do
  len ← read_slice 4 unexpected_end
  read_slice (from_be len) (λ pos. unexpected_end_need pos (from_be len))

-- `(data.len() as u16).to_be_bytes()`, then the data: the cast keeps the low 16 bits.
unfoldable pub write_length_prefixed_u16 : Bytes → Bytes
write_length_prefixed_u16 contents = to_be 2 (length contents % 2 ^ 16) ++ contents

-- The same with `as u32`, which the serializer writes out three times.
unfoldable pub write_length_prefixed_u32 : Bytes → Bytes
write_length_prefixed_u32 contents = to_be 4 (length contents % 2 ^ 32) ++ contents

-- `String::from_utf8(…)?`
unfoldable pub utf8_string : Bytes → Reader Bytes
utf8_string contents bytes pos = elim (from_utf8 contents) [
  | none ↦ err invalid_utf8
  | some s ↦ ok (s, pos)
]
