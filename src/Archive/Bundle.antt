-- ===== src/Archive/Bundle.antt =====
-- `CacheeArchiveBundle` of src/archive.rs: its content address, and its wire format.
pub mod Kinds
pub mod Parts
pub mod RoundTrip
pub mod Size
use cachee_cli.Base.{
  ℕ, ◌+◌, Bytes, Option, none, some, List, [], ◌∷◌, ◌++◌, Result, ok, err, length,
}
use cachee_cli.Base.{ltb, leb, ◌==◌, not, if◌then◌else◌, to_be, drop, concat, bytes_eq}
use cachee_cli.Archive.Types.{
  CacheeArchiveBundle, SignerPublicKeys, SignatureBundle, SignerIdentity,
}
use cachee_cli.Archive.Types.{
  H33Primitive, OnChainAnchor, CompletenessLevel, ComputationFingerprint,
}
use cachee_cli.Archive.Types.{
  complete, partial, minimal_viable, Codecs, to_u16, from_u16, cab_magic,
}
use cachee_cli.Archive.Types.{default_identity}
use cachee_cli.Archive.Primitive.{primitive_to_bytes, primitive_from_bytes, primitive_size}
use cachee_cli.Archive.Primitive.{anchor_to_bytes, anchor_from_bytes, anchor_size}
use cachee_cli.Archive.Fingerprint.{digest, fingerprint_to_bytes, fingerprint_from_bytes}
use cachee_cli.Archive.Wire
use cachee_cli.Archive.Wire.{Error, Reader, pure, ◌>>=◌, read_slice, read_byte, read_u16, read_u64}
use cachee_cli.Archive.Wire.{read_length_prefixed_u16, read_length_prefixed_u32}
use cachee_cli.Archive.Wire.{write_length_prefixed_u16, write_length_prefixed_u32}

unfoldable pub address_input : Codecs → CacheeArchiveBundle → Bytes
address_input c b =
    concat
      (primitive_to_bytes b.primitive ∷ b.content_hash ∷ digest c b.computation_fingerprint ∷ [])

unfoldable pub content_address : Codecs → CacheeArchiveBundle → Bytes
content_address c b = c.sha3_256 (address_input c b)

unfoldable pub keys_bytes : SignerPublicKeys → Bytes
keys_bytes k = concat (
    write_length_prefixed_u16 k.mldsa65
    ∷ write_length_prefixed_u16 k.falcon512
    ∷ write_length_prefixed_u16 k.slhdsa128f
    ∷ [])

unfoldable pub signatures_bytes : SignatureBundle → Bytes
signatures_bytes s = concat (
    write_length_prefixed_u16 s.mldsa65
    ∷ write_length_prefixed_u16 s.falcon512
    ∷ write_length_prefixed_u16 s.slhdsa128f
    ∷ [])

unfoldable pub anchor_part : Option OnChainAnchor → Bytes
anchor_part (some a) = 1 ∷ anchor_to_bytes a
anchor_part none = 0 ∷ []

unfoldable pub completeness_tag : CompletenessLevel → ℕ
completeness_tag complete = 0
completeness_tag partial = 1
completeness_tag minimal_viable = 2

-- `serde_json::to_vec(…).unwrap_or_default()`
unfoldable pub identity_json : Codecs → SignerIdentity → Bytes
identity_json c i = elim (c.identity_to_json i) [ none ↦ [] | some j ↦ j ]

unfoldable pub serialize : Codecs → CacheeArchiveBundle → Bytes
serialize c b = concat (
    b.magic
    ∷ to_be 2 b.version
    ∷ primitive_to_bytes b.primitive
    ∷ b.content_hash
    ∷ to_be 2 (to_u16 b.computation_type)
    ∷ to_be 8 b.timestamp_ns
    ∷ keys_bytes b.signer_keys
    ∷ signatures_bytes b.signatures
    ∷ write_length_prefixed_u32 b.metadata
    ∷ anchor_part b.on_chain_anchor
    ∷ (completeness_tag b.completeness ∷ [])
    ∷ write_length_prefixed_u32 (fingerprint_to_bytes b.computation_fingerprint)
    ∷ write_length_prefixed_u32 (identity_json c b.signer_identity)
    ∷ [])

unfoldable pub check_magic : Bytes → Reader Bytes
check_magic magic =
    if not (bytes_eq magic cab_magic)
    then (λ bytes pos. err (Wire.invalid_magic magic))
    else pure magic

unfoldable pub read_magic : Reader Bytes
read_magic = do magic ← read_slice 4 (λ _. Wire.missing_magic); check_magic magic

-- The length test, then `H33Primitive::from_bytes(&bytes[pos..])`.
unfoldable pub read_primitive : Reader H33Primitive
read_primitive bytes pos =
    if ltb (length bytes) (pos + primitive_size)
    then err Wire.missing_primitive
    else elim (primitive_from_bytes (drop pos bytes)) [
      | none ↦ err Wire.parse_primitive
      | some p ↦ ok (p, pos + primitive_size)
    ]

unfoldable pub read_signer_keys : Reader SignerPublicKeys
read_signer_keys = do
  mldsa65_pk ← read_length_prefixed_u16
  falcon512_pk ← read_length_prefixed_u16
  slhdsa128f_pk ← read_length_prefixed_u16
  pure (record { mldsa65 = mldsa65_pk; falcon512 = falcon512_pk; slhdsa128f = slhdsa128f_pk })

unfoldable pub read_signatures : Reader SignatureBundle
read_signatures = do
  mldsa65_sig ← read_length_prefixed_u16
  falcon512_sig ← read_length_prefixed_u16
  slhdsa128f_sig ← read_length_prefixed_u16
  pure (record { mldsa65 = mldsa65_sig; falcon512 = falcon512_sig; slhdsa128f = slhdsa128f_sig })

unfoldable pub read_anchor_body : Reader OnChainAnchor
read_anchor_body bytes pos =
    if ltb (length bytes) (pos + anchor_size)
    then err Wire.missing_anchor
    else elim (anchor_from_bytes (drop pos bytes)) [
      | none ↦ err Wire.parse_anchor
      | some a ↦ ok (a, pos + anchor_size)
    ]

unfoldable pub anchor_branch : ℕ → Reader (Option OnChainAnchor)
anchor_branch has_anchor =
    if has_anchor == 1 then (read_anchor_body >>= λ a. pure (some a)) else pure none

unfoldable pub read_anchor : Reader (Option OnChainAnchor)
read_anchor = do has_anchor ← read_byte Wire.missing_anchor_flag; anchor_branch has_anchor

unfoldable pub completeness_branch : ℕ → Reader CompletenessLevel
completeness_branch t =
    if t == 0
    then pure complete
    else if t == 1
    then pure partial
    else if t == 2
    then pure minimal_viable
    else (λ bytes pos. err (Wire.invalid_completeness t))

unfoldable pub read_completeness : Reader CompletenessLevel
read_completeness = do t ← read_byte Wire.missing_completeness; completeness_branch t

-- `ComputationFingerprint::from_bytes(&fp_data)?`: the count of bytes is dropped.
unfoldable pub parse_fingerprint_blob : Bytes → Reader ComputationFingerprint
parse_fingerprint_blob fp_data bytes pos = elim (fingerprint_from_bytes fp_data) [
  | ok (fp, _) ↦ ok (fp, pos)
  | err e ↦ err e
]

unfoldable pub read_fingerprint_blob : Reader ComputationFingerprint
read_fingerprint_blob = do fp_data ← read_length_prefixed_u32; parse_fingerprint_blob fp_data

unfoldable pub parse_identity : Codecs → Bytes → SignerIdentity
parse_identity c [] = default_identity
parse_identity c (j ∷ js) = elim (c.identity_of_json (j ∷ js)) [
  | none ↦ default_identity
  | some i ↦ i
]

-- An absent or unreadable blob gives the default identity: this part never fails. No later read
-- uses the position.
unfoldable pub read_identity : Codecs → Reader SignerIdentity
read_identity c bytes pos =
    if leb (pos + 4) (length bytes)
    then (elim (read_length_prefixed_u32 bytes pos) [
      | ok (identity_data, pos') ↦ ok (parse_identity c identity_data, pos')
      | err e ↦ ok (parse_identity c [], pos)
    ])
    else ok (default_identity, pos)

unfoldable pub read_bundle : Codecs → Reader CacheeArchiveBundle
read_bundle c = do
  magic ← read_magic
  version ← read_u16
  primitive ← read_primitive
  content_hash ← read_slice 32 (λ _. Wire.missing_content_hash)
  comp_type_raw ← read_u16
  timestamp_ns ← read_u64
  signer_keys ← read_signer_keys
  signatures ← read_signatures
  metadata ← read_length_prefixed_u32
  on_chain_anchor ← read_anchor
  completeness ← read_completeness
  computation_fingerprint ← read_fingerprint_blob
  signer_identity ← read_identity c
  pure (record {
    magic = magic;
    version = version;
    primitive = primitive;
    content_hash = content_hash;
    computation_type = from_u16 comp_type_raw;
    timestamp_ns = timestamp_ns;
    signer_keys = signer_keys;
    signatures = signatures;
    metadata = metadata;
    on_chain_anchor = on_chain_anchor;
    completeness = completeness;
    computation_fingerprint = computation_fingerprint;
    signer_identity = signer_identity;
  })

-- Bytes after the bundle are ignored.
unfoldable pub deserialize : Codecs → Bytes → Result Error CacheeArchiveBundle
deserialize c bytes = elim (read_bundle c bytes 0) [ ok (b, _) ↦ ok b | err e ↦ err e ]
