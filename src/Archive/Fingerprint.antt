-- ===== src/Archive/Fingerprint.antt =====
-- `ComputationFingerprint` of src/archive.rs: its digest, and its wire format.
pub mod RoundTrip
pub mod Digest
use cachee_cli.Base.{ℕ, ◌+◌, ◌%◌, ◌^◌, Bytes, Str, Option, none, some, List, [], ◌∷◌, ◌++◌, Bool}
use cachee_cli.Base.{
  Result, ok, err, length, ltb, leb, ◌==◌, not, ◌&&◌, if◌then◌else◌, to_be, from_be,
}
use cachee_cli.Base.{concat, bytes_eq}
use cachee_cli.Archive.Types.{ComputationFingerprint, ComputationVersion, HardwareClass, Codecs}
use cachee_cli.Archive.Types.{deterministic, near_deterministic, non_deterministic, zero_hash}
use cachee_cli.Archive.Wire
use cachee_cli.Archive.Wire.{Error, Reader, pure, ◌>>=◌, slice, read_slice, read_byte, utf8_string}
use cachee_cli.Archive.Wire.{write_length_prefixed_u16}

-- The chunks that `digest` feeds to the hasher.
unfoldable pub circuit_text : Option Str → Bytes
circuit_text none = []
circuit_text (some id) = id

unfoldable pub hardware_text : Option HardwareClass → Bytes
hardware_text none = 0 ∷ []
hardware_text (some deterministic) = 1 ∷ []
hardware_text (some near_deterministic) = 2 ∷ []
hardware_text (some (non_deterministic id)) = 3 ∷ id

unfoldable pub digest_input : ComputationFingerprint → Bytes
unfolding circuit_text hardware_text
digest_input fp = concat (
    fp.input_hash
    ∷ fp.computation_hash
    ∷ fp.parameter_hash
    ∷ fp.version.engine
    ∷ fp.version.version
    ∷ circuit_text fp.version.circuit_id
    ∷ hardware_text fp.hardware_class
    ∷ [])

unfoldable pub digest : Codecs → ComputationFingerprint → Bytes
digest c fp = c.sha3_256 (digest_input fp)

-- `input_hash` and `computation_hash` are not all zeros: `has_valid_fingerprint`.
unfoldable pub has_valid_hashes : ComputationFingerprint → Bool
has_valid_hashes fp =
    not (bytes_eq fp.input_hash zero_hash) && not (bytes_eq fp.computation_hash zero_hash)

unfoldable pub circuit_bytes : Option Str → Bytes
circuit_bytes (some id) = 1 ∷ write_length_prefixed_u16 id
circuit_bytes none = 0 ∷ []

unfoldable pub hardware_bytes : Option HardwareClass → Bytes
hardware_bytes none = 0 ∷ []
hardware_bytes (some deterministic) = 1 ∷ []
hardware_bytes (some near_deterministic) = 2 ∷ []
hardware_bytes (some (non_deterministic id)) = 3 ∷ write_length_prefixed_u16 id

unfoldable pub fingerprint_to_bytes : ComputationFingerprint → Bytes
fingerprint_to_bytes fp = concat (
    fp.input_hash
    ∷ fp.computation_hash
    ∷ fp.parameter_hash
    ∷ write_length_prefixed_u16 fp.version.engine
    ∷ write_length_prefixed_u16 fp.version.version
    ∷ circuit_bytes fp.version.circuit_id
    ∷ hardware_bytes fp.hardware_class
    ∷ [])

-- Two bytes of length, the text, and its UTF-8 check: the four strings differ in their messages.
unfoldable pub read_string : Error → Error → Reader Str
read_string no_length truncated = do
  len ← read_slice 2 (λ _. no_length)
  text ← read_slice (from_be len) (λ _. truncated)
  utf8_string text

unfoldable pub circuit_body : ℕ → Reader (Option Str)
circuit_body has_circuit =
    if has_circuit == 1
    then (do cid ← read_string Wire.fp_circuit_length Wire.fp_circuit_truncated; pure (some cid))
    else pure none

unfoldable pub read_circuit_id : Reader (Option Str)
read_circuit_id = do has_circuit ← read_byte Wire.fp_circuit_flag; circuit_body has_circuit

unfoldable pub hardware_body : ℕ → Reader (Option HardwareClass)
hardware_body hw_tag =
    if hw_tag == 0
    then pure none
    else if hw_tag == 1
    then pure (some deterministic)
    else if hw_tag == 2
    then pure (some near_deterministic)
    else if hw_tag == 3
    then (do
      id ← read_string Wire.fp_hw_id_length Wire.fp_hw_id_truncated
      pure (some (non_deterministic id)))
    else (λ bytes pos. err (Wire.fp_invalid_hw_class hw_tag))

unfoldable pub read_hardware_class : Reader (Option HardwareClass)
read_hardware_class = do hw_tag ← read_byte Wire.fp_hardware; hardware_body hw_tag

unfoldable pub read_fingerprint : Reader ComputationFingerprint
read_fingerprint = do
  input_hash ← slice 32
  computation_hash ← slice 32
  parameter_hash ← slice 32
  engine ← read_string Wire.fp_engine_length Wire.fp_engine_truncated
  version_str ← read_string Wire.fp_version_length Wire.fp_version_truncated
  circuit_id ← read_circuit_id
  hardware_class ← read_hardware_class
  pure (record {
    input_hash = input_hash;
    computation_hash = computation_hash;
    parameter_hash = parameter_hash;
    version = record { engine = engine; version = version_str; circuit_id = circuit_id };
    hardware_class = hardware_class;
  })

-- The fingerprint and the number of bytes consumed.
unfoldable pub fingerprint_from_bytes : Bytes → Result Error (ComputationFingerprint × ℕ)
fingerprint_from_bytes bytes =
    if ltb (length bytes) 96 then err Wire.fp_too_short else read_fingerprint bytes 0
