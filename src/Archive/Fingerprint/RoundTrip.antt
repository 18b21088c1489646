-- ===== src/Archive/Fingerprint/RoundTrip.antt =====
-- Reading back a serialized fingerprint.
use cachee_cli.Base.{◌%◌, ◌^◌, ◌≤◌, ◌<◌, Bytes, Str, Option, none, some, ◌++◌, ◌≡◌, refl}
use cachee_cli.Base.{ok, length, utf8_valid, true, arith, ap, ◌∙◌, length-append, le→ltb}
use cachee_cli.Archive.Types.{ComputationFingerprint, HardwareClass}
use cachee_cli.Archive.Types.{deterministic, near_deterministic, non_deterministic}
use cachee_cli.Archive.Wire.{Error, ◌>>=◌, read_slice, utf8_string, write_length_prefixed_u16}
use cachee_cli.Archive.Wire.Laws.{
  At-start, Reads, Reads-bind, Reads-map, Reads-pure, Reads-byte, Reads-number,
}
use cachee_cli.Archive.Wire.Laws.{Reads-slice, Reads-unchecked, Reads-utf8}
use cachee_cli.Archive.Fingerprint.{fingerprint_to_bytes, fingerprint_from_bytes, read_fingerprint}
use cachee_cli.Archive.Fingerprint.{read_string, read_circuit_id, circuit_body, circuit_bytes}
use cachee_cli.Archive.Fingerprint.{read_hardware_class, hardware_body, hardware_bytes}
use mathlib.Core.List.{append-nil}

-- A `String` is UTF-8, and its length fits the 16-bit prefix.
pub record FitsString (s : Str) : Type 0 where
  pub utf8 : utf8_valid s ≡ true
  pub short : length s < 2 ^ 16

abbrev pub FitsCircuit : Option Str → Type 0
FitsCircuit none = Unit
FitsCircuit (some id) = FitsString id

abbrev pub FitsHardware : Option HardwareClass → Type 0
FitsHardware (some (non_deterministic id)) = FitsString id
FitsHardware _ = Unit

pub record FingerprintFits (fp : ComputationFingerprint) : Type 0 where
  pub input_hash : length fp.input_hash ≡ 32
  pub computation_hash : length fp.computation_hash ≡ 32
  pub parameter_hash : length fp.parameter_hash ≡ 32
  pub engine : FitsString fp.version.engine
  pub version : FitsString fp.version.version
  pub circuit_id : FitsCircuit fp.version.circuit_id
  pub hardware_class : FitsHardware fp.hardware_class

Reads-string :
    (s : Str) (e f : Error) → FitsString s → Reads (read_string e f) s (write_length_prefixed_u16 s)
unfolding read_string write_length_prefixed_u16
Reads-string s e f fits =
    let low : length s % 2 ^ 16 ≡ length s = omega (arith, fits.short) in
    rw (low) (
      Reads-number 2 (length s) (λ _. e) (λ n. read_slice n (λ _. f) >>= utf8_string) fits.short
        (rw append-nil at (
          Reads-bind (read_slice (length s) (λ _. f)) utf8_string s
            (Reads-slice s (length s) _ refl) (Reads-utf8 s fits.utf8))))

Reads-circuit_id : (o : Option Str) → FitsCircuit o → Reads read_circuit_id o (circuit_bytes o)
unfolding read_circuit_id circuit_bytes circuit_body
Reads-circuit_id none h = Reads-bind _ circuit_body 0 (Reads-byte 0 _) (Reads-pure none)
Reads-circuit_id (some id) h =
    Reads-bind _ circuit_body 1 (Reads-byte 1 _) (Reads-map _ some id (Reads-string id _ _ h))

Reads-hardware_class :
    (o : Option HardwareClass) → FitsHardware o → Reads read_hardware_class o (hardware_bytes o)
unfolding read_hardware_class hardware_bytes hardware_body
Reads-hardware_class none h = Reads-bind _ hardware_body 0 (Reads-byte 0 _) (Reads-pure none)
Reads-hardware_class (some deterministic) h =
    Reads-bind _ hardware_body 1 (Reads-byte 1 _) (Reads-pure (some deterministic))
Reads-hardware_class (some near_deterministic) h =
    Reads-bind _ hardware_body 2 (Reads-byte 2 _) (Reads-pure (some near_deterministic))
Reads-hardware_class (some (non_deterministic id)) h =
    Reads-bind _ hardware_body 3 (Reads-byte 3 _)
      (Reads-map _ (λ x. some (non_deterministic x)) id (Reads-string id _ _ h))

pub Reads-fingerprint :
    (fp : ComputationFingerprint)
    → FingerprintFits fp
    → Reads read_fingerprint fp (fingerprint_to_bytes fp)
unfolding read_fingerprint fingerprint_to_bytes
Reads-fingerprint fp fits = Reads-bind _ _ fp.input_hash (Reads-unchecked _ 32 fits.input_hash) (
    Reads-bind _ _ fp.computation_hash (Reads-unchecked _ 32 fits.computation_hash) (
      Reads-bind _ _ fp.parameter_hash (Reads-unchecked _ 32 fits.parameter_hash) (
        Reads-bind _ _ fp.version.engine (Reads-string _ _ _ fits.engine) (
          Reads-bind _ _ fp.version.version (Reads-string _ _ _ fits.version) (
            Reads-bind _ _ fp.version.circuit_id (Reads-circuit_id _ fits.circuit_id) (
              Reads-bind _ _ fp.hardware_class (Reads-hardware_class _ fits.hardware_class)
                (Reads-pure fp)))))))

pub length-fingerprint_to_bytes :
    (fp : ComputationFingerprint) → FingerprintFits fp → 96 ≤ length (fingerprint_to_bytes fp)
unfolding fingerprint_to_bytes
length-fingerprint_to_bytes fp fits = omega (arith, length-append {0})

-- A fingerprint that fits its 16-bit length prefixes is read back whole, whatever bytes follow, and
-- the count returned is the length of its encoding.
pub fingerprint_from_bytes-to_bytes :
    (fp : ComputationFingerprint) (rest : Bytes)
    → FingerprintFits fp
    → fingerprint_from_bytes (fingerprint_to_bytes fp ++ rest)
      ≡ ok (fp, length (fingerprint_to_bytes fp))
unfolding fingerprint_from_bytes
fingerprint_from_bytes-to_bytes fp rest fits =
    let all = fingerprint_to_bytes fp ++ rest in
    let long : 96 ≤ length all =
      omega (
        arith,
        length-append (fingerprint_to_bytes fp) rest,
        length-fingerprint_to_bytes fp fits,
      ) in
    rw (le→ltb (length all) 96 long) (
      (Reads-fingerprint fp fits).run all 0 rest (At-start all _ refl)
      ∙ ap (λ n. ok (fp, n)) (omega arith))
