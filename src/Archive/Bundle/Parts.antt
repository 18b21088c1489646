-- ===== src/Archive/Bundle/Parts.antt =====
-- What each part of the bundle's reader returns on what the serializer wrote for it.
use cachee_cli.Base.{◌+◌, ◌^◌, ◌≤◌, ◌<◌, Bytes, Option, none, some, [], ◌∷◌, ◌≡◌, ◌≢◌, refl}
use cachee_cli.Base.{ok, length, arith, ap, length-append, le→ltb, le→leb}
use cachee_cli.Base.{bytes_eq_refl}
use cachee_cli.Archive.Types.{SignerPublicKeys, SignatureBundle, SignerIdentity, H33Primitive}
use cachee_cli.Archive.Types.{OnChainAnchor, CompletenessLevel, ComputationFingerprint, Codecs}
use cachee_cli.Archive.Types.{complete, partial, minimal_viable, cab_magic}
use cachee_cli.Archive.Primitive.{primitive_to_bytes, PrimitiveShape, AnchorShape, primitive_size}
use cachee_cli.Archive.Primitive.{
  primitive_from_bytes-to_bytes, length-primitive_to_bytes, anchor_size,
}
use cachee_cli.Archive.Primitive.{
  anchor_from_bytes-to_bytes, length-anchor_to_bytes, anchor_to_bytes,
}
use cachee_cli.Archive.Fingerprint.{fingerprint_to_bytes}
use cachee_cli.Archive.Fingerprint.RoundTrip.{FingerprintFits, fingerprint_from_bytes-to_bytes}
use cachee_cli.Archive.Wire.{write_length_prefixed_u32}
use cachee_cli.Archive.Wire.Laws.{Reads, Reads-bind, Reads-map, Reads-pure, Reads-byte, Reads-slice}
use cachee_cli.Archive.Wire.Laws.{
  length-length_prefixed_u32, Reads-length_prefixed_u16, Reads-length_prefixed_u32,
}
use cachee_cli.Archive.Bundle.{
  read_magic, check_magic, read_primitive, read_signer_keys, keys_bytes,
}
use cachee_cli.Archive.Bundle.{read_signatures, signatures_bytes, read_anchor_body, anchor_branch}
use cachee_cli.Archive.Bundle.{read_anchor, anchor_part, completeness_branch, read_completeness}
use cachee_cli.Archive.Bundle.{completeness_tag, parse_fingerprint_blob, read_fingerprint_blob}
use cachee_cli.Archive.Bundle.{parse_identity, read_identity, identity_json}
use mathlib.Core.List.{append-nil}
use mathlib.Core.Path.{subst}

pub Reads-magic : Reads read_magic cab_magic cab_magic
unfolding read_magic check_magic
Reads-magic = subst (Reads _ _) (append-nil cab_magic) (
    Reads-bind _ check_magic cab_magic (Reads-slice cab_magic 4 _ refl)
      (rw (bytes_eq_refl cab_magic) (Reads-pure cab_magic)))

pub Reads-primitive :
    (p : H33Primitive) → PrimitiveShape p → Reads read_primitive p (primitive_to_bytes p)
unfolding read_primitive
Reads-primitive p s = record {
  run = λ bytes pos rest h.
      let size = length-primitive_to_bytes p s in
      let long : pos + primitive_size ≤ length bytes =
        omega (arith, h.within, length-append (primitive_to_bytes p) rest) in
      rw (le→ltb (length bytes) (pos + primitive_size) long)
        (rw (h.left, primitive_from_bytes-to_bytes p rest s, size) refl);
}

Reads-anchor_body :
    (a : OnChainAnchor) → AnchorShape a → Reads read_anchor_body a (anchor_to_bytes a)
unfolding read_anchor_body
Reads-anchor_body a s = record {
  run = λ bytes pos rest h.
      let size = length-anchor_to_bytes a s in
      let long : pos + anchor_size ≤ length bytes =
        omega (arith, h.within, length-append (anchor_to_bytes a) rest) in
      rw (le→ltb (length bytes) (pos + anchor_size) long)
        (rw (h.left, anchor_from_bytes-to_bytes a rest s, size) refl);
}

pub record KeysFit (k : SignerPublicKeys) : Type 0 where
  pub mldsa65 : length k.mldsa65 < 2 ^ 16
  pub falcon512 : length k.falcon512 < 2 ^ 16
  pub slhdsa128f : length k.slhdsa128f < 2 ^ 16

pub record SignaturesFit (s : SignatureBundle) : Type 0 where
  pub mldsa65 : length s.mldsa65 < 2 ^ 16
  pub falcon512 : length s.falcon512 < 2 ^ 16
  pub slhdsa128f : length s.slhdsa128f < 2 ^ 16

pub Reads-signer_keys : (k : SignerPublicKeys) → KeysFit k → Reads read_signer_keys k (keys_bytes k)
unfolding read_signer_keys keys_bytes
Reads-signer_keys k fits = Reads-bind _ _ k.mldsa65 (Reads-length_prefixed_u16 _ fits.mldsa65) (
    Reads-bind _ _ k.falcon512 (Reads-length_prefixed_u16 _ fits.falcon512)
      (Reads-bind _ _ k.slhdsa128f (Reads-length_prefixed_u16 _ fits.slhdsa128f) (Reads-pure k)))

pub Reads-signatures :
    (s : SignatureBundle) → SignaturesFit s → Reads read_signatures s (signatures_bytes s)
unfolding read_signatures signatures_bytes
Reads-signatures s fits = Reads-bind _ _ s.mldsa65 (Reads-length_prefixed_u16 _ fits.mldsa65) (
    Reads-bind _ _ s.falcon512 (Reads-length_prefixed_u16 _ fits.falcon512)
      (Reads-bind _ _ s.slhdsa128f (Reads-length_prefixed_u16 _ fits.slhdsa128f) (Reads-pure s)))

abbrev pub AnchorFits : Option OnChainAnchor → Type 0
AnchorFits none = Unit
AnchorFits (some a) = AnchorShape a

pub Reads-anchor : (o : Option OnChainAnchor) → AnchorFits o → Reads read_anchor o (anchor_part o)
unfolding read_anchor anchor_part anchor_branch
Reads-anchor none h = Reads-bind _ anchor_branch 0 (Reads-byte 0 _) (Reads-pure none)
Reads-anchor (some a) h =
    Reads-bind _ anchor_branch 1 (Reads-byte 1 _) (Reads-map _ some a (Reads-anchor_body a h))

pub Reads-completeness :
    (l : CompletenessLevel) → Reads read_completeness l (completeness_tag l ∷ [])
unfolding read_completeness completeness_tag completeness_branch
Reads-completeness complete =
    Reads-bind _ completeness_branch 0 (Reads-byte 0 _) (Reads-pure complete)
Reads-completeness partial =
    Reads-bind _ completeness_branch 1 (Reads-byte 1 _) (Reads-pure partial)
Reads-completeness minimal_viable =
    Reads-bind _ completeness_branch 2 (Reads-byte 2 _) (Reads-pure minimal_viable)

parse_fingerprint_blob-Reads :
    (fp : ComputationFingerprint)
    → FingerprintFits fp
    → Reads (parse_fingerprint_blob (fingerprint_to_bytes fp)) fp []
unfolding parse_fingerprint_blob
parse_fingerprint_blob-Reads fp fits = record {
  run = λ bytes pos rest h.
      let parsed = fingerprint_from_bytes-to_bytes fp [] fits in
      let whole = append-nil (fingerprint_to_bytes fp) in
      rw (rw whole at parsed, parse_fingerprint_blob) (ap (λ n. ok (fp, n)) (omega arith));
}

pub Reads-fingerprint_blob :
    (fp : ComputationFingerprint)
    → FingerprintFits fp
    → length (fingerprint_to_bytes fp) < 2 ^ 32
    → Reads read_fingerprint_blob fp (write_length_prefixed_u32 (fingerprint_to_bytes fp))
unfolding read_fingerprint_blob
Reads-fingerprint_blob fp fits short = subst (Reads _ _) (append-nil _) (
    Reads-bind _ parse_fingerprint_blob (fingerprint_to_bytes fp)
      (Reads-length_prefixed_u32 _ short) (parse_fingerprint_blob-Reads fp fits))

-- What `serde_json` does with one identity: its text is not empty, fits a 32-bit length, and is
-- parsed back.
pub record JsonRoundTrips (c : Codecs) (i : SignerIdentity) : Type 0 where
  pub text : Bytes
  pub written : c.identity_to_json i ≡ some text
  pub not_empty : text ≢ []
  pub short : length text < 2 ^ 32
  pub parsed : c.identity_of_json text ≡ some i

parse_identity-parsed :
    (c : Codecs) (text : Bytes) (i : SignerIdentity)
    → text ≢ []
    → c.identity_of_json text ≡ some i
    → parse_identity c text ≡ i
unfolding parse_identity
parse_identity-parsed c [] i h e = absurd (h refl)
parse_identity-parsed c (j ∷ js) i h e = rw (e, parse_identity)

pub Reads-identity :
    (c : Codecs) (i : SignerIdentity)
    → JsonRoundTrips c i
    → Reads (read_identity c) i (write_length_prefixed_u32 (identity_json c i))
unfolding read_identity identity_json
Reads-identity c i json =
    rw (json.written, identity_json)
      (record {
        run = λ bytes pos rest h.
            let e = write_length_prefixed_u32 json.text in
            let room : pos + 4 ≤ length bytes =
              omega (arith, h.within, length-append e rest, length-length_prefixed_u32 json.text) in
            let r = (Reads-length_prefixed_u32 json.text json.short).run bytes pos rest h in
            rw (le→leb (pos + 4) (length bytes) room) (
              rw r (
                ap (λ j. ok (j, pos + length e))
                  (parse_identity-parsed c json.text i json.not_empty json.parsed)));
      })
