-- ===== src/Examples/Bundles.antt =====
-- The theorems on bundles, at concrete bundles.
use cachee_cli.Base.{◌<◌, true, [], ◌∷◌, ◌++◌, ◌≡◌, ◌↔◌, refl, ok, length, utf8_valid, arith, ascii}
use cachee_cli.Archive.Types.{cab_magic, to_u16, custom}
use cachee_cli.Archive.Primitive.{PrimitiveShape, AnchorShape}
use cachee_cli.Archive.Fingerprint.{fingerprint_from_bytes, fingerprint_to_bytes}
use cachee_cli.Archive.Fingerprint.RoundTrip.{FingerprintFits, fingerprint_from_bytes-to_bytes}
use cachee_cli.Archive.Bundle.Kinds.{FitsU16}
use cachee_cli.Archive.Bundle.{serialize, deserialize}
use cachee_cli.Archive.Bundle.RoundTrip.{BundleFits, deserialize-serialize}
use cachee_cli.Archive.Bundle.Size.{compressed_size, length-serialize}
use cachee_cli.Archive.Verify.{verify, is_valid}
use cachee_cli.Archive.Verify.Verdict.{TwoFamiliesAccept, is_valid-verify}
use cachee_cli.Federation.{accept_remote_bundle, trusted_peers, accepted}
use cachee_cli.Federation.Acceptance.{accepted_iff, HasFingerprint, BoundaryAllows, IssuerListed}
use cachee_cli.Examples.{
  toy_crypto, toy_codecs, toy_fingerprint, toy_primitive, toy_anchor, toy_bundle,
}

toy_primitive-PrimitiveShape : PrimitiveShape toy_primitive
toy_primitive-PrimitiveShape = record {
  version = omega arith;
  timestamp = refl;
  value_hash = refl;
  mldsa_prefix = refl;
  falcon_prefix = refl;
  slhdsa_prefix = refl;
  flags = refl;
}

toy_anchor-AnchorShape : AnchorShape toy_anchor
toy_anchor-AnchorShape = record { hash = refl; retrieval_pointer = refl }

toy_fingerprint-FingerprintFits : FingerprintFits toy_fingerprint
unfolding utf8_valid
toy_fingerprint-FingerprintFits = record {
  input_hash = refl;
  computation_hash = refl;
  parameter_hash = refl;
  engine = record { utf8 = refl; short = omega arith };
  version = record { utf8 = refl; short = omega arith };
  circuit_id = record { utf8 = refl; short = omega arith };
  hardware_class = record { utf8 = refl; short = omega arith };
}

small : FitsU16 (custom 300)
unfolding to_u16
small = omega arith

pub toy_bundle-BundleFits : BundleFits toy_codecs toy_bundle
toy_bundle-BundleFits = record {
  magic = refl;
  version = omega arith;
  primitive = toy_primitive-PrimitiveShape;
  content_hash = refl;
  canonical = (
    λ e. omega arith,
    λ e. omega arith,
    λ e. omega arith,
    λ e. omega arith,
    λ e. omega arith,
    λ e. omega arith,
  );
  computation_type = small;
  timestamp_ns = omega arith;
  signer_keys = record { mldsa65 = omega arith; falcon512 = omega arith; slhdsa128f = omega arith };
  signatures = record { mldsa65 = omega arith; falcon512 = omega arith; slhdsa128f = omega arith };
  metadata = omega arith;
  on_chain_anchor = toy_anchor-AnchorShape;
  computation_fingerprint = toy_fingerprint-FingerprintFits;
  signer_identity = record {
    text = ascii "\"h33";
    written = refl;
    not_empty = λ e. cc;
    short = omega arith;
    parsed = refl;
  };
}

deserialize-serialize_example :
    deserialize toy_codecs (serialize toy_codecs toy_bundle ++ 9 ∷ []) ≡ ok toy_bundle
deserialize-serialize_example =
    deserialize-serialize toy_codecs toy_bundle (9 ∷ []) toy_bundle-BundleFits

is_valid-verify_example : (is_valid (verify toy_crypto toy_bundle) ≡ true) ↔ (
    (toy_bundle.magic ≡ cab_magic)
    × (toy_bundle.primitive.value_hash ≡ toy_bundle.content_hash)
    × (0 < toy_bundle.timestamp_ns)
    × TwoFamiliesAccept toy_crypto toy_bundle)
is_valid-verify_example = is_valid-verify toy_crypto toy_bundle

fingerprint_from_bytes-to_bytes_example :
    fingerprint_from_bytes (fingerprint_to_bytes toy_fingerprint ++ 1 ∷ 2 ∷ [])
    ≡ ok (toy_fingerprint, length (fingerprint_to_bytes toy_fingerprint))
fingerprint_from_bytes-to_bytes_example =
    fingerprint_from_bytes-to_bytes toy_fingerprint (1 ∷ 2 ∷ []) toy_fingerprint-FingerprintFits

length-serialize_example :
    length (serialize toy_codecs toy_bundle) ≡ compressed_size toy_codecs toy_bundle
length-serialize_example =
    length-serialize toy_codecs toy_bundle refl toy_primitive-PrimitiveShape refl
      toy_anchor-AnchorShape

accepted_iff_example :
    (accept_remote_bundle toy_codecs toy_crypto toy_bundle (trusted_peers []) ((1 ∷ []) ∷ [])
      ≡ accepted)
    ↔ ((toy_bundle.magic ≡ cab_magic)
        × TwoFamiliesAccept toy_crypto toy_bundle
        × HasFingerprint toy_bundle
        × BoundaryAllows (trusted_peers []) (IssuerListed toy_codecs ((1 ∷ []) ∷ []) toy_bundle))
accepted_iff_example =
    accepted_iff toy_codecs toy_crypto toy_bundle (trusted_peers []) ((1 ∷ []) ∷ [])
