-- ===== src/Archive/Bundle/Size.antt =====
-- `compressed_size` of src/archive.rs, the capacity that `serialize` reserves.
use cachee_cli.Base.{ℕ, ◌+◌, Option, none, some, ◌≡◌, arith, length, length-append, length-to_be}
use cachee_cli.Archive.Types.{CacheeArchiveBundle, OnChainAnchor, Codecs}
use cachee_cli.Archive.Primitive.{PrimitiveShape, primitive_size, anchor_size}
use cachee_cli.Archive.Primitive.{length-primitive_to_bytes, length-anchor_to_bytes}
use cachee_cli.Archive.Fingerprint.{fingerprint_to_bytes}
use cachee_cli.Archive.Wire.Laws.{length-length_prefixed_u16, length-length_prefixed_u32}
use cachee_cli.Archive.Bundle.{serialize, keys_bytes, signatures_bytes, anchor_part, identity_json}
use cachee_cli.Archive.Bundle.Parts.{AnchorFits}

unfoldable pub anchor_room : Option OnChainAnchor → ℕ
anchor_room none = 0
anchor_room (some _) = anchor_size

unfoldable pub compressed_size : Codecs → CacheeArchiveBundle → ℕ
compressed_size c b =
    4
    + 2
    + primitive_size
    + 32
    + 2
    + 8
    + 2
    + length b.signer_keys.mldsa65
    + 2
    + length b.signer_keys.falcon512
    + 2
    + length b.signer_keys.slhdsa128f
    + 2
    + length b.signatures.mldsa65
    + 2
    + length b.signatures.falcon512
    + 2
    + length b.signatures.slhdsa128f
    + 4
    + length b.metadata
    + 1
    + anchor_room b.on_chain_anchor
    + 1
    + 4
    + length (fingerprint_to_bytes b.computation_fingerprint)
    + 4
    + length (identity_json c b.signer_identity)

length-anchor_part :
    (o : Option OnChainAnchor) → AnchorFits o → length (anchor_part o) ≡ 1 + anchor_room o
unfolding anchor_part anchor_room
length-anchor_part none h = omega arith
length-anchor_part (some a) h = omega (arith, length-anchor_to_bytes a h)

-- The bytes that `serialize` writes are as many as `compressed_size` says, for a bundle whose
-- arrays have the lengths of their types.
pub length-serialize :
    (c : Codecs) (b : CacheeArchiveBundle)
    → length b.magic ≡ 4
    → PrimitiveShape b.primitive
    → length b.content_hash ≡ 32
    → AnchorFits b.on_chain_anchor
    → length (serialize c b) ≡ compressed_size c b
unfolding serialize compressed_size keys_bytes signatures_bytes
length-serialize c b magic primitive hash anchor = omega (
  arith,
  length-append {0},
  length-to_be,
  length-length_prefixed_u16,
  length-length_prefixed_u32,
  length-primitive_to_bytes b.primitive primitive,
  length-anchor_part b.on_chain_anchor anchor,
)
