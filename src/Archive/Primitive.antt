-- ===== src/Archive/Primitive.antt =====
-- The fixed-size records of src/archive.rs: the 58-byte primitive and the 74-byte anchor.
use cachee_cli.Base.{
  ℕ, ◌+◌, ◌-◌, ◌≤◌, Bytes, Option, none, some, [], ◌∷◌, ◌++◌, ◌≡◌, refl, arith, length,
}
use cachee_cli.Base.{
  take, drop, get_or, ltb, if◌then◌else◌, concat, concat-append, length-append, le→ltb, ap, IsByte,
}
use cachee_cli.Base.{
  List, concat_onto, get_or-drop, take-add, drop-drop, sym, ◌∙◌, Bool-cases, inl, inr,
}
use mathlib.Core.List.{append-nil}
use cachee_cli.Archive.Types.{H33Primitive, OnChainAnchor}
use cachee_cli.Archive.Wire.Laws.{At, At-start, At-field, At-next}

abbrev pub primitive_size : ℕ
primitive_size = 58

abbrev pub anchor_size : ℕ
anchor_size = 74

-- `bytes[lo..hi]`
abbrev range : ℕ → ℕ → Bytes → Bytes
range lo hi bytes = take (hi - lo) (drop lo bytes)

abbrev primitive_slices : H33Primitive → List Bytes
primitive_slices p =
    (p.version ∷ [])
    ∷ p.timestamp
    ∷ p.value_hash
    ∷ p.mldsa_prefix
    ∷ p.falcon_prefix
    ∷ p.slhdsa_prefix
    ∷ p.flags
    ∷ []

-- The array is filled slice by slice: the slices are adjacent and cover it.
unfoldable pub primitive_to_bytes : H33Primitive → Bytes
primitive_to_bytes p = concat (primitive_slices p)

abbrev parsed_primitive : Bytes → H33Primitive
parsed_primitive bytes = record {
  version = get_or bytes 0 0;
  timestamp = range 1 9 bytes;
  value_hash = range 9 41 bytes;
  mldsa_prefix = range 41 43 bytes;
  falcon_prefix = range 43 45 bytes;
  slhdsa_prefix = range 45 47 bytes;
  flags = range 47 58 bytes;
}

unfoldable pub primitive_from_bytes : Bytes → Option H33Primitive
primitive_from_bytes bytes =
    if ltb (length bytes) primitive_size then none else some (parsed_primitive bytes)

unfoldable pub anchor_to_bytes : OnChainAnchor → Bytes
anchor_to_bytes a = concat (a.hash ∷ a.retrieval_pointer ∷ [])

unfoldable pub anchor_from_bytes : Bytes → Option OnChainAnchor
anchor_from_bytes bytes =
    if ltb (length bytes) anchor_size
    then none
    else some (record { hash = range 0 32 bytes; retrieval_pointer = range 32 74 bytes })

-- The lengths of the arrays `[u8; 8]`, `[u8; 32]`, `[u8; 2]`, `[u8; 11]`.
pub record PrimitiveShape (p : H33Primitive) : Type 0 where
  pub version : IsByte p.version
  pub timestamp : length p.timestamp ≡ 8
  pub value_hash : length p.value_hash ≡ 32
  pub mldsa_prefix : length p.mldsa_prefix ≡ 2
  pub falcon_prefix : length p.falcon_prefix ≡ 2
  pub slhdsa_prefix : length p.slhdsa_prefix ≡ 2
  pub flags : length p.flags ≡ 11

pub record AnchorShape (a : OnChainAnchor) : Type 0 where
  pub hash : length a.hash ≡ 32
  pub retrieval_pointer : length a.retrieval_pointer ≡ 42

pub length-primitive_to_bytes :
    (p : H33Primitive) → PrimitiveShape p → length (primitive_to_bytes p) ≡ primitive_size
unfolding primitive_to_bytes
length-primitive_to_bytes p s = omega (arith, length-append {0})

pub length-anchor_to_bytes :
    (a : OnChainAnchor) → AnchorShape a → length (anchor_to_bytes a) ≡ anchor_size
unfolding anchor_to_bytes
length-anchor_to_bytes a s = omega (arith, length-append {0})

-- Parsing a serialized primitive gives the primitive back, whatever bytes follow it, if its arrays
-- have the lengths of their types.
pub primitive_from_bytes-to_bytes :
    (p : H33Primitive) (rest : Bytes)
    → PrimitiveShape p
    → primitive_from_bytes (primitive_to_bytes p ++ rest) ≡ some p
unfolding primitive_from_bytes
primitive_from_bytes-to_bytes p rest s =
    let all = primitive_to_bytes p ++ rest in
    let long : primitive_size ≤ length all =
      omega (arith, length-append (primitive_to_bytes p) rest, length-primitive_to_bytes p s) in
    let b0 : At all 0 (concat_onto (primitive_slices p) rest) =
      unfold primitive_to_bytes in At-start all _ (concat-append (primitive_slices p) rest) in
    let a1 = At-next (p.version ∷ []) 1 _ refl b0 in
    let a9 = At-next p.timestamp 8 _ s.timestamp a1 in
    let a41 = At-next p.value_hash 32 _ s.value_hash a9 in
    let a43 = At-next p.mldsa_prefix 2 _ s.mldsa_prefix a41 in
    let a45 = At-next p.falcon_prefix 2 _ s.falcon_prefix a43 in
    let a47 = At-next p.slhdsa_prefix 2 _ s.slhdsa_prefix a45 in
    rw (le→ltb (length all) primitive_size long) λ i. some (record {
      version = get_or-drop 0 all 0 p.version _ b0.left i;
      timestamp = At-field p.timestamp 8 _ s.timestamp a1 i;
      value_hash = At-field p.value_hash 32 _ s.value_hash a9 i;
      mldsa_prefix = At-field p.mldsa_prefix 2 _ s.mldsa_prefix a41 i;
      falcon_prefix = At-field p.falcon_prefix 2 _ s.falcon_prefix a43 i;
      slhdsa_prefix = At-field p.slhdsa_prefix 2 _ s.slhdsa_prefix a45 i;
      flags = At-field p.flags 11 _ s.flags a47 i;
    })

-- Parsing a serialized anchor gives the anchor back, whatever bytes follow it, if its arrays have the
-- lengths of their types.
pub anchor_from_bytes-to_bytes :
    (a : OnChainAnchor) (rest : Bytes)
    → AnchorShape a
    → anchor_from_bytes (anchor_to_bytes a ++ rest) ≡ some a
unfolding anchor_from_bytes
anchor_from_bytes-to_bytes a rest s =
    let all = anchor_to_bytes a ++ rest in
    let long : anchor_size ≤ length all =
      omega (arith, length-append (anchor_to_bytes a) rest, length-anchor_to_bytes a s) in
    let a0 : At all 0 (concat_onto (a.hash ∷ a.retrieval_pointer ∷ []) rest) =
      unfold anchor_to_bytes in
      At-start all _ (concat-append (a.hash ∷ a.retrieval_pointer ∷ []) rest) in
    let a32 = At-next a.hash 32 _ s.hash a0 in
    rw (le→ltb (length all) anchor_size long) λ i. some (record {
      hash = At-field a.hash 32 _ s.hash a0 i;
      retrieval_pointer = At-field a.retrieval_pointer 42 _ s.retrieval_pointer a32 i;
    })

-- A slice and the slice after it.
take-split :
    (m n k : ℕ) (xs : Bytes)
    → take (n + k) (drop m xs) ≡ take n (drop m xs) ++ take k (drop (m + n) xs)
take-split m n k xs =
    take-add n k (drop m xs) ∙ ap (λ l. take n (drop m xs) ++ take k l) (sym (drop-drop m n xs))

parsed_to_bytes :
    (b : ℕ) (bytes : Bytes)
    → primitive_to_bytes (parsed_primitive (b ∷ bytes)) ≡ take primitive_size (b ∷ bytes)
unfolding primitive_to_bytes
parsed_to_bytes b bytes =
    ap (λ l. b ∷ l)
      (sym (
        take-split 0 8 49 bytes
        ∙ ap (λ l. range 0 8 bytes ++ l)
            (take-split 8 32 17 bytes
              ∙ ap (λ l. range 8 40 bytes ++ l)
                  (take-split 40 2 15 bytes
                    ∙ ap (λ l. range 40 42 bytes ++ l)
                        (take-split 42 2 13 bytes
                          ∙ ap (λ l. range 42 44 bytes ++ l)
                              (take-split 44 2 11 bytes
                                ∙ ap (λ l. range 44 46 bytes ++ l) (sym (append-nil _))))))))

-- Serializing a parsed primitive gives the first 58 bytes back.
pub primitive_to_bytes-from_bytes :
    (bytes : Bytes) (p : H33Primitive)
    → primitive_from_bytes bytes ≡ some p
    → primitive_to_bytes p ≡ take primitive_size bytes
unfolding primitive_from_bytes
primitive_to_bytes-from_bytes [] p h = cc
primitive_to_bytes-from_bytes (b ∷ bytes) p h =
    elim (Bool-cases (ltb (length (b ∷ bytes)) primitive_size)) [
      | inl short ↦ cc (rw short at h)
      | inr long ↦
          let e : parsed_primitive (b ∷ bytes) ≡ p = cc (rw long at h) in
          ap primitive_to_bytes (sym e) ∙ parsed_to_bytes b bytes
    ]
