-- ===== src/Daemon/Verified/Missed.antt =====
-- Where SET stores a bundle, and where `get_verified` looks for it. A slot's address hashes the
-- value hash and the fingerprint's digest, 64 bytes; a bundle's address hashes the primitive, the
-- content hash and the digest.
use cachee_cli.Base.{
  ◌<◌, Bytes, none, some, List, [], ◌∷◌, ◌≡◌, ◌≢◌, ◌⊎◌, refl, sym, ap, ◌∙◌, inl, inr, arith, ok,
  bytes_eq, bytes_eq→eq, length, length-append, Bool-cases, Option-cases,
}
use cachee_cli.Archive.Types.{CacheeArchiveBundle, ComputationFingerprint, Codecs}
use cachee_cli.Archive.Bundle.{content_address, serialize}
use cachee_cli.Archive.Fingerprint.{digest, digest_input}
use cachee_cli.CacheSlot.{CacheSlot, slot_address_input, compute_content_address}
use cachee_cli.Sled.{Sled, SledLaws, ordered_get, ordered_put, lex_lt}
use cachee_cli.ContentStore.{ContentStore, put, get, read_bundle_bytes}

module _ (c : Codecs) where
  -- Two texts on which the hash collides.
  abbrev pub Collision : Type 0
  Collision = (x : Bytes) × (y : Bytes) × (x ≢ y) × (c.sha3_256 x ≡ c.sha3_256 y)

  -- The hash of a text that is not as long as the one of a slot's address.
  abbrev pub BundleAddress : Bytes → Type 0
  BundleAddress k = (y : Bytes) × (k ≡ c.sha3_256 y) × (64 < length y)

  abbrev pub Keyed : List (Bytes × Bytes) → Type 0
  Keyed [] = Unit
  Keyed ((k, v) ∷ m) = BundleAddress k × Keyed m

  Keyed-ordered_put :
      (k v : Bytes) (m : List (Bytes × Bytes))
      → BundleAddress k
      → Keyed m
      → Keyed (ordered_put k v m)
  unfolding ordered_put
  Keyed-ordered_put k v [] b q = (b, q)
  Keyed-ordered_put k v ((j, x) ∷ m) b q = elim (Bool-cases (bytes_eq j k)) [
    | inl same ↦ rw same (b, q.1)
    | inr differ ↦ elim (Bool-cases (lex_lt k j)) [
      | inl before ↦ rw (differ, before) (b, q)
      | inr after ↦ rw (differ, after) (q.0, Keyed-ordered_put k v m b q.1)
    ]
  ]

  Keyed-ordered_get :
      (k v : Bytes) (m : List (Bytes × Bytes))
      → Keyed m
      → ordered_get k m ≡ some v
      → BundleAddress k
  unfolding ordered_get
  Keyed-ordered_get k v [] q h = absurd (cc h)
  Keyed-ordered_get k v ((j, x) ∷ m) q h = elim (Bool-cases (bytes_eq j k)) [
    | inl same ↦ let (y, e, long) = q.0 in (y, sym (bytes_eq→eq j k same) ∙ e, long)
    | inr differ ↦ Keyed-ordered_get k v m q.1 (rw (differ, ordered_get) at h)
  ]

  slot_input-length :
      (value : Bytes) (fp : ComputationFingerprint)
      → ((x : Bytes) → length (c.sha3_256 x) ≡ 32)
      → length (slot_address_input c value fp) ≡ 64
  unfolding slot_address_input digest
  slot_input-length value fp width =
      let a = width value in
      let b = width (digest_input fp) in
      length-append (c.sha3_256 value) (digest c fp) ∙ omega (arith, a, b)

  module _ (sled : Sled) (laws : SledLaws sled) where
    -- Every key of the store is the address of a bundle.
    abbrev pub KeyedStore : ContentStore sled c → Type 0
    KeyedStore store = Keyed (laws.contents store.db)

    inserted :
        (db next : sled.Db) (k v : Bytes)
        → sled.insert db k v ≡ some next
        → BundleAddress k
        → Keyed (laws.contents db)
        → Keyed (laws.contents next)
    inserted db next k v h b q =
        rw (laws.contents-insert db next k v h) (Keyed-ordered_put k v (laws.contents db) b q)

    pub put-KeyedStore :
        (store : ContentStore sled c) (b : CacheeArchiveBundle)
        → BundleAddress (content_address c b)
        → KeyedStore store
        → KeyedStore (put sled c store b).0
    unfolding put
    put-KeyedStore store b long q =
        elim (Option-cases (sled.insert store.db (content_address c b) (serialize c b))) [
          | inl fails ↦ rw (fails, put) q
          | inr (db, done) ↦ elim (Bool-cases (sled.flush db)) [
            | inr fails ↦ rw (done, fails, put) (inserted store.db db _ _ done long q)
            | inl flushed ↦ rw (done, flushed, put) (inserted store.db db _ _ done long q)
          ]
        ]

    -- A slot's address is not the key of a bundle.
    pub slot_missed :
        (store : ContentStore sled c) (value : Bytes) (slot : CacheSlot)
        → ((x : Bytes) → length (c.sha3_256 x) ≡ 32)
        → slot.content_address ≡ compute_content_address c value slot.fingerprint
        → KeyedStore store
        → (get sled c store slot.content_address ≡ ok none) ⊎ Collision
    unfolding get read_bundle_bytes compute_content_address
    slot_missed store value slot width made q =
        elim (Option-cases (ordered_get slot.content_address (laws.contents store.db))) [
          | inl missing ↦ inl (
              rw (laws.get_lem store.db slot.content_address, missing, get, read_bundle_bytes) refl)
          | inr (v, found) ↦
              let (y, e, long) = Keyed-ordered_get slot.content_address v _ q found in
              inr (
                slot_address_input c value slot.fingerprint,
                y,
                (λ same.
                    omega (
                      arith,
                      long,
                      ap length same,
                      slot_input-length value slot.fingerprint width,
                    )),
                sym made ∙ e,
              )
        ]
