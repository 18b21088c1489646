-- ===== src/ContentStore/Lookup.antt =====
-- What `get` finds after `put`.
use cachee_cli.Base.{
  ◌+◌, Bytes, false, Option, some, [], ok, ◌≡◌, ◌≢◌, refl, sym, ap, ◌∙◌, wrap64, Bool-cases,
  Option-cases, inl, inr, bytes_eq, bytes_eq→eq,
}
use cachee_cli.Archive.Types.{CacheeArchiveBundle, Codecs}
use cachee_cli.Archive.Bundle.{content_address, serialize}
use cachee_cli.Archive.Bundle.RoundTrip.{BundleFits, deserialize-serialize}
use cachee_cli.Sled.{Sled, SledLaws, ordered_get, ordered_put}
use cachee_cli.Sled.Lookup.{ordered_get-put, ordered_get-put_other}
use cachee_cli.ContentStore.{ContentStore, put, get, read_bundle_bytes, store_len}
use mathlib.Core.List.{append-nil}

module _ (sled : Sled) (c : Codecs) where
  -- What a successful `put` did.
  abbrev Stored : ContentStore sled c → CacheeArchiveBundle → Type 0
  Stored store b =
      (db : sled.Db) × (sled.insert store.db (content_address c b) (serialize c b) ≡ some db)
      × ((put sled c store b).0 ≡ record { db = db; count = wrap64 (store.count + 1) })

  put-Stored :
      (store : ContentStore sled c) (b : CacheeArchiveBundle) (address : Bytes)
      → (put sled c store b).1 ≡ ok address
      → (address ≡ content_address c b) × Stored store b
  unfolding put
  put-Stored store b address h =
      elim (Option-cases (sled.insert store.db (content_address c b) (serialize c b))) [
        | inl fails ↦ absurd (cc (rw (fails, put) at h))
        | inr (db, done) ↦ elim (Bool-cases (sled.flush db)) [
          | inr fails ↦ absurd (cc (rw (done, fails, put) at h))
          | inl flushed ↦
              (cc (rw (done, flushed, put) at h), (db, done, rw (done, flushed, put) refl))
        ]
      ]

  read_back :
      (b : CacheeArchiveBundle)
      → BundleFits c b
      → read_bundle_bytes sled c (some (serialize c b)) ≡ ok (some b)
  unfolding read_bundle_bytes
  read_back b fits =
      rw (rw append-nil at (deserialize-serialize c b [] fits), read_bundle_bytes) refl

  get-found :
      (store : ContentStore sled c) (k : Bytes) (found : Option Bytes)
      → sled.get store.db k ≡ some found
      → get sled c store k ≡ read_bundle_bytes sled c found
  unfolding get
  get-found store k found h = rw (h, get) refl

  differ : (x y : Bytes) → x ≢ y → bytes_eq y x ≡ false
  differ x y h = elim (Bool-cases (bytes_eq y x)) [
    | inr e ↦ e
    | inl same ↦ absurd (h (sym (bytes_eq→eq y x same)))
  ]

  -- The count goes up by one with every successful `put`, also of a bundle that is already stored.
  pub store_len-put :
      (store : ContentStore sled c) (b : CacheeArchiveBundle) (address : Bytes)
      → (put sled c store b).1 ≡ ok address
      → store_len sled c (put sled c store b).0 ≡ wrap64 (store_len sled c store + 1)
  unfolding store_len
  store_len-put store b address h = ap (λ s. s.count) (put-Stored store b address h).1.2

  module _ (laws : SledLaws sled) where
    lookup :
        (store : ContentStore sled c) (b : CacheeArchiveBundle) (k : Bytes)
        → Stored store b
        → sled.get (put sled c store b).0.db k
          ≡ some (
              ordered_get k
                (ordered_put (content_address c b) (serialize c b) (laws.contents store.db)))
    lookup store b k stored =
        let db = stored.0 in
        ap (λ s. sled.get s.db k) stored.2
        ∙ laws.get_lem db k
        ∙ ap (λ m. some (ordered_get k m)) (laws.contents-insert store.db db _ _ stored.1)

    -- After a successful `put`, `get` under the returned address gives the bundle, and under any
    -- other address what it gave before, if the bundle fits its length prefixes and the database
    -- behaves as `SledLaws` says.
    pub get-put :
        (store : ContentStore sled c) (b : CacheeArchiveBundle) (address : Bytes)
        → BundleFits c b
        → (put sled c store b).1 ≡ ok address
        → (get sled c (put sled c store b).0 address ≡ ok (some b))
          × ((other : Bytes)
              → other ≢ address
              → get sled c (put sled c store b).0 other ≡ get sled c store other)
    get-put store b address fits h =
        let p = put-Stored store b address h in
        let m = laws.contents store.db in
        let after = (put sled c store b).0 in
        let at_address = ordered_get-put (content_address c b) (serialize c b) m in
        (
          ap (get sled c after) p.0
              ∙ get-found after (content_address c b) _ (lookup store b (content_address c b) p.1)
              ∙ ap (read_bundle_bytes sled c) at_address
              ∙ read_back b fits,
          λ other distinct.
              let apart = differ other (content_address c b) (λ e. distinct (e ∙ sym p.0)) in
              get-found after other _ (lookup store b other p.1)
              ∙ ap (read_bundle_bytes sled c)
                  (ordered_get-put_other (content_address c b) (serialize c b) other m apart)
              ∙ sym (get-found store other _ (laws.get_lem store.db other)),
        )
