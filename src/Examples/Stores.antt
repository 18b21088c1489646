-- ===== src/Examples/Stores.antt =====
-- The theorems on the content store, at a store over an association list.
use cachee_cli.Base.{Bytes, some, [], ◌∷◌, ◌≡◌, ◌≢◌, refl, ok}
use cachee_cli.Archive.Bundle.{content_address}
use cachee_cli.ContentStore.{ContentStore, put, get}
use cachee_cli.ContentStore.Lookup.{get-put}
use cachee_cli.Examples.{toy_sled, toy_laws, toy_codecs, toy_bundle}
use cachee_cli.Examples.Bundles.{toy_bundle-BundleFits}

abbrev toy_store : ContentStore toy_sled toy_codecs
toy_store = record { db = (5 ∷ [], 6 ∷ []) ∷ []; count = 1 }

abbrev toy_address : Bytes
toy_address = content_address toy_codecs toy_bundle

put-toy_bundle : (put toy_sled toy_codecs toy_store toy_bundle).1 ≡ ok toy_address
unfolding put
put-toy_bundle = refl

get-put_example :
    (get toy_sled toy_codecs (put toy_sled toy_codecs toy_store toy_bundle).0 toy_address
      ≡ ok (some toy_bundle))
    × ((other : Bytes)
        → other ≢ toy_address
        → get toy_sled toy_codecs (put toy_sled toy_codecs toy_store toy_bundle).0 other
          ≡ get toy_sled toy_codecs toy_store other)
get-put_example =
    get-put toy_sled toy_codecs toy_laws toy_store toy_bundle toy_address toy_bundle-BundleFits
      put-toy_bundle
