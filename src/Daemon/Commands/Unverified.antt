-- ===== src/Daemon/Commands/Unverified.antt =====
-- What GETVERIFIED reports in the states that commands reach.
use cachee_cli.Base.{
  ℕ, ◌<◌, ◌≤◌, concat, Bytes, Str, Option, none, some, List, [], ◌∷◌, ◌≡◌, ◌⊎◌, refl, sym, inl, inr,
  arith, Bool-cases, Option-cases, length, length-append, find_key, bind-some,
}
use mathlib.Core.Path.{subst}
use cachee_cli.Archive.Types.{
  CacheeArchiveBundle, ComputationFingerprint, SignerPublicKeys, SignerIdentity, CompletenessLevel,
  H33Primitive, complete, partial,
}
use cachee_cli.Archive.Primitive.{primitive_to_bytes}
use cachee_cli.Archive.Fingerprint.{digest, digest_input}
use cachee_cli.Archive.Bundle.{content_address, address_input}
use cachee_cli.CacheSlot.{CacheSlot, compute_content_address, new_slot, has_valid_fingerprint}
use cachee_cli.PqKeys.{PqKeySet, SignResult, sign, public_keys}
use cachee_cli.ReadContract
use cachee_cli.ReadContract.{VerificationStatus, CacheeReadResponse}
use cachee_cli.Sled.{SledLaws}
use cachee_cli.Daemon.World.{World, Settings, Clock, Shared}
use cachee_cli.Daemon.Bundles.{slot_to_bundle, assemble, no_keys, no_signatures, bundle_identity}
use cachee_cli.Daemon.Protocol.{Command}
use cachee_cli.Daemon.Verified.{get_verified, slot_response, check_slot, check_stored}
use cachee_cli.Daemon.Verified.Missed.{
  Collision, KeyedStore, BundleAddress, put-KeyedStore, slot_missed,
}
use cachee_cli.Daemon.Commands.{dispatch, run_commands}
use cachee_cli.Daemon.Commands.Changes.{Change, kept, fresh, removed, moved, made, dispatch-Change}
use cachee_cli.Daemon.Commands.Entries.{
  EntryChange, same, created, deleted, stepped, dispatch-EntryChange,
}

-- A verdict on no signature.
abbrev pub Unchecked : VerificationStatus → Type 0
Unchecked (ReadContract.fully_verified _ _ _) = ⊥
Unchecked (ReadContract.verification_failed _ _ _) = ⊥
Unchecked (ReadContract.cached_verification _ _) = ⊥
Unchecked (ReadContract.unverified _ _) = Unit

long_primitive : (p : H33Primitive) → length p.value_hash ≡ 32 → 32 ≤ length (primitive_to_bytes p)
unfolding primitive_to_bytes
long_primitive p h = omega (arith, h, length-append {0})

long_text :
    (p h d : Bytes)
    → 32 ≤ length p
    → length h ≡ 32
    → length d ≡ 32
    → 64 < length (concat (p ∷ h ∷ d ∷ []))
long_text p h d a b c = omega (arith, a, b, c, length-append {0})

some-inj : {A : Type 0} {a b : A} → some a ≡ some b → a ≡ b
some-inj h = cc h

module _ (w : World) (width : (x : Bytes) → length (w.codecs.sha3_256 x) ≡ 32) where
  assemble-BundleAddress :
      (slot : CacheSlot) (keys : SignerPublicKeys) (sigs : SignResult) (level : CompletenessLevel)
      (identity : SignerIdentity)
      → BundleAddress w.codecs (
          content_address w.codecs
            (assemble (w.codecs.sha3_256 slot.value) slot keys sigs level identity))
  unfolding content_address address_input assemble primitive_to_bytes digest
  assemble-BundleAddress slot keys sigs level identity =
      let h = w.codecs.sha3_256 slot.value in
      let b = assemble h slot keys sigs level identity in
      let long = long_primitive b.primitive (width slot.value) in
      (
        address_input w.codecs b,
        refl,
        long_text (primitive_to_bytes b.primitive) h (digest w.codecs slot.fingerprint) long
            (width slot.value) (width (digest_input slot.fingerprint)),
      )

  slot_to_bundle-BundleAddress :
      (slot : CacheSlot) (keys : Option PqKeySet) (issuer : Str) (b : CacheeArchiveBundle)
      → slot_to_bundle w.codecs w.crypto slot keys issuer ≡ some b
      → BundleAddress w.codecs (content_address w.codecs b)
  unfolding slot_to_bundle
  slot_to_bundle-BundleAddress slot none issuer b h =
      subst (λ x. BundleAddress w.codecs (content_address w.codecs x)) (some-inj h)
        (assemble-BundleAddress slot no_keys no_signatures partial (bundle_identity none issuer))
  slot_to_bundle-BundleAddress slot (some keys) issuer b h =
      let (sigs, signed, made) =
        bind-some (sign w.crypto keys (w.codecs.sha3_256 slot.value)) _ b h in
      subst (λ x. BundleAddress w.codecs (content_address w.codecs x)) (some-inj made)
        (assemble-BundleAddress slot (public_keys keys) sigs complete
          (bundle_identity (some keys) issuer))

  module _ (laws : SledLaws w.env.sled) (settings : Settings) where
    -- The slot's address is computed from its fingerprint and some value.
    abbrev Addressed : Option CacheSlot → Type 0
    Addressed none = Unit
    Addressed (some slot) =
        (value : Bytes) × (slot.content_address
          ≡ compute_content_address w.codecs value slot.fingerprint)

    record Misfiled (s : Shared w) : Type 0 where
      slots : (key : Str) → Addressed (find_key key s.slots)
      store : KeyedStore w.codecs w.env.sled laws s.store

    made-Addressed :
        (clock : Clock) (value : Str) (fp : ComputationFingerprint)
        → Addressed (some (made w settings clock value fp))
    unfolding new_slot
    made-Addressed clock value fp = (value, refl)

    entry_Addressed :
        (clock : Clock) (cmd : Command) (key : Str) (before after : Option CacheSlot)
        → EntryChange w settings clock cmd key before after
        → Addressed before
        → Addressed after
    entry_Addressed clock cmd key before after (same e) a = subst Addressed (sym e) a
    entry_Addressed clock cmd key before after (created value fp r e) a =
        subst Addressed (sym e) (made-Addressed clock value fp)
    entry_Addressed clock cmd key before after (deleted r e) a = subst Addressed (sym e) tt
    entry_Addressed clock cmd key before after (stepped slot st was is step) a =
        subst Addressed (sym is) (subst Addressed was a)

    stored :
        (clock : Clock) (cmd : Command) (s t : Shared w)
        → Change w settings clock cmd s t
        → KeyedStore w.codecs w.env.sled laws s.store
        → KeyedStore w.codecs w.env.sled laws t.store
    stored clock cmd s t (kept k) q = subst (KeyedStore w.codecs w.env.sled laws) (sym k.1) q
    stored clock cmd s t (removed k r e store) q =
        subst (KeyedStore w.codecs w.env.sled laws) (sym store) q
    stored clock cmd s t (moved k slot st found e store) q =
        subst (KeyedStore w.codecs w.env.sled laws) (sym store) q
    stored clock cmd s t (fresh k v fp r e (inl store)) q =
        subst (KeyedStore w.codecs w.env.sled laws) (sym store) q
    stored clock cmd s t (fresh k v fp r e (inr (b, bundle, store))) q =
        subst (KeyedStore w.codecs w.env.sled laws) (sym store) (
          put-KeyedStore w.codecs w.env.sled laws s.store b
            (slot_to_bundle-BundleAddress _ settings.pq_keys settings.issuer_id b bundle) q)

    run_commands-Misfiled :
        (cmds : List (Clock × Command)) (s : Shared w)
        → Misfiled s
        → Misfiled (run_commands w settings cmds s)
    unfolding run_commands
    run_commands-Misfiled [] s m = m
    run_commands-Misfiled ((clock, cmd) ∷ cmds) s m =
        run_commands-Misfiled cmds (dispatch w settings clock cmd s).0 (record {
          slots = λ key.
              entry_Addressed clock cmd key _ _ (dispatch-EntryChange w settings clock cmd key s)
                (m.slots key);
          store = stored clock cmd s _ (dispatch-Change w settings clock cmd s) m.store;
        })

    response_Unchecked :
        (s : Shared w) (value : Bytes) (now : ℕ) (slot : Option CacheSlot)
        → KeyedStore w.codecs w.env.sled laws s.store
        → Addressed slot
        → Unchecked (slot_response w s.store value now slot).verification ⊎ Collision w.codecs
    unfolding slot_response check_slot check_stored
    response_Unchecked s value now none q a = inl tt
    response_Unchecked s value now (some slot) q a =
        elim (Bool-cases (has_valid_fingerprint slot)) [
          | inr bare ↦ inl (rw (slot_response, check_slot, bare) tt)
          | inl signed ↦ elim (slot_missed w.codecs w.env.sled laws s.store a.0 slot width a.1 q) [
            | inl missed ↦ inl (rw (slot_response, check_slot, signed, check_stored, missed) tt)
            | inr clash ↦ inr clash
          ]
        ]

    -- From a daemon without entries and without bundles, whatever commands came before, GETVERIFIED
    -- checks no signature: it reports every entry that it finds as unverified, or two texts are at
    -- hand on which the hash collides. The database behaves as `SledLaws` says, and the hash has 32
    -- bytes.
    pub get_verified-Unchecked :
        (cmds : List (Clock × Command)) (s : Shared w) (key : Str) (now : ℕ)
        (r : CacheeReadResponse)
        → s.slots ≡ []
        → laws.contents s.store.db ≡ []
        → (get_verified w (run_commands w settings cmds s) key now).1 ≡ some r
        → Unchecked r.verification ⊎ Collision w.codecs
    unfolding get_verified find_key
    get_verified-Unchecked cmds s key now r no_slots no_bundles h =
        let m =
          run_commands-Misfiled cmds s
            (record { slots = λ k. rw no_slots tt; store = rw no_bundles tt }) in
        let t = run_commands w settings cmds s in
        elim (Option-cases (w.engine.get t.engine key).1) [
          | inl miss ↦ absurd (cc (rw (miss, get_verified) at h))
          | inr (value, hit) ↦
              subst (λ x. Unchecked x.verification ⊎ Collision w.codecs)
                (some-inj (rw (hit, get_verified) at h))
                (response_Unchecked t value now (find_key key t.slots) m.store (m.slots key))
        ]
