-- ===== src/Archive/Fingerprint/Digest.antt =====
-- What the digest of a fingerprint, and the content address over it, bind.
use cachee_cli.Base.{Bytes, Str, none, [], ◌++◌, ◌≡◌, sym, ap, ◌∙◌, length}
use cachee_cli.Base.{take, drop, take-append, drop-append}
use cachee_cli.Archive.Types.{ComputationFingerprint, ComputationVersion, Codecs}
use cachee_cli.Archive.Fingerprint.{digest, digest_input, hardware_text}
use mathlib.Core.List.{append_assoc}

-- Two texts that begin with parts of equal length are equal in parts.
pub append-split :
    (xs ys us vs : Bytes) → length xs ≡ length us → xs ++ ys ≡ us ++ vs → (xs ≡ us) × (ys ≡ vs)
append-split xs ys us vs len e = (
  sym (take-append xs ys)
      ∙ ap (take (length xs)) e
      ∙ ap (λ n. take n (us ++ vs)) len
      ∙ take-append us vs,
  sym (drop-append xs ys)
      ∙ ap (drop (length xs)) e
      ∙ ap (λ n. drop n (us ++ vs)) len
      ∙ drop-append us vs,
)

abbrev pub SameHashes : ComputationFingerprint → ComputationFingerprint → Type 0
SameHashes f g =
    (f.input_hash ≡ g.input_hash)
    × (f.computation_hash ≡ g.computation_hash)
    × (f.parameter_hash ≡ g.parameter_hash)

-- Fingerprints of one digest have the same input, computation and parameter hashes, if these have
-- the same lengths in both and the hash does not collide on the two texts.
pub digest-binds_hashes :
    (c : Codecs) (f g : ComputationFingerprint)
    → (c.sha3_256 (digest_input f) ≡ c.sha3_256 (digest_input g) → digest_input f ≡ digest_input g)
    → length f.input_hash ≡ length g.input_hash
    → length f.computation_hash ≡ length g.computation_hash
    → length f.parameter_hash ≡ length g.parameter_hash
    → digest c f ≡ digest c g
    → SameHashes f g
unfolding digest digest_input
digest-binds_hashes c f g no_collision li lc lp e =
    let a = append-split f.input_hash _ g.input_hash _ li (no_collision e) in
    let b = append-split f.computation_hash _ g.computation_hash _ lc a.1 in
    let d = append-split f.parameter_hash _ g.parameter_hash _ lp b.1 in (a.0, b.0, d.0)

abbrev pub with_version : ComputationFingerprint → ComputationVersion → ComputationFingerprint
with_version f v = record f { version = v }

-- The digest does not separate the engine's name from the version: text may move from the end of
-- the one to the start of the other without a change, whatever the hash.
pub digest-moves_text :
    (c : Codecs) (f : ComputationFingerprint) (engine text version : Str)
    → digest c
        (with_version f (record { engine = engine ++ text; version = version; circuit_id = none }))
      ≡ digest c (
          with_version f (record { engine = engine; version = text ++ version; circuit_id = none }))
unfolding digest digest_input
digest-moves_text c f engine text version =
    ap (λ l. c.sha3_256 (f.input_hash ++ (f.computation_hash ++ (f.parameter_hash ++ l))))
      (append_assoc engine text (version ++ (hardware_text f.hardware_class ++ []))
        ∙ ap (λ l. engine ++ l)
            (sym (append_assoc text version (hardware_text f.hardware_class ++ []))))
