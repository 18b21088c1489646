-- ===== src/Examples/Slots.antt =====
-- The theorems on slots and on the verification policy, at concrete ones.
use cachee_cli.Base.{◌≤◌, false, none, some, [], ◌∷◌, ◌≡◌, ◌≢◌, ◌↔◌, ◌⊎◌, ok, err, refl, ascii}
use cachee_cli.Lifecycle.{active, revoked, expired}
use cachee_cli.Lifecycle.TransitionAuthority.{system, signature_bearer}
use cachee_cli.Lifecycle.TransitionProof.{system_initiated}
use cachee_cli.Lifecycle.{is_reversible}
use cachee_cli.Trust.{always_verify, mode_strictness}
use cachee_cli.Trust.Policy.{locked_never_downgrades, apply_changes}
use cachee_cli.Archive.Fingerprint.{digest}
use cachee_cli.CacheSlot.{CacheSlot, TransitionError, new_slot, detect_conflict}
use cachee_cli.CacheSlot.{no_conflict, fingerprint_collision, result_duplicate}
use cachee_cli.CacheSlot.Conflicts.{conflict_iff}
use cachee_cli.CacheSlot.Transitions.{
  Step, Request, submit, submit_all, transition_lem, irreversible_is_final,
}
use cachee_cli.Examples.{toy_codecs, toy_fingerprint}

abbrev toy_slot : CacheSlot
toy_slot =
    new_slot toy_codecs 1000 5 (ascii "result") toy_fingerprint 60 always_verify (ascii "node-1")

abbrev toy_revoked : CacheSlot
toy_revoked = record toy_slot { state = revoked (ascii "leak") 2000 none }

abbrev revalidate_now : Request
revalidate_now = record {
  now = 3000;
  new_state = active;
  authority = system;
  proof = system_initiated;
}

abbrev expire_now : Request
expire_now = record {
  now = 2000;
  new_state = expired 1500;
  authority = signature_bearer;
  proof = system_initiated;
}

transition_lem_example :
    ((submit toy_slot expire_now).1
        ≡ ok (record {
          from = toy_slot.state;
          to = expired 1500;
          transitioned_at = 2000;
          content_address = toy_slot.content_address;
          authority = signature_bearer;
          proof = system_initiated;
        })
      × ((submit toy_slot expire_now).0 ≡ record toy_slot { state = expired 1500 })
      × Step toy_slot.state (expired 1500))
    ⊎ ((e : TransitionError) × ((submit toy_slot expire_now).1 ≡ err e)
        × ((submit toy_slot expire_now).0 ≡ toy_slot)
        × ¬ (Step toy_slot.state (expired 1500)))
transition_lem_example = transition_lem toy_slot expire_now

toy_revoked-irreversible : is_reversible toy_revoked.state ≡ false
unfolding is_reversible
toy_revoked-irreversible = refl

irreversible_is_final_example :
    submit_all toy_revoked (revalidate_now ∷ expire_now ∷ []) ≡ toy_revoked
irreversible_is_final_example =
    irreversible_is_final toy_revoked (revalidate_now ∷ expire_now ∷ []) toy_revoked-irreversible

conflict_iff_example :
    ((detect_conflict toy_codecs (some toy_slot) (ascii "other") toy_fingerprint
        ≡ fingerprint_collision toy_slot.content_address (ascii "other"))
      ↔ ((digest toy_codecs toy_slot.fingerprint ≡ digest toy_codecs toy_fingerprint)
          × (ascii "other" ≢ toy_slot.value)))
    × ((detect_conflict toy_codecs (some toy_slot) (ascii "other") toy_fingerprint
          ≡ result_duplicate toy_slot.fingerprint toy_fingerprint)
        ↔ ((ascii "other" ≡ toy_slot.value)
            × (digest toy_codecs toy_slot.fingerprint ≢ digest toy_codecs toy_fingerprint)))
    × ((detect_conflict toy_codecs (some toy_slot) (ascii "other") toy_fingerprint ≡ no_conflict)
        ↔ ((ascii "other" ≡ toy_slot.value)
            ↔ (digest toy_codecs toy_slot.fingerprint ≡ digest toy_codecs toy_fingerprint)))
conflict_iff_example = conflict_iff toy_codecs toy_slot (ascii "other") toy_fingerprint (λ e. e)

locked_never_downgrades_example :
    mode_strictness (ascii "probabilistic")
    ≤ mode_strictness (
        apply_changes
          (ascii "probabilistic")
          none
          (ascii "trust_cached" ∷ ascii "always_verify" ∷ []))
locked_never_downgrades_example =
    locked_never_downgrades (ascii "probabilistic") none
      (ascii "trust_cached" ∷ ascii "always_verify" ∷ [])
