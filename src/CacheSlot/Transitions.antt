-- ===== src/CacheSlot/Transitions.antt =====
-- The lifecycle of a slot as a step relation, and what `transition` keeps.
use cachee_cli.Base.{
  ℕ, Bytes, Str, Bool, false, Option, List, [], ◌∷◌, Result, ok, err, ◌≡◌, ◌↔◌, ◌⊎◌, refl,
}
use cachee_cli.Base.{Result-cases, inl, inr}
use cachee_cli.Lifecycle.{
  EntryState, active, superseded, revoked, expired, deprecated, is_reversible,
}
use cachee_cli.Lifecycle.{TransitionAuthority, TransitionProof}
use cachee_cli.CacheSlot.{CacheSlot, StateTransition, TransitionError, check_transition, transition}
use cachee_cli.CacheSlot.{terminal_superseded, terminal_revoked}

-- The arrows of the lifecycle.
pub data Step : EntryState → EntryState → Type 0 where
  to_superseded : (successor : Bytes) → Step active (superseded successor)
  to_revoked :
      (reason : Str) (at : ℕ) (attestation : Option Bytes)
      → Step active (revoked reason at attestation)
  to_expired : (until : ℕ) → Step active (expired until)
  to_deprecated :
      (family : Str) (date : ℕ) (valid : Bool) → Step active (deprecated family date valid)
  revalidate : (until : ℕ) → Step (expired until) active
  reattest : (family : Str) (date : ℕ) (valid : Bool) → Step (deprecated family date valid) active

check_transition-Step : (old new : EntryState) → check_transition old new ≡ ok tt → Step old new
unfolding check_transition
check_transition-Step active (superseded x) h = to_superseded x
check_transition-Step active (revoked r a p) h = to_revoked r a p
check_transition-Step active (expired u) h = to_expired u
check_transition-Step active (deprecated f d v) h = to_deprecated f d v
check_transition-Step active active h = cc
check_transition-Step (expired u) active h = revalidate u
check_transition-Step (deprecated f d v) active h = reattest f d v
check_transition-Step (superseded x) _ h = cc
check_transition-Step (revoked r a p) _ h = cc
check_transition-Step (expired u) (superseded _) h = cc
check_transition-Step (expired u) (revoked _ _ _) h = cc
check_transition-Step (expired u) (expired _) h = cc
check_transition-Step (expired u) (deprecated _ _ _) h = cc
check_transition-Step (deprecated f d v) (superseded _) h = cc
check_transition-Step (deprecated f d v) (revoked _ _ _) h = cc
check_transition-Step (deprecated f d v) (expired _) h = cc
check_transition-Step (deprecated f d v) (deprecated _ _ _) h = cc

Step-check_transition : {old new : EntryState} → Step old new → check_transition old new ≡ ok tt
unfolding check_transition
Step-check_transition (to_superseded _) = refl
Step-check_transition (to_revoked _ _ _) = refl
Step-check_transition (to_expired _) = refl
Step-check_transition (to_deprecated _ _ _) = refl
Step-check_transition (revalidate _) = refl
Step-check_transition (reattest _ _ _) = refl

-- A transition follows an arrow of the lifecycle exactly when the check of the two states passes.
pub check_transition_iff :
    (old new : EntryState) → (check_transition old new ≡ ok tt) ↔ Step old new
check_transition_iff old new = (check_transition-Step old new, Step-check_transition)

-- What a request asks of a slot, and the clock at the time.
pub record Request : Type 0 where
  pub now : ℕ
  pub new_state : EntryState
  pub authority : TransitionAuthority
  pub proof : TransitionProof

abbrev pub submit : CacheSlot → Request → CacheSlot × Result TransitionError StateTransition
submit s r = transition r.now s r.new_state r.authority r.proof

-- The slot after a sequence of requests.
unfoldable pub submit_all : CacheSlot → List Request → CacheSlot
submit_all s [] = s
submit_all s (r ∷ rs) = submit_all (submit s r).0 rs

-- A successful transition follows an arrow, records both ends of it, the slot's address and who
-- asked; a refused one returns the slot as it was. Nothing but the state of a slot changes.
pub transition_lem :
    (s : CacheSlot) (r : Request)
    → ((submit s r).1
          ≡ ok (record {
            from = s.state;
            to = r.new_state;
            transitioned_at = r.now;
            content_address = s.content_address;
            authority = r.authority;
            proof = r.proof;
          })
        × ((submit s r).0 ≡ record s { state = r.new_state })
        × Step s.state r.new_state)
      ⊎ ((e : TransitionError) × ((submit s r).1 ≡ err e)
          × ((submit s r).0 ≡ s)
          × ¬ (Step s.state r.new_state))
unfolding transition
transition_lem s r = elim (Result-cases (check_transition s.state r.new_state)) [
  | inl (u, e) ↦ inl (
    rw (e, transition) refl,
    rw (e, transition) refl,
    check_transition-Step s.state r.new_state e,
  )
  | inr (x, e) ↦
      inr (
        x,
        rw (e, transition) refl,
        rw (e, transition) refl,
        λ st. cc (e, Step-check_transition st),
      )
]

check-irreversible :
    (old new : EntryState)
    → is_reversible old ≡ false
    → (e : TransitionError) × (check_transition old new ≡ err e)
unfolding is_reversible check_transition
check-irreversible (superseded _) new h = (terminal_superseded, refl)
check-irreversible (revoked _ _ _) new h = (terminal_revoked, refl)
check-irreversible active new h = cc
check-irreversible (expired _) new h = cc
check-irreversible (deprecated _ _ _) new h = cc

submit-irreversible :
    (s : CacheSlot) (r : Request) → is_reversible s.state ≡ false → (submit s r).0 ≡ s
unfolding transition
submit-irreversible s r h =
    let (x, e) = check-irreversible s.state r.new_state h in rw (e, transition)

-- A superseded or revoked slot stays as it is under any sequence of requests.
pub irreversible_is_final :
    (s : CacheSlot) (rs : List Request) → is_reversible s.state ≡ false → submit_all s rs ≡ s
unfolding submit_all
irreversible_is_final s [] h = refl
irreversible_is_final s (r ∷ rs) h = rw (submit-irreversible s r h) (irreversible_is_final s rs h)
