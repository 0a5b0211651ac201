-- ===== src/Transition/Traces.antt =====
-- Sequences of events through a state machine, and what a run of one visits.
use chat_ai.Base.{
  none, some, Bool, true, false, Result, ok, List, [], ◌∷◌, ◌≡◌, refl, ◌⊎◌, inl, inr, arith, ◌>>=◌,
  ◌↔◌, Option-cases,
}
use chat_ai.Transition.{StateMachine, IllegalTransition, can_transition, transition}

module _ {S E : Type 0} (m : StateMachine S E) where
  -- The events one after another, up to the first that is refused.
  unfoldable pub run : S → List E → Result (IllegalTransition S E) S
  run s [] = ok s
  run s (e ∷ es) = transition m s e >>= λ t. run t es

  -- The state `v` is on the way: it is where the run starts, or where one of its steps leads.
  abbrev pub Visits : S → S → List E → Type 0
  Visits v s [] = s ≡ v
  Visits v s (e ∷ es) = (s ≡ v) ⊎ ((t : S) × (m.transitions s e ≡ some t) × Visits v t es)

  pub can_transition_iff :
      (s : S) (e : E) → (can_transition m s e ≡ true) ↔ ((t : S) × (transition m s e ≡ ok t))
  unfolding can_transition transition
  can_transition_iff s e = elim (Option-cases (m.transitions s e)) [
    | inl n ↦ rw (n, can_transition, transition) ((λ h. cc), (λ h. cc (h.1)))
    | inr (t, p) ↦ rw (p, can_transition, transition) ((λ h. (t, refl)), (λ h. refl))
  ]

  -- A predicate that fails at the start and that only steps from `v` can bring about: a run that
  -- ends in it has been at `v`.
  pub run-Visits :
      (v : S) (P : S → Bool)
      → ((s : S) (e : E) (t : S)
          → m.transitions s e ≡ some t
          → P s ≡ false
          → (s ≡ v) ⊎ (P t ≡ false))
      → (s : S) (es : List E) (u : S) → P s ≡ false
      → run s es ≡ ok u
      → P u ≡ true
      → Visits v s es
  unfolding run transition
  run-Visits v P step s [] u h r q = absurd (ground arith)
  run-Visits v P step s (e ∷ es) u h r q = elim (Option-cases (m.transitions s e)) [
    | inl n ↦ absurd (ground arith)
    | inr (t, p) ↦ elim (step s e t p h) [
      | inl here ↦ inl here
      | inr still ↦ inr (t, p, run-Visits v P step t es u still (ground arith) q)
    ]
  ]

  -- From a state with no way out every run of one event or more is refused.
  pub run_dead_end :
      (s : S)
      → ((e : E) → m.transitions s e ≡ none)
      → (es : List E) (u : S) → run s es ≡ ok u
      → (es ≡ []) × (u ≡ s)
  unfolding run transition
  run_dead_end s dead [] u r = (refl, ground arith)
  run_dead_end s dead (e ∷ es) u r = absurd (ground (arith, dead e))
