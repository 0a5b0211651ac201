-- ===== src/LocalRunner/Evidence.antt =====
-- What a run that is passed stands on.
use chat_ai.Base.{
  ℕ, ◌+◌, ◌∙◌, length, String, Bool, true, List, [], ◌∷◌, none, Result, ok, ◌≡◌, refl, sym, subst,
  ap, arith, ok_injective, any, Bool-cases, inl, inr, ◌&&◌,
}
use chat_ai.Orchestrator.Types.{EvidenceRef}
use chat_ai.Execution.{OutcomeStatus, Outcome}
use chat_ai.Verification.{
  Verdict, VerificationCheck, is_failed, all_passed, derive_verdict, evidence_of, with_evidence,
  verify,
}
use chat_ai.Immune.Runtime.{CallStamp}
use chat_ai.LocalRunner.{
  RunStep, Setup, RunState, StepEnd, RunOutcome, next, halt, executor_threw, immune_threw,
  default_checks, checks_of, verdict_of, is_pass,
}
use chat_ai.LocalRunner.Complete.{AllSucceeded, Finishes, run_steps-Finishes}
use chat_ai.LocalRunner.Loop.{run_steps, begin, conclude, settle, run}

with_evidence-passed :
    (evidence : List EvidenceRef) (v : Verdict)
    → with_evidence evidence v ≡ Verdict.passed
    → (v ≡ Verdict.passed) × (¬ (evidence ≡ []))
unfolding with_evidence
with_evidence-passed [] Verdict.passed h = ground (arith, h)
with_evidence-passed [] Verdict.pending h = ground (arith, h)
with_evidence-passed [] Verdict.failed h = ground (arith, h)
with_evidence-passed [] Verdict.unknown h = ground (arith, h)
with_evidence-passed (e ∷ es) v h = (h, λ none_given. ground (arith, none_given))

derive_verdict-all_passed :
    (checks : List VerificationCheck)
    → derive_verdict checks ≡ Verdict.passed
    → all_passed checks ≡ true
unfolding derive_verdict
derive_verdict-all_passed [] h = ground (arith, h)
derive_verdict-all_passed (k ∷ ks) h = elim (Bool-cases (any is_failed (k ∷ ks))) [
  | inl bad ↦ let h' = rw bad at h in ground (arith, h')
  | inr good ↦ elim (Bool-cases (all_passed (k ∷ ks))) [
    | inl every ↦ every
    | inr some_not ↦ let h' = rw (good, some_not) at h in ground (arith, h')
  ]
]

status_passed :
    (status : OutcomeStatus) (rest : Bool)
    → (is_pass (verdict_of status) && rest) ≡ true
    → (status ≡ OutcomeStatus.success) × (rest ≡ true)
status_passed OutcomeStatus.success rest h = (refl, h)
status_passed OutcomeStatus.failure rest h = ground (arith, h)

default_checks-AllSucceeded :
    (i : ℕ) (rs : List Outcome) → all_passed (default_checks i rs) ≡ true → AllSucceeded rs
unfolding all_passed default_checks
default_checks-AllSucceeded i [] h = tt
default_checks-AllSucceeded i (r ∷ rs) h =
    let (good, rest) = status_passed r.status (all_passed (default_checks (1 + i) rs)) h in
    (good, default_checks-AllSucceeded (1 + i) rs rest)

-- What a passed outcome stands on.
abbrev pub Proved : RunOutcome → Type 0
Proved o = AllSucceeded o.results × (¬ (o.verification.evidence ≡ []))

module _ {W : Type 0} (c : Setup W) where
  conclude-Proved :
      (id intent : String) (s : RunState W)
      → c.on_verify ≡ none
      → (conclude c id intent s).0.verification.verdict ≡ Verdict.passed
      → Proved (conclude c id intent s).0
  unfolding conclude verify checks_of
  conclude-Proved id intent s unset h =
      let h' = rw unset at h in
      let (verdict, given) =
        with_evidence-passed (evidence_of (default_checks 0 s.results))
          (derive_verdict (default_checks 0 s.results)) h' in
      (
        default_checks-AllSucceeded 0 s.results
            (derive_verdict-all_passed (default_checks 0 s.results) verdict),
        rw unset given,
      )

  concluded-Proved :
      (id intent : String) (s : RunState W) (o : RunOutcome) (t : RunState W)
      → c.on_verify ≡ none
      → ◌≡◌ {A = Result StepEnd RunOutcome × RunState W}
          (ok (conclude c id intent s).0, (conclude c id intent s).1)
          (ok o, t)
      → o.verification.verdict ≡ Verdict.passed
      → (o.results ≡ s.results) × Proved o
  unfolding conclude
  concluded-Proved id intent s o t unset h good =
      let same : (conclude c id intent s).0 ≡ o =
        ok_injective (conclude c id intent s).0 o
          (ap (λ (z : Result StepEnd RunOutcome × RunState W). z.0) h) in
      (
        ap (λ (q : RunOutcome). q.results) (sym same),
        subst Proved same (
            conclude-Proved id intent s unset (
              subst (λ (q : RunOutcome). q.verification.verdict ≡ Verdict.passed) (sym same) good)),
      )

  settle-Proved :
      (n : ℕ) (id intent : String) (p : StepEnd × RunState W) (o : RunOutcome) (t : RunState W)
      → Finishes n p
      → c.on_verify ≡ none
      → settle c id intent p ≡ (ok o, t)
      → o.verification.verdict ≡ Verdict.passed
      → (length o.results ≡ n) × Proved o
  unfolding settle
  settle-Proved n id intent (executor_threw message, s) o t end unset h good = ground (arith, h)
  settle-Proved n id intent (immune_threw e, s) o t end unset h good = ground (arith, h)
  settle-Proved n id intent (next, s) o t end unset h good =
      let (same, proved) = concluded-Proved id intent s o t unset h good in
      (ap (λ (rs : List Outcome). length rs) same ∙ end, proved)
  settle-Proved n id intent (halt, s) o t end unset h good =
      let (same, proved) = concluded-Proved id intent s o t unset h good in
      let bad = end (subst AllSucceeded same proved.0) in ground (arith, bad)

-- A run without `onVerify` that returns with the verdict PASSED has one result for each of its steps,
-- all of them successes, and evidence.
pub run-Proved :
    {W : Type 0} (sha256 : String → String) (matches : String → String → Bool)
    (to_fixed : ℕ → ℕ → String) (stamp : ℕ → CallStamp) (c : Setup W) (id intent : String)
    (steps : List RunStep) (s : RunState W) (o : RunOutcome) (t : RunState W)
    → c.on_verify ≡ none
    → run sha256 matches to_fixed stamp c id intent steps s ≡ (ok o, t)
    → o.verification.verdict ≡ Verdict.passed
    → (length o.results ≡ length steps) × Proved o
unfolding run begin
run-Proved sha256 matches to_fixed stamp c id intent steps s o t =
    let count : 0 + length steps ≡ length steps = omega arith in
    settle-Proved c (length steps) id intent
      (run_steps sha256 matches to_fixed stamp c steps (begin c intent steps s)) o t
      (subst
        (λ (n : ℕ).
          Finishes n (run_steps sha256 matches to_fixed stamp c steps (begin c intent steps s)))
        count (run_steps-Finishes c sha256 matches to_fixed stamp steps (begin c intent steps s)))
