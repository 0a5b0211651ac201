-- ===== src/Verification.antt =====
-- plugins/verification/src/verification-engine.ts, with the types of
-- kernel/contracts/src/verification.ts. The id of a verification is given.
use chat_ai.Base.{
  String, Bool, true, false, List, [], ◌∷◌, ◌++◌, Option, ◌&&◌, if◌then◌else◌, any, get_or,
}
use chat_ai.Orchestrator.Types.{EvidenceRef}

-- `Verdict`.
pub data Verdict : Type 0 where
  pending passed failed unknown : Verdict

-- `VerificationCheck`.
pub record VerificationCheck : Type 0 where
  pub id : String
  pub name : String
  pub verdict : Verdict
  pub evidence : Option (List EvidenceRef)
  pub detail : Option String

-- `Verification`.
pub record Verification : Type 0 where
  pub id : String
  pub target : String
  pub checks : List VerificationCheck
  pub evidence : List EvidenceRef
  pub verdict : Verdict

abbrev pub is_failed : VerificationCheck → Bool
is_failed c = elim c.verdict [ failed ↦ true | _ ↦ false ]

abbrev pub is_passed : VerificationCheck → Bool
is_passed c = elim c.verdict [ passed ↦ true | _ ↦ false ]

-- `every` of the checks.
unfoldable pub all_passed : List VerificationCheck → Bool
all_passed [] = true
all_passed (c ∷ cs) = is_passed c && all_passed cs

-- `deriveVerdict`.
unfoldable pub derive_verdict : List VerificationCheck → Verdict
derive_verdict [] = unknown
derive_verdict (c ∷ cs) =
    if any is_failed (c ∷ cs) then failed else if all_passed (c ∷ cs) then passed else unknown

-- `checks.flatMap`.
unfoldable pub evidence_of : List VerificationCheck → List EvidenceRef
evidence_of [] = []
evidence_of (c ∷ cs) = get_or c.evidence [] ++ evidence_of cs

-- The verdict of `verify`.
unfoldable pub with_evidence : List EvidenceRef → Verdict → Verdict
with_evidence [] passed = unknown
with_evidence _ v = v

-- `VerificationEngine.verify`.
unfoldable pub verify : String → String → List VerificationCheck → Verification
unfolding with_evidence
verify id target checks =
    let evidence = evidence_of checks in
    record {
      id = id;
      target = target;
      checks = checks;
      evidence = evidence;
      verdict = with_evidence evidence (derive_verdict checks);
    }
