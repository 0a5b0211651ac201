-- ===== src/Tests/Accounts.antt =====
-- Two tenants and their budgets, and a user who signs in.
use chat_ai.Base.{
  ℕ, String, List, [], ◌∷◌, ◌++◌, Option, none, some, ok, ◌≡◌, refl, str_eq, if◌then◌else◌,
}
use chat_ai.Base.Maps.{add}
use chat_ai.Economics.{UsageResource, UsageEvent, UsagePlan, QuotaSubject, free_plan, byok_plan}
use chat_ai.Identity.{
  Session, SessionStatus, Membership, TokenDescriptor, AuthenticatedPrincipal, TrustLevel,
  IdentityEventActor, SecretRef, Source, new_service, required, guard, require_organization,
  require_user, require_session, membership_of, unique, create_organization, create_user,
  grant_membership, create_session, issue_token, authenticate,
}
use chat_ai.Identity.Sound.{IsSound, find_session}
use chat_ai.Identity.Requests.{
  Request, organization, user, membership, session, token, after, perform, perform_all,
  service-IsSound,
}
use chat_ai.Identity.Access.{Grounds, authenticate-Grounds, find_token, issued-authenticate}

abbrev plans : List UsagePlan
plans = free_plan ∷ byok_plan ∷ []

abbrev tenant : QuotaSubject
tenant = record { tenant_id = "tenant-a"; user_id = some "user-a" }

abbrev sixty_calls : UsageEvent
sixty_calls = record {
  resource = UsageResource.tool_calls;
  amount = 60;
  actor_id = "user-a";
  run_id = "run-a";
}

abbrev actor : IdentityEventActor
actor = record { principal_id = "root"; organization_id = "org"; session_id = none }

abbrev source : String → Source
source id = record { fresh_id = id; now = λ n. "2026-01-01" }

abbrev secret : SecretRef
secret = record { id = "in-memory:k"; vault = "in-memory"; key = "k" }

abbrev signed_up : List (Source × Request)
signed_up =
    (source "org", organization actor "Org")
    ∷ (source "ana", user actor "ana@example.org" "Ana")
    ∷ (source "m", membership actor "ana" ("admin" ∷ "admin" ∷ "dev" ∷ []))
    ∷ (source "s", session actor "ana" "later")
    ∷ []

abbrev signed_in : List (Source × Request)
signed_in = signed_up ++ (source "t", token actor "s" secret "earlier") ∷ []

-- The end of the session is at 1000, that of the token at 1.
abbrev instant : String → Option ℕ
instant date =
    if str_eq date "later" then some 1000 else if str_eq date "earlier" then some 1 else none

service-IsSound_example : IsSound (perform_all signed_in new_service).state
service-IsSound_example = service-IsSound signed_in

abbrev ana : AuthenticatedPrincipal
ana = record {
  id = "ana";
  organization_id = "org";
  session_id = "s";
  token_id = "t";
  roles = "admin" ∷ "dev" ∷ [];
  trust = TrustLevel.unknown;
}

ana_authenticated : authenticate instant 500 "t" (perform_all signed_in new_service).state ≡ ok ana
unfolding authenticate perform_all perform after new_service create_organization create_user
    grant_membership create_session issue_token required guard require_organization require_user
    require_session membership_of unique add
ana_authenticated = refl

authenticate-Grounds_example : Grounds instant 500 "t" (perform_all signed_in new_service).state ana
authenticate-Grounds_example = authenticate-Grounds instant signed_in 500 "t" ana ana_authenticated

abbrev open_session : Session
open_session = record {
  id = "s";
  organization_id = "org";
  user_id = "ana";
  status = SessionStatus.active;
  created_at = "2026-01-01";
  expires_at = "later";
  revoked_at = none;
}

abbrev ana_token : TokenDescriptor
ana_token = record {
  id = "t";
  session_id = "s";
  organization_id = "org";
  user_id = "ana";
  secret_ref = secret;
  issued_at = "2026-01-01";
  expires_at = "earlier";
  revoked_at = none;
  replaced_by = none;
}

session_there : find_session "s" (perform_all signed_up new_service).state ≡ some open_session
unfolding find_session perform_all perform after new_service create_organization create_user
    grant_membership create_session issue_token required guard require_organization require_user
    require_session membership_of unique add
session_there = refl

token_new : find_token "t" (perform_all signed_up new_service).state ≡ none
unfolding find_token perform_all perform after new_service create_organization create_user
    grant_membership create_session issue_token required guard require_organization require_user
    require_session membership_of unique add
token_new = refl

token_issued :
    issue_token (source "t") actor "s" secret "earlier" (perform_all signed_up new_service)
    ≡ ok (ana_token, perform_all signed_in new_service)
unfolding perform_all perform after new_service create_organization create_user grant_membership
    create_session issue_token required guard require_organization require_user require_session
    membership_of unique add
token_issued = refl

-- The token has ended at 500, and is taken.
issued-authenticate_example :
    (m : Membership) × (membership_of "org" "ana" (perform_all signed_up new_service).state
      ≡ some m)
    × (authenticate instant 500 "t" (perform_all [] (perform_all signed_in new_service)).state
        ≡ ok record {
          id = "ana";
          organization_id = "org";
          session_id = "s";
          token_id = "t";
          roles = m.roles;
          trust = TrustLevel.unknown;
        })
issued-authenticate_example =
    issued-authenticate instant [] (source "t") actor "s" secret "earlier"
      (perform_all signed_up new_service) (perform_all signed_in new_service) ana_token open_session
      500 (service-IsSound signed_up) token_new session_there refl refl token_issued
