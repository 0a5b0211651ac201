-- ===== src/Identity.antt =====
-- kernel/identity/src: identity-service.ts, with its types (types.ts) and events (events.ts).
-- An operation is given the id that it takes from `id` and the readings of its clock, the n-th call
-- of `now` at n. The instant of a date text, `new Date(t).getTime()`, is a parameter, with `none`
-- for `NaN`.
pub mod Sound
pub mod Requests
pub mod Access
use chat_ai.Base.{
  ℕ, suc, ◌+◌, String, Bool, true, false, not, List, [], ◌∷◌, ◌++◌, Option, none, some, Result, ok,
  err, ◌>>=◌, ◌&&◌, ◌<>◌, if◌then◌else◌, str_eq, find, is_some, leb,
}
use chat_ai.Base.Maps.{add}

-- `MembershipStatus`.
pub data MembershipStatus : Type 0 where
  active suspended revoked : MembershipStatus

-- `SessionStatus`.
pub data SessionStatus : Type 0 where
  active expired revoked : SessionStatus

-- `User['status']`.
pub data UserStatus : Type 0 where
  active suspended deleted : UserStatus

-- `TrustLevel`.
pub data TrustLevel : Type 0 where
  unknown verified trusted revoked : TrustLevel

-- `Organization`.
pub record Organization : Type 0 where
  pub id : String
  pub name : String
  pub created_at : String

-- `User`.
pub record User : Type 0 where
  pub id : String
  pub organization_id : String
  pub email : String
  pub display_name : String
  pub created_at : String
  pub status : UserStatus

-- `Membership`.
pub record Membership : Type 0 where
  pub id : String
  pub organization_id : String
  pub user_id : String
  pub roles : List String
  pub status : MembershipStatus
  pub created_at : String
  pub revoked_at : Option String

-- `Session`.
pub record Session : Type 0 where
  pub id : String
  pub organization_id : String
  pub user_id : String
  pub status : SessionStatus
  pub created_at : String
  pub expires_at : String
  pub revoked_at : Option String

-- `SecretRef`.
pub record SecretRef : Type 0 where
  pub id : String
  pub vault : String
  pub key : String

-- `TokenDescriptor`.
pub record TokenDescriptor : Type 0 where
  pub id : String
  pub session_id : String
  pub organization_id : String
  pub user_id : String
  pub secret_ref : SecretRef
  pub issued_at : String
  pub expires_at : String
  pub revoked_at : Option String
  pub replaced_by : Option String

-- `AuthenticatedPrincipal`.
pub record AuthenticatedPrincipal : Type 0 where
  pub id : String
  pub organization_id : String
  pub session_id : String
  pub token_id : String
  pub roles : List String
  pub trust : TrustLevel

-- `IdentityState`.
pub record IdentityState : Type 0 where
  pub organizations : List Organization
  pub users : List User
  pub memberships : List Membership
  pub sessions : List Session
  pub tokens : List TokenDescriptor

-- `IdentityEventActor`.
pub record IdentityEventActor : Type 0 where
  pub principal_id : String
  pub organization_id : String
  pub session_id : Option String

-- `IdentityEventPayload`, of the events that the service emits.
pub data IdentityEventPayload : Type 0 where
  organization_created : String → String → IdentityEventPayload
  user_created : String → String → String → String → IdentityEventPayload
  membership_changed : String → String → String → Option String → IdentityEventPayload
  session_created : String → String → String → String → IdentityEventPayload
  token_issued : String → String → String → String → SecretRef → String → IdentityEventPayload

-- `IdentityEvent`.
pub record IdentityEvent : Type 0 where
  pub kind : String
  pub occurred_at : String
  pub actor : IdentityEventActor
  pub payload : IdentityEventPayload

-- The fields of `IdentityService`.
pub record IdentityService : Type 0 where
  pub state : IdentityState
  pub event_log : List IdentityEvent

-- `emptyState`, in a new service.
unfoldable pub new_service : IdentityService
new_service = record {
  state = record { organizations = []; users = []; memberships = []; sessions = []; tokens = [] };
  event_log = [];
}

-- The text of an error.
abbrev pub Failing : Type 0 → Type 0
Failing A = Result String A

-- `id` and `now` at one call.
pub record Source : Type 0 where
  pub fresh_id : String
  pub now : ℕ → String

abbrev event : String → String → IdentityEventActor → IdentityEventPayload → IdentityEvent
event kind at actor payload = record {
  kind = kind;
  occurred_at = at;
  actor = actor;
  payload = payload;
}

unfoldable pub required {ℓ} : {A : Type ℓ} → Option A → String → Result String A
required none message = err message
required (some a) message = ok a

unfoldable pub guard : Bool → String → Result String Bool
guard true message = ok true
guard false message = err message

-- `requireOrganization`.
unfoldable pub require_organization : String → IdentityState → Failing Organization
require_organization id s =
    required (find (λ o. str_eq o.id id) s.organizations) ("organization '" <> id <> "' not found")

-- `requireUser`.
unfoldable pub require_user : String → IdentityState → Failing User
require_user id s = required (find (λ u. str_eq u.id id) s.users) ("user '" <> id <> "' not found")

-- `requireSession`.
unfoldable pub require_session : String → IdentityState → Failing Session
require_session id s =
    required (find (λ x. str_eq x.id id) s.sessions) ("session '" <> id <> "' not found")

abbrev pub active_membership : MembershipStatus → Bool
active_membership active = true
active_membership _ = false

abbrev pub active_session : SessionStatus → Bool
active_session active = true
active_session _ = false

-- The first active membership of a user in an organization.
unfoldable pub membership_of : String → String → IdentityState → Option Membership
membership_of org user s =
    find
      (λ m. str_eq m.user_id user && (str_eq m.organization_id org && active_membership m.status))
      s.memberships

-- `createOrganization`.
unfoldable pub create_organization :
    Source → IdentityEventActor → String → IdentityService → Organization × IdentityService
create_organization src actor name s =
    let o : Organization = record { id = src.fresh_id; name = name; created_at = src.now 0 } in
    (
      o,
      record {
        state = record s.state { organizations = s.state.organizations ++ o ∷ [] };
        event_log =
            s.event_log
            ++ event "identity.organization.created" (src.now 1) actor
                (organization_created o.id name)
              ∷ [];
      },
    )

-- `createUser`.
unfoldable pub create_user :
    Source
    → IdentityEventActor
    → String
    → String
    → IdentityService
    → Failing (User × IdentityService)
create_user src actor email display_name s = do
  _ ← require_organization actor.organization_id s.state
  let u : User = record {
    id = src.fresh_id;
    organization_id = actor.organization_id;
    email = email;
    display_name = display_name;
    created_at = src.now 0;
    status = active;
  }
  ok (
    u,
    record {
      state = record s.state { users = s.state.users ++ u ∷ [] };
      event_log =
          s.event_log
          ++ event "identity.user.created" (src.now 1) actor
              (user_created u.id u.organization_id email display_name)
            ∷ [];
    },
  )

-- `[...new Set(roles)]`, after the roles seen.
unfoldable pub unique : List String → List String → List String
unique seen [] = seen
unique seen (r ∷ roles) = unique (add r seen) roles

-- The events of the roles of a membership, from a reading of the clock on.
unfoldable pub role_events :
    Source → IdentityEventActor → Membership → ℕ → List String → List IdentityEvent
role_events src actor m n [] = []
role_events src actor m n (r ∷ roles) =
    event "identity.role.assigned" (src.now n) actor
      (membership_changed m.id m.organization_id m.user_id (some r))
    ∷ role_events src actor m (suc n) roles

-- `grantMembership`.
unfoldable pub grant_membership :
    Source
    → IdentityEventActor
    → String
    → List String
    → IdentityService
    → Failing (Membership × IdentityService)
grant_membership src actor user_id roles s = do
  _ ← require_organization actor.organization_id s.state
  user ← require_user user_id s.state
  _ ← guard (str_eq user.organization_id actor.organization_id) "cross-tenant membership is denied"
  let m : Membership = record {
    id = src.fresh_id;
    organization_id = actor.organization_id;
    user_id = user_id;
    roles = unique [] roles;
    status = active;
    created_at = src.now 0;
    revoked_at = none;
  }
  ok (
    m,
    record {
      state = record s.state { memberships = s.state.memberships ++ m ∷ [] };
      event_log =
          s.event_log
          ++ (event "identity.membership.granted" (src.now 1) actor
                (membership_changed m.id m.organization_id user_id none)
              ∷ role_events src actor m 2 m.roles);
    },
  )

-- `createSession`.
unfoldable pub create_session :
    Source
    → IdentityEventActor
    → String
    → String
    → IdentityService
    → Failing (Session × IdentityService)
create_session src actor user_id expires_at s = do
  _ ← require_organization actor.organization_id s.state
  user ← require_user user_id s.state
  _ ← guard (str_eq user.organization_id actor.organization_id) "cross-tenant session is denied"
  _ ← required (membership_of actor.organization_id user_id s.state) "active membership is required"
  let x : Session = record {
    id = src.fresh_id;
    organization_id = actor.organization_id;
    user_id = user_id;
    status = active;
    created_at = src.now 0;
    expires_at = expires_at;
    revoked_at = none;
  }
  ok (
    x,
    record {
      state = record s.state { sessions = s.state.sessions ++ x ∷ [] };
      event_log =
          s.event_log
          ++ event "identity.session.created" (src.now 1) actor
              (session_created x.id x.organization_id x.user_id expires_at)
            ∷ [];
    },
  )

-- `issueToken`, with `appendToken`.
unfoldable pub issue_token :
    Source
    → IdentityEventActor
    → String
    → SecretRef
    → String
    → IdentityService
    → Failing (TokenDescriptor × IdentityService)
issue_token src actor session_id secret_ref expires_at s = do
  session ← require_session session_id s.state
  _ ← guard (str_eq actor.organization_id session.organization_id) "cross-tenant access is denied"
  let t : TokenDescriptor = record {
    id = src.fresh_id;
    session_id = session_id;
    organization_id = session.organization_id;
    user_id = session.user_id;
    secret_ref = secret_ref;
    issued_at = src.now 0;
    expires_at = expires_at;
    revoked_at = none;
    replaced_by = none;
  }
  ok (
    t,
    record {
      state = record s.state { tokens = s.state.tokens ++ t ∷ [] };
      event_log =
          s.event_log
          ++ event "identity.token.issued" (src.now 1) actor
              (token_issued t.id t.session_id t.organization_id t.user_id secret_ref expires_at)
            ∷ [];
    },
  )

-- `if (time)` on `revokedAt`: an empty text is no time.
abbrev pub is_set : Option String → Bool
is_set none = false
is_set (some t) = not (str_eq t "")

abbrev pub past : Option ℕ → ℕ → Bool
past none now = false
past (some time) now = leb time now

module _ (instant : String → Option ℕ) where
  -- `authenticate`, at the instant `Date.now()`.
  unfoldable pub authenticate : ℕ → String → IdentityState → Failing AuthenticatedPrincipal
  authenticate now token_id s = do
    token ← required (find (λ t. str_eq t.id token_id) s.tokens) "token is revoked or unknown"
    _ ← guard (not (is_set token.revoked_at)) "token is revoked or unknown"
    session ← require_session token.session_id s
    _ ←
        guard (active_session session.status && not (past (instant session.expires_at) now))
          "session is expired or revoked"
    membership ←
        required (membership_of token.organization_id token.user_id s)
          "active membership is required"
    ok record {
      id = token.user_id;
      organization_id = token.organization_id;
      session_id = token.session_id;
      token_id = token.id;
      roles = membership.roles;
      trust = unknown;
    }
