-- ===== src/Identity/Sound.antt =====
-- Every reference in the identity state leads to what it names, within one organization.
use chat_ai.Base.{
  String, Bool, true, false, List, [], ◌∷◌, ◌++◌, Option, none, some, ok, ◌≡◌, refl, sym, ◌∙◌, ap,
  arith, str_eq, eq_iff, find, All, All-weaken, returns_bind,
}
use chat_ai.Identity.{
  Organization, User, Membership, Session, TokenDescriptor, IdentityState, IdentityService,
  IdentityEventActor, SecretRef, SessionStatus, Source, required, guard, require_organization,
  require_user, require_session, membership_of, create_user, grant_membership, create_session,
  issue_token,
}

unfoldable pub find_organization : String → IdentityState → Option Organization
find_organization id s = find (λ o. str_eq o.id id) s.organizations

unfoldable pub find_user : String → IdentityState → Option User
find_user id s = find (λ u. str_eq u.id id) s.users

unfoldable pub find_session : String → IdentityState → Option Session
find_session id s = find (λ x. str_eq x.id id) s.sessions

-- A user of an organization.
pub record Belongs (org user : String) (s : IdentityState) : Type 0 where
  pub found : User
  pub known : find_user user s ≡ some found
  pub same : found.organization_id ≡ org

pub record Located (org : String) (s : IdentityState) : Type 0 where
  pub found : Organization
  pub known : find_organization org s ≡ some found

pub record Enrolled (org user : String) (s : IdentityState) : Type 0 where
  pub found : Membership
  pub known : membership_of org user s ≡ some found

-- The session of a token.
pub record Attached (t : TokenDescriptor) (s : IdentityState) : Type 0 where
  pub found : Session
  pub known : find_session t.session_id s ≡ some found
  pub same_organization : found.organization_id ≡ t.organization_id
  pub same_user : found.user_id ≡ t.user_id

-- What one state lists, another has the references of.
pub record Fits (l s : IdentityState) : Type 0 where
  pub users : All (λ (u : User). Located u.organization_id s) l.users
  pub memberships : All (λ (m : Membership). Belongs m.organization_id m.user_id s) l.memberships
  pub sessions :
      All
        (λ (x : Session).
          Belongs x.organization_id x.user_id s × Enrolled x.organization_id x.user_id s)
        l.sessions
  pub tokens : All (λ (t : TokenDescriptor). Attached t s) l.tokens

unfoldable pub IsSound : IdentityState → Type 0
IsSound s = Fits s s

-- What a state finds, a later one finds.
pub record Grows (s t : IdentityState) : Type 0 where
  pub organizations :
      (p : Organization → Bool) (a : Organization)
      → find p s.organizations ≡ some a
      → find p t.organizations ≡ some a
  pub users : (p : User → Bool) (a : User) → find p s.users ≡ some a → find p t.users ≡ some a
  pub memberships :
      (p : Membership → Bool) (a : Membership)
      → find p s.memberships ≡ some a
      → find p t.memberships ≡ some a
  pub sessions :
      (p : Session → Bool) (a : Session) → find p s.sessions ≡ some a → find p t.sessions ≡ some a
  pub tokens :
      (p : TokenDescriptor → Bool) (a : TokenDescriptor)
      → find p s.tokens ≡ some a
      → find p t.tokens ≡ some a

module _ (s t : IdentityState) (g : Grows s t) where
  Located-grows : (org : String) → Located org s → Located org t
  unfolding find_organization
  Located-grows org h = record { found = h.found; known = g.organizations _ h.found h.known }

  Belongs-grows : (org user : String) → Belongs org user s → Belongs org user t
  unfolding find_user
  Belongs-grows org user h = record {
    found = h.found;
    known = g.users _ h.found h.known;
    same = h.same;
  }

  Enrolled-grows : (org user : String) → Enrolled org user s → Enrolled org user t
  unfolding membership_of
  Enrolled-grows org user h = record { found = h.found; known = g.memberships _ h.found h.known }

  Attached-grows : (k : TokenDescriptor) → Attached k s → Attached k t
  unfolding find_session
  Attached-grows k h = record {
    found = h.found;
    known = g.sessions _ h.found h.known;
    same_organization = h.same_organization;
    same_user = h.same_user;
  }

  pub Fits-grows : (l : IdentityState) → Fits l s → Fits l t
  Fits-grows l f = record {
    users = All-weaken _ _ l.users (λ u. Located-grows u.organization_id) f.users;
    memberships =
        All-weaken _ _ l.memberships (λ m. Belongs-grows m.organization_id m.user_id) f.memberships;
    sessions =
        All-weaken _ _ l.sessions
          (λ x h. (
            Belongs-grows x.organization_id x.user_id h.0,
            Enrolled-grows x.organization_id x.user_id h.1,
          ))
          f.sessions;
    tokens = All-weaken _ _ l.tokens Attached-grows f.tokens;
  }

pub required-found :
    {A : Type 0} (o : Option A) (message : String) (a : A) → required o message ≡ ok a → o ≡ some a
unfolding required
required-found none message a h = ground arith
required-found (some b) message a h = ground arith

pub guard-true : (b c : Bool) (message : String) → guard b message ≡ ok c → b ≡ true
unfolding guard
guard-true true c message h = refl
guard-true false c message h = ground arith

-- What an operation that returns has found, and the state that it leaves.
pub create_user_lem :
    (src : Source) (actor : IdentityEventActor) (email name : String) (s t : IdentityService)
    (u : User)
    → create_user src actor email name s ≡ ok (u, t)
    → Located actor.organization_id s.state
      × (u.organization_id ≡ actor.organization_id)
      × (t.state ≡ record s.state { users = s.state.users ++ u ∷ [] })
unfolding create_user require_organization find_organization
create_user_lem src actor email name s t u h =
    let (org, located, rest) =
      returns_bind (require_organization actor.organization_id s.state) _ (u, t) h in
    (record { found = org; known = required-found _ _ org located }, ground arith, ground arith)

pub grant_membership_lem :
    (src : Source) (actor : IdentityEventActor) (user : String) (roles : List String)
    (s t : IdentityService) (m : Membership)
    → grant_membership src actor user roles s ≡ ok (m, t)
    → Belongs m.organization_id m.user_id s.state
      × (t.state ≡ record s.state { memberships = s.state.memberships ++ m ∷ [] })
unfolding grant_membership require_organization require_user find_user
grant_membership_lem src actor user roles s t m h =
    let (org, located, rest) =
      returns_bind (require_organization actor.organization_id s.state) _ (m, t) h in
    let (u, known, rest2) = returns_bind (require_user user s.state) _ (m, t) rest in
    let (b, same, rest3) = returns_bind _ _ (m, t) rest2 in
    let ids : u.organization_id ≡ actor.organization_id =
      (eq_iff u.organization_id actor.organization_id).0 (guard-true _ b _ same) in
    let found : find_user user s.state ≡ some u = required-found _ _ u known in
    let whose : m.user_id ≡ user = ground arith in
    let at : m.organization_id ≡ actor.organization_id = ground arith in
    (
      record {
        found = u;
        known = ap (λ (i : String). find_user i s.state) whose ∙ found;
        same = ids ∙ sym at;
      },
      ground arith,
    )

pub create_session_lem :
    (src : Source) (actor : IdentityEventActor) (user expires : String) (s t : IdentityService)
    (x : Session)
    → create_session src actor user expires s ≡ ok (x, t)
    → Belongs x.organization_id x.user_id s.state
      × Enrolled x.organization_id x.user_id s.state
      × (x.status ≡ SessionStatus.active)
      × (t.state ≡ record s.state { sessions = s.state.sessions ++ x ∷ [] })
unfolding create_session require_organization require_user find_user
create_session_lem src actor user expires s t x h =
    let (org, located, rest) =
      returns_bind (require_organization actor.organization_id s.state) _ (x, t) h in
    let (u, known, rest2) = returns_bind (require_user user s.state) _ (x, t) rest in
    let (b, same, rest3) = returns_bind _ _ (x, t) rest2 in
    let (m, enrolled, rest4) = returns_bind _ _ (x, t) rest3 in
    let ids : u.organization_id ≡ actor.organization_id =
      (eq_iff u.organization_id actor.organization_id).0 (guard-true _ b _ same) in
    let found : find_user user s.state ≡ some u = required-found _ _ u known in
    let active_one : membership_of actor.organization_id user s.state ≡ some m =
      required-found _ _ m enrolled in
    let whose : x.user_id ≡ user = ground arith in
    let at : x.organization_id ≡ actor.organization_id = ground arith in
    (
      record {
        found = u;
        known = ap (λ (i : String). find_user i s.state) whose ∙ found;
        same = ids ∙ sym at;
      },
      record {
        found = m;
        known =
            ap (λ (i : String). membership_of i x.user_id s.state) at
            ∙ ap (λ (i : String). membership_of actor.organization_id i s.state) whose
            ∙ active_one;
      },
      ground arith,
      ground arith,
    )

pub issue_token_lem :
    (src : Source) (actor : IdentityEventActor) (session : String) (secret : SecretRef)
    (expires : String) (s t : IdentityService) (k : TokenDescriptor)
    → issue_token src actor session secret expires s ≡ ok (k, t)
    → Attached k s.state
      × (k.session_id ≡ session)
      × (k.id ≡ src.fresh_id)
      × (k.revoked_at ≡ none)
      × (k.organization_id ≡ actor.organization_id)
      × (t.state ≡ record s.state { tokens = s.state.tokens ++ k ∷ [] })
unfolding issue_token require_session find_session
issue_token_lem src actor session secret expires s t k h =
    let (x, known, rest) = returns_bind (require_session session s.state) _ (k, t) h in
    let (b, same, rest2) =
      returns_bind
        (guard (str_eq actor.organization_id x.organization_id) "cross-tenant access is denied") _
        (k, t) rest in
    let ids : actor.organization_id ≡ x.organization_id =
      (eq_iff actor.organization_id x.organization_id).0
        (guard-true _ b "cross-tenant access is denied" same) in
    let found : find_session session s.state ≡ some x = required-found _ _ x known in
    let whose : k.session_id ≡ session = ground arith in
    (
      record {
        found = x;
        known = ap (λ (i : String). find_session i s.state) whose ∙ found;
        same_organization = ground arith;
        same_user = ground arith;
      },
      whose,
      ground arith,
      ground arith,
      ground (arith, ids),
      ground arith,
    )
