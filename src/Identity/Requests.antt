-- ===== src/Identity/Requests.antt =====
-- The service under any sequence of requests.
use chat_ai.Base.{
  String, List, [], ◌∷◌, ◌++◌, Result, ok, err, sym, subst, All-append, find-append, inl, inr,
  Result-cases,
}
use chat_ai.Identity.{
  Organization, User, Membership, Session, TokenDescriptor, IdentityState, IdentityService,
  IdentityEventActor, SecretRef, Source, new_service, membership_of, create_organization,
  create_user, grant_membership, create_session, issue_token,
}
use chat_ai.Identity.Sound.{
  find_organization, find_user, find_session, Located, Belongs, Enrolled, Attached, Fits, IsSound,
  Grows, Fits-grows, create_user_lem, grant_membership_lem, create_session_lem, issue_token_lem,
}

-- A call of an operation.
pub data Request : Type 0 where
  organization : IdentityEventActor → String → Request
  user : IdentityEventActor → String → String → Request
  membership : IdentityEventActor → String → List String → Request
  session : IdentityEventActor → String → String → Request
  token : IdentityEventActor → String → SecretRef → String → Request

-- The service after a call: a call that throws has changed nothing.
unfoldable pub after {ℓ} :
    {A : Type ℓ} → IdentityService → Result String (A × IdentityService) → IdentityService
after s (ok (a, t)) = t
after s (err message) = s

unfoldable pub perform : Source → Request → IdentityService → IdentityService
perform src (organization actor name) s = (create_organization src actor name s).1
perform src (user actor email name) s = after s (create_user src actor email name s)
perform src (membership actor who roles) s = after s (grant_membership src actor who roles s)
perform src (session actor who expires) s = after s (create_session src actor who expires s)
perform src (token actor key secret expires) s =
    after s (issue_token src actor key secret expires s)

unfoldable pub perform_all : List (Source × Request) → IdentityService → IdentityService
perform_all [] s = s
perform_all ((src, r) ∷ rest) s = perform_all rest (perform src r s)

-- A state that a call leaves.
pub data Step (s : IdentityState) : IdentityState → Type 0 where
  stay : Step s s
  with_organization :
      (o : Organization) → Step s (record s { organizations = s.organizations ++ o ∷ [] })
  with_user :
      (u : User) → Located u.organization_id s → Step s (record s { users = s.users ++ u ∷ [] })
  with_membership :
      (m : Membership)
      → Belongs m.organization_id m.user_id s
      → Step s (record s { memberships = s.memberships ++ m ∷ [] })
  with_session :
      (x : Session)
      → Belongs x.organization_id x.user_id s
      → Enrolled x.organization_id x.user_id s
      → Step s (record s { sessions = s.sessions ++ x ∷ [] })
  with_token :
      (k : TokenDescriptor) → Attached k s → Step s (record s { tokens = s.tokens ++ k ∷ [] })

perform-Step :
    (src : Source) (r : Request) (s : IdentityService) → Step s.state (perform src r s).state
unfolding perform after create_organization
perform-Step src (organization actor name) s =
    with_organization (create_organization src actor name s).0
perform-Step src (user actor email name) s =
    elim (Result-cases (create_user src actor email name s)) [
      | inr (message, e) ↦ rw e stay
      | inl ((u, t), e) ↦
          let (located, same, grown) = create_user_lem src actor email name s t u e in
          rw e (rw grown (with_user u (subst (λ o. Located o s.state) (sym same) located)))
    ]
perform-Step src (membership actor who roles) s =
    elim (Result-cases (grant_membership src actor who roles s)) [
      | inr (message, e) ↦ rw e stay
      | inl ((m, t), e) ↦
          let (belongs, grown) = grant_membership_lem src actor who roles s t m e in
          rw e (rw grown (with_membership m belongs))
    ]
perform-Step src (session actor who expires) s =
    elim (Result-cases (create_session src actor who expires s)) [
      | inr (message, e) ↦ rw e stay
      | inl ((x, t), e) ↦
          let (belongs, enrolled, _, grown) = create_session_lem src actor who expires s t x e in
          rw e (rw grown (with_session x belongs enrolled))
    ]
perform-Step src (token actor key secret expires) s =
    elim (Result-cases (issue_token src actor key secret expires s)) [
      | inr (message, e) ↦ rw e stay
      | inl ((k, t), e) ↦
          let (attached, _, _, _, _, grown) =
            issue_token_lem src actor key secret expires s t k e in
          rw e (rw grown (with_token k attached))
    ]

Step-Grows : (s t : IdentityState) → Step s t → Grows s t
Step-Grows s _ stay = record {
  organizations = λ p a e. e;
  users = λ p a e. e;
  memberships = λ p a e. e;
  sessions = λ p a e. e;
  tokens = λ p a e. e;
}
Step-Grows s _ (with_organization o) = record {
  organizations = λ p. find-append p s.organizations (o ∷ []);
  users = λ p a e. e;
  memberships = λ p a e. e;
  sessions = λ p a e. e;
  tokens = λ p a e. e;
}
Step-Grows s _ (with_user u h) = record {
  organizations = λ p a e. e;
  users = λ p. find-append p s.users (u ∷ []);
  memberships = λ p a e. e;
  sessions = λ p a e. e;
  tokens = λ p a e. e;
}
Step-Grows s _ (with_membership m h) = record {
  organizations = λ p a e. e;
  users = λ p a e. e;
  memberships = λ p. find-append p s.memberships (m ∷ []);
  sessions = λ p a e. e;
  tokens = λ p a e. e;
}
Step-Grows s _ (with_session x h g) = record {
  organizations = λ p a e. e;
  users = λ p a e. e;
  memberships = λ p a e. e;
  sessions = λ p. find-append p s.sessions (x ∷ []);
  tokens = λ p a e. e;
}
Step-Grows s _ (with_token k h) = record {
  organizations = λ p a e. e;
  users = λ p a e. e;
  memberships = λ p a e. e;
  sessions = λ p a e. e;
  tokens = λ p. find-append p s.tokens (k ∷ []);
}

Step-Fits : (s t : IdentityState) → Step s t → Fits s t → Fits t t
unfolding find_organization find_user find_session membership_of
Step-Fits s _ stay f = f
Step-Fits s _ (with_organization o) f = record {
  users = f.users;
  memberships = f.memberships;
  sessions = f.sessions;
  tokens = f.tokens;
}
Step-Fits s _ (with_user u h) f = record {
  users = All-append _ s.users (u ∷ []) f.users (record { found = h.found; known = h.known }, tt);
  memberships = f.memberships;
  sessions = f.sessions;
  tokens = f.tokens;
}
Step-Fits s _ (with_membership m h) f = record {
  users = f.users;
  memberships =
      All-append _ s.memberships (m ∷ []) f.memberships
        (record { found = h.found; known = h.known; same = h.same }, tt);
  sessions = f.sessions;
  tokens = f.tokens;
}
Step-Fits s _ (with_session x h g) f = record {
  users = f.users;
  memberships = f.memberships;
  sessions = All-append _ s.sessions (x ∷ []) f.sessions (
    (
      record { found = h.found; known = h.known; same = h.same },
      record { found = g.found; known = g.known },
    ),
    tt,
  );
  tokens = f.tokens;
}
Step-Fits s _ (with_token k h) f = record {
  users = f.users;
  memberships = f.memberships;
  sessions = f.sessions;
  tokens = All-append _ s.tokens (k ∷ []) f.tokens (
    record {
      found = h.found;
      known = h.known;
      same_organization = h.same_organization;
      same_user = h.same_user;
    },
    tt,
  );
}

perform-IsSound :
    (src : Source) (r : Request) (s : IdentityService)
    → IsSound s.state
    → IsSound (perform src r s).state
unfolding IsSound
perform-IsSound src r s f =
    let step = perform-Step src r s in
    Step-Fits _ _ step (Fits-grows _ _ (Step-Grows _ _ step) s.state f)

perform_all-IsSound :
    (calls : List (Source × Request)) (s : IdentityService)
    → IsSound s.state
    → IsSound (perform_all calls s).state
unfolding perform_all
perform_all-IsSound [] s h = h
perform_all-IsSound ((src, r) ∷ rest) s h =
    perform_all-IsSound rest (perform src r s) (perform-IsSound src r s h)

new-IsSound : IsSound new_service.state
unfolding new_service IsSound
new-IsSound = record { users = tt; memberships = tt; sessions = tt; tokens = tt }

-- After any calls of a new service, whatever ids the calls are given: the organization of each user
-- exists, each membership and each session is of a user of the membership's or session's own
-- organization, that user has an active membership there for each session, and each token has a
-- session of the same user and organization.
pub service-IsSound :
    (calls : List (Source × Request)) → IsSound (perform_all calls new_service).state
service-IsSound calls = perform_all-IsSound calls new_service new-IsSound

-- What a service finds, it finds after any calls.
pub perform_all-Grows :
    (calls : List (Source × Request)) (s : IdentityService)
    → Grows s.state (perform_all calls s).state
unfolding perform_all
perform_all-Grows [] s = Step-Grows _ _ stay
perform_all-Grows ((src, r) ∷ rest) s =
    let first = Step-Grows _ _ (perform-Step src r s) in
    let later = perform_all-Grows rest (perform src r s) in
    record {
      organizations = λ p a e. later.organizations p a (first.organizations p a e);
      users = λ p a e. later.users p a (first.users p a e);
      memberships = λ p a e. later.memberships p a (first.memberships p a e);
      sessions = λ p a e. later.sessions p a (first.sessions p a e);
      tokens = λ p a e. later.tokens p a (first.tokens p a e);
    }
