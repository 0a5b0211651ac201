-- ===== src/Identity/Access.antt =====
-- What `authenticate` grants, and to whom.
use chat_ai.Base.{
  ℕ, String, true, false, not, List, [], ◌∷◌, ◌++◌, Option, none, some, ok, ◌≡◌, refl, sym, ◌∙◌, ap,
  subst, arith, str_eq, eq_refl, find, All-find, find-last, returns_bind, ◌&&◌,
}
use chat_ai.Identity.{
  Session, Membership, TokenDescriptor, IdentityState, IdentityService, IdentityEventActor,
  AuthenticatedPrincipal, SecretRef, SessionStatus, TrustLevel, Source, new_service, required,
  guard, require_session, membership_of, issue_token, active_session, is_set, past, authenticate,
}
use chat_ai.Identity.Sound.{
  find_session, find_user, Belongs, Enrolled, Attached, IsSound, required-found, guard-true,
  issue_token_lem,
}
use chat_ai.Identity.Requests.{Request, perform_all, service-IsSound, perform_all-Grows}

unfoldable pub find_token : String → IdentityState → Option TokenDescriptor
find_token id s = find (λ t. str_eq t.id id) s.tokens

module _ (instant : String → Option ℕ) where
  -- What a principal stands on.
  pub record Grounds (now : ℕ) (token_id : String) (s : IdentityState) (p : AuthenticatedPrincipal)
      : Type 0 where
    pub token : TokenDescriptor
    pub token_known : find_token token_id s ≡ some token
    pub token_kept : is_set token.revoked_at ≡ false
    pub session : Session
    pub session_known : find_session p.session_id s ≡ some session
    pub session_open : session.status ≡ SessionStatus.active
    pub session_lasts : past (instant session.expires_at) now ≡ false
    pub session_user : session.user_id ≡ p.id
    pub session_organization : session.organization_id ≡ p.organization_id
    pub membership : Membership
    pub membership_known : membership_of p.organization_id p.id s ≡ some membership
    pub roles : p.roles ≡ membership.roles
    pub user : Belongs p.organization_id p.id s

  -- The principal of a token and a membership.
  abbrev principal : TokenDescriptor → Membership → AuthenticatedPrincipal
  principal t m = record {
    id = t.user_id;
    organization_id = t.organization_id;
    session_id = t.session_id;
    token_id = t.id;
    roles = m.roles;
    trust = TrustLevel.unknown;
  }

  authenticate_parts :
      (now : ℕ) (token_id : String) (s : IdentityState) (p : AuthenticatedPrincipal)
      → authenticate instant now token_id s ≡ ok p
      → (t : TokenDescriptor) × (x : Session) × (m : Membership) × (find_token token_id s ≡ some t)
        × (is_set t.revoked_at ≡ false)
        × (find_session t.session_id s ≡ some x)
        × (active_session x.status && not (past (instant x.expires_at) now) ≡ true)
        × (membership_of t.organization_id t.user_id s ≡ some m)
        × (p ≡ principal t m)
  unfolding authenticate find_token find_session require_session
  authenticate_parts now token_id s p h =
      let (t, known, rest) =
        returns_bind (required (find_token token_id s) "token is revoked or unknown") _ p h in
      let (b, kept, rest2) =
        returns_bind (guard (not (is_set t.revoked_at)) "token is revoked or unknown") _ p rest in
      let (x, found, rest3) = returns_bind (require_session t.session_id s) _ p rest2 in
      let (c, lasts, rest4) =
        returns_bind
          (guard (active_session x.status && not (past (instant x.expires_at) now))
            "session is expired or revoked")
          _ p rest3 in
      let (m, enrolled, rest5) =
        returns_bind
          (required (membership_of t.organization_id t.user_id s) "active membership is required") _
          p rest4 in
      let unset : not (is_set t.revoked_at) ≡ true =
        guard-true _ b "token is revoked or unknown" kept in
      (
        t,
        x,
        m,
        required-found _ "token is revoked or unknown" t known,
        ground (arith, unset),
        required-found _ _ x found,
        guard-true _ c "session is expired or revoked" lasts,
        required-found _ "active membership is required" m enrolled,
        ground (arith, rest5),
      )

  -- After any calls of a new service, a principal that `authenticate` returns for a token stands on
  -- that token, which is not revoked, on the token's session, which is active, not past its end and
  -- of the same user and organization, on a user of that organization, and on the user's first
  -- active membership there, whose roles it has.
  pub authenticate-Grounds :
      (calls : List (Source × Request)) (now : ℕ) (token_id : String) (p : AuthenticatedPrincipal)
      → authenticate instant now token_id (perform_all calls new_service).state ≡ ok p
      → Grounds now token_id (perform_all calls new_service).state p
  unfolding find_token find_session IsSound
  authenticate-Grounds calls now token_id p h =
      let s = (perform_all calls new_service).state in
      let (t, x, m, known, kept, found, open_now, enrolled, made) =
        authenticate_parts now token_id s p h in
      let sound = service-IsSound calls in
      let attached : Attached t s = All-find _ _ s.tokens t sound.tokens known in
      let same : attached.found ≡ x = ground (arith, attached.known, found) in
      let users : x.user_id ≡ t.user_id =
        ap (λ (y : Session). y.user_id) (sym same) ∙ attached.same_user in
      let places : x.organization_id ≡ t.organization_id =
        ap (λ (y : Session). y.organization_id) (sym same) ∙ attached.same_organization in
      let of_user : Belongs x.organization_id x.user_id s =
        (All-find _ _ s.sessions x sound.sessions found).0 in
      subst (Grounds now token_id s) (sym made) record {
        token = t;
        token_known = known;
        token_kept = kept;
        session = x;
        session_known = found;
        session_open = ground arith;
        session_lasts = ground arith;
        session_user = users;
        session_organization = places;
        membership = m;
        membership_known = enrolled;
        roles = refl;
        user = record {
          found = of_user.found;
          known = ap (λ (i : String). find_user i s) (sym users) ∙ of_user.known;
          same = of_user.same ∙ places;
        };
      }

  authenticate_builds :
      (now : ℕ) (token_id : String) (s : IdentityState) (t : TokenDescriptor) (x : Session)
      (m : Membership)
      → find_token token_id s ≡ some t
      → is_set t.revoked_at ≡ false
      → find_session t.session_id s ≡ some x
      → x.status ≡ SessionStatus.active
      → past (instant x.expires_at) now ≡ false
      → membership_of t.organization_id t.user_id s ≡ some m
      → authenticate instant now token_id s ≡ ok (principal t m)
  unfolding authenticate find_token find_session require_session required guard
  authenticate_builds now token_id s t x m known kept found open_now lasts enrolled =
      rw (known, kept, found, open_now, lasts, enrolled) refl

  -- A token that was just issued under a fresh id, for a session that is active and not past its
  -- end, is taken after any later calls, and gives the user of the session with the roles of that
  -- user's first active membership. The end of the token itself is not asked for.
  pub issued-authenticate :
      (calls : List (Source × Request)) (src : Source) (actor : IdentityEventActor)
      (session_id : String) (secret : SecretRef) (expires_at : String) (s t : IdentityService)
      (k : TokenDescriptor) (x : Session) (now : ℕ)
      → IsSound s.state
      → find_token src.fresh_id s.state ≡ none
      → find_session session_id s.state ≡ some x
      → x.status ≡ SessionStatus.active
      → past (instant x.expires_at) now ≡ false
      → issue_token src actor session_id secret expires_at s ≡ ok (k, t)
      → (m : Membership) × (membership_of x.organization_id x.user_id s.state ≡ some m)
        × (authenticate instant now k.id (perform_all calls t).state
            ≡ ok record {
              id = x.user_id;
              organization_id = x.organization_id;
              session_id = session_id;
              token_id = k.id;
              roles = m.roles;
              trust = TrustLevel.unknown;
            })
  unfolding find_token find_session membership_of IsSound
  issued-authenticate calls src actor session_id secret expires_at s t k x now sound fresh found
        open_now lasts issued =
      let (attached, session_same, id_same, kept, place, grown) =
        issue_token_lem src actor session_id secret expires_at s t k issued in
      let enrolled : Enrolled x.organization_id x.user_id s.state =
        (All-find _ _ s.state.sessions x sound.sessions found).1 in
      let grows = perform_all-Grows calls t in
      let later = (perform_all calls t).state in
      let token_known : find_token k.id t.state ≡ some k = rw grown (
        subst
          (λ (i : String).
            find (λ (y : TokenDescriptor). str_eq y.id i) (s.state.tokens ++ k ∷ []) ≡ some k)
          (sym id_same) (find-last _ s.state.tokens k fresh (rw id_same (eq_refl src.fresh_id)))) in
      let session_known : find_session k.session_id t.state ≡ some x =
        rw grown (rw session_same found) in
      let same : attached.found ≡ x = ground (
        arith,
        attached.known,
        sym (ap (λ (i : String). find_session i s.state) session_same),
        found,
      ) in
      let users : x.user_id ≡ k.user_id =
        ap (λ (y : Session). y.user_id) (sym same) ∙ attached.same_user in
      let places : x.organization_id ≡ k.organization_id =
        ap (λ (y : Session). y.organization_id) (sym same) ∙ attached.same_organization in
      let member_known : membership_of k.organization_id k.user_id t.state ≡ some enrolled.found =
        rw (grown, ← users, ← places) enrolled.known in
      (
        enrolled.found,
        enrolled.known,
        authenticate_builds now k.id later k x enrolled.found (grows.tokens _ k token_known)
              (rw kept refl) (grows.sessions _ x session_known) open_now lasts
              (grows.memberships _ enrolled.found member_known)
            ∙ cc,
      )
