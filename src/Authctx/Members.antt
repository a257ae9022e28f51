-- ===== src/Authctx/Members.antt =====
-- From the rows of the membership table to the verdict of CheckAccess, for the users of an org.
use trustyca.Base.{
  Option, iff_trans, ◌⊎◌, Any, All, ℕ, ◌<◌, String, ◌≡◌, refl, ap, ◌∙◌, ◌≢◌, ◌↔◌, sym, inl, inr,
  true, false, some, List, arith, ◌==◌, Bool-cases,
}
use trustyca.Base.Status.{ok, ok-injective}
use trustyca.Db.Model.{MembershipInfo, Project, active, status_eq}
use trustyca.Authctx.Role.{
  Role, none_role, api_key, viewer, user, support, billing, security, admin, owner,
}
use trustyca.Authctx.Grants.{Grants, grants_from_memberships, highest_role, is_none}
use trustyca.Authctx.Grants.Rows.{IsGrant, UniqueRows, HasRole}
use trustyca.Authctx.Grants.Effective.{Suffices, highest_role_iff}
use trustyca.Authctx.Grants.Derived.{ByProjects, highest_role-org_iff}
use trustyca.Authctx.Access.{
  TrustyCtx, Request, MethodInfo, check_access, is_api_key, org_mismatch, project_from_request,
  Answer, granted, refused, insufficient_role,
}
use trustyca.Authctx.Access.Tenants.{TenantCall, InScope, check_access-tenant_iff, Grants?}
use trustyca.Authctx.Authorizer.{
  GrantsProvider, Fetched, fetched, missing, failed, project_answer, role_answer, refusal,
  grants_answer,
}
use trustyca.Authctx.Authorizer.Answers.{direct, role_after, selected}

pub is_none_iff : (r : Role) → (is_none r ≡ false) ↔ (r ≢ none_role)
is_none_iff none_role = (λ h. cc, λ h. absurd (h refl))
is_none_iff api_key = (λ h e. cc, λ h. refl)
is_none_iff viewer = (λ h e. cc, λ h. refl)
is_none_iff user = (λ h e. cc, λ h. refl)
is_none_iff support = (λ h e. cc, λ h. refl)
is_none_iff billing = (λ h e. cc, λ h. refl)
is_none_iff security = (λ h e. cc, λ h. refl)
is_none_iff admin = (λ h e. cc, λ h. refl)
is_none_iff owner = (λ h e. cc, λ h. refl)

fetched-injective : (p q : Project) → fetched p ≡ fetched q → p ≡ q
fetched-injective p q e = cc

-- The project is an active project of the org.
abbrev pub ActiveIn : GrantsProvider → ℕ → ℕ → Type 0
ActiveIn provider org p =
    (found : Project) × (provider.get_project p ≡ fetched found)
    × (found.org_id ≡ org)
    × (status_eq found.status active ≡ true)

project_answer_iff :
    (org : ℕ) (o : Fetched)
    → ((found : Project) × (project_answer org o ≡ granted found)) ↔ (
        (found : Project) × (o ≡ fetched found)
        × (found.org_id ≡ org)
        × (status_eq found.status active ≡ true))
unfolding project_answer
project_answer_iff org missing = (λ h. cc, λ h. cc)
project_answer_iff org (failed why) = (λ h. cc, λ h. cc)
project_answer_iff org (fetched p) = (
  λ (x, e). (p, refl, is_org x e, is_active x e),
  λ (x, e, o, s).
      let same = fetched-injective p x e in
      (p, accept (ap (λ q. q.org_id) same ∙ o) (ap (λ q. status_eq q.status active) same ∙ s)),
)
  where
    accept :
        p.org_id ≡ org
        → status_eq p.status active ≡ true
        → project_answer org (fetched p) ≡ granted p
    accept o s = ground arith

    is_org : (x : Project) → project_answer org (fetched p) ≡ granted x → p.org_id ≡ org
    is_org x e = ground arith

    is_active :
        (x : Project)
        → project_answer org (fetched p) ≡ granted x
        → status_eq p.status active ≡ true
    is_active x e = ground arith

role_answer_iff :
    (p : ℕ) (allowed : List String) (g : Grants)
    → ((answer : Role × Grants) × (role_answer p allowed (granted g) ≡ granted answer))
      ↔ (highest_role (some g) p allowed ≢ none_role)
unfolding role_answer
role_answer_iff p allowed g =
    let (to, from) = is_none_iff (highest_role (some g) p allowed) in
    elim (Bool-cases (is_none (highest_role (some g) p allowed))) [
      | inl nothing ↦
          (λ (x, e). absurd (refuse x (rw nothing at e)), λ h. absurd (let k = from h in cc))
      | inr role ↦ (λ h. to role, λ h. ((highest_role (some g) p allowed, g), rw role refl))
    ]
  where
    refuse : (x : Role × Grants) → refused insufficient_role ≡ granted x → ⊥
    refuse x e = cc

role_after_iff :
    (p : ℕ) (allowed : List String) (a : Answer Project) (g : Grants)
    → ((answer : Role × Grants) × (role_after p allowed (refusal a) (granted g) ≡ granted answer))
      ↔ (((found : Project) × (a ≡ granted found)) × (highest_role (some g) p allowed ≢ none_role))
role_after_iff p allowed (refused why) g = (λ h. cc, λ h. cc)
role_after_iff p allowed (granted found) g =
    let (to, from) = role_answer_iff p allowed g in (λ h. ((found, refl), to h), λ h. from h.1)

module _ (provider : GrantsProvider) (org user_id : ℕ) (rows : List MembershipInfo)
    (read : provider.list_memberships user_id ≡ some rows) (chosen : org ≢ 0) where
  given :
      selected org (grants_answer org user_id (provider.list_memberships user_id))
      ≡ granted (grants_from_memberships rows org user_id)
  unfolding grants_answer
  given = ground arith

  Grants?-project :
      (p : ℕ) (allowed : List String)
      → 0 < p
      → Grants? (direct provider) org p user_id allowed ↔ (
          ActiveIn provider org p
          × (highest_role (some (grants_from_memberships rows org user_id)) p allowed ≢ none_role))
  Grants?-project p allowed proper =
      let unselected : (org == 0) ≡ false = ground arith in
      let scoped : (p == 0) ≡ false = ground arith in
      rw (given, scoped, unselected)
        (iff_trans (role_after_iff p allowed _ _) (
          λ (f, h). ((project_answer_iff org _).0 f, h),
          λ (f, h). ((project_answer_iff org _).1 f, h),
        ))

  pub Grants?-org :
      (allowed : List String)
      → Grants? (direct provider) org 0 user_id allowed
        ↔ (highest_role (some (grants_from_memberships rows org user_id)) 0 allowed ≢ none_role)
  Grants?-org allowed = rw given (role_answer_iff 0 allowed _)

module _ (parse_id : String → Option ℕ) (id_string : ℕ → String)
    (method_info : String → Option MethodInfo) (provider : GrantsProvider) (tctx : TrustyCtx)
    (req : Request) (action : String) (rule : MethodInfo) (rows : List MembershipInfo)
    (call : TenantCall method_info tctx action rule) (person : is_api_key tctx ≡ false)
    (read : provider.list_memberships tctx.user_id ≡ some rows) (unique : UniqueRows rows)
    (given : All HasRole rows) where
  -- What a call demands apart from the memberships.
  abbrev pub OrgSelected : Type 0
  OrgSelected = (tctx.org_id ≢ 0) × (org_mismatch parse_id id_string tctx.org_id req ≡ false)

  abbrev pub Verdict : Type 0
  Verdict = check_access parse_id id_string (direct provider) method_info tctx req action ≡ ok tt

  pub at_project :
      (p : ℕ)
      → project_from_request parse_id id_string req ≡ ok p
      → Verdict ↔ (
          OrgSelected
          × Grants? (direct provider) tctx.org_id p tctx.user_id rule.allowed_roles
          × InScope tctx rule)
  at_project p named =
      iff_trans
        (check_access-tenant_iff parse_id id_string (direct provider) method_info tctx req action
          rule call person)
        (
          λ (o, m, (q, e, g), s). ((o, m), at p (ok-injective q p (sym e ∙ named)) g, s),
          λ ((o, m), g, s). (o, m, (p, named, g), s),
        )
    where
      at :
          (p : ℕ) {q : ℕ}
          → q ≡ p
          → Grants? (direct provider) tctx.org_id q tctx.user_id rule.allowed_roles
          → Grants? (direct provider) tctx.org_id p tctx.user_id rule.allowed_roles
      at p e g = rw e at g

  -- A call that names a project is accepted, for a user that is no API key, exactly when the org of
  -- the token is the request's, the project is an active project of that org, the membership table
  -- has a row of the user in the org, org-wide or for the project, whose role passes the allowed
  -- roles, and the token's scopes allow the method. The table has one row for an org, a project
  -- and a user, and each row has a role.
  pub check_access-project_iff :
      (p : ℕ)
      → project_from_request parse_id id_string req ≡ ok p
      → 0 < p
      → (check_access parse_id id_string (direct provider) method_info tctx req action ≡ ok tt) ↔ (
          OrgSelected
          × (ActiveIn provider tctx.org_id p
              × (Any
                    (λ m. IsGrant tctx.org_id tctx.user_id 0 m × Suffices rule.allowed_roles m.role)
                    rows
                  ⊎ Any
                      (λ m.
                        IsGrant tctx.org_id tctx.user_id p m × Suffices rule.allowed_roles m.role)
                      rows))
          × InScope tctx rule)
  check_access-project_iff p named proper =
      let role =
        highest_role_iff rows tctx.org_id tctx.user_id unique given p rule.allowed_roles proper in
      iff_trans (at_project p named) (
        λ ((o, m), g, s).
            let (f, h) =
              (Grants?-project provider tctx.org_id tctx.user_id rows read o p rule.allowed_roles
                  proper).0
                g in
            ((o, m), (f, role.0 h), s),
        λ ((o, m), (f, h), s). (
          (o, m),
          (Grants?-project provider tctx.org_id tctx.user_id rows read o p rule.allowed_roles
                proper).1
              (f, role.1 h),
          s,
        ),
      )

  -- A call of a method with allowed roles that names no project is accepted, for a user that is
  -- signed in, no service and no API key, exactly when the org of the token is the request's, the
  -- user's org-wide row passes the allowed roles or, where the user has rows in projects of the org
  -- only, Viewer does, and the token's scopes allow the method. The table is as for the projects.
  pub check_access-org_iff :
      project_from_request parse_id id_string req ≡ ok 0
      → (check_access parse_id id_string (direct provider) method_info tctx req action ≡ ok tt) ↔ (
          OrgSelected
          × (Any
                (λ m. IsGrant tctx.org_id tctx.user_id 0 m × Suffices rule.allowed_roles m.role)
                rows
              ⊎ ByProjects rows tctx.org_id tctx.user_id unique given rule.allowed_roles)
          × InScope tctx rule)
  check_access-org_iff named =
      let role =
        highest_role-org_iff rows tctx.org_id tctx.user_id unique given rule.allowed_roles in
      iff_trans (at_project 0 named) (
        λ ((o, m), g, s). (
          (o, m),
          role.0
              ((Grants?-org provider tctx.org_id tctx.user_id rows read o rule.allowed_roles).0 g),
          s,
        ),
        λ ((o, m), h, s). (
          (o, m),
          (Grants?-org provider tctx.org_id tctx.user_id rows read o rule.allowed_roles).1
              (role.1 h),
          s,
        ),
      )
