-- ===== src/Authctx/Access/Tenants.antt =====
-- Which calls of the users of an org are accepted.
use text.Mathlib.Text.{◌==◌ as str_eq}
use trustyca.Base.{
  ℕ, String, ◌≡◌, refl, ◌≢◌, ◌↔◌, ◌⊎◌, inl, inr, true, false, Option, some, List, arith, ◌==◌,
  Bool-cases, iff_trans,
}
use trustyca.Base.Status.{ok, bind_iff}
use trustyca.Text.{equal_fold}
use trustyca.Authctx.Role.{Role}
use trustyca.Authctx.Scopes.{parse_scopes, has_scopes}
use trustyca.Authctx.Grants.{Grants, is_empty}
use trustyca.Authctx.Access.{
  caller_verdict, TrustyCtx, Request, MethodInfo, Authorizer, Answer, granted, refused,
  user_verdict, tenant_verdict, check_access, check_rule, check_user_access, is_api_key,
  is_privpb_service, is_status_service, is_identity_service, is_service_role, denied, org_mismatch,
  project_from_request,
}

-- A call of a method with allowed roles by a caller that is signed in and no service.
abbrev pub TenantCall : (String → Option MethodInfo) → TrustyCtx → String → MethodInfo → Type 0
TenantCall method_info tctx action rule =
    (is_privpb_service action ≡ false)
    × (is_status_service action ≡ false)
    × (is_identity_service action ≡ false)
    × (method_info action ≡ some rule)
    × (is_empty rule.allowed_roles ≡ false)
    × (str_eq tctx.app_role "" ≡ false)
    × (equal_fold tctx.app_role "guest" ≡ false)
    × (is_service_role tctx.app_role ≡ false)

-- The scopes of a token allow a method: a token without scopes is not limited.
abbrev pub InScope : TrustyCtx → MethodInfo → Type 0
InScope tctx rule =
    (is_empty tctx.scopes ≡ true) ⊎ (has_scopes tctx.scopes (parse_scopes rule.scopes) ≡ true)

-- The authorizer gives the user a role.
abbrev pub Grants? : Authorizer → ℕ → ℕ → ℕ → List String → Type 0
Grants? authorizer org_id project_id user_id allowed =
    (answer : Role × Grants) × (authorizer.check_role org_id project_id user_id allowed
      ≡ granted answer)

user_verdict_iff :
    (tctx : TrustyCtx) (rule : MethodInfo) (a : Answer (Role × Grants))
    → (user_verdict tctx rule a ≡ ok tt)
      ↔ (((answer : Role × Grants) × (a ≡ granted answer)) × InScope tctx rule)
user_verdict_iff tctx rule (refused why) = (λ h. cc, λ h. cc)
user_verdict_iff tctx rule (granted answer) = (
  λ h. ((answer, refl), in_scope h),
  λ h. elim h.1 [ inl e ↦ ground arith | inr e ↦ ground arith ],
)
  where
    in_scope : user_verdict tctx rule (granted answer) ≡ ok tt → InScope tctx rule
    in_scope h = elim (Bool-cases (is_empty tctx.scopes)) [
      | inl e ↦ inl e
      | inr e ↦ inr (ground arith)
    ]

module _ (parse_id : String → Option ℕ) (id_string : ℕ → String) (authorizer : Authorizer) where
  -- What CheckAccess demands for a user.
  abbrev pub UserMay : TrustyCtx → Request → MethodInfo → Type 0
  UserMay tctx req rule =
      (tctx.org_id ≢ 0)
      × (org_mismatch parse_id id_string tctx.org_id req ≡ false)
      × ((p : ℕ) × (project_from_request parse_id id_string req ≡ ok p)
          × Grants? authorizer tctx.org_id p tctx.user_id rule.allowed_roles)
      × InScope tctx rule

  -- What CheckAccess demands of every caller of an org, and then of the caller in the project.
  abbrev pub InOrg : TrustyCtx → Request → (ℕ → Type 0) → Type 0
  InOrg tctx req Demand =
      (tctx.org_id ≢ 0)
      × (org_mismatch parse_id id_string tctx.org_id req ≡ false)
      × ((p : ℕ) × (project_from_request parse_id id_string req ≡ ok p) × Demand p)

  pub tenant_verdict_iff :
      (tctx : TrustyCtx) (req : Request) (rule : MethodInfo)
      → (tenant_verdict parse_id id_string authorizer tctx req rule ≡ ok tt)
        ↔ InOrg tctx req (λ p. caller_verdict parse_id id_string authorizer tctx rule p ≡ ok tt)
  tenant_verdict_iff tctx req rule = elim (Bool-cases (tctx.org_id == 0)) [
    | inl unselected ↦
        (λ h. absurd (refuse _ (rw unselected at h)), λ h. absurd (h.0 (ground arith)))
    | inr selected ↦ elim (Bool-cases (org_mismatch parse_id id_string tctx.org_id req)) [
      | inl other ↦ (λ h. absurd (refuse _ (rw (selected, other) at h)), λ h. cc)
      | inr same ↦
          let (to, from) =
            bind_iff (project_from_request parse_id id_string req)
              (caller_verdict parse_id id_string authorizer tctx rule) tt in
          (
            λ h. (λ e. ground arith, same, to (rw (selected, same) at h)),
            λ h. rw (selected, same) (from h.2),
          )
    ]
  ]
    where
      refuse : (message : String) → denied message ≡ ok tt → ⊥
      refuse message e = cc

  module _ (method_info : String → Option MethodInfo) where
    pub check_access-rule :
        (tctx : TrustyCtx) (req : Request) (action : String) (rule : MethodInfo)
        → TenantCall method_info tctx action rule
        → check_access parse_id id_string authorizer method_info tctx req action
          ≡ tenant_verdict parse_id id_string authorizer tctx req rule
    unfolding check_access check_rule
    check_access-rule tctx req action rule (a, b, c, d, e, f, g, h) =
        rw (a, b, c, d, e, f, g, h) refl

    -- A method with allowed roles accepts a user that is signed in, no service and no API key
    -- exactly when the token selects an org, the request names no other org, its project id is
    -- absent or parses, the authorizer gives the user a role there, and the token's scopes, where
    -- it has any, cover the method's.
    pub check_access-tenant_iff :
        (tctx : TrustyCtx) (req : Request) (action : String) (rule : MethodInfo)
        → TenantCall method_info tctx action rule
        → is_api_key tctx ≡ false
        → (check_access parse_id id_string authorizer method_info tctx req action ≡ ok tt)
          ↔ UserMay tctx req rule
    unfolding check_user_access
    check_access-tenant_iff tctx req action rule call user =
        let to_verdict : (check_access parse_id id_string authorizer method_info tctx req action
              ≡ ok tt)
            ↔ (tenant_verdict parse_id id_string authorizer tctx req rule ≡ ok tt) =
          rw (check_access-rule tctx req action rule call) (λ h. h, λ h. h) in
        iff_trans to_verdict (iff_trans (tenant_verdict_iff tctx req rule) (as_user))
      where
        as_user :
            InOrg tctx req (λ p. caller_verdict parse_id id_string authorizer tctx rule p ≡ ok tt)
            ↔ UserMay tctx req rule
        as_user = rw user (
          λ (a, b, (p, e, k)). (
            a,
            b,
            (p, e, ((user_verdict_iff tctx rule _).0 k).0),
            ((user_verdict_iff tctx rule _).0 k).1,
          ),
          λ (a, b, (p, e, g), s). (a, b, (p, e, (user_verdict_iff tctx rule _).1 (g, s))),
        )
