-- ===== src/Authctx/Allowed.antt =====
-- internal/authctx/allowed.go: the verdicts shown to a caller, against the verdicts of CheckAccess.
use trustyca.Base.{
  ℕ, String, ◌≡◌, ◌≢◌, ◌↔◌, inl, inr, true, false, Option, some, List, All, Bool-cases, arith,
}
use trustyca.Base.Status.{ok}
use trustyca.Db.Model.{MembershipInfo}
use trustyca.Authctx.Role.{none_role}
use trustyca.Authctx.Grants.{Grants, grants_from_memberships, highest_role, is_empty}
use trustyca.Authctx.Grants.Rows.{UniqueRows, HasRole}
use trustyca.Authctx.Access.{
  TrustyCtx, Request, MethodInfo, check_access, is_api_key, method_allowed, org_mismatch,
  project_from_request,
}
use trustyca.Authctx.Access.Tenants.{TenantCall, InScope}
use trustyca.Authctx.Authorizer.{GrantsProvider}
use trustyca.Authctx.Authorizer.Answers.{direct}
use trustyca.Authctx.Members.{at_project, Grants?-org, is_none_iff}

user_allowed_iff :
    (tctx : TrustyCtx) (grants : Option Grants) (rule : MethodInfo)
    → is_empty rule.allowed_roles ≡ false
    → is_api_key tctx ≡ false
    → (method_allowed tctx grants rule ≡ true)
      ↔ ((highest_role grants 0 rule.allowed_roles ≢ none_role) × InScope tctx rule)
unfolding method_allowed
user_allowed_iff tctx grants rule roles person =
    let (to, from) = is_none_iff (highest_role grants 0 rule.allowed_roles) in
    (
      λ h. (to (ground arith), in_scope h),
      λ (h, s). let k = from h in elim s [ inl e ↦ ground arith | inr e ↦ ground arith ],
    )
  where
    in_scope : method_allowed tctx grants rule ≡ true → InScope tctx rule
    in_scope h = elim (Bool-cases (is_empty tctx.scopes)) [
      | inl e ↦ inl e
      | inr e ↦ inr (ground arith)
    ]

module _ (parse_id : String → Option ℕ) (id_string : ℕ → String)
    (method_info : String → Option MethodInfo) where
  -- For a user, the verdict that GetCallerScope and GetAllowedMethods show for a method is that of
  -- CheckAccess for a request that names neither another org nor a project, where an org is
  -- selected and the grants are those of the table.
  pub method_allowed-check_access :
      (provider : GrantsProvider) (tctx : TrustyCtx) (req : Request) (action : String)
      (rule : MethodInfo) (rows : List MembershipInfo)
      → TenantCall method_info tctx action rule
      → is_api_key tctx ≡ false
      → provider.list_memberships tctx.user_id ≡ some rows
      → UniqueRows rows
      → All HasRole rows
      → (tctx.org_id ≢ 0) × (org_mismatch parse_id id_string tctx.org_id req ≡ false)
      → project_from_request parse_id id_string req ≡ ok 0
      → (method_allowed tctx (some (grants_from_memberships rows tctx.org_id tctx.user_id)) rule
          ≡ true)
        ↔ (check_access parse_id id_string (direct provider) method_info tctx req action ≡ ok tt)
  method_allowed-check_access provider tctx req action rule rows call person read unique given org
        named =
      let (to, from) = user_allowed_iff tctx _ rule (has_roles call) person in
      let (role_to, role_from) =
        Grants?-org provider tctx.org_id tctx.user_id rows read org.0 rule.allowed_roles in
      let (at_to, at_from) =
        at_project parse_id id_string method_info provider tctx req action rule rows call person
          read unique given 0 named in
      (
        λ h. let (r, s) = to h in at_from (org, role_from r, s),
        λ h. let (o, g, s) = at_to h in from (role_to g, s),
      )
    where
      has_roles : TenantCall method_info tctx action rule → is_empty rule.allowed_roles ≡ false
      has_roles (a, b, c, d, e, f, g, h) = e
