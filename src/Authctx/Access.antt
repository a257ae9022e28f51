-- ===== src/Authctx/Access.antt =====
-- internal/authctx/authz.go and allowed.go: which calls the servers accept. The authorizer is an
-- interface, as in the source; it gives its answers at the time of the call. The codec of the ids
-- (xdb) and the table of the methods (generated from the protos) are parameters. Logging is left
-- out.
pub mod Services
pub mod Tenants
pub mod Keys
use text.Mathlib.Text.{◌==◌ as str_eq, starts_with}
use trustyca.Base.{
  ℕ, String, Bool, true, false, not, ◌&&◌, ◌||◌, Option, none, some, List, [], ◌∷◌, ◌++◌, ◌==◌,
  if◌then◌else◌,
}
use trustyca.Base.Status.{
  Result, Done, ok, err, grpc, ◌>>=◌, permission_denied, unauthenticated, invalid_argument,
}
use trustyca.Text.{equal_fold}
use trustyca.Db.Model.{Project}
use trustyca.Authctx.Role.{Role, none_role, api_key, role_eq, allows_role}
use trustyca.Authctx.Scopes.{parse_scopes, has_scopes}
use trustyca.Authctx.Grants.{Grants, highest_role, is_empty, is_none}

-- trustycactx
pub record TrustyCtx : Type 0 where
  pub user_id : ℕ
  pub user_name : String
  pub user_email : String
  pub org_id : ℕ
  pub org_role : Role
  pub project_id : ℕ
  pub scopes : List String
  pub app_role : String
  pub user_agent : String
  pub target : String
  pub auth_method : String

abbrev pub is_api_key : TrustyCtx → Bool
is_api_key tctx = role_eq tctx.org_role api_key

-- the request: the ids that it carries, none where its type has no such getter
pub record Request : Type 0 where
  pub org_id : Option String
  pub project_id : Option String

-- pb.MethodInfo
pub record MethodInfo : Type 0 where
  pub allowed_roles : List String
  pub scopes : List String

-- why the authorizer refuses
pub data Refusal : Type 0 where
  insufficient_role access_denied org_not_selected : Refusal
  unavailable : String → Refusal

-- an answer of the authorizer
pub data Answer (A : Type 0) : Type 0 where
  granted : A → Answer A
  refused : Refusal → Answer A

-- Authorizer
pub record Authorizer : Type 0 where
  pub grants : ℕ → ℕ → Answer Grants
  pub project : ℕ → ℕ → Answer Project
  pub check_role : ℕ → ℕ → ℕ → List String → Answer (Role × Grants)

abbrev pub denied : {A : Type 0} → String → Result A
denied message = err (grpc permission_denied message)

-- the actions of the admin service that a viewer of trustyca may call
unfoldable pub viewer_may_call : String → Bool
viewer_may_call action =
    str_eq action "/privpb.Admin/SupportTenant"
    || starts_with action "/privpb.Admin/Get"
    || starts_with action "/privpb.Admin/List"

abbrev pub is_status_service : String → Bool
is_status_service action = starts_with action "/pb.Status"

abbrev pub is_privpb_service : String → Bool
is_privpb_service action = starts_with action "/privpb."

abbrev pub is_identity_service : String → Bool
is_identity_service action = starts_with action "/pb.Auth/"

abbrev pub is_service_role : String → Bool
is_service_role app_role = starts_with app_role "trustyca-"

-- the first part of CheckAccess: the admin and status services
unfoldable pub check_service_access : String → String → Result Done
check_service_access app_role action =
    let otherwise = if is_privpb_service action then denied "access denied" else ok tt in
    if starts_with app_role "trustyca-viewer"
    then (if viewer_may_call action then ok tt else otherwise)
    else if starts_with app_role "trustyca-admin"
    then ok tt
    else if is_service_role app_role
    then ok tt
    else otherwise

-- the two causes for which CheckAccess shows the refusal
abbrev pub refusal_message : Refusal → String
refusal_message insufficient_role = "insufficient role, action: %s"
refusal_message access_denied = "access denied, action: %s"
refusal_message org_not_selected = "org not selected, action: %s"
refusal_message (unavailable _) = "access denied, action: %s"

module _ (parse_id : String → Option ℕ) (id_string : ℕ → String) where
  -- ProjectFromRequest, with the error of CheckAccess
  unfoldable pub project_from_request : Request → Result ℕ
  project_from_request req = elim req.project_id [
    | none ↦ ok 0
    | some pid ↦ if str_eq pid "" then ok 0 else elim (parse_id pid) [
      | some id ↦ ok id
      | none ↦ err (grpc invalid_argument "invalid project ID")
    ]
  ]

  -- the request names another org than the token's
  unfoldable pub org_mismatch : ℕ → Request → Bool
  org_mismatch org_id req = elim req.org_id [
    | none ↦ false
    | some req_org ↦ not (str_eq req_org "") && not (str_eq req_org (id_string org_id))
  ]

-- the project that an API key acts in
unfoldable pub key_project : ℕ → ℕ → Result ℕ
key_project key_project_id project_id =
    if key_project_id == 0
    then ok project_id
    else if project_id == 0
    then ok key_project_id
    else if project_id == key_project_id
    then ok project_id
    else denied "project mismatch, action: %s"

abbrev pub key_scopes_verdict : TrustyCtx → MethodInfo → Result Done
key_scopes_verdict tctx rule =
    if not (has_scopes tctx.scopes (parse_scopes rule.scopes))
    then denied "insufficient scope, action: %s"
    else ok tt

abbrev pub project_verdict : Answer Project → Result Done
project_verdict (granted _) = ok tt
project_verdict (refused _) = denied "access denied, action: %s"

abbrev pub user_verdict : TrustyCtx → MethodInfo → Answer (Role × Grants) → Result Done
user_verdict tctx rule (refused why) = denied (refusal_message why)
user_verdict tctx rule (granted _) =
    if not (is_empty tctx.scopes) && not (has_scopes tctx.scopes (parse_scopes rule.scopes))
    then denied "insufficient scope, action: %s"
    else ok tt

module _ (authorizer : Authorizer) where
  unfoldable pub project_active : ℕ → ℕ → Result Done
  project_active org_id project_id =
      if project_id == 0 then ok tt else elim (authorizer.project org_id project_id) [
        | granted _ ↦ ok tt
        | refused _ ↦ denied "access denied, action: %s"
      ]

  -- checkAPIKeyAccess
  unfoldable pub check_api_key_access : TrustyCtx → MethodInfo → ℕ → ℕ → Result Done
  check_api_key_access tctx rule org_id project_id =
      if not (allows_role rule.allowed_roles api_key)
      then denied "API key not allowed, action: %s"
      else (key_project tctx.project_id project_id >>= λ project.
          project_active org_id project >>= λ _. key_scopes_verdict tctx rule)

  -- the end of CheckAccess: the role of a user, and the scopes of a scoped token
  unfoldable pub check_user_access : TrustyCtx → MethodInfo → ℕ → ℕ → Result Done
  check_user_access tctx rule org_id project_id =
      user_verdict tctx rule
        (authorizer.check_role org_id project_id tctx.user_id rule.allowed_roles)

module _ (parse_id : String → Option ℕ) (id_string : ℕ → String) (authorizer : Authorizer) where
  -- the last part of CheckAccess, by the kind of the caller
  abbrev pub caller_verdict : TrustyCtx → MethodInfo → ℕ → Result Done
  caller_verdict tctx rule project_id =
      if is_api_key tctx
      then check_api_key_access authorizer tctx rule tctx.org_id project_id
      else check_user_access authorizer tctx rule tctx.org_id project_id

  -- CheckAccess for a caller of an org
  abbrev pub tenant_verdict : TrustyCtx → Request → MethodInfo → Result Done
  tenant_verdict tctx req rule =
      if tctx.org_id == 0
      then denied "org not selected, action: %s"
      else if org_mismatch parse_id id_string tctx.org_id req
      then denied "org mismatch, action: %s"
      else (project_from_request parse_id id_string req >>= caller_verdict tctx rule)

  -- CheckAccess for a method with allowed roles
  unfoldable pub check_rule : TrustyCtx → Request → MethodInfo → Result Done
  check_rule tctx req rule =
      if str_eq tctx.app_role "" || equal_fold tctx.app_role "guest"
      then err (grpc unauthenticated "access denied")
      else if is_service_role tctx.app_role
      then ok tt
      else tenant_verdict tctx req rule

  -- the rule of the method, none where the table does not have it
  abbrev pub method_verdict : TrustyCtx → Request → Option MethodInfo → Result Done
  method_verdict tctx req none = ok tt
  method_verdict tctx req (some rule) =
      if is_empty rule.allowed_roles then ok tt else check_rule tctx req rule

  module _ (method_info : String → Option MethodInfo) where
    -- CheckAccess
    unfoldable pub check_access : TrustyCtx → Request → String → Result Done
    check_access tctx req action =
        if is_privpb_service action || is_status_service action
        then check_service_access tctx.app_role action
        else if is_identity_service action
        then ok tt
        else method_verdict tctx req (method_info action)

-- methodAllowed, for the entry of the method in the table
unfoldable pub method_allowed : TrustyCtx → Option Grants → MethodInfo → Bool
method_allowed tctx grants rule =
    if is_empty rule.allowed_roles
    then true
    else if is_api_key tctx
    then allows_role rule.allowed_roles api_key && has_scopes tctx.scopes (parse_scopes rule.scopes)
    else if is_none (highest_role grants 0 rule.allowed_roles)
    then false
    else is_empty tctx.scopes || has_scopes tctx.scopes (parse_scopes rule.scopes)
