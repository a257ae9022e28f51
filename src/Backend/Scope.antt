-- ===== src/Backend/Scope.antt =====
-- server/service/backend/scope.go: the org and the project of a request, and whether the caller may
-- call a method on a row.
pub mod Access
use text.Mathlib.Text.{◌==◌ as str_eq}
use trustyca.Base.{
  ℕ, String, Bool, not, ◌&&◌, ◌||◌, Option, none, some, List, [], ◌∷◌, ◌==◌, if◌then◌else◌,
}
use trustyca.Base.Status.{
  Result, Done, ok, err, grpc, wrapped, ◌>>=◌, invalid_argument, not_found, failed_precondition,
}
use trustyca.Db.Model.{Org, Project, active, status_eq}
use trustyca.Authctx.Role.{Role, viewer, role_name, allows_role}
use trustyca.Authctx.Grants.{
  Grants, highest_role, is_none, can_list_all_projects, granted_project_ids,
}
use trustyca.Authctx.Access.{
  TrustyCtx, MethodInfo, Authorizer, Answer, granted, refused, access_denied, insufficient_role,
  org_not_selected, unavailable, denied, is_api_key, is_service_role,
}
use trustyca.Ca.Rows.{Issuer}
use trustyca.Ca.Store.{Store, get_issuer}

-- tenantScope: the ids of xdb, the table of the methods, the authorizer, and GetOrg of the org
-- tables
pub record TenantScope : Type 0 where
  pub parse_id : String → Option ℕ
  pub id_string : ℕ → String
  pub method_info : String → Option MethodInfo
  pub authorizer : Authorizer
  pub get_org : ℕ → Result Org

-- isServiceCaller
unfoldable pub is_service_caller : TrustyCtx → Bool
is_service_caller tctx = is_service_role tctx.app_role

abbrev pub missing : {A : Type 0} → String → Result A
missing message = err (grpc not_found message)

-- an id that was parsed, with the error of a handler
abbrev pub parsed : String → Option ℕ → Result ℕ
parsed message none = err (grpc invalid_argument message)
parsed message (some id) = ok id

-- parseID of request.go
unfoldable pub parse_id_val : (String → Option ℕ) → String → String → String → Result ℕ
parse_id_val parse_id absent invalid val =
    if str_eq val "" then err (grpc invalid_argument absent) else parsed invalid (parse_id val)

abbrev pub org_read : ℕ → Result Org → Result ℕ
org_read org_id (ok org) =
    if status_eq org.status active
    then ok org_id
    else err (grpc failed_precondition "org is deleted")
org_read org_id (err (grpc not_found m)) = missing "org not found"
org_read org_id (err e) = err (wrapped "unable to find org")

-- the roles that a method allows
abbrev pub allowed_roles : Option MethodInfo → List String
allowed_roles none = []
allowed_roles (some rule) = rule.allowed_roles

-- the answer about a project, as an access to its row
abbrev pub project_seen : String → Answer Project → Result Done
project_seen message (granted p) = ok tt
project_seen message (refused access_denied) = missing message
project_seen message (refused insufficient_role) = err (wrapped "unable to find project")
project_seen message (refused org_not_selected) = err (wrapped "unable to find project")
project_seen message (refused (unavailable _)) = err (wrapped "unable to find project")

-- the answer about a user, as an access to a row of the project
abbrev pub role_seen : List String → ℕ → String → Answer (Role × Grants) → Result Done
role_seen allowed project_id message (granted (role, grants)) =
    if is_none (highest_role (some grants) project_id allowed)
    then denied "access denied"
    else ok tt
role_seen allowed project_id message (refused access_denied) = missing message
role_seen allowed project_id message (refused insufficient_role) = missing message
role_seen allowed project_id message (refused org_not_selected) = missing message
role_seen allowed project_id message (refused (unavailable _)) =
    err (wrapped "unable to resolve access")

abbrev pub listed : Answer Grants → Result (Option (List ℕ))
listed (granted g) =
    if can_list_all_projects (some g) then ok none else ok (some (granted_project_ids (some g)))
listed (refused why) = err (wrapped "unable to resolve access")

-- inProject
unfoldable pub in_project : ℕ → ℕ → Bool
in_project row_project_id project_id = project_id == 0 || row_project_id == project_id

module _ (scope : TenantScope) (tctx : TrustyCtx) where
  -- Org
  unfoldable pub org : String → Result ℕ
  org req_org_id =
      if not (is_service_caller tctx)
      then (if tctx.org_id == 0
          then denied "org not selected"
          else if not (str_eq req_org_id "")
              && not (str_eq req_org_id (scope.id_string tctx.org_id))
          then denied "org mismatch"
          else ok tctx.org_id)
      else if str_eq req_org_id ""
      then err (grpc invalid_argument "org ID is required")
      else (parsed "invalid org ID" (scope.parse_id req_org_id) >>= λ org_id.
          org_read org_id (scope.get_org org_id))

  -- the project that a request names, or the one of a restricted API key
  unfoldable pub named_project : String → String
  named_project req_project_id =
      if str_eq req_project_id "" && is_api_key tctx && not (tctx.project_id == 0)
      then scope.id_string tctx.project_id
      else req_project_id

  -- Project
  unfoldable pub project : ℕ → String → Result ℕ
  project org_id req_project_id =
      if str_eq (named_project req_project_id) ""
      then ok 0
      else (parsed "invalid project ID" (scope.parse_id (named_project req_project_id)) >>= λ id.
          project_seen "project not found" (scope.authorizer.project org_id id) >>= λ _. ok id)

  -- RequestProject
  unfoldable pub request_project : ℕ → String → Result ℕ
  request_project org_id req_project_id =
      if str_eq req_project_id "" then ok 0 else project org_id req_project_id

  -- RowAccess of an API key
  unfoldable pub key_row_access : ℕ → ℕ → List String → String → Result Done
  key_row_access org_id project_id allowed message =
      if not (project_id == 0)
      then (if not (tctx.project_id == 0) && not (tctx.project_id == project_id)
          then missing message
          else project_seen message (scope.authorizer.project org_id project_id))
      else if not (tctx.project_id == 0) && not (allows_role allowed viewer)
      then denied "access denied"
      else ok tt

  -- RowAccess; the message is that of a row that is not found
  unfoldable pub row_access : ℕ → ℕ → String → String → Result Done
  row_access org_id project_id method message =
      if is_service_caller tctx
      then ok tt
      else if is_api_key tctx
      then key_row_access org_id project_id (allowed_roles (scope.method_info method)) message
      else role_seen (allowed_roles (scope.method_info method)) project_id message
          (scope.authorizer.check_role org_id project_id tctx.user_id (role_name viewer ∷ []))

  -- ListProjects; a nil list is none
  unfoldable pub list_projects : ℕ → Result (Option (List ℕ))
  list_projects org_id =
      if is_api_key tctx || is_service_caller tctx
      then ok none
      else listed (scope.authorizer.grants org_id tctx.user_id)

  abbrev pub issuer_read : Result Issuer → Result Issuer
  issuer_read (ok row) = ok row
  issuer_read (err (grpc not_found m)) = missing "issuer not found"
  issuer_read (err e) = err (wrapped "unable to find issuer")

  -- VisibleIssuer
  unfoldable pub visible_issuer : ℕ → Issuer → String → Result Issuer
  visible_issuer org_id row method =
      if not (row.org_id == org_id)
      then missing "issuer not found"
      else (row_access org_id row.project_id method "issuer not found" >>= λ _. ok row)

  -- Issuer
  unfoldable pub issuer : (String → Bool) → ℕ → ℕ → String → String → Store → Result Issuer
  issuer down org_id project_id id_val method s =
      parse_id_val scope.parse_id "missing issuer ID" "invalid issuer ID" id_val >>= λ id.
      issuer_read (get_issuer down id s) >>= λ row.
      if not (in_project row.project_id project_id)
      then missing "issuer not found"
      else visible_issuer org_id row method
