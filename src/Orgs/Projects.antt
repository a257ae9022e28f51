-- ===== src/Orgs/Projects.antt =====
-- server/service/orgs/projects.go: the handlers of projects. The page of ListProjects is cut from the
-- rows that it returns here.
pub mod Visible
use text.Mathlib.Text.{◌==◌ as str_eq}
use trustyca.Base.{
  ℕ, String, Bool, not, ◌&&◌, Option, none, some, List, [], ◌∷◌, ◌==◌, if◌then◌else◌,
}
use trustyca.Base.Status.{Result, Done, ok, err, grpc, wrapped, not_found, ◌>>=◌}
use trustyca.Text.{trim_space}
use trustyca.Db.Model.{ItemStatus, status_unknown, active, inactive, Org, Project}
use trustyca.Db.Tables.{State, Call, project_created, project_updated, project_deleted}
use trustyca.Db.Tenants.{
  register_project, update_project, find_project, list_projects, UpdateRequest,
}
use trustyca.Authctx.Role.{Role, none_role, api_key}
use trustyca.Authctx.Grants.{Grants, can_list_all_projects, granted_project_ids, is_empty}
use trustyca.Authctx.Access.{TrustyCtx, Authorizer, Answer, granted, refused, is_api_key}
use trustyca.Orgs.Common.{
  token_org, parse_required_id, get_active_org, get_project, mark_project, emit, invalid,
}

-- the grants that ListProjects gives an API key
unfoldable pub key_grants : TrustyCtx → ℕ → Grants
key_grants tctx org_id =
    if tctx.project_id == 0
    then record { org_id = org_id; user_id = 0; org_role = api_key; project_roles = [] }
    else record {
      org_id = org_id;
      user_id = 0;
      org_role = none_role;
      project_roles = (tctx.project_id, api_key) ∷ [];
    }

abbrev pub resolved_access : Answer Grants → Result Grants
resolved_access (granted g) = ok g
resolved_access (refused _) = err (wrapped "failed to resolve access")

abbrev readable : Project → Answer (Role × Grants) → Result Project
readable p (granted _) = ok p
readable p (refused _) = err (grpc not_found "project not found")

abbrev present_project : Option Project → Result Project
present_project (some p) = ok p
present_project none = err (wrapped "no project")

module _ (parse_id : String → Option ℕ) (page : ℕ) (down : String → Bool) (random_alias : String)
    (valid_org : Org → Bool) (valid_project : Project → Bool) (authorizer : Authorizer) where
  -- RegisterProject
  unfoldable pub register : TrustyCtx → String → String → String → Call Project
  register tctx req_name alias description s = token_org tctx >>= λ org_id.
      if str_eq (trim_space req_name) ""
      then invalid "name is required"
      else (get_active_org down page org_id s >>= λ _.
          register_project page down random_alias valid_org valid_project
            (record {
              id = 0;
              org_id = org_id;
              alias = trim_space alias;
              name = trim_space req_name;
              description = description;
              status = active;
            })
            s
          >>= λ (p, t). ok (p, emit project_created org_id p.id p.id t))

  -- UpdateProject and DeleteProject, from the id of the request on
  unfoldable pub change : TrustyCtx → String → String → String → ItemStatus → Call Project
  change tctx project name description status s = token_org tctx >>= λ org_id.
      parse_required_id parse_id project "invalid project ID" >>= λ project_id.
      get_project authorizer org_id project_id >>= λ _.
      update_project page down random_alias valid_org valid_project
        (record { id = project_id; name = name; description = description; status = status }) s
      >>= λ (p, t). ok (p, mark_project project_id t)

  -- UpdateProject
  unfoldable pub update : TrustyCtx → String → String → String → Call Project
  unfolding change
  update tctx project name description s =
      change tctx project (trim_space name) description status_unknown s >>= λ (p, t).
      ok (p, emit project_updated tctx.org_id p.id p.id t)

  -- DeleteProject
  unfoldable pub delete : TrustyCtx → String → Call Project
  unfolding change
  delete tctx project s = change tctx project "" "" inactive s >>= λ (p, t).
      ok (p, emit project_deleted tctx.org_id p.id p.id t)

  -- the authorization of a project that GetProject found by its alias
  unfoldable pub check_found : TrustyCtx → ℕ → Project → Result Project
  check_found tctx org_id p =
      if is_api_key tctx
      then (if not (tctx.project_id == 0) && not (tctx.project_id == p.id)
          then err (grpc not_found "project not found")
          else ok p)
      else readable p (authorizer.check_role org_id p.id tctx.user_id ("Viewer" ∷ []))

  -- GetProject
  unfoldable pub get : TrustyCtx → String → String → State → Result Project
  unfolding check_found
  get tctx project alias s = token_org tctx >>= λ org_id.
      if not (str_eq project "")
      then (parse_required_id parse_id project "invalid project ID" >>= λ project_id.
          get_project authorizer org_id project_id >>= λ p. present_project p)
      else if str_eq alias ""
      then invalid "project ID or alias is required"
      else (find_project page down random_alias valid_org valid_project org_id alias s >>= λ p.
          check_found tctx org_id p)

  -- the grants that ListProjects goes by
  unfoldable pub list_grants : TrustyCtx → ℕ → Result Grants
  list_grants tctx org_id =
      if is_api_key tctx
      then ok (key_grants tctx org_id)
      else resolved_access (authorizer.grants org_id tctx.user_id)

  -- the rows of ListProjects for a caller with the grants
  unfoldable pub list_granted : ℕ → ItemStatus → Grants → State → Result (List Project)
  list_granted org_id status g s =
      if can_list_all_projects (some g)
      then list_projects page down random_alias valid_org valid_project org_id status none s
      else if is_empty (granted_project_ids (some g))
      then ok []
      else list_projects page down random_alias valid_org valid_project org_id status
          (some (granted_project_ids (some g))) s

  -- ListProjects
  unfoldable pub list : TrustyCtx → ItemStatus → State → Result (List Project)
  unfolding list_grants list_granted
  list tctx status s =
      token_org tctx >>= λ org_id. list_grants tctx org_id >>= λ g. list_granted org_id status g s
