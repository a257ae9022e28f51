-- ===== src/Db/Scopes.antt =====
-- internal/db/pgsql/query/scope.go: the predicates on the org and the project of a row. A column
-- that is NULL is the id 0.
pub mod Tenancy
use trustyca.Base.{
  ℕ, Bool, true, not, ◌&&◌, ◌||◌, Option, none, some, List, any, ◌==◌, if◌then◌else◌,
}
use trustyca.Base.Status.{Result, Done, ok, err, wrapped}
use trustyca.Db.Model.{Scope, org_scope, project_scope, undefined}

-- the predicate on project_id that the query parameters record
pub data ProjectFilter : Type 0 where
  every_project org_wide in_projects : ProjectFilter
  in_project : ℕ → ProjectFilter
  visible : List ℕ → ProjectFilter

-- setProjectScope
unfoldable pub set_project_scope : ℕ → Scope → ProjectFilter
set_project_scope project_id undefined =
    if not (project_id == 0) then in_project project_id else every_project
set_project_scope project_id org_scope =
    if not (project_id == 0) then in_project project_id else org_wide
set_project_scope project_id project_scope =
    if not (project_id == 0) then in_project project_id else in_projects

-- setVisibleProjects; a nil list is none
unfoldable pub set_visible_projects : ProjectFilter → Option (List ℕ) → ProjectFilter
set_visible_projects f none = f
set_visible_projects every_project (some ids) = visible ids
set_visible_projects org_wide (some ids) = org_wide
set_visible_projects in_projects (some ids) = in_projects
set_visible_projects (in_project p) (some ids) = in_project p
set_visible_projects (visible old) (some ids) = visible old

-- whereProjectScope: does the row with the project pass
unfoldable pub where_project_scope : ProjectFilter → ℕ → Bool
where_project_scope every_project p = true
where_project_scope org_wide p = p == 0
where_project_scope in_projects p = not (p == 0)
where_project_scope (in_project q) p = p == q
where_project_scope (visible ids) p = p == 0 || any (λ q. q == p) ids

-- the predicate on org_id
pub data OrgFilter : Type 0 where
  every_org platform_only : OrgFilter
  in_org : ℕ → OrgFilter

-- setOrgScope
unfoldable pub set_org_scope : ℕ → Bool → OrgFilter
set_org_scope org_id platform =
    if not (org_id == 0) then in_org org_id else if platform then platform_only else every_org

-- whereOrgScope
unfoldable pub where_org_scope : OrgFilter → ℕ → Bool
where_org_scope every_org o = true
where_org_scope platform_only o = o == 0
where_org_scope (in_org p) o = o == p

-- setTenancy and whereTenancy: the exact tenancy of a row
unfoldable pub where_tenancy : ℕ → ℕ → ℕ → ℕ → Bool
where_tenancy org_id project_id o p =
    where_org_scope (set_org_scope org_id true) o
    && where_project_scope (set_project_scope project_id org_scope) p

-- checkListScope
unfoldable pub check_list_scope : ℕ → Bool → Bool → Result Done
check_list_scope org_id platform all_orgs =
    if org_id == 0 && not platform && not all_orgs
    then err (wrapped "org scope is required: set OrgID, Platform or AllOrgs")
    else ok tt

-- checkCountScope
unfoldable pub check_count_scope : ℕ → Result Done
check_count_scope org_id = if org_id == 0 then err (wrapped "org ID is required") else ok tt
