-- ===== src/Db/Tenants.antt =====
-- internal/db/pgsql/org.go and project.go: the statements on orgs and projects.
use text.Mathlib.Text.{◌==◌ as str_eq}
use Prim.Native.String.{len}
use trustyca.Base.{
  ℕ, ◌+◌, String, Bool, not, ◌&&◌, ◌||◌, Option, none, some, List, [], ◌∷◌, ◌++◌, ◌==◌, ltb,
  if◌then◌else◌, find?, filter, map, any,
}
use trustyca.Base.Status.{Result, Done, ok, err, wrapped, ◌>>=◌}
use trustyca.Authctx.Role.{owner}
use trustyca.Db.Model.{ItemStatus, status_unknown, active, status_eq, Org, Project, User}
use trustyca.Db.Tables.{State, Call, found, no_error, add_member}

-- UpdateOrgRequest, UpdateProjectRequest
pub record UpdateRequest : Type 0 where
  pub id : ℕ
  pub name : String
  pub description : String
  pub status : ItemStatus

abbrev or_old : String → String → String
or_old new old = if str_eq new "" then old else new

abbrev or_old_status : ItemStatus → ItemStatus → ItemStatus
or_old_status new old = if status_eq new status_unknown then old else new

-- the UPDATE of UpdateOrg and of UpdateProject
unfoldable pub set_org : UpdateRequest → Org → Org
set_org r o =
    if o.id == r.id
    then record o {
      name = or_old r.name o.name;
      description = or_old r.description o.description;
      status = or_old_status r.status o.status;
    }
    else o

unfoldable pub set_project : UpdateRequest → Project → Project
set_project r p =
    if p.id == r.id
    then record p {
      name = or_old r.name p.name;
      description = or_old r.description p.description;
      status = or_old_status r.status p.status;
    }
    else p

-- the checks at the start of UpdateOrg and of UpdateProject
unfoldable pub check_update : UpdateRequest → Result Done
check_update r =
    if str_eq r.name "" && str_eq r.description "" && status_eq r.status status_unknown
    then err (wrapped "no changes to update")
    else if ltb 64 (len r.name)
    then err (wrapped "invalid name")
    else ok tt

-- the rows of a list of projects: ListProjectsRequest without its page; ids is none for nil
unfoldable pub selects_project : ℕ → ItemStatus → Option (List ℕ) → Project → Bool
selects_project org_id status none p =
    (org_id == 0 || p.org_id == org_id)
    && (status_eq status status_unknown || status_eq p.status status)
selects_project org_id status (some ids) p =
    (org_id == 0 || p.org_id == org_id)
    && (status_eq status status_unknown || status_eq p.status status)
    && any (λ i. i == p.id) ids

module _ (page : ℕ) (down : String → Bool) (random_alias : String) (valid_org : Org → Bool)
    (valid_project : Project → Bool) where
  -- RegisterOrg: the org and its owner in one transaction
  unfoldable pub register_org : Org → ℕ → Call Org
  register_org m owner_id s =
      let org = record m {
        id = if m.id == 0 then s.next_id else m.id;
        alias = if str_eq m.alias "" then random_alias else m.alias;
      } in
      no_error (not (valid_org org) || down "RegisterOrg") >>= λ _.
      (let with_org = record s { orgs = s.orgs ++ org ∷ []; next_id = s.next_id + 1 } in
        if owner_id == 0
        then ok (org, with_org)
        else (add_member page down
              (record { id = 0; org_id = org.id; project_id = 0; user_id = owner_id; role = owner })
              org (owner_row owner_id s.users) with_org
            >>= λ (_, t). ok (org, t)))
    where
      owner_row : ℕ → List User → User
      owner_row id [] = record { id = id; email = ""; name = "" }
      owner_row id (u ∷ users) = if u.id == id then u else owner_row id users

  -- UpdateOrg
  unfoldable pub update_org : UpdateRequest → Call Org
  update_org r s = check_update r >>= λ _. no_error (down "UpdateOrg") >>= λ _.
      found (find? (λ o. o.id == r.id) s.orgs) >>= λ o.
      ok (set_org r o, record s { orgs = map (set_org r) s.orgs })

  -- RegisterProject; the alias and the checks of the row are not its own
  unfoldable pub register_project : Project → Call Project
  register_project m s =
      let project = record m {
        id = if m.id == 0 then s.next_id else m.id;
        alias = if str_eq m.alias "" then random_alias else m.alias;
        status = active;
      } in
      no_error (not (valid_project project) || down "RegisterProject") >>= λ _.
      ok (project, record s { projects = s.projects ++ project ∷ []; next_id = s.next_id + 1 })

  -- UpdateProject
  unfoldable pub update_project : UpdateRequest → Call Project
  update_project r s = check_update r >>= λ _. no_error (down "UpdateProject") >>= λ _.
      found (find? (λ p. p.id == r.id) s.projects) >>= λ p.
      ok (set_project r p, record s { projects = map (set_project r) s.projects })

  -- FindProject
  unfoldable pub find_project : ℕ → String → State → Result Project
  find_project org_id alias s = no_error (down "FindProject") >>= λ _.
      found (find? (λ p. p.org_id == org_id && str_eq p.alias alias) s.projects)

  -- ListProjects, before its page is cut
  unfoldable pub list_projects : ℕ → ItemStatus → Option (List ℕ) → State → Result (List Project)
  list_projects org_id status ids s = no_error (down "ListProjects") >>= λ _.
      ok (filter (selects_project org_id status ids) s.projects)
