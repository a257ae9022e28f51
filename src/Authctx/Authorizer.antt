-- ===== src/Authctx/Authorizer.antt =====
-- internal/authctx/authorizer.go: the authorizer, which reads the memberships and the projects
-- from its provider through a cache. The cache (porto) and the text of the ids (xdb) are
-- parameters; each operation returns the cache that it leaves.
pub mod Coherence
pub mod Answers
use Prim.Native.String.{◌++◌}
use trustyca.Base.{
  ℕ, String, Bool, true, false, not, ◌&&◌, ◌||◌, Option, none, some, List, ◌==◌, if◌then◌else◌,
}
use trustyca.Db.Model.{MembershipInfo, Project, active, status_eq}
use trustyca.Authctx.Role.{Role, none_role}
use trustyca.Authctx.Grants.{Grants, grants_from_memberships, highest_role, is_none}
use trustyca.Authctx.Access.{
  Answer, granted, refused, Refusal, insufficient_role, access_denied, org_not_selected,
  unavailable,
}

-- GetProject's answer
pub data Fetched : Type 0 where
  fetched : Project → Fetched
  missing : Fetched
  failed : String → Fetched

-- GrantsProvider: the memberships of a user in the active orgs, and a project by its id
pub record GrantsProvider : Type 0 where
  pub list_memberships : ℕ → Option (List MembershipInfo)
  pub get_project : ℕ → Fetched

-- what the cache holds under a key; reading an entry as the other kind fails
pub data Entry : Type 0 where
  memberships : List MembershipInfo → Entry
  project : Project → Entry

-- cache.Provider
pub record Cache (C : Type 0) : Type 0 where
  pub get : C → String → Option Entry
  pub set : C → String → Entry → C
  pub delete : C → String → C

-- membershipsCacheKey, projectCacheKey
unfoldable pub memberships_cache_key : String → String
memberships_cache_key user_id = "/memberships/" ++ user_id

unfoldable pub project_cache_key : String → String
project_cache_key project_id = "/projects/" ++ project_id

unfoldable pub as_memberships : Option Entry → Option (List MembershipInfo)
as_memberships none = none
as_memberships (some (memberships rows)) = some rows
as_memberships (some (project _)) = none

unfoldable pub as_project : Option Entry → Option Project
as_project none = none
as_project (some (memberships _)) = none
as_project (some (project p)) = some p

-- Grants and Project, from what was read
unfoldable pub grants_answer : ℕ → ℕ → Option (List MembershipInfo) → Answer Grants
grants_answer org_id user_id none = refused (unavailable "unable to get user memberships")
grants_answer org_id user_id (some rows) = granted (grants_from_memberships rows org_id user_id)

unfoldable pub project_answer : ℕ → Fetched → Answer Project
project_answer org_id missing = refused access_denied
project_answer org_id (failed why) = refused (unavailable why)
project_answer org_id (fetched p) =
    if not (p.org_id == org_id) || not (status_eq p.status active)
    then refused access_denied
    else granted p

-- the end of CheckRole
unfoldable pub role_answer : ℕ → List String → Answer Grants → Answer (Role × Grants)
role_answer project_id allowed_roles (refused why) = refused why
role_answer project_id allowed_roles (granted g) =
    let role = highest_role (some g) project_id allowed_roles in
    if is_none role then refused insufficient_role else granted (role, g)

-- the error of an answer
abbrev pub refusal : {A : Type 0} → Answer A → Option Refusal
refusal (granted _) = none
refusal (refused why) = some why

module _ (C : Type 0) (cache : Cache C) (id_string : ℕ → String) (provider : GrantsProvider) where
  fill_memberships : C → ℕ → Option (List MembershipInfo) → C
  fill_memberships c user_id none = c
  fill_memberships c user_id (some rows) =
      cache.set c (memberships_cache_key (id_string user_id)) (memberships rows)

  fill_project : C → ℕ → Fetched → C
  fill_project c project_id missing = c
  fill_project c project_id (failed _) = c
  fill_project c project_id (fetched p) =
      cache.set c (project_cache_key (id_string project_id)) (project p)

  -- getMemberships, after the read of the cache
  memberships_read : C → ℕ → Option (List MembershipInfo) → Option (List MembershipInfo) × C
  unfolding fill_memberships
  memberships_read c user_id (some rows) = (some rows, c)
  memberships_read c user_id none =
      let rows = provider.list_memberships user_id in (rows, fill_memberships c user_id rows)

  unfoldable pub get_memberships : C → ℕ → Option (List MembershipInfo) × C
  unfolding memberships_read
  get_memberships c user_id =
      memberships_read c user_id
        (as_memberships (cache.get c (memberships_cache_key (id_string user_id))))

  -- getProject, after the read of the cache
  project_read : C → ℕ → Option Project → Fetched × C
  unfolding fill_project
  project_read c project_id (some p) = (fetched p, c)
  project_read c project_id none =
      let p = provider.get_project project_id in (p, fill_project c project_id p)

  unfoldable pub get_project : C → ℕ → Fetched × C
  unfolding project_read
  get_project c project_id =
      project_read c project_id
        (as_project (cache.get c (project_cache_key (id_string project_id))))

  -- Grants
  unfoldable pub grants : C → ℕ → ℕ → Answer Grants × C
  unfolding get_memberships
  grants c org_id user_id =
      if org_id == 0
      then (refused org_not_selected, c)
      else (let (rows, after) = get_memberships c user_id in
          (grants_answer org_id user_id rows, after))

  -- Project
  unfoldable pub active_project : C → ℕ → ℕ → Answer Project × C
  unfolding get_project
  active_project c org_id project_id =
      if org_id == 0
      then (refused org_not_selected, c)
      else (let (p, after) = get_project c project_id in (project_answer org_id p, after))

  -- CheckRole, after the check of the project
  role_checked : ℕ → ℕ → ℕ → List String → Option Refusal → C → Answer (Role × Grants) × C
  unfolding grants
  role_checked org_id project_id user_id allowed_roles (some why) c = (refused why, c)
  role_checked org_id project_id user_id allowed_roles none c =
      let (g, after) = grants c org_id user_id in (role_answer project_id allowed_roles g, after)

  unfoldable pub check_role : C → ℕ → ℕ → ℕ → List String → Answer (Role × Grants) × C
  unfolding active_project role_checked
  check_role c org_id project_id user_id allowed_roles =
      if project_id == 0
      then role_checked org_id project_id user_id allowed_roles none c
      else (let (answer, after) = active_project c org_id project_id in
          role_checked org_id project_id user_id allowed_roles (refusal answer) after)

  -- InvalidateUser, InvalidateProject
  unfoldable pub invalidate_user : C → String → C
  invalidate_user c user_id = cache.delete c (memberships_cache_key user_id)

  unfoldable pub invalidate_project : C → String → C
  invalidate_project c project_id = cache.delete c (project_cache_key project_id)
