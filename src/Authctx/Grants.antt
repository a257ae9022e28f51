-- ===== src/Authctx/Grants.antt =====
-- internal/authctx/grants.go: the explicit grants of a user in one org. A `*Grants` that may be
-- nil is an `Option Grants`.
pub mod Rows
pub mod Effective
pub mod Derived
pub mod Granting
use trustyca.Base.{
  ℕ, String, Bool, true, false, not, ◌&&◌, ◌||◌, Option, none, some, List, [], ◌∷◌, ◌++◌, ◌==◌, ltb,
  leb, if◌then◌else◌, length, lookup, put, map,
}
use trustyca.Authctx.Role.{
  Role, none_role, api_key, viewer, admin, owner, role_eq, role_name, RoleSource, unknown, direct,
  project, can_assume_role, is_org_role, is_project_role,
}
use trustyca.Db.Model.{MembershipInfo}

-- Grants; ProjectRoles maps the project to its role
pub record Grants : Type 0 where
  pub org_id : ℕ
  pub user_id : ℕ
  pub org_role : Role
  pub project_roles : List (ℕ × Role)

abbrev pub no_grants : ℕ → ℕ → Grants
no_grants org_id user_id = record {
  org_id = org_id;
  user_id = user_id;
  org_role = none_role;
  project_roles = [];
}

-- one round of the loop of GrantsFromMemberships
unfoldable pub add_row : Grants → MembershipInfo → Grants
add_row g m =
    if not (m.org_id == g.org_id) || not (m.user_id == g.user_id)
    then g
    else if m.project_id == 0
    then record g { org_role = m.role }
    else record g { project_roles = put m.project_id m.role g.project_roles }

abbrev pub add_rows : Grants → List MembershipInfo → Grants
add_rows g [] = g
add_rows g (m ∷ rows) = add_rows (add_row g m) rows

-- GrantsFromMemberships
unfoldable pub grants_from_memberships : List MembershipInfo → ℕ → ℕ → Grants
grants_from_memberships rows org_id user_id = add_rows (no_grants org_id user_id) rows

abbrev pub is_none : Role → Bool
is_none r = role_eq r none_role

abbrev pub is_empty {ℓ} : {A : Type ℓ} → List A → Bool
is_empty [] = true
is_empty (_ ∷ _) = false

-- IsMember
unfoldable pub is_member : Option Grants → Bool
is_member none = false
is_member (some g) = not (is_none g.org_role) || not (is_empty g.project_roles)

-- ResolvedOrgRole
unfoldable pub resolved_org_role : Option Grants → Role × RoleSource
resolved_org_role none = (none_role, unknown)
resolved_org_role (some g) =
    if not (is_none g.org_role)
    then (g.org_role, direct)
    else if not (is_empty g.project_roles)
    then (viewer, project)
    else (none_role, unknown)

abbrev pub role_list : Option Role → List Role
role_list none = []
role_list (some r) = r ∷ []

-- the role as a list, empty for None
abbrev pub present : Role → List Role
present r = if is_none r then [] else r ∷ []

-- Roles
unfoldable pub roles : Option Grants → ℕ → List Role
unfolding resolved_org_role
roles none project_id = []
roles (some g) project_id =
    if project_id == 0
    then present (resolved_org_role (some g)).0
    else present g.org_role ++ role_list (lookup project_id g.project_roles)

-- the loop of HighestRole
unfoldable pub first_allowed : List String → List Role → Role
first_allowed allowed [] = none_role
first_allowed allowed (r ∷ rs) =
    if is_empty allowed || can_assume_role r allowed then r else first_allowed allowed rs

-- HighestRole
unfoldable pub highest_role : Option Grants → ℕ → List String → Role
highest_role g project_id allowed = first_allowed allowed (roles g project_id)

-- HasProjectAccess
unfoldable pub has_project_access : Option Grants → ℕ → Bool
has_project_access g project_id = not (is_empty (roles g project_id))

-- CanListAllProjects
unfoldable pub can_list_all_projects : Option Grants → Bool
can_list_all_projects none = false
can_list_all_projects (some g) = not (is_none g.org_role)

-- sort.Slice by <
unfoldable pub insert_sorted : ℕ → List ℕ → List ℕ
insert_sorted x [] = x ∷ []
insert_sorted x (y ∷ ys) = let rest = insert_sorted x ys in if leb x y then x ∷ y ∷ ys else y ∷ rest

unfoldable pub sort : List ℕ → List ℕ
unfolding insert_sorted
sort [] = []
sort (x ∷ xs) = insert_sorted x (sort xs)

-- GrantedProjectIDs
unfoldable pub granted_project_ids : Option Grants → List ℕ
granted_project_ids none = []
granted_project_ids (some g) = sort (map (λ e. e.0) g.project_roles)

-- CanGrantOrgRole
unfoldable pub can_grant_org_role : Option Grants → Role → Bool
can_grant_org_role none role = false
can_grant_org_role (some g) role =
    if not (is_org_role role) || is_none g.org_role
    then false
    else if role_eq g.org_role owner
    then true
    else not (role_eq role owner) && can_assume_role g.org_role (role_name admin ∷ [])

-- CanGrantProjectRole
unfoldable pub can_grant_project_role : Option Grants → ℕ → Role → Bool
can_grant_project_role none project_id role = false
can_grant_project_role (some g) project_id role =
    is_project_role role && not (is_none (highest_role (some g) project_id (role_name admin ∷ [])))
