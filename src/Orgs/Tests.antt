-- ===== src/Orgs/Tests.antt =====
-- The owner of a small org removes a member, and a member lists the projects.
use text.Mathlib.Text.{◌==◌ as str_eq}
use trustyca.Base.{
  ℕ, String, ◌≡◌, refl, ◌≢◌, ◌↔◌, inl, inr, Bool, true, false, Option, some, none, [], ◌∷◌, arith,
  Any, if◌then◌else◌,
}
use trustyca.Orgs.Members.Demote.{change_member_role-IsOwner}
use trustyca.Orgs.Members.Changes.{change_member_role, change_role}
use trustyca.Orgs.Common.{get_active_org, get_project}
use trustyca.Db.Tables.{
  update_member_role, set_role, is_row, get_org, get_user, project_member_role_changed,
}
use trustyca.Db.Model.{User}
use trustyca.Authctx.Role.{viewer}
use trustyca.Base.Status.{ok}
use trustyca.Text.{trim_space, is_space}
use trustyca.Db.Model.{MembershipInfo, Project, active, find_member_by_user_id, scope_of, Org}
use trustyca.Db.Scopes.{
  set_project_scope, where_project_scope, where_tenancy, set_org_scope, where_org_scope,
  check_list_scope,
}
use trustyca.Db.Scopes.Tenancy.{where_tenancy_iff, check_list_scope-where_org_scope}
use trustyca.Db.Tables.{
  State, list_memberships, selects, delete_member_rows, deletes, project_member_removed,
}
use trustyca.Db.Tenants.{list_projects, selects_project}
use trustyca.Authctx.Role.{
  admin, owner, none_role, can_assume_role, can_assume_roles, parse_role, role_by_name,
  is_project_role,
}
use trustyca.Authctx.Grants.{
  Grants, can_grant_project_role, highest_role, roles, first_allowed, can_list_all_projects,
  granted_project_ids, sort, insert_sorted,
}
use trustyca.Authctx.Access.{TrustyCtx, Authorizer, granted}
use trustyca.Authctx.Tests.{row, table, table-UniqueRows, project_5}
use trustyca.Orgs.Common.{token_org, parse_optional_id}
use trustyca.Orgs.Members.{MemberRequest, grantable, member_event}
use trustyca.Orgs.Members.Changes.{
  find_in, find_member, check_last_owner, remove_member, delete_member,
}
use trustyca.Orgs.Members.Rows.{IsOwner}
use trustyca.Orgs.Members.LastOwner.{delete_member-IsOwner}
use trustyca.Orgs.Members.Granted.{MayGrantAt, Loses, delete_member-granted}
use trustyca.Orgs.Projects.{list, list_grants, list_granted}
use trustyca.Orgs.Projects.Visible.{MaySee, HasStatus, list-MaySee}

abbrev owner_grants : Grants
owner_grants = record { org_id = 1; user_id = 8; org_role = owner; project_roles = [] }

abbrev authorizer : Authorizer
authorizer = record {
  grants = λ o u. granted owner_grants;
  project = λ o p. granted project_5;
  check_role = λ o p u a. granted (owner, owner_grants);
}

abbrev caller : TrustyCtx
caller = record {
  user_id = 8;
  user_name = "B";
  user_email = "b@acme.test";
  org_id = 1;
  org_role = owner;
  project_id = 0;
  scopes = [];
  app_role = "user";
  user_agent = "";
  target = "";
  auth_method = "jwt";
}

abbrev state : State
state = record {
  orgs = [];
  projects = project_5 ∷ [];
  users = [];
  members = table;
  invites = [];
  next_id = 100;
  invalidated_users = [];
  invalidated_projects = [];
  events = [];
}

abbrev after : State
after = record state {
  members = row 0 8 owner ∷ [];
  invalidated_users = 7 ∷ [];
  events = record { kind = project_member_removed; org_id = 1; project_id = 5; reference = 7 } ∷ [];
}

abbrev parse_id : String → Option ℕ
parse_id s = if str_eq s "5" then some 5 else if str_eq s "7" then some 7 else none

abbrev same : String → String
same s = s

abbrev up : String → Bool
up s = false

abbrev remove_7 : MemberRequest
remove_7 = record { project_id = "5"; user_id = "7"; email = ""; role = none_role }

deleted : delete_member parse_id same 100 0 10 up authorizer caller remove_7 state ≡ ok (tt, after)
unfolding delete_member find_member find_in check_last_owner remove_member delete_member_rows
    deletes list_memberships selects set_project_scope where_project_scope scope_of token_org
    parse_optional_id grantable member_event find_member_by_user_id can_grant_project_role
    is_project_role highest_role roles first_allowed can_assume_role can_assume_roles parse_role
    role_by_name trim_space is_space
deleted = refl

delete_member-IsOwner_example : Any (IsOwner 1) after.members
delete_member-IsOwner_example =
    delete_member-IsOwner parse_id same 100 0 10 up authorizer caller remove_7 state after tt
      table-UniqueRows (λ e. ground arith, (λ e. ground arith, tt)) (inr (inl (refl, refl, refl)))
      deleted

delete_member-granted_example :
    (caller.org_id ≢ 0)
    × ((p : ℕ) × (member : MembershipInfo) × (parse_optional_id parse_id "5" ≡ ok p)
        × (find_member parse_id same 100 0 10 up authorizer 1 p "7" "" state ≡ ok member)
        × ((g : Grants) × (authorizer.grants 1 8 ≡ granted g) × MayGrantAt p member.role g)
        × Loses 1 p member table (row 0 8 owner ∷ []))
delete_member-granted_example =
    delete_member-granted parse_id same 100 0 10 up authorizer caller remove_7 state after tt
      table-UniqueRows (λ e. ground arith, (λ e. ground arith, tt)) deleted

-- the grants of a member of project 5
abbrev project_grants : Grants
project_grants = record {
  org_id = 1;
  user_id = 7;
  org_role = none_role;
  project_roles = (5, admin) ∷ [];
}

abbrev valid_org : Org → Bool
valid_org o = true

abbrev valid_project : Project → Bool
valid_project p = true

abbrev project_authorizer : Authorizer
project_authorizer = record authorizer { grants = λ o u. granted project_grants }

abbrev project_caller : TrustyCtx
project_caller = record caller { user_id = 7; org_role = admin }

listed :
    list parse_id 10 up "a" valid_org valid_project project_authorizer project_caller active state
    ≡ ok (project_5 ∷ [])
unfolding list list_grants list_granted can_list_all_projects granted_project_ids sort insert_sorted
    list_projects selects_project token_org
listed = refl

abbrev org_1 : ℕ
org_1 = 1

org_1-ne-zero : org_1 ≢ 0
org_1-ne-zero e = ground arith

list-MaySee_example :
    (project_caller.org_id ≢ 0)
    × (Any (λ x. x ≡ project_5) (project_5 ∷ []) ↔ (
        Any (λ x. x ≡ project_5) state.projects
        × HasStatus active project_5
        × MaySee project_authorizer project_caller project_5))
list-MaySee_example =
    list-MaySee parse_id 10 up "a" valid_org valid_project project_authorizer project_caller active
      state (project_5 ∷ []) project_5 listed

where_tenancy_iff_example : where_tenancy 3 0 3 0 ≡ true
where_tenancy_iff_example = (where_tenancy_iff 3 0 3 0).1 (refl, refl)

checked : check_list_scope 1 false false ≡ ok tt
unfolding check_list_scope
checked = refl

let_through : where_org_scope (set_org_scope 1 false) 1 ≡ true
unfolding where_org_scope set_org_scope
let_through = refl

check_list_scope-where_org_scope_example : org_1 ≡ 1
check_list_scope-where_org_scope_example =
    check_list_scope-where_org_scope 1 false 1 checked let_through

abbrev org_acme : Org
org_acme = record { id = 1; alias = "acme"; name = "Acme"; description = ""; status = active }

abbrev user_7 : User
user_7 = record { id = 7; email = "a@acme.test"; name = "A" }

abbrev with_users : State
with_users = record state { orgs = org_acme ∷ []; users = user_7 ∷ [] }

abbrev demoted : State
demoted = record with_users {
  members = row 5 7 viewer ∷ row 0 8 owner ∷ [];
  invalidated_users = 7 ∷ [];
  events =
      record { kind = project_member_role_changed; org_id = 1; project_id = 5; reference = 7 } ∷ [];
}

abbrev demote_7 : MemberRequest
demote_7 = record { project_id = "5"; user_id = "7"; email = ""; role = viewer }

changed :
    change_member_role parse_id same 100 0 10 up authorizer caller demote_7 with_users
    ≡ ok (row 5 7 viewer, demoted)
unfolding change_member_role change_role find_member find_in check_last_owner update_member_role
    set_role is_row get_active_org get_org get_project get_user list_memberships selects
    set_project_scope where_project_scope scope_of token_org parse_optional_id grantable
    member_event find_member_by_user_id can_grant_project_role is_project_role highest_role roles
    first_allowed can_assume_role can_assume_roles parse_role role_by_name trim_space is_space
changed = refl

change_member_role-IsOwner_example : Any (IsOwner 1) demoted.members
change_member_role-IsOwner_example =
    change_member_role-IsOwner parse_id same 100 0 10 up authorizer caller demote_7 with_users
      demoted (row 5 7 viewer) table-UniqueRows (inr (inl (refl, refl, refl))) changed
