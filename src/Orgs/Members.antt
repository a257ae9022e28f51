-- ===== src/Orgs/Members.antt =====
-- server/service/orgs/members.go: the handlers of members and invites. A handler that returns an
-- error leaves the state as it was, since its last call that can fail is the one that writes.
pub mod Changes
pub mod Rows
pub mod Steps
pub mod LastOwner
pub mod Demote
pub mod Granted
use text.Mathlib.Text.{◌==◌ as str_eq}
use trustyca.Base.{
  ℕ, String, Bool, not, ◌&&◌, ◌||◌, Option, none, some, List, [], ◌∷◌, ◌==◌, ltb, leb,
  if◌then◌else◌, find?, map,
}
use trustyca.Base.Status.{
  Code, Error, Result, Done, ok, err, grpc, wrapped, invalid_argument, not_found, already_exists,
  unauthenticated, failed_precondition, ◌>>=◌,
}
use trustyca.Text.{trim_space}
use trustyca.Db.Model.{
  ItemStatus, status_unknown, active, Scope, undefined, org_scope, project_scope, scope_of, Org,
  Project, User, Membership, MembershipInfo, Invite, find_member_by_user_id, find_member_by_email,
  count_org_role, filter_by_project, org_ids,
}
use trustyca.Db.Tables.{
  State, Call, EventType, org_member_added, project_member_added, org_member_invited,
  project_member_invited, org_member_role_changed, project_member_role_changed, org_member_removed,
  project_member_removed, list_memberships, ListMembershipsRequest, get_user_memberships,
  add_member, update_member_role, delete_member_rows, create_invite, delete_invites,
  get_org_invites, get_user, get_user_by_email,
}
use trustyca.Authctx.Role.{Role, none_role, owner, role_eq, RoleSource}
use trustyca.Authctx.Grants.{
  Grants, grants_from_memberships, resolved_org_role, can_grant_org_role, can_grant_project_role,
}
use trustyca.Authctx.Access.{TrustyCtx, Authorizer, Answer, granted, refused, denied}
use trustyca.Orgs.Common.{
  token_org, parse_optional_id, parse_required_id, get_active_org, get_project, mark_user, emit,
  invalid,
}

-- pb.OrgAccess
pub record OrgAccess : Type 0 where
  pub org_id : ℕ
  pub role : Role
  pub role_source : RoleSource
  pub explicit_role : Role
  pub org_alias : String
  pub org_name : String

abbrev named : Option MembershipInfo → OrgAccess → OrgAccess
named none access = access
named (some m) access = record access { org_alias = m.org_alias; org_name = m.org_name }

-- orgAccess, with Grants.OrgAccess
unfoldable pub org_access : List MembershipInfo → ℕ → ℕ → OrgAccess
org_access rows org_id user_id =
    let g = grants_from_memberships rows org_id user_id in
    named (find? (λ m. m.org_id == org_id) rows) (record {
      org_id = g.org_id;
      role = (resolved_org_role (some g)).0;
      role_source = (resolved_org_role (some g)).1;
      explicit_role = g.org_role;
      org_alias = "";
      org_name = "";
    })

-- memberEvent
unfoldable pub member_event : ℕ → EventType → EventType → EventType
member_event project_id org project = if not (project_id == 0) then project else org

-- what checkGrantable makes of the grants of the caller
unfoldable pub grantable : ℕ → Role → Answer Grants → Result Grants
grantable project_id role (refused _) = err (wrapped "failed to resolve access")
grantable project_id role (granted g) =
    if project_id == 0
    then (if can_grant_org_role (some g) role
        then ok g
        else denied "not allowed to grant role %s org-wide")
    else if can_grant_project_role (some g) project_id role
    then ok g
    else denied "not allowed to grant role %s in the project"

-- checkGrantable
abbrev pub check_grantable : Authorizer → TrustyCtx → ℕ → ℕ → Role → Result Grants
check_grantable authorizer tctx org_id project_id role =
    grantable project_id role (authorizer.grants org_id tctx.user_id)

-- the member of findMember, or its error
abbrev pub found_member : Option MembershipInfo → Result MembershipInfo
found_member none = err (grpc not_found "unable to find member")
found_member (some m) = ok m

-- the reply of AddMember
pub data AddMemberReply : Type 0 where
  membership : MembershipInfo → AddMemberReply
  invite : Invite → AddMemberReply

-- the request of AddMember
pub record AddMemberRequest : Type 0 where
  pub project_id : String
  pub email : String
  pub role : Role

-- the requests of ChangeMemberRole and DeleteMember
pub record MemberRequest : Type 0 where
  pub project_id : String
  pub user_id : String
  pub email : String
  pub role : Role

-- the outside of the handlers: the codec of ids, strings.ToLower, the length limit of an email, the
-- time, the page of a list, the statements that fail, and the authorizer
module _ (parse_id : String → Option ℕ) (to_lower : String → String) (max_email now page : ℕ)
    (down : String → Bool) (authorizer : Authorizer) where
  -- GetUserOrgs
  unfoldable pub get_user_orgs : TrustyCtx → State → Result (List OrgAccess)
  get_user_orgs tctx s =
      if tctx.user_id == 0
      then err (grpc unauthenticated "user is required")
      else (get_user_memberships page down tctx.user_id s >>= λ rows.
          ok (map (λ org_id. org_access rows org_id tctx.user_id) (org_ids rows)))

  -- GetUserMemberships
  unfoldable pub user_memberships : TrustyCtx → State → Result (OrgAccess × List MembershipInfo)
  user_memberships tctx s = token_org tctx >>= λ org_id.
      list_memberships page down
        (record {
          org_id = org_id;
          user_id = tctx.user_id;
          project_id = 0;
          scope = undefined;
          org_status = active;
          role = none_role;
        })
        s
      >>= λ rows. ok (org_access rows org_id tctx.user_id, rows)

  -- GetMembers
  unfoldable pub get_members :
      TrustyCtx → String → Scope → State → Result (List MembershipInfo × List Invite)
  get_members tctx project scope s = token_org tctx >>= λ org_id.
      parse_optional_id parse_id project >>= λ project_id.
      list_memberships page down
        (record {
          org_id = org_id;
          user_id = 0;
          project_id = project_id;
          scope = scope;
          org_status = status_unknown;
          role = none_role;
        })
        s
      >>= λ rows. get_org_invites page down org_id s >>= λ invites.
          ok (rows, shown_invites project_id scope invites)
    where
      shown_invites : ℕ → Scope → List Invite → List Invite
      shown_invites project_id org_scope invites = filter_by_project invites project_id
      shown_invites project_id project_scope invites =
          if project_id == 0 then invites else filter_by_project invites project_id
      shown_invites project_id undefined invites =
          if project_id == 0 then invites else filter_by_project invites project_id
