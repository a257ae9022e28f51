-- ===== src/Orgs/Members/Changes.antt =====
-- server/service/orgs/members.go: the handlers that change members and invites.
use text.Mathlib.Text.{◌==◌ as str_eq}
use trustyca.Base.{ℕ, String, Bool, not, ◌||◌, Option, none, some, ◌==◌, leb, if◌then◌else◌, List}
use trustyca.Base.Status.{Result, Done, ok, err, grpc, already_exists, failed_precondition, ◌>>=◌}
use trustyca.Text.{trim_space}
use trustyca.Db.Model.{
  status_unknown, undefined, org_scope, scope_of, Org, User, MembershipInfo, Invite,
  find_member_by_user_id, find_member_by_email, count_org_role,
}
use trustyca.Db.Tables.{
  State, Call, org_member_added, project_member_added, org_member_invited, project_member_invited,
  org_member_role_changed, project_member_role_changed, org_member_removed, project_member_removed,
  list_memberships, ListMembershipsRequest, add_member, update_member_role, delete_member_rows,
  create_invite, delete_invites, get_user, get_user_by_email,
}
use trustyca.Authctx.Role.{Role, none_role, owner, role_eq}
use trustyca.Authctx.Access.{TrustyCtx, Authorizer}
use trustyca.Orgs.Common.{
  token_org, parse_optional_id, parse_required_id, get_active_org, get_project, mark_user, emit,
  invalid,
}
use trustyca.Orgs.Members.{
  member_event, check_grantable, found_member, AddMemberReply, membership, invite, AddMemberRequest,
  MemberRequest,
}

-- the memberships of one user in the org, or of the scope of a member
abbrev pub of_user : ℕ → ℕ → ListMembershipsRequest
of_user org_id user_id = record {
  org_id = org_id;
  user_id = user_id;
  project_id = 0;
  scope = undefined;
  org_status = status_unknown;
  role = none_role;
}

abbrev pub at_scope : ℕ → ℕ → ListMembershipsRequest
at_scope org_id project_id = record {
  org_id = org_id;
  user_id = 0;
  project_id = project_id;
  scope = scope_of project_id;
  org_status = status_unknown;
  role = none_role;
}

abbrev pub owners_of : ℕ → ListMembershipsRequest
owners_of org_id = record {
  org_id = org_id;
  user_id = 0;
  project_id = 0;
  scope = org_scope;
  org_status = status_unknown;
  role = owner;
}

module _ (parse_id : String → Option ℕ) (to_lower : String → String) (max_email now page : ℕ)
    (down : String → Bool) (authorizer : Authorizer) where
  -- AddMember, for a user that exists
  unfoldable pub add_user : ℕ → ℕ → Role → Org → User → Call AddMemberReply
  add_user org_id project_id role org user s =
      list_memberships page down (of_user org_id user.id) s >>= λ list.
      existing (find_member_by_user_id list user.id project_id)
    where
      added : MembershipInfo × State → Result (AddMemberReply × State)
      added (m, t) = ok (
        membership m,
        emit (member_event project_id org_member_added project_member_added) org_id project_id
            user.id (mark_user user.id t),
      )

      existing : Option MembershipInfo → Result (AddMemberReply × State)
      existing (some m) =
          if role_eq m.role role
          then ok (membership m, s)
          else err (grpc already_exists "user already member")
      existing none =
          add_member page down
            (record {
              id = 0;
              org_id = org_id;
              project_id = project_id;
              user_id = user.id;
              role = role;
            })
            org user s
          >>= added

  -- AddMember, where the user was not read
  unfoldable pub add_invite : TrustyCtx → ℕ → ℕ → Role → String → Call AddMemberReply
  add_invite tctx org_id project_id role email s =
      create_invite page down to_lower max_email now
        (record {
          id = 0;
          org_id = org_id;
          project_id = project_id;
          inviter_id = tctx.user_id;
          email = email;
          role = role;
          expires_at = 0;
        })
        s
      >>= created
    where
      created : Invite × State → Result (AddMemberReply × State)
      created (i, t) = ok (
        invite i,
        emit (member_event project_id org_member_invited project_member_invited) org_id project_id
            i.id t,
      )

  -- AddMember, by the read of the user; any error makes an invite
  unfoldable pub add_by_user :
      TrustyCtx → ℕ → ℕ → Role → String → Org → Result User → Call AddMemberReply
  unfolding add_user add_invite
  add_by_user tctx org_id project_id role email org (ok user) s =
      add_user org_id project_id role org user s
  add_by_user tctx org_id project_id role email org (err _) s =
      add_invite tctx org_id project_id role email s

  -- AddMember
  unfoldable pub add_member_call : TrustyCtx → AddMemberRequest → Call AddMemberReply
  unfolding add_by_user
  add_member_call tctx req s =
      let email = to_lower (trim_space req.email) in
      token_org tctx >>= λ org_id. parse_optional_id parse_id req.project_id >>= λ project_id.
      if str_eq email ""
      then invalid "email is required"
      else if role_eq req.role none_role
      then invalid "role is required"
      else (check_grantable authorizer tctx org_id project_id req.role >>= λ _.
          get_active_org down page org_id s >>= λ org.
          get_project authorizer org_id project_id >>= λ _.
          add_by_user tctx org_id project_id req.role email org
            (get_user_by_email page down to_lower email s) s)

  -- findMember, in the list of the scope
  unfoldable pub find_in : ℕ → String → String → List MembershipInfo → Result MembershipInfo
  find_in project_id user_id email list =
      if not (str_eq user_id "")
      then (parse_required_id parse_id user_id "invalid user ID" >>= λ id.
          found_member (find_member_by_user_id list id project_id))
      else if not (str_eq email "")
      then found_member (find_member_by_email list (to_lower (trim_space email)) project_id)
      else invalid "user ID or email is required"

  -- findMember
  unfoldable pub find_member : ℕ → ℕ → String → String → State → Result MembershipInfo
  unfolding find_in
  find_member org_id project_id user_id email s =
      list_memberships page down (at_scope org_id project_id) s >>= find_in project_id user_id email

  -- checkLastOwner
  unfoldable pub check_last_owner : ℕ → MembershipInfo → State → Result Done
  check_last_owner org_id member s =
      if not (member.project_id == 0) || not (role_eq member.role owner)
      then ok tt
      else (list_memberships page down (owners_of org_id) s >>= λ owners.
          if leb (count_org_role owners org_id owner) 1
          then err (grpc failed_precondition "the org must keep at least one owner")
          else ok tt)

  -- ChangeMemberRole, once the member is found with another role
  unfoldable pub change_role : ℕ → ℕ → Role → MembershipInfo → Call MembershipInfo
  change_role org_id project_id role member s = get_active_org down page org_id s >>= λ _.
      get_project authorizer org_id project_id >>= λ _.
      get_user page down member.user_id s >>= λ user.
      update_member_role page down org_id project_id member.user_id role s >>= changed user
    where
      changed : User → Done × State → Result (MembershipInfo × State)
      changed user (_, t) = ok (
        record member { role = role; email = user.email; name = user.name },
        emit (member_event project_id org_member_role_changed project_member_role_changed) org_id
            project_id user.id (mark_user user.id t),
      )

  -- ChangeMemberRole
  unfoldable pub change_member_role : TrustyCtx → MemberRequest → Call MembershipInfo
  unfolding find_member check_last_owner change_role
  change_member_role tctx req s = token_org tctx >>= λ org_id.
      parse_optional_id parse_id req.project_id >>= λ project_id.
      if role_eq req.role none_role
      then invalid "role is required"
      else (check_grantable authorizer tctx org_id project_id req.role >>= λ _.
          find_member org_id project_id req.user_id req.email s >>= λ member.
          if role_eq member.role req.role
          then ok (member, s)
          else (check_grantable authorizer tctx org_id project_id member.role >>= λ _.
              check_last_owner org_id member s >>= λ _.
              change_role org_id project_id req.role member s))

  -- DeleteMember, once the member is found
  unfoldable pub remove_member : ℕ → ℕ → MembershipInfo → Call Done
  remove_member org_id project_id member s =
      delete_member_rows page down org_id project_id member.user_id (scope_of project_id) s
      >>= removed
    where
      removed : Done × State → Result (Done × State)
      removed (_, t) = ok (
        tt,
        emit (member_event project_id org_member_removed project_member_removed) org_id project_id
            member.user_id (mark_user member.user_id t),
      )

  -- DeleteMember
  unfoldable pub delete_member : TrustyCtx → MemberRequest → Call Done
  unfolding find_member check_last_owner remove_member
  delete_member tctx req s = token_org tctx >>= λ org_id.
      if str_eq req.user_id ""
      then invalid "invalid user ID"
      else (parse_optional_id parse_id req.project_id >>= λ project_id.
          find_member org_id project_id req.user_id "" s >>= λ member.
          check_grantable authorizer tctx org_id project_id member.role >>= λ _.
          check_last_owner org_id member s >>= λ _. remove_member org_id project_id member s)

  -- DeleteInvite
  unfoldable pub delete_invite : TrustyCtx → String → String → Call Done
  delete_invite tctx project req_email s =
      let email = to_lower (trim_space req_email) in
      token_org tctx >>= λ org_id. parse_optional_id parse_id project >>= λ project_id.
      if str_eq email ""
      then invalid "email is required"
      else delete_invites page down to_lower org_id project_id email (scope_of project_id) s
