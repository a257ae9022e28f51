-- ===== src/Db/Tables.antt =====
-- internal/db/pgsql: the statements on orgs, projects, users, memberships and invites, as functions
-- on the rows. The members are the rows of the view that joins a membership with its org, project
-- and user, in the order of the list queries. A statement whose name is `down` fails.
use Prim.Native.String.{len}
use text.Mathlib.Text.{◌==◌ as str_eq}
use trustyca.Base.{
  ltb, ℕ, zero, suc, ◌+◌, String, Bool, true, false, not, ◌&&◌, ◌||◌, Option, none, some, List, [],
  ◌∷◌, ◌==◌, if◌then◌else◌, filter, find?, map, any,
}
use trustyca.Base.Status.{Result, Done, ok, err, grpc, wrapped, not_found, ◌>>=◌}
use trustyca.Authctx.Role.{Role, none_role, role_eq}
use trustyca.Db.Model.{
  ItemStatus, status_unknown, active, status_eq, Scope, Org, Project, User, Membership,
  MembershipInfo, Invite, membership_validate,
}
use trustyca.Db.Scopes.{set_project_scope, where_project_scope}

-- events.New
pub data EventType : Type 0 where
  org_created org_updated org_deleted project_created project_updated project_deleted : EventType
  org_member_added project_member_added org_member_invited project_member_invited : EventType
  org_member_role_changed project_member_role_changed : EventType
  org_member_removed project_member_removed : EventType

pub record Event : Type 0 where
  pub kind : EventType
  pub org_id : ℕ
  pub project_id : ℕ
  pub reference : ℕ

-- the tables, the users whose cached grants and the projects that were invalidated, and the events
pub record State : Type 0 where
  pub orgs : List Org
  pub projects : List Project
  pub users : List User
  pub members : List MembershipInfo
  pub invites : List Invite
  pub next_id : ℕ
  pub invalidated_users : List ℕ
  pub invalidated_projects : List ℕ
  pub events : List Event

-- a call that reads or writes the state, and leaves it as it was where it fails
abbrev pub Call : Type 0 → Type 0
Call A = State → Result (A × State)

-- ListMembershipsRequest; the offset is 0 and the limit the default page in every call
pub record ListMembershipsRequest : Type 0 where
  pub org_id : ℕ
  pub user_id : ℕ
  pub project_id : ℕ
  pub scope : Scope
  pub org_status : ItemStatus
  pub role : Role

abbrev pub take : ℕ → List MembershipInfo → List MembershipInfo
take zero rows = []
take (suc n) [] = []
take (suc n) (m ∷ rows) = m ∷ take n rows

-- the WHERE of ListMemberships
unfoldable pub selects : ListMembershipsRequest → MembershipInfo → Bool
selects r m =
    (r.user_id == 0 || m.user_id == r.user_id)
    && (r.org_id == 0 || m.org_id == r.org_id)
    && where_project_scope (set_project_scope r.project_id r.scope) m.project_id
    && (status_eq r.org_status status_unknown || status_eq m.org_status r.org_status)
    && (role_eq r.role none_role || role_eq m.role r.role)

-- a row of the table of memberships is that of the org, the project and the user
unfoldable pub is_row : ℕ → ℕ → ℕ → MembershipInfo → Bool
is_row org_id project_id user_id m =
    m.org_id == org_id && m.project_id == project_id && m.user_id == user_id

abbrev pub put_row : MembershipInfo → List MembershipInfo → List MembershipInfo
put_row n [] = n ∷ []
put_row n (m ∷ rows) =
    if is_row n.org_id n.project_id n.user_id m
    then record m { role = n.role } ∷ rows
    else m ∷ put_row n rows

-- the row that the upsert returns
abbrev pub upserted : MembershipInfo → List MembershipInfo → MembershipInfo
upserted n [] = n
upserted n (m ∷ rows) =
    if is_row n.org_id n.project_id n.user_id m then record m { role = n.role } else upserted n rows

-- the UPDATE of UpdateMemberRole
unfoldable pub set_role : ℕ → ℕ → ℕ → Role → MembershipInfo → MembershipInfo
set_role org_id project_id user_id role m =
    if is_row org_id project_id user_id m then record m { role = role } else m

-- the WHERE of DeleteMember, for a request with an org and a user
unfoldable pub deletes : ℕ → ℕ → ℕ → Scope → MembershipInfo → Bool
deletes org_id project_id user_id scope m =
    (org_id == 0 || m.org_id == org_id)
    && (user_id == 0 || m.user_id == user_id)
    && where_project_scope (set_project_scope project_id scope) m.project_id

-- the row of the view of an inserted membership
abbrev pub member_row : ℕ → Membership → Org → User → MembershipInfo
member_row next_id m org user = record {
  id = if m.id == 0 then next_id else m.id;
  org_id = m.org_id;
  project_id = m.project_id;
  org_alias = org.alias;
  org_name = org.name;
  org_status = org.status;
  user_id = m.user_id;
  email = user.email;
  name = user.name;
  role = m.role;
}

abbrev is_invite : ℕ → ℕ → String → Invite → Bool
is_invite org_id project_id email i =
    i.org_id == org_id && i.project_id == project_id && str_eq i.email email

abbrev put_invite : Invite → List Invite → List Invite
put_invite n [] = n ∷ []
put_invite n (i ∷ invites) =
    if is_invite n.org_id n.project_id n.email i
    then record i { inviter_id = n.inviter_id; role = n.role; expires_at = n.expires_at } ∷ invites
    else i ∷ put_invite n invites

abbrev upserted_invite : Invite → List Invite → Invite
upserted_invite n [] = n
upserted_invite n (i ∷ invites) =
    if is_invite n.org_id n.project_id n.email i
    then record i { inviter_id = n.inviter_id; role = n.role; expires_at = n.expires_at }
    else upserted_invite n invites

-- Invite.Validate: true where it returns no error
unfoldable pub invite_validate : ℕ → Invite → Bool
invite_validate max_email i =
    not (i.org_id == 0)
    && not (i.inviter_id == 0)
    && not (str_eq i.email "")
    && not (ltb max_email (len i.email))
    && not (role_eq i.role none_role)

-- the WHERE of DeleteInvite
unfoldable pub deletes_invite : ℕ → ℕ → String → Scope → Invite → Bool
deletes_invite org_id project_id email scope i =
    (org_id == 0 || i.org_id == org_id)
    && (str_eq email "" || str_eq i.email email)
    && where_project_scope (set_project_scope project_id scope) i.project_id

abbrev pub found : {A : Type 0} → Option A → Result A
found none = err (grpc not_found "not found")
found (some a) = ok a

abbrev pub no_error : Bool → Result Done
no_error true = err (wrapped "failed")
no_error false = ok tt

module _ (page : ℕ) (down : String → Bool) where
  -- ListMemberships
  unfoldable pub list_memberships : ListMembershipsRequest → State → Result (List MembershipInfo)
  list_memberships r s =
      no_error (down "ListMemberships") >>= λ _. ok (take page (filter (selects r) s.members))

  -- GetUserMemberships
  unfoldable pub get_user_memberships : ℕ → State → Result (List MembershipInfo)
  get_user_memberships user_id s =
      list_memberships
        (record {
          org_id = 0;
          user_id = user_id;
          project_id = 0;
          scope = Scope.undefined;
          org_status = active;
          role = none_role;
        })
        s

  -- AddMember: the row of the view that the insert leaves
  unfoldable pub add_member : Membership → Org → User → Call MembershipInfo
  add_member m org user s = no_error (down "AddMember" || not (membership_validate m)) >>= λ _.
      (let n = member_row s.next_id m org user in
        ok (
          upserted n s.members,
          record s { members = put_row n s.members; next_id = s.next_id + 1 },
        ))

  -- UpdateMemberRole
  unfoldable pub update_member_role : ℕ → ℕ → ℕ → Role → Call Done
  update_member_role org_id project_id user_id role s =
      no_error (down "UpdateMemberRole" || org_id == 0 || user_id == 0 || role_eq role none_role)
      >>= λ _.
          if any (is_row org_id project_id user_id) s.members
          then ok
              (tt, record s { members = map (set_role org_id project_id user_id role) s.members })
          else err (grpc not_found "not found")

  -- DeleteMember
  unfoldable pub delete_member_rows : ℕ → ℕ → ℕ → Scope → Call Done
  delete_member_rows org_id project_id user_id scope s =
      no_error (down "DeleteMember" || (org_id == 0 && user_id == 0)) >>= λ _. ok (
        tt,
        record s {
          members = filter (λ m. not (deletes org_id project_id user_id scope m)) s.members;
        },
      )

  -- CreateInvite; an invite is valid for 14 days where the caller sets no time
  unfoldable pub create_invite : (String → String) → ℕ → ℕ → Invite → Call Invite
  create_invite to_lower max_email now i s =
      let n = record i {
        id = if i.id == 0 then s.next_id else i.id;
        email = to_lower i.email;
        expires_at = if i.expires_at == 0 then now + 1209600 else i.expires_at;
      } in
      no_error (not (invite_validate max_email n) || down "CreateInvite") >>= λ _. ok (
        upserted_invite n s.invites,
        record s { invites = put_invite n s.invites; next_id = s.next_id + 1 },
      )

  -- DeleteInvite
  unfoldable pub delete_invites : (String → String) → ℕ → ℕ → String → Scope → Call Done
  delete_invites to_lower org_id project_id email scope s =
      no_error (down "DeleteInvite" || (org_id == 0 && str_eq email "")) >>= λ _. ok (
        tt,
        record s {
          invites =
              filter (λ i. not (deletes_invite org_id project_id (to_lower email) scope i))
                s.invites;
        },
      )

  -- GetOrgInvites
  unfoldable pub get_org_invites : ℕ → State → Result (List Invite)
  get_org_invites org_id s =
      no_error (down "GetOrgInvites") >>= λ _. ok (filter (λ i. i.org_id == org_id) s.invites)

  -- GetOrg
  unfoldable pub get_org : ℕ → State → Result Org
  get_org id s = no_error (down "GetOrg") >>= λ _. found (find? (λ o. o.id == id) s.orgs)

  -- GetUser, GetUserByEmail
  unfoldable pub get_user : ℕ → State → Result User
  get_user id s = no_error (down "GetUser") >>= λ _. found (find? (λ u. u.id == id) s.users)

  unfoldable pub get_user_by_email : (String → String) → String → State → Result User
  get_user_by_email to_lower email s = no_error (down "GetUserByEmail") >>= λ _.
      found (find? (λ u. str_eq u.email (to_lower email)) s.users)
