-- ===== src/Db/Model.antt =====
-- internal/db/model: the rows of the tenancy tables and the methods of their slices. An xdb.ID is
-- its number; zero is the absent ID (NULL). A time is its number of seconds, zero the zero time.
pub mod Slices
use text.Mathlib.Text.{◌==◌ as str_eq}
use trustyca.Base.{
  ℕ, suc, String, Bool, true, false, not, ◌&&◌, ◌||◌, Option, List, [], ◌∷◌, ltb, ◌==◌,
  if◌then◌else◌, find?, filter, any, length, ◌++◌,
}
use trustyca.Authctx.Role.{Role, role_eq, number}

-- pb.ItemStatus_Enum
pub data ItemStatus : Type 0 where
  status_unknown inactive active invalid : ItemStatus

abbrev pub status_number : ItemStatus → ℕ
status_number status_unknown = 0
status_number inactive = 1
status_number active = 2
status_number invalid = 4

abbrev pub status_eq : ItemStatus → ItemStatus → Bool
status_eq s t = status_number s == status_number t

-- pb.Scope_Enum
pub data Scope : Type 0 where
  undefined org_scope project_scope : Scope

-- Org
pub record Org : Type 0 where
  pub id : ℕ
  pub alias : String
  pub name : String
  pub description : String
  pub status : ItemStatus

-- Project
pub record Project : Type 0 where
  pub id : ℕ
  pub org_id : ℕ
  pub alias : String
  pub name : String
  pub description : String
  pub status : ItemStatus

-- User, the columns that the memberships use
pub record User : Type 0 where
  pub id : ℕ
  pub email : String
  pub name : String

-- Membership: a grant of a role org-wide (project 0) or in a project
pub record Membership : Type 0 where
  pub id : ℕ
  pub org_id : ℕ
  pub project_id : ℕ
  pub user_id : ℕ
  pub role : Role

-- MembershipInfo: a row of the view that joins a membership with its org, project and user
pub record MembershipInfo : Type 0 where
  pub id : ℕ
  pub org_id : ℕ
  pub project_id : ℕ
  pub org_alias : String
  pub org_name : String
  pub org_status : ItemStatus
  pub user_id : ℕ
  pub email : String
  pub name : String
  pub role : Role

-- Invite
pub record Invite : Type 0 where
  pub id : ℕ
  pub org_id : ℕ
  pub project_id : ℕ
  pub inviter_id : ℕ
  pub email : String
  pub role : Role
  pub expires_at : ℕ

-- ScopeOf
unfoldable pub scope_of : ℕ → Scope
scope_of project_id = if project_id == 0 then org_scope else project_scope

-- Membership.Validate: true where it returns no error
unfoldable pub membership_validate : Membership → Bool
membership_validate m = not (m.org_id == 0) && not (m.user_id == 0) && not (number m.role == 0)

-- Invite.IsExpired
unfoldable pub invite_is_expired : Invite → ℕ → Bool
invite_is_expired m now = not (m.expires_at == 0) && ltb m.expires_at now

-- FindMemberByUserID
unfoldable pub find_member_by_user_id : List MembershipInfo → ℕ → ℕ → Option MembershipInfo
find_member_by_user_id m user_id project_id =
    find? (λ v. v.user_id == user_id && v.project_id == project_id) m

-- FindMemberByEmail
unfoldable pub find_member_by_email : List MembershipInfo → String → ℕ → Option MembershipInfo
find_member_by_email m email project_id =
    find? (λ v. str_eq v.email email && v.project_id == project_id) m

-- FilterByOrg
unfoldable pub filter_by_org : List MembershipInfo → ℕ → List MembershipInfo
filter_by_org m org_id = filter (λ v. v.org_id == org_id) m

-- OrgIDs: the distinct orgs in the order in which they are first seen; `seen` is Go's map
unfoldable pub org_ids_from : List ℕ → List MembershipInfo → List ℕ
org_ids_from seen [] = []
org_ids_from seen (v ∷ m) =
    let old = org_ids_from seen m in
    let fresh = org_ids_from (v.org_id ∷ seen) m in
    if any (λ s. s == v.org_id) seen then old else v.org_id ∷ fresh

unfoldable pub org_ids : List MembershipInfo → List ℕ
unfolding org_ids_from
org_ids m = org_ids_from [] m

-- CountOrgRole
unfoldable pub count_org_role : List MembershipInfo → ℕ → Role → ℕ
count_org_role m org_id role =
    length (filter (λ v. v.org_id == org_id && v.project_id == 0 && role_eq v.role role) m)

-- InviteSlice.FilterByProject
unfoldable pub filter_by_project : List Invite → ℕ → List Invite
filter_by_project m project_id = filter (λ v. v.project_id == project_id) m
