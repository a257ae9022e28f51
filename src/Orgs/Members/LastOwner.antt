-- ===== src/Orgs/Members/LastOwner.antt =====
-- server/service/orgs/members.go: findMember and checkLastOwner, and DeleteMember with them.
use text.Mathlib.Text.{◌==◌ as str_eq}
use trustyca.Base.{
  Any-filter, kept-Any, find?-Any, Any-fact, ℕ, ◌<◌, String, ◌≡◌, refl, sym, ap, ◌∙◌, ◌≢◌, ◌⊎◌, inl,
  inr, Bool, true, false, not, ◌&&◌, ◌||◌, Option, none, some, List, arith, ◌==◌, leb,
  if◌then◌else◌, filter, length, All, Any, Any-All, Any-map, Bool-cases,
}
use trustyca.Base.Status.{
  failed_precondition, Result, Done, ok, err, grpc, wrapped, bind_iff, ok-injective,
}
use trustyca.Db.Model.{
  MembershipInfo, scope_of, find_member_by_user_id, find_member_by_email, count_org_role,
}
use trustyca.Db.Scopes.{set_project_scope, where_project_scope}
use trustyca.Db.Tables.{
  State, list_memberships, selects, ListMembershipsRequest, take, delete_member_rows, deletes,
  no_error,
}
use trustyca.Authctx.Role.{owner, role_eq}
use trustyca.Authctx.Access.{TrustyCtx, Authorizer}
use trustyca.Authctx.Grants.Rows.{IsGrant, UniqueRows}
use trustyca.Orgs.Common.{invalid}
use trustyca.Orgs.Members.{MemberRequest, found_member}
use trustyca.Orgs.Members.Changes.{
  at_scope, owners_of, find_in, find_member, check_last_owner, remove_member, delete_member,
}
use trustyca.Orgs.Members.Steps.{delete_member-steps}
use trustyca.Orgs.Members.Rows.{
  IsOwner, IsOtherOwner, Any-take, UniqueRows-take, UniqueRows-filter, other_owner, second_owner,
  owner_row,
}

module _ (parse_id : String → Option ℕ) (to_lower : String → String) (max_email now page : ℕ)
    (down : String → Bool) (authorizer : Authorizer) where
  -- the row that a member was found in
  abbrev pub FoundIn : ℕ → ℕ → MembershipInfo → List MembershipInfo → Type 0
  FoundIn org p m rows = Any (λ x. (x ≡ m) × IsGrant org m.user_id p m) rows

  found_member-some :
      (o : Option MembershipInfo) (m : MembershipInfo) → found_member o ≡ ok m → o ≡ some m
  found_member-some none m h = cc
  found_member-some (some x) m h = ap some (ok-injective x m h)

  -- A member that findMember gives is in the list and at the project.
  find_in-Any :
      (p : ℕ) (user_id email : String) (list : List MembershipInfo) (m : MembershipInfo)
      → find_in parse_id to_lower max_email now page down authorizer p user_id email list ≡ ok m
      → Any (λ x. (x ≡ m) × (x.project_id ≡ p)) list
  unfolding find_in find_member_by_user_id find_member_by_email
  find_in-Any p user_id email list m h = elim (Bool-cases (str_eq user_id "")) [
    | inr by_id ↦
        let (id, e, f) =
          (bind_iff _ (λ id. found_member (find_member_by_user_id list id p)) m).0
            (rw by_id at h) in
        Any-map _ (λ x. (x ≡ m) × (x.project_id ≡ p)) (λ x k. (k.0, ground arith)) list
          (find?-Any _ list m (found_member-some _ m f))
    | inl no_id ↦ elim (Bool-cases (str_eq email "")) [
      | inr by_email ↦
          Any-map _ (λ x. (x ≡ m) × (x.project_id ≡ p)) (λ x k. (k.0, ground arith)) list
            (find?-Any _ list m (found_member-some _ m (rw (no_id, by_email) at h)))
      | inl no_email ↦ absurd (refuse m (rw (no_id, no_email) at h))
    ]
  ]
    where
      refuse : (m : MembershipInfo) → invalid "user ID or email is required" ≡ ok m → ⊥
      refuse m e = cc

  -- What a list reads, where it does not fail.
  list_memberships-rows :
      (r : ListMembershipsRequest) (s : State) (list : List MembershipInfo)
      → list_memberships page down r s ≡ ok list
      → take page (filter (selects r) s.members) ≡ list
  unfolding list_memberships
  list_memberships-rows r s list h =
      let (d, e, f) =
        (bind_iff (no_error (down "ListMemberships"))
            (λ _. ok (take page (filter (selects r) s.members))) list).0
          h in
      ok-injective _ list f

  pub find_member-row :
      (org p : ℕ) (user_id email : String) (s : State) (m : MembershipInfo)
      → org ≢ 0
      → find_member parse_id to_lower max_email now page down authorizer org p user_id email s
        ≡ ok m
      → FoundIn org p m s.members
  unfolding find_member selects
  find_member-row org p user_id email s m chosen h =
      let (list, e, f) =
        (bind_iff (list_memberships page down (at_scope org p) s)
            (find_in parse_id to_lower max_email now page down authorizer p user_id email) m).0
          h in
      let rows = list_memberships-rows (at_scope org p) s list e in
      let there = find_in-Any p user_id email list m f in
      Any-map _ (λ x. (x ≡ m) × IsGrant org m.user_id p m) at s.members
        (Any-filter (λ x. (x ≡ m) × (x.project_id ≡ p)) (selects (at_scope org p)) s.members
          (Any-take _ page _ (rw (sym rows) at there)))
    where
      at :
          (x : MembershipInfo)
          → ((x ≡ m) × (x.project_id ≡ p)) × (selects (at_scope org p) x ≡ true)
          → (x ≡ m) × IsGrant org m.user_id p m
      at x ((same, q), k) =
          let in_org : x.org_id ≡ org = ground arith in
          (
            same,
            (ap (λ y. y.org_id) (sym same) ∙ in_org, refl, ap (λ y. y.project_id) (sym same) ∙ q),
          )

  -- An owner is left apart from the member, where the check of the last owner passes.
  pub check_last_owner-other :
      (org p : ℕ) (s : State) (m : MembershipInfo)
      → org ≢ 0
      → UniqueRows s.members
      → Any (IsOwner org) s.members
      → FoundIn org 0 m s.members
      → check_last_owner parse_id to_lower max_email now page down authorizer org m s ≡ ok tt
      → Any (IsOtherOwner org m.user_id) s.members
  unfolding check_last_owner count_org_role
  check_last_owner-other org p s m chosen u owned there h =
      elim (Bool-cases (role_eq m.role owner)) [
        | inr other_role ↦
            other_owner org m.user_id s.members u
              (Any-map _ (λ x. IsGrant org m.user_id 0 x × (role_eq x.role owner ≡ false))
                (λ x k. (rw k.0 k.1, rw k.0 other_role)) s.members there)
              owned
        | inl is_owner ↦
            let org_wide : m.project_id ≡ 0 =
              Any-fact (m.project_id ≡ 0) s.members
                (Any-map _ (λ x. m.project_id ≡ 0) (λ x k. k.1.2) s.members there) in
            let at_org : (m.project_id == 0) ≡ true = ground arith in
            let (owners, e, f) =
              (bind_iff (list_memberships page down (owners_of org) s) verdict tt).0
                (rw (at_org, is_owner) at h) in
            let rows = list_memberships-rows (owners_of org) s owners e in
            let unique_owners : UniqueRows owners =
              rw (sym rows) (
                UniqueRows-take page _ (UniqueRows-filter (selects (owners_of org)) s.members u)) in
            let in_list : Any (IsOtherOwner org m.user_id) owners =
              second_owner org m.user_id owners unique_owners (several owners f) in
            Any-map _ (IsOtherOwner org m.user_id) (λ x k. k.0) s.members
              (Any-filter (IsOtherOwner org m.user_id) (selects (owners_of org)) s.members
                (Any-take _ page _ (rw (sym rows) at in_list)))
      ]
    where
      verdict : List MembershipInfo → Result Done
      verdict owners =
          if leb (count_org_role owners org owner) 1
          then err (grpc failed_precondition "the org must keep at least one owner")
          else ok tt

      several :
          (owners : List MembershipInfo)
          → verdict owners ≡ ok tt
          → 1 < length (filter (owner_row org) owners)
      several owners f = ground arith

  -- the rows that DeleteMember leaves
  pub remove_member-rows :
      (org p : ℕ) (m : MembershipInfo) (s t : State) (d : Done)
      → remove_member parse_id to_lower max_email now page down authorizer org p m s ≡ ok (d, t)
      → t.members ≡ filter (λ x. not (deletes org p m.user_id (scope_of p) x)) s.members
  unfolding remove_member delete_member_rows
  remove_member-rows org p m s t d h =
      elim (Bool-cases (down "DeleteMember" || (org == 0 && m.user_id == 0))) [
        | inl failed ↦ absurd (refuse (rw failed at h))
        | inr worked ↦ sym (ap (λ x. x.1.members) (ok-injective _ (d, t) (rw worked at h)))
      ]
    where
      refuse : ◌≡◌ {A = Result (Done × State)} (err (wrapped "failed")) (ok (d, t)) → ⊥
      refuse e = cc

  kept_owner :
      (org p user_id : ℕ) (x : MembershipInfo)
      → ((p ≢ 0) × IsOwner org x) ⊎ IsOtherOwner org user_id x
      → user_id ≢ 0
      → not (deletes org p user_id (scope_of p) x) ≡ true
  unfolding deletes scope_of set_project_scope where_project_scope
  kept_owner org p user_id x (inl (scoped, o)) named =
      let at_p : (p == 0) ≡ false = ground arith in
      let apart : (x.project_id == p) ≡ false = ground arith in rw at_p (ground arith)
  kept_owner org p user_id x (inr (o, other)) named =
      let apart : (x.user_id == user_id) ≡ false = ground arith in
      let some_user : (user_id == 0) ≡ false = ground arith in
      rw (apart, some_user) (dropped (org == 0 || x.org_id == org) _)
    where
      dropped : (a b : Bool) → not (a && false && b) ≡ true
      dropped a b = ground arith

  -- DeleteMember leaves an org that has an owner with an owner, where the rows of the members are
  -- unique for an org, a project and a user and name a user.
  pub delete_member-IsOwner :
      (tctx : TrustyCtx) (req : MemberRequest) (s t : State) (d : Done)
      → UniqueRows s.members
      → All (λ m. m.user_id ≢ 0) s.members
      → Any (IsOwner tctx.org_id) s.members
      → delete_member parse_id to_lower max_email now page down authorizer tctx req s ≡ ok (d, t)
      → Any (IsOwner tctx.org_id) t.members
  unfolding delete_member
  delete_member-IsOwner tctx req s t d u users owned h =
      let (chosen, (p, member, _, (f, g, k, removed))) =
        delete_member-steps parse_id to_lower max_email now page down authorizer tctx req s t d h in
      let there = find_member-row tctx.org_id p req.user_id "" s member chosen f in
      let named : member.user_id ≢ 0 = Any-fact (member.user_id ≢ 0) s.members (
        Any-map _ (λ x. member.user_id ≢ 0) (λ x q. rw q.0.0 at q.1) s.members
          (Any-All _ (λ m. m.user_id ≢ 0) s.members there users)) in
      rw (remove_member-rows tctx.org_id p member s t d removed) (elim (Bool-cases (p == 0)) [
        | inr scoped ↦
            kept-Any (IsOwner tctx.org_id) _
              (λ x o. kept_owner tctx.org_id p member.user_id x (inl (λ e. ground arith, o)) named)
              s.members owned
        | inl wide ↦
            let zero_p : p ≡ 0 = ground arith in
            let at_org : FoundIn tctx.org_id 0 member s.members =
              Any-map _ (λ x. (x ≡ member) × IsGrant tctx.org_id member.user_id 0 member)
                (λ x q. (q.0, (q.1.0, q.1.1, q.1.2 ∙ zero_p))) s.members there in
            let others = check_last_owner-other tctx.org_id p s member chosen u owned at_org k in
            Any-map _ (IsOwner tctx.org_id) (λ x o. o.0) _
              (kept-Any (IsOtherOwner tctx.org_id member.user_id) _
                (λ x o. kept_owner tctx.org_id p member.user_id x (inr o) named) s.members others)
      ])
