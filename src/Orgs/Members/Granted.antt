-- ===== src/Orgs/Members/Granted.antt =====
-- server/service/orgs/members.go: DeleteMember and the grants of the caller.
use trustyca.Base.{
  ℕ, String, ◌≡◌, refl, sym, ap, ◌∙◌, ◌≢◌, ◌⊎◌, inl, inr, Bool, true, false, not, ◌&&◌, Option,
  some, List, [], ◌∷◌, arith, ◌==◌, filter, All, Any, Any-All, Any-fact, Any-map, Bool-cases,
}
use trustyca.Base.Status.{Result, Done, ok, ok-injective}
use trustyca.Db.Model.{MembershipInfo, scope_of}
use trustyca.Db.Scopes.{set_project_scope, where_project_scope}
use trustyca.Db.Tables.{State, deletes}
use trustyca.Authctx.Role.{Role}
use trustyca.Authctx.Grants.{Grants, can_grant_org_role, can_grant_project_role}
use trustyca.Authctx.Grants.Rows.{IsGrant, UniqueRows}
use trustyca.Authctx.Access.{TrustyCtx, Authorizer, Answer, granted, refused, denied}
use trustyca.Orgs.Common.{parse_optional_id}
use trustyca.Orgs.Members.{MemberRequest, grantable}
use trustyca.Orgs.Members.Changes.{find_member, delete_member}
use trustyca.Orgs.Members.Steps.{delete_member-steps}
use trustyca.Orgs.Members.LastOwner.{find_member-row, remove_member-rows}

-- The grants allow the role at the scope.
abbrev pub MayGrantAt : ℕ → Role → Grants → Type 0
MayGrantAt p role g =
    ((p ≡ 0) × (can_grant_org_role (some g) role ≡ true))
    ⊎ ((p ≢ 0) × (can_grant_project_role (some g) p role ≡ true))

grantable-MayGrantAt :
    (p : ℕ) (role : Role) (a : Answer Grants) (g : Grants)
    → grantable p role a ≡ ok g
    → (a ≡ granted g) × MayGrantAt p role g
unfolding grantable
grantable-MayGrantAt p role (refused why) g h = cc
grantable-MayGrantAt p role (granted own) g h = elim (Bool-cases (p == 0)) [
  | inl wide ↦ elim (Bool-cases (can_grant_org_role (some own) role)) [
    | inl may ↦
        let same = ok-injective own g (rw (wide, may) at h) in
        (ap granted same, inl (ground arith, rw (sym same) may))
    | inr may_not ↦ absurd (refuse _ (rw (wide, may_not) at h))
  ]
  | inr scoped ↦ elim (Bool-cases (can_grant_project_role (some own) p role)) [
    | inl may ↦
        let same = ok-injective own g (rw (scoped, may) at h) in
        (ap granted same, inr (λ e. ground arith, rw (sym same) may))
    | inr may_not ↦ absurd (refuse _ (rw (scoped, may_not) at h))
  ]
]
  where
    refuse : (m : String) → ◌≡◌ {A = Result Grants} (denied m) (ok g) → ⊥
    refuse m e = cc

same_grant :
    (org p user_id : ℕ) (x y : MembershipInfo)
    → IsGrant org user_id p x
    → IsGrant org user_id p y
    → IsGrant x.org_id x.user_id x.project_id y
same_grant org p user_id x y h k = (k.0 ∙ sym h.0, k.1 ∙ sym h.1, k.2 ∙ sym h.2)

-- the row of the user at the scope in the org
abbrev pub grant_row : ℕ → ℕ → ℕ → MembershipInfo → Bool
grant_row org p user_id x = x.org_id == org && x.user_id == user_id && x.project_id == p

-- The rows lose the grant of a member at a scope, which is the row of the member, and no other.
abbrev pub Loses : ℕ → ℕ → MembershipInfo → List MembershipInfo → List MembershipInfo → Type 0
Loses org p member before after =
    (after ≡ filter (λ x. not (grant_row org p member.user_id x)) before)
    × Any (λ x. x ≡ member) before
    × All (λ x. (grant_row org p member.user_id x ≡ true) → x ≡ member) before

-- the WHERE of DeleteMember at the scope of one user selects that user's row
deletes-grant_row :
    (org p user_id : ℕ) (x : MembershipInfo)
    → org ≢ 0
    → user_id ≢ 0
    → deletes org p user_id (scope_of p) x ≡ grant_row org p user_id x
unfolding deletes scope_of set_project_scope where_project_scope
deletes-grant_row org p user_id x chosen named =
    let some_org : (org == 0) ≡ false = ground arith in
    let some_user : (user_id == 0) ≡ false = ground arith in
    elim (Bool-cases (p == 0)) [
      | inr scoped ↦ rw (some_org, some_user, scoped, scoped) refl
      | inl wide ↦ let zero_p : p ≡ 0 = ground arith in rw (some_org, some_user, zero_p) refl
    ]

grant_row-IsGrant :
    (org p user_id : ℕ) (x : MembershipInfo)
    → grant_row org p user_id x ≡ true
    → IsGrant org user_id p x
grant_row-IsGrant org p user_id x h = (ground arith, ground arith, ground arith)

-- no other row is the grant of the member
grant_row_unique :
    (org p : ℕ) (member : MembershipInfo) (rows : List MembershipInfo)
    → UniqueRows rows
    → Any (λ x. (x ≡ member) × IsGrant org member.user_id p x) rows
    → All (λ x. (grant_row org p member.user_id x ≡ true) → x ≡ member) rows
grant_row_unique org p member [] u a = tt
grant_row_unique org p member (x ∷ rows) u (inl (same, here)) =
    (λ h. same, none_later org p member.user_id x rows u here)
  where
    none_later :
        (org p user_id : ℕ) (x : MembershipInfo) (rows : List MembershipInfo)
        → UniqueRows (x ∷ rows)
        → IsGrant org user_id p x
        → All (λ y. (grant_row org p user_id y ≡ true) → y ≡ member) rows
    none_later org p user_id x [] u here = tt
    none_later org p user_id x (y ∷ rows) u here = (
      λ h.
          absurd
            (u.0 (inl (same_grant org p user_id x y here (grant_row-IsGrant org p user_id y h)))),
      none_later org p user_id x rows ((λ a. u.0 (inr a)), u.1.1) here,
    )
grant_row_unique org p member (x ∷ rows) u (inr later) = (
  λ h. absurd (
      u.0 (
        Any-map _ (IsGrant x.org_id x.user_id x.project_id)
          (λ y k.
            same_grant org p member.user_id x y (grant_row-IsGrant org p member.user_id x h) k.1)
          rows later)),
  grant_row_unique org p member rows u.1 later,
)

module _ (parse_id : String → Option ℕ) (to_lower : String → String) (max_email now page : ℕ)
    (down : String → Bool) (authorizer : Authorizer) where
  -- Where DeleteMember succeeds, the token selects an org, the project of the request is a scope,
  -- findMember gives the member at that scope, the grants that the authorizer gives of the caller in
  -- the org allow the caller to grant the member's role at that scope, and the table loses the row
  -- of the member and no other, where its rows are unique for an org, a project and a user and name
  -- a user.
  pub delete_member-granted :
      (tctx : TrustyCtx) (req : MemberRequest) (s t : State) (d : Done)
      → UniqueRows s.members
      → All (λ m. m.user_id ≢ 0) s.members
      → delete_member parse_id to_lower max_email now page down authorizer tctx req s ≡ ok (d, t)
      → (tctx.org_id ≢ 0)
        × ((p : ℕ) × (member : MembershipInfo) × (parse_optional_id parse_id req.project_id ≡ ok p)
            × (find_member parse_id to_lower max_email now page down authorizer tctx.org_id p
                  req.user_id "" s
                ≡ ok member)
            × ((g : Grants) × (authorizer.grants tctx.org_id tctx.user_id ≡ granted g)
                × MayGrantAt p member.role g)
            × Loses tctx.org_id p member s.members t.members)
  delete_member-granted tctx req s t d u users h =
      let (chosen, (p, member, read, (f, (g, e), k, removed))) =
        delete_member-steps parse_id to_lower max_email now page down authorizer tctx req s t d h in
      let (answer, may) = grantable-MayGrantAt p member.role _ g e in
      let there =
        find_member-row parse_id to_lower max_email now page down authorizer tctx.org_id p
          req.user_id "" s member chosen f in
      let named : member.user_id ≢ 0 = Any-fact (member.user_id ≢ 0) s.members (
        Any-map _ (λ x. member.user_id ≢ 0) (λ x q. rw q.0.0 at q.1) s.members
          (Any-All _ (λ m. m.user_id ≢ 0) s.members there users)) in
      let left =
        remove_member-rows parse_id to_lower max_email now page down authorizer tctx.org_id p member
          s t d removed in
      (
        chosen,
        (
          p,
          member,
          read,
          f,
          (g, answer, may),
          (
            left ∙ (λ i.
                filter (λ x. not (deletes-grant_row tctx.org_id p member.user_id x chosen named i))
                  s.members),
            Any-map _ (λ x. x ≡ member) (λ x q. q.0) s.members there,
            grant_row_unique tctx.org_id p member s.members u (
                Any-map _ (λ x. (x ≡ member) × IsGrant tctx.org_id member.user_id p x)
                  (λ x q. (
                    q.0,
                    (
                      ap (λ y. y.org_id) q.0 ∙ q.1.0,
                      ap (λ y. y.user_id) q.0,
                      ap (λ y. y.project_id) q.0 ∙ q.1.2,
                    ),
                  ))
                  s.members there),
          ),
        ),
      )
