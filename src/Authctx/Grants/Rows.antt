-- ===== src/Authctx/Grants/Rows.antt =====
-- The grants that are built from the rows of the membership table, and the roles that they give.
use trustyca.Base.{
  ℕ, ◌≡◌, refl, sym, ap, ◌∙◌, ◌≢◌, ◌↔◌, ◌⊎◌, inl, inr, Bool, true, ◌&&◌, Option, none, some, List,
  [], ◌∷◌, arith, ◌==◌, if◌then◌else◌, lookup, lookup-put, All, Any, Any-map, Bool-cases,
}
use trustyca.Authctx.Role.{Role, none_role}
use trustyca.Db.Model.{MembershipInfo}
use trustyca.Authctx.Grants.{Grants, add_row, add_rows, grants_from_memberships, no_grants, is_none}

-- A row is the grant of the user in the org at a scope: project 0 is org-wide.
abbrev pub IsGrant : ℕ → ℕ → ℕ → MembershipInfo → Type 0
IsGrant org user p m = (m.org_id ≡ org) × (m.user_id ≡ user) × (m.project_id ≡ p)

-- The unique constraint of the table: one row for an org, a project and a user.
abbrev pub UniqueRows : List MembershipInfo → Type 0
UniqueRows [] = Unit
UniqueRows (m ∷ rows) = (¬ Any (IsGrant m.org_id m.user_id m.project_id) rows) × UniqueRows rows

abbrev pub HasRole : MembershipInfo → Type 0
HasRole m = m.role ≢ none_role

-- the grant at a scope
unfoldable pub entry : Grants → ℕ → Option Role
entry g p =
    if p == 0
    then (if is_none g.org_role then none else some g.org_role)
    else lookup p g.project_roles

applies : ℕ → ℕ → ℕ → MembershipInfo → Bool
applies org user p m = m.org_id == org && m.user_id == user && m.project_id == p

applies_iff :
    (org user p : ℕ) (m : MembershipInfo) → (applies org user p m ≡ true) ↔ IsGrant org user p m
unfolding applies
applies_iff org user p m = (λ h. (ground arith, ground arith, ground arith), λ h. ground arith)

entry-add_row :
    (g : Grants) (m : MembershipInfo) (p : ℕ)
    → HasRole m
    → entry (add_row g m) p ≡ (if applies g.org_id g.user_id p m then some m.role else entry g p)
unfolding entry add_row applies
entry-add_row g m p h = ground (arith, lookup-put m.project_id p m.role g.project_roles)

module _ (org user p : ℕ) where
  abbrev Owned : Grants → Type 0
  Owned g = (g.org_id ≡ org) × (g.user_id ≡ user)

  add_row-Owned : (g : Grants) (m : MembershipInfo) → Owned g → Owned (add_row g m)
  unfolding add_row
  add_row-Owned g m h = (ground arith, ground arith)

  -- Which role the scope ends with: a row's, or the one from before where no row is its grant.
  abbrev EndsWith : Role → List MembershipInfo → Option Role → Type 0
  EndsWith r rows before =
      Any (λ m. IsGrant org user p m × (m.role ≡ r)) rows
      ⊎ ((¬ Any (IsGrant org user p) rows) × (before ≡ some r))

  fresh :
      (m : MembershipInfo) (rows : List MembershipInfo)
      → UniqueRows (m ∷ rows)
      → IsGrant org user p m
      → ¬ Any (IsGrant org user p) rows
  fresh m rows u (o, w, q) a = u.0 (
      Any-map (IsGrant org user p) (IsGrant m.org_id m.user_id m.project_id)
        (λ x h. (h.0 ∙ sym o, h.1 ∙ sym w, h.2 ∙ sym q)) rows a)

  module _ (r : Role) (m : MembershipInfo) (rows : List MembershipInfo)
      (before after : Option Role) where
    EndsWith-row :
        IsGrant org user p m
        → (¬ Any (IsGrant org user p) rows)
        → after ≡ some m.role
        → EndsWith r rows after ↔ EndsWith r (m ∷ rows) before
    EndsWith-row here fresh' e = (
      λ h. elim h [ inl a ↦ inl (inr a) | inr (na, q) ↦ inl (inl (here, ground arith)) ],
      λ h. elim h [
        | inl a ↦ elim a [
          | inl (_, q) ↦ inr (fresh', e ∙ ap some q)
          | inr later ↦ absurd (
              fresh' (
                Any-map (λ x. IsGrant org user p x × (x.role ≡ r)) (IsGrant org user p) (λ x k. k.0)
                  rows later))
        ]
        | inr (na, _) ↦ absurd (na (inl here))
      ],
    )

    EndsWith-other :
        (¬ IsGrant org user p m)
        → after ≡ before
        → EndsWith r rows after ↔ EndsWith r (m ∷ rows) before
    EndsWith-other off e = (
      λ h. elim h [
        | inl a ↦ inl (inr a)
        | inr (na, q) ↦ inr (λ a. elim a [ inl here ↦ off here | inr later ↦ na later ], sym e ∙ q)
      ],
      λ h. elim h [
        | inl a ↦ elim a [ inl (here, _) ↦ absurd (off here) | inr later ↦ inl later ]
        | inr (na, q) ↦ inr (λ a. na (inr a), e ∙ q)
      ],
    )

  -- The scope's role after the rows, for every grants to start from.
  entry-add_rows :
      (r : Role) (rows : List MembershipInfo) (g : Grants)
      → UniqueRows rows
      → All HasRole rows
      → Owned g
      → (entry (add_rows g rows) p ≡ some r) ↔ EndsWith r rows (entry g p)
  entry-add_rows r [] g u h o =
      (λ e. inr (λ a. a, e), λ h. elim h [ inl a ↦ absurd a | inr (_, e) ↦ e ])
  entry-add_rows r (m ∷ rows) g u h o =
      let (to, from) = entry-add_rows r rows (add_row g m) u.1 h.1 (add_row-Owned g m o) in
      let step = entry-add_row g m p h.0 in
      elim (Bool-cases (applies org user p m)) [
        | inl here ↦
            let grant = (applies_iff org user p m).0 here in
            let (in', out) =
              EndsWith-row r m rows (entry g p) (entry (add_row g m) p) grant (fresh m rows u grant)
                (ground arith) in
            (λ e. in' (to e), λ w. from (out w))
        | inr off ↦
            let (in', out) =
              EndsWith-other r m rows (entry g p) (entry (add_row g m) p)
                (λ k. cc ((applies_iff org user p m).1 k)) (ground arith) in
            (λ e. in' (to e), λ w. from (out w))
      ]

-- The role at a scope is that of the user's row for it, where the rows are unique for an org, a
-- project and a user and each has a role.
pub entry-grants_from_memberships :
    (rows : List MembershipInfo) (org user p : ℕ) (r : Role)
    → UniqueRows rows
    → All HasRole rows
    → (entry (grants_from_memberships rows org user) p ≡ some r)
      ↔ Any (λ m. IsGrant org user p m × (m.role ≡ r)) rows
unfolding grants_from_memberships
entry-grants_from_memberships rows org user p r u h =
    let (to, from) = entry-add_rows org user p r rows (no_grants org user) u h (refl, refl) in
    (
      λ e. elim (to e) [
        | inl a ↦ a
        | inr (_, q) ↦ absurd (let k : ⊥ = unfold entry in ground arith in k)
      ],
      λ a. from (inl a),
    )
