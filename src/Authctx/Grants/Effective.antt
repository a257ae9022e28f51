-- ===== src/Authctx/Grants/Effective.antt =====
-- The roles that a user acts with, against the rows of the membership table.
use trustyca.Base.{
  ℕ, ◌<◌, String, ◌≡◌, refl, ap, ◌≢◌, ◌↔◌, ◌⊎◌, inl, inr, Bool, true, false, ◌||◌, Option, none,
  some, List, [], ◌∷◌, ◌++◌, arith, All, Any, Any-map, Any-append, All-append, All-map, not-Any,
  iff_trans, iff_sum, Bool-cases,
}
use mathlib.Core.Option.{some-injective}
use trustyca.Authctx.Role.{Role, none_role, can_assume_role}
use trustyca.Db.Model.{MembershipInfo}
use trustyca.Authctx.Grants.{
  Grants, grants_from_memberships, is_empty, is_none, resolved_org_role, roles, first_allowed,
  highest_role, role_list,
}
use trustyca.Authctx.Grants.Rows.{
  IsGrant, UniqueRows, HasRole, entry, entry-grants_from_memberships,
}

-- A role passes a list of allowed roles; an empty list accepts any role.
abbrev pub Suffices : List String → Role → Type 0
Suffices allowed r = (allowed ≡ []) ⊎ (can_assume_role r allowed ≡ true)

passes : List String → Role → Bool
passes allowed r = is_empty allowed || can_assume_role r allowed

passes_iff : (allowed : List String) (r : Role) → (passes allowed r ≡ true) ↔ Suffices allowed r
unfolding passes
passes_iff [] r = (λ h. inl refl, λ h. refl)
passes_iff (a ∷ allowed) r = (λ h. inr h, λ h. elim h [ inl e ↦ cc | inr k ↦ k ])

abbrev pub IsRole : Role → Type 0
IsRole r = r ≢ none_role

first_taken :
    (allowed : List String) (r : Role) (rs : List Role)
    → passes allowed r ≡ true
    → first_allowed allowed (r ∷ rs) ≡ r
unfolding first_allowed passes
first_taken allowed r rs h = rw h

first_skipped :
    (allowed : List String) (r : Role) (rs : List Role)
    → passes allowed r ≡ false
    → first_allowed allowed (r ∷ rs) ≡ first_allowed allowed rs
unfolding first_allowed passes
first_skipped allowed r rs h = rw h

pub first_allowed_iff :
    (allowed : List String) (rs : List Role)
    → All IsRole rs
    → IsRole (first_allowed allowed rs) ↔ Any (Suffices allowed) rs
first_allowed_iff allowed [] h = (λ k. absurd (k (unfold first_allowed in refl)), λ a. absurd a)
first_allowed_iff allowed (r ∷ rs) h =
    let (to, from) = first_allowed_iff allowed rs h.1 in
    elim (Bool-cases (passes allowed r)) [
      | inl here ↦
          (λ k. inl ((passes_iff allowed r).0 here), λ a. rw (first_taken allowed r rs here) h.0)
      | inr off ↦ (
        λ k. inr (to (rw (first_skipped allowed r rs off) at k)),
        λ a. elim a [
          | inl q ↦ cc ((passes_iff allowed r).1 q)
          | inr later ↦ rw (first_skipped allowed r rs off) (from later)
        ],
      )
    ]

-- the roles at a project, from the entries of the grants
roles-eq-entries :
    (g : Grants) (p : ℕ) → 0 < p → roles (some g) p ≡ role_list (entry g 0) ++ role_list (entry g p)
unfolding roles entry
roles-eq-entries g p h = ground arith

-- the roles at the org scope
pub roles-eq-org_entry :
    (g : Grants) → is_none g.org_role ≡ false → roles (some g) 0 ≡ role_list (entry g 0)
unfolding roles entry resolved_org_role
roles-eq-org_entry g h = ground arith

module _ (P : Role → Type 0) where
  abbrev pub Holds : Option Role → Type 0
  Holds o = (r : Role) × (o ≡ some r) × P r

  pub Any-role_list : (o : Option Role) → Any P (role_list o) ↔ Holds o
  Any-role_list none = (λ h. absurd h, λ h. cc h.1)
  Any-role_list (some s) = (
    λ h. elim h [ inl k ↦ (s, refl, k) | inr x ↦ absurd x ],
    λ h. inl (rw (some-injective s h.0 h.1) h.2),
  )

pub IsRole-role_list : (o : Option Role) → o ≢ some none_role → All IsRole (role_list o)
IsRole-role_list none h = tt
IsRole-role_list (some s) h = (λ e. h (ap some e), tt)

module _ (rows : List MembershipInfo) (org user : ℕ) (unique : UniqueRows rows)
    (given : All HasRole rows) where
  abbrev pub resolved : Grants
  resolved = grants_from_memberships rows org user

  entry_iff :
      (p : ℕ) (r : Role)
      → (entry resolved p ≡ some r) ↔ Any (λ m. IsGrant org user p m × (m.role ≡ r)) rows
  entry_iff p r = entry-grants_from_memberships rows org user p r unique given

  pub entry_given : (p : ℕ) → entry resolved p ≢ some none_role
  entry_given p e =
      not-Any (λ m. IsGrant org user p m × (m.role ≡ none_role)) rows
        (All-map HasRole (λ m. ¬ (IsGrant org user p m × (m.role ≡ none_role))) (λ m h k. h k.1)
          rows given)
        ((entry_iff p none_role).0 e)

  pub Holds-entry :
      (P : Role → Type 0) (p : ℕ)
      → Holds P (entry resolved p) ↔ Any (λ m. IsGrant org user p m × P m.role) rows
  Holds-entry P p = (
    λ h.
        Any-map _ (λ m. IsGrant org user p m × P m.role) (λ m k. (k.0, rw k.1 h.2)) rows
          ((entry_iff p h.0).0 h.1),
    λ a. let (r, b) = pick rows a in (r, (entry_iff p r).1 b.0, b.1),
  )
    where
      pick :
          (xs : List MembershipInfo)
          → Any (λ m. IsGrant org user p m × P m.role) xs
          → (r : Role) × (Any (λ m. IsGrant org user p m × (m.role ≡ r)) xs × P r)
      pick [] a = absurd a
      pick (m ∷ xs) (inl h) = (m.role, (inl (h.0, refl), h.1))
      pick (m ∷ xs) (inr a) = let (r, b) = pick xs a in (r, (inr b.0, b.1))

  -- In a project, a user has a role that passes the allowed roles exactly when the table has a row
  -- of the user in the org, org-wide or for the project, whose role passes them. The table has one
  -- row for an org, a project and a user, and each row has a role.
  pub highest_role_iff :
      (p : ℕ) (allowed : List String)
      → 0 < p
      → (highest_role (some (grants_from_memberships rows org user)) p allowed ≢ none_role) ↔ (
          Any (λ m. IsGrant org user 0 m × Suffices allowed m.role) rows
          ⊎ Any (λ m. IsGrant org user p m × Suffices allowed m.role) rows)
  unfolding highest_role
  highest_role_iff p allowed proper =
      let own = role_list (entry resolved 0) in
      let extra = role_list (entry resolved p) in
      rw (roles-eq-entries resolved p proper) (
        iff_trans
          (first_allowed_iff allowed (own ++ extra) (
            All-append IsRole own extra (IsRole-role_list _ (entry_given 0))
              (IsRole-role_list _ (entry_given p))))
          (iff_trans (Any-append (Suffices allowed) own extra) (
            iff_sum
              (iff_trans (Any-role_list (Suffices allowed) _) (Holds-entry (Suffices allowed) 0))
              (iff_trans (Any-role_list (Suffices allowed) _) (Holds-entry (Suffices allowed) p)))))
