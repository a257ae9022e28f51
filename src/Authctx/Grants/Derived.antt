-- ===== src/Authctx/Grants/Derived.antt =====
-- The role at the org scope: the explicit one, or Viewer derived from the grants in projects.
use trustyca.Base.{
  ℕ, String, ◌≡◌, refl, ◌≢◌, ◌↔◌, ◌⊎◌, inl, inr, true, false, none, some, List, [], ◌∷◌, arith,
  ◌==◌, put, All, Any, Any-map, iff_trans, Bool-cases,
}
use trustyca.Authctx.Role.{Role, none_role, viewer}
use trustyca.Db.Model.{MembershipInfo}
use trustyca.Authctx.Grants.{
  Grants, add_row, add_rows, grants_from_memberships, no_grants, is_empty, is_none,
  resolved_org_role, roles, first_allowed, highest_role, role_list,
}
use trustyca.Authctx.Grants.Rows.{IsGrant, UniqueRows, HasRole, entry}
use trustyca.Authctx.Grants.Effective.{
  Suffices, first_allowed_iff, Holds-entry, IsRole-role_list, roles-eq-org_entry, Any-role_list,
  entry_given,
}

abbrev pub IsOf : ℕ → ℕ → MembershipInfo → Type 0
IsOf org user m = (m.org_id ≡ org) × (m.user_id ≡ user)

abbrev IsProjectRow : ℕ → ℕ → MembershipInfo → Type 0
IsProjectRow org user m = (m.org_id ≡ org) × (m.user_id ≡ user) × (m.project_id ≢ 0)

put-ne-nil : (k : ℕ) (v : Role) (l : List (ℕ × Role)) → is_empty (put k v l) ≡ false
put-ne-nil k v [] = refl
put-ne-nil k v ((j, w) ∷ l) = ground arith

module _ (org user : ℕ) where
  abbrev Owned : Grants → Type 0
  Owned g = (g.org_id ≡ org) × (g.user_id ≡ user)

  -- one row either is no grant of the user in a project, or leaves a project role
  add_row-project :
      (g : Grants) (m : MembershipInfo)
      → Owned g
      → (is_empty (add_row g m).project_roles ≡ false)
        ↔ ((is_empty g.project_roles ≡ false) ⊎ IsProjectRow org user m)
  unfolding add_row
  add_row-project g m o =
      let filled = put-ne-nil m.project_id m.role g.project_roles in
      elim (Bool-cases (m.org_id == g.org_id)) [
        | inr a ↦
            (λ h. inl (ground arith), λ h. elim h [ inl e ↦ ground arith | inr k ↦ ground arith ])
        | inl a ↦ elim (Bool-cases (m.user_id == g.user_id)) [
          | inr b ↦
              (λ h. inl (ground arith), λ h. elim h [ inl e ↦ ground arith | inr k ↦ ground arith ])
          | inl b ↦ elim (Bool-cases (m.project_id == 0)) [
            | inl c ↦ (
              λ h. inl (ground arith),
              λ h. elim h [ inl e ↦ ground arith | inr k ↦ ground arith ],
            )
            | inr c ↦ (
              λ h. inr (ground arith, ground arith, λ e. ground arith),
              λ h. ground (arith, filled),
            )
          ]
        ]
      ]

  add_row-Owned : (g : Grants) (m : MembershipInfo) → Owned g → Owned (add_row g m)
  unfolding add_row
  add_row-Owned g m h = (ground arith, ground arith)

  add_rows-project :
      (rows : List MembershipInfo) (g : Grants)
      → Owned g
      → (is_empty (add_rows g rows).project_roles ≡ false)
        ↔ ((is_empty g.project_roles ≡ false) ⊎ Any (IsProjectRow org user) rows)
  add_rows-project [] g o = (λ h. inl h, λ h. elim h [ inl e ↦ e | inr a ↦ absurd a ])
  add_rows-project (m ∷ rows) g o =
      let (to, from) = add_rows-project rows (add_row g m) (add_row-Owned g m o) in
      let (in', out) = add_row-project g m o in
      (
        λ h. elim (to h) [
          | inl e ↦ elim (in' e) [ inl k ↦ inl k | inr k ↦ inr (inl k) ]
          | inr a ↦ inr (inr a)
        ],
        λ h. elim h [
          | inl e ↦ from (inl (out (inl e)))
          | inr a ↦ elim a [ inl k ↦ from (inl (out (inr k))) | inr later ↦ from (inr later) ]
        ],
      )

module _ (rows : List MembershipInfo) (org user : ℕ) (unique : UniqueRows rows)
    (given : All HasRole rows) where
  abbrev resolved : Grants
  resolved = grants_from_memberships rows org user

  org_row : is_none resolved.org_role ≡ false → Any (IsGrant org user 0) rows
  org_row h =
      Any-map _ (IsGrant org user 0) (λ m k. k.0) rows
        ((Holds-entry rows org user unique given (λ r. Unit) 0).0
          (resolved.org_role, unfold entry in ground arith, tt))

  no_org_row : is_none resolved.org_role ≡ true → ¬ Any (IsGrant org user 0) rows
  no_org_row h a =
      let (r, e, _) =
        (Holds-entry rows org user unique given (λ r. Unit) 0).1
          (Any-map _ (λ m. IsGrant org user 0 m × Unit) (λ m k. (k, tt)) rows a) in
      let none_there : entry resolved 0 ≡ none = unfold entry in ground arith in cc

  with_project : (is_empty resolved.project_roles ≡ false) ↔ Any (IsProjectRow org user) rows
  unfolding grants_from_memberships
  with_project =
      let (to, from) = add_rows-project org user rows (no_grants org user) (refl, refl) in
      (λ h. elim (to h) [ inl e ↦ cc | inr a ↦ a ], λ a. from (inr a))

  roles-viewer :
      is_none resolved.org_role ≡ true
      → is_empty resolved.project_roles ≡ false
      → roles (some resolved) 0 ≡ viewer ∷ []
  unfolding roles resolved_org_role
  roles-viewer h k = ground arith

  roles-nothing :
      is_none resolved.org_role ≡ true
      → is_empty resolved.project_roles ≡ true
      → roles (some resolved) 0 ≡ []
  unfolding roles resolved_org_role
  roles-nothing h k = ground arith

  -- what the explicit role of the org leaves to the roles in projects
  abbrev pub ByProjects : List String → Type 0
  ByProjects allowed =
      (¬ Any (IsGrant org user 0) rows) × Any (IsOf org user) rows × Suffices allowed viewer

  only_projects :
      (xs : List MembershipInfo)
      → ¬ Any (IsGrant org user 0) xs
      → Any (IsOf org user) xs
      → Any (IsProjectRow org user) xs
  only_projects [] n a = a
  only_projects (m ∷ xs) n (inl k) = inl (k.0, k.1, λ e. n (inl (k.0, k.1, e)))
  only_projects (m ∷ xs) n (inr a) = inr (only_projects xs (λ x. n (inr x)) a)

  first_viewer :
      (allowed : List String)
      → (first_allowed allowed (viewer ∷ []) ≢ none_role) ↔ Suffices allowed viewer
  first_viewer allowed =
      let (to, from) = first_allowed_iff allowed (viewer ∷ []) (λ e. cc, tt) in
      (λ h. elim (to h) [ inl s ↦ s | inr x ↦ absurd x ], λ s. from (inl s))

  -- At the org scope, a user has a role that passes the allowed roles exactly when the user's
  -- org-wide row passes them or, where the user has rows in the org and none of them is org-wide,
  -- Viewer does. The table is as for the projects.
  pub highest_role-org_iff :
      (allowed : List String)
      → (highest_role (some (grants_from_memberships rows org user)) 0 allowed ≢ none_role)
        ↔ (Any (λ m. IsGrant org user 0 m × Suffices allowed m.role) rows ⊎ ByProjects allowed)
  unfolding highest_role
  highest_role-org_iff allowed = elim (Bool-cases (is_none resolved.org_role)) [
    | inr explicit ↦
        let explicit_case : (first_allowed allowed (roles (some resolved) 0) ≢ none_role)
            ↔ Any (λ m. IsGrant org user 0 m × Suffices allowed m.role) rows =
          rw (roles-eq-org_entry resolved explicit) (
            iff_trans
              (first_allowed_iff allowed (role_list (entry resolved 0))
                (IsRole-role_list _ (entry_given rows org user unique given 0)))
              (iff_trans (Any-role_list (Suffices allowed) _)
                (Holds-entry rows org user unique given (Suffices allowed) 0))) in
        (
          λ h. inl (explicit_case.0 h),
          λ h. elim h [ inl a ↦ explicit_case.1 a | inr (n, _, _) ↦ absurd (n (org_row explicit)) ],
        )
    | inl derived ↦ (
      λ h. inr (by_projects allowed derived h),
      λ h. elim h [
        | inl a ↦ absurd (no_org_row derived (Any-map _ (IsGrant org user 0) (λ m k. k.0) rows a))
        | inr (n, of, s) ↦
            rw (roles-viewer derived (with_project.1 (only_projects rows n of)))
              ((first_viewer allowed).1 s)
      ],
    )
  ]
    where
      by_projects :
          (allowed : List String)
          → is_none resolved.org_role ≡ true
          → (first_allowed allowed (roles (some resolved) 0) ≢ none_role)
          → ByProjects allowed
      by_projects allowed derived h = elim (Bool-cases (is_empty resolved.project_roles)) [
        | inl nothing ↦
            absurd (h (rw (roles-nothing derived nothing) (unfold first_allowed in refl)))
        | inr filled ↦ (
          no_org_row derived,
          Any-map (IsProjectRow org user) (IsOf org user) (λ m k. (k.0, k.1)) rows
              (with_project.0 filled),
          (first_viewer allowed).0 (rw (roles-viewer derived filled) at h),
        )
      ]
