-- ===== src/Backend/Scope/Access.antt =====
-- Which rows a caller may use, and the certificates that a request finds.
use mathlib.Core.Path.{subst}
use trustyca.Base.{
  ℕ, String, ◌≡◌, ◌≢◌, sym, ap, ◌∙◌, ◌↔◌, ◌⊎◌, inl, inr, refl, true, false, not, ◌&&◌, some, List,
  [], ◌∷◌, ◌==◌, Bool-cases, arith,
}
use trustyca.Base.Status.{Result, Done, Error, ok, err}
use trustyca.Db.Model.{Project}
use trustyca.Authctx.Role.{Role, viewer, role_name, allows_role}
use trustyca.Authctx.Grants.{Grants, highest_role, is_none}
use trustyca.Authctx.Access.{
  TrustyCtx, Authorizer, Answer, granted, refused, access_denied, insufficient_role,
  org_not_selected, unavailable, is_api_key,
}
use trustyca.Backend.Scope.{
  TenantScope, is_service_caller, allowed_roles, project_seen, role_seen, key_row_access,
  row_access,
}

-- the authorizer finds the project in the org
abbrev pub IsProject : Authorizer → ℕ → ℕ → Type 0
IsProject authorizer org_id project_id =
    (p : Project) × (authorizer.project org_id project_id ≡ granted p)

-- an API key that is org-wide, or restricted to the project of the row, where the row has one; a
-- restricted key uses an org-wide row only by a method that a viewer may call
abbrev pub KeyMayUse : TenantScope → TrustyCtx → ℕ → ℕ → List String → Type 0
KeyMayUse scope tctx org_id project_id allowed =
    ((project_id ≢ 0)
      × ((tctx.project_id ≡ 0) ⊎ (tctx.project_id ≡ project_id))
      × IsProject scope.authorizer org_id project_id)
    ⊎ ((project_id ≡ 0) × ((tctx.project_id ≡ 0) ⊎ (allows_role allowed viewer ≡ true)))

-- a user that may view the project and has one of the roles there
abbrev pub UserMayUse : TenantScope → TrustyCtx → ℕ → ℕ → List String → Type 0
UserMayUse scope tctx org_id project_id allowed =
    (role : Role) × (grants : Grants) × (scope.authorizer.check_role org_id project_id tctx.user_id
        (role_name viewer ∷ [])
      ≡ granted (role, grants))
    × (is_none (highest_role (some grants) project_id allowed) ≡ false)

granted-injective : {A : Type 0} (a b : A) → granted a ≡ granted b → a ≡ b
granted-injective a b e = cc

refuse : {e : Error} → ◌≡◌ {A = Result Done} (err e) (ok tt) → ⊥
refuse h = cc

differ : true ≡ false → ⊥
differ e = cc

project_seen_iff :
    (message : String) (a : Answer Project)
    → (project_seen message a ≡ ok tt) ↔ ((p : Project) × (a ≡ granted p))
project_seen_iff message (granted p) = (λ h. (p, refl), λ h. refl)
project_seen_iff message (refused access_denied) = (λ h. cc, λ h. cc)
project_seen_iff message (refused insufficient_role) = (λ h. cc, λ h. cc)
project_seen_iff message (refused org_not_selected) = (λ h. cc, λ h. cc)
project_seen_iff message (refused (unavailable why)) = (λ h. cc, λ h. cc)

role_seen_iff :
    (allowed : List String) (project_id : ℕ) (message : String) (a : Answer (Role × Grants))
    → (role_seen allowed project_id message a ≡ ok tt) ↔ (
        (role : Role) × (grants : Grants) × (a ≡ granted (role, grants))
        × (is_none (highest_role (some grants) project_id allowed) ≡ false))
role_seen_iff allowed project_id message (granted (role, grants)) =
    elim (Bool-cases (is_none (highest_role (some grants) project_id allowed))) [
      | inl e ↦ (
        λ h. absurd (refuse (rw e at h)),
        λ (r, g, same, k). absurd (
            differ (
              sym e
              ∙ subst (λ z. is_none (highest_role (some z) project_id allowed) ≡ false)
                  (sym (ap (λ q. q.1) (granted-injective (role, grants) (r, g) same))) k)),
      )
      | inr e ↦ (λ h. (role, grants, refl, e), λ _. rw e)
    ]
role_seen_iff allowed project_id message (refused access_denied) = (λ h. cc, λ h. cc)
role_seen_iff allowed project_id message (refused insufficient_role) = (λ h. cc, λ h. cc)
role_seen_iff allowed project_id message (refused org_not_selected) = (λ h. cc, λ h. cc)
role_seen_iff allowed project_id message (refused (unavailable why)) = (λ h. cc, λ h. cc)

module _ (scope : TenantScope) (tctx : TrustyCtx) (org_id project_id : ℕ) where
  key_row_access_iff :
      (allowed : List String) (message : String)
      → (key_row_access scope tctx org_id project_id allowed message ≡ ok tt)
        ↔ KeyMayUse scope tctx org_id project_id allowed
  unfolding key_row_access
  key_row_access_iff allowed message = elim (Bool-cases (project_id == 0)) [
    | inr named ↦
        elim (Bool-cases (not (tctx.project_id == 0) && not (tctx.project_id == project_id))) [
          | inl out ↦ (
            λ h. absurd (refuse (rw (named, out) at h)),
            λ h. elim h [
              | inl k ↦ elim k.1 [ inl z ↦ ground arith | inr z ↦ ground arith ]
              | inr k ↦ absurd (ground (arith, k.0))
            ],
          )
          | inr within ↦
              let (to, from) =
                project_seen_iff message (scope.authorizer.project org_id project_id) in
              (
                λ h. inl (λ z. ground arith, member within, to (rw (named, within) at h)),
                λ h. elim h [
                  | inl k ↦ rw (named, within) (from k.2)
                  | inr k ↦ absurd (ground (arith, k.0))
                ],
              )
        ]
    | inl wide ↦
        elim (Bool-cases (not (tctx.project_id == 0) && not (allows_role allowed viewer))) [
          | inl out ↦ (
            λ h. absurd (refuse (rw (wide, out) at h)),
            λ h. elim h [
              | inl k ↦ absurd (k.0 (ground arith))
              | inr k ↦ elim k.1 [ inl z ↦ ground arith | inr z ↦ ground arith ]
            ],
          )
          | inr within ↦ (λ h. inr (ground arith, reads within), λ h. rw (wide, within))
        ]
  ]
    where
      member :
          (not (tctx.project_id == 0) && not (tctx.project_id == project_id)) ≡ false
          → (tctx.project_id ≡ 0) ⊎ (tctx.project_id ≡ project_id)
      member h = elim (Bool-cases (tctx.project_id == 0)) [
        | inl z ↦ inl (ground arith)
        | inr z ↦ inr (ground arith)
      ]

      reads :
          (not (tctx.project_id == 0) && not (allows_role allowed viewer)) ≡ false
          → (tctx.project_id ≡ 0) ⊎ (allows_role allowed viewer ≡ true)
      reads h = elim (Bool-cases (tctx.project_id == 0)) [
        | inl z ↦ inl (ground arith)
        | inr z ↦ inr (ground arith)
      ]

  -- A caller may call a method on a row of a project of the org exactly when it is a trusted
  -- service, or an API key that is not kept out of the project, or a user that may view the project
  -- and has one of the roles that the method allows there.
  pub row_access_iff :
      (method message : String)
      → (row_access scope tctx org_id project_id method message ≡ ok tt) ↔ (
          (is_service_caller tctx ≡ true)
          ⊎ ((is_api_key tctx ≡ true)
              × KeyMayUse scope tctx org_id project_id (allowed_roles (scope.method_info method)))
          ⊎ ((is_api_key tctx ≡ false)
              × UserMayUse scope tctx org_id project_id (allowed_roles (scope.method_info method))))
  unfolding row_access
  row_access_iff method message = elim (Bool-cases (is_service_caller tctx)) [
    | inl service ↦ (λ h. inl service, λ h. rw service)
    | inr other ↦ elim (Bool-cases (is_api_key tctx)) [
      | inl key ↦
          let (to, from) = key_row_access_iff (allowed_roles (scope.method_info method)) message in
          (
            λ h. inr (inl (key, to (rw (other, key) at h))),
            λ h. elim h [
              | inl k ↦ absurd (differ (sym k ∙ other))
              | inr k ↦ elim k [
                | inl m ↦ rw (other, key) (from m.1)
                | inr m ↦ absurd (differ (sym key ∙ m.0))
              ]
            ],
          )
      | inr person ↦
          let (to, from) =
            role_seen_iff (allowed_roles (scope.method_info method)) project_id message (
              scope.authorizer.check_role org_id project_id tctx.user_id (role_name viewer ∷ [])) in
          (
            λ h. inr (inr (person, to (rw (other, person) at h))),
            λ h. elim h [
              | inl k ↦ absurd (differ (sym k ∙ other))
              | inr k ↦ elim k [
                | inl m ↦ absurd (differ (sym m.0 ∙ person))
                | inr m ↦ rw (other, person) (from m.1)
              ]
            ],
          )
    ]
  ]
