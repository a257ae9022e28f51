-- ===== src/Authctx/Access/Keys.antt =====
-- Which calls of API keys are accepted.
use trustyca.Base.{
  ℕ, String, ◌≡◌, refl, ◌≢◌, ◌↔◌, ◌⊎◌, inl, inr, true, Option, arith, ◌==◌, Bool-cases, iff_trans,
}
use trustyca.Base.Status.{Done, ok, ◌>>=◌, bind_iff}
use trustyca.Db.Model.{Project}
use trustyca.Authctx.Role.{api_key, allows_role}
use trustyca.Authctx.Scopes.{parse_scopes, has_scopes}
use trustyca.Authctx.Access.{
  TrustyCtx, Request, MethodInfo, Authorizer, Answer, granted, refused, check_access, key_project,
  project_active, project_verdict, key_scopes_verdict, check_api_key_access, is_api_key,
  caller_verdict, tenant_verdict, denied,
}
use trustyca.Authctx.Access.Tenants.{TenantCall, InOrg, tenant_verdict_iff, check_access-rule}

-- The project that a key acts in: its own, which the request may repeat, or the request's.
abbrev pub ActsIn : ℕ → ℕ → ℕ → Type 0
ActsIn own requested p =
    ((own ≡ 0) × (p ≡ requested)) ⊎ ((own ≢ 0) × (p ≡ own) × ((requested ≡ 0) ⊎ (requested ≡ own)))

abbrev pub IsActive : Authorizer → ℕ → ℕ → Type 0
IsActive authorizer org p =
    (p ≡ 0) ⊎ ((found : Project) × (authorizer.project org p ≡ granted found))

-- What the authorization of a key demands for the project of the request.
abbrev pub KeyMay : Authorizer → TrustyCtx → MethodInfo → ℕ → Type 0
KeyMay authorizer tctx rule requested =
    (allows_role rule.allowed_roles api_key ≡ true)
    × ((p : ℕ) × ActsIn tctx.project_id requested p × IsActive authorizer tctx.org_id p)
    × (has_scopes tctx.scopes (parse_scopes rule.scopes) ≡ true)

key_project_iff :
    (own requested p : ℕ) → (key_project own requested ≡ ok p) ↔ ActsIn own requested p
unfolding key_project
key_project_iff own requested p = elim (Bool-cases (own == 0)) [
  | inl unbound ↦ (
    λ h. inl (ground arith, ground arith),
    λ h. elim h [ inl (a, b) ↦ ground arith | inr (a, b, c) ↦ ground arith ],
  )
  | inr bound ↦ elim (Bool-cases (requested == 0)) [
    | inl unnamed ↦ (
      λ h. inr (λ e. ground arith, ground arith, inl (ground arith)),
      λ h. elim h [ inl (a, b) ↦ ground arith | inr (a, b, c) ↦ ground arith ],
    )
    | inr named ↦ elim (Bool-cases (requested == own)) [
      | inl same ↦ (
        λ h. inr (λ e. ground arith, ground arith, inr (ground arith)),
        λ h. elim h [ inl (a, b) ↦ ground arith | inr (a, b, c) ↦ ground arith ],
      )
      | inr other ↦ (
        λ h. ground arith,
        λ h. elim h [
          | inl (a, b) ↦ ground arith
          | inr (a, b, c) ↦ elim c [ inl e ↦ ground arith | inr e ↦ ground arith ]
        ],
      )
    ]
  ]
]

project_active_iff :
    (authorizer : Authorizer) (org p : ℕ)
    → (project_active authorizer org p ≡ ok tt) ↔ IsActive authorizer org p
unfolding project_active
project_active_iff authorizer org p = elim (Bool-cases (p == 0)) [
  | inl whole ↦ rw whole (λ h. inl (ground arith), λ h. refl)
  | inr scoped ↦ rw scoped (
    λ h. inr ((verdict_iff _).0 h),
    λ h. elim h [ inl e ↦ ground arith | inr a ↦ (verdict_iff _).1 a ],
  )
]
  where
    verdict_iff :
        (a : Answer Project)
        → (project_verdict a ≡ ok tt) ↔ ((found : Project) × (a ≡ granted found))
    verdict_iff (granted found) = (λ h. (found, refl), λ h. refl)
    verdict_iff (refused why) = (λ h. cc, λ h. cc)

key_scopes_verdict_iff :
    (tctx : TrustyCtx) (rule : MethodInfo)
    → (key_scopes_verdict tctx rule ≡ ok tt)
      ↔ (has_scopes tctx.scopes (parse_scopes rule.scopes) ≡ true)
key_scopes_verdict_iff tctx rule = (λ h. ground arith, λ h. ground arith)

check_api_key_access_iff :
    (authorizer : Authorizer) (tctx : TrustyCtx) (rule : MethodInfo) (requested : ℕ)
    → (check_api_key_access authorizer tctx rule tctx.org_id requested ≡ ok tt)
      ↔ KeyMay authorizer tctx rule requested
unfolding check_api_key_access
check_api_key_access_iff authorizer tctx rule requested =
    elim (Bool-cases (allows_role rule.allowed_roles api_key)) [
      | inr forbidden ↦ (λ h. absurd (refuse (rw forbidden at h)), λ h. cc)
      | inl allowed ↦
          let outer =
            bind_iff (key_project tctx.project_id requested)
              (λ p. project_active authorizer tctx.org_id p >>= λ _. key_scopes_verdict tctx rule)
              tt in
          (
            λ h.
                let (p, e, k) = outer.0 (rw allowed at h) in
                let (active, scopes) = (in_project_iff p).0 k in
                (allowed, (p, (key_project_iff _ _ p).0 e, active), scopes),
            λ (a, (p, e, f), s).
                rw allowed (outer.1 (p, (key_project_iff _ _ p).1 e, (in_project_iff p).1 (f, s))),
          )
    ]
  where
    in_project_iff :
        (p : ℕ)
        → ((project_active authorizer tctx.org_id p >>= λ _. key_scopes_verdict tctx rule) ≡ ok tt)
          ↔ (IsActive authorizer tctx.org_id p
              × (has_scopes tctx.scopes (parse_scopes rule.scopes) ≡ true))
    in_project_iff p =
        let (to, from) =
          bind_iff (project_active authorizer tctx.org_id p) (λ _. key_scopes_verdict tctx rule)
            tt in
        (
          λ h.
              let (_, f, m) = to h in
              ((project_active_iff authorizer _ p).0 f, (key_scopes_verdict_iff tctx rule).0 m),
          λ (f, s).
              from (
                tt,
                (project_active_iff authorizer _ p).1 f,
                (key_scopes_verdict_iff tctx rule).1 s,
              ),
        )

    refuse : denied {A = Done} "API key not allowed, action: %s" ≡ ok tt → ⊥
    refuse e = cc

module _ (parse_id : String → Option ℕ) (id_string : ℕ → String) (authorizer : Authorizer)
    (method_info : String → Option MethodInfo) where
  -- A method with allowed roles accepts an API key exactly when the token selects an org, the
  -- request names no other org, the method allows the APIKey role, the key's scopes cover the
  -- method's, and the project it acts in is that of the key, where it has one, which the request
  -- may only repeat, or else that of the request, and is an active project of the org if any.
  pub check_access-api_key_iff :
      (tctx : TrustyCtx) (req : Request) (action : String) (rule : MethodInfo)
      → TenantCall method_info tctx action rule
      → is_api_key tctx ≡ true
      → (check_access parse_id id_string authorizer method_info tctx req action ≡ ok tt)
        ↔ InOrg parse_id id_string authorizer tctx req (KeyMay authorizer tctx rule)
  check_access-api_key_iff tctx req action rule call key =
      let to_verdict : (check_access parse_id id_string authorizer method_info tctx req action
            ≡ ok tt)
          ↔ (tenant_verdict parse_id id_string authorizer tctx req rule ≡ ok tt) =
        rw (check_access-rule parse_id id_string authorizer method_info tctx req action rule call)
          (λ h. h, λ h. h) in
      iff_trans to_verdict
        (iff_trans (tenant_verdict_iff parse_id id_string authorizer tctx req rule) as_key)
    where
      as_key :
          InOrg parse_id id_string authorizer tctx req
            (λ p. caller_verdict parse_id id_string authorizer tctx rule p ≡ ok tt)
          ↔ InOrg parse_id id_string authorizer tctx req (KeyMay authorizer tctx rule)
      as_key = rw key (
        λ (a, b, (p, e, k)). (a, b, (p, e, (check_api_key_access_iff authorizer tctx rule p).0 k)),
        λ (a, b, (p, e, k)). (a, b, (p, e, (check_api_key_access_iff authorizer tctx rule p).1 k)),
      )
