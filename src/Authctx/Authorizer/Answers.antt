-- ===== src/Authctx/Authorizer/Answers.antt =====
-- internal/authctx/authorizer.go: the answers of the authorizer, with its cache and without it.
use trustyca.Base.{
  ℕ, String, ◌≡◌, refl, sym, ap, ◌∙◌, ◌≢◌, inl, inr, Option, none, some, List, ◌==◌, if◌then◌else◌,
  Bool-cases,
}
use trustyca.Authctx.Role.{Role}
use trustyca.Authctx.Grants.{Grants}
use trustyca.Authctx.Access.{Answer, refused, Refusal, org_not_selected, Authorizer}
use trustyca.Authctx.Authorizer.{
  GrantsProvider, Cache, active_project, check_role, role_checked, refusal, grants_answer,
  project_answer, role_answer, invalidate_user, invalidate_project, memberships_cache_key,
  project_cache_key,
}
use trustyca.Authctx.Authorizer.Coherence.{
  CacheLaws, Coherent, Agrees, grants-Agrees, active_project-Agrees,
}

abbrev pub selected : {A : Type 0} → ℕ → Answer A → Answer A
selected org_id answer = if org_id == 0 then refused org_not_selected else answer

abbrev pub role_after : ℕ → List String → Option Refusal → Answer Grants → Answer (Role × Grants)
role_after project_id allowed (some why) g = refused why
role_after project_id allowed none g = role_answer project_id allowed g

-- the answers straight from the provider: no code, but what check_role-Agrees says that the
-- authorizer with its cache answers
abbrev pub direct : GrantsProvider → Authorizer
direct provider = record {
  grants = λ org_id user_id.
      selected org_id (grants_answer org_id user_id (provider.list_memberships user_id));
  project = λ org_id project_id.
      selected org_id (project_answer org_id (provider.get_project project_id));
  check_role = λ org_id project_id user_id allowed.
      role_after project_id allowed
        (if project_id == 0
          then none
          else refusal (selected org_id (project_answer org_id (provider.get_project project_id))))
        (selected org_id (grants_answer org_id user_id (provider.list_memberships user_id)));
}

module _ (C : Type 0) (cache : Cache C) (id_string : ℕ → String) (provider : GrantsProvider)
    (laws : CacheLaws cache) (distinct : (u v : ℕ) → id_string u ≡ id_string v → u ≡ v) where
  role_checked-Agrees :
      (c : C) (org p u : ℕ) (allowed : List String) (stop : Option Refusal)
      → Coherent C cache id_string provider c
      → Agrees C cache id_string provider laws distinct
          (role_checked C cache id_string provider org p u allowed stop c)
          (role_after p allowed stop ((direct provider).grants org u))
  unfolding role_checked
  role_checked-Agrees c org p u allowed (some why) h = (refl, h)
  role_checked-Agrees c org p u allowed none h =
      let (e, k) = grants-Agrees C cache id_string provider laws distinct c org u h in
      (ap (role_answer p allowed) e, k)

  -- Where the entries of the cache are what the provider says, CheckRole answers as the provider's
  -- memberships and projects alone decide, and leaves a cache whose entries are again what the
  -- provider says. The cache may lose entries at any time.
  pub check_role-Agrees :
      (c : C) (org p u : ℕ) (allowed : List String)
      → Coherent C cache id_string provider c
      → ((check_role C cache id_string provider c org p u allowed).0
          ≡ (direct provider).check_role org p u allowed)
        × Coherent C cache id_string provider
            (check_role C cache id_string provider c org p u allowed).1
  unfolding check_role
  check_role-Agrees c org p u allowed h =
      let (e, k) = active_project-Agrees C cache id_string provider laws distinct c org p h in
      elim (Bool-cases (p == 0)) [
        | inl whole ↦ rw whole (role_checked-Agrees c org p u allowed none h)
        | inr scoped ↦
            let (f, m) =
              role_checked-Agrees _ org p u allowed
                (refusal (active_project C cache id_string provider c org p).0) k in
            rw scoped
              (f ∙ ap (λ a. role_after p allowed (refusal a) ((direct provider).grants org u)) e, m)
      ]

module _ (C : Type 0) (cache : Cache C) (id_string : ℕ → String) (laws : CacheLaws cache) where
  -- When the memberships of one user change and no others do, InvalidateUser leaves a cache whose
  -- entries are what the provider says after the change.
  pub invalidate_user-Coherent :
      (old fresh : GrantsProvider) (c : C) (u : ℕ)
      → ((v : ℕ) → v ≢ u → fresh.list_memberships v ≡ old.list_memberships v)
      → ((p : ℕ) → fresh.get_project p ≡ old.get_project p)
      → Coherent C cache id_string old c
      → Coherent C cache id_string fresh (invalidate_user C cache id_string old c (id_string u))
  unfolding invalidate_user
  invalidate_user-Coherent old fresh c u others projects (hu, hp) = (
    λ v rows e.
        let (other, before) = laws.get-delete c _ _ _ e in
        others v (λ same. other (ap (λ x. memberships_cache_key (id_string x)) (sym same)))
        ∙ hu v rows before,
    λ p found e. let (other, before) = laws.get-delete c _ _ _ e in projects p ∙ hp p found before,
  )

  -- When one project changes and no others do, InvalidateProject leaves a cache whose entries are
  -- what the provider says after the change.
  pub invalidate_project-Coherent :
      (old fresh : GrantsProvider) (c : C) (p : ℕ)
      → ((q : ℕ) → q ≢ p → fresh.get_project q ≡ old.get_project q)
      → ((u : ℕ) → fresh.list_memberships u ≡ old.list_memberships u)
      → Coherent C cache id_string old c
      → Coherent C cache id_string fresh (invalidate_project C cache id_string old c (id_string p))
  unfolding invalidate_project
  invalidate_project-Coherent old fresh c p others users (hu, hp) = (
    λ u rows e. let (other, before) = laws.get-delete c _ _ _ e in users u ∙ hu u rows before,
    λ q found e.
        let (other, before) = laws.get-delete c _ _ _ e in
        others q (λ same. other (ap (λ x. project_cache_key (id_string x)) (sym same)))
        ∙ hp q found before,
  )
