-- ===== src/Authctx/Authorizer/Coherence.antt =====
-- internal/authctx/authorizer.go: the entries of the cache against the provider.
use text.Mathlib.TextLemmas.{append_cancel_left}
use trustyca.Base.{
  ℕ, String, ◌≡◌, refl, sym, ap, ◌∙◌, ◌≢◌, ◌⊎◌, inl, inr, Option, none, some, List, ◌==◌,
  if◌then◌else◌, Bool-cases,
}
use trustyca.Db.Model.{MembershipInfo, Project}
use trustyca.Authctx.Access.{refused, org_not_selected}
use trustyca.Authctx.Authorizer.{
  GrantsProvider, Fetched, fetched, missing, failed, Entry, memberships, project, Cache,
  memberships_cache_key, project_cache_key, as_memberships, as_project, fill_memberships,
  fill_project, memberships_read, project_read, get_memberships, get_project, grants,
  active_project, grants_answer, project_answer,
}

-- The documented behaviour of a cache: an entry is the one that was set last or is absent (it
-- expires, or was never stored), and a deleted key has none.
pub record CacheLaws {C : Type 0} (cache : Cache C) : Type 0 where
  pub get-set :
      (c : C) (k j : String) (v w : Entry)
      → cache.get (cache.set c k v) j ≡ some w
      → ((k ≡ j) × (v ≡ w)) ⊎ (cache.get c j ≡ some w)
  pub get-delete :
      (c : C) (k j : String) (w : Entry)
      → cache.get (cache.delete c k) j ≡ some w
      → (k ≢ j) × (cache.get c j ≡ some w)

memberships_cache_key-injective :
    (s t : String) → memberships_cache_key s ≡ memberships_cache_key t → s ≡ t
unfolding memberships_cache_key
memberships_cache_key-injective s t e = append_cancel_left "/memberships/" s t e

project_cache_key-injective : (s t : String) → project_cache_key s ≡ project_cache_key t → s ≡ t
unfolding project_cache_key
project_cache_key-injective s t e = append_cancel_left "/projects/" s t e

memberships-some :
    (rows found : List MembershipInfo)
    → memberships rows ≡ memberships found
    → some rows ≡ some found
memberships-some rows found e = cc

project-fetched : (p q : Project) → project p ≡ project q → fetched p ≡ fetched q
project-fetched p q e = cc

as_memberships-some :
    (o : Option Entry) (rows : List MembershipInfo)
    → as_memberships o ≡ some rows
    → o ≡ some (memberships rows)
unfolding as_memberships
as_memberships-some none rows e = cc
as_memberships-some (some (memberships own)) rows e = cc
as_memberships-some (some (project _)) rows e = cc

as_project-some :
    (o : Option Entry) (found : Project) → as_project o ≡ some found → o ≡ some (project found)
unfolding as_project
as_project-some none found e = cc
as_project-some (some (memberships _)) found e = cc
as_project-some (some (project p)) found e = cc

module _ (C : Type 0) (cache : Cache C) (id_string : ℕ → String) where
  -- every entry is what the provider says
  abbrev pub CoherentUsers : GrantsProvider → C → Type 0
  CoherentUsers provider c =
      (u : ℕ) (rows : List MembershipInfo)
      → cache.get c (memberships_cache_key (id_string u)) ≡ some (memberships rows)
      → provider.list_memberships u ≡ some rows

  abbrev pub CoherentProjects : GrantsProvider → C → Type 0
  CoherentProjects provider c =
      (p : ℕ) (found : Project)
      → cache.get c (project_cache_key (id_string p)) ≡ some (project found)
      → provider.get_project p ≡ fetched found

  abbrev pub Coherent : GrantsProvider → C → Type 0
  Coherent provider c = CoherentUsers provider c × CoherentProjects provider c

module _ (C : Type 0) (cache : Cache C) (id_string : ℕ → String) (provider : GrantsProvider)
    (laws : CacheLaws cache) (distinct : (u v : ℕ) → id_string u ≡ id_string v → u ≡ v) where
  abbrev Fits : C → Type 0
  Fits c = Coherent C cache id_string provider c

  set-memberships :
      (c : C) (u : ℕ) (rows : List MembershipInfo)
      → provider.list_memberships u ≡ some rows
      → Fits c
      → Fits (cache.set c (memberships_cache_key (id_string u)) (memberships rows))
  set-memberships c u rows read (hu, hp) = (
    λ v found e. elim (laws.get-set c _ _ _ _ e) [
      | inl (k, w) ↦
          let same = distinct u v (memberships_cache_key-injective _ _ k) in
          sym (ap provider.list_memberships same) ∙ read ∙ memberships-some rows found w
      | inr old ↦ hu v found old
    ],
    λ p found e. elim (laws.get-set c _ _ _ _ e) [ inl (k, w) ↦ cc | inr old ↦ hp p found old ],
  )

  set-project :
      (c : C) (p : ℕ) (found : Project)
      → provider.get_project p ≡ fetched found
      → Fits c
      → Fits (cache.set c (project_cache_key (id_string p)) (project found))
  set-project c p found read (hu, hp) = (
    λ u rows e. elim (laws.get-set c _ _ _ _ e) [ inl (k, w) ↦ cc | inr old ↦ hu u rows old ],
    λ q other e. elim (laws.get-set c _ _ _ _ e) [
      | inl (k, w) ↦
          let same = distinct p q (project_cache_key-injective _ _ k) in
          sym (ap provider.get_project same) ∙ read ∙ project-fetched found other w
      | inr old ↦ hp q other old
    ],
  )

  fill_memberships-Coherent :
      (c : C) (u : ℕ) (o : Option (List MembershipInfo))
      → provider.list_memberships u ≡ o
      → Fits c
      → Fits (fill_memberships C cache id_string provider c u o)
  unfolding fill_memberships
  fill_memberships-Coherent c u none read h = h
  fill_memberships-Coherent c u (some rows) read h = set-memberships c u rows read h

  fill_project-Coherent :
      (c : C) (p : ℕ) (o : Fetched)
      → provider.get_project p ≡ o
      → Fits c
      → Fits (fill_project C cache id_string provider c p o)
  unfolding fill_project
  fill_project-Coherent c p missing read h = h
  fill_project-Coherent c p (failed _) read h = h
  fill_project-Coherent c p (fetched found) read h = set-project c p found read h

  -- an operation gives the answer of the provider, and leaves the cache coherent
  abbrev pub Agrees : {A : Type 0} → A × C → A → Type 0
  Agrees r answer = (r.0 ≡ answer) × Fits r.1

  memberships_read-Agrees :
      (c : C) (u : ℕ) (o : Option (List MembershipInfo))
      → as_memberships (cache.get c (memberships_cache_key (id_string u))) ≡ o
      → Fits c
      → Agrees (memberships_read C cache id_string provider c u o) (provider.list_memberships u)
  unfolding memberships_read
  memberships_read-Agrees c u none e h = (refl, fill_memberships-Coherent c u _ refl h)
  memberships_read-Agrees c u (some rows) e h = (sym (h.0 u rows (as_memberships-some _ rows e)), h)

  project_read-Agrees :
      (c : C) (p : ℕ) (o : Option Project)
      → as_project (cache.get c (project_cache_key (id_string p))) ≡ o
      → Fits c
      → Agrees (project_read C cache id_string provider c p o) (provider.get_project p)
  unfolding project_read
  project_read-Agrees c p none e h = (refl, fill_project-Coherent c p _ refl h)
  project_read-Agrees c p (some found) e h = (sym (h.1 p found (as_project-some _ found e)), h)

  pub grants-Agrees :
      (c : C) (org u : ℕ)
      → Fits c
      → Agrees (grants C cache id_string provider c org u) (
          if org == 0
          then refused org_not_selected
          else grants_answer org u (provider.list_memberships u))
  unfolding grants get_memberships
  grants-Agrees c org u h =
      let (e, k) = memberships_read-Agrees c u _ refl h in
      elim (Bool-cases (org == 0)) [
        | inl none_selected ↦ rw none_selected (refl, h)
        | inr selected ↦ rw selected (ap (grants_answer org u) e, k)
      ]

  pub active_project-Agrees :
      (c : C) (org p : ℕ)
      → Fits c
      → Agrees (active_project C cache id_string provider c org p) (
          if org == 0
          then refused org_not_selected
          else project_answer org (provider.get_project p))
  unfolding active_project get_project
  active_project-Agrees c org p h =
      let (e, k) = project_read-Agrees c p _ refl h in
      elim (Bool-cases (org == 0)) [
        | inl none_selected ↦ rw none_selected (refl, h)
        | inr selected ↦ rw selected (ap (project_answer org) e, k)
      ]
