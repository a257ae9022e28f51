-- ===== src/Orgs/Projects/Visible.antt =====
-- server/service/orgs/projects.go: which projects ListProjects shows a caller.
use trustyca.Base.{
  ℕ, String, ◌≡◌, refl, sym, ap, ◌∙◌, ◌≢◌, ◌⊎◌, ◌↔◌, inl, inr, Bool, true, false, ◌||◌, Option,
  none, some, List, [], ◌∷◌, arith, ◌==◌, filter, Any, Any-map, Any-fact, Any-filter, kept-Any,
  Bool-cases, any_iff, ==_iff,
}
use trustyca.Base.Status.{Result, ok, bind_iff, ok-injective}
use trustyca.Db.Model.{ItemStatus, status_unknown, status_eq, Org, Project}
use trustyca.Db.Tables.{State, no_error}
use trustyca.Db.Tenants.{list_projects, selects_project}
use trustyca.Authctx.Grants.{
  Grants, can_list_all_projects, granted_project_ids, is_empty, sort, insert_sorted,
}
use trustyca.Authctx.Access.{TrustyCtx, Authorizer, Answer, granted, refused, is_api_key, denied}
use trustyca.Orgs.Common.{token_org}
use trustyca.Orgs.Projects.{list_granted, list_grants, key_grants, resolved_access, list}

-- the status that a request asks for, if any
abbrev pub HasStatus : ItemStatus → Project → Type 0
HasStatus status p = (status_eq status status_unknown || status_eq p.status status) ≡ true

-- The grants reach a project: they are of the whole org, or one is of the project.
abbrev pub Reaches : Grants → ℕ → Type 0
Reaches g id =
    (can_list_all_projects (some g) ≡ true) ⊎ Any (λ i. i ≡ id) (granted_project_ids (some g))

-- A caller may see a project of the org of the token: an API key of the org sees any, one of a
-- project that project; a user what the grants reach that the authorizer gives of the user there.
abbrev pub MaySee : Authorizer → TrustyCtx → Project → Type 0
MaySee authorizer tctx p =
    (p.org_id ≡ tctx.org_id)
    × (((is_api_key tctx ≡ true) × ((tctx.project_id ≡ 0) ⊎ (tctx.project_id ≡ p.id)))
        ⊎ ((is_api_key tctx ≡ false)
            × ((g : Grants) × (authorizer.grants tctx.org_id tctx.user_id ≡ granted g)
                × Reaches g p.id)))

-- the rows that a filter leaves
filter_iff :
    (p : Project → Bool) (x : Project) (xs : List Project)
    → Any (λ y. y ≡ x) (filter p xs) ↔ (Any (λ y. y ≡ x) xs × (p x ≡ true))
filter_iff p x xs = (
  λ a.
      (let both = Any-filter (λ y. y ≡ x) p xs a in
        (
          Any-map _ (λ y. y ≡ x) (λ y h. h.0) xs both,
          Any-fact (p x ≡ true) xs
              (Any-map _ (λ y. p x ≡ true) (λ y h. ap p (sym h.0) ∙ h.1) xs both),
        )),
  λ h. kept-Any (λ y. y ≡ x) p (λ y same. ap p same ∙ h.1) xs h.0,
)

-- the predicate on the rows, for the whole org and for some projects
selects-every :
    (org : ℕ) (status : ItemStatus) (p : Project)
    → org ≢ 0
    → (selects_project org status none p ≡ true) ↔ ((p.org_id ≡ org) × HasStatus status p)
unfolding selects_project
selects-every org status p chosen =
    let some_org : (org == 0) ≡ false = ground arith in
    (λ h. (ground arith, ground arith), λ h. ground arith)

selects-some :
    (org : ℕ) (status : ItemStatus) (ids : List ℕ) (p : Project)
    → org ≢ 0
    → (selects_project org status (some ids) p ≡ true)
      ↔ ((p.org_id ≡ org) × HasStatus status p × Any (λ i. i ≡ p.id) ids)
unfolding selects_project
selects-some org status ids p chosen =
    let some_org : (org == 0) ≡ false = ground arith in
    let listed = any_iff (λ i. i == p.id) (λ i. i ≡ p.id) (λ i. ==_iff i p.id) ids in
    (
      λ h. (ground arith, ground arith, listed.0 (ground arith)),
      λ h. (let there = listed.1 h.2 in ground arith),
    )

module _ (parse_id : String → Option ℕ) (page : ℕ) (down : String → Bool) (random_alias : String)
    (valid_org : Org → Bool) (valid_project : Project → Bool) (authorizer : Authorizer) where
  list_projects-rows :
      (org : ℕ) (status : ItemStatus) (ids : Option (List ℕ)) (s : State) (found : List Project)
      → list_projects page down random_alias valid_org valid_project org status ids s ≡ ok found
      → filter (selects_project org status ids) s.projects ≡ found
  unfolding list_projects
  list_projects-rows org status ids s found h =
      let (_, _, f) =
        (bind_iff (no_error (down "ListProjects"))
            (λ _. ok (filter (selects_project org status ids) s.projects)) found).0
          h in
      ok-injective _ found f

  -- what the grants show of the table
  list_granted_iff :
      (org : ℕ) (status : ItemStatus) (g : Grants) (s : State) (found : List Project) (p : Project)
      → org ≢ 0
      → list_granted parse_id page down random_alias valid_org valid_project authorizer org status g
          s
        ≡ ok found
      → Any (λ x. x ≡ p) found
        ↔ (Any (λ x. x ≡ p) s.projects × (p.org_id ≡ org) × HasStatus status p × Reaches g p.id)
  unfolding list_granted
  list_granted_iff org status g s found p chosen h =
      elim (Bool-cases (can_list_all_projects (some g))) [
        | inl every ↦
            let rows = list_projects-rows org status none s found (rw every at h) in
            let kept = filter_iff (selects_project org status none) p s.projects in
            let test = selects-every org status p chosen in
            rw (sym rows) (
              λ a.
                  (let (there, on) = kept.0 a in
                    let (own, right) = test.0 on in (there, own, right, inl every)),
              λ (there, own, right, _). kept.1 (there, test.1 (own, right)),
            )
        | inr some_only ↦ elim (Bool-cases (is_empty (granted_project_ids (some g)))) [
          | inl nothing ↦
              let none_found = ok-injective [] found (rw (some_only, nothing) at h) in
              rw (sym none_found)
                (λ a. absurd a, λ (_, _, _, reach). unreached g p.id some_only nothing reach)
          | inr ids ↦
              let rows =
                list_projects-rows org status (some (granted_project_ids (some g))) s found
                  (rw (some_only, ids) at h) in
              let kept =
                filter_iff (selects_project org status (some (granted_project_ids (some g)))) p
                  s.projects in
              let test = selects-some org status (granted_project_ids (some g)) p chosen in
              rw (sym rows) (
                λ a.
                    (let (there, on) = kept.0 a in
                      let (own, right, reach) = test.0 on in (there, own, right, inr reach)),
                λ (there, own, right, reach).
                    kept.1 (there, test.1 (own, right, of_project g p.id some_only reach)),
              )
        ]
      ]
    where
      of_project :
          (g : Grants) (id : ℕ)
          → can_list_all_projects (some g) ≡ false
          → Reaches g id
          → Any (λ i. i ≡ id) (granted_project_ids (some g))
      of_project g id off (inl on) = absurd (let k : true ≡ false = sym on ∙ off in cc)
      of_project g id off (inr a) = a

      none_in : (ids : List ℕ) (id : ℕ) → is_empty ids ≡ true → Any (λ i. i ≡ id) ids → ⊥
      none_in [] id e a = a
      none_in (i ∷ ids) id e a = cc

      unreached :
          (g : Grants) (id : ℕ)
          → can_list_all_projects (some g) ≡ false
          → is_empty (granted_project_ids (some g)) ≡ true
          → Reaches g id
          → ⊥
      unreached g id off e reach =
          none_in (granted_project_ids (some g)) id e (of_project g id off reach)

  -- the grants of a key reach what it may see
  key_grants-Reaches :
      (tctx : TrustyCtx) (org id : ℕ)
      → Reaches (key_grants tctx org) id ↔ ((tctx.project_id ≡ 0) ⊎ (tctx.project_id ≡ id))
  unfolding key_grants can_list_all_projects granted_project_ids sort insert_sorted
  key_grants-Reaches tctx org id = elim (Bool-cases (tctx.project_id == 0)) [
    | inl wide ↦ rw wide ((λ r. inl (ground arith)), (λ o. inl refl))
    | inr one ↦ rw one (
      λ r. elim r [ inl on ↦ absurd (cc) | inr a ↦ elim a [ inl e ↦ inr e | inr n ↦ absurd n ] ],
      λ o. elim o [
        | inl e ↦ absurd (let k : (tctx.project_id == 0) ≡ true = ground arith in cc)
        | inr e ↦ inr (inl e)
      ],
    )
  ]

  -- the grants that ListProjects goes by reach what the caller may see
  list_grants-Reaches :
      (tctx : TrustyCtx) (g : Grants) (p : Project)
      → list_grants parse_id page down random_alias valid_org valid_project authorizer tctx
          tctx.org_id
        ≡ ok g
      → ((p.org_id ≡ tctx.org_id) × Reaches g p.id) ↔ MaySee authorizer tctx p
  unfolding list_grants
  list_grants-Reaches tctx g p h = elim (Bool-cases (is_api_key tctx)) [
    | inl key ↦
        let same = ok-injective (key_grants tctx tctx.org_id) g (rw key at h) in
        let reach = key_grants-Reaches tctx tctx.org_id p.id in
        rw (sym same) (
          λ (own, r). (own, inl (key, reach.0 r)),
          λ (own, o). (
            own,
            elim o [
              | inl (_, k) ↦ reach.1 k
              | inr (no_key, _) ↦ absurd (let k : true ≡ false = sym key ∙ no_key in cc)
            ],
          ),
        )
    | inr user ↦
        let answer = resolved _ g (rw user at h) in
        (
          λ (own, r). (own, inr (user, (g, answer, r))),
          λ (own, o). (
            own,
            elim o [
              | inl (key, _) ↦ absurd (let k : true ≡ false = sym key ∙ user in cc)
              | inr (_, (g', answer', r)) ↦ same_grants g' g p.id (sym answer' ∙ answer) r
            ],
          ),
        )
  ]
    where
      resolved : (a : Answer Grants) (g : Grants) → resolved_access a ≡ ok g → a ≡ granted g
      resolved (granted k) g e = ap granted (ok-injective k g e)
      resolved (refused why) g e = cc

      same_grants :
          (k g : Grants) (id : ℕ)
          → ◌≡◌ {A = Answer Grants} (granted k) (granted g)
          → Reaches k id
          → Reaches g id
      same_grants k g id e r = let same : k ≡ g = cc in rw (sym same) r

  token_org-own :
      (tctx : TrustyCtx) (org : ℕ) → token_org tctx ≡ ok org → (org ≡ tctx.org_id) × (org ≢ 0)
  unfolding token_org
  token_org-own tctx org h = elim (Bool-cases (tctx.org_id == 0)) [
    | inl none_chosen ↦ absurd (refuse (rw none_chosen at h))
    | inr chosen ↦ let same = ok-injective _ org (rw chosen at h) in (sym same, λ z. ground arith)
  ]
    where
      refuse : ◌≡◌ {A = Result ℕ} (denied "org not selected") (ok org) → ⊥
      refuse e = cc

  -- Where ListProjects succeeds, the token selects an org, and the rows that the page is cut from
  -- have exactly the projects of the table that have the status of the request, if it asks for one,
  -- and that the caller may see: projects of the org of the token, all of them for an API key of the
  -- org, its own for an API key of a project, and for a user those that the grants reach that the
  -- authorizer gives of the user in that org.
  pub list-MaySee :
      (tctx : TrustyCtx) (status : ItemStatus) (s : State) (found : List Project) (p : Project)
      → list parse_id page down random_alias valid_org valid_project authorizer tctx status s
        ≡ ok found
      → (tctx.org_id ≢ 0)
        × (Any (λ x. x ≡ p) found
            ↔ (Any (λ x. x ≡ p) s.projects × HasStatus status p × MaySee authorizer tctx p))
  unfolding list
  list-MaySee tctx status s found p h =
      let (org, own, granted_list) = (bind_iff (token_org tctx) _ found).0 h in
      let (same_org, chosen) = token_org-own tctx org own in
      let (g, read, rows) =
        (bind_iff
            (list_grants parse_id page down random_alias valid_org valid_project authorizer tctx
              org)
            _ found).0
          granted_list in
      let shown = list_granted_iff org status g s found p chosen rows in
      let may = list_grants-Reaches tctx g p (rw same_org at read) in
      (
        rw same_org at chosen,
        (
          λ a.
              (let (there, in_org, right, reach) = shown.0 a in
                (there, right, may.0 (in_org ∙ same_org, reach))),
          λ (there, right, see).
              (let (in_org, reach) = may.1 see in
                shown.1 (there, in_org ∙ sym same_org, right, reach)),
        ),
      )
