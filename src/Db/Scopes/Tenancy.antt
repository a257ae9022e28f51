-- ===== src/Db/Scopes/Tenancy.antt =====
-- Which rows the predicates on the org and the project let through.
use trustyca.Base.{
  ℕ, ◌≡◌, ◌↔◌, ◌⊎◌, inl, inr, Bool, true, false, some, List, arith, ◌==◌, Any, any_iff, ==_iff,
  Bool-cases,
}
use trustyca.Base.Status.{Result, Done, ok, err, wrapped}
use trustyca.Db.Model.{undefined}
use trustyca.Db.Scopes.{
  set_project_scope, set_visible_projects, where_project_scope, set_org_scope, where_org_scope,
  where_tenancy, check_list_scope,
}

-- The predicate of an exact tenancy lets through the rows of that org and that project and no
-- others, where the id 0 is NULL: the platform, or the org-wide scope.
pub where_tenancy_iff :
    (org_id project_id o p : ℕ)
    → (where_tenancy org_id project_id o p ≡ true) ↔ ((o ≡ org_id) × (p ≡ project_id))
unfolding where_tenancy set_org_scope where_org_scope set_project_scope where_project_scope
where_tenancy_iff org_id project_id o p = elim (Bool-cases (org_id == 0)) [
  | inl a ↦ elim (Bool-cases (project_id == 0)) [
    | inl b ↦ (λ h. (ground arith, ground arith), λ h. ground arith)
    | inr b ↦ (λ h. (ground arith, ground arith), λ h. ground arith)
  ]
  | inr a ↦ elim (Bool-cases (project_id == 0)) [
    | inl b ↦ (λ h. (ground arith, ground arith), λ h. ground arith)
    | inr b ↦ (λ h. (ground arith, ground arith), λ h. ground arith)
  ]
]

-- A list whose request passes the check of its scope, and that is not of all orgs, lets through
-- rows of one org only: the org of the request, or the platform where the request names none.
pub check_list_scope-where_org_scope :
    (org_id : ℕ) (platform : Bool) (o : ℕ)
    → check_list_scope org_id platform false ≡ ok tt
    → where_org_scope (set_org_scope org_id platform) o ≡ true
    → o ≡ org_id
unfolding check_list_scope set_org_scope where_org_scope
check_list_scope-where_org_scope org_id platform o checked h = elim (Bool-cases (org_id == 0)) [
  | inr named ↦ ground arith
  | inl unnamed ↦ elim (Bool-cases platform) [
    | inl on_platform ↦ ground arith
    | inr nowhere ↦ absurd (refuse (rw (unnamed, nowhere) at checked))
  ]
]
  where
    refuse :
        ◌≡◌ {A = Result Done}
          (err (wrapped "org scope is required: set OrgID, Platform or AllOrgs"))
          (ok tt)
        → ⊥
    refuse e = cc

-- A list of the visible projects that records no other predicate on the project lets through the
-- org-wide rows and the rows of those projects.
set_visible_projects_iff :
    (ids : List ℕ) (p : ℕ)
    → (where_project_scope (set_visible_projects (set_project_scope 0 undefined) (some ids)) p
        ≡ true)
      ↔ ((p ≡ 0) ⊎ Any (λ i. i ≡ p) ids)
unfolding where_project_scope set_visible_projects set_project_scope
set_visible_projects_iff ids p =
    let (to, from) = any_iff (λ i. i == p) (λ i. i ≡ p) (λ i. ==_iff i p) ids in
    (
      λ h. elim (Bool-cases (p == 0)) [
        | inl wide ↦ inl (ground arith)
        | inr scoped ↦ inr (to (ground arith))
      ],
      λ h. elim h [ inl e ↦ ground arith | inr a ↦ let k = from a in ground arith ],
    )
