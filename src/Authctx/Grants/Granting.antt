-- ===== src/Authctx/Grants/Granting.antt =====
-- Which roles a member may grant to others.
use trustyca.Base.{
  ℕ, ◌≡◌, refl, ◌↔◌, ◌≢◌, ◌⊎◌, inl, inr, Bool, true, false, not, ◌&&◌, ◌||◌, some, List, [], ◌∷◌,
  arith, Bool-cases, if◌then◌else◌,
}
use trustyca.Authctx.Role.{
  Role, none_role, api_key, viewer, user, support, billing, security, admin, owner, role_eq,
  can_assume_role, can_assume_roles, parse_role, role_by_name, is_org_role, is_project_role,
}
use trustyca.Text.{trim_space, is_space}
use trustyca.Authctx.Role.Order.{may_assume}
use trustyca.Authctx.Grants.{
  Grants, can_grant_org_role, can_grant_project_role, highest_role, is_none, first_allowed, roles,
}

is_admin : Role → Bool
is_admin r = role_eq r admin || role_eq r owner

parse_role-admin : parse_role (trim_space "Admin") ≡ admin
unfolding parse_role role_by_name trim_space is_space
parse_role-admin = refl

-- Only Admin and Owner pass for Admin.
can_assume_role-admin : (r : Role) → can_assume_role r ("Admin" ∷ []) ≡ is_admin r
unfolding can_assume_role can_assume_roles is_admin parse_role role_by_name trim_space is_space
can_assume_role-admin none_role = refl
can_assume_role-admin api_key = refl
can_assume_role-admin viewer = refl
can_assume_role-admin user = refl
can_assume_role-admin support = refl
can_assume_role-admin billing = refl
can_assume_role-admin security = refl
can_assume_role-admin admin = refl
can_assume_role-admin owner = refl

org_verdict : Role → Role → Bool
unfolding is_admin is_org_role
org_verdict own role =
    if not (is_org_role role) || is_none own
    then false
    else if role_eq own owner
    then true
    else not (role_eq role owner) && is_admin own

MayGrant : Role → Role → Type 0
MayGrant own role = (is_org_role role ≡ true) × ((own ≡ owner) ⊎ ((own ≡ admin) × (role ≢ owner)))

org_verdict-MayGrant : (own role : Role) → org_verdict own role ≡ true → MayGrant own role
unfolding org_verdict MayGrant
org_verdict-MayGrant own role h = elim (Bool-cases (role_eq own owner)) [
  | inl e ↦ (ground arith, inl (ground arith))
  | inr e ↦ (ground arith, inr (ground arith, λ k. ground arith))
]

MayGrant-org_verdict : (own role : Role) → MayGrant own role → org_verdict own role ≡ true
unfolding org_verdict MayGrant
MayGrant-org_verdict own role (o, h) = elim h [
  | inl e ↦ ground arith
  | inr (e, k) ↦ elim (Bool-cases (role_eq role owner)) [
    | inl q ↦ absurd (k (ground arith))
    | inr q ↦ ground arith
  ]
]

org_verdict-may_assume :
    (own role : Role) → org_verdict own role ≡ true → may_assume own role ≡ true
unfolding org_verdict may_assume can_assume_roles
org_verdict-may_assume own role h = ground arith

can_grant_org_role-org_verdict :
    (g : Grants) (role : Role) → can_grant_org_role (some g) role ≡ org_verdict g.org_role role
unfolding can_grant_org_role org_verdict
can_grant_org_role-org_verdict g role = rw (can_assume_role-admin g.org_role) refl

first_allowed-admin :
    (rs : List Role) (r : Role)
    → first_allowed ("Admin" ∷ []) rs ≡ r
    → (is_none r || is_admin r) ≡ true
unfolding first_allowed
first_allowed-admin [] r e = unfold is_admin in ground arith
first_allowed-admin (x ∷ rs) r e = elim (Bool-cases (is_admin x)) [
  | inl here ↦ let same : x ≡ r = ground (arith, can_assume_role-admin x) in ground arith
  | inr off ↦ first_allowed-admin rs r (ground (arith, can_assume_role-admin x))
]

project_role-may_assume :
    (own role : Role)
    → is_project_role role ≡ true
    → is_admin own ≡ true
    → may_assume own role ≡ true
unfolding is_project_role is_admin may_assume can_assume_roles
project_role-may_assume own role h k = ground arith

-- An owner may grant every role of an org, an admin every one but Owner, and nobody else any; so
-- nobody grants a role that is not their own to assume.
pub can_grant_org_role_iff :
    (g : Grants) (role : Role)
    → ((can_grant_org_role (some g) role ≡ true) ↔ (
        (is_org_role role ≡ true)
        × ((g.org_role ≡ owner) ⊎ ((g.org_role ≡ admin) × (role ≢ owner)))))
      × (can_grant_org_role (some g) role ≡ true → may_assume g.org_role role ≡ true)
unfolding MayGrant
can_grant_org_role_iff g role = rw (can_grant_org_role-org_verdict g role) (
  (org_verdict-MayGrant g.org_role role, MayGrant-org_verdict g.org_role role),
  org_verdict-may_assume g.org_role role,
)

-- A member who may grant a role in a project has, at that project, a role that may assume it, and
-- the role is one of a project.
pub can_grant_project_role-may_assume :
    (g : Grants) (p : ℕ) (role : Role)
    → can_grant_project_role (some g) p role ≡ true
    → (is_project_role role ≡ true)
      × (may_assume (highest_role (some g) p ("Admin" ∷ [])) role ≡ true)
unfolding can_grant_project_role
can_grant_project_role-may_assume g p role h =
    let assumed = first_allowed-admin (roles (some g) p) _ refl in
    let of_project : is_project_role role ≡ true = ground arith in
    (
      of_project,
      project_role-may_assume _ role of_project (unfold highest_role in ground (arith, assumed)),
    )
