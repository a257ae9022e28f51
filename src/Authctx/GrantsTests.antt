-- ===== src/Authctx/GrantsTests.antt =====
-- Roles, scopes and grants at concrete inputs.
use trustyca.Base.{◌≡◌, refl, ◌≢◌, inl, inr, true, some, [], ◌∷◌, arith}
use trustyca.Text.{trim_space, is_space, equal_fold, fold_code}
use trustyca.Authctx.Role.{
  Role, none_role, viewer, user, admin, owner, security, parse_role, can_assume_role,
  can_assume_roles, role_by_name, role_name, is_org_role, is_project_role,
}
use trustyca.Authctx.Role.Names.{parse_role_iff}
use trustyca.Authctx.Role.Order.{may_assume}
use trustyca.Authctx.Scopes.{has_scope}
use trustyca.Authctx.Scopes.Coverage.{has_scope_iff}
use trustyca.Authctx.Grants.{
  Grants, grants_from_memberships, highest_role, can_grant_org_role, can_grant_project_role, roles,
  first_allowed,
}
use trustyca.Authctx.Grants.Effective.{highest_role_iff}
use trustyca.Authctx.Grants.Derived.{highest_role-org_iff}
use trustyca.Authctx.Grants.Granting.{can_grant_org_role_iff, can_grant_project_role-may_assume}
use trustyca.Authctx.Tests.{
  table, table-UniqueRows, table-HasRole, admin_passes, viewer_passes, no_org_row,
}

highest_role_iff_example :
    highest_role (some (grants_from_memberships table 1 7)) 5 ("Admin" ∷ "APIKey" ∷ []) ≢ none_role
highest_role_iff_example =
    (highest_role_iff table 1 7 table-UniqueRows table-HasRole 5 ("Admin" ∷ "APIKey" ∷ [])
        (ground arith)).1
      (inr (inl ((refl, refl, refl), inr admin_passes)))

highest_role-org_iff_example :
    highest_role (some (grants_from_memberships table 1 7)) 0 ("Viewer" ∷ []) ≢ none_role
highest_role-org_iff_example =
    (highest_role-org_iff table 1 7 table-UniqueRows table-HasRole ("Viewer" ∷ [])).1
      (inr (no_org_row, inl (refl, refl), inr viewer_passes))

abbrev grants_of : Role → Grants
grants_of r = record { org_id = 1; user_id = 7; org_role = r; project_roles = [] }

is_org_role-security : is_org_role security ≡ true
unfolding is_org_role
is_org_role-security = refl

can_grant_org_role_iff_example : can_grant_org_role (some (grants_of admin)) security ≡ true
can_grant_org_role_iff_example =
    (can_grant_org_role_iff (grants_of admin) security).0.1
      (is_org_role-security, inr (refl, λ e. cc))

may_grant : can_grant_project_role (some (grants_of owner)) 5 user ≡ true
unfolding can_grant_project_role is_project_role highest_role roles first_allowed can_assume_role
    can_assume_roles parse_role role_by_name trim_space is_space
may_grant = refl

can_grant_project_role-may_assume_example :
    (is_project_role user ≡ true)
    × (may_assume (highest_role (some (grants_of owner)) 5 ("Admin" ∷ [])) user ≡ true)
can_grant_project_role-may_assume_example =
    can_grant_project_role-may_assume (grants_of owner) 5 user may_grant

top : may_assume owner admin ≡ true
unfolding may_assume can_assume_roles
top = refl

low : may_assume admin viewer ≡ true
unfolding may_assume can_assume_roles
low = refl

spelled : equal_fold (role_name security) "secURITY" ≡ true
unfolding equal_fold fold_code
spelled = refl

parse_role_iff_example : parse_role "secURITY" ≡ security
parse_role_iff_example = (parse_role_iff "secURITY" security (λ e. cc)).1 spelled

star : trim_space "*" ≡ "*"
unfolding trim_space is_space
star = refl

trimmed : trim_space " ca:*" ≡ "ca:*"
unfolding trim_space is_space
trimmed = refl

has_scope_iff_example : has_scope (" ca:*" ∷ []) "ca:read" ≡ true
has_scope_iff_example =
    (has_scope_iff (" ca:*" ∷ []) "ca:read").1 (inl (inr ("ca:", "read", rw trimmed refl, refl)))
