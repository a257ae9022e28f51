-- ===== src/Authctx/Role.antt =====
-- internal/authctx/roles.go: the roles, their hierarchy and their names.
pub mod Names
pub mod Order
use text.Mathlib.Text.{◌==◌ as str_eq}
use trustyca.Base.{
  ℕ, String, Bool, Option, none, some, List, [], ◌∷◌, ◌==◌, if◌then◌else◌, any, find?,
}
use trustyca.Text.{trim_space, equal_fold}

-- pb.Role_Enum, by the constants of api/pb
pub data Role : Type 0 where
  none_role api_key viewer user support billing security admin owner : Role

abbrev pub number : Role → ℕ
number none_role = 0
number api_key = 1
number viewer = 2
number user = 3
number support = 4
number billing = 5
number security = 6
number admin = 7
number owner = 8

-- the comparison of two roles in Go
abbrev pub role_eq : Role → Role → Bool
role_eq r s = number r == number s

-- CanAssumeRoles
unfoldable pub can_assume_roles : Role → List Role
can_assume_roles none_role = []
can_assume_roles api_key = api_key ∷ []
can_assume_roles viewer = viewer ∷ []
can_assume_roles user = user ∷ viewer ∷ []
can_assume_roles billing = billing ∷ viewer ∷ []
can_assume_roles support = support ∷ user ∷ viewer ∷ []
can_assume_roles security = security ∷ user ∷ viewer ∷ []
can_assume_roles admin = admin ∷ security ∷ support ∷ user ∷ billing ∷ viewer ∷ []
can_assume_roles owner = owner ∷ admin ∷ security ∷ support ∷ user ∷ billing ∷ viewer ∷ []

-- RoleEnumValue
abbrev pub role_enum_value : List (String × Role)
role_enum_value =
    ("apikey", api_key)
    ∷ ("APIKey", api_key)
    ∷ ("viewer", viewer)
    ∷ ("Viewer", viewer)
    ∷ ("user", user)
    ∷ ("User", user)
    ∷ ("billing", billing)
    ∷ ("Billing", billing)
    ∷ ("security", security)
    ∷ ("Security", security)
    ∷ ("support", support)
    ∷ ("Support", support)
    ∷ ("admin", admin)
    ∷ ("Admin", admin)
    ∷ ("owner", owner)
    ∷ ("Owner", owner)
    ∷ []

-- pb.Role_Enum_name
abbrev pub role_name : Role → String
role_name none_role = "None"
role_name api_key = "APIKey"
role_name viewer = "Viewer"
role_name user = "User"
role_name support = "Support"
role_name billing = "Billing"
role_name security = "Security"
role_name admin = "Admin"
role_name owner = "Owner"

abbrev pub all_roles : List Role
all_roles = none_role ∷ api_key ∷ viewer ∷ user ∷ support ∷ billing ∷ security ∷ admin ∷ owner ∷ []

abbrev pub lookup_name : String → List (String × Role) → Option Role
lookup_name name [] = none
lookup_name name ((n, r) ∷ m) = if str_eq n name then some r else lookup_name name m

abbrev or_none : Option Role → Role
or_none none = none_role
or_none (some r) = r

unfoldable pub role_by_name : String → Option Role
role_by_name name = lookup_name name role_enum_value

-- The loop over the names has at most one match, so the order of Go's map does not matter.
unfoldable pub role_by_fold : String → Option Role
role_by_fold name = find? (λ r. equal_fold (role_name r) name) all_roles

abbrev resolve : Option Role → Option Role → Role
resolve (some r) folded = r
resolve none folded = or_none folded

unfoldable pub parse_role : String → Role
parse_role name = resolve (role_by_name name) (role_by_fold name)

-- CanAssumeRole
unfoldable pub can_assume_role : Role → List String → Bool
can_assume_role caller allowed =
    any (λ name. any (λ can. role_eq can (parse_role (trim_space name))) (can_assume_roles caller))
      allowed

-- AllowsRole
unfoldable pub allows_role : List String → Role → Bool
allows_role allowed role = any (λ name. role_eq (parse_role (trim_space name)) role) allowed

-- OrgRoles
abbrev pub org_roles : List Role
org_roles = viewer ∷ user ∷ support ∷ billing ∷ security ∷ admin ∷ owner ∷ []

-- ProjectRoles
abbrev pub project_roles : List Role
project_roles = viewer ∷ user ∷ support ∷ security ∷ admin ∷ []

unfoldable pub is_project_role : Role → Bool
is_project_role role = any (λ r. role_eq r role) project_roles

unfoldable pub is_org_role : Role → Bool
is_org_role role = any (λ r. role_eq r role) org_roles

-- pb.RoleSource_Enum
pub data RoleSource : Type 0 where
  unknown direct project : RoleSource

unfoldable pub role_source_claim : RoleSource → String
role_source_claim direct = "direct"
role_source_claim project = "project"
role_source_claim unknown = ""
