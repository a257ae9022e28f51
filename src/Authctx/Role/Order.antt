-- ===== src/Authctx/Role/Order.antt =====
-- The hierarchy of the roles is a partial order, and passing a method's roles is monotone in it.
use trustyca.Base.{
  String, ◌≡◌, ◌↔◌, ◌≢◌, Bool, true, false, List, [], ◌∷◌, arith, any, Any, any_iff, Any-map,
}
use trustyca.Text.{trim_space}
use trustyca.Authctx.Role.{
  Role, none_role, api_key, role_eq, can_assume_roles, parse_role, can_assume_role, allows_role,
}

-- one entry of the hierarchy
unfoldable pub may_assume : Role → Role → Bool
unfolding can_assume_roles
may_assume caller role = any (λ can. role_eq can role) (can_assume_roles caller)

-- Every role but None may assume itself, the relation is transitive, and two roles that may
-- assume one another are one; so the hierarchy is a partial order on the roles other than None.
may_assume_order :
    (a b c : Role)
    → (a ≢ none_role → may_assume a a ≡ true)
      × (may_assume a b ≡ true → may_assume b c ≡ true → may_assume a c ≡ true)
      × (may_assume a b ≡ true → may_assume b a ≡ true → a ≡ b)
unfolding may_assume
may_assume_order a b c = (λ h. ground arith, λ h k. ground arith, λ h k. ground arith)

may_assume_trans :
    (a b c : Role) → may_assume a b ≡ true → may_assume b c ≡ true → may_assume a c ≡ true
may_assume_trans a b c = (may_assume_order a b c).1

-- None assumes nothing, an API key assumes APIKey alone, and no other role assumes APIKey.
pub may_assume_separate :
    (a b : Role)
    → may_assume a b ≡ true
    → (b ≢ none_role) × (a ≢ none_role) × ((a ≡ api_key) ↔ (b ≡ api_key))
unfolding may_assume
may_assume_separate a b h = (ground arith, ground arith, ground arith)

-- The roles that a method's list names.
abbrev pub Names : Role → String → Type 0
Names caller name = may_assume caller (parse_role (trim_space name)) ≡ true

pub can_assume_role_iff :
    (caller : Role) (allowed : List String)
    → (can_assume_role caller allowed ≡ true) ↔ Any (Names caller) allowed
unfolding can_assume_role may_assume
can_assume_role_iff caller =
    any_iff
      (λ name. any (λ can. role_eq can (parse_role (trim_space name))) (can_assume_roles caller))
      (Names caller) (λ name. (λ h. h, λ h. h))

-- A caller whose role may assume another passes every list of allowed roles that the other passes.
can_assume_role_mono :
    (a b : Role) (allowed : List String)
    → may_assume a b ≡ true
    → can_assume_role b allowed ≡ true
    → can_assume_role a allowed ≡ true
can_assume_role_mono a b allowed h k = (can_assume_role_iff a allowed).1 (
    Any-map (Names b) (Names a) (λ name p. may_assume_trans a b _ h p) allowed
      ((can_assume_role_iff b allowed).0 k))

-- A method admits an API key exactly when its list names APIKey itself.
allows_role-api_key :
    (allowed : List String) → allows_role allowed api_key ≡ can_assume_role api_key allowed
unfolding allows_role can_assume_role can_assume_roles
allows_role-api_key [] = ground arith
allows_role-api_key (name ∷ allowed) = ground (arith, allows_role-api_key allowed)

pub can_assume_role-none : (allowed : List String) → can_assume_role none_role allowed ≡ false
unfolding can_assume_role can_assume_roles
can_assume_role-none [] = ground arith
can_assume_role-none (name ∷ allowed) = can_assume_role-none allowed
