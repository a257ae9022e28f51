-- ===== src/Authctx/Role/Names.antt =====
-- A role is parsed from its name in any spelling of the case, and from nothing else.
use text.Mathlib.TextEquality.{eq_iff}
use trustyca.Base.{
  String, ◌≡◌, refl, sym, ◌∙◌, ap, ◌↔◌, ◌≢◌, Bool, true, not, ◌||◌, none, some, List, [], ◌∷◌,
  arith, All, all, find?, inl, inr, Option-cases,
}
use trustyca.Text.{equal_fold, fold_code}
use trustyca.Text.Laws.{equal_fold_symm, equal_fold_trans}
use trustyca.Authctx.Role.{
  Role, none_role, role_eq, role_name, role_enum_value, lookup_name, all_roles, parse_role,
  role_by_name, role_by_fold, or_none,
}

-- the entries of a table spell the names of their roles
abbrev IsSpelling : String × Role → Type 0
IsSpelling e = equal_fold (role_name e.1) e.0 ≡ true

lookup_name-IsSpelling :
    (name : String) (r : Role) (table : List (String × Role))
    → All IsSpelling table
    → lookup_name name table ≡ some r
    → IsSpelling (name, r)
lookup_name-IsSpelling name r [] h e = cc
lookup_name-IsSpelling name r ((n, s) ∷ table) h e =
    ground (arith, eq_iff n name, lookup_name-IsSpelling name r table h.1)

role_enum_value-IsSpelling : All IsSpelling role_enum_value
unfolding equal_fold fold_code
role_enum_value-IsSpelling = (
  refl,
  (
    refl,
    (
      refl,
      (
        refl,
        (
          refl,
          (
            refl,
            (refl, (refl, (refl, (refl, (refl, (refl, (refl, (refl, (refl, (refl, tt)))))))))),
          ),
        ),
      ),
    ),
  ),
)

-- To check a test at every role.
all_roles_at : (p : Role → Bool) (r : Role) → all p all_roles ≡ true → p r ≡ true
all_roles_at p none_role h = ground arith
all_roles_at p r h = ground arith

names_apart :
    (r : Role)
    → all (λ s. not (equal_fold (role_name r) (role_name s)) || role_eq r s) all_roles ≡ true
unfolding equal_fold fold_code
names_apart none_role = refl
names_apart r = refl

distinct_names : (r s : Role) → equal_fold (role_name r) (role_name s) ≡ true → r ≡ s
distinct_names r s h = ground (
  arith,
  all_roles_at (λ s. not (equal_fold (role_name r) (role_name s)) || role_eq r s) s (names_apart r),
)

-- A text spells at most one role.
spelling_unique : (name : String) (r s : Role) → IsSpelling (name, r) → IsSpelling (name, s) → r ≡ s
spelling_unique name r s h k =
    distinct_names r s (equal_fold_trans _ name _ h (equal_fold_symm _ name k))

find?_sound {ℓ} :
    {A : Type ℓ} (p : A → Bool) (xs : List A) (x : A) → find? p xs ≡ some x → p x ≡ true
find?_sound p [] x e = cc
find?_sound p (y ∷ xs) x e = ground (arith, find?_sound p xs x)

find?_hit : (p : Role → Bool) (r : Role) → p r ≡ true → find? p all_roles ≢ none
find?_hit p none_role h = ground arith
find?_hit p r h = ground arith

role_by_name_sound : (name : String) (r : Role) → role_by_name name ≡ some r → IsSpelling (name, r)
unfolding role_by_name
role_by_name_sound name r e =
    lookup_name-IsSpelling name r role_enum_value role_enum_value-IsSpelling e

role_by_fold_sound : (name : String) (r : Role) → role_by_fold name ≡ some r → IsSpelling (name, r)
unfolding role_by_fold
role_by_fold_sound name r e = find?_sound (λ s. equal_fold (role_name s) name) all_roles r e

role_by_fold_hit : (name : String) (r : Role) → IsSpelling (name, r) → role_by_fold name ≢ none
unfolding role_by_fold
role_by_fold_hit name r h = find?_hit (λ s. equal_fold (role_name s) name) r h

-- The three ways in which a name resolves.
module _ (name : String) where
  parse_role_found : (r : Role) → role_by_name name ≡ some r → parse_role name ≡ r
  unfolding parse_role
  parse_role_found r e = rw e

  parse_role_folded : role_by_name name ≡ none → parse_role name ≡ or_none (role_by_fold name)
  unfolding parse_role
  parse_role_folded e = rw e

  parse_role-IsSpelling : (r : Role) → r ≢ none_role → parse_role name ≡ r → IsSpelling (name, r)
  parse_role-IsSpelling r h e = elim (Option-cases (role_by_name name)) [
    | inr (s, found) ↦
        role_by_name_sound name r (found ∙ ap some (sym (parse_role_found s found) ∙ e))
    | inl missed ↦ elim (Option-cases (role_by_fold name)) [
      | inl off ↦ absurd (h (sym e ∙ parse_role_folded missed ∙ ap or_none off))
      | inr (s, found) ↦
          role_by_fold_sound name r
            (found ∙ ap some (sym (parse_role_folded missed ∙ ap or_none found) ∙ e))
    ]
  ]

  parse_role-eq_of_spelling : (r : Role) → IsSpelling (name, r) → parse_role name ≡ r
  parse_role-eq_of_spelling r h = elim (Option-cases (role_by_name name)) [
    | inr (s, found) ↦
        parse_role_found s found ∙ spelling_unique name s r (role_by_name_sound name s found) h
    | inl missed ↦ elim (Option-cases (role_by_fold name)) [
      | inl off ↦ absurd (role_by_fold_hit name r h off)
      | inr (s, found) ↦
          parse_role_folded missed
          ∙ ap or_none found
          ∙ spelling_unique name s r (role_by_fold_sound name s found) h
    ]
  ]

-- A text is parsed to a role other than None exactly when it spells the name of the role, in any
-- case of the letters.
pub parse_role_iff :
    (name : String) (r : Role)
    → r ≢ none_role
    → (parse_role name ≡ r) ↔ (equal_fold (role_name r) name ≡ true)
parse_role_iff name r h = (parse_role-IsSpelling name r h, parse_role-eq_of_spelling name r)
