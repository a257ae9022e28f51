-- ===== src/Authctx/Scopes/Coverage.antt =====
-- What a grant of scopes covers, said without the code's tests.
use Prim.Native.String
use text.Mathlib.TextLemmas.{nil-append}
use text.Mathlib.TextEquality.{eq_iff, starts_with_iff}
use text.Mathlib.TextPositions.{starts_with-append}
use text.Mathlib.Text.{◌==◌, starts_with}
use trustyca.Base.{
  String, ◌≡◌, refl, sym, ◌↔◌, ◌⊎◌, inl, inr, true, ◌&&◌, ◌||◌, List, arith, Any, any_iff,
  Bool-cases,
}
use trustyca.Text.{trim_space, ends_with_star, drop_last}
use trustyca.Text.Laws.{ends_with_star_lem, ends_with_star-append, drop_last-append}
use trustyca.Authctx.Scopes.{scope_covers, has_scope, known_scopes, is_known_scope}

-- A granted scope covers a scope when it is that scope, or a text and "*" where the scope begins
-- with the text; "*" alone is the case of the empty text.
abbrev pub Covers : String → String → Type 0
Covers g scope =
    (g ≡ scope)
    ⊎ ((start : String) × (rest : String) × (g ≡ String.◌++◌ start "*")
        × (scope ≡ String.◌++◌ start rest))

Covers-tests : (g scope : String) → scope_covers g scope ≡ true → Covers g scope
unfolding scope_covers
Covers-tests g scope h = elim (Bool-cases (g == scope)) [
  | inl same ↦ inl ((eq_iff g scope).0 same)
  | inr other ↦ elim (Bool-cases (g == "*")) [
    | inl star ↦ inr ("", scope, (eq_iff g "*").0 star, sym (nil-append scope))
    | inr more ↦
        let starts = (starts_with_iff scope (drop_last g)).0 (ground arith) in
        inr (drop_last g, starts.0, ends_with_star_lem g (ground arith), sym starts.1)
  ]
]

tests-Covers : (g scope : String) → Covers g scope → scope_covers g scope ≡ true
unfolding scope_covers
tests-Covers g scope (inl e) = ground (arith, eq_iff g scope)
tests-Covers g scope (inr (start, rest, e, e')) =
    let ends : ends_with_star g ≡ true = rw e (ends_with_star-append start) in
    let begins : starts_with scope (drop_last g) ≡ true =
      rw (e, e', drop_last-append start) (starts_with-append start rest) in
    ground arith

pub scope_covers_iff : (g scope : String) → (scope_covers g scope ≡ true) ↔ Covers g scope
scope_covers_iff g scope = (Covers-tests g scope, tests-Covers g scope)

-- The granted scopes cover a scope exactly when one of them, trimmed, is that scope or a text and
-- "*" where the scope begins with the text.
pub has_scope_iff :
    (granted : List String) (scope : String)
    → (has_scope granted scope ≡ true) ↔ Any (λ g. Covers (trim_space g) scope) granted
unfolding has_scope
has_scope_iff granted scope =
    any_iff (λ g. scope_covers (trim_space g) scope) (λ g. Covers (trim_space g) scope)
      (λ g. scope_covers_iff (trim_space g) scope) granted

-- the test of one known scope in IsKnownScope
known_test_iff :
    (scope k : String)
    → ((k == scope || (ends_with_star scope && starts_with k (drop_last scope))) ≡ true)
      ↔ Covers scope k
known_test_iff scope k = (
  λ h. elim (Bool-cases (k == scope)) [
    | inl same ↦ inl (sym ((eq_iff k scope).0 same))
    | inr more ↦ Covers-tests scope k (unfold scope_covers in ground arith)
  ],
  λ c. elim c [
    | inl e ↦ ground (arith, eq_iff k scope)
    | inr (start, rest, e, e') ↦
        let ends : ends_with_star scope ≡ true = rw e (ends_with_star-append start) in
        let begins : starts_with k (drop_last scope) ≡ true =
          rw (e, e', drop_last-append start) (starts_with-append start rest) in
        ground arith
  ],
)

-- A scope may be given to an API key exactly when it covers one of the known scopes.
is_known_scope_iff :
    (scope : String) → (is_known_scope scope ≡ true) ↔ Any (Covers scope) known_scopes
unfolding is_known_scope
is_known_scope_iff scope =
    let known = any_iff _ (Covers scope) (known_test_iff scope) known_scopes in
    (
      λ h. elim (Bool-cases (scope == "*")) [
        | inl star ↦ inl (inr ("", "org:read", (eq_iff scope "*").0 star, refl))
        | inr more ↦ known.0 (rw more at h)
      ],
      λ a. rw (known.1 a) (ground arith),
    )
