-- ===== src/Ca/Registry/Resolved.antt =====
-- internal/ca/registry.go: what a resolution is, from coherent caches.
use mathlib.Core.Path.{subst}
use text.Mathlib.Text.{◌==◌ as str_eq}
use trustyca.Base.{
  ℕ, ◌≡◌, ◌⊎◌, inl, inr, String, true, false, Option, none, some, ◌==◌, Bool-cases, Any, Any-map,
  Any-fact, find?-Any,
}
use trustyca.Db.Scopes.{where_tenancy}
use trustyca.Db.Scopes.Tenancy.{where_tenancy_iff}
use trustyca.Ca.Rows.{Issuer}
use trustyca.Ca.Store.{Store}
use trustyca.Ca.Issuers.{names_issuer}
use trustyca.Ca.Registry.Labels.{scoped, or_org_wide}
use trustyca.Ca.Registry.Coherent.{issuer_rows}

module _ {V : Type 0} where
  or_org_wide-cases :
      (p : ℕ) (x y : Option V) (v : V) → or_org_wide p x y ≡ some v → (x ≡ some v) ⊎ (y ≡ some v)
  or_org_wide-cases p (some x) y v e = inl e
  or_org_wide-cases p none y v e = elim (Bool-cases (p == 0)) [
    | inl z ↦ absurd (nothing (rw z at e))
    | inr n ↦ inr (rw n at e)
  ]
    where
      nothing : ◌≡◌ {A = Option V} none (some v) → ⊥
      nothing k = cc

-- a row of the org, of the project or org-wide, with the label
abbrev pub Within : ℕ → ℕ → String → Issuer → Type 0
Within org_id project_id label m =
    (m.org_id ≡ org_id)
    × ((m.project_id ≡ project_id) ⊎ (m.project_id ≡ 0))
    × (str_eq m.label label ≡ true)

pub names_issuer-Within :
    (org_id project_id : ℕ) (label : String) (m : Issuer)
    → names_issuer org_id project_id label m ≡ true
    → (m.org_id ≡ org_id) × (m.project_id ≡ project_id) × (str_eq m.label label ≡ true)
unfolding names_issuer
names_issuer-Within org_id project_id label m e =
    elim (Bool-cases (where_tenancy org_id project_id m.org_id m.project_id)) [
      | inl t ↦
          let (o, p) = (where_tenancy_iff org_id project_id m.org_id m.project_id).0 t in
          (o, p, rw t at e)
      | inr f ↦ absurd (nothing (rw f at e))
    ]
  where
    nothing : false ≡ true → ⊥
    nothing k = cc

module _ (s : Store) where
  named :
      (org_id project_id : ℕ) (label : String) (m : Issuer)
      → issuer_rows s org_id project_id label ≡ some m
      → Any (λ i. (i ≡ m) × (names_issuer org_id project_id label m ≡ true)) s.issuers
  named org_id project_id label m e =
      Any-map _ _ (λ i (h, k). (h, subst (λ j. names_issuer org_id project_id label j ≡ true) h k))
        s.issuers (find?-Any (names_issuer org_id project_id label) s.issuers m e)

  -- what a label resolves to is a row of the table
  pub scoped-Any :
      (org_id project_id : ℕ) (label : String) (m : Issuer)
      → scoped (issuer_rows s) org_id project_id label ≡ some m
      → Any (λ i. i ≡ m) s.issuers
  unfolding scoped
  scoped-Any org_id project_id label m e =
      elim (or_org_wide-cases project_id (issuer_rows s org_id project_id label)
        (issuer_rows s org_id 0 label) m e) [
          | inl own ↦ Any-map _ _ (λ i h. h.0) s.issuers (named org_id project_id label m own)
          | inr wide ↦ Any-map _ _ (λ i h. h.0) s.issuers (named org_id 0 label m wide)
        ]

  -- of the org, and of the project or org-wide
  pub scoped-Within :
      (org_id project_id : ℕ) (label : String) (m : Issuer)
      → scoped (issuer_rows s) org_id project_id label ≡ some m
      → Within org_id project_id label m
  unfolding scoped
  scoped-Within org_id project_id label m e =
      elim (or_org_wide-cases project_id (issuer_rows s org_id project_id label)
        (issuer_rows s org_id 0 label) m e) [
          | inl own ↦
              let (o, p, l) = names_issuer-Within org_id project_id label m (
                Any-fact _ s.issuers
                  (Any-map _ _ (λ i h. h.1) s.issuers (named org_id project_id label m own))) in
              (o, inl p, l)
          | inr wide ↦
              let (o, p, l) = names_issuer-Within org_id 0 label m (
                Any-fact _ s.issuers
                  (Any-map _ _ (λ i h. h.1) s.issuers (named org_id 0 label m wide))) in
              (o, inr p, l)
        ]
