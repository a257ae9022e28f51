-- ===== src/Ca/Registry/Profiles.antt =====
-- internal/ca/registry.go: the registration of a profile followed by InvalidateProfile of its scope
-- and label. The caches are coherent with the profiles.

use text.Mathlib.TextEquality.{eq_iff}
use mathlib.Core.Path.{subst}
use trustyca.Base.{
  ℕ, ◌≡◌, inl, inr, refl, sym, ◌∙◌, String, true, false, not, ◌||◌, List, [], ◌∷◌, ◌==◌,
  if◌then◌else◌, Bool-cases, find?,
}
use trustyca.Base.Status.{ok, ok-injective, after_check}
use trustyca.Db.Model.{active, status_number}
use trustyca.Db.Tables.{no_error}
use trustyca.Db.Scopes.{where_tenancy}
use trustyca.Db.Scopes.Tenancy.{where_tenancy_iff}
use trustyca.Ca.Rows.{CertificateProfile}
use trustyca.Ca.Store.{Store}
use trustyca.Ca.Issuers.{
  names_profile, replace_profile, put_profile, register_profile, profile_validate,
}
use trustyca.Ca.Registry.{Authority, State}
use trustyca.Ca.Registry.Labels.{invalidate_label-Fits}
use trustyca.Ca.Registry.Coherent.{CacheLaws, Coherent, IsActive, profile_rows}
use trustyca.Ca.Registry.Signs.{DistinctIds}
use trustyca.Ca.Registry.Lookup.{invalidate_profile}

pub names_profile-Within :
    (org_id project_id : ℕ) (label : String) (m : CertificateProfile)
    → names_profile org_id project_id label m ≡ true
    → (m.org_id ≡ org_id) × (m.project_id ≡ project_id) × (m.label ≡ label)
unfolding names_profile
names_profile-Within org_id project_id label m e =
    elim (Bool-cases (where_tenancy org_id project_id m.org_id m.project_id)) [
      | inl t ↦
          let (o, p) = (where_tenancy_iff org_id project_id m.org_id m.project_id).0 t in
          (o, p, (eq_iff m.label label).0 (rw t at e))
      | inr f ↦ absurd (nothing (rw f at e))
    ]
  where
    nothing : false ≡ true → ⊥
    nothing k = cc

-- a row of one scope and label is not one of another
other_scope :
    (o p : ℕ) (l : String) (n m : CertificateProfile)
    → ¬ ((o ≡ n.org_id) × (p ≡ n.project_id) × (l ≡ n.label))
    → (m.org_id ≡ n.org_id) × (m.project_id ≡ n.project_id) × (m.label ≡ n.label)
    → names_profile o p l m ≡ false
other_scope o p l n m away (g, h, k) = elim (Bool-cases (names_profile o p l m)) [
  | inr e ↦ e
  | inl e ↦
      let (org, project, label) = names_profile-Within o p l m e in
      absurd (away (sym org ∙ g, sym project ∙ h, sym label ∙ k))
]

pub names-replace :
    (o p : ℕ) (l : String) (n : CertificateProfile) (now : ℕ) (m : CertificateProfile)
    → names_profile o p l (replace_profile n now m) ≡ names_profile o p l m
unfolding names_profile replace_profile
names-replace o p l n now m = refl

find-put_profile :
    (n : CertificateProfile) (now : ℕ) (rows : List CertificateProfile) (o p : ℕ) (l : String)
    → ¬ ((o ≡ n.org_id) × (p ≡ n.project_id) × (l ≡ n.label))
    → find? (names_profile o p l) rows ≡ find? (names_profile o p l) (put_profile n now rows)
find-put_profile n now [] o p l away =
    let off = other_scope o p l n n away (refl, refl, refl) in rw off refl
find-put_profile n now (m ∷ rows) o p l away =
    elim (Bool-cases (names_profile n.org_id n.project_id n.label m)) [
      | inl e ↦
          let off =
            other_scope o p l n m away (names_profile-Within n.org_id n.project_id n.label m e) in
          rw (e, off, names-replace o p l n now m ∙ off) refl
      | inr e ↦ rw e (elim (Bool-cases (names_profile o p l m)) [
        | inl k ↦ rw k refl
        | inr k ↦ rw k (find-put_profile n now rows o p l away)
      ])
    ]

module _ {C D E A P S : Type 0} (a : Authority C D E A P S) (laws : CacheLaws a) where
  -- The registration of a new profile or of a new version of one, in any status, followed by
  -- InvalidateProfile of its scope and label, leaves the caches coherent with the rows.
  pub register_profile-Coherent :
      (now : ℕ) (m row : CertificateProfile) (s t : Store) (r : State a)
      → DistinctIds s
      → register_profile a.down now m s ≡ ok (row, t)
      → Coherent a s r
      → DistinctIds t × Coherent a t (invalidate_profile a m.org_id m.project_id m.label r)
  unfolding register_profile invalidate_profile
  register_profile-Coherent now m row s t r distinct e (h, i, j) =
      let im : CertificateProfile = record m {
        id = if m.id == 0 then s.next_id else m.id;
        status = if status_number m.status == 0 then active else m.status;
        updated_at = now;
      } in
      let done =
        after_check (no_error (not (profile_validate im) || a.down "RegisterProfile")) _ (row, t)
          e in
      subst
        (λ q.
          DistinctIds q.1 × Coherent a q.1 (invalidate_profile a m.org_id m.project_id m.label r))
        (ok-injective _ _ done)
        (
          distinct,
          (
            h,
            i,
            invalidate_label-Fits a.profiles laws.2 IsActive (profile_rows s) _ m.org_id
                m.project_id m.label r.profiles (find-put_profile im now s.profiles) j,
          ),
        )
