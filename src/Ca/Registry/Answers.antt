-- ===== src/Ca/Registry/Answers.antt =====
-- internal/ca/registry.go: the lookups through coherent caches, against those without a cache.

use trustyca.Base.{
  ℕ, ◌≡◌, refl, sym, ap, ◌∙◌, String, true, false, Option, none, some, Bool-cases, inl, inr,
}
use trustyca.Base.Status.{ok}
use trustyca.Db.Model.{active, status_eq}
use trustyca.Ca.Rows.{Issuer, CertificateProfile}
use trustyca.Ca.Store.{Store}
use trustyca.Ca.Issuers.{find_issuer_row, find_profile_row}
use trustyca.Ca.Registry.{ScopeKey, Authority, State}
use trustyca.Ca.Registry.Labels.{scoped, row_answer, scoped_read-found}
use trustyca.Ca.Registry.Coherent.{
  Coherent, issuer_rows, profile_rows, issuer_answer, profile_answer, FoundIssuer, FoundProfile,
}
use trustyca.Ca.Registry.Lookup.{
  issuer_read, issuer_cached, find_issuer, profile_read, profile_cached, find_profile,
}

module _ {C D E A P S : Type 0} (a : Authority C D E A P S) (s : Store) where
  issuer_read-answer :
      (k : ScopeKey) (r : State a) (o : Option Issuer)
      → (issuer_read a s k (row_answer false o) r).0 ≡ issuer_answer o
  unfolding issuer_answer
  issuer_read-answer k r none = refl
  issuer_read-answer k r (some m) = refl

  profile_read-answer :
      (k : ScopeKey) (r : State a) (o : Option CertificateProfile)
      → (profile_read a s k (row_answer false o) r).0 ≡ profile_answer o
  unfolding profile_answer
  profile_read-answer k r none = refl
  profile_read-answer k r (some p) = elim (Bool-cases (status_eq p.status active)) [
    | inl e ↦ rw e refl
    | inr e ↦ rw e refl
  ]

  active_answer :
      (p : CertificateProfile) → status_eq p.status active ≡ true → profile_answer (some p) ≡ ok p
  unfolding profile_answer
  active_answer p on = rw on refl

  issuer_cached-answer :
      (k : ScopeKey) (r : State a) (o : Option Issuer)
      → a.down "FindIssuer" ≡ false
      → ((m : Issuer) → o ≡ some m → FoundIssuer s k.org_id k.project_id k.label m)
      → (issuer_cached a s k o r).0
        ≡ issuer_answer (scoped (issuer_rows s) k.org_id k.project_id k.label)
  unfolding find_issuer_row scoped issuer_answer
  issuer_cached-answer k r (some m) up hit = ap issuer_answer (sym (hit m refl))
  issuer_cached-answer k r none up hit =
      let read =
        scoped_read-found (a.down "FindIssuer") k.project_id
          (issuer_rows s k.org_id k.project_id k.label) (issuer_rows s k.org_id 0 k.label) in
      ap (λ q. (issuer_read a s k q r).0) read
      ∙ ap
          (λ d.
            (issuer_read a s k (row_answer d (scoped (issuer_rows s) k.org_id k.project_id k.label))
              r).0)
          up
      ∙ issuer_read-answer k r (scoped (issuer_rows s) k.org_id k.project_id k.label)

  profile_cached-answer :
      (k : ScopeKey) (r : State a) (o : Option CertificateProfile)
      → a.down "FindProfile" ≡ false
      → ((p : CertificateProfile) → o ≡ some p → FoundProfile s k.org_id k.project_id k.label p)
      → (profile_cached a s k o r).0
        ≡ profile_answer (scoped (profile_rows s) k.org_id k.project_id k.label)
  unfolding find_profile_row scoped
  profile_cached-answer k r (some p) up hit =
      let (is, on) = hit p refl in sym (ap profile_answer is ∙ active_answer p on)
  profile_cached-answer k r none up hit =
      let read =
        scoped_read-found (a.down "FindProfile") k.project_id
          (profile_rows s k.org_id k.project_id k.label) (profile_rows s k.org_id 0 k.label) in
      ap (λ q. (profile_read a s k q r).0) read
      ∙ ap
          (λ d.
            (profile_read a s k
              (row_answer d (scoped (profile_rows s) k.org_id k.project_id k.label)) r).0)
          up
      ∙ profile_read-answer k r (scoped (profile_rows s) k.org_id k.project_id k.label)

  -- Where the caches are coherent with the rows and the two statements do not fail, FindIssuer and
  -- FindProfile answer as a lookup without a cache: the row of the project with the label, or that
  -- of the org where the project has none, and for a profile not found where that row is inactive.
  pub find-answers :
      (org_id project_id : ℕ) (label : String) (r : State a)
      → a.down "FindIssuer" ≡ false
      → a.down "FindProfile" ≡ false
      → Coherent a s r
      → ((find_issuer a s org_id project_id label r).0
          ≡ issuer_answer (scoped (issuer_rows s) org_id project_id label))
        × ((find_profile a s org_id project_id label r).0
            ≡ profile_answer (scoped (profile_rows s) org_id project_id label))
  unfolding find_issuer find_profile
  find-answers org_id project_id label r up up_profiles (h, i, j) =
      let k : ScopeKey = record { org_id = org_id; project_id = project_id; label = label } in
      let read = a.labels.get r.issuer_labels k in
      let read_profile = a.profiles.get r.profiles k in
      (
        issuer_cached-answer k (record r { issuer_labels = read.1 }) read.0 up (λ m e. (i k m e).0),
        profile_cached-answer k (record r { profiles = read_profile.1 }) read_profile.0 up_profiles
            (λ p e. j k p e),
      )
