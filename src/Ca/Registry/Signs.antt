-- ===== src/Ca/Registry/Signs.antt =====
-- internal/ca/registry.go: what Resolve answers, from coherent caches.
use mathlib.Core.Path.{subst}
use text.Mathlib.Text.{◌==◌ as str_eq}
use trustyca.Base.{
  ℕ, ◌≡◌, inl, inr, refl, sym, ap, ◌∙◌, String, true, Option, none, some, ◌==◌, ==_iff, Bool-cases,
  Any,
}
use trustyca.Base.Status.{ok, ok-injective}
use trustyca.Ca.Rows.{Issuer, CertificateProfile, issuer_status_number}
use trustyca.Ca.Store.{Store}
use trustyca.Ca.Registry.{
  IssuerEntry, Settings, ResolveRequest, Resolution, Authority, State, profile_binds,
  requested_label,
}
use trustyca.Ca.Registry.Coherent.{
  Gives, fails, chain-Gives, CacheLaws, Current, Coherent, FoundIssuer, FoundProfile,
  find_issuer-Gives, find_profile-Gives,
}
use trustyca.Ca.Registry.Entries.{entry-Gives, called}
use trustyca.Ca.Registry.Resolved.{Within, scoped-Any, scoped-Within}
use trustyca.Ca.Registry.Build.{entry}
use trustyca.Ca.Registry.Lookup.{find_profile, find_issuer}
use trustyca.Ca.Registry.Resolve.{
  profile_added, added_to, add_profile, resolved, resolve_row, resolve,
}

-- no two rows have the same ID
abbrev pub DistinctIds : Store → Type 0
DistinctIds s =
    (i j : Issuer) → Any (λ k. k ≡ i) s.issuers → Any (λ k. k ≡ j) s.issuers → i.id ≡ j.id → i ≡ j

module _ {C D E A P S : Type 0} (a : Authority C D E A P S) (s : Store) where
  -- the profile that the request names, and the issuer that the profile and the request name: it is
  -- active, of the org, of the project or org-wide, and binds the profile with its settings
  abbrev pub Binds : CertificateProfile → Issuer → Type 0
  Binds p row =
      (cfg : Settings) × (a.settings row ≡ ok cfg)
      × (profile_binds p row cfg.allowed_profiles ≡ true)

  abbrev pub SignsAs : ResolveRequest → CertificateProfile → Issuer → Type 0
  SignsAs req p row =
      FoundProfile s req.org_id req.project_id req.profile p
      × ((label : String) × (requested_label p req.issuer_label ≡ ok label)
          × FoundIssuer s req.org_id req.project_id label row
          × Within req.org_id req.project_id label row)
      × (issuer_status_number row.status ≡ 2)
      × Binds p row

  abbrev pub Signs : ResolveRequest → Resolution P → Type 0
  Signs req res = SignsAs req res.profile_row res.row

  -- the profile and the row of a resolution
  abbrev Names : CertificateProfile → Issuer → Resolution P → Type 0
  Names p row res =
      (res.profile_row ≡ p) × (res.row ≡ row) × (issuer_status_number row.status ≡ 2) × Binds p row

  Names-Signs :
      (req : ResolveRequest) (p : CertificateProfile) (label : String) (row : Issuer)
      (res : Resolution P)
      → FoundProfile s req.org_id req.project_id req.profile p
      → requested_label p req.issuer_label ≡ ok label
      → FoundIssuer s req.org_id req.project_id label row
      → Names p row res
      → Signs req res
  Names-Signs req p label row res found asked is (same_profile, same_row, active, binds) =
      subst (λ q. SignsAs req q res.row) (sym same_profile)
        (subst (SignsAs req p) (sym same_row) (
          found,
          (label, asked, is, scoped-Within s req.org_id req.project_id label row is),
          active,
          binds,
        ))

  module _ (laws : CacheLaws a) (meanwhile : State a → State a)
      (kept : (r : State a) → Coherent a s r → Coherent a s (meanwhile r)) where
    -- adding a profile to an authority issuer changes no cache
    profile_added-Gives :
        (p : CertificateProfile) (h : ℕ) (i : A) (o : Option P) (r : State a)
        → Coherent a s r
        → Gives (Coherent a s) (λ _. Unit) (profile_added a s meanwhile p h i o r)
    profile_added-Gives p h i (some ap) r c = (c, λ x e. tt)
    profile_added-Gives p h i none r c =
        chain-Gives (Coherent a s) _ _ (a.authority_profile p, r) _
          (called a laws s (a.authority_profile p) r c) (λ ap q _ k. (k, λ x e. tt))

    added_to-Gives :
        (p : CertificateProfile) (h : ℕ) (o : Option A) (r : State a)
        → Coherent a s r
        → Gives (Coherent a s) (λ _. Unit) (added_to a s meanwhile p h o r)
    added_to-Gives p h none r c = fails (Coherent a s) _ _ r c
    added_to-Gives p h (some i) r c = profile_added-Gives p h i _ r c

    add_profile-Gives :
        (p : CertificateProfile) (h : ℕ) (r : State a)
        → Coherent a s r
        → Gives (Coherent a s) (λ _. Unit) (add_profile a s meanwhile p h r)
    unfolding add_profile
    add_profile-Gives p h r c = added_to-Gives p h _ r c

    row-Binds :
        (p : CertificateProfile) (row : Issuer) (e : IssuerEntry) (cfg : Settings)
        → e.row ≡ row
        → a.settings e.row ≡ ok cfg
        → e.allowed ≡ cfg.allowed_profiles
        → profile_binds p e.row e.allowed ≡ true
        → Binds p row
    row-Binds p row e cfg is set allowed b = (
      cfg,
      sym (ap a.settings is) ∙ set,
      sym (ap (λ i. profile_binds p i cfg.allowed_profiles) is)
          ∙ sym (ap (profile_binds p e.row) allowed)
          ∙ b,
    )

    resolved-Gives :
        (p : CertificateProfile) (row : Issuer) (e : IssuerEntry) (r : State a)
        → e.row ≡ row
        → issuer_status_number row.status ≡ 2
        → Current a s row.id e
        → Coherent a s r
        → Gives (Coherent a s) (Names p row) (resolved a s meanwhile p e r)
    unfolding resolved
    resolved-Gives p row e r is active (_, _, cfg, set, allowed) h =
        elim (Bool-cases (profile_binds p e.row e.allowed)) [
          | inl b ↦ rw b (
              chain-Gives (Coherent a s) _ (Names p row) (add_profile a s meanwhile p e.issuer r) _
                (add_profile-Gives p e.issuer r h)
                (λ named q _ k. (
                  k,
                  λ res g.
                      subst (Names p row) (ok-injective _ res g)
                        (refl, is, active, row-Binds p row e cfg is set allowed b),
                )))
          | inr b ↦ rw b (fails (Coherent a s) _ _ r h)
        ]

    resolve_row-Gives :
        (p : CertificateProfile) (row : Issuer) (r : State a)
        → DistinctIds s
        → Any (λ i. i ≡ row) s.issuers
        → Coherent a s r
        → Gives (Coherent a s) (Names p row) (resolve_row a s meanwhile p row r)
    unfolding resolve_row
    resolve_row-Gives p row r distinct m h =
        elim (Bool-cases (issuer_status_number row.status == 2)) [
          | inl active ↦ rw active (
              chain-Gives (Coherent a s) _ (Names p row) (entry a s meanwhile row r) _
                (entry-Gives a laws s meanwhile kept row r m h)
                (λ e q now k.
                  resolved-Gives p row e q (distinct e.row row now.1 m now.0)
                    ((==_iff _ 2).0 active) now k))
          | inr off ↦ rw off (fails (Coherent a s) _ _ r h)
        ]

    -- Whatever other callers do to the registry that keeps its caches coherent with the rows, a
    -- resolution that Resolve gives names the profile that the label of the request resolves to now
    -- in its project or org, which is active, and the row of the issuer that the profile, or the
    -- request where the profile binds to any issuer, resolves to now: it is of the org of the
    -- request, of its project or org-wide, it is active, and it binds the profile by its label or by
    -- the profiles that its settings allow. The caches stay coherent, whatever Resolve answers.
    pub resolve-Signs :
        (req : ResolveRequest) (r : State a)
        → DistinctIds s
        → Coherent a s r
        → Coherent a s (resolve a s meanwhile req r).1
          × ((res : Resolution P) → (resolve a s meanwhile req r).0 ≡ ok res → Signs req res)
    unfolding resolve
    resolve-Signs req r distinct h = elim (Bool-cases (str_eq req.profile "")) [
      | inl n ↦ rw n (fails (Coherent a s) _ _ r h)
      | inr n ↦ rw n (
          chain-Gives (Coherent a s) _ (Signs req)
            (find_profile a s req.org_id req.project_id req.profile r) _
            (find_profile-Gives a laws s req.org_id req.project_id req.profile r h)
            (λ p r0 found h0.
              chain-Gives (Coherent a s) _ (Signs req) (requested_label p req.issuer_label, r0) _
                (called a laws s (requested_label p req.issuer_label) r0 h0)
                (λ label r1 asked h1.
                  chain-Gives (Coherent a s) _ (Signs req)
                    (find_issuer a s req.org_id req.project_id label r1) _
                    (find_issuer-Gives a laws s req.org_id req.project_id label r1 h1)
                    (λ row r2 is h2.
                      (let got =
                          resolve_row-Gives p row r2 distinct
                            (scoped-Any s req.org_id req.project_id label row is) h2 in
                        (
                          got.0,
                          λ res e. Names-Signs req p label row res found asked is (got.1 res e),
                        ))))))
    ]
