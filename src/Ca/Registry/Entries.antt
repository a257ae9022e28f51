-- ===== src/Ca/Registry/Entries.antt =====
-- internal/ca/registry.go: the entries of the issuers in memory, from coherent caches.
use trustyca.Ca.Errors.{is_error, profile_not_found}
use mathlib.Core.Path.{subst}
use text.Mathlib.Text.{◌==◌ as str_eq}
use trustyca.Base.{ℕ, ◌≡◌, inl, inr, refl, sym, ap, ◌∙◌, Option, none, some, Bool-cases, Any}
use trustyca.Base.Status.{Result, ok, err, ok-injective}
use trustyca.Ca.Rows.{Issuer, CertificateProfile}
use trustyca.Ca.Store.{Store}
use trustyca.Ca.Registry.{IssuerEntry, Settings, Authority, State, newer, profile_binds}
use trustyca.Ca.Registry.Coherent.{
  Gives, gives, fails, chain-Gives, CacheLaws, Current, Coherent, find_profile-Gives,
}
use trustyca.Ca.Registry.Build.{
  delegated_found, delegated, keep_issuer, created_issuer, build, usable, entry_built, entry_locked,
  entry_read, entry,
}

usable-some :
    (row : Issuer) (o : Option IssuerEntry) (e : IssuerEntry) → usable row o ≡ some e → o ≡ some e
usable-some row none e h = h
usable-some row (some d) e h = elim (Bool-cases (newer row d.row)) [
  | inl n ↦ absurd (nothing (rw n at h))
  | inr n ↦ rw n at h
]
  where
    nothing : ◌≡◌ {A = Option IssuerEntry} none (some e) → ⊥
    nothing k = cc

module _ {C D E A P S : Type 0} (a : Authority C D E A P S) (laws : CacheLaws a) (s : Store) where
  -- the entry that build makes of a row
  abbrev Built : Issuer → IssuerEntry → Type 0
  Built row e =
      (e.row ≡ row)
      × (cfg : Settings) × (a.settings row ≡ ok cfg)
      × (e.allowed ≡ cfg.allowed_profiles)

  -- a call of the parameters leaves the registry as it is
  pub called :
      {X : Type 0}
      → (v : Result X) (r : State a) → Coherent a s r
      → Gives (Coherent a s) (λ x. v ≡ ok x) (v, r)
  called v r h = (h, λ x e. e)

  delegated_found-Gives :
      (row : Issuer) (cfg : Settings) (p : Result CertificateProfile × State a)
      → Coherent a s p.1
      → Gives (Coherent a s) (λ _. Unit) (delegated_found a s row cfg p)
  delegated_found-Gives row cfg (err e, r) h = elim (Bool-cases (is_error e profile_not_found)) [
    | inl missing ↦ rw missing (fails (Coherent a s) _ _ r h)
    | inr other ↦ rw other (fails (Coherent a s) _ _ r h)
  ]
  delegated_found-Gives row cfg (ok p, r) h =
      elim (Bool-cases (profile_binds p row cfg.allowed_profiles)) [
        | inl b ↦ rw b (
            chain-Gives (Coherent a s) _ _ (a.authority_profile p, r) (λ ap r. (ok (some ap), r))
              (called (a.authority_profile p) r h)
              (λ x q _ k. gives (Coherent a s) _ (some x) q k tt))
        | inr b ↦ rw b (fails (Coherent a s) _ _ r h)
      ]

  delegated-Gives :
      (row : Issuer) (cfg : Settings) (r : State a)
      → Coherent a s r
      → Gives (Coherent a s) (λ _. Unit) (delegated a s row cfg r)
  unfolding delegated
  delegated-Gives row cfg r h = elim (Bool-cases (str_eq cfg.delegated_ocsp_profile "")) [
    | inl n ↦ rw n (gives (Coherent a s) _ none r h tt)
    | inr n ↦ rw n (
        delegated_found-Gives row cfg _
          (find_profile-Gives a laws s row.org_id row.project_id cfg.delegated_ocsp_profile r h).0)
  ]

  keep_issuer-Gives :
      (row : Issuer) (cfg : Settings) (i : A) (r : State a)
      → a.settings row ≡ ok cfg
      → Coherent a s r
      → Gives (Coherent a s) (Built row) (keep_issuer a s row cfg i r)
  unfolding keep_issuer
  keep_issuer-Gives row cfg i r set h =
      (h, λ e k. subst (Built row) (ok-injective _ e k) (refl, cfg, set, refl))

  build-Gives :
      (row : Issuer) (r : State a)
      → Coherent a s r
      → Gives (Coherent a s) (Built row) (build a s row r)
  unfolding build
  build-Gives row r h = elim (Bool-cases (str_eq row.pem "")) [
    | inl n ↦ rw n (fails (Coherent a s) _ _ r h)
    | inr n ↦ rw n (
        chain-Gives (Coherent a s) _ (Built row) (a.settings row, r) _ (called (a.settings row) r h)
          (λ cfg r0 set h0.
            chain-Gives (Coherent a s) _ (Built row) (delegated a s row cfg r0) _
              (delegated-Gives row cfg r0 h0)
              (λ responder r1 _ h1.
                chain-Gives (Coherent a s) _ (Built row) (a.signer row, r1) _
                  (called (a.signer row) r1 h1)
                  (λ key r2 _ h2.
                    chain-Gives (Coherent a s) _ (Built row)
                      (created_issuer a s (a.create row cfg responder key), r2) _
                      (called (created_issuer a s (a.create row cfg responder key)) r2 h2)
                      (λ i r3 _ h3. keep_issuer-Gives row cfg i r3 set h3)))))
  ]

  -- a built entry of a row of the table is current
  Built-Current :
      (row : Issuer) (e : IssuerEntry)
      → Any (λ i. i ≡ row) s.issuers
      → Built row e
      → Current a s row.id e
  Built-Current row e m (is, cfg, set, allowed) = (
    ap (λ i. i.id) is,
    subst (λ q. Any (λ i. i ≡ q) s.issuers) (sym is) m,
    cfg,
    ap a.settings is ∙ set,
    allowed,
  )

  entry_built-Gives :
      (row : Issuer) (p : Result IssuerEntry × State a)
      → Any (λ i. i ≡ row) s.issuers
      → Gives (Coherent a s) (Built row) p
      → Gives (Coherent a s) (Current a s row.id) (entry_built a s row.id p)
  entry_built-Gives row (err e, r) m (h, k) = fails (Coherent a s) _ _ r h
  entry_built-Gives row (ok e, r) m ((h, i, j), k) =
      let now = Built-Current row e m (k e refl) in
      gives (Coherent a s) (Current a s row.id) e
        (record r { issuers = a.entries.add r.issuers row.id e })
        (
          λ id d g. elim (laws.0.get-add r.issuers row.id id e d g) [
            | inl (same, this) ↦
                subst (λ n. Current a s n d) same (subst (Current a s row.id) this now)
            | inr old ↦ h id d old
          ],
          i,
          j,
        )
        now

  entry_locked-Gives :
      (row : Issuer) (o : Option IssuerEntry) (r : State a)
      → Any (λ i. i ≡ row) s.issuers
      → ((e : IssuerEntry) → o ≡ some e → Current a s row.id e)
      → Coherent a s r
      → Gives (Coherent a s) (Current a s row.id) (entry_locked a s row o r)
  entry_locked-Gives row (some e) r m hit h = gives (Coherent a s) _ e r h (hit e refl)
  entry_locked-Gives row none r m hit h =
      entry_built-Gives row (build a s row r) m (build-Gives row r h)

  -- reading an entry of an ID
  get-Coherent :
      (id : ℕ) (r : State a)
      → Coherent a s r
      → Coherent a s (record r { issuers = (a.entries.get r.issuers id).1 })
  get-Coherent id r (h, i, j) = ((λ n e g. h n e (laws.0.get-get r.issuers id n e g)), i, j)

  module _ (meanwhile : State a → State a)
      (kept : (r : State a) → Coherent a s r → Coherent a s (meanwhile r)) where
    entry_read-Gives :
        (row : Issuer) (o : Option IssuerEntry) (r : State a)
        → Any (λ i. i ≡ row) s.issuers
        → ((e : IssuerEntry) → o ≡ some e → Current a s row.id e)
        → Coherent a s r
        → Gives (Coherent a s) (Current a s row.id) (entry_read a s meanwhile row o r)
    entry_read-Gives row (some e) r m hit h = gives (Coherent a s) _ e r h (hit e refl)
    entry_read-Gives row none r m hit h =
        let held = kept r h in
        let read = a.entries.get (meanwhile r).issuers row.id in
        entry_locked-Gives row (usable row read.0) _ m
          (λ e g. held.0 row.id e (usable-some row read.0 e g))
          (get-Coherent row.id (meanwhile r) held)

    -- the entry of a row of the table is current, and the caches stay coherent
    pub entry-Gives :
        (row : Issuer) (r : State a)
        → Any (λ i. i ≡ row) s.issuers
        → Coherent a s r
        → Gives (Coherent a s) (Current a s row.id) (entry a s meanwhile row r)
    unfolding entry
    entry-Gives row r m h =
        let read = a.entries.get r.issuers row.id in
        entry_read-Gives row (usable row read.0) _ m
          (λ e g. h.0 row.id e (usable-some row read.0 e g)) (get-Coherent row.id r h)
