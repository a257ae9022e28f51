-- ===== src/Ca/Registry/Runs.antt =====
-- internal/ca/registry.go: the uses of a registry and the changes of the rows, in any order.
use trustyca.Base.{ℕ, ◌≡◌, String, Bool, some}
use trustyca.Base.Status.{ok}
use trustyca.Ca.Rows.{Issuer, CertificateProfile}
use trustyca.Ca.Store.{Store}
use trustyca.Ca.Issuers.{UpdateIssuerRequest, update_issuer, activate_issuer, register_profile}
use trustyca.Ca.Registry.{ScopeKey, IssuerEntry, ResolveRequest, Authority, State}
use trustyca.Ca.Registry.Coherent.{CacheLaws, Coherent}
use trustyca.Ca.Registry.Lookup.{invalidate_issuer, invalidate_profile}
use trustyca.Ca.Registry.Resolve.{resolve}
use trustyca.Ca.Registry.Signs.{DistinctIds, resolve-Signs}
use trustyca.Ca.Registry.Changes.{update_issuer-Coherent, activate_issuer-Coherent}
use trustyca.Ca.Registry.Profiles.{register_profile-Coherent}

module _ {C D E A P S : Type 0} (a : Authority C D E A P S) where
  -- each entry of a registry is one of another: time passes, or entries are evicted
  abbrev pub Fewer : State a → State a → Type 0
  Fewer q r =
      ((id : ℕ) (e : IssuerEntry)
        → (a.entries.get q.issuers id).0 ≡ some e
        → (a.entries.get r.issuers id).0 ≡ some e)
      × ((k : ScopeKey) (m : Issuer)
          → (a.labels.get q.issuer_labels k).0 ≡ some m
          → (a.labels.get r.issuer_labels k).0 ≡ some m)
      × ((k : ScopeKey) (p : CertificateProfile)
          → (a.profiles.get q.profiles k).0 ≡ some p
          → (a.profiles.get r.profiles k).0 ≡ some p)

  abbrev pub Keeps : Store → (State a → State a) → Type 0
  Keeps s meanwhile = (r : State a) → Coherent a s r → Coherent a s (meanwhile r)

  -- from the rows and the registry at the start to those that a run reaches
  pub data Run (s : Store) (r : State a) : Store → State a → Type 0 where
    start : Run s r s r
    loses : {t : Store} {q : State a} → Run s r t q → (u : State a) → Fewer u q → Run s r t u
    resolves :
        {t : Store} {q : State a}
        → Run s r t q
        → (meanwhile : State a → State a) → Keeps t meanwhile
        → (req : ResolveRequest) → Run s r t (resolve a t meanwhile req q).1
    updates :
        {t : Store} {q : State a}
        → Run s r t q
        → (parses : String → Bool) (now : ℕ) (req : UpdateIssuerRequest) (u : Store) (row : Issuer)
        → update_issuer a.down parses now req t ≡ ok (row, u)
        → Run s r u (invalidate_issuer a row q)
    activates :
        {t : Store} {q : State a}
        → Run s r t q
        → (now : ℕ) (m : Issuer) (u : Store) (row : Issuer)
        → activate_issuer a.down now m t ≡ ok (row, u)
        → Run s r u (invalidate_issuer a row q)
    registers :
        {t : Store} {q : State a}
        → Run s r t q
        → (now : ℕ) (m row : CertificateProfile) (u : Store)
        → register_profile a.down now m t ≡ ok (row, u)
        → Run s r u (invalidate_profile a m.org_id m.project_id m.label q)

  -- After any sequence of resolutions, expiries and evictions, and of updates and activations of
  -- issuers and registrations of profiles, each followed by its invalidation, from coherent caches
  -- and rows with distinct IDs, the caches are coherent with the rows at the end, and the IDs are
  -- distinct.
  pub Run-Coherent :
      (laws : CacheLaws a) (s : Store) (r : State a) (t : Store) (q : State a)
      → Run s r t q
      → DistinctIds s
      → Coherent a s r
      → DistinctIds t × Coherent a t q
  Run-Coherent laws s r t q start distinct h = (distinct, h)
  Run-Coherent laws s r t u (loses {q = q} run _ (fewer, labels, profiles)) distinct h =
      let (d, (i, j, k)) = Run-Coherent laws s r t q run distinct h in
      (
        d,
        (
          λ id e g. i id e (fewer id e g),
          λ n m g. j n m (labels n m g),
          λ n p g. k n p (profiles n p g),
        ),
      )
  Run-Coherent laws s r t _ (resolves {q = q} run meanwhile kept req) distinct h =
      let (d, k) = Run-Coherent laws s r t q run distinct h in
      (d, (resolve-Signs a t laws meanwhile kept req q d k).0)
  Run-Coherent laws s r u _ (updates {t = t} {q = q} run parses now req _ row e) distinct h =
      let (d, k) = Run-Coherent laws s r t q run distinct h in
      update_issuer-Coherent a laws parses now req t u row q d e k
  Run-Coherent laws s r u _ (activates {t = t} {q = q} run now m _ row e) distinct h =
      let (d, k) = Run-Coherent laws s r t q run distinct h in
      activate_issuer-Coherent a laws now m t u row q d e k
  Run-Coherent laws s r u _ (registers {t = t} {q = q} run now m row _ e) distinct h =
      let (d, k) = Run-Coherent laws s r t q run distinct h in
      register_profile-Coherent a laws now m row t u q d e k
