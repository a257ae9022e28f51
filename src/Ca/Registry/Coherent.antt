-- ===== src/Ca/Registry/Coherent.antt =====
-- internal/ca/registry.go: the registry against the rows. Its caches are coherent where each entry
-- is what the rows say now, and the lookups keep that.
use trustyca.Ca.Errors.{profile_not_found, issuer_not_found}
use mathlib.Core.Path.{subst}
use trustyca.Base.{
  ℕ, ◌≡◌, inl, inr, refl, sym, String, Bool, true, false, not, Option, none, some, if◌then◌else◌,
  Bool-cases, Any, find?,
}
use trustyca.Base.Status.{Result, Error, ok, err, ok-injective}
use trustyca.Db.Model.{active, status_eq}
use trustyca.Ca.Rows.{Issuer, CertificateProfile}
use trustyca.Ca.Store.{Store}
use trustyca.Ca.Issuers.{names_issuer, names_profile, find_issuer_row, find_profile_row}
use trustyca.Ca.Registry.{ScopeKey, IssuerEntry, Settings, Authority, State, chain}
use trustyca.Ca.Registry.Labels.{
  LruLaws, Rows, scoped, row_answer, scoped_read-found, Fits, get-Fits, add-Fits,
}
use trustyca.Ca.Registry.Lookup.{
  profile_read, profile_cached, find_profile, issuer_read, issuer_cached, find_issuer,
}

-- a call keeps an invariant, and a value that it gives has a property
module _ {R X : Type 0} (Inv : R → Type 0) where
  abbrev pub Gives : (X → Type 0) → Result X × R → Type 0
  Gives Q p = Inv p.1 × ((x : X) → p.0 ≡ ok x → Q x)

  pub gives : (Q : X → Type 0) (x : X) (r : R) → Inv r → Q x → Gives Q (ok x, r)
  gives Q x r h q = (h, λ y e. subst Q (ok-injective x y e) q)

  pub fails : (Q : X → Type 0) (e : Error) (r : R) → Inv r → Gives Q (err e, r)
  fails Q e r h = (h, λ y k. absurd (refused y k))
    where
      refused : (y : X) → err e ≡ ok y → ⊥
      refused y k = cc

module _ {R X Y : Type 0} (Inv : R → Type 0) where
  pub chain-Gives :
      (P : X → Type 0) (Q : Y → Type 0) (p : Result X × R) (f : X → R → Result Y × R)
      → Gives Inv P p
      → ((x : X) (r : R) → P x → Inv r → Gives Inv Q (f x r))
      → Gives Inv Q (chain p f)
  chain-Gives P Q (ok x, r) f (h, k) g = g x r (k x refl) h
  chain-Gives P Q (err e, r) f (h, k) g = fails Inv Q e r h

-- the rows by their scope and label
abbrev pub issuer_rows : Store → Rows Issuer
issuer_rows s org_id project_id label = find? (names_issuer org_id project_id label) s.issuers

abbrev pub profile_rows : Store → Rows CertificateProfile
profile_rows s org_id project_id label = find? (names_profile org_id project_id label) s.profiles

abbrev pub IsActive : CertificateProfile → Type 0
IsActive p = status_eq p.status active ≡ true

-- the row that a label resolves to, and the active profile
abbrev pub FoundIssuer : Store → ℕ → ℕ → String → Issuer → Type 0
FoundIssuer s org_id project_id label m = scoped (issuer_rows s) org_id project_id label ≡ some m

abbrev pub FoundProfile : Store → ℕ → ℕ → String → CertificateProfile → Type 0
FoundProfile s org_id project_id label p =
    (scoped (profile_rows s) org_id project_id label ≡ some p) × IsActive p

-- the answers of FindIssuer and FindProfile without a cache
unfoldable pub issuer_answer : Option Issuer → Result Issuer
issuer_answer none = err issuer_not_found
issuer_answer (some m) = ok m

unfoldable pub profile_answer : Option CertificateProfile → Result CertificateProfile
profile_answer none = err profile_not_found
profile_answer (some p) = if not (status_eq p.status active) then err profile_not_found else ok p

module _ {C D E A P S : Type 0} (a : Authority C D E A P S) where
  -- the documented behaviour of the three caches
  abbrev pub CacheLaws : Type 0
  CacheLaws = LruLaws a.entries × LruLaws a.labels × LruLaws a.profiles

  -- an entry holds a row of the table, under its ID, with the profiles that its settings allow
  abbrev pub Current : Store → ℕ → IssuerEntry → Type 0
  Current s id e =
      (e.row.id ≡ id)
      × Any (λ i. i ≡ e.row) s.issuers
      × (cfg : Settings) × (a.settings e.row ≡ ok cfg)
      × (e.allowed ≡ cfg.allowed_profiles)

  abbrev pub Coherent : Store → State a → Type 0
  Coherent s r =
      ((id : ℕ) (e : IssuerEntry) → (a.entries.get r.issuers id).0 ≡ some e → Current s id e)
      × Fits a.labels (λ m. Unit) (issuer_rows s) r.issuer_labels
      × Fits a.profiles IsActive (profile_rows s) r.profiles

module _ {C D E A P S : Type 0} (a : Authority C D E A P S) (laws : CacheLaws a) (s : Store) where
  -- the database's answer, where the cache has none
  issuer_missed :
      (k : ScopeKey) (r : State a) (d : Bool) (o : Option Issuer)
      → scoped (issuer_rows s) k.org_id k.project_id k.label ≡ o
      → Coherent a s r
      → Gives
          (Coherent a s)
          (FoundIssuer s k.org_id k.project_id k.label)
          (issuer_read a s k (row_answer d o) r)
  issuer_missed k r true o is h = fails (Coherent a s) _ _ r h
  issuer_missed k r false none is h = fails (Coherent a s) _ _ r h
  issuer_missed k r false (some m) is (h, i, j) =
      gives (Coherent a s) (FoundIssuer s k.org_id k.project_id k.label) m
        (record r { issuer_labels = a.labels.add r.issuer_labels k m })
        (h, add-Fits a.labels laws.1 (λ m. Unit) (issuer_rows s) r.issuer_labels k m is tt i, j) is

  issuer_cached-Gives :
      (k : ScopeKey) (r : State a) (o : Option Issuer)
      → ((m : Issuer) → o ≡ some m → FoundIssuer s k.org_id k.project_id k.label m)
      → Coherent a s r
      → Gives (Coherent a s) (FoundIssuer s k.org_id k.project_id k.label) (issuer_cached a s k o r)
  unfolding find_issuer_row scoped
  issuer_cached-Gives k r (some m) hit h = gives (Coherent a s) _ m r h (hit m refl)
  issuer_cached-Gives k r none hit h =
      subst
        (λ q.
          Gives (Coherent a s) (FoundIssuer s k.org_id k.project_id k.label)
            (issuer_read a s k q r))
        (sym (
          scoped_read-found (a.down "FindIssuer") k.project_id
            (issuer_rows s k.org_id k.project_id k.label) (issuer_rows s k.org_id 0 k.label)))
        (issuer_missed k r (a.down "FindIssuer") _ refl h)

  pub find_issuer-Gives :
      (org_id project_id : ℕ) (label : String) (r : State a)
      → Coherent a s r
      → Gives
          (Coherent a s)
          (FoundIssuer s org_id project_id label)
          (find_issuer a s org_id project_id label r)
  unfolding find_issuer
  find_issuer-Gives org_id project_id label r (h, i, j) =
      let k : ScopeKey = record { org_id = org_id; project_id = project_id; label = label } in
      let read = a.labels.get r.issuer_labels k in
      issuer_cached-Gives k (record r { issuer_labels = read.1 }) read.0 (λ m e. (i k m e).0)
        (h, get-Fits a.labels laws.1 (λ m. Unit) (issuer_rows s) r.issuer_labels k i, j)

  -- the same for the profiles
  profile_missed :
      (k : ScopeKey) (r : State a) (d : Bool) (o : Option CertificateProfile)
      → scoped (profile_rows s) k.org_id k.project_id k.label ≡ o
      → Coherent a s r
      → Gives
          (Coherent a s)
          (FoundProfile s k.org_id k.project_id k.label)
          (profile_read a s k (row_answer d o) r)
  profile_missed k r true o is h = fails (Coherent a s) _ _ r h
  profile_missed k r false none is h = fails (Coherent a s) _ _ r h
  profile_missed k r false (some m) is (h, i, j) = elim (Bool-cases (status_eq m.status active)) [
    | inl e ↦ rw e (
        gives (Coherent a s) (FoundProfile s k.org_id k.project_id k.label) m
          (record r { profiles = a.profiles.add r.profiles k m })
          (h, i, add-Fits a.profiles laws.2 IsActive (profile_rows s) r.profiles k m is e j)
          (is, e))
    | inr e ↦ rw e (fails (Coherent a s) _ _ r (h, i, j))
  ]

  profile_cached-Gives :
      (k : ScopeKey) (r : State a) (o : Option CertificateProfile)
      → ((m : CertificateProfile) → o ≡ some m → FoundProfile s k.org_id k.project_id k.label m)
      → Coherent a s r
      → Gives
          (Coherent a s)
          (FoundProfile s k.org_id k.project_id k.label)
          (profile_cached a s k o r)
  unfolding find_profile_row scoped
  profile_cached-Gives k r (some m) hit h = gives (Coherent a s) _ m r h (hit m refl)
  profile_cached-Gives k r none hit h =
      subst
        (λ q.
          Gives (Coherent a s) (FoundProfile s k.org_id k.project_id k.label)
            (profile_read a s k q r))
        (sym (
          scoped_read-found (a.down "FindProfile") k.project_id
            (profile_rows s k.org_id k.project_id k.label) (profile_rows s k.org_id 0 k.label)))
        (profile_missed k r (a.down "FindProfile") _ refl h)

  pub find_profile-Gives :
      (org_id project_id : ℕ) (label : String) (r : State a)
      → Coherent a s r
      → Gives
          (Coherent a s)
          (FoundProfile s org_id project_id label)
          (find_profile a s org_id project_id label r)
  unfolding find_profile
  find_profile-Gives org_id project_id label r (h, i, j) =
      let k : ScopeKey = record { org_id = org_id; project_id = project_id; label = label } in
      let read = a.profiles.get r.profiles k in
      profile_cached-Gives k (record r { profiles = read.1 }) read.0 (λ m e. j k m e)
        (h, i, get-Fits a.profiles laws.2 IsActive (profile_rows s) r.profiles k j)
