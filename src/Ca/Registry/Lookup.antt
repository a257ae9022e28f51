-- ===== src/Ca/Registry/Lookup.antt =====
-- internal/ca/registry.go: the profile and the issuer of a label in a scope, through the caches, and
-- the calls that drop the entries of a row that was changed.

use trustyca.Ca.Errors.{profile_not_found, issuer_not_found}
use trustyca.Base.{ℕ, String, not, Option, none, some, if◌then◌else◌}
use trustyca.Base.Status.{Result, ok, err, wrapped}
use trustyca.Db.Model.{active, status_eq}
use trustyca.Ca.Rows.{Issuer, CertificateProfile}
use trustyca.Ca.Store.{Store}
use trustyca.Ca.Issuers.{find_issuer_row, find_profile_row}
use trustyca.Ca.Registry.{
  ScopeKey, Authority, is_missing, scoped_read, invalidate_label, State, Act,
}

module _ {C D E A P S : Type 0} (a : Authority C D E A P S) (s : Store) where
  -- FindProfile, after the read of the cache
  abbrev pub profile_read : ScopeKey → Result CertificateProfile → Act a CertificateProfile
  profile_read k (err e) r =
      (if is_missing e then err profile_not_found else err (wrapped "unable to find profile"), r)
  profile_read k (ok p) r =
      if not (status_eq p.status active)
      then (err profile_not_found, r)
      else (ok p, record r { profiles = a.profiles.add r.profiles k p })

  abbrev pub profile_cached : ScopeKey → Option CertificateProfile → Act a CertificateProfile
  profile_cached k (some p) r = (ok p, r)
  profile_cached k none r =
      profile_read k
        (scoped_read k.project_id (find_profile_row a.down k.org_id k.project_id k.label s)
          (find_profile_row a.down k.org_id 0 k.label s))
        r

  -- FindProfile
  unfoldable pub find_profile : ℕ → ℕ → String → Act a CertificateProfile
  find_profile org_id project_id label r =
      let k : ScopeKey = record { org_id = org_id; project_id = project_id; label = label } in
      let read = a.profiles.get r.profiles k in
      profile_cached k read.0 (record r { profiles = read.1 })

  -- FindIssuer, after the read of the cache
  abbrev pub issuer_read : ScopeKey → Result Issuer → Act a Issuer
  issuer_read k (err e) r =
      (if is_missing e then err issuer_not_found else err (wrapped "unable to find issuer"), r)
  issuer_read k (ok m) r = (ok m, record r { issuer_labels = a.labels.add r.issuer_labels k m })

  abbrev pub issuer_cached : ScopeKey → Option Issuer → Act a Issuer
  issuer_cached k (some m) r = (ok m, r)
  issuer_cached k none r =
      issuer_read k
        (scoped_read k.project_id (find_issuer_row a.down k.org_id k.project_id k.label s)
          (find_issuer_row a.down k.org_id 0 k.label s))
        r

  -- FindIssuer
  unfoldable pub find_issuer : ℕ → ℕ → String → Act a Issuer
  find_issuer org_id project_id label r =
      let k : ScopeKey = record { org_id = org_id; project_id = project_id; label = label } in
      let read = a.labels.get r.issuer_labels k in
      issuer_cached k read.0 (record r { issuer_labels = read.1 })

module _ {C D E A P S : Type 0} (a : Authority C D E A P S) where
  -- InvalidateIssuer, of a row
  unfoldable pub invalidate_issuer : Issuer → State a → State a
  invalidate_issuer row r = record r {
    issuers = a.entries.remove r.issuers row.id;
    issuer_labels = invalidate_label a.labels row.org_id row.project_id row.label r.issuer_labels;
  }

  -- InvalidateProfile
  unfoldable pub invalidate_profile : ℕ → ℕ → String → State a → State a
  invalidate_profile org_id project_id label r = record r {
    profiles = invalidate_label a.profiles org_id project_id label r.profiles;
  }

  -- Purge
  unfoldable pub purge : State a → State a
  purge r = record r {
    issuers = a.entries.purge r.issuers;
    issuer_labels = a.labels.purge r.issuer_labels;
    profiles = a.profiles.purge r.profiles;
  }
