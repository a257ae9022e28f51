-- ===== src/Ca/Registry/Build.antt =====
-- internal/ca/registry.go: the authority issuer of a row, which is created once and kept.

use trustyca.Ca.Errors.{is_error, profile_not_found}
use text.Mathlib.Text.{◌==◌ as str_eq}
use trustyca.Base.{length, ℕ, ◌++◌, not, Option, none, some, [], ◌∷◌, if◌then◌else◌}
use trustyca.Base.Status.{Result, ok, err, wrapped}
use trustyca.Ca.Rows.{Issuer, CertificateProfile}
use trustyca.Ca.Store.{Store}
use trustyca.Ca.Registry.{IssuerEntry, Settings, Authority, newer, profile_binds, chain, State, Act}
use trustyca.Ca.Registry.Lookup.{find_profile}

-- is the cached entry of the row used
abbrev pub usable : Issuer → Option IssuerEntry → Option IssuerEntry
usable row none = none
usable row (some e) = if newer row e.row then none else some e

module _ {C D E A P S : Type 0} (a : Authority C D E A P S) (s : Store) where
  -- the delegated OCSP profile of build
  abbrev pub delegated_found :
      Issuer → Settings → Result CertificateProfile × State a → Result (Option P) × State a
  delegated_found row cfg (err e, r) = (
    if is_error e profile_not_found
        then err (wrapped "delegated OCSP profile of issuer is not found")
        else err (wrapped "delegated OCSP profile of issuer"),
    r,
  )
  delegated_found row cfg (ok p, r) =
      if not (profile_binds p row cfg.allowed_profiles)
      then (err (wrapped "delegated OCSP profile is not bound to issuer"), r)
      else chain (a.authority_profile p, r) (λ ap r. (ok (some ap), r))

  unfoldable pub delegated : Issuer → Settings → Act a (Option P)
  delegated row cfg r =
      if str_eq cfg.delegated_ocsp_profile ""
      then (ok none, r)
      else delegated_found row cfg
          (find_profile a s row.org_id row.project_id cfg.delegated_ocsp_profile r)

  -- a new authority issuer, and the entry that holds it
  unfoldable pub keep_issuer : Issuer → Settings → A → Act a IssuerEntry
  keep_issuer row cfg i r = (
    ok (record { row = row; issuer = length r.created; allowed = cfg.allowed_profiles }),
    record r { created = r.created ++ (i ∷ []) },
  )

  abbrev pub created_issuer : Result A → Result A
  created_issuer (ok i) = ok i
  created_issuer (err e) = err (wrapped "unable to create issuer")

  -- build
  unfoldable pub build : Issuer → Act a IssuerEntry
  build row r =
      if str_eq row.pem ""
      then (err (wrapped "issuer has no certificate"), r)
      else chain (a.settings row, r)
          (λ cfg r. chain (delegated row cfg r) (λ responder r.
            chain (a.signer row, r)
              (λ key r.
                chain (created_issuer (a.create row cfg responder key), r)
                  (λ i r. keep_issuer row cfg i r))))

  abbrev pub entry_built : ℕ → Result IssuerEntry × State a → Result IssuerEntry × State a
  entry_built id (err e, r) = (err e, r)
  entry_built id (ok e, r) = (ok e, record r { issuers = a.entries.add r.issuers id e })

  -- the end of entry, under the lock
  abbrev pub entry_locked : Issuer → Option IssuerEntry → Act a IssuerEntry
  entry_locked row (some e) r = (ok e, r)
  entry_locked row none r = entry_built row.id (build row r)

  -- another use of the registry, while a caller waits for a lock
  module _ (meanwhile : State a → State a) where
    abbrev pub entry_read : Issuer → Option IssuerEntry → Act a IssuerEntry
    entry_read row (some e) r = (ok e, r)
    entry_read row none r =
        let held = meanwhile r in
        let read = a.entries.get held.issuers row.id in
        entry_locked row (usable row read.0) (record held { issuers = read.1 })

    -- entry
    unfoldable pub entry : Issuer → Act a IssuerEntry
    entry row r =
        let read = a.entries.get r.issuers row.id in
        entry_read row (usable row read.0) (record r { issuers = read.1 })
