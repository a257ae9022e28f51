-- ===== src/Ca/Registry/Resolve.antt =====
-- internal/ca/registry.go: the issuer and the profile that sign a request, and the issuers that a
-- revocation status names.
use trustyca.Ca.Errors.{issuer_not_found, issuer_not_active, profile_not_allowed}
use Prim.Native.String.{◌++◌ as append}
use text.Mathlib.Text.{◌==◌ as str_eq}
use trustyca.Base.{
  ℕ, String, Bool, false, not, ◌&&◌, Option, none, some, ◌==◌, if◌then◌else◌, find?,
}
use trustyca.Base.Status.{Result, ok, err, wrapped}
use trustyca.Ca.Rows.{Issuer, CertificateProfile, issuer_status_number}
use trustyca.Ca.Store.{Store}
use trustyca.Ca.Issuers.{get_issuer_by_skid}
use trustyca.Ca.Registry.{
  IssuerEntry, ResolveRequest, Resolution, Authority, is_missing, profile_binds, requested_label,
  chain, created_at, created_put, State, Act,
}
use trustyca.Ca.Registry.Lookup.{find_profile, find_issuer}
use trustyca.Ca.Registry.Build.{entry}

module _ {C D E A P S : Type 0} (a : Authority C D E A P S) (s : Store)
    (meanwhile : State a → State a) where
  -- profileName
  unfoldable pub profile_name : CertificateProfile → String
  profile_name p = append (a.id_string p.id) (append "@" (a.format_int p.updated_at))

  -- addProfile, on the authority issuer and the profile that it has under the name
  abbrev pub profile_added : CertificateProfile → ℕ → A → Option P → Act a (String × P)
  profile_added p h i (some ap) r = (ok (profile_name p, ap), r)
  profile_added p h i none r =
      chain (a.authority_profile p, r)
        (λ ap r. (
          ok (profile_name p, ap),
          record r { created = created_put h (a.add_profile i (profile_name p) ap) r.created },
        ))

  abbrev pub added_to : CertificateProfile → ℕ → Option A → Act a (String × P)
  added_to p h none r = (err (wrapped "no authority issuer"), r)
  added_to p h (some i) r = profile_added p h i (a.profile_of i (profile_name p)) r

  unfoldable pub add_profile : CertificateProfile → ℕ → Act a (String × P)
  add_profile p h r = added_to p h (created_at h r.created) r

  -- the end of Resolve
  unfoldable pub resolved : CertificateProfile → IssuerEntry → Act a (Resolution P)
  resolved p e r =
      if not (profile_binds p e.row e.allowed)
      then (err profile_not_allowed, r)
      else chain (add_profile p e.issuer r) (λ named r. (
        ok (record {
          issuer = e.issuer;
          row = e.row;
          profile_row = p;
          profile = named.1;
          profile_name = named.0;
        }),
        r,
      ))

  unfoldable pub resolve_row : CertificateProfile → Issuer → Act a (Resolution P)
  resolve_row p row r =
      if not (issuer_status_number row.status == 2)
      then (err issuer_not_active, r)
      else chain (entry a s meanwhile row r) (λ e r. resolved p e r)

  -- Resolve
  unfoldable pub resolve : ResolveRequest → Act a (Resolution P)
  resolve req r =
      if str_eq req.profile ""
      then (err (wrapped "profile is required"), r)
      else chain (find_profile a s req.org_id req.project_id req.profile r) (λ p r.
        chain (requested_label p req.issuer_label, r)
          (λ label r.
            chain (find_issuer a s req.org_id req.project_id label r)
              (λ row r. resolve_row p row r)))

  -- Issuer
  unfoldable pub issuer_of : Issuer → Act a ℕ
  issuer_of row r = chain (entry a s meanwhile row r) (λ e r. (ok e.issuer, r))

  -- IssuerBySKID
  abbrev pub skid_row : Result Issuer → Act a (ℕ × Issuer)
  skid_row (err e) r =
      (if is_missing e then err issuer_not_found else err (wrapped "unable to find issuer"), r)
  skid_row (ok row) r =
      if not (issuer_status_number row.status == 2) && not (issuer_status_number row.status == 3)
      then (err issuer_not_active, r)
      else chain (entry a s meanwhile row r) (λ e r. (ok (e.issuer, e.row), r))

  abbrev pub in_memory : Option IssuerEntry → Act a (ℕ × Issuer) → Act a (ℕ × Issuer)
  in_memory (some e) other r = (ok (e.issuer, e.row), r)
  in_memory none other r = other r

  unfoldable pub issuer_by_skid : String → Act a (ℕ × Issuer)
  issuer_by_skid skid r =
      in_memory (find? (λ e. str_eq e.row.skid skid) (a.entries.values r.issuers))
        (skid_row (get_issuer_by_skid a.down skid s)) r

  -- has the authority issuer the hash
  abbrev pub hashes : (A → ℕ → String) → ℕ → String → Option A → Bool
  hashes hash alg value none = false
  hashes hash alg value (some i) = str_eq (hash i alg) value

  -- IssuerByKeyHash; crypto.SHA1 is 3
  unfoldable pub issuer_by_key_hash : ℕ → String → Act a (ℕ × Issuer)
  issuer_by_key_hash alg hash r =
      in_memory
        (find? (λ e. hashes a.key_hash alg hash (created_at e.issuer r.created))
          (a.entries.values r.issuers))
        (λ r.
          if not (alg == 3)
          then (err issuer_not_found, r)
          else issuer_by_skid (a.encode_hex hash) r)
        r

  -- IssuerByNameHash
  unfoldable pub issuer_by_name_hash : ℕ → String → Act a (ℕ × Issuer)
  issuer_by_name_hash alg hash r =
      in_memory
        (find? (λ e. hashes a.name_hash alg hash (created_at e.issuer r.created))
          (a.entries.values r.issuers))
        (λ r. (err issuer_not_found, r)) r
