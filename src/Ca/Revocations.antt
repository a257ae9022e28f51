-- ===== src/Ca/Revocations.antt =====
-- internal/db/pgsql/revoked.go and the statements of certificate.go: the revocation of a certificate
-- in one transaction, and the lists of certificates and revocations.
pub mod Effect
pub mod Twice
use Prim.Native.String.{len}
use text.Mathlib.Text.{◌==◌ as str_eq}
use trustyca.Base.{
  ltb, ℕ, ◌+◌, String, Bool, true, not, ◌&&◌, ◌||◌, Option, none, some, List, [], ◌∷◌, ◌==◌, ◌++◌,
  if◌then◌else◌, filter, find?, map,
}
use trustyca.Base.Status.{Result, ok, err, wrapped, ◌>>=◌}
use trustyca.Db.Model.{Scope}
use trustyca.Db.Scopes.{
  set_org_scope, where_org_scope, set_project_scope, set_visible_projects, where_project_scope,
  check_list_scope,
}
use trustyca.Db.Cursor.{Cursor, Codec, check_key, key_id}
use trustyca.Db.Pages.{Page, list_rows}
use trustyca.Db.Tables.{found, no_error}
use trustyca.Ca.Rows.{
  Certificate, CertificateStatus, certificate_revoked, certificate_status_number, is_revoked,
  Revoked, RevokedCertificate, new_revoked_certificate, revoked_validate, max_len_for_name,
}
use trustyca.Ca.Store.{Store, already_revoked}

-- RevokeCertificateRequest
pub record RevokeRequest : Type 0 where
  pub certificate_id : ℕ
  pub org_id : ℕ
  pub revoked_at : ℕ
  pub reason : ℕ
  pub reason_text : String

-- GetRevokedRequest
pub record GetRevokedRequest : Type 0 where
  pub certificate_id : ℕ
  pub ikid : String
  pub serial_number : String

-- the WHERE of GetRevoked
unfoldable pub selects_revoked : GetRevokedRequest → Revoked → Bool
selects_revoked r m =
    (r.certificate_id == 0 || m.certificate_id == r.certificate_id)
    && (str_eq r.ikid "" || (str_eq m.ikid r.ikid && str_eq m.serial_number r.serial_number))

-- the row that RegisterRevoked inserts
unfoldable pub revocation : ℕ → ℕ → RevokeRequest → Certificate → Revoked
revocation next_id now req c = record {
  id = next_id;
  org_id = c.org_id;
  project_id = c.project_id;
  certificate_id = c.id;
  ikid = c.ikid;
  serial_number = c.serial_number;
  not_after = c.not_after;
  revoked_at = if req.revoked_at == 0 then now else req.revoked_at;
  reason = req.reason;
  reason_text = req.reason_text;
}

-- the UPDATE of updateCertificateStatus
unfoldable pub set_status : ℕ → CertificateStatus → Certificate → Certificate
set_status id status c = if c.id == id then record c { status = status } else c

-- ListRevokedRequest, for the lists that page by cursor
pub record ListRevokedRequest : Type 0 where
  pub org_id : ℕ
  pub platform : Bool
  pub all_orgs : Bool
  pub project_id : ℕ
  pub scope : Scope
  pub ikid : String
  pub valid_after : Option ℕ
  pub limit : ℕ
  pub cursor : Cursor

abbrev pub ends_after : Option ℕ → ℕ → Bool
ends_after none not_after = true
ends_after (some time) not_after = ltb time not_after

-- the WHERE of ListRevoked, less the cursor
unfoldable pub lists_revoked : ListRevokedRequest → Revoked → Bool
lists_revoked r m =
    where_org_scope (set_org_scope r.org_id r.platform) m.org_id
    && where_project_scope (set_project_scope r.project_id r.scope) m.project_id
    && (str_eq r.ikid "" || str_eq m.ikid r.ikid)
    && ends_after r.valid_after m.not_after

-- ListCertificatesRequest, for the lists that page by cursor
pub record ListCertificatesRequest : Type 0 where
  pub org_id : ℕ
  pub platform : Bool
  pub all_orgs : Bool
  pub project_id : ℕ
  pub scope : Scope
  pub project_ids : Option (List ℕ)
  pub ikid : String
  pub skid : String
  pub profile : String
  pub status : CertificateStatus
  pub expiring_before : Option ℕ
  pub limit : ℕ
  pub cursor : Cursor

abbrev pub ends_before : Option ℕ → ℕ → Bool
ends_before none not_after = true
ends_before (some time) not_after = ltb not_after time

-- the WHERE of ListCertificates, less the cursor
unfoldable pub lists_certificate : ListCertificatesRequest → Certificate → Bool
lists_certificate r c =
    where_org_scope (set_org_scope r.org_id r.platform) c.org_id
    && where_project_scope
        (set_visible_projects (set_project_scope r.project_id r.scope) r.project_ids) c.project_id
    && (str_eq r.ikid "" || str_eq c.ikid r.ikid)
    && (str_eq r.skid "" || str_eq c.skid r.skid)
    && (str_eq r.profile "" || str_eq c.profile r.profile)
    && (certificate_status_number r.status == 0
        || certificate_status_number c.status == certificate_status_number r.status)
    && ends_before r.expiring_before c.not_after

module _ (down : String → Bool) where
  -- GetCertificate
  unfoldable pub get_certificate : ℕ → Store → Result Certificate
  get_certificate id s =
      no_error (down "GetCertificate") >>= λ _. found (find? (λ c. c.id == id) s.certificates)

  -- GetCertificateBySha256
  unfoldable pub get_certificate_by_sha256 : String → Store → Result Certificate
  get_certificate_by_sha256 sha256 s = no_error (down "GetCertificateBySha256") >>= λ _.
      found (find? (λ c. str_eq c.sha256 sha256) s.certificates)

  -- GetCertificateByIssuerSerial
  unfoldable pub get_certificate_by_issuer_serial : String → String → Store → Result Certificate
  get_certificate_by_issuer_serial ikid serial s =
      no_error (down "GetCertificateByIssuerSerial") >>= λ _.
      found (find? (λ c. str_eq c.ikid ikid && str_eq c.serial_number serial) s.certificates)

  -- getCertificateForUpdate; an org of 0 is the platform's NULL
  unfoldable pub get_certificate_for_update : ℕ → ℕ → Store → Result Certificate
  get_certificate_for_update id org_id s = no_error (down "GetCertificateForUpdate") >>= λ _.
      found (find? (λ c. c.id == id && c.org_id == org_id) s.certificates)

  -- registerRevoked
  unfoldable pub register_revoked : Revoked → Store → Result (Revoked × Store)
  register_revoked m s = no_error (not (revoked_validate m) || down "RegisterRevoked") >>= λ _.
      ok (m, record s { revoked = s.revoked ++ (m ∷ []); next_id = s.next_id + 1 })

  -- updateCertificateStatus
  unfoldable pub update_certificate_status :
      ℕ → CertificateStatus → Store → Result (Certificate × Store)
  update_certificate_status id status s = no_error (down "UpdateCertificateStatus") >>= λ _.
      found (find? (λ c. c.id == id) s.certificates) >>= λ c. ok (
        record c { status = status },
        record s { certificates = map (set_status id status) s.certificates },
      )

  -- RevokeCertificate
  unfoldable pub revoke_certificate :
      ℕ → RevokeRequest → Store → Result (RevokedCertificate × Store)
  revoke_certificate now req s =
      if req.certificate_id == 0
      then err (wrapped "certificate ID is required")
      else if ltb max_len_for_name (len req.reason_text)
      then err (wrapped "invalid reason text length")
      else (get_certificate_for_update req.certificate_id req.org_id s >>= λ crt.
          if is_revoked crt.status
          then err already_revoked
          else (register_revoked (revocation s.next_id now req crt) s >>= λ registered.
              update_certificate_status crt.id certificate_revoked registered.1 >>= λ updated.
              ok (new_revoked_certificate updated.0 registered.0, updated.1)))

  -- GetRevoked
  unfoldable pub get_revoked : GetRevokedRequest → Store → Result Revoked
  get_revoked r s =
      if r.certificate_id == 0 && (str_eq r.ikid "" || str_eq r.serial_number "")
      then err (wrapped "certificate ID, or IKID and serial number, are required")
      else (no_error (down "GetRevoked") >>= λ _. found (find? (selects_revoked r) s.revoked))

  module _ (codec : Codec) (has_next : ℕ → ℕ → Bool) where
    -- ListRevoked
    unfoldable pub list_revoked : ListRevokedRequest → Store → Result (Page Revoked)
    list_revoked r s = check_list_scope r.org_id r.platform r.all_orgs >>= λ _.
        check_key key_id r.cursor >>= λ _. no_error (down "ListRevoked") >>= λ _.
        ok (
          list_rows (λ m. m.id) codec has_next r.limit r.cursor
            (filter (lists_revoked r) s.revoked))

    -- ListCertificates
    unfoldable pub list_certificates : ListCertificatesRequest → Store → Result (Page Certificate)
    list_certificates r s = check_list_scope r.org_id r.platform r.all_orgs >>= λ _.
        check_key key_id r.cursor >>= λ _. no_error (down "ListCertificates") >>= λ _. ok (
          list_rows (λ c. c.id) codec has_next r.limit r.cursor
            (filter (lists_certificate r) s.certificates))
