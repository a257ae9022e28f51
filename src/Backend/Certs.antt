-- ===== src/Backend/Certs.antt =====
-- server/service/backend/cert.go: the certificates that a caller reads and revokes. The events and
-- the metrics are left out but for the event of a revocation, which is given with the result.
pub mod Found
pub mod Revoked
use Prim.Native.String.{len}
use text.Mathlib.Text.{◌==◌ as str_eq}
use trustyca.Base.{
  ltb, leb, ℕ, String, Bool, false, not, ◌&&◌, ◌||◌, Option, none, some, List, [], ◌∷◌, ◌==◌,
  if◌then◌else◌,
}
use trustyca.Base.Status.{
  Result, Error, ok, err, grpc, wrapped, ◌>>=◌, invalid_argument, not_found, failed_precondition,
}
use trustyca.Db.Model.{Scope}
use trustyca.Db.Cursor.{Codec, Cursor, zero_cursor, list_cursor, parse_cursor, limit}
use trustyca.Db.Pages.{Page}
use trustyca.Authctx.Access.{TrustyCtx}
use trustyca.Ca.Rows.{
  Certificate, CertificateStatus, certificate_unknown, is_revoked, RevokedCertificate,
  max_len_for_name,
}
use trustyca.Ca.Store.{Store}
use trustyca.Ca.Revocations.{
  get_certificate, get_certificate_by_sha256, get_certificate_by_issuer_serial,
  ListCertificatesRequest, list_certificates, revoke_certificate,
}
use trustyca.Backend.Scope.{
  TenantScope, missing, parse_id_val, org, project, request_project, row_access, list_projects,
  in_project,
}

-- certificateSelector; a nil issuer and serial number is none
pub record Selector : Type 0 where
  pub id : String
  pub skid : String
  pub sha256 : String
  pub issuer_serial : Option (String × String)
  pub project_id : ℕ

-- privpb.RevokeCertificateRequest; the reason is the number of its code
pub record RevokeCertificateRequest : Type 0 where
  pub org_id : String
  pub project_id : String
  pub id : String
  pub skid : String
  pub issuer_serial : Option (String × String)
  pub reason : ℕ
  pub reason_text : String

-- privpb.ListCertificatesRequest, for the lists that page by cursor, with the expiry parsed
pub record CertificatesRequest : Type 0 where
  pub org_id : String
  pub project_id : String
  pub ikid : String
  pub profile : String
  pub status : CertificateStatus
  pub expiring_before : Option ℕ
  pub limit : ℕ
  pub cursor : String

-- the event CertificateRevoked
pub record RevokedEvent : Type 0 where
  pub org_id : ℕ
  pub project_id : ℕ
  pub reference : ℕ

-- pb.ReasonCode_Enum_name: the codes of RFC 5280
unfoldable pub is_reason : ℕ → Bool
is_reason n = leb n 10 && not (n == 7)

-- xdb.IsNotFoundError: the error of a statement that finds no row, not one of a handler
abbrev pub is_not_found : Error → Bool
is_not_found (grpc not_found m) = str_eq m "not found"
is_not_found (grpc c m) = false
is_not_found (wrapped m) = false

abbrev pub row_read : {A : Type 0} → Result A → Result A
row_read (ok row) = ok row
row_read (err e) =
    if is_not_found e
    then missing "certificate not found"
    else err (wrapped "unable to find certificate")

-- errors.Is of db.ErrAlreadyRevoked
abbrev pub is_already_revoked : Error → Bool
is_already_revoked (grpc c m) = false
is_already_revoked (wrapped m) = str_eq m "certificate is already revoked"

-- the error of db.RevokeCertificate, as the handler reports it
abbrev pub revoke_error : {A : Type 0} → Error → Result A
revoke_error e =
    if is_already_revoked e
    then err (grpc failed_precondition "certificate is already revoked")
    else if is_not_found e
    then missing "certificate not found"
    else err (wrapped "failed to revoke certificate")

abbrev pub first_row : List Certificate → Option Certificate
first_row [] = none
first_row (c ∷ rows) = some c

-- the project of a row that was read, in the list of projects of certificateBySKID
abbrev pub key_projects : ℕ → Result (Option (List ℕ)) → Result (Option (List ℕ))
key_projects key_project_id visible =
    if key_project_id == 0 then visible else ok (some (key_project_id ∷ []))

abbrev pub names_serial : Option (String × String) → Bool
names_serial none = false
names_serial (some (ikid, serial)) = not (str_eq ikid "") || not (str_eq serial "")

abbrev pub lists_error : {A : Type 0} → Result A → Result A
lists_error (ok a) = ok a
lists_error (err e) = err (wrapped "failed to list certificates")

module _ (scope : TenantScope) (tctx : TrustyCtx) (down : String → Bool) (codec : Codec)
    (has_next : ℕ → ℕ → Bool) where
  -- the list request of certificateBySKID
  unfoldable pub skid_request : ℕ → ℕ → Option (List ℕ) → String → ListCertificatesRequest
  skid_request org_id project_id project_ids skid = record {
    org_id = org_id;
    platform = false;
    all_orgs = false;
    project_id = project_id;
    scope = Scope.undefined;
    project_ids = project_ids;
    ikid = "";
    skid = skid;
    profile = "";
    status = certificate_unknown;
    expiring_before = none;
    limit = 1;
    cursor = zero_cursor;
  }

  -- the projects that certificateBySKID lists
  abbrev pub skid_projects : ℕ → ℕ → Result (Option (List ℕ))
  skid_projects org_id project_id =
      if not (project_id == 0)
      then ok none
      else (project scope tctx org_id "" >>= λ key_project_id.
          key_projects key_project_id (list_projects scope tctx org_id))

  abbrev pub skid_then : ℕ → ℕ → String → Store → Option (List ℕ) → Result (Option Certificate)
  skid_then org_id project_id skid s project_ids =
      list_certificates down codec has_next (skid_request org_id project_id project_ids skid) s
      >>= λ page. ok (first_row page.rows)

  -- certificateBySKID
  unfoldable pub certificate_by_skid : ℕ → ℕ → String → Store → Result (Option Certificate)
  certificate_by_skid org_id project_id skid s =
      skid_projects org_id project_id >>= skid_then org_id project_id skid s

  abbrev pub by_serial : Option (String × String) → Store → Result (Option Certificate)
  by_serial none s = ok none
  by_serial (some (ikid, serial)) s =
      if str_eq ikid "" || str_eq serial ""
      then err (grpc invalid_argument "issuer key ID and serial number are required")
      else row_read (get_certificate_by_issuer_serial down ikid serial s >>= λ c. ok (some c))

  -- the switch of findCertificate
  unfoldable pub selected : ℕ → Selector → Store → Result (Option Certificate)
  selected org_id sel s =
      if not (str_eq sel.id "")
      then (parse_id_val scope.parse_id "missing certificate ID" "invalid certificate ID" sel.id
          >>= λ id. row_read (get_certificate down id s >>= λ c. ok (some c)))
      else if names_serial sel.issuer_serial
      then by_serial sel.issuer_serial s
      else if not (str_eq sel.sha256 "")
      then row_read (get_certificate_by_sha256 down sel.sha256 s >>= λ c. ok (some c))
      else if not (str_eq sel.skid "")
      then row_read (certificate_by_skid org_id sel.project_id sel.skid s)
      else err (grpc invalid_argument "certificate ID, SKID, SHA-256 or issuer serial is required")

  -- the checks of findCertificate on the row
  abbrev pub checked : ℕ → ℕ → String → Option Certificate → Result Certificate
  checked org_id project_id method none = missing "certificate not found"
  checked org_id project_id method (some row) =
      if not (row.org_id == org_id)
      then missing "certificate not found"
      else if not (in_project row.project_id project_id)
      then missing "certificate not found"
      else (row_access scope tctx org_id row.project_id method "certificate not found" >>= λ _.
          ok row)

  -- findCertificate
  unfoldable pub find_certificate : ℕ → Selector → String → Store → Result Certificate
  find_certificate org_id sel method s =
      selected org_id sel s >>= checked org_id sel.project_id method

  abbrev pub revoked_reply :
      ℕ → Result (RevokedCertificate × Store) → Result (RevokedCertificate × RevokedEvent × Store)
  revoked_reply org_id (err e) = revoke_error e
  revoked_reply org_id (ok (r, t)) =
      ok (r, record { org_id = org_id; project_id = r.project_id; reference = r.certificate_id }, t)

  -- RevokeCertificate after the checks of the request
  abbrev pub revoke_found :
      ℕ
      → ℕ
      → RevokeCertificateRequest
      → Store
      → Certificate
      → Result (RevokedCertificate × RevokedEvent × Store)
  revoke_found now org_id req s row =
      if is_revoked row.status
      then err (grpc failed_precondition "certificate is already revoked")
      else revoked_reply org_id (
          revoke_certificate down now
            (record {
              certificate_id = row.id;
              org_id = org_id;
              revoked_at = now;
              reason = req.reason;
              reason_text = req.reason_text;
            })
            s)

  -- the selector of RevokeCertificate
  abbrev pub revoke_selector : RevokeCertificateRequest → ℕ → Selector
  revoke_selector req project_id = record {
    id = req.id;
    skid = req.skid;
    sha256 = "";
    issuer_serial = req.issuer_serial;
    project_id = project_id;
  }

  -- RevokeCertificate; a nil request is none
  unfoldable pub revoke :
      ℕ
      → Option RevokeCertificateRequest
      → Store
      → Result (RevokedCertificate × RevokedEvent × Store)
  revoke now none s = err (grpc invalid_argument "missing request")
  revoke now (some req) s =
      if not (is_reason req.reason)
      then err (grpc invalid_argument "invalid reason")
      else if req.reason == 8
      then err (grpc invalid_argument "reason releases a certificate from hold")
      else if ltb max_len_for_name (len req.reason_text)
      then err (grpc invalid_argument "invalid reason text length")
      else (org scope tctx req.org_id >>= λ org_id.
          request_project scope tctx org_id req.project_id >>= λ project_id.
          find_certificate org_id (revoke_selector req project_id) "/pb.CA/RevokeCertificate" s
          >>= revoke_found now org_id req s)

  -- the list request of ListCertificates
  unfoldable pub certificates_request :
      ℕ → CertificatesRequest → ℕ → ℕ → Option (List ℕ) → Cursor → ListCertificatesRequest
  certificates_request page req org_id project_id project_ids cursor = record {
    org_id = org_id;
    platform = false;
    all_orgs = false;
    project_id = project_id;
    scope = Scope.undefined;
    project_ids = project_ids;
    ikid = req.ikid;
    skid = "";
    profile = req.profile;
    status = req.status;
    expiring_before = req.expiring_before;
    limit = limit page req.limit;
    cursor = cursor;
  }

  -- ListCertificates
  unfoldable pub list : ℕ → Option CertificatesRequest → Store → Result (Page Certificate)
  list page none s = err (grpc invalid_argument "missing request")
  list page (some req) s = org scope tctx req.org_id >>= λ org_id.
      project scope tctx org_id req.project_id >>= λ project_id.
      list_cursor req.cursor (parse_cursor codec) >>= λ cursor.
      (if project_id == 0 then list_projects scope tctx org_id else ok none) >>= λ project_ids.
      lists_error (
        list_certificates down codec has_next
          (certificates_request page req org_id project_id project_ids cursor) s)
