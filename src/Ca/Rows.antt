-- ===== src/Ca/Rows.antt =====
-- internal/db/model: the rows of the CA tables, as the revocations and the CRLs use them. An xdb.ID
-- is its number, zero the absent one; a time is its number of seconds, zero the zero time.
use Prim.Native.String.{len}
use text.Mathlib.Text.{◌==◌ as str_eq}
use trustyca.Db.Model.{ItemStatus}
use trustyca.Base.{List, all, ltb, ℕ, String, Bool, true, false, not, ◌&&◌, ◌||◌, ◌==◌}

-- pb.IssuerStatus_Enum
pub data IssuerStatus : Type 0 where
  issuer_unknown issuer_pending issuer_active issuer_archived issuer_destroyed : IssuerStatus

abbrev pub issuer_status_number : IssuerStatus → ℕ
issuer_status_number issuer_unknown = 0
issuer_status_number issuer_pending = 1
issuer_status_number issuer_active = 2
issuer_status_number issuer_archived = 3
issuer_status_number issuer_destroyed = 4

-- pb.CertificateStatus_Enum
pub data CertificateStatus : Type 0 where
  certificate_unknown certificate_active certificate_expired certificate_revoked : CertificateStatus

abbrev pub certificate_status_number : CertificateStatus → ℕ
certificate_status_number certificate_unknown = 0
certificate_status_number certificate_active = 1
certificate_status_number certificate_expired = 2
certificate_status_number certificate_revoked = 3

abbrev pub is_revoked : CertificateStatus → Bool
is_revoked s = certificate_status_number s == 3

-- pb.AuthorityType_Enum
pub data AuthorityType : Type 0 where
  authority_unknown authority_root authority_intermediate authority_issuing : AuthorityType
  authority_shaken authority_shaken_delegated : AuthorityType

-- Issuer; no protected key is the empty text
pub record Issuer : Type 0 where
  pub id : ℕ
  pub org_id : ℕ
  pub project_id : ℕ
  pub label : String
  pub type : AuthorityType
  pub status : IssuerStatus
  pub parent_id : ℕ
  pub skid : String
  pub ikid : String
  pub serial_number : String
  pub subject : String
  pub issuer : String
  pub sha256 : String
  pub not_before : ℕ
  pub not_after : ℕ
  pub pem : String
  pub chain_pem : String
  pub root_pem : String
  pub csr_pem : String
  pub key_provider : String
  pub key_id : String
  pub key_protected : String
  pub config : String
  pub crl_number : ℕ
  pub updated_at : ℕ

-- CertificateProfile
pub record CertificateProfile : Type 0 where
  pub id : ℕ
  pub org_id : ℕ
  pub project_id : ℕ
  pub label : String
  pub issuer_label : String
  pub status : ItemStatus
  pub config : String
  pub updated_at : ℕ

-- Certificate
pub record Certificate : Type 0 where
  pub id : ℕ
  pub org_id : ℕ
  pub project_id : ℕ
  pub skid : String
  pub ikid : String
  pub serial_number : String
  pub not_after : ℕ
  pub subject : String
  pub sha256 : String
  pub profile : String
  pub label : String
  pub status : CertificateStatus
  pub not_before : ℕ
  pub issuer : String
  pub locations : List String
  pub metadata : List (String × String)
  pub pem : String
  pub issuers_pem : String
  pub created_at : ℕ

-- Revoked; the reason is the code of pb.ReasonCode_Enum
pub record Revoked : Type 0 where
  pub id : ℕ
  pub org_id : ℕ
  pub project_id : ℕ
  pub certificate_id : ℕ
  pub ikid : String
  pub serial_number : String
  pub not_after : ℕ
  pub revoked_at : ℕ
  pub reason : ℕ
  pub reason_text : String

-- Crl, less the time that the row was created
pub record Crl : Type 0 where
  pub id : ℕ
  pub org_id : ℕ
  pub project_id : ℕ
  pub issuer_id : ℕ
  pub ikid : String
  pub crl_number : ℕ
  pub this_update : ℕ
  pub next_update : ℕ
  pub issuer : String
  pub pem : String
  pub locations : List String

-- MaxLenForLabel
abbrev pub max_len_for_label : ℕ
max_len_for_label = 64

-- MaxLenForName
abbrev pub max_len_for_name : ℕ
max_len_for_name = 260

-- validateTenancy: true where it returns no error, as the tests below
unfoldable pub validate_tenancy : ℕ → ℕ → Bool
validate_tenancy org_id project_id = project_id == 0 || not (org_id == 0)

-- validateLength
unfoldable pub validate_length : String → ℕ → Bool → Bool
validate_length val max_len required =
    not (required && str_eq val "") && not (ltb max_len (len val))

-- Revoked.Validate
unfoldable pub revoked_validate : Revoked → Bool
revoked_validate m =
    validate_tenancy m.org_id m.project_id
    && not (m.certificate_id == 0)
    && validate_length m.ikid max_len_for_label true
    && validate_length m.serial_number max_len_for_label true
    && validate_length m.reason_text max_len_for_name false
    && not (m.not_after == 0)
    && not (m.revoked_at == 0)

-- Crl.Validate
unfoldable pub crl_validate : Crl → Bool
crl_validate m =
    validate_tenancy m.org_id m.project_id
    && not (m.issuer_id == 0)
    && validate_length m.ikid max_len_for_label true
    && ltb 0 m.crl_number
    && (not (m.this_update == 0) && not (m.next_update == 0) && ltb m.this_update m.next_update)
    && validate_length m.issuer max_len_for_name true
    && all (λ loc. validate_length loc max_len_for_name true) m.locations
    && not (str_eq m.pem "")

-- RevokedCertificate: a certificate with its revocation
pub record RevokedCertificate : Type 0 where
  pub id : ℕ
  pub org_id : ℕ
  pub project_id : ℕ
  pub certificate_id : ℕ
  pub skid : String
  pub ikid : String
  pub serial_number : String
  pub not_after : ℕ
  pub subject : String
  pub sha256 : String
  pub profile : String
  pub label : String
  pub status : CertificateStatus
  pub revoked_at : ℕ
  pub reason : ℕ
  pub reason_text : String
  pub not_before : ℕ
  pub issuer : String
  pub locations : List String
  pub metadata : List (String × String)
  pub pem : String
  pub issuers_pem : String
  pub created_at : ℕ

-- NewRevokedCertificate
unfoldable pub new_revoked_certificate : Certificate → Revoked → RevokedCertificate
new_revoked_certificate c r = record {
  id = r.id;
  org_id = r.org_id;
  project_id = r.project_id;
  certificate_id = c.id;
  skid = c.skid;
  ikid = c.ikid;
  serial_number = c.serial_number;
  not_after = c.not_after;
  subject = c.subject;
  sha256 = c.sha256;
  profile = c.profile;
  label = c.label;
  status = c.status;
  revoked_at = r.revoked_at;
  reason = r.reason;
  reason_text = r.reason_text;
  not_before = c.not_before;
  issuer = c.issuer;
  locations = c.locations;
  metadata = c.metadata;
  pem = c.pem;
  issuers_pem = c.issuers_pem;
  created_at = c.created_at;
}

-- RevokedCertificate.Certificate
unfoldable pub certificate_of : RevokedCertificate → Certificate
certificate_of m = record {
  id = m.certificate_id;
  org_id = m.org_id;
  project_id = m.project_id;
  skid = m.skid;
  ikid = m.ikid;
  serial_number = m.serial_number;
  not_after = m.not_after;
  subject = m.subject;
  sha256 = m.sha256;
  profile = m.profile;
  label = m.label;
  status = m.status;
  not_before = m.not_before;
  issuer = m.issuer;
  locations = m.locations;
  metadata = m.metadata;
  pem = m.pem;
  issuers_pem = m.issuers_pem;
  created_at = m.created_at;
}
