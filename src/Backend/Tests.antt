-- ===== src/Backend/Tests.antt =====
-- An API key of the org revokes a certificate.
use text.Mathlib.Text.{◌==◌ as str_eq}
use trustyca.Base.{
  ℕ, String, ◌≡◌, ◌≢◌, ◌↔◌, ◌⊎◌, refl, true, false, Option, some, none, if◌then◌else◌, [], Any,
}
use trustyca.Base.Status.{Result, ok, err, wrapped}
use trustyca.Db.Model.{Org}
use trustyca.Db.Tests.{codec, is_full}
use trustyca.Authctx.Role.{api_key}
use trustyca.Authctx.Access.{TrustyCtx, Authorizer, MethodInfo, refused, access_denied, is_api_key}
use trustyca.Ca.Rows.{
  Certificate, revoked_validate, validate_tenancy, validate_length, new_revoked_certificate,
  is_revoked,
}
use trustyca.Ca.Revocations.{
  revoke_certificate, get_certificate, get_certificate_for_update, register_revoked,
  update_certificate_status, revocation, set_status,
}
use trustyca.Ca.Tests.{up, store, revoked_store, revoked_certificate_10}
use trustyca.Backend.Scope.{
  TenantScope, is_service_caller, org, request_project, row_access, key_row_access, in_project,
  parse_id_val,
}
use trustyca.Backend.Scope.Access.{row_access_iff, KeyMayUse, UserMayUse}
use trustyca.Backend.Certs.{RevokeCertificateRequest, is_reason, revoke, find_certificate, selected}
use trustyca.Backend.Certs.Revoked.{revoke-row_access, event_of, request_of}

abbrev pub key : TrustyCtx
key = record {
  user_id = 0;
  user_name = "";
  user_email = "";
  org_id = 7;
  org_role = api_key;
  project_id = 0;
  scopes = [];
  app_role = "user";
  user_agent = "";
  target = "";
  auth_method = "apikey";
}

abbrev pub authorizer : Authorizer
authorizer = record {
  grants = λ o u. refused access_denied;
  project = λ o p. refused access_denied;
  check_role = λ o p u roles. refused access_denied;
}

abbrev pub no_method : String → Option MethodInfo
no_method name = none

abbrev pub no_org : ℕ → Result Org
no_org id = err (wrapped "failed")

abbrev pub scope : TenantScope
scope = record {
  parse_id = λ s. if str_eq s "10" then some 10 else none;
  id_string = λ n. "7";
  method_info = no_method;
  authorizer = authorizer;
  get_org = no_org;
}

abbrev revoke_10 : RevokeCertificateRequest
revoke_10 = record {
  org_id = "7";
  project_id = "";
  id = "10";
  skid = "";
  issuer_serial = none;
  reason = 1;
  reason_text = "";
}

row_access_iff_example :
    (row_access scope key 7 0 "/pb.CA/RevokeCertificate" "certificate not found" ≡ ok tt) ↔ (
      (is_service_caller key ≡ true)
      ⊎ ((is_api_key key ≡ true) × KeyMayUse scope key 7 0 [])
      ⊎ ((is_api_key key ≡ false) × UserMayUse scope key 7 0 []))
row_access_iff_example =
    row_access_iff scope key 7 0 "/pb.CA/RevokeCertificate" "certificate not found"

revoked :
    revoke scope key up codec is_full 50 (some revoke_10) store
    ≡ ok (revoked_certificate_10, event_of 7 revoked_certificate_10, revoked_store)
unfolding revoke is_reason org request_project find_certificate selected get_certificate
    parse_id_val in_project row_access key_row_access is_service_caller revoke_certificate
    get_certificate_for_update register_revoked update_certificate_status revocation set_status
    revoked_validate validate_tenancy validate_length new_revoked_certificate
revoked = refl

revoke-row_access_example :
    (is_reason 1 ≡ true)
    × (revoke_10.reason ≢ 8)
    × ((org_id : ℕ) × (project_id : ℕ) × (row : Certificate) × (org scope key "7" ≡ ok org_id)
        × (request_project scope key org_id "" ≡ ok project_id)
        × Any (λ c. c ≡ row) store.certificates
        × (row.org_id ≡ org_id)
        × ((project_id ≡ 0) ⊎ (row.project_id ≡ project_id))
        × (is_revoked row.status ≡ false)
        × (row_access scope key org_id row.project_id "/pb.CA/RevokeCertificate"
              "certificate not found"
            ≡ ok tt)
        × (revoke_certificate up 50
              (request_of scope key up codec is_full 50 store org_id revoke_10 row)
              store
            ≡ ok (revoked_certificate_10, revoked_store))
        × (event_of 7 revoked_certificate_10 ≡ event_of org_id revoked_certificate_10))
revoke-row_access_example =
    revoke-row_access scope key up codec is_full 50 store revoke_10 revoked_certificate_10
      (event_of 7 revoked_certificate_10) revoked_store revoked
