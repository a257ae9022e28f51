-- ===== src/Ca/Tests.antt =====
-- An issuer whose certificate 10 is revoked, and the CRLs that it publishes.

use text.Mathlib.Text.{◌==◌ as str_eq}
use trustyca.Base.{
  ℕ, String, ◌≡◌, ◌<◌, refl, Bool, true, false, Option, some, none, if◌then◌else◌, arith, List, [],
  ◌∷◌, Any, find?, ◌+◌, All,
}
use trustyca.Base.Status.{ok, err}
use trustyca.Db.Cursor.{new_cursor, check_key, kind_eq, set_page}
use trustyca.Db.Pages.{collect, list_rows, page_of, page_by_id_desc}
use trustyca.Db.Tests.{codec, codec-laws, is_full, is_full-laws}
use trustyca.Db.Scopes.{
  set_org_scope, where_org_scope, set_project_scope, where_project_scope, check_list_scope,
}
use trustyca.Ca.Rows.{
  Issuer, authority_root, issuer_active, Certificate, certificate_active, certificate_revoked,
  Revoked, Crl, RevokedCertificate, new_revoked_certificate, revoked_validate, crl_validate,
  validate_tenancy, validate_length,
}
use trustyca.Ca.Store.{
  Store, publish_crl, set_issuer_crl_number, set_crl_number, takes_number, crl_of_issuer,
  replace_crl, get_issuer, already_revoked, get_crls,
}
use trustyca.Ca.Revocations.{
  RevokeRequest, revoke_certificate, get_certificate_for_update, register_revoked,
  update_certificate_status, revocation, set_status, list_revoked, lists_revoked,
}
use trustyca.Ca.Revocations.Twice.{revoke_certificate-twice}
use trustyca.Ca.Crl.{
  ℤ, pos, Publisher, Loaded, Entry, crl_entries, entry_of, revocations_of, build_crl, built_crl,
  next_update_at, attempts, publish, issuer_expired, expired_at, crl_due, crl_due_at,
}
use trustyca.Ca.Crl.Bounds.{WithinValidity}
use trustyca.Ca.Crl.Numbers.{none_yet, and_then, publishes, publish_crl-grows, IsCurrent}
use trustyca.Ca.Crl.Listed.{revoke_certificate-crl_entries}
use trustyca.Ca.Crl.Published.{publish-published}
use trustyca.Ca.Crl.Runs.{
  PublishCrlsResult, publish_page, publish_rows, publish_one, current_crls, current_of, recorded,
  add_crl, skip_one, fail_one, crls_read, outcomes, Valid, publish_page-outcomes,
}
use trustyca.Ca.Crl.Counts.{
  CrlState, CrlCounts, count_crls, count_from, classify, valid_issuers, count_crls-Sums,
}

abbrev pub up : String → Bool
up name = false

abbrev pub issuer_1 : Issuer
issuer_1 = record {
  id = 1;
  org_id = 7;
  project_id = 0;
  label = "ca";
  type = authority_root;
  status = issuer_active;
  parent_id = 0;
  skid = "k1";
  ikid = "k1";
  serial_number = "1";
  subject = "CN=ca";
  issuer = "CN=ca";
  sha256 = "00";
  not_before = 10;
  not_after = 900;
  pem = "PEM";
  chain_pem = "";
  root_pem = "";
  csr_pem = "";
  key_provider = "inmem";
  key_id = "key";
  key_protected = "";
  config = "{}";
  crl_number = 4;
  updated_at = 20;
}

abbrev pub certificate_10 : Certificate
certificate_10 = record {
  id = 10;
  org_id = 7;
  project_id = 0;
  skid = "s10";
  ikid = "k1";
  serial_number = "11";
  not_after = 500;
  subject = "CN=site";
  sha256 = "";
  profile = "server";
  label = "";
  status = certificate_active;
  not_before = 0;
  issuer = "CN=ca";
  locations = [];
  metadata = [];
  pem = "";
  issuers_pem = "";
  created_at = 0;
}

abbrev pub store : Store
store = record {
  issuers = issuer_1 ∷ [];
  profiles = [];
  certificates = certificate_10 ∷ [];
  revoked = [];
  crls = [];
  next_id = 100;
}

abbrev revoke_10 : RevokeRequest
revoke_10 = record { certificate_id = 10; org_id = 7; revoked_at = 0; reason = 1; reason_text = "" }

abbrev revoked_10 : Revoked
revoked_10 = record {
  id = 100;
  org_id = 7;
  project_id = 0;
  certificate_id = 10;
  ikid = "k1";
  serial_number = "11";
  not_after = 500;
  revoked_at = 50;
  reason = 1;
  reason_text = "";
}

abbrev pub revoked_store : Store
revoked_store = record store {
  certificates = record certificate_10 { status = certificate_revoked } ∷ [];
  revoked = revoked_10 ∷ [];
  next_id = 101;
}

abbrev pub revoked_certificate_10 : RevokedCertificate
revoked_certificate_10 = record {
  id = 100;
  org_id = 7;
  project_id = 0;
  certificate_id = 10;
  skid = "s10";
  ikid = "k1";
  serial_number = "11";
  not_after = 500;
  subject = "CN=site";
  sha256 = "";
  profile = "server";
  label = "";
  status = certificate_revoked;
  revoked_at = 50;
  reason = 1;
  reason_text = "";
  not_before = 0;
  issuer = "CN=ca";
  locations = [];
  metadata = [];
  pem = "";
  issuers_pem = "";
  created_at = 0;
}

is_revoked_10 :
    revoke_certificate up 50 revoke_10 store ≡ ok (revoked_certificate_10, revoked_store)
unfolding revoke_certificate get_certificate_for_update register_revoked update_certificate_status
    revocation set_status revoked_validate validate_tenancy validate_length new_revoked_certificate
is_revoked_10 = refl

revoke_certificate-twice_example :
    revoke_certificate up 60 revoke_10 revoked_store ≡ err already_revoked
revoke_certificate-twice_example =
    revoke_certificate-twice up up 50 60 revoke_10 revoke_10 store revoked_store
      revoked_certificate_10 is_revoked_10 refl refl (λ e. omega arith) (omega arith) refl

abbrev crl : ℕ → ℕ → Crl
crl number id = record {
  id = id;
  org_id = 7;
  project_id = 0;
  issuer_id = 1;
  ikid = "k1";
  crl_number = number;
  this_update = 60;
  next_update = 160;
  issuer = "CN=ca";
  pem = "pem";
  locations = [];
}

abbrev published : ℕ → ℕ → Store
published number next_id = record revoked_store {
  issuers = record issuer_1 { crl_number = number } ∷ [];
  profiles = [];
  crls = crl number 101 ∷ [];
  next_id = next_id;
}

publish_5 : publish_crl up (crl 5 0) revoked_store ≡ ok (crl 5 101, published 5 102)
unfolding publish_crl set_issuer_crl_number set_crl_number takes_number crl_of_issuer replace_crl
    get_issuer crl_validate validate_tenancy validate_length
publish_5 = refl

publish_6 : publish_crl up (crl 6 0) (published 5 102) ≡ ok (crl 6 101, published 6 103)
unfolding publish_crl set_issuer_crl_number set_crl_number takes_number crl_of_issuer replace_crl
    get_issuer crl_validate validate_tenancy validate_length
publish_6 = refl

publish_crl-grows_example :
    IsCurrent "k1" (crl 5 101) (published 5 102)
    × IsCurrent "k1" (crl 6 101) (published 6 103)
    × ((crl 5 101).crl_number < (crl 6 101).crl_number)
publish_crl-grows_example =
    publish_crl-grows up up (crl 5 0) (crl 6 0) (crl 5 101) (crl 6 101) revoked_store
      (published 5 102) (published 5 102) (published 6 103) publish_5 none_yet publish_6 refl refl

abbrev serial_number : String → Option ℤ
serial_number s = if str_eq s "11" then some (pos 11) else none

abbrev loaded : Loaded
loaded = record { not_after = 900; crl_expiry = 100 }

abbrev publisher : Publisher
publisher = record {
  down = up;
  codec = codec;
  has_next = is_full;
  parse_serial = serial_number;
  renewal_of = λ config. ok 20;
  load = λ issuer. ok loaded;
  sign = λ issuer template. ok "pem";
}

abbrev entry : Entry
entry = record { serial_number = pos 11; revocation_time = 50; reason_code = 1 }

listed : crl_entries publisher "k1" 60 (published 5 102) ≡ ok (entry ∷ [])
unfolding crl_entries collect entry_of revocations_of list_revoked lists_revoked list_rows page_of
    page_by_id_desc set_page new_cursor check_key kind_eq check_list_scope set_org_scope
    where_org_scope set_project_scope where_project_scope
listed = refl

revoke_certificate-crl_entries_example :
    Any (λ e. (serial_number "11" ≡ some e.serial_number) × (e.reason_code ≡ 1)) (entry ∷ [])
revoke_certificate-crl_entries_example =
    revoke_certificate-crl_entries publisher codec-laws is_full-laws up 50 60 revoke_10 store
      revoked_store (published 5 102) revoked_certificate_10 (entry ∷ []) is_revoked_10
      (and_then none_yet (publishes up (crl 5 0) (crl 5 101) publish_5)) refl (tt, tt) (tt, tt)
      ((λ e. omega arith), tt) (omega arith) listed

abbrev undisturbed : ℕ → Store → Store
undisturbed n s = s

published_5 :
    publish publisher undisturbed false 60 issuer_1 none revoked_store
    ≡ (ok (some (crl 5 101), true), published 5 102)
unfolding publish issuer_expired expired_at crl_due attempts build_crl built_crl next_update_at
    publish_crl set_issuer_crl_number set_crl_number takes_number crl_of_issuer replace_crl
    get_issuer crl_validate validate_tenancy validate_length crl_entries collect entry_of
    revocations_of list_revoked lists_revoked list_rows page_of page_by_id_desc set_page new_cursor
    check_key kind_eq check_list_scope set_org_scope where_org_scope set_project_scope
    where_project_scope
published_5 = refl

publish-published_example :
    (issuer : Loaded) × (c : Crl) × (publisher.load issuer_1 ≡ ok issuer)
    × (some (crl 5 101) ≡ some c)
    × (find? (λ d. str_eq d.ikid c.ikid) (published 5 102).crls ≡ some c)
    × (issuer_expired issuer_1 60 ≡ false)
    × WithinValidity issuer 60 c.this_update c.next_update
publish-published_example =
    publish-published publisher undisturbed false 60 issuer_1 none revoked_store (published 5 102)
      (some (crl 5 101)) published_5

-- an issuer whose certificate has expired
abbrev expired_issuer : Issuer
expired_issuer = record issuer_1 { id = 2; skid = "k2"; not_after = 50 }

abbrev no_outcome : PublishCrlsResult
no_outcome = record { crls = []; skipped = 0; failed = 0 }

abbrev outcome : PublishCrlsResult
outcome = record { crls = some (crl 5 101) ∷ []; skipped = 1; failed = 0 }

page_of_two :
    publish_page publisher
      (λ row. undisturbed)
      false
      (λ row. (60, 60))
      (expired_issuer ∷ issuer_1 ∷ [])
      no_outcome
      revoked_store
    ≡ ok (outcome, published 5 102)
unfolding publish_page publish_rows publish_one current_crls current_of recorded add_crl skip_one
    fail_one crls_read get_crls publish issuer_expired expired_at crl_due attempts build_crl
    built_crl next_update_at publish_crl set_issuer_crl_number set_crl_number takes_number
    crl_of_issuer replace_crl get_issuer crl_validate validate_tenancy validate_length crl_entries
    collect entry_of revocations_of list_revoked lists_revoked list_rows page_of page_by_id_desc
    set_page new_cursor check_key kind_eq check_list_scope set_org_scope where_org_scope
    set_project_scope where_project_scope
page_of_two = refl

publish_page-outcomes_example :
    (outcomes outcome ≡ outcomes no_outcome + 2) × All Valid outcome.crls
publish_page-outcomes_example =
    publish_page-outcomes publisher (λ row. undisturbed) false (λ row. (60, 60))
      (expired_issuer ∷ issuer_1 ∷ []) no_outcome outcome revoked_store (published 5 102)
      page_of_two tt

abbrev state_of : ℕ → ℕ → CrlState
state_of not_after next_update = record {
  id = 1;
  label = "ca";
  skid = "k1";
  not_after = not_after;
  config = "{}";
  next_update = next_update;
}

abbrev states : List CrlState
states =
    state_of 900 0 ∷ state_of 900 50 ∷ state_of 900 70 ∷ state_of 900 160 ∷ state_of 40 160 ∷ []

abbrev counts : CrlCounts
counts = record { issuers = 4; current = 1; due = 1; overdue = 1; missing = 1 }

counted : count_crls (λ config. ok 20) 60 states ≡ ok counts
unfolding count_crls count_from classify expired_at crl_due_at
counted = refl

count_crls-Sums_example :
    (counts.issuers ≡ counts.current + counts.due + counts.overdue + counts.missing)
    × (counts.issuers ≡ valid_issuers (λ config. ok 20) 60 states)
count_crls-Sums_example = count_crls-Sums (λ config. ok 20) 60 states counts counted
