-- ===== src/Backend/Issuers.antt =====
-- server/service/backend/issuer.go: the issuers that a caller finds, activates and moves along their
-- lifecycle, with the entries of the registry that a change drops.
pub mod Lifecycle
pub mod Tests
use text.Mathlib.Text.{◌==◌ as str_eq}
use trustyca.Base.{ℕ, String, Bool, true, false, not, ◌&&◌, Option, none, some, ◌==◌, if◌then◌else◌}
use trustyca.Base.Status.{
  Result, Done, Error, ok, err, grpc, wrapped, invalid_argument, not_found, already_exists,
  failed_precondition, service_unavailable, ◌>>=◌,
}
use trustyca.Authctx.Access.{TrustyCtx}
use trustyca.Ca.Rows.{
  Issuer, IssuerStatus, issuer_unknown, issuer_pending, issuer_active, issuer_archived,
  issuer_destroyed, issuer_status_number,
}
use trustyca.Ca.Store.{Store}
use trustyca.Ca.Issuers.{
  UpdateIssuerRequest, update_issuer, activate_issuer, find_issuer_row, get_issuer_by_skid,
}
use trustyca.Ca.Registry.{Authority, State, scoped_read, is_missing}
use trustyca.Ca.Registry.Lookup.{invalidate_issuer}
use trustyca.Backend.Scope.{
  TenantScope, missing, org, project, request_project, issuer, visible_issuer,
}

-- the event that a change emits
pub data IssuerEvent : Type 0 where
  issuer_activated issuer_updated : ℕ → ℕ → ℕ → IssuerEvent

-- privpb.UpdateIssuerRequest; a nil config is none
pub record UpdateRequest : Type 0 where
  pub org_id : String
  pub project_id : String
  pub id : String
  pub status : IssuerStatus
  pub config : Option String

-- privpb.ActivateIssuerRequest
pub record ActivateRequest : Type 0 where
  pub org_id : String
  pub project_id : String
  pub id : String
  pub certificate : String
  pub intermediates : String
  pub root : String

-- privpb.GetIssuerRequest
pub record GetRequest : Type 0 where
  pub org_id : String
  pub project_id : String
  pub id : String
  pub label : String
  pub ikid : String

-- what the handlers call: is a registry configured, the check and the text of a config, whether the
-- statement reads it, and the row with an external certificate
pub record Calls : Type 0 where
  pub has_registry : Bool
  pub valid_config : String → String → Bool
  pub marshal : String → Result String
  pub parses : String → Bool
  pub activated : Issuer → String → String → String → Result Issuer

-- issuerTransitions; no entry is the unknown status
unfoldable pub issuer_transitions : IssuerStatus → IssuerStatus
issuer_transitions issuer_active = issuer_archived
issuer_transitions issuer_archived = issuer_destroyed
issuer_transitions issuer_unknown = issuer_unknown
issuer_transitions issuer_pending = issuer_unknown
issuer_transitions issuer_destroyed = issuer_unknown

-- a check of a request
abbrev pub refuse_if : Bool → Error → Result Done
refuse_if bad e = if bad then err e else ok tt

-- requireCA
unfoldable pub require_ca : Bool → Result Done
require_ca has_registry =
    if has_registry then ok tt else err (grpc service_unavailable "CA is not configured")

-- the check of the status that a request asks for
unfoldable pub check_transition : Issuer → IssuerStatus → Result Done
check_transition row status =
    if (issuer_status_number status == 0)
    then ok tt
    else if not
        (issuer_status_number (issuer_transitions row.status) == issuer_status_number status)
    then err (grpc failed_precondition "issuer status cannot change")
    else ok tt

-- the config of the statement, from that of the request
unfoldable pub update_config : Calls → Issuer → Option String → Result String
update_config calls row none = ok ""
update_config calls row (some config) =
    if not (calls.valid_config row.label config)
    then err (grpc invalid_argument "invalid config")
    else calls.marshal config

abbrev pub is_unique_skid : Error → Bool
is_unique_skid (wrapped m) = str_eq m "unique_issuer_skid"
is_unique_skid (grpc c m) = false

-- the errors of the statements
abbrev pub update_error : {A : Type 0} → Result A → Result A
update_error (ok a) = ok a
update_error (err e) =
    if is_missing e then missing "issuer not found" else err (wrapped "failed to update issuer")

abbrev pub activate_error : {A : Type 0} → Result A → Result A
activate_error (ok a) = ok a
activate_error (err e) =
    if is_missing e
    then err (grpc failed_precondition "issuer is not pending")
    else if is_unique_skid e
    then err (grpc already_exists "issuer key is already registered")
    else err (wrapped "failed to activate issuer")

-- IssuerByLabel
abbrev pub label_read : Result Issuer → Result Issuer
label_read (ok row) = ok row
label_read (err e) =
    if is_missing e then missing "issuer not found" else err (wrapped "unable to find issuer")

unfoldable pub issuer_by_label : (String → Bool) → ℕ → ℕ → String → Store → Result Issuer
issuer_by_label down org_id project_id label s = label_read (
    scoped_read project_id (find_issuer_row down org_id project_id label s)
      (find_issuer_row down org_id 0 label s))

abbrev is_nil : Option String → Bool
is_nil none = true
is_nil (some _) = false

abbrev pub nothing_to_update : UpdateRequest → Bool
nothing_to_update req = is_nil req.config && (issuer_status_number req.status == 0)

abbrev pub with_certificate : Result Issuer → Result Issuer
with_certificate (ok row) = ok row
with_certificate (err e) = err (grpc invalid_argument "failed to activate issuer")

module _ (scope : TenantScope) (tctx : TrustyCtx) (calls : Calls) where
  -- GetIssuer; a nil request is none
  unfoldable pub get_issuer_of : (String → Bool) → Option GetRequest → Store → Result Issuer
  get_issuer_of down none s = err (grpc invalid_argument "missing request")
  get_issuer_of down (some req) s = org scope tctx req.org_id >>= λ org_id.
      if not (str_eq req.id "")
      then issuer scope tctx down org_id 0 req.id "/pb.CA/GetIssuer" s
      else if not (str_eq req.label "")
      then (project scope tctx org_id req.project_id >>= λ project_id.
          issuer_by_label down org_id project_id req.label s)
      else if not (str_eq req.ikid "")
      then (label_read (get_issuer_by_skid down req.ikid s) >>= λ row.
          visible_issuer scope tctx org_id row "/pb.CA/GetIssuer")
      else err (grpc invalid_argument "issuer ID, label or IKID is required")

  module _ {C D E A P S : Type 0} (a : Authority C D E A P S) where
    -- the row, its event, and the tables and the registry that a handler leaves
    abbrev pub Changed : Type 0
    Changed = Issuer × IssuerEvent × Store × State a

    unfoldable pub updated : ℕ → State a → Issuer × Store → Result Changed
    updated org_id r (row, t) =
        ok (row, issuer_updated org_id row.project_id row.id, t, invalidate_issuer a row r)

    unfoldable pub activated : ℕ → State a → Issuer × Store → Result Changed
    activated org_id r (row, t) =
        ok (row, issuer_activated org_id row.project_id row.id, t, invalidate_issuer a row r)

    -- UpdateIssuer, on the row of the request; the removal of a destroyed key is the provider's
    unfoldable pub update_row_of : ℕ → ℕ → UpdateRequest → Store → State a → Issuer → Result Changed
    update_row_of now org_id req s r row = check_transition row req.status >>= λ _.
        update_config calls row req.config >>= λ config.
        update_error (
          update_issuer a.down calls.parses now
            (record { id = row.id; org_id = org_id; status = req.status; config = config }) s)
        >>= updated org_id r

    -- UpdateIssuer
    unfoldable pub update_issuer_of : ℕ → Option UpdateRequest → Store → State a → Result Changed
    update_issuer_of now none s r = err (grpc invalid_argument "missing request")
    update_issuer_of now (some req) s r = require_ca calls.has_registry >>= λ _.
        refuse_if (nothing_to_update req) (grpc invalid_argument "nothing to update") >>= λ _.
        org scope tctx req.org_id >>= λ org_id.
        request_project scope tctx org_id req.project_id >>= λ project_id.
        issuer scope tctx a.down org_id project_id req.id "/pb.CA/UpdateIssuer" s
        >>= update_row_of now org_id req s r

    -- ActivateIssuer, on the row of the request
    unfoldable pub activate_row_of :
        ℕ → ℕ → ActivateRequest → Store → State a → Issuer → Result Changed
    activate_row_of now org_id req s r row =
        if not (issuer_status_number row.status == 1)
        then err (grpc failed_precondition "issuer is not pending")
        else (with_certificate (calls.activated row req.certificate req.intermediates req.root)
            >>= λ m. activate_error (activate_issuer a.down now m s) >>= activated org_id r)

    -- ActivateIssuer
    unfoldable pub activate_issuer_of :
        ℕ → Option ActivateRequest → Store → State a → Result Changed
    activate_issuer_of now none s r = err (grpc invalid_argument "missing request")
    activate_issuer_of now (some req) s r = require_ca calls.has_registry >>= λ _.
        refuse_if (str_eq req.certificate "") (grpc invalid_argument "missing certificate") >>= λ _.
        org scope tctx req.org_id >>= λ org_id.
        request_project scope tctx org_id req.project_id >>= λ project_id.
        issuer scope tctx a.down org_id project_id req.id "/pb.CA/ActivateIssuer" s
        >>= activate_row_of now org_id req s r
