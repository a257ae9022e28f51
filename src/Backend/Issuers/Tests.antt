-- ===== src/Backend/Issuers/Tests.antt =====
-- An API key of the org archives the issuer of the org.
use text.Mathlib.Text.{◌==◌ as str_eq}
use trustyca.Base.{◌≡◌, refl, inl, some, none, true, if◌then◌else◌}
use trustyca.Base.Status.{ok, err, wrapped}
use trustyca.Ca.Rows.{issuer_archived}
use trustyca.Ca.Store.{get_issuer}
use trustyca.Ca.Issuers.{update_issuer, update_row, update_columns, is_updated}
use trustyca.Ca.Registry.Lookup.{invalidate_issuer}
use trustyca.Ca.Registry.Tests.{
  authority, authority-laws, rows, rows-DistinctIds, empty, empty-Coherent, archived_1,
  archived_rows,
}
use trustyca.Backend.Scope.{
  TenantScope, is_service_caller, org, request_project, row_access, key_row_access, in_project,
  parse_id_val, issuer, visible_issuer,
}
use trustyca.Backend.Tests.{key, scope}
use trustyca.Backend.Issuers.{
  Calls, UpdateRequest, issuer_updated, update_issuer_of, update_row_of, updated, check_transition,
  issuer_transitions, update_config, require_ca, Changed,
}
use trustyca.Backend.Issuers.Lifecycle.{RisesTo, issuer_change-Rises}

abbrev issuer_scope : TenantScope
issuer_scope = record scope { parse_id = λ s. if str_eq s "1" then some 1 else none }

abbrev calls : Calls
calls = record {
  has_registry = true;
  valid_config = λ label config. true;
  marshal = λ config. ok config;
  parses = λ config. true;
  activated = λ row certificate intermediates root. err (wrapped "failed");
}

abbrev archive_1 : UpdateRequest
archive_1 = record {
  org_id = "7";
  project_id = "";
  id = "1";
  status = issuer_archived;
  config = none;
}

abbrev changed : Changed issuer_scope key calls authority
changed =
    (archived_1, issuer_updated 7 0 1, archived_rows, invalidate_issuer authority archived_1 empty)

archived :
    update_issuer_of issuer_scope key calls authority 60 (some archive_1) rows empty ≡ ok changed
unfolding update_issuer_of update_row_of updated check_transition issuer_transitions update_config
    require_ca org request_project issuer visible_issuer parse_id_val in_project row_access
    key_row_access is_service_caller get_issuer update_issuer update_row update_columns is_updated
archived = refl

issuer_change-Rises_example : RisesTo issuer_scope key calls authority authority-laws rows changed
issuer_change-Rises_example =
    issuer_change-Rises issuer_scope key calls authority authority-laws 60 (some archive_1) none
      rows empty changed rows-DistinctIds empty-Coherent (inl archived)
