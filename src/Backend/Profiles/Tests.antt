-- ===== src/Backend/Profiles/Tests.antt =====
-- An API key of the org deletes the profile of the org, and registers a new version of it.
use text.Mathlib.Text.{◌==◌ as str_eq}
use trustyca.Base.{◌∷◌, ◌≡◌, refl, some, none, true, [], if◌then◌else◌}
use trustyca.Base.Status.{Result, ok}
use trustyca.Text.{trim_space, is_space}
use trustyca.Db.Model.{active}
use trustyca.Db.Scopes.{
  where_tenancy, set_org_scope, where_org_scope, set_project_scope, where_project_scope,
}
use trustyca.Ca.Rows.{CertificateProfile, validate_tenancy, validate_length}
use trustyca.Ca.Registry.Signs.{DistinctIds}
use trustyca.Ca.Registry.Coherent.{Coherent}
use trustyca.Ca.Issuers.{
  register_profile, replace_profile, names_profile, profile_validate, get_profile, delete_profile,
  deletes_profile,
}
use trustyca.Ca.Registry.Lookup.{invalidate_profile}
use trustyca.Ca.Registry.Tests.{
  authority, authority-laws, rows, rows-DistinctIds, empty, empty-Coherent, tls,
}
use trustyca.Backend.Scope.{
  project, named_project, TenantScope, is_service_caller, org, request_project, row_access,
  key_row_access, in_project, parse_id_val,
}
use trustyca.Backend.Tests.{key, scope}
use trustyca.Backend.Profiles.{
  CertProfile, RegisterProfileRequest, profile_registered, register_profile_of, register_definition,
  trimmed_profile, new_certificate_profile, registered_profile, profile_pb, Calls,
  DeleteProfileRequest, Left, profile_deleted, delete_profile_of, delete_row_of, deleted_profile,
  profile_by_id, visible_profile, invalidate,
}
use trustyca.Backend.Profiles.Registered.{Registers, register_profile_of-Registers}
use trustyca.Backend.Profiles.Deleted.{Deletes, delete_profile_of-Deletes}

abbrev profile_scope : TenantScope
profile_scope = record scope { parse_id = λ s. if str_eq s "5" then some 5 else none }

abbrev calls : Calls Unit Unit
calls = record { valid_profile = λ def. true; marshal = λ def. ok "{}"; pb = λ row. ok tt }

abbrev delete_5 : DeleteProfileRequest
delete_5 = record { org_id = "7"; project_id = ""; id = "5" }

abbrev left : Left profile_scope key calls authority true
left = (
  profile_deleted 7 0 5,
  record rows { profiles = [] },
  invalidate_profile authority 7 0 "tls" empty,
)

gone : delete_profile_of profile_scope key calls authority true (some delete_5) rows empty ≡ ok left
unfolding delete_profile_of delete_row_of deleted_profile profile_by_id visible_profile invalidate
    get_profile delete_profile deletes_profile org request_project parse_id_val in_project
    row_access key_row_access is_service_caller
gone = refl

delete_profile_of-Deletes_example :
    Deletes profile_scope key calls authority true delete_5 rows empty left
delete_profile_of-Deletes_example =
    delete_profile_of-Deletes profile_scope key calls authority true delete_5 rows empty left gone

abbrev tls_definition : CertProfile Unit
tls_definition = record { label = " tls"; issuer_label = "ca2"; status = active; body = tt }

abbrev register_tls : RegisterProfileRequest Unit
register_tls = record { org_id = "7"; project_id = ""; profile = some tls_definition }

abbrev tls_2 : CertificateProfile
tls_2 = record tls { issuer_label = "ca2"; updated_at = 60 }

abbrev Reply : Type 0
Reply = Result Unit

abbrev registered_left : Reply × Left profile_scope key calls authority true
registered_left = (
  ok tt,
  (
    profile_registered 7 0 5,
    record rows { profiles = tls_2 ∷ []; next_id = 101 },
    invalidate_profile authority 7 0 "tls" empty,
  ),
)

registered :
    register_profile_of profile_scope key calls authority true 60 (some register_tls) rows empty
    ≡ ok registered_left
unfolding register_profile_of register_definition trimmed_profile new_certificate_profile
    registered_profile profile_pb invalidate register_profile replace_profile names_profile
    profile_validate validate_tenancy validate_length where_tenancy set_org_scope where_org_scope
    set_project_scope where_project_scope org project trim_space is_space is_service_caller
    named_project
registered = refl

register_profile_of-Registers_example :
    Registers profile_scope key calls authority register_tls registered_left
    × DistinctIds registered_left.1.1
    × Coherent authority registered_left.1.1 registered_left.1.2
register_profile_of-Registers_example =
    register_profile_of-Registers profile_scope key calls authority authority-laws 60 register_tls
      rows empty registered_left rows-DistinctIds empty-Coherent registered
