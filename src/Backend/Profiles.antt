-- ===== src/Backend/Profiles.antt =====
-- server/service/backend/profile.go: the profiles that a caller registers, finds and deletes, with
-- the resolutions of the registry that a change drops.

pub mod Deleted
pub mod Registered
pub mod Tests
use Prim.Native.String.{len}
use text.Mathlib.Text.{◌==◌ as str_eq}
use trustyca.Base.{ltb, ℕ, String, Bool, not, ◌||◌, Option, none, some, ◌==◌, if◌then◌else◌}
use trustyca.Base.Status.{Result, ok, err, grpc, wrapped, invalid_argument, ◌>>=◌}
use trustyca.Text.{trim_space}
use trustyca.Db.Model.{ItemStatus, active, status_number}
use trustyca.Authctx.Access.{TrustyCtx}
use trustyca.Ca.Rows.{CertificateProfile, max_len_for_label}
use trustyca.Ca.Store.{Store}
use trustyca.Ca.Issuers.{register_profile, get_profile, find_profile_row, delete_profile}
use trustyca.Ca.Registry.{Authority, State, scoped_read, is_missing}
use trustyca.Ca.Registry.Lookup.{invalidate_profile}
use trustyca.Backend.Scope.{
  TenantScope, missing, org, project, request_project, in_project, parse_id_val, row_access,
}
use trustyca.Backend.Issuers.{refuse_if}

-- the event that a change emits
pub data ProfileEvent : Type 0 where
  profile_registered profile_deleted : ℕ → ℕ → ℕ → ProfileEvent

-- pb.CertProfile: the columns of the row, and the other fields, which are its config
pub record CertProfile (B : Type 0) : Type 0 where
  pub label : String
  pub issuer_label : String
  pub status : ItemStatus
  pub body : B

-- privpb.RegisterProfileRequest; a nil profile is none
pub record RegisterProfileRequest (B : Type 0) : Type 0 where
  pub org_id : String
  pub project_id : String
  pub profile : Option (CertProfile B)

-- privpb.GetProfileRequest
pub record GetProfileRequest : Type 0 where
  pub org_id : String
  pub project_id : String
  pub id : String
  pub label : String

-- privpb.DeleteProfileRequest
pub record DeleteProfileRequest : Type 0 where
  pub org_id : String
  pub project_id : String
  pub id : String

-- what the handlers call: the check of a definition as an authority profile, its config, and the
-- message of a row
pub record Calls (B M : Type 0) : Type 0 where
  pub valid_profile : CertProfile B → Bool
  pub marshal : CertProfile B → Result String
  pub pb : CertificateProfile → Result M

-- the definition with its labels trimmed
unfoldable pub trimmed_profile : {B : Type 0} → CertProfile B → CertProfile B
trimmed_profile p = record p {
  label = trim_space p.label;
  issuer_label = trim_space p.issuer_label;
}

-- NewCertificateProfile
unfoldable pub new_certificate_profile :
    {B : Type 0}
    → (CertProfile B → Result String)
    → ℕ
    → ℕ
    → CertProfile B
    → Result CertificateProfile
new_certificate_profile marshal org_id project_id p = marshal p >>= λ config. ok (record {
  id = 0;
  org_id = org_id;
  project_id = project_id;
  label = p.label;
  issuer_label = p.issuer_label;
  status = if status_number p.status == 0 then active else p.status;
  config = config;
  updated_at = 0;
})

abbrev pub profile_config : {A : Type 0} → Result A → Result A
profile_config (ok m) = ok m
profile_config (err e) = err (grpc invalid_argument "%s")

abbrev pub register_error : {A : Type 0} → Result A → Result A
register_error (ok a) = ok a
register_error (err e) = err (wrapped "failed to register profile")

abbrev pub delete_error : {A : Type 0} → Result A → Result A
delete_error (ok a) = ok a
delete_error (err e) = err (wrapped "failed to delete profile")

abbrev pub profile_found : Result CertificateProfile → Result CertificateProfile
profile_found (ok row) = ok row
profile_found (err e) =
    if is_missing e then missing "profile not found" else err (wrapped "unable to find profile")

-- profilePb
unfoldable pub profile_pb :
    {M : Type 0} → (CertificateProfile → Result M) → CertificateProfile → Result M
profile_pb pb row = elim (pb row) [ ok m ↦ ok m | err e ↦ err (wrapped "invalid profile config") ]

-- ProfileByLabel
unfoldable pub profile_by_label :
    (String → Bool) → ℕ → ℕ → String → Store → Result CertificateProfile
profile_by_label down org_id project_id label s = profile_found (
    scoped_read project_id (find_profile_row down org_id project_id label s)
      (find_profile_row down org_id 0 label s))

module _ (scope : TenantScope) (tctx : TrustyCtx) where
  -- Profile, on the row that it read
  unfoldable pub visible_profile : ℕ → ℕ → String → CertificateProfile → Result CertificateProfile
  visible_profile org_id project_id method row =
      if not (row.org_id == org_id) || not (in_project row.project_id project_id)
      then missing "profile not found"
      else (row_access scope tctx org_id row.project_id method "profile not found" >>= λ _. ok row)

  -- Profile
  unfoldable pub profile_by_id :
      (String → Bool) → ℕ → ℕ → String → String → Store → Result CertificateProfile
  profile_by_id down org_id project_id id_val method s =
      parse_id_val scope.parse_id "missing profile ID" "invalid profile ID" id_val >>= λ id.
      profile_found (get_profile down id s) >>= visible_profile org_id project_id method

  module _ {B M : Type 0} (calls : Calls B M) where
    -- GetProfile; a nil request is none
    unfoldable pub get_profile_of : (String → Bool) → Option GetProfileRequest → Store → Result M
    get_profile_of down none s = err (grpc invalid_argument "missing request")
    get_profile_of down (some req) s = org scope tctx req.org_id >>= λ org_id.
        (if not (str_eq req.id "")
          then profile_by_id down org_id 0 req.id "/pb.CA/GetProfile" s
          else if not (str_eq req.label "")
          then (project scope tctx org_id req.project_id >>= λ project_id.
              profile_by_label down org_id project_id req.label s)
          else err (grpc invalid_argument "profile ID or label is required"))
        >>= profile_pb calls.pb

    module _ {C D E A P S : Type 0} (a : Authority C D E A P S) (has_registry : Bool) where
      -- the event, the tables and the registry that a handler leaves
      abbrev pub Left : Type 0
      Left = ProfileEvent × Store × State a

      -- invalidateProfile
      unfoldable pub invalidate : ℕ → ℕ → String → State a → State a
      invalidate org_id project_id label r =
          if has_registry then invalidate_profile a org_id project_id label r else r

      unfoldable pub registered_profile :
          ℕ → ℕ → State a → CertificateProfile × Store → Result (Result M × Left)
      registered_profile org_id project_id r (row, t) = ok (
        profile_pb calls.pb row,
        (profile_registered org_id project_id row.id, t, invalidate org_id project_id row.label r),
      )

      -- RegisterProfile, with the trimmed definition
      unfoldable pub register_definition :
          ℕ → String → String → CertProfile B → Store → State a → Result (Result M × Left)
      register_definition now req_org_id req_project_id def s r =
          refuse_if (str_eq def.label "") (grpc invalid_argument "missing profile label") >>= λ _.
          refuse_if (ltb max_len_for_label (len def.label))
            (grpc invalid_argument "invalid profile label length")
          >>= λ _.
              refuse_if (str_eq def.issuer_label "") (grpc invalid_argument "missing issuer label")
              >>= λ _.
                  refuse_if (ltb max_len_for_label (len def.issuer_label))
                    (grpc invalid_argument "invalid issuer label length")
                  >>= λ _.
                      refuse_if (not (calls.valid_profile def)) (grpc invalid_argument "%s")
                      >>= λ _. org scope tctx req_org_id >>= λ org_id.
                          project scope tctx org_id req_project_id >>= λ project_id.
                          profile_config
                            (new_certificate_profile calls.marshal org_id project_id def)
                          >>= λ m.
                              register_error (register_profile a.down now m s)
                              >>= registered_profile org_id project_id r

      abbrev register_profile_in :
          ℕ
          → RegisterProfileRequest B
          → Option (CertProfile B)
          → Store
          → State a
          → Result (Result M × Left)
      register_profile_in now req none s r = err (grpc invalid_argument "missing profile")
      register_profile_in now req (some def) s r =
          register_definition now req.org_id req.project_id (trimmed_profile def) s r

      -- RegisterProfile: the tables are changed also where the message of the row fails
      unfoldable pub register_profile_of :
          ℕ → Option (RegisterProfileRequest B) → Store → State a → Result (Result M × Left)
      register_profile_of now none s r = err (grpc invalid_argument "missing profile")
      register_profile_of now (some req) s r = register_profile_in now req req.profile s r

      unfoldable pub deleted_profile : ℕ → CertificateProfile → State a → ℕ × Store → Result Left
      deleted_profile org_id row r (n, t) =
          if n == 0
          then missing "profile not found"
          else ok (
            profile_deleted org_id row.project_id row.id,
            t,
            invalidate row.org_id row.project_id row.label r,
          )

      -- DeleteProfile, on the row of the request
      unfoldable pub delete_row_of : ℕ → Store → State a → CertificateProfile → Result Left
      delete_row_of org_id s r row =
          delete_error (delete_profile a.down org_id row.id s) >>= deleted_profile org_id row r

      -- DeleteProfile
      unfoldable pub delete_profile_of : Option DeleteProfileRequest → Store → State a → Result Left
      delete_profile_of none s r = err (grpc invalid_argument "missing request")
      delete_profile_of (some req) s r = org scope tctx req.org_id >>= λ org_id.
          request_project scope tctx org_id req.project_id >>= λ project_id.
          profile_by_id a.down org_id project_id req.id "/pb.CA/DeleteProfile" s
          >>= delete_row_of org_id s r
