-- ===== src/Backend/Parents.antt =====
-- server/service/backend/issuer.go and signer.go: the parent that signs a new issuer.

pub mod Visible
pub mod Tests
use text.Mathlib.Text.{◌==◌ as str_eq}
use trustyca.Base.{ℕ, String, Bool, false, not, ◌&&◌, Option, ◌==◌, if◌then◌else◌, any}
use trustyca.Base.Status.{
  Result, Error, ok, err, grpc, wrapped, invalid_argument, permission_denied, failed_precondition,
  not_found, internal, ◌>>=◌,
}
use trustyca.Ca.Rows.{Issuer, issuer_status_number}
use trustyca.Ca.Store.{Store, get_issuer}
use trustyca.Ca.Errors.{
  is_error, profile_not_found, issuer_not_found, issuer_label_required, issuer_mismatch,
  profile_not_allowed, issuer_not_active,
}
use trustyca.Ca.Registry.{Settings, Resolution, Authority, State, Act, is_missing, chain}
use trustyca.Ca.Registry.Resolve.{resolve}
use trustyca.Backend.Scope.{missing, parse_id_val}

-- the errors of resolve
unfoldable pub resolve_error : String → Error → Error
resolve_error issuer_label e =
    if is_error e profile_not_found
    then grpc not_found "profile not found: %s"
    else if is_error e issuer_not_found
    then (if not (str_eq issuer_label "")
        then grpc not_found "issuer not found: %s"
        else grpc not_found "issuer not found for profile: %s")
    else if is_error e issuer_label_required
    then grpc invalid_argument "issuer label is required for profile: %s"
    else if is_error e issuer_mismatch
    then grpc invalid_argument "issuer %q does not serve the profile: %s"
    else if is_error e profile_not_allowed
    then grpc invalid_argument "issuer %q does not support the profile: %s"
    else if is_error e issuer_not_active
    then grpc failed_precondition "issuer is not active"
    else grpc internal "unable to load issuer"

abbrev pub resolve_answer : {A R : Type 0} → String → Result A × R → Result A × R
resolve_answer issuer_label (ok res, r) = (ok res, r)
resolve_answer issuer_label (err e, r) = (err (resolve_error issuer_label e), r)

abbrev pub parent_read : Result Issuer → Result Issuer
parent_read (ok row) = ok row
parent_read (err e) =
    if is_missing e
    then missing "parent issuer not found"
    else err (wrapped "unable to find parent issuer")

abbrev pub parent_settings : Result Settings → Result Settings
parent_settings (ok cfg) = ok cfg
parent_settings (err e) = err (wrapped "invalid parent issuer config")

-- a platform issuer lists the profile
unfoldable pub platform_allows : Result Settings → String → Issuer → Result Issuer
platform_allows cfg profile parent = parent_settings cfg >>= λ c.
    if not (any (λ p. str_eq p profile) c.allowed_profiles)
    then err (grpc permission_denied "profile %q is not allowed by the parent issuer")
    else ok parent

-- the checks of the parent in parentIssuer
unfoldable pub visible_parent : Result Settings → ℕ → ℕ → String → Issuer → Result Issuer
visible_parent cfg org_id project_id profile parent =
    if not (parent.org_id == 0) && not (parent.org_id == org_id)
    then missing "parent issuer not found"
    else if not (parent.org_id == 0)
        && (not (parent.project_id == 0) && not (parent.project_id == project_id))
    then missing "parent issuer not found"
    else if not (issuer_status_number parent.status == 2)
    then err (grpc failed_precondition "parent issuer is not active")
    else if parent.org_id == 0
    then platform_allows cfg profile parent
    else ok parent

-- the parsing of IDs, and whether a profile is a CA profile, are parameters
module _ (parse_id : String → Option ℕ) {C D E A P S : Type 0} (is_ca : P → Bool)
    (a : Authority C D E A P S) (s : Store) (meanwhile : State a → State a) where
  -- the row of the parent
  unfoldable pub parent_row : ℕ → ℕ → String → String → Result Issuer
  parent_row org_id project_id parent_id profile =
      parse_id_val parse_id "missing parent ID" "invalid parent ID" parent_id >>= λ id.
      parent_read (get_issuer a.down id s) >>= λ parent.
      visible_parent (a.settings parent) org_id project_id profile parent

  -- resolve
  unfoldable pub resolve_as : ℕ → ℕ → String → String → Act a (Resolution P)
  resolve_as org_id project_id profile issuer_label r = resolve_answer issuer_label (
      resolve a s meanwhile
        (record {
          org_id = org_id;
          project_id = project_id;
          profile = profile;
          issuer_label = issuer_label;
        })
        r)

  -- parentIssuer
  unfoldable pub parent_issuer : ℕ → ℕ → String → String → Act a (Resolution P)
  parent_issuer org_id project_id parent_id profile r =
      chain (parent_row org_id project_id parent_id profile, r)
        (λ parent r.
          chain (resolve_as parent.org_id parent.project_id profile parent.label r) (λ res r. (
            if not (is_ca res.profile)
                then err (grpc invalid_argument "profile %q is not a CA profile")
                else ok res,
            r,
          )))
