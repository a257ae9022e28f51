-- ===== src/Ca/Errors.antt =====
-- internal/ca/errors.go: the errors of the issuer and profile resolution.
use text.Mathlib.Text.{◌==◌ as str_eq}
use trustyca.Base.{Bool, false}
use trustyca.Base.Status.{Error, wrapped, grpc}

abbrev pub profile_not_found : Error
profile_not_found = wrapped "profile not found"

abbrev pub issuer_not_found : Error
issuer_not_found = wrapped "issuer not found"

abbrev pub issuer_not_active : Error
issuer_not_active = wrapped "issuer is not active"

abbrev pub issuer_label_required : Error
issuer_label_required = wrapped "issuer label is required"

abbrev pub issuer_mismatch : Error
issuer_mismatch = wrapped "issuer does not match the profile"

abbrev pub profile_not_allowed : Error
profile_not_allowed = wrapped "issuer does not allow the profile"

-- ErrIssuerExpired
abbrev pub issuer_has_expired : Error
issuer_has_expired = wrapped "issuer certificate has expired"

-- errors.Is, on these errors
abbrev pub is_error : Error → Error → Bool
is_error (wrapped e) (wrapped f) = str_eq e f
is_error (wrapped e) (grpc c m) = false
is_error (grpc c m) f = false
