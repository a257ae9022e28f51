-- ===== src/Ca/Registry.antt =====
-- internal/ca/registry.go: the registry, which resolves the issuer and the profile of a request
-- through its caches. The LRU caches, the authority issuers and the tenant's settings of an issuer
-- are parameters; an authority issuer is shared by its handle, so that a profile that is added to
-- it is seen by every entry that holds it.
pub mod Lookup
pub mod Build
pub mod Resolve
pub mod Labels
pub mod Coherent
pub mod Entries
pub mod Resolved
pub mod Signs
pub mod Changes
pub mod Profiles
pub mod Answers
pub mod Runs
pub mod BySkid
pub mod Tests
use trustyca.Ca.Errors.{issuer_label_required, issuer_mismatch}
use Prim.Native.String.{◌++◌ as append}
use text.Mathlib.Text.{◌==◌ as str_eq}
use trustyca.Base.{
  ltb, length, ℕ, ◌+◌, ◌-◌, ◌++◌, String, Bool, true, false, not, ◌&&◌, ◌||◌, Option, none, some,
  List, [], ◌∷◌, ◌==◌, if◌then◌else◌, find?, any,
}
use trustyca.Base.Status.{Result, Error, ok, err, grpc, wrapped, not_found, permission_denied}
use trustyca.Db.Model.{active, status_eq}
use trustyca.Ca.Rows.{Issuer, CertificateProfile, issuer_status_number}
use trustyca.Ca.Store.{Store}
use trustyca.Ca.Issuers.{find_issuer_row, find_profile_row, get_issuer_by_skid}

-- expirable.LRU: reading an entry may change which one is evicted next
pub record Lru (C K V : Type 0) : Type 0 where
  pub get : C → K → Option V × C
  pub add : C → K → V → C
  pub remove : C → K → C
  pub keys : C → List K
  pub values : C → List V
  pub purge : C → C

-- scopeKey
pub record ScopeKey : Type 0 where
  pub org_id : ℕ
  pub project_id : ℕ
  pub label : String

-- issuerEntry; the authority issuer is a handle
pub record IssuerEntry : Type 0 where
  pub row : Issuer
  pub issuer : ℕ
  pub allowed : List String

-- the settings of an issuer that build uses, from its config
pub record Settings : Type 0 where
  pub delegated_ocsp_profile : String
  pub allowed_profiles : List String

-- ResolveRequest
pub record ResolveRequest : Type 0 where
  pub org_id : ℕ
  pub project_id : ℕ
  pub profile : String
  pub issuer_label : String

-- Resolution
pub record Resolution (P : Type 0) : Type 0 where
  pub issuer : ℕ
  pub row : Issuer
  pub profile_row : CertificateProfile
  pub profile : P
  pub profile_name : String

-- what the registry calls: the caches, the statements, the configs, the keys and the authority
pub record Authority (C D E A P S : Type 0) : Type 0 where
  pub entries : Lru C ℕ IssuerEntry
  pub labels : Lru D ScopeKey Issuer
  pub profiles : Lru E ScopeKey CertificateProfile
  pub down : String → Bool
  pub settings : Issuer → Result Settings
  pub authority_profile : CertificateProfile → Result P
  pub signer : Issuer → Result S
  pub create : Issuer → Settings → Option P → S → Result A
  pub profile_of : A → String → Option P
  pub add_profile : A → String → P → A
  pub key_hash : A → ℕ → String
  pub name_hash : A → ℕ → String
  pub encode_hex : String → String
  pub id_string : ℕ → String
  pub format_int : ℕ → String

-- Registry: its caches, and the authority issuers that were created, by their handles
pub record Registry (C D E A : Type 0) : Type 0 where
  pub issuers : C
  pub issuer_labels : D
  pub profiles : E
  pub created : List A

-- AnyIssuerLabel
abbrev pub any_issuer_label : String
any_issuer_label = "*"

-- IsNotFoundError
abbrev pub is_missing : Error → Bool
is_missing (grpc not_found m) = true
is_missing _ = false

-- the answer for the project, or the one for the org where the project has no row
abbrev pub scoped_read : {V : Type 0} → ℕ → Result V → Result V → Result V
scoped_read project_id (ok v) org_wide = ok v
scoped_read project_id (err e) org_wide =
    if is_missing e && not (project_id == 0) then org_wide else err e

-- newer
unfoldable pub newer : Issuer → Issuer → Bool
newer row built = ltb built.updated_at row.updated_at

-- profileBinds
unfoldable pub profile_binds : CertificateProfile → Issuer → List String → Bool
profile_binds p row allowed =
    if str_eq p.issuer_label any_issuer_label
    then any (λ l. str_eq l p.label) allowed
    else str_eq p.issuer_label row.label

-- the label of the issuer of a request, from its profile
unfoldable pub requested_label : CertificateProfile → String → Result String
requested_label p wanted =
    if str_eq p.issuer_label any_issuer_label && str_eq wanted ""
    then err issuer_label_required
    else if str_eq p.issuer_label any_issuer_label
    then ok wanted
    else if not (str_eq wanted "") && not (str_eq wanted p.issuer_label)
    then err issuer_mismatch
    else ok p.issuer_label

-- invalidateLabel
module _ {D V : Type 0} (lru : Lru D ScopeKey V) where
  -- the loop over the keys
  unfoldable pub remove_label : ℕ → String → D → List ScopeKey → D
  remove_label org_id label c [] = c
  remove_label org_id label c (k ∷ ks) =
      remove_label org_id label
        (if (k.org_id == org_id) && str_eq k.label label then lru.remove c k else c) ks

  unfoldable pub invalidate_label : ℕ → ℕ → String → D → D
  invalidate_label org_id project_id label c =
      if not (project_id == 0)
      then lru.remove c (record { org_id = org_id; project_id = project_id; label = label })
      else remove_label org_id label c (lru.keys c)

-- a call of the registry that gave a result, and the next one
abbrev pub chain : {X Y R : Type 0} → Result X × R → (X → R → Result Y × R) → Result Y × R
chain (ok x, r) f = f x r
chain (err e, r) f = (err e, r)

-- the heap of the authority issuers
abbrev pub created_at : {A : Type 0} → ℕ → List A → Option A
created_at h [] = none
created_at h (a ∷ rest) = if h == 0 then some a else created_at (h - 1) rest

abbrev pub created_put : {A : Type 0} → ℕ → A → List A → List A
created_put h b [] = []
created_put h b (a ∷ rest) = if h == 0 then b ∷ rest else a ∷ created_put (h - 1) b rest

module _ {C D E A P S : Type 0} (a : Authority C D E A P S) where
  abbrev pub State : Type 0
  State = Registry C D E A

  -- a call, which leaves the registry in a state
  abbrev pub Act : Type 0 → Type 0
  Act X = State → Result X × State
