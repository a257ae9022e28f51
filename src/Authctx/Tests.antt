-- ===== src/Authctx/Tests.antt =====
-- A small org, the calls of its members and of its API key, and the answers they get.
use text.Mathlib.Text.{◌==◌ as str_eq}
use text.Mathlib.TextEquality.{eq_iff}
use text.Mathlib.TextLemmas.{append_cancel_left, append-eq-nil_iff}
use Prim.Native.String.{◌++◌}
use trustyca.Base.{
  ℕ, zero, suc, String, ◌≡◌, refl, sym, ap, ◌∙◌, ◌≢◌, inl, inr, true, false, Option, none, some,
  List, [], ◌∷◌, arith, if◌then◌else◌, All, Any, Bool-cases,
}
use mathlib.Core.Option.{some-injective}
use trustyca.Base.{◌==◌}
use trustyca.Text.{ends_with_star, drop_last}
use trustyca.Text.Split.{split}
use trustyca.Base.Status.{ok, err, grpc, permission_denied}
use trustyca.Text.{equal_fold, fold_code, trim_space, is_space}
use trustyca.Db.Model.{MembershipInfo, Project, active}
use trustyca.Authctx.Role.{
  Role, viewer, admin, owner, api_key, parse_role, can_assume_role, allows_role, can_assume_roles,
  role_by_name,
}
use trustyca.Authctx.Scopes.{parse_scopes, has_scope, has_scopes, scope_covers, trimmed_parts}
use trustyca.Authctx.Grants.{grants_from_memberships}
use trustyca.Authctx.Grants.Rows.{IsGrant, UniqueRows, HasRole}
use trustyca.Authctx.Access.{
  TrustyCtx, Request, MethodInfo, Authorizer, granted, check_access, org_mismatch,
  project_from_request, method_allowed,
}
use trustyca.Authctx.Access.Tenants.{TenantCall, check_access-tenant_iff}
use trustyca.Authctx.Access.Keys.{check_access-api_key_iff}
use trustyca.Authctx.Access.Services.{check_access-privpb}
use trustyca.Authctx.Authorizer.{
  GrantsProvider, fetched, missing, Entry, Cache, check_role, invalidate_user, invalidate_project,
}
use trustyca.Authctx.Authorizer.Coherence.{CacheLaws, Coherent}
use trustyca.Authctx.Authorizer.Answers.{
  direct, check_role-Agrees, invalidate_user-Coherent, invalidate_project-Coherent,
}
use trustyca.Authctx.Members.{check_access-project_iff, check_access-org_iff}
use trustyca.Authctx.Allowed.{method_allowed-check_access}

abbrev pub row : ℕ → ℕ → Role → MembershipInfo
row project_id user_id role = record {
  id = 1;
  org_id = 1;
  project_id = project_id;
  org_alias = "acme";
  org_name = "Acme";
  org_status = active;
  user_id = user_id;
  email = "a@acme.test";
  name = "A";
  role = role;
}

-- User 7 is an Admin of project 5 only.
abbrev pub table : List MembershipInfo
table = row 5 7 admin ∷ row 0 8 owner ∷ []

abbrev pub project_5 : Project
project_5 = record {
  id = 5;
  org_id = 1;
  alias = "p";
  name = "P";
  description = "";
  status = active;
}

abbrev provider : GrantsProvider
provider = record { list_memberships = λ u. some table; get_project = λ p. fetched project_5 }

abbrev caller : Role → ℕ → List String → TrustyCtx
caller role project_id scopes = record {
  user_id = 7;
  user_name = "A";
  user_email = "a@acme.test";
  org_id = 1;
  org_role = role;
  project_id = project_id;
  scopes = scopes;
  app_role = "user";
  user_agent = "";
  target = "";
  auth_method = "jwt";
}

abbrev of_project : Request
of_project = record { org_id = none; project_id = some "5" }

abbrev of_org : Request
of_org = record { org_id = none; project_id = none }

abbrev parse_id : String → Option ℕ
parse_id s = if str_eq s "5" then some 5 else none

unfoldable unary : ℕ → String
unary zero = ""
unary (suc n) = "1" ++ unary n

unary-injective : (u v : ℕ) → unary u ≡ unary v → u ≡ v
unfolding unary
unary-injective zero zero e = refl
unary-injective zero (suc v) e = absurd (let k = (append-eq-nil_iff.0 (sym e)).0 in cc)
unary-injective (suc u) zero e = absurd (let k = (append-eq-nil_iff.0 e).0 in cc)
unary-injective (suc u) (suc v) e =
    ap (λ n. suc n) (unary-injective u v (append_cancel_left "1" (unary u) (unary v) e))

abbrev rule : MethodInfo
rule = record { allowed_roles = "Admin" ∷ "APIKey" ∷ []; scopes = "ca:write" ∷ [] }

abbrev read_rule : MethodInfo
read_rule = record { allowed_roles = "Viewer" ∷ []; scopes = [] }

abbrev methods : String → Option MethodInfo
methods action = if str_eq action "/pb.CA/Sign" then some rule else some read_rule

not_guest : equal_fold "user" "guest" ≡ false
unfolding equal_fold fold_code
not_guest = refl

sign_call : (c : TrustyCtx) → c.app_role ≡ "user" → TenantCall methods c "/pb.CA/Sign" rule
sign_call c e = rw e (refl, refl, refl, refl, refl, refl, not_guest, refl)

read_call : (c : TrustyCtx) → c.app_role ≡ "user" → TenantCall methods c "/pb.CA/Get" read_rule
read_call c e = rw e (refl, refl, refl, refl, refl, refl, not_guest, refl)

pub table-UniqueRows : UniqueRows table
table-UniqueRows = (λ a. elim a [ inl h ↦ ground arith | inr b ↦ b ], (λ a. a, tt))

pub table-HasRole : All HasRole table
table-HasRole = (λ e. cc, (λ e. cc, tt))

pub admin_passes : can_assume_role admin ("Admin" ∷ "APIKey" ∷ []) ≡ true
unfolding can_assume_role can_assume_roles parse_role role_by_name trim_space is_space
admin_passes = refl

pub viewer_passes : can_assume_role viewer ("Viewer" ∷ []) ≡ true
unfolding can_assume_role can_assume_roles parse_role role_by_name trim_space is_space
viewer_passes = refl

names_project_5 : project_from_request parse_id unary of_project ≡ ok 5
unfolding project_from_request
names_project_5 = refl

names_none : project_from_request parse_id unary of_org ≡ ok 0
unfolding project_from_request
names_none = refl

same_org : org_mismatch parse_id unary 1 of_project ≡ false
unfolding org_mismatch
same_org = refl

same_org' : org_mismatch parse_id unary 1 of_org ≡ false
unfolding org_mismatch
same_org' = refl

abbrev org_1 : ℕ
org_1 = 1

one-ne-zero : org_1 ≢ 0
one-ne-zero e = ground arith

check_access-project_iff_example :
    check_access parse_id unary
      (direct provider)
      methods
      (caller admin 0 [])
      of_project
      "/pb.CA/Sign"
    ≡ ok tt
check_access-project_iff_example =
    (check_access-project_iff parse_id unary methods provider (caller admin 0 []) of_project
        "/pb.CA/Sign" rule table (sign_call (caller admin 0 []) refl) refl refl table-UniqueRows
        table-HasRole 5 names_project_5 (ground arith)).1
      (
        (one-ne-zero, same_org),
        ((project_5, refl, refl, refl), inr (inl ((refl, refl, refl), inr admin_passes))),
        inl refl,
      )

pub no_org_row : ¬ Any (IsGrant 1 7 0) table
no_org_row a = elim a [ inl h ↦ ground arith | inr b ↦ elim b [ inl h ↦ ground arith | inr c ↦ c ] ]

check_access-org_iff_example :
    check_access parse_id unary (direct provider) methods (caller viewer 0 []) of_org "/pb.CA/Get"
    ≡ ok tt
check_access-org_iff_example =
    (check_access-org_iff parse_id unary methods provider (caller viewer 0 []) of_org "/pb.CA/Get"
        read_rule table (read_call (caller viewer 0 []) refl) refl refl table-UniqueRows
        table-HasRole names_none).1
      ((one-ne-zero, same_org'), inr (no_org_row, inl (refl, refl), inr viewer_passes), inl refl)

abbrev always : Authorizer
always = record {
  grants = λ o u. granted (grants_from_memberships table 1 7);
  project = λ o p. granted project_5;
  check_role = λ o p u a. granted (viewer, grants_from_memberships table 1 7);
}

method_allowed-check_access_example :
    method_allowed (caller viewer 0 []) (some (grants_from_memberships table 1 7)) read_rule ≡ true
method_allowed-check_access_example =
    (method_allowed-check_access parse_id unary methods provider (caller viewer 0 []) of_org
        "/pb.CA/Get" read_rule table (read_call (caller viewer 0 []) refl) refl refl
        table-UniqueRows table-HasRole (one-ne-zero, same_org') names_none).1
      ((check_access-org_iff parse_id unary methods provider (caller viewer 0 []) of_org
          "/pb.CA/Get" read_rule table (read_call (caller viewer 0 []) refl) refl refl
          table-UniqueRows table-HasRole names_none).1
        ((one-ne-zero, same_org'), inr (no_org_row, inl (refl, refl), inr viewer_passes), inl refl))

-- What is read from the table, without the cache.
check_access-tenant_iff_example :
    check_access parse_id unary always methods (caller viewer 0 []) of_org "/pb.CA/Get" ≡ ok tt
check_access-tenant_iff_example =
    (check_access-tenant_iff parse_id unary always methods (caller viewer 0 []) of_org "/pb.CA/Get"
        read_rule (read_call (caller viewer 0 []) refl) refl).1
      (
        one-ne-zero,
        same_org',
        (0, names_none, ((viewer, grants_from_memberships table 1 7), refl)),
        inl refl,
      )

key_scopes : has_scopes ("ca:*" ∷ []) (parse_scopes ("ca:write" ∷ [])) ≡ true
unfolding has_scopes has_scope scope_covers parse_scopes trimmed_parts trim_space is_space
    ends_with_star drop_last split
key_scopes = refl

names_api_key : allows_role ("Admin" ∷ "APIKey" ∷ []) api_key ≡ true
unfolding allows_role parse_role role_by_name trim_space is_space
names_api_key = refl

check_access-api_key_iff_example :
    check_access parse_id unary always methods
      (caller api_key 5 ("ca:*" ∷ []))
      of_project
      "/pb.CA/Sign"
    ≡ ok tt
check_access-api_key_iff_example =
    (check_access-api_key_iff parse_id unary always methods (caller api_key 5 ("ca:*" ∷ []))
        of_project "/pb.CA/Sign" rule (sign_call (caller api_key 5 ("ca:*" ∷ [])) refl) refl).1
      (
        one-ne-zero,
        same_org,
        (
          5,
          names_project_5,
          (
            names_api_key,
            (5, inr (λ e. ground arith, refl, inr refl), inr (project_5, refl)),
            key_scopes,
          ),
        ),
      )

check_access-privpb_example :
    check_access parse_id unary always methods (caller owner 0 []) of_org "/privpb.Admin/ListOrgs"
    ≡ err (grpc permission_denied "access denied")
check_access-privpb_example =
    (check_access-privpb parse_id unary always methods (caller owner 0 []) of_org
        "/privpb.Admin/ListOrgs" refl).1
      (λ t. cc)

-- A cache with room for one entry.
abbrev Slot : Type 0
Slot = Option (String × Entry)

abbrev slot_get : Slot → String → Option Entry
slot_get none k = none
slot_get (some (j, e)) k = if str_eq j k then some e else none

abbrev slot_delete : Slot → String → Slot
slot_delete none k = none
slot_delete (some (j, e)) k = if str_eq j k then none else some (j, e)

abbrev slot : Cache Slot
slot = record { get = slot_get; set = λ c k v. some (k, v); delete = slot_delete }

slot_get-set : (k j : String) (v w : Entry) → slot_get (some (k, v)) j ≡ some w → (k ≡ j) × (v ≡ w)
slot_get-set k j v w h = elim (Bool-cases (str_eq k j)) [
  | inl e ↦ ((eq_iff k j).0 e, some-injective v w (rw e at h))
  | inr e ↦ absurd (none-ne-some w (rw e at h))
]
  where
    none-ne-some : (x : Entry) → none ≡ some x → ⊥
    none-ne-some x e = cc

slot_get-delete :
    (c : Slot) (k j : String) (w : Entry)
    → slot_get (slot_delete c k) j ≡ some w
    → (k ≢ j) × (slot_get c j ≡ some w)
slot_get-delete none k j w h = cc
slot_get-delete (some (i, v)) k j w h = elim (Bool-cases (str_eq i k)) [
  | inl e ↦ absurd (none-ne-some w (rw e at h))
  | inr e ↦
      let held : slot_get (some (i, v)) j ≡ some w = rw e at h in
      (
        λ same.
            let (at, _) = slot_get-set i j v w held in
            let hit = (eq_iff i k).1 (at ∙ sym same) in cc,
        held,
      )
]
  where
    none-ne-some : (x : Entry) → none ≡ some x → ⊥
    none-ne-some x e = cc

slot-CacheLaws : CacheLaws slot
slot-CacheLaws = record {
  get-set = λ c k j v w h. inl (slot_get-set k j v w h);
  get-delete = slot_get-delete;
}

empty-Coherent : Coherent Slot slot unary provider none
empty-Coherent = (λ u rows e. cc, λ p found e. cc)

check_role-Agrees_example :
    ((check_role Slot slot unary provider none 1 5 7 ("Admin" ∷ [])).0
      ≡ (direct provider).check_role 1 5 7 ("Admin" ∷ []))
    × Coherent Slot slot unary provider
        (check_role Slot slot unary provider none 1 5 7 ("Admin" ∷ [])).1
check_role-Agrees_example =
    check_role-Agrees Slot slot unary provider slot-CacheLaws unary-injective none 1 5 7
      ("Admin" ∷ []) empty-Coherent

-- After user 7 has lost the role.
abbrev without_7 : GrantsProvider
without_7 = record provider { list_memberships = λ u. if u == 7 then some [] else some table }

invalidate_user-Coherent_example :
    Coherent Slot slot unary without_7 (invalidate_user Slot slot unary provider none (unary 7))
invalidate_user-Coherent_example =
    invalidate_user-Coherent Slot slot unary slot-CacheLaws provider without_7 none 7
      (λ v other. ground arith) (λ p. refl) empty-Coherent

-- After project 5 was removed.
abbrev without_5 : GrantsProvider
without_5 = record provider { get_project = λ p. if p == 5 then missing else fetched project_5 }

invalidate_project-Coherent_example :
    Coherent Slot slot unary without_5 (invalidate_project Slot slot unary provider none (unary 5))
invalidate_project-Coherent_example =
    invalidate_project-Coherent Slot slot unary slot-CacheLaws provider without_5 none 5
      (λ q other. ground arith) (λ u. refl) empty-Coherent
