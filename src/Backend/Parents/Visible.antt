-- ===== src/Backend/Parents/Visible.antt =====
-- server/service/backend/issuer.go: the issuers that parentIssuer answers.
use mathlib.Core.Path.{subst}
use text.Mathlib.Text.{◌==◌ as str_eq}
use trustyca.Base.{
  ℕ, ◌≡◌, ◌⊎◌, inl, inr, refl, String, Bool, true, false, not, ◌&&◌, Option, ◌==◌, if◌then◌else◌,
  Bool-cases, Any, Any-map, find?-Any, any, arith,
}
use trustyca.Base.Status.{
  err-ne-ok, Result, Error, ok, err, grpc, invalid_argument, ok-injective, bind_iff, after_check,
}
use trustyca.Db.Tables.{no_error}
use trustyca.Ca.Rows.{Issuer, issuer_status_number}
use trustyca.Ca.Store.{Store, get_issuer}
use trustyca.Ca.Registry.{Settings, ResolveRequest, Resolution, Authority, State, is_missing}
use trustyca.Ca.Registry.Coherent.{CacheLaws, Coherent, Gives, fails, gives, chain-Gives}
use trustyca.Ca.Registry.Signs.{DistinctIds, Signs, resolve-Signs}
use trustyca.Ca.Registry.Changes.{found-some, unless}
use trustyca.Ca.Registry.Resolve.{resolve}
use trustyca.Backend.Scope.{parse_id_val}
use trustyca.Backend.Parents.{
  resolve_answer, parent_read, parent_settings, platform_allows, visible_parent, parent_row,
  resolve_as, parent_issuer,
}

parent_read-ok : (o : Result Issuer) (row : Issuer) → parent_read o ≡ ok row → o ≡ ok row
parent_read-ok (ok y) row e = e
parent_read-ok (err d) row e = elim (Bool-cases (is_missing d)) [
  | inl m ↦ absurd (err-ne-ok row (rw m at e))
  | inr m ↦ absurd (err-ne-ok row (rw m at e))
]

parent_settings-ok :
    (o : Result Settings) (cfg : Settings) → parent_settings o ≡ ok cfg → o ≡ ok cfg
parent_settings-ok (ok y) cfg e = e
parent_settings-ok (err d) cfg e = absurd (err-ne-ok cfg e)

-- an issuer that a scope may name as the parent: an issuer of the platform that lists the profile,
-- or one of the org that is org-wide or of the project
abbrev pub Nameable : Result Settings → ℕ → ℕ → String → Issuer → Type 0
Nameable cfg org_id project_id profile parent =
    ((parent.org_id ≡ 0)
      × ((c : Settings) × (cfg ≡ ok c) × (any (λ p. str_eq p profile) c.allowed_profiles ≡ true)))
    ⊎ ((parent.org_id ≡ org_id) × ((parent.project_id ≡ 0) ⊎ (parent.project_id ≡ project_id)))

platform_allows-ok :
    (cfg : Result Settings) (profile : String) (parent row : Issuer)
    → platform_allows cfg profile parent ≡ ok row
    → (parent ≡ row)
      × ((c : Settings) × (cfg ≡ ok c) × (any (λ p. str_eq p profile) c.allowed_profiles ≡ true))
unfolding platform_allows
platform_allows-ok cfg profile parent row e =
    let (c, read, rest) = (bind_iff (parent_settings cfg) _ row).0 e in
    elim (Bool-cases (any (λ p. str_eq p profile) c.allowed_profiles)) [
      | inl listed ↦
          (ok-injective _ _ (rw listed at rest), (c, parent_settings-ok cfg c read, listed))
      | inr off ↦ absurd (err-ne-ok row (rw off at rest))
    ]

if-false :
    {A : Type 0} (b : Bool) (d : Error) (x : Result A) (y : A)
    → (if b then err d else x) ≡ ok y
    → b ≡ false
if-false true d x y h = cc
if-false false d x y h = refl

own_project :
    (o p project_id : ℕ)
    → (o == 0) ≡ false
    → (not (o == 0) && (not (p == 0) && not (p == project_id))) ≡ false
    → (p ≡ 0) ⊎ (p ≡ project_id)
own_project o p project_id n h = ground arith

own_org :
    (o org_id : ℕ) → (o == 0) ≡ false → (not (o == 0) && not (o == org_id)) ≡ false → o ≡ org_id
own_org o org_id n h = ground arith

is_zero : (o : ℕ) → (o == 0) ≡ true → o ≡ 0
is_zero o h = ground arith

is_two : (n : ℕ) → not (n == 2) ≡ false → n ≡ 2
is_two n h = ground arith

visible_parent-Nameable :
    (cfg : Result Settings) (org_id project_id : ℕ) (profile : String) (parent row : Issuer)
    → visible_parent cfg org_id project_id profile parent ≡ ok row
    → (parent ≡ row)
      × (issuer_status_number parent.status ≡ 2)
      × Nameable cfg org_id project_id profile parent
unfolding visible_parent
visible_parent-Nameable cfg org_id project_id profile parent row e =
    let in_org = if-false (not (parent.org_id == 0) && not (parent.org_id == org_id)) _ _ row e in
    let e1 = unless (not (parent.org_id == 0) && not (parent.org_id == org_id)) _ _ row e in
    let b2 =
      not (parent.org_id == 0)
      && (not (parent.project_id == 0) && not (parent.project_id == project_id)) in
    let in_project = if-false b2 _ _ row e1 in
    let e2 = unless b2 _ _ row e1 in
    let b3 = not (issuer_status_number parent.status == 2) in
    let active = is_two _ (if-false b3 _ _ row e2) in
    let e3 = unless b3 _ _ row e2 in
    elim (Bool-cases (parent.org_id == 0)) [
      | inl platform ↦
          let (same, listed) = platform_allows-ok cfg profile parent row (rw platform at e3) in
          (same, active, inl (is_zero _ platform, listed))
      | inr tenant ↦ (
        ok-injective _ _ (rw tenant at e3),
        active,
        inr (own_org _ _ tenant in_org, own_project _ _ _ tenant in_project),
      )
    ]

module _ (parse_id : String → Option ℕ) {C D E A P S : Type 0} (is_ca : P → Bool)
    (a : Authority C D E A P S) (s : Store) where
  -- a row of the table that the scope may name
  abbrev pub IsParent : ℕ → ℕ → String → Issuer → Type 0
  IsParent org_id project_id profile parent =
      Any (λ i. i ≡ parent) s.issuers
      × (issuer_status_number parent.status ≡ 2)
      × Nameable (a.settings parent) org_id project_id profile parent

  -- the request to the registry about a parent
  abbrev pub parent_request : String → Issuer → ResolveRequest
  parent_request profile parent = record {
    org_id = parent.org_id;
    project_id = parent.project_id;
    profile = profile;
    issuer_label = parent.label;
  }

  -- a resolution in the scope of a parent, with a CA profile
  abbrev pub OfParent : ℕ → ℕ → String → Resolution P → Type 0
  OfParent org_id project_id profile res =
      (parent : Issuer) × IsParent org_id project_id profile parent
      × Signs a s (parent_request profile parent) res
      × (is_ca res.profile ≡ true)

  module _ (laws : CacheLaws a) (meanwhile : State a → State a)
      (kept : (r : State a) → Coherent a s r → Coherent a s (meanwhile r)) where
    parent_row-IsParent :
        (org_id project_id : ℕ) (parent_id profile : String) (row : Issuer)
        → parent_row parse_id is_ca a s meanwhile org_id project_id parent_id profile ≡ ok row
        → IsParent org_id project_id profile row
    unfolding parent_row get_issuer
    parent_row-IsParent org_id project_id parent_id profile row e =
        let (id, _, rest) =
          (bind_iff (parse_id_val parse_id "missing parent ID" "invalid parent ID" parent_id) _
              row).0
            e in
        let (parent, read, shown) =
          (bind_iff (parent_read (get_issuer a.down id s)) _ row).0 rest in
        let stored =
          after_check (no_error (a.down "GetIssuer")) _ parent (parent_read-ok _ parent read) in
        let (same, active, nameable) =
          visible_parent-Nameable (a.settings parent) org_id project_id profile parent row shown in
        subst (IsParent org_id project_id profile) same (
          Any-map _ _ (λ i k. k.0) s.issuers
              (find?-Any (λ i. i.id == id) s.issuers parent (found-some _ parent stored)),
          active,
          nameable,
        )

    answer-Gives :
        (Q : Resolution P → Type 0) (label : String) (p : Result (Resolution P) × State a)
        → Gives (Coherent a s) Q p
        → Gives (Coherent a s) Q (resolve_answer label p)
    answer-Gives Q label (ok res, r) h = h
    answer-Gives Q label (err e, r) (h, k) = fails (Coherent a s) Q _ r h

    is_ca-Gives :
        (org_id project_id : ℕ) (profile : String) (parent : Issuer) (res : Resolution P)
        (r : State a)
        → IsParent org_id project_id profile parent
        → Signs a s (parent_request profile parent) res
        → Coherent a s r
        → Gives (Coherent a s) (OfParent org_id project_id profile) (
          if not (is_ca res.profile)
              then err (grpc invalid_argument "profile %q is not a CA profile")
              else ok res,
          r,
        )
    is_ca-Gives org_id project_id profile parent res r is signs h =
        elim (Bool-cases (is_ca res.profile)) [
          | inl ca ↦ rw ca (
              gives (Coherent a s) (OfParent org_id project_id profile) res r h
                (parent, is, signs, ca))
          | inr off ↦ rw off (fails (Coherent a s) (OfParent org_id project_id profile) _ r h)
        ]

    -- An issuer that parentIssuer answers is resolved in the scope of a row of the table which is
    -- active and is either an issuer of the platform whose settings list the profile, or an issuer
    -- of the org that is org-wide or of the project; the profile that the registry resolves binds
    -- to the issuer that it resolves, and is a CA profile. The caches stay coherent, whatever
    -- parentIssuer answers, where they were and the IDs of the issuers are distinct.
    pub parent_issuer-OfParent :
        (org_id project_id : ℕ) (parent_id profile : String) (r : State a)
        → DistinctIds s
        → Coherent a s r
        → Coherent a s
            (parent_issuer parse_id is_ca a s meanwhile org_id project_id parent_id profile r).1
          × ((res : Resolution P)
              → (parent_issuer parse_id is_ca a s meanwhile org_id project_id parent_id profile r).0
                ≡ ok res
              → OfParent org_id project_id profile res)
    unfolding parent_issuer resolve_as
    parent_issuer-OfParent org_id project_id parent_id profile r distinct h =
        chain-Gives (Coherent a s) (IsParent org_id project_id profile)
          (OfParent org_id project_id profile)
          (parent_row parse_id is_ca a s meanwhile org_id project_id parent_id profile, r) _
          (h, parent_row-IsParent org_id project_id parent_id profile)
          (λ parent r0 is h0.
            chain-Gives (Coherent a s) (Signs a s (parent_request profile parent))
              (OfParent org_id project_id profile)
              (resolve_answer parent.label
                (resolve a s meanwhile (parent_request profile parent) r0))
              _
              (answer-Gives (Signs a s (parent_request profile parent)) parent.label _ (
                resolve-Signs a s laws meanwhile kept (parent_request profile parent) r0 distinct
                  h0))
              (λ res r1 signs h1. is_ca-Gives org_id project_id profile parent res r1 is signs h1))
