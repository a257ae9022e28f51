-- ===== src/Backend/Profiles/Registered.antt =====
-- server/service/backend/profile.go: the row that RegisterProfile leaves for its scope and label.
use mathlib.Core.Path.{subst}
use text.Mathlib.Text.{◌==◌ as str_eq}
use text.Mathlib.TextEquality.{eq_iff}
use Prim.Native.String.{len}
use trustyca.Base.{
  Option, none, ℕ, ltb, ◌≡◌, inl, inr, refl, sym, ap, ◌∙◌, String, Bool, true, false, not, ◌||◌,
  some, List, [], ◌∷◌, ◌==◌, if◌then◌else◌, Bool-cases, Any-map, Any-fact, find?, find?-Any,
}
use trustyca.Base.Status.{
  err-ne-ok, Result, Error, ok, err, grpc, invalid_argument, ok-injective, bind_iff, after_check,
}
use trustyca.Db.Model.{ItemStatus, active, status_number}
use trustyca.Db.Tables.{no_error}
use trustyca.Db.Scopes.Tenancy.{where_tenancy_iff}
use trustyca.Authctx.Access.{TrustyCtx}
use trustyca.Ca.Rows.{CertificateProfile, max_len_for_label}
use trustyca.Ca.Store.{Store}
use trustyca.Ca.Issuers.{
  names_profile, replace_profile, put_profile, stored_profile, register_profile, profile_validate,
}
use trustyca.Ca.Registry.{Authority, State}
use trustyca.Ca.Registry.Coherent.{CacheLaws, Coherent}
use trustyca.Ca.Registry.Signs.{DistinctIds}
use trustyca.Ca.Registry.Profiles.{names_profile-Within, names-replace, register_profile-Coherent}
use trustyca.Backend.Scope.{TenantScope, org, project}
use trustyca.Backend.Issuers.{refuse_if}
use trustyca.Backend.Profiles.{
  register_profile_in, register_profile_of, Calls, CertProfile, RegisterProfileRequest, Left,
  trimmed_profile, new_certificate_profile, profile_config, register_error, registered_profile,
  invalidate, register_definition,
}

-- a row is found by its own scope and label
names_profile_self : (m : CertificateProfile) → names_profile m.org_id m.project_id m.label m ≡ true
unfolding names_profile
names_profile_self m =
    rw ((where_tenancy_iff m.org_id m.project_id m.org_id m.project_id).1 (refl, refl))
      ((eq_iff m.label m.label).1 refl)

find-put_profile_own :
    (n : CertificateProfile) (now : ℕ) (rows : List CertificateProfile)
    → find? (names_profile n.org_id n.project_id n.label) (put_profile n now rows)
      ≡ some (stored_profile n now rows)
find-put_profile_own n now [] = let own = names_profile_self n in rw own refl
find-put_profile_own n now (m ∷ rows) =
    elim (Bool-cases (names_profile n.org_id n.project_id n.label m)) [
      | inl e ↦
          let kept = names-replace n.org_id n.project_id n.label n now m ∙ e in rw (e, kept) refl
      | inr e ↦ rw (e, e) (find-put_profile_own n now rows)
    ]

-- a row holds the definition of another
abbrev pub Holds : CertificateProfile → CertificateProfile → Type 0
Holds n row =
    (row.issuer_label ≡ n.issuer_label) × (row.status ≡ n.status) × (row.config ≡ n.config)

stored_profile-Holds :
    (n : CertificateProfile) (now : ℕ) (rows : List CertificateProfile)
    → Holds n (stored_profile n now rows)
unfolding replace_profile
stored_profile-Holds n now [] = (refl, refl, refl)
stored_profile-Holds n now (m ∷ rows) =
    elim (Bool-cases (names_profile n.org_id n.project_id n.label m)) [
      | inl e ↦ rw e (refl, refl, refl)
      | inr e ↦ rw e (stored_profile-Holds n now rows)
    ]

-- the status of a profile, Active where none is given
abbrev pub status_or_active : ItemStatus → ItemStatus
status_or_active status = if status_number status == 0 then active else status

-- the row of a registration is the table's of its scope and label
abbrev pub Stored : ℕ → ℕ → String → CertificateProfile → Store → Type 0
Stored org_id project_id label row t =
    find? (names_profile org_id project_id label) t.profiles ≡ some row

register_profile-Stored :
    (down : String → Bool) (now : ℕ) (m row : CertificateProfile) (s t : Store)
    → register_profile down now m s ≡ ok (row, t)
    → Stored m.org_id m.project_id m.label row t
      × Holds (record m { status = status_or_active m.status }) row
unfolding register_profile
register_profile-Stored down now m row s t e =
    let im : CertificateProfile = record m {
      id = if m.id == 0 then s.next_id else m.id;
      status = if status_number m.status == 0 then active else m.status;
      updated_at = now;
    } in
    let done =
      ok-injective _ _ (
        after_check (no_error (not (profile_validate im) || down "RegisterProfile")) _ (row, t)
          e) in
    subst
      (λ q.
        Stored m.org_id m.project_id m.label q.0 q.1
        × Holds (record m { status = status_or_active m.status }) q.0)
      done (find-put_profile_own im now s.profiles, stored_profile-Holds im now s.profiles)

-- the scope and the label of a row that is found by them
Stored-Within :
    (org_id project_id : ℕ) (label : String) (row : CertificateProfile) (t : Store)
    → Stored org_id project_id label row t
    → (row.org_id ≡ org_id) × (row.project_id ≡ project_id) × (row.label ≡ label)
Stored-Within org_id project_id label row t e =
    let hits = find?-Any (names_profile org_id project_id label) t.profiles row e in
    names_profile-Within org_id project_id label row (
      Any-fact (names_profile org_id project_id label row ≡ true) t.profiles (
        Any-map _ (λ x. names_profile org_id project_id label row ≡ true)
          (λ x k. ap (names_profile org_id project_id label) (sym k.0) ∙ k.1) t.profiles hits))

register_error-ok : {A : Type 0} (o : Result A) (x : A) → register_error o ≡ ok x → o ≡ ok x
register_error-ok (ok y) x e = e
register_error-ok (err d) x e = absurd (err-ne-ok x e)

profile_config-ok : {A : Type 0} (o : Result A) (x : A) → profile_config o ≡ ok x → o ≡ ok x
profile_config-ok (ok y) x e = e
profile_config-ok (err d) x e = absurd (err-ne-ok x e)

refuse_if-ok : (b : Bool) (d : Error) → refuse_if b d ≡ ok tt → b ≡ false
refuse_if-ok true d h = absurd (err-ne-ok tt h)
refuse_if-ok false d h = refl

is_set : (b : Bool) → not b ≡ false → b ≡ true
is_set true h = refl
is_set false h = sym h

status_or_active-twice :
    (status : ItemStatus) → status_or_active (status_or_active status) ≡ status_or_active status
status_or_active-twice status = elim (Bool-cases (status_number status == 0)) [
  | inl unset ↦ rw unset refl
  | inr set ↦ rw (set, set) refl
]

-- the row of a definition, without its ID and its time
abbrev pub RowOf : {B : Type 0} → ℕ → ℕ → CertProfile B → String → CertificateProfile → Type 0
RowOf org_id project_id def config m =
    (m.org_id ≡ org_id)
    × (m.project_id ≡ project_id)
    × (m.label ≡ def.label)
    × (m.issuer_label ≡ def.issuer_label)
    × (m.status ≡ status_or_active def.status)
    × (m.config ≡ config)

new_certificate_profile-RowOf :
    {B : Type 0} (marshal : CertProfile B → Result String) (org_id project_id : ℕ)
    (def : CertProfile B) (m : CertificateProfile)
    → new_certificate_profile marshal org_id project_id def ≡ ok m
    → (config : String) × (marshal def ≡ ok config) × RowOf org_id project_id def config m
unfolding new_certificate_profile
new_certificate_profile-RowOf marshal org_id project_id def m e =
    let (config, read, done) = (bind_iff (marshal def) _ m).0 e in
    let same = sym (ok-injective _ _ done) in
    (
      config,
      read,
      (
        ap (λ q. q.org_id) same,
        ap (λ q. q.project_id) same,
        ap (λ q. q.label) same,
        ap (λ q. q.issuer_label) same,
        ap (λ q. q.status) same,
        ap (λ q. q.config) same,
      ),
    )

-- the row that a registration leaves is that of the definition, and is found by its scope and label
registered-RowOf :
    {B : Type 0} (down : String → Bool) (now org_id project_id : ℕ) (def : CertProfile B)
    (config : String) (m row : CertificateProfile) (s t : Store)
    → RowOf org_id project_id def config m
    → register_profile down now m s ≡ ok (row, t)
    → Stored org_id project_id def.label row t × RowOf org_id project_id def config row
registered-RowOf down now org_id project_id def config m row s t (o, p, l, i, st, c) e =
    let (stored, (issuer, status, kept)) = register_profile-Stored down now m row s t e in
    let (own, in_it, named) = Stored-Within m.org_id m.project_id m.label row t stored in
    (
      rw (o, p, l) at stored,
      (
        own ∙ o,
        in_it ∙ p,
        named ∙ l,
        issuer ∙ i,
        status ∙ ap status_or_active st ∙ status_or_active-twice def.status,
        kept ∙ c,
      ),
    )

module _ (scope : TenantScope) (tctx : TrustyCtx) {B M : Type 0} (calls : Calls B M)
    {C D E A P S : Type 0} (a : Authority C D E A P S) where
  -- what a registration has done: the definition of the request, trimmed and valid, is the row that
  -- its scope and label find
  abbrev pub Registers :
      RegisterProfileRequest B → (Result M × Left scope tctx calls a true) → Type 0
  Registers req done =
      (def : CertProfile B) × (org_id : ℕ) × (project_id : ℕ) × (config : String)
      × (row : CertificateProfile) × (req.profile ≡ some def)
      × (calls.valid_profile (trimmed_profile def) ≡ true)
      × (org scope tctx req.org_id ≡ ok org_id)
      × (project scope tctx org_id req.project_id ≡ ok project_id)
      × (calls.marshal (trimmed_profile def) ≡ ok config)
      × Stored org_id project_id (trimmed_profile def).label row done.1.1
      × RowOf org_id project_id (trimmed_profile def) config row

  module _ (laws : CacheLaws a) where
    register_definition-row :
        (now : ℕ) (def : CertProfile B) (req : RegisterProfileRequest B) (s : Store) (r : State a)
        (done : Result M × Left scope tctx calls a true)
        → DistinctIds s
        → Coherent a s r
        → req.profile ≡ some def
        → register_definition scope tctx calls a true now req.org_id req.project_id
            (trimmed_profile def)
            s
            r
          ≡ ok done
        → Registers req done × DistinctIds done.1.1 × Coherent a done.1.1 done.1.2
    unfolding register_definition registered_profile invalidate
    register_definition-row now def req s r done distinct coherent given e =
        let d = trimmed_profile def in
        let e1 = after_check (refuse_if (str_eq d.label "") _) _ done e in
        let e2 = after_check (refuse_if (ltb max_len_for_label (len d.label)) _) _ done e1 in
        let e3 = after_check (refuse_if (str_eq d.issuer_label "") _) _ done e2 in
        let e4 = after_check (refuse_if (ltb max_len_for_label (len d.issuer_label)) _) _ done e3 in
        let (_, checked, e5) =
          (bind_iff (refuse_if (not (calls.valid_profile d)) (grpc invalid_argument "%s")) _ done).0
            e4 in
        let (org_id, own, e6) = (bind_iff (org scope tctx req.org_id) _ done).0 e5 in
        let (project_id, named, e7) =
          (bind_iff (project scope tctx org_id req.project_id) _ done).0 e6 in
        let (m, made, e8) =
          (bind_iff (profile_config (new_certificate_profile calls.marshal org_id project_id d)) _
              done).0
            e7 in
        let (res, ran, e9) =
          (bind_iff (register_error (register_profile a.down now m s)) _ done).0 e8 in
        let (config, read, is) =
          new_certificate_profile-RowOf calls.marshal org_id project_id d m
            (profile_config-ok _ m made) in
        let stored = register_error-ok _ res ran in
        let (found, row_is) =
          registered-RowOf a.down now org_id project_id d config m res.0 s res.1 is stored in
        let (kept, fits) =
          register_profile-Coherent a laws now m res.0 s res.1 r distinct stored coherent in
        let same = ok-injective _ _ e9 in
        let (o, p, l, _, _, _) = is in
        let (_, _, l', _, _, _) = row_is in
        subst (λ q. Registers req q × DistinctIds q.1.1 × Coherent a q.1.1 q.1.2) same
          (
            (
              def,
              org_id,
              project_id,
              config,
              res.0,
              given,
              is_set _ (refuse_if-ok _ _ checked),
              own,
              named,
              read,
              found,
              row_is,
            ),
            kept,
            rw (o, p, l ∙ sym l') at fits,
          )

    register_profile_in-row :
        (now : ℕ) (req : RegisterProfileRequest B) (o : Option (CertProfile B)) (s : Store)
        (r : State a) (done : Result M × Left scope tctx calls a true)
        → DistinctIds s
        → Coherent a s r
        → req.profile ≡ o
        → register_profile_in scope tctx calls a true now req o s r ≡ ok done
        → Registers req done × DistinctIds done.1.1 × Coherent a done.1.1 done.1.2
    register_profile_in-row now req none s r done distinct coherent given e =
        absurd (err-ne-ok done e)
    register_profile_in-row now req (some def) s r done distinct coherent given e =
        register_definition-row now def req s r done distinct coherent given e

    -- A RegisterProfile that succeeds, on a server with a registry, named an org of the caller and a
    -- project of that org, if any, and gave a definition that is valid once its labels are trimmed;
    -- a lookup of the table by that scope and label then finds a row with the issuer label of the
    -- definition, its status, Active where it gives none, and its config, whether the row is new or
    -- replaced; and the caches of the registry stay coherent with the rows, where they were and the
    -- IDs of the issuers are distinct.
    pub register_profile_of-Registers :
        (now : ℕ) (req : RegisterProfileRequest B) (s : Store) (r : State a)
        (done : Result M × Left scope tctx calls a true)
        → DistinctIds s
        → Coherent a s r
        → register_profile_of scope tctx calls a true now (some req) s r ≡ ok done
        → Registers req done × DistinctIds done.1.1 × Coherent a done.1.1 done.1.2
    unfolding register_profile_of
    register_profile_of-Registers now req s r done distinct coherent e =
        register_profile_in-row now req req.profile s r done distinct coherent refl e
