-- ===== src/Backend/Issuers/Lifecycle.antt =====
-- server/service/backend/issuer.go: the lifecycle of the issuers under UpdateIssuer and
-- ActivateIssuer.
use mathlib.Core.Path.{subst}
use text.Mathlib.Text.{◌==◌ as str_eq}
use trustyca.Base.{
  ℕ, ◌≡◌, ◌≤◌, ◌⊎◌, inl, inr, refl, sym, ap, String, Bool, true, false, not, ◌&&◌, Option, none,
  some, ◌==◌, if◌then◌else◌, Bool-cases, arith, List, [], ◌∷◌, map, Any, Any-map, find?, find?-Any,
  any, ◌||◌,
}
use trustyca.Base.Status.{
  err-ne-ok, Result, Done, Error, ok, err, grpc, wrapped, unauthenticated, permission_denied,
  invalid_argument, not_found, already_exists, failed_precondition, internal, service_unavailable,
  ok-injective, bind_iff, after_check,
}
use trustyca.Authctx.Access.{TrustyCtx}
use trustyca.Db.Tables.{found, no_error}
use trustyca.Ca.Rows.{
  Issuer, IssuerStatus, issuer_unknown, issuer_pending, issuer_active, issuer_archived,
  issuer_destroyed, issuer_status_number,
}
use trustyca.Ca.Store.{Store, get_issuer}
use trustyca.Ca.Issuers.{
  UpdateIssuerRequest, update_issuer, activate_issuer, update_row, update_columns, activate_columns,
  is_updated, is_pending, issuer_validate,
}
use trustyca.Ca.Registry.{Authority, State, is_missing}
use trustyca.Ca.Registry.Coherent.{CacheLaws, Coherent}
use trustyca.Ca.Registry.Signs.{DistinctIds}
use trustyca.Ca.Registry.Changes.{
  update_issuer-Coherent, activate_issuer-Coherent, is_updated-id, found-some, unless,
}
use trustyca.Backend.Scope.{
  TenantScope, org, request_project, issuer, issuer_read, in_project, visible_issuer, parse_id_val,
}
use trustyca.Backend.Issuers.{
  Calls, UpdateRequest, ActivateRequest, issuer_transitions, check_transition, update_config,
  update_error, activate_error, Changed, updated, activated, update_row_of, update_issuer_of,
  activate_row_of, activate_issuer_of, is_unique_skid, with_certificate, require_ca,
}

-- the same issuer, in a status that is not before the one it had
abbrev pub Rises : Issuer → Issuer → Type 0
Rises i j = (i.id ≡ j.id) × (issuer_status_number i.status ≤ issuer_status_number j.status)

-- the rows of two tables, one by one
abbrev pub Pairs : (Issuer → Issuer → Type 0) → List Issuer → List Issuer → Type 0
Pairs R [] [] = Unit
Pairs R [] (y ∷ ys) = ⊥
Pairs R (x ∷ xs) [] = ⊥
Pairs R (x ∷ xs) (y ∷ ys) = R x y × Pairs R xs ys

Pairs-map :
    (R : Issuer → Issuer → Type 0) (f : Issuer → Issuer) (xs : List Issuer)
    → ((x : Issuer) → Any (λ y. y ≡ x) xs → R x (f x))
    → Pairs R xs (map f xs)
Pairs-map R f [] h = tt
Pairs-map R f (x ∷ xs) h = (h x (inl refl), Pairs-map R f xs (λ y k. h y (inr k)))

transition-le :
    (old : IssuerStatus) (k : ℕ)
    → (issuer_status_number (issuer_transitions old) == k) ≡ true
    → (k == 0) ≡ false
    → issuer_status_number old ≤ k
unfolding issuer_transitions
transition-le issuer_unknown k e set = omega arith
transition-le issuer_pending k e set = ground arith
transition-le issuer_active k e set = ground arith
transition-le issuer_archived k e set = ground arith
transition-le issuer_destroyed k e set = ground arith

-- a transition that the check lets through does not go back
check_transition-le :
    (row : Issuer) (status : IssuerStatus)
    → check_transition row status ≡ ok tt
    → (issuer_status_number status == 0) ≡ false
    → issuer_status_number row.status ≤ issuer_status_number status
unfolding check_transition
check_transition-le row status h set =
    elim (Bool-cases
      (issuer_status_number (issuer_transitions row.status) == issuer_status_number status)) [
        | inl e ↦ transition-le row.status (issuer_status_number status) e set
        | inr e ↦ absurd (refused (rw (set, e) at h))
      ]
  where
    refused : {d : Error} → ◌≡◌ {A = Result Done} (err d) (ok tt) → ⊥
    refused k = cc

-- the rows that an UPDATE leaves
update_row-rows :
    (selects : Issuer → Bool) (change : Issuer → Issuer) (s t : Store) (row : Issuer)
    → update_row selects change s ≡ ok (row, t)
    → t.issuers ≡ map (λ j. if selects j then change j else j) s.issuers
unfolding update_row
update_row-rows selects change s t row e =
    let (old, _, done) = (bind_iff (found (find? selects s.issuers)) _ (row, t)).0 e in
    sym (ap (λ q. q.1.issuers) (ok-injective _ _ done))

-- the row of an update and of an activation
update_issuer-row :
    (down parses : String → Bool) (now : ℕ) (req : UpdateIssuerRequest) (s : Store)
    (res : Issuer × Store)
    → update_issuer down parses now req s ≡ ok res
    → update_row (is_updated req) (update_columns req now) s ≡ ok (res.0, res.1)
unfolding update_issuer
update_issuer-row down parses now req s res e =
    let ask = unless (req.id == 0) _ _ res e in
    let changes =
      unless ((issuer_status_number req.status == 0) && str_eq req.config "") _ _ res ask in
    let parsed = unless (not (str_eq req.config "") && not (parses req.config)) _ _ res changes in
    after_check (no_error (down "UpdateIssuer")) _ res parsed

activate_issuer-row :
    (down : String → Bool) (now : ℕ) (m : Issuer) (s : Store) (res : Issuer × Store)
    → activate_issuer down now m s ≡ ok res
    → update_row (is_pending m) (activate_columns m now) s ≡ ok (res.0, res.1)
unfolding activate_issuer
activate_issuer-row down now m s res e =
    let named = unless (m.id == 0) _ _ res e in
    let valid =
      after_check
        (no_error (
          not (issuer_validate (record m { status = issuer_active; csr_pem = "" }))
          || down "ActivateIssuer"))
        _ res named in
    unless (any (λ i. not (i.id == m.id) && str_eq i.skid m.skid) s.issuers) _ _ res valid

activate_columns-Rises :
    (m : Issuer) (now : ℕ) (x : Issuer) → is_pending m x ≡ true → Rises x (activate_columns m now x)
unfolding is_pending activate_columns
activate_columns-Rises m now x on = (refl, ground (arith, on))

update_error-ok : {A : Type 0} (o : Result A) (x : A) → update_error o ≡ ok x → o ≡ ok x
update_error-ok (ok y) x e = e
update_error-ok (err d) x e = elim (Bool-cases (is_missing d)) [
  | inl m ↦ absurd (err-ne-ok x (rw m at e))
  | inr m ↦ absurd (err-ne-ok x (rw m at e))
]

activate_error-ok : {A : Type 0} (o : Result A) (x : A) → activate_error o ≡ ok x → o ≡ ok x
activate_error-ok (ok y) x e = e
activate_error-ok (err d) x e = elim (Bool-cases (is_missing d)) [
  | inl m ↦ absurd (err-ne-ok x (rw m at e))
  | inr m ↦ elim (Bool-cases (is_unique_skid d)) [
    | inl u ↦ absurd (err-ne-ok x (rw (m, u) at e))
    | inr u ↦ absurd (err-ne-ok x (rw (m, u) at e))
  ]
]

-- the row of a request is a row of the table
module _ (scope : TenantScope) (tctx : TrustyCtx) where
  issuer_read-ok :
      (o : Result Issuer) (row : Issuer) → issuer_read scope tctx o ≡ ok row → o ≡ ok row
  issuer_read-ok (ok y) row e = e
  issuer_read-ok (err (wrapped m)) row e = absurd (err-ne-ok row e)
  issuer_read-ok (err (grpc unauthenticated m)) row e = absurd (err-ne-ok row e)
  issuer_read-ok (err (grpc permission_denied m)) row e = absurd (err-ne-ok row e)
  issuer_read-ok (err (grpc invalid_argument m)) row e = absurd (err-ne-ok row e)
  issuer_read-ok (err (grpc not_found m)) row e = absurd (err-ne-ok row e)
  issuer_read-ok (err (grpc already_exists m)) row e = absurd (err-ne-ok row e)
  issuer_read-ok (err (grpc failed_precondition m)) row e = absurd (err-ne-ok row e)
  issuer_read-ok (err (grpc internal m)) row e = absurd (err-ne-ok row e)
  issuer_read-ok (err (grpc service_unavailable m)) row e = absurd (err-ne-ok row e)

  visible_issuer-row :
      (org_id : ℕ) (found_row row : Issuer) (method : String)
      → visible_issuer scope tctx org_id found_row method ≡ ok row
      → found_row ≡ row
  unfolding visible_issuer
  visible_issuer-row org_id found_row row method e =
      let seen = unless (not (found_row.org_id == org_id)) _ _ row e in
      ok-injective _ _ (after_check _ (ok found_row) row seen)

  issuer-Any :
      (down : String → Bool) (org_id project_id : ℕ) (id_val method : String) (s : Store)
      (row : Issuer)
      → issuer scope tctx down org_id project_id id_val method s ≡ ok row
      → Any (λ i. i ≡ row) s.issuers
  unfolding issuer get_issuer
  issuer-Any down org_id project_id id_val method s row e =
      let (id, _, rest) =
        (bind_iff (parse_id_val scope.parse_id "missing issuer ID" "invalid issuer ID" id_val) _
            row).0
          e in
      let (found_row, read, shown) =
        (bind_iff (issuer_read scope tctx (get_issuer down id s)) _ row).0 rest in
      let same = visible_issuer-row org_id found_row row method (
        unless (not (in_project found_row.project_id project_id))
          (grpc not_found "issuer not found") _ row shown) in
      let stored =
        after_check (no_error (down "GetIssuer")) _ found_row (issuer_read-ok _ found_row read) in
      subst (λ k. Any (λ i. i ≡ k) s.issuers) same
        (Any-map _ _ (λ i k. k.0) s.issuers
          (find?-Any (λ i. i.id == id) s.issuers found_row (found-some _ found_row stored)))

  module _ (calls : Calls) {C D E A P S : Type 0} (a : Authority C D E A P S)
      (laws : CacheLaws a) where
    -- the rows of a handler: each rises, the IDs are distinct, and the caches are coherent
    abbrev pub RisesTo : Store → Changed scope tctx calls a → Type 0
    RisesTo s res = Pairs Rises s.issuers res.2.issuers × DistinctIds res.2 × Coherent a res.2 res.3

    changed-Rises :
        (selects : Issuer → Bool) (change : Issuer → Issuer) (s t : Store) (row : Issuer)
        → update_row selects change s ≡ ok (row, t)
        → ((x : Issuer) → Any (λ y. y ≡ x) s.issuers → selects x ≡ true → Rises x (change x))
        → Pairs Rises s.issuers t.issuers
    changed-Rises selects change s t row e up =
        subst (Pairs Rises s.issuers) (sym (update_row-rows selects change s t row e)) (
          Pairs-map Rises (λ j. if selects j then change j else j) s.issuers
            (λ x k. elim (Bool-cases (selects x)) [
              | inl on ↦ rw on (up x k on)
              | inr off ↦ rw off (refl, omega arith)
            ]))

    update_columns-Rises :
        (req : UpdateIssuerRequest) (now : ℕ) (row x : Issuer)
        → x ≡ row
        → check_transition row req.status ≡ ok tt
        → Rises x (update_columns req now x)
    unfolding update_columns
    update_columns-Rises req now row x same checked =
        elim (Bool-cases (issuer_status_number req.status == 0)) [
          | inl keep ↦ rw keep (refl, omega arith)
          | inr set ↦ rw set (
            refl,
            subst (λ k. issuer_status_number k.status ≤ issuer_status_number req.status) (sym same)
                (check_transition-le row req.status checked set),
          )
        ]

    update_row_of-Rises :
        (now org_id : ℕ) (req : UpdateRequest) (s : Store) (r : State a) (row : Issuer)
        (res : Changed scope tctx calls a)
        → DistinctIds s
        → Coherent a s r
        → Any (λ i. i ≡ row) s.issuers
        → update_row_of scope tctx calls a now org_id req s r row ≡ ok res
        → RisesTo s res
    unfolding update_row_of updated
    update_row_of-Rises now org_id req s r row res distinct h mem e =
        let (_, checked, rest) = (bind_iff (check_transition row req.status) _ res).0 e in
        let (config, _, write) = (bind_iff (update_config calls row req.config) _ res).0 rest in
        let asked : UpdateIssuerRequest = record {
          id = row.id;
          org_id = org_id;
          status = req.status;
          config = config;
        } in
        let (written, stored, done) =
          (bind_iff (update_error (update_issuer a.down calls.parses now asked s)) _ res).0 write in
        let did = update_error-ok (update_issuer a.down calls.parses now asked s) written stored in
        let (ids, fits) =
          update_issuer-Coherent a laws calls.parses now asked s written.1 written.0 r distinct did
            h in
        subst (RisesTo s) (ok-injective _ res done) (
          changed-Rises (is_updated asked) (update_columns asked now) s written.1 written.0
              (update_issuer-row a.down calls.parses now asked s written did)
              (λ x k on.
                update_columns-Rises asked now row x
                  (distinct x row k mem (is_updated-id asked x on)) checked),
          ids,
          fits,
        )

    activate_row_of-Rises :
        (now org_id : ℕ) (req : ActivateRequest) (s : Store) (r : State a) (row : Issuer)
        (res : Changed scope tctx calls a)
        → DistinctIds s
        → Coherent a s r
        → activate_row_of scope tctx calls a now org_id req s r row ≡ ok res
        → RisesTo s res
    unfolding activate_row_of activated
    activate_row_of-Rises now org_id req s r row res distinct h e =
        let pending =
          unless (not (issuer_status_number row.status == 1))
            (grpc failed_precondition "issuer is not pending") _ res e in
        let (m, _, rest) =
          (bind_iff
              (with_certificate (calls.activated row req.certificate req.intermediates req.root)) _
              res).0
            pending in
        let (written, stored, done) =
          (bind_iff (activate_error (activate_issuer a.down now m s)) _ res).0 rest in
        let did = activate_error-ok (activate_issuer a.down now m s) written stored in
        let (ids, fits) =
          activate_issuer-Coherent a laws now m s written.1 written.0 r distinct did h in
        subst (RisesTo s) (ok-injective _ res done) (
          changed-Rises (is_pending m) (activate_columns m now) s written.1 written.0
              (activate_issuer-row a.down now m s written did)
              (λ x k on. activate_columns-Rises m now x on),
          ids,
          fits,
        )

    -- Where the IDs of the issuers are distinct and the caches of the registry are coherent, after an
    -- UpdateIssuer or an ActivateIssuer that succeeds every issuer of the table is the same one in
    -- the same status or a later one of its lifecycle, from pending to active, archived and
    -- destroyed, the IDs are distinct and the caches are coherent with the changed rows.
    pub issuer_change-Rises :
        (now : ℕ) (update : Option UpdateRequest) (activate : Option ActivateRequest) (s : Store)
        (r : State a) (res : Changed scope tctx calls a)
        → DistinctIds s
        → Coherent a s r
        → (update_issuer_of scope tctx calls a now update s r ≡ ok res)
          ⊎ (activate_issuer_of scope tctx calls a now activate s r ≡ ok res)
        → RisesTo s res
    unfolding update_issuer_of activate_issuer_of
    issuer_change-Rises now none activate s r res distinct h (inl e) = absurd (err-ne-ok res e)
    issuer_change-Rises now (some req) activate s r res distinct h (inl e) =
        let asked = after_check _ _ res (after_check (require_ca calls.has_registry) _ res e) in
        let (org_id, _, rest) = (bind_iff (org scope tctx req.org_id) _ res).0 asked in
        let (project_id, _, named) =
          (bind_iff (request_project scope tctx org_id req.project_id) _ res).0 rest in
        let (row, found_it, done) =
          (bind_iff (issuer scope tctx a.down org_id project_id req.id "/pb.CA/UpdateIssuer" s) _
              res).0
            named in
        update_row_of-Rises now org_id req s r row res distinct h
          (issuer-Any a.down org_id project_id req.id "/pb.CA/UpdateIssuer" s row found_it) done
    issuer_change-Rises now update none s r res distinct h (inr e) = absurd (err-ne-ok res e)
    issuer_change-Rises now update (some req) s r res distinct h (inr e) =
        let asked = after_check _ _ res (after_check (require_ca calls.has_registry) _ res e) in
        let (org_id, _, rest) = (bind_iff (org scope tctx req.org_id) _ res).0 asked in
        let (project_id, _, named) =
          (bind_iff (request_project scope tctx org_id req.project_id) _ res).0 rest in
        let (row, _, done) =
          (bind_iff (issuer scope tctx a.down org_id project_id req.id "/pb.CA/ActivateIssuer" s) _
              res).0
            named in
        activate_row_of-Rises now org_id req s r row res distinct h done
