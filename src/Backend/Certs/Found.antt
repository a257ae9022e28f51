-- ===== src/Backend/Certs/Found.antt =====
-- The certificate that a request finds is one that its caller may use.
use mathlib.Core.Path.{subst}
use mathlib.Core.Option.{some-injective, none-ne-some}
use text.Mathlib.Text.{◌==◌ as str_eq}
use trustyca.Base.{
  ℕ, zero, suc, ltb, String, ◌≡◌, ◌⊎◌, inl, inr, refl, sym, ap, ◌∙◌, Bool, true, ◌||◌, Option, none,
  some, List, [], ◌∷◌, ◌==◌, Bool-cases, arith, Any, Any-map, Any-filter, find?, find?-Any, filter,
}
use trustyca.Db.Scopes.{check_list_scope}
use trustyca.Base.Status.{after_check, Result, Error, ok, err, ◌>>=◌, bind_iff, ok-injective}
use trustyca.Db.Cursor.{
  check_key, key_id, Codec, PageParams, by_key, by_offset, id_value, time_value, name_value,
  set_page,
}
use trustyca.Db.Pages.{take, drop, page_by_id_desc, list_rows, page_of, Page}
use trustyca.Db.Pages.Order.{by_id_desc-Any}
use trustyca.Db.Tables.{found, no_error}
use trustyca.Authctx.Access.{TrustyCtx}
use trustyca.Ca.Rows.{Certificate}
use trustyca.Ca.Store.{Store}
use trustyca.Ca.Revocations.{
  get_certificate, get_certificate_by_sha256, get_certificate_by_issuer_serial, list_certificates,
  lists_certificate, ListCertificatesRequest,
}
use trustyca.Ca.Revocations.Effect.{found-some}
use trustyca.Backend.Scope.{TenantScope, row_access, in_project, parse_id_val}
use trustyca.Backend.Certs.{
  skid_projects, skid_then, names_serial, skid_request, Selector, find_certificate, selected,
  checked, row_read, is_not_found, certificate_by_skid, by_serial, first_row, skid_request,
}

module _ {A : Type 0} (id : A → ℕ) (P : A → Type 0) where
  take-Any : (n : ℕ) (rows : List A) → Any P (take n rows) → Any P rows
  take-Any zero rows a = absurd a
  take-Any (suc n) [] a = a
  take-Any (suc n) (x ∷ rows) (inl h) = inl h
  take-Any (suc n) (x ∷ rows) (inr a) = inr (take-Any n rows a)

  drop-Any : (n : ℕ) (rows : List A) → Any P (drop n rows) → Any P rows
  drop-Any zero rows a = a
  drop-Any (suc n) [] a = a
  drop-Any (suc n) (x ∷ rows) a = inr (drop-Any n rows a)

  -- the rows of a page are rows of the list
  page-Any :
      (params : PageParams) (rows : List A) → Any P (page_by_id_desc id params rows) → Any P rows
  unfolding page_by_id_desc
  page-Any (by_offset n offset) rows a =
      (by_id_desc-Any id P rows).0 (drop-Any offset _ (take-Any n _ a))
  page-Any (by_key n (id_value k ∷ [])) rows a =
      (by_id_desc-Any id P rows).0
        (Any-map _ P (λ x h. h.0) _ (Any-filter P (λ x. ltb (id x) k) _ (take-Any n _ a)))
  page-Any (by_key n []) rows a = absurd a
  page-Any (by_key n (time_value k ∷ key)) rows a = absurd a
  page-Any (by_key n (name_value k ∷ key)) rows a = absurd a
  page-Any (by_key n (id_value k ∷ v ∷ key)) rows a = absurd a

refuse_some :
    {e : Error} {row : Certificate}
    → ◌≡◌ {A = Result (Option Certificate)} (err e) (ok (some row))
    → ⊥
refuse_some h = cc

read-ok :
    (r : Result (Option Certificate)) (row : Certificate)
    → row_read r ≡ ok (some row)
    → r ≡ ok (some row)
read-ok (ok b) a h = h
read-ok (err e) a h = elim (Bool-cases (is_not_found e)) [
  | inl none_found ↦ absurd (refuse_some (rw none_found at h))
  | inr failed ↦ absurd (refuse_some (rw failed at h))
]

abbrev Member : Store → Certificate → Type 0
Member s row = Any (λ c. c ≡ row) s.certificates

module _ (down : String → Bool) (s : Store) where
  -- the row of a statement that finds the first row with the test
  read-Member :
      (name : String) (p : Certificate → Bool) (row : Certificate)
      → ((no_error (down name) >>= λ _. found (find? p s.certificates)) >>= λ c. ok (some c))
        ≡ ok (some row)
      → Member s row
  read-Member name p row h =
      let (c, f, e) =
        (bind_iff (no_error (down name) >>= λ _. found (find? p s.certificates)) (λ c. ok (some c))
            (some row)).0
          h in
      let (_, _, g) = (bind_iff (no_error (down name)) _ c).0 f in
      Any-map _ (λ x. x ≡ row) (λ x k. k.0 ∙ some-injective c row (ok-injective _ _ e))
        s.certificates (find?-Any p s.certificates c (found-some (find? p s.certificates) c g))

refuse_row : {e : Error} {row : Certificate} → ◌≡◌ {A = Result Certificate} (err e) (ok row) → ⊥
refuse_row h = cc

first_row-Any :
    (rows : List Certificate) (row : Certificate)
    → first_row rows ≡ some row
    → Any (λ c. c ≡ row) rows
first_row-Any [] row h = absurd (none-ne-some _ h)
first_row-Any (c ∷ rows) row h = inl (some-injective c row h)

module _ (scope : TenantScope) (tctx : TrustyCtx) (down : String → Bool) (codec : Codec)
    (has_next : ℕ → ℕ → Bool) (s : Store) where
  list_certificates-Any :
      (P : Certificate → Type 0) (r : ListCertificatesRequest) (page : Page Certificate)
      → list_certificates down codec has_next r s ≡ ok page
      → Any P page.rows
      → Any P s.certificates
  unfolding list_certificates list_rows page_of
  list_certificates-Any P r page h a =
      let rows = filter (lists_certificate r) s.certificates in
      let g = after_check (check_list_scope r.org_id r.platform r.all_orgs) _ page h in
      let k = after_check (check_key key_id r.cursor) _ page g in
      let e = after_check (no_error (down "ListCertificates")) _ page k in
      let is = ok-injective (list_rows (λ c. c.id) codec has_next r.limit r.cursor rows) page e in
      Any-map _ P (λ c q. q.0) s.certificates
        (Any-filter P (lists_certificate r) s.certificates (
          page-Any (λ c. c.id) P (set_page r.limit 0 r.cursor)
            (filter (lists_certificate r) s.certificates) (subst (λ z. Any P z.rows) (sym is) a)))

  skid-Member :
      (org_id project_id : ℕ) (skid : String) (row : Certificate)
      → certificate_by_skid scope tctx down codec has_next org_id project_id skid s ≡ ok (some row)
      → Member s row
  unfolding certificate_by_skid
  skid-Member org_id project_id skid row h =
      let (project_ids, _, g) =
        (bind_iff (skid_projects scope tctx down codec has_next org_id project_id)
            (skid_then scope tctx down codec has_next org_id project_id skid s) (some row)).0
          h in
      let (page, listed, e) =
        (bind_iff
            (list_certificates down codec has_next
              (skid_request scope tctx down codec has_next org_id project_id project_ids skid) s)
            (λ page. ok (first_row page.rows)) (some row)).0
          g in
      list_certificates-Any (λ c. c ≡ row) _ page listed
        (first_row-Any page.rows row (ok-injective _ _ e))

  serial-Member :
      (o : Option (String × String)) (row : Certificate)
      → by_serial scope tctx down codec has_next o s ≡ ok (some row)
      → Member s row
  unfolding get_certificate_by_issuer_serial
  serial-Member none row h = absurd (refuse h)
    where
      refuse : ◌≡◌ {A = Result (Option Certificate)} (ok none) (ok (some row)) → ⊥
      refuse e = cc
  serial-Member (some (ikid, serial)) row h =
      elim (Bool-cases (str_eq ikid "" || str_eq serial "")) [
        | inl absent ↦ absurd (refuse_some (rw absent at h))
        | inr given ↦
            read-Member down s "GetCertificateByIssuerSerial" _ row (read-ok _ row (rw given at h))
      ]

  selected-Member :
      (org_id : ℕ) (sel : Selector) (row : Certificate)
      → selected scope tctx down codec has_next org_id sel s ≡ ok (some row)
      → Member s row
  unfolding selected get_certificate get_certificate_by_sha256
  selected-Member org_id sel row h = elim (Bool-cases (str_eq sel.id "")) [
    | inr named ↦
        let (id, _, g) =
          (bind_iff
              (parse_id_val scope.parse_id "missing certificate ID" "invalid certificate ID" sel.id)
              (λ id. row_read (get_certificate down id s >>= λ c. ok (some c))) (some row)).0
            (rw named at h) in
        read-Member down s "GetCertificate" (λ c. c.id == id) row (read-ok _ row g)
    | inl a ↦ elim (Bool-cases (names_serial sel.issuer_serial)) [
      | inl serial ↦ serial-Member sel.issuer_serial row (rw (a, serial) at h)
      | inr b ↦ elim (Bool-cases (str_eq sel.sha256 "")) [
        | inr sha ↦
            read-Member down s "GetCertificateBySha256" (λ c. str_eq c.sha256 sel.sha256) row
              (read-ok _ row (rw (a, b, sha) at h))
        | inl c ↦ elim (Bool-cases (str_eq sel.skid "")) [
          | inr skid ↦
              skid-Member org_id sel.project_id sel.skid row
                (read-ok _ row (rw (a, b, c, skid) at h))
          | inl d ↦ absurd (refuse_some (rw (a, b, c, d) at h))
        ]
      ]
    ]
  ]

  checked-scope :
      (org_id project_id : ℕ) (method : String) (o : Option Certificate) (row : Certificate)
      → checked scope tctx down codec has_next org_id project_id method o ≡ ok row
      → (o ≡ some row)
        × (row.org_id ≡ org_id)
        × ((project_id ≡ 0) ⊎ (row.project_id ≡ project_id))
        × (row_access scope tctx org_id row.project_id method "certificate not found" ≡ ok tt)
  unfolding in_project
  checked-scope org_id project_id method none row h = absurd (refuse_row h)
  checked-scope org_id project_id method (some c) row h = elim (Bool-cases (c.org_id == org_id)) [
    | inr other ↦ absurd (refuse_row (rw other at h))
    | inl same ↦ elim (Bool-cases (project_id == 0 || c.project_id == project_id)) [
      | inr out ↦ absurd (refuse_row (rw (same, out) at h))
      | inl within ↦
          let (_, access, e) =
            (bind_iff (row_access scope tctx org_id c.project_id method "certificate not found")
                (λ _. ok c) row).0
              (rw (same, within) at h) in
          let is = ok-injective c row e in
          subst
            (λ z.
              (some c ≡ some z)
              × (z.org_id ≡ org_id)
              × ((project_id ≡ 0) ⊎ (z.project_id ≡ project_id))
              × (row_access scope tctx org_id z.project_id method "certificate not found" ≡ ok tt))
            is (refl, ground arith, member within, access)
    ]
  ]
    where
      member :
          (project_id == 0 || c.project_id == project_id) ≡ true
          → (project_id ≡ 0) ⊎ (c.project_id ≡ project_id)
      member e = elim (Bool-cases (project_id == 0)) [
        | inl z ↦ inl (ground arith)
        | inr z ↦ inr (ground arith)
      ]

  -- A certificate that findCertificate returns is a row of the table, belongs to the org, and to
  -- the project that the request names where it names one, and the caller may call the method on a
  -- row of its project.
  pub find_certificate-scope :
      (org_id : ℕ) (sel : Selector) (method : String) (row : Certificate)
      → find_certificate scope tctx down codec has_next org_id sel method s ≡ ok row
      → Any (λ c. c ≡ row) s.certificates
        × (row.org_id ≡ org_id)
        × ((sel.project_id ≡ 0) ⊎ (row.project_id ≡ sel.project_id))
        × (row_access scope tctx org_id row.project_id method "certificate not found" ≡ ok tt)
  unfolding find_certificate
  find_certificate-scope org_id sel method row h =
      let (found, is, rest) =
        (bind_iff (selected scope tctx down codec has_next org_id sel s)
            (checked scope tctx down codec has_next org_id sel.project_id method) row).0
          h in
      let (row_found, org, project, access) =
        checked-scope org_id sel.project_id method found row rest in
      (selected-Member org_id sel row (is ∙ ap ok row_found), org, project, access)
