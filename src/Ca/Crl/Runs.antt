-- ===== src/Ca/Crl/Runs.antt =====
-- internal/ca/crl.go: the run of the CRL publisher over a page of issuers.
use text.Mathlib.Text.{◌==◌ as str_eq}
use mathlib.Core.Path.{subst}
use trustyca.Base.{
  ℕ, suc, ◌+◌, ◌≡◌, ◌<◌, inl, inr, refl, String, Bool, Bool-cases, true, false, Option, some, List,
  [], ◌∷◌, ◌++◌, if◌then◌else◌, length, filter, map, All, arith, ap, sym,
}
use trustyca.Base.Status.{Result, ok, err, wrapped, ◌>>=◌, bind_iff, ok-injective}
use trustyca.Db.Pages.{last}
use trustyca.Ca.Rows.{Issuer, Crl}
use trustyca.Ca.Store.{Store, get_crls}
use trustyca.Ca.Crl.{Publisher, publish, issuer_expired}
use trustyca.Ca.Crl.Published.{publish-published}

-- PublishCrlsResult
pub record PublishCrlsResult : Type 0 where
  pub crls : List (Option Crl)
  pub skipped : ℕ
  pub failed : ℕ

-- the issuers that a run has counted
unfoldable pub outcomes : PublishCrlsResult → ℕ
outcomes res = length res.crls + res.skipped + res.failed

-- the entry of a key identifier in the map of currentCrls: a later CRL replaces an earlier one
unfoldable pub current_of : String → List Crl → Option Crl
current_of ikid crls = last (filter (λ c. str_eq c.ikid ikid) crls)

unfoldable pub crls_read : Result (List Crl) → Result (List Crl)
crls_read (ok crls) = ok crls
crls_read (err e) = err (wrapped "unable to read current CRLs")

unfoldable pub skip_one : PublishCrlsResult → PublishCrlsResult
skip_one res = record res { skipped = res.skipped + 1 }

unfoldable pub fail_one : PublishCrlsResult → PublishCrlsResult
fail_one res = record res { failed = res.failed + 1 }

unfoldable pub add_crl : PublishCrlsResult → Option Crl → PublishCrlsResult
add_crl res crl = record res { crls = res.crls ++ (crl ∷ []) }

-- the outcome of one issuer
unfoldable pub recorded : PublishCrlsResult → Result (Option Crl × Bool) → PublishCrlsResult
recorded res (err e) = fail_one res
recorded res (ok (crl, true)) = add_crl res crl
recorded res (ok (crl, false)) = skip_one res

module _ (p : Publisher) where
  -- currentCrls
  unfoldable pub current_crls : List Issuer → Store → Result (List Crl)
  current_crls [] s = ok []
  current_crls (row ∷ rows) s = crls_read (get_crls p.down (map (λ r. r.skid) (row ∷ rows)) s)

  module _ (others : Issuer → ℕ → Store → Store) (force : Bool) (clock : Issuer → ℕ × ℕ) where
    -- publishOne, at the two times that the clock gives of a row: that of the test of its expiry
    -- and that of publish; other publishers act before an attempt of a row
    unfoldable pub publish_one :
        Issuer → Option Crl → PublishCrlsResult → Store → PublishCrlsResult × Store
    publish_one row current res s =
        if issuer_expired row (clock row).0
        then (skip_one res, s)
        else (let step = publish p (others row) force (clock row).1 row current s in
            (recorded res step.0, step.1))

    -- the loop of PublishCrls over the rows of a page
    unfoldable pub publish_rows :
        List Crl → List Issuer → PublishCrlsResult → Store → PublishCrlsResult × Store
    publish_rows crls [] res s = (res, s)
    publish_rows crls (row ∷ rows) res s =
        let step = publish_one row (current_of row.skid crls) res s in
        publish_rows crls rows step.0 step.1

    -- a page of PublishCrls
    unfoldable pub publish_page :
        List Issuer → PublishCrlsResult → Store → Result (PublishCrlsResult × Store)
    publish_page rows res s = current_crls rows s >>= λ crls. ok (publish_rows crls rows res s)

length-append : {A : Type 0} → (xs : List A) (x : A) → length (xs ++ (x ∷ [])) ≡ suc (length xs)
length-append [] x = refl
length-append (y ∷ xs) x = ap suc (length-append xs x)

recorded-outcomes :
    (res : PublishCrlsResult) (r : Result (Option Crl × Bool))
    → outcomes (recorded res r) ≡ suc (outcomes res)
unfolding outcomes recorded fail_one skip_one add_crl
recorded-outcomes res (err e) = omega arith
recorded-outcomes res (ok (crl, true)) = omega (arith, length-append res.crls crl)
recorded-outcomes res (ok (crl, false)) = omega arith

-- a CRL that ends after it starts
abbrev pub Valid : Option Crl → Type 0
Valid o = (c : Crl) × (o ≡ some c) × (c.this_update < c.next_update)

All-append :
    (P : Option Crl → Type 0) (xs : List (Option Crl)) (x : Option Crl)
    → All P xs
    → P x
    → All P (xs ++ (x ∷ []))
All-append P [] x h k = (k, tt)
All-append P (y ∷ xs) x h k = (h.0, All-append P xs x h.1 k)

recorded-Valid :
    (res : PublishCrlsResult) (r : Result (Option Crl × Bool))
    → All Valid res.crls
    → ((o : Option Crl) → r ≡ ok (o, true) → Valid o)
    → All Valid (recorded res r).crls
unfolding recorded fail_one skip_one add_crl
recorded-Valid res (err e) h k = h
recorded-Valid res (ok (crl, true)) h k = All-append Valid res.crls crl h (k crl refl)
recorded-Valid res (ok (crl, false)) h k = h

module _ (p : Publisher) (others : Issuer → ℕ → Store → Store) (force : Bool)
    (clock : Issuer → ℕ × ℕ) where
  publish_one-outcomes :
      (row : Issuer) (current : Option Crl) (res : PublishCrlsResult) (s : Store)
      → outcomes (publish_one p others force clock row current res s).0 ≡ suc (outcomes res)
  unfolding publish_one outcomes skip_one
  publish_one-outcomes row current res s = elim (Bool-cases (issuer_expired row (clock row).0)) [
    | inl e ↦ rw e (omega arith)
    | inr e ↦
        rw e (recorded-outcomes res (publish p (others row) force (clock row).1 row current s).0)
  ]

  publish-Valid :
      (row : Issuer) (current : Option Crl) (s : Store) (o : Option Crl)
      → (publish p (others row) force (clock row).1 row current s).0 ≡ ok (o, true)
      → Valid o
  publish-Valid row current s o h =
      let (issuer, c, _, is, _, _, (this, next, _, _)) =
        publish-published p (others row) force (clock row).1 row current s
          (publish p (others row) force (clock row).1 row current s).1 o
          (ap (λ r. (r, (publish p (others row) force (clock row).1 row current s).1)) h) in
      (c, is, subst (λ n. n < c.next_update) (sym this) next)

  publish_one-Valid :
      (row : Issuer) (current : Option Crl) (res : PublishCrlsResult) (s : Store)
      → All Valid res.crls
      → All Valid (publish_one p others force clock row current res s).0.crls
  unfolding publish_one skip_one
  publish_one-Valid row current res s h = elim (Bool-cases (issuer_expired row (clock row).0)) [
    | inl e ↦ rw e h
    | inr e ↦ rw e (
        recorded-Valid res (publish p (others row) force (clock row).1 row current s).0 h
          (λ o. publish-Valid row current s o))
  ]

  publish_rows-outcomes :
      (crls : List Crl) (rows : List Issuer) (res : PublishCrlsResult) (s : Store)
      → outcomes (publish_rows p others force clock crls rows res s).0 ≡ outcomes res + length rows
  unfolding publish_rows
  publish_rows-outcomes crls [] res s = omega arith
  publish_rows-outcomes crls (row ∷ rows) res s =
      let step = publish_one p others force clock row (current_of row.skid crls) res s in
      let rest = publish_rows-outcomes crls rows step.0 step.1 in
      omega (arith, rest, publish_one-outcomes row (current_of row.skid crls) res s)

  publish_rows-Valid :
      (crls : List Crl) (rows : List Issuer) (res : PublishCrlsResult) (s : Store)
      → All Valid res.crls
      → All Valid (publish_rows p others force clock crls rows res s).0.crls
  unfolding publish_rows
  publish_rows-Valid crls [] res s h = h
  publish_rows-Valid crls (row ∷ rows) res s h =
      let step = publish_one p others force clock row (current_of row.skid crls) res s in
      publish_rows-Valid crls rows step.0 step.1
        (publish_one-Valid row (current_of row.skid crls) res s h)

  -- A page of a run counts each of its issuers once: as a published CRL, as skipped or as failed,
  -- whatever other publishers do and whichever of them fail. Where the CRLs that the run published
  -- before end after they start, so do those that it has published after the page.
  pub publish_page-outcomes :
      (rows : List Issuer) (res after : PublishCrlsResult) (s t : Store)
      → publish_page p others force clock rows res s ≡ ok (after, t)
      → All Valid res.crls
      → (outcomes after ≡ outcomes res + length rows) × All Valid after.crls
  unfolding publish_page
  publish_page-outcomes rows res after s t h v =
      let (crls, _, done) =
        (bind_iff (current_crls p rows s)
            (λ crls. ok (publish_rows p others force clock crls rows res s)) (after, t)).0
          h in
      let is : (publish_rows p others force clock crls rows res s).0 ≡ after =
        ap (λ q. q.0) (ok-injective _ _ done) in
      (
        subst (λ r. outcomes r ≡ outcomes res + length rows) is
            (publish_rows-outcomes crls rows res s),
        subst (λ r. All Valid r.crls) is (publish_rows-Valid crls rows res s v),
      )
