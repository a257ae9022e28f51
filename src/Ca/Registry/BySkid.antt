-- ===== src/Ca/Registry/BySkid.antt =====
-- internal/ca/registry.go: the issuer that a revocation status names, from coherent caches.
use mathlib.Core.Path.{subst}
use text.Mathlib.Text.{◌==◌ as str_eq}
use text.Mathlib.TextEquality.{eq_iff}
use trustyca.Base.{
  ℕ, ◌≡◌, inl, inr, refl, sym, ap, ◌∙◌, String, Bool, true, false, not, ◌&&◌, Option, none, some,
  ◌==◌, Bool-cases, Any, Any-map, Any-fact, find?, find?-Any,
}
use trustyca.Base.Status.{Result, ok, err, wrapped, ◌>>=◌}
use trustyca.Db.Tables.{found, no_error}
use trustyca.Ca.Rows.{Issuer, issuer_status_number}
use trustyca.Ca.Store.{Store}
use trustyca.Ca.Issuers.{get_issuer_by_skid}
use trustyca.Ca.Registry.{IssuerEntry, Authority, State, Act, is_missing}
use trustyca.Ca.Registry.Coherent.{Gives, gives, fails, chain-Gives, CacheLaws, Coherent}
use trustyca.Ca.Registry.Entries.{entry-Gives}
use trustyca.Ca.Registry.Build.{entry}
use trustyca.Ca.Registry.Resolve.{skid_row, in_memory, issuer_by_skid}
use trustyca.Ca.Registry.Signs.{DistinctIds}
use trustyca.Ca.Registry.Changes.{found-some}

module _ (s : Store) (skid : String) where
  -- a row of the table with the key identifier
  abbrev pub HasSkid : Issuer → Type 0
  HasSkid row = Any (λ i. i ≡ row) s.issuers × (row.skid ≡ skid)

  row_by_skid :
      (down : Bool) (row : Issuer)
      → (no_error down >>= λ _. found (find? (λ i. str_eq i.skid skid) s.issuers)) ≡ ok row
      → HasSkid row
  row_by_skid true row e = absurd (refused e)
    where
      refused : ◌≡◌ {A = Result Issuer} (err (wrapped "failed")) (ok row) → ⊥
      refused k = cc
  row_by_skid false row e =
      let named = find?-Any (λ i. str_eq i.skid skid) s.issuers row (found-some _ row e) in
      (
        Any-map _ _ (λ i h. h.0) s.issuers named,
        Any-fact _ s.issuers (
            Any-map _ _ (λ i h. sym (ap (λ q. q.skid) h.0) ∙ (eq_iff i.skid skid).0 h.1) s.issuers
              named),
      )

module _ {C D E A P S : Type 0} (a : Authority C D E A P S) (laws : CacheLaws a) (s : Store)
    (distinct : DistinctIds s) (meanwhile : State a → State a)
    (kept : (r : State a) → Coherent a s r → Coherent a s (meanwhile r)) (skid : String) where
  skid_row-Gives :
      (o : Result Issuer) (r : State a)
      → ((row : Issuer) → o ≡ ok row → HasSkid s skid row)
      → Coherent a s r
      → Gives (Coherent a s) (λ found. HasSkid s skid found.1) (skid_row a s meanwhile o r)
  skid_row-Gives (err e) r has h = elim (Bool-cases (is_missing e)) [
    | inl m ↦ rw m (fails (Coherent a s) _ _ r h)
    | inr m ↦ rw m (fails (Coherent a s) _ _ r h)
  ]
  skid_row-Gives (ok row) r has h =
      elim (Bool-cases (
        not (issuer_status_number row.status == 2) && not (issuer_status_number row.status == 3))) [
          | inl off ↦ rw off (fails (Coherent a s) _ _ r h)
          | inr on ↦
              let (mem, named) = has row refl in
              rw on (
                chain-Gives (Coherent a s) _ _ (entry a s meanwhile row r) _
                  (entry-Gives a laws s meanwhile kept row r mem h)
                  (λ e q now k.
                    gives (Coherent a s) (λ found. HasSkid s skid found.1) (e.issuer, e.row) q k
                      (subst (HasSkid s skid) (sym (distinct e.row row now.1 mem now.0))
                        (mem, named))))
        ]

  in_memory-Gives :
      (o : Option IssuerEntry) (other : Act a (ℕ × Issuer)) (r : State a)
      → ((e : IssuerEntry) → o ≡ some e → HasSkid s skid e.row)
      → Gives (Coherent a s) (λ found. HasSkid s skid found.1) (other r)
      → Coherent a s r
      → Gives (Coherent a s) (λ found. HasSkid s skid found.1) (in_memory a s meanwhile o other r)
  in_memory-Gives (some e) other r has g h =
      gives (Coherent a s) (λ found. HasSkid s skid found.1) (e.issuer, e.row) r h (has e refl)
  in_memory-Gives none other r has g h = g

  -- Whatever other callers do to the registry that keeps its caches coherent with the rows, whose
  -- IDs are distinct, the issuer that IssuerBySKID gives is of a row of the table as it is now, with
  -- that key identifier, and the caches stay coherent whatever it answers.
  pub issuer_by_skid-HasSkid :
      (r : State a)
      → Coherent a s r
      → Coherent a s (issuer_by_skid a s meanwhile skid r).1
        × ((found : ℕ × Issuer)
            → (issuer_by_skid a s meanwhile skid r).0 ≡ ok found
            → HasSkid s skid found.1)
  unfolding issuer_by_skid get_issuer_by_skid
  issuer_by_skid-HasSkid r h =
      in_memory-Gives _ _ r
        (λ e g.
          let named = find?-Any (λ d. str_eq d.row.skid skid) (a.entries.values r.issuers) e g in
          let (id, was) =
            laws.0.get-values r.issuers e
              (Any-map _ _ (λ d k. k.0) (a.entries.values r.issuers) named) in
          let now = h.0 id e was in
          let mem = now.1 in
          (
            mem,
            Any-fact _ (a.entries.values r.issuers) (
                Any-map _ _ (λ d k. sym (ap (λ q. q.row.skid) k.0) ∙ (eq_iff d.row.skid skid).0 k.1)
                  (a.entries.values r.issuers) named),
          ))
        (skid_row-Gives _ r (λ row e. row_by_skid s skid (a.down "GetIssuerBySKID") row e) h) h
