-- ===== src/Ca/Crl/Entries.antt =====
-- A CRL lists the revocations of its issuer whose certificates have not expired, and no others.
use mathlib.Core.Path.{subst}
use text.Mathlib.Text.{◌==◌ as str_eq}
use text.Mathlib.TextEquality.{eq_iff}
use trustyca.Base.{
  ltb, ℕ, suc, ◌≡◌, ◌≢◌, ◌<◌, refl, sym, ◌∙◌, ap, String, Bool, true, false, ◌&&◌, List, [], ◌∷◌,
  ◌==◌, filter, length, All, Any, All-map, All-filter, length-filter, kept-Any, Any-filter, Any-map,
  Bool-cases, inl, inr, arith,
}
use trustyca.Base.Status.{Result, ok, ◌>>=◌, bind_iff, ok-injective}
use trustyca.Db.Scopes.{
  set_org_scope, where_org_scope, set_project_scope, where_project_scope, check_list_scope,
}
use trustyca.Db.Cursor.{new_cursor, check_key, kind_eq, key_id}
use trustyca.Db.Cursor.RoundTrip.{CodecLaws}
use trustyca.Db.Pages.{list_rows, convert_all, by_id_desc}
use trustyca.Db.Pages.Order.{Distinct, by_id_desc-Any}
use trustyca.Db.Pages.Walk.{PagingLaws, collect-rows}
use trustyca.Ca.Rows.{Revoked}
use trustyca.Ca.Store.{Store}
use trustyca.Ca.Revocations.{lists_revoked, list_revoked}
use trustyca.Ca.Crl.{Publisher, Entry, revocations_of, entry_of, crl_entries, crl_page_size}

-- a revocation that belongs in a CRL of the key identifier at the time
unfoldable pub is_listed : String → ℕ → Revoked → Bool
is_listed ikid now m = str_eq m.ikid ikid && ltb now m.not_after

module _ {A : Type 0} (id : A → ℕ) where
  pub Distinct-filter :
      (p : A → Bool) (rows : List A) → Distinct id rows → Distinct id (filter p rows)
  Distinct-filter p [] d = tt
  Distinct-filter p (a ∷ rows) d = elim (Bool-cases (p a)) [
    | inl in_it ↦ rw in_it (All-filter _ p rows d.0, Distinct-filter p rows d.1)
    | inr out ↦ rw out (Distinct-filter p rows d.1)
  ]

module _ {A : Type 0} where
  filter-same :
      (p q : A → Bool) → ((a : A) → p a ≡ q a) → (rows : List A) → filter p rows ≡ filter q rows
  filter-same p q h [] = refl
  filter-same p q h (a ∷ rows) = rw (h a, filter-same p q h rows)

module _ {A B : Type 0} (f : A → Result B) where
  converted :
      (a : A) (rows : List A) (bs : List B)
      → convert_all f (a ∷ rows) ≡ ok bs
      → (b : B) × (cs : List B) × (f a ≡ ok b) × (convert_all f rows ≡ ok cs) × (b ∷ cs ≡ bs)
  converted a rows bs h =
      let (b, is, rest) = (bind_iff (f a) (λ b. convert_all f rows >>= λ cs. ok (b ∷ cs)) bs).0 h in
      let (cs, later, e) = (bind_iff (convert_all f rows) (λ cs. ok (b ∷ cs)) bs).0 rest in
      (b, cs, is, later, ok-injective (b ∷ cs) bs e)

  -- an element with the property is converted into one of the results
  pub convert_all-Any :
      (P : A → Type 0) (rows : List A) (bs : List B)
      → convert_all f rows ≡ ok bs
      → Any P rows
      → Any (λ b. (a : A) × P a × (f a ≡ ok b)) bs
  convert_all-Any P [] bs h member = absurd member
  convert_all-Any P (a ∷ rows) bs h member =
      let (b, cs, is, later, e) = converted a rows bs h in
      subst (Any (λ b. (a : A) × P a × (f a ≡ ok b))) e (elim member [
        | inl here ↦ inl (a, here, is)
        | inr after ↦ inr (convert_all-Any P rows cs later after)
      ])

  -- and each of the results is that of an element
  pub convert_all-from :
      (rows : List A) (bs : List B)
      → convert_all f rows ≡ ok bs
      → All (λ b. Any (λ a. f a ≡ ok b) rows) bs
  convert_all-from [] bs h = subst (All _) (ok-injective [] bs h) tt
  convert_all-from (a ∷ rows) bs h =
      let (b, cs, is, later, e) = converted a rows bs h in
      subst (All (λ b. Any (λ a. f a ≡ ok b) (a ∷ rows))) e
        (inl is, All-map _ _ (λ c k. inr k) cs (convert_all-from rows cs later))

lists_revoked-listed :
    (ikid : String) (now k : ℕ) (m : Revoked)
    → ikid ≢ ""
    → lists_revoked (revocations_of ikid now (new_cursor k)) m ≡ is_listed ikid now m
unfolding lists_revoked revocations_of is_listed set_org_scope where_org_scope set_project_scope
    where_project_scope
lists_revoked-listed ikid now k m h = elim (Bool-cases (str_eq ikid "")) [
  | inl e ↦ absurd (h ((eq_iff ikid "").0 e))
  | inr e ↦ rw e
]

check_key-new_cursor : (k : ℕ) → check_key key_id (new_cursor k) ≡ ok tt
unfolding check_key kind_eq new_cursor
check_key-new_cursor k = elim (Bool-cases (k == 0)) [ inl e ↦ rw e | inr e ↦ rw e ]

module _ (p : Publisher) (ikid : String) (now : ℕ) (s : Store) where
  list_revoked-rows :
      (k : ℕ)
      → p.down "ListRevoked" ≡ false
      → ikid ≢ ""
      → list_revoked p.down p.codec p.has_next (revocations_of ikid now (new_cursor k)) s
        ≡ ok (
            list_rows
              (λ m. m.id)
              p.codec
              p.has_next
              crl_page_size
              (new_cursor k)
              (filter (is_listed ikid now) s.revoked))
  unfolding list_revoked revocations_of check_list_scope
  list_revoked-rows k up named =
      rw (check_key-new_cursor k, up)
        (ap
          (λ rows. ok (list_rows (λ m. m.id) p.codec p.has_next crl_page_size (new_cursor k) rows))
          (filter-same (lists_revoked (revocations_of ikid now (new_cursor k))) (is_listed ikid now)
            (λ m. lists_revoked-listed ikid now k m named) s.revoked))

  -- With the statement up and rows whose ids differ and are not 0, reading the revocations of a
  -- key identifier for a CRL ends, however the pages fall, and gives the entries of the revocations of that key
  -- identifier whose certificates expire after the time, the newest first, or the failure of the
  -- first whose serial number is no number.
  pub crl_entries-All :
      (laws : CodecLaws p.codec) (paging : PagingLaws p.has_next)
      → p.down "ListRevoked" ≡ false
      → ikid ≢ ""
      → Distinct (λ m. m.id) s.revoked
      → All (λ m. m.id ≢ 0) s.revoked
      → crl_entries p ikid now s
        ≡ convert_all (entry_of p) (by_id_desc (λ m. m.id) (filter (is_listed ikid now) s.revoked))
  unfolding crl_entries
  crl_entries-All laws paging up named d nz =
      collect-rows (λ m. m.id) p.codec laws p.has_next paging (entry_of p) crl_page_size
        (omega arith) (filter (is_listed ikid now) s.revoked)
        (λ cursor. list_revoked p.down p.codec p.has_next (revocations_of ikid now cursor) s)
        (λ k. list_revoked-rows k up named) (suc (length s.revoked))
        (Distinct-filter (λ m. m.id) (is_listed ikid now) s.revoked d)
        (All-filter (λ m. m.id ≢ 0) (is_listed ikid now) s.revoked nz)
        (omega (arith, length-filter (is_listed ikid now) s.revoked))

  -- With the statement up and rows whose ids differ and are not 0, in the entries that are read for
  -- a CRL of a key identifier: each revocation of the key identifier whose certificate expires
  -- after the time has an entry, with its serial number, time and reason, and each entry is that of
  -- such a revocation.
  pub crl_entries-listed :
      (laws : CodecLaws p.codec) (paging : PagingLaws p.has_next) (entries : List Entry)
      → p.down "ListRevoked" ≡ false
      → ikid ≢ ""
      → Distinct (λ m. m.id) s.revoked
      → All (λ m. m.id ≢ 0) s.revoked
      → crl_entries p ikid now s ≡ ok entries
      → ((m : Revoked)
          → Any (λ x. x ≡ m) s.revoked
          → m.ikid ≡ ikid
          → now < m.not_after
          → Any (λ e. entry_of p m ≡ ok e) entries)
        × All
            (λ e.
              Any (λ m. (m.ikid ≡ ikid) × (now < m.not_after) × (entry_of p m ≡ ok e)) s.revoked)
            entries
  unfolding is_listed
  crl_entries-listed laws paging entries up named d nz h =
      let all = sym (crl_entries-All laws paging up named d nz) ∙ h in
      (
        λ m member key valid.
            let listed : is_listed ikid now m ≡ true = ground (arith, (eq_iff m.ikid ikid).1 key) in
            Any-map _ (λ e. entry_of p m ≡ ok e)
              (λ e found. subst (λ z. entry_of p z ≡ ok e) found.1 found.2) entries
              (convert_all-Any (entry_of p) (λ x. x ≡ m) _ entries all
                ((by_id_desc-Any (λ m. m.id) (λ x. x ≡ m) _).1 (
                  kept-Any (λ x. x ≡ m) (is_listed ikid now)
                    (λ x e. subst (λ z. is_listed ikid now z ≡ true) (sym e) listed) s.revoked
                    member))),
        All-map _ _
            (λ e found.
              Any-map _ (λ m. (m.ikid ≡ ikid) × (now < m.not_after) × (entry_of p m ≡ ok e))
                (λ m k. ((eq_iff m.ikid ikid).0 (ground arith), ground arith, k.0)) s.revoked
                (Any-filter (λ m. entry_of p m ≡ ok e) (is_listed ikid now) s.revoked
                  ((by_id_desc-Any (λ m. m.id) (λ m. entry_of p m ≡ ok e) _).0 found)))
            entries (convert_all-from (entry_of p) _ entries all),
      )
