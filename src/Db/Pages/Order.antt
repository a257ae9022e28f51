-- ===== src/Db/Pages/Order.antt =====
-- The rows of a page after the last row of the previous one.
use trustyca.Base.{
  ◌∙◌, ltb, ℕ, zero, suc, ◌≡◌, ◌≢◌, ◌<◌, ◌≤◌, refl, ◌⊎◌, ◌↔◌, inl, inr, true, false, Bool-cases,
  some, List, [], ◌∷◌, arith, length, All, Any, All-map,
}
use mathlib.Core.Option.{some-injective, none-ne-some}
use mathlib.Core.Path.{subst}
use trustyca.Db.Pages.{take, drop, last, insert, by_id_desc, below}

module _ {A : Type 0} where
  pub take-All : (P : A → Type 0) (n : ℕ) (rows : List A) → All P rows → All P (take n rows)
  take-All P zero rows h = tt
  take-All P (suc n) [] h = tt
  take-All P (suc n) (a ∷ rows) h = (h.0, take-All P n rows h.1)

  pub last-All : (P : A → Type 0) (rows : List A) (r : A) → All P rows → last rows ≡ some r → P r
  last-All P [] r h e = absurd (none-ne-some _ e)
  last-All P (a ∷ []) r h e = subst P (some-injective _ _ e) h.0
  last-All P (a ∷ b ∷ rows) r h e = last-All P (b ∷ rows) r h.1 e

module _ {A : Type 0} (id : A → ℕ) where
  -- the ids of the rows differ, as those of a primary key do
  abbrev pub Distinct : List A → Type 0
  Distinct [] = Unit
  Distinct (a ∷ rows) = All (λ b. id b ≢ id a) rows × Distinct rows

  abbrev pub Descending : List A → Type 0
  Descending [] = Unit
  Descending (a ∷ rows) = All (λ b. id b < id a) rows × Descending rows

  insert-All :
      (P : A → Type 0) (a : A) (rows : List A) → P a → All P rows → All P (insert id a rows)
  insert-All P a [] p h = (p, tt)
  insert-All P a (b ∷ rows) p h = elim (Bool-cases (ltb (id a) (id b))) [
    | inl e ↦ rw e (h.0, insert-All P a rows p h.1)
    | inr e ↦ rw e (p, h)
  ]

  pub by_id_desc-All : (P : A → Type 0) (rows : List A) → All P rows → All P (by_id_desc id rows)
  by_id_desc-All P [] h = tt
  by_id_desc-All P (a ∷ rows) h =
      insert-All P a (by_id_desc id rows) h.0 (by_id_desc-All P rows h.1)

  insert-Descending :
      (a : A) (rows : List A)
      → All (λ b. id b ≢ id a) rows
      → Descending rows
      → Descending (insert id a rows)
  insert-Descending a [] h d = (tt, tt)
  insert-Descending a (b ∷ rows) h d = elim (Bool-cases (ltb (id a) (id b))) [
    | inl e ↦
        rw e (
          insert-All (λ c. id c < id b) a rows (ground arith) d.0,
          insert-Descending a rows h.1 d.1,
        )
    | inr e ↦
        let first : id b < id a = ground (arith, h.0) in
        let later = All-map (λ c. id c < id b) (λ c. id c < id a) (λ c k. omega arith) rows d.0 in
        rw e ((first, later), d)
  ]

  pub by_id_desc-Descending : (rows : List A) → Distinct rows → Descending (by_id_desc id rows)
  by_id_desc-Descending [] h = tt
  by_id_desc-Descending (a ∷ rows) h =
      insert-Descending a (by_id_desc id rows) (by_id_desc-All (λ b. id b ≢ id a) rows h.0)
        (by_id_desc-Descending rows h.1)

  insert-length : (a : A) (rows : List A) → length (insert id a rows) ≡ suc (length rows)
  insert-length a [] = refl
  insert-length a (b ∷ rows) = ground (arith, insert-length a rows)

  pub by_id_desc-length : (rows : List A) → length (by_id_desc id rows) ≡ length rows
  by_id_desc-length [] = refl
  by_id_desc-length (a ∷ rows) =
      ground (arith, insert-length a (by_id_desc id rows), by_id_desc-length rows)

  insert-Any :
      (P : A → Type 0) (a : A) (rows : List A) → Any P (insert id a rows) ↔ (P a ⊎ Any P rows)
  insert-Any P a [] = (λ h. h, λ h. h)
  insert-Any P a (b ∷ rows) = elim (Bool-cases (ltb (id a) (id b))) [
    | inl e ↦ rw e (
      λ h. elim h [
        | inl p ↦ inr (inl p)
        | inr k ↦ elim ((insert-Any P a rows).0 k) [ inl p ↦ inl p | inr q ↦ inr (inr q) ]
      ],
      λ h. elim h [
        | inl p ↦ inr ((insert-Any P a rows).1 (inl p))
        | inr k ↦ elim k [ inl p ↦ inl p | inr q ↦ inr ((insert-Any P a rows).1 (inr q)) ]
      ],
    )
    | inr e ↦ rw e (λ h. h, λ h. h)
  ]

  pub by_id_desc-Any : (P : A → Type 0) (rows : List A) → Any P (by_id_desc id rows) ↔ Any P rows
  by_id_desc-Any P [] = (λ h. h, λ h. h)
  by_id_desc-Any P (a ∷ rows) =
      let (to, from) = insert-Any P a (by_id_desc id rows) in
      let (down, up) = by_id_desc-Any P rows in
      (
        λ h. elim (to h) [ inl p ↦ inl p | inr q ↦ inr (down q) ],
        λ h. from (elim h [ inl p ↦ inl p | inr q ↦ inr (up q) ]),
      )

  -- rows that are all below the key stay
  below-kept : (k : ℕ) (rows : List A) → All (λ a. id a < k) rows → below id k rows ≡ rows
  below-kept k [] h = refl
  below-kept k (a ∷ rows) h =
      let kept : ltb (id a) k ≡ true = ground (arith, h.0) in rw (kept, below-kept k rows h.1)

  pub below-All : (k : ℕ) (rows : List A) → All (λ a. id a < k) (below id k rows)
  below-All k [] = tt
  below-All k (a ∷ rows) = elim (Bool-cases (ltb (id a) k)) [
    | inl e ↦ rw e (ground arith, below-All k rows)
    | inr e ↦ rw e (below-All k rows)
  ]

  pub drop-Descending : (n : ℕ) (rows : List A) → Descending rows → Descending (drop n rows)
  drop-Descending zero rows d = d
  drop-Descending (suc n) [] d = d
  drop-Descending (suc n) (a ∷ rows) d = drop-Descending n rows d.1

  -- of rows below a key, those below a smaller key
  pub below-below :
      (j k : ℕ) (rows : List A) → j ≤ k → below id j (below id k rows) ≡ below id j rows
  below-below j k [] h = refl
  below-below j k (a ∷ rows) h = ground (arith, below-below j k rows h)

  below-head : (x : A) (xs : List A) → below id (id x) (x ∷ xs) ≡ below id (id x) xs
  below-head x xs = let not_below : ltb (id x) (id x) ≡ false = ground arith in rw not_below

  -- The rows below the last of a page are the rows after the page.
  pub below-last :
      (n : ℕ) (rows : List A) (r : A)
      → Descending rows
      → last (take n rows) ≡ some r
      → below id (id r) rows ≡ drop n rows
  below-last zero rows r d h = absurd (none-ne-some _ h)
  below-last (suc n) [] r d h = absurd (none-ne-some _ h)
  below-last (suc zero) (x ∷ xs) r d h =
      subst (λ q. below id (id q) (x ∷ xs) ≡ xs) (some-injective _ _ h)
        (below-head x xs ∙ below-kept (id x) xs d.0)
  below-last (suc (suc n)) (x ∷ []) r d h =
      subst (λ q. below id (id q) (x ∷ []) ≡ []) (some-injective _ _ h) (below-head x [])
  below-last (suc (suc n)) (x ∷ y ∷ ys) r d h =
      let smaller =
        last-All (λ b. id b < id x) (y ∷ take n ys) r
          (take-All (λ b. id b < id x) (suc n) (y ∷ ys) d.0) h in
      let skipped : ltb (id x) (id r) ≡ false = ground (arith, smaller) in
      rw (skipped, below-last (suc n) (y ∷ ys) r d.1 h)
