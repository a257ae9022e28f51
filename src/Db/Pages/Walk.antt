-- ===== src/Db/Pages/Walk.antt =====
-- Reading a list a page at a time reads each of its rows once, in the order of the list.
use trustyca.Base.{
  ℕ, zero, suc, ◌≡◌, ◌≢◌, ◌<◌, ◌≤◌, refl, ap, ◌∙◌, sym, inl, inr, Bool, true, false, Bool-cases,
  Option-cases, none, some, List, [], ◌∷◌, ◌++◌, arith, length, All,
}
use trustyca.Base.Status.{Result, ok, err, ◌>>=◌}
use trustyca.Db.Cursor.{id_value, Cursor, Codec, key_id, set_page, new_cursor}
use trustyca.Db.Cursor.RoundTrip.{CodecLaws, parse_cursor-encode}
use mathlib.Core.Option.{none-ne-some}
use mathlib.Core.Path.{subst}
use trustyca.Db.Pages.{
  Page, take, drop, last, by_id_desc, below, page_by_id_desc, page_of, list_rows, next_cursor,
  collect, collect_next, convert_all,
}
use trustyca.Db.Pages.Order.{
  below-All, drop-Descending, Distinct, Descending, by_id_desc-All, by_id_desc-Descending,
  by_id_desc-length, below-last, below-below, last-All, take-All,
}

module _ {A : Type 0} where
  drop-All : (P : A → Type 0) (n : ℕ) (xs : List A) → All P xs → All P (drop n xs)
  drop-All P zero xs h = h
  drop-All P (suc n) [] h = h
  drop-All P (suc n) (x ∷ xs) h = drop-All P n xs h.1

  take-drop : (n : ℕ) (xs : List A) → take n xs ++ drop n xs ≡ xs
  take-drop zero xs = refl
  take-drop (suc n) [] = refl
  take-drop (suc n) (x ∷ xs) = ap (λ ys. x ∷ ys) (take-drop n xs)

  -- a page that is not full is all that is left
  take-short : (n : ℕ) (xs : List A) → length (take n xs) < n → take n xs ≡ xs
  take-short zero xs h = absurd (omega arith)
  take-short (suc n) [] h = refl
  take-short (suc n) (x ∷ xs) h = ap (λ ys. x ∷ ys) (take-short n xs (omega arith))

  length-drop : (n : ℕ) (xs : List A) → length (drop n xs) ≤ length xs
  length-drop zero xs = omega arith
  length-drop (suc n) [] = omega arith
  length-drop (suc n) (x ∷ xs) = omega (arith, length-drop n xs)

  drop-shorter :
      (n : ℕ) (xs : List A) (r : A) → last (take n xs) ≡ some r → length (drop n xs) < length xs
  drop-shorter zero xs r h = absurd (none-ne-some _ h)
  drop-shorter (suc n) [] r h = absurd (none-ne-some _ h)
  drop-shorter (suc n) (x ∷ xs) r h = omega (arith, length-drop n xs)

  -- rows without a last one are none
  last-none : (xs : List A) → last xs ≡ none → length xs ≡ 0
  last-none [] h = refl
  last-none (x ∷ []) h = absurd (none-ne-some _ (sym h))
  last-none (x ∷ y ∷ xs) h = absurd (omega (arith, last-none (y ∷ xs) h))

module _ {B : Type 0} where
  bind-ok : (r : Result (List B)) → (r >>= λ bs. ok bs) ≡ r
  bind-ok (ok bs) = refl
  bind-ok (err e) = refl

  bind-append :
      (b : B) (r s : Result (List B))
      → ((r >>= λ bs. s >>= λ cs. ok (bs ++ cs)) >>= λ ds. ok (b ∷ ds))
        ≡ ((r >>= λ bs. ok (b ∷ bs)) >>= λ bs. s >>= λ cs. ok (bs ++ cs))
  bind-append b (ok bs) (ok cs) = refl
  bind-append b (ok bs) (err e) = refl
  bind-append b (err e) s = refl

module _ {A B : Type 0} where
  convert_all-append :
      (f : A → Result B) (xs ys : List A)
      → convert_all f (xs ++ ys)
        ≡ (convert_all f xs >>= λ bs. convert_all f ys >>= λ cs. ok (bs ++ cs))
  convert_all-append f [] ys = sym (bind-ok (convert_all f ys))
  convert_all-append f (x ∷ xs) ys = first (f x) (convert_all-append f xs ys)
    where
      first :
          (r : Result B)
          → convert_all f (xs ++ ys)
            ≡ (convert_all f xs >>= λ bs. convert_all f ys >>= λ cs. ok (bs ++ cs))
          → (r >>= λ b. convert_all f (xs ++ ys) >>= λ bs. ok (b ∷ bs)) ≡ (
              (r >>= λ b. convert_all f xs >>= λ bs. ok (b ∷ bs)) >>= λ bs.
              convert_all f ys >>= λ cs. ok (bs ++ cs))
      first (ok b) later = rw later (bind-append b (convert_all f xs) (convert_all f ys))
      first (err e) later = refl

-- What the loops rely on of xdb: a page that has no next one is not full, and a page without rows
-- has no next one.
pub record PagingLaws (has_next : ℕ → ℕ → Bool) : Type 0 where
  pub full : (limit n : ℕ) → 0 < limit → has_next limit n ≡ false → n < limit
  pub empty : (limit : ℕ) → has_next limit 0 ≡ false

differ : false ≡ true → ⊥
differ e = cc

module _ {A B : Type 0} (id : A → ℕ) (codec : Codec) (laws : CodecLaws codec)
    (has_next : ℕ → ℕ → Bool) (paging : PagingLaws has_next) (f : A → Result B) (limit : ℕ)
    (positive : 0 < limit) (rows : List A) (list : Cursor → Result (Page A))
    (lists : (k : ℕ)
      → list (new_cursor k) ≡ ok (list_rows id codec has_next limit (new_cursor k) rows)) where
  key_cursor-new_cursor :
      (k : ℕ)
      → k ≢ 0
      → new_cursor k ≡ record { set = true; kind = key_id; key = some (id_value k ∷ []) }
  unfolding new_cursor
  key_cursor-new_cursor k h = ground arith

  abbrev read : ℕ → Cursor → Result (List B)
  read = collect codec (convert_all f) list

  abbrev after : ℕ → List A → Result (List B)
  after fuel page = convert_all f page >>= λ found.
      collect_next codec (read fuel) found (has_next limit (length page))
        (next_cursor id codec (has_next limit (length page)) (last page))

  after-last :
      (fuel : ℕ) (rest : List A)
      → has_next limit (length (take limit rest)) ≡ false
      → after fuel (take limit rest) ≡ convert_all f rest
  after-last fuel rest e = rw e (
      bind-ok (convert_all f (take limit rest))
      ∙ ap (convert_all f) (take-short limit rest (paging.full limit _ positive e)))

  after-next :
      (fuel : ℕ) (page rest : List A) (r : A)
      → has_next limit (length page) ≡ true
      → last page ≡ some r
      → id r ≢ 0
      → read fuel (new_cursor (id r)) ≡ convert_all f rest
      → after fuel page ≡ convert_all f (page ++ rest)
  after-next fuel page rest r e h nz later =
      rw (e, h, parse_cursor-encode codec laws (id r) nz, ← key_cursor-new_cursor (id r) nz, later)
        (sym (convert_all-append f page rest))

  -- where a page ends, the rows below its last row are those of the rest
  Tail : List A → Type 0
  Tail rest =
      (r : A)
      → last (take limit rest) ≡ some r
      → below id (id r) (by_id_desc id rows) ≡ below id (id r) rest

  read-page :
      (fuel k : ℕ) (page : List A)
      → page_by_id_desc id (set_page limit 0 (new_cursor k)) rows ≡ page
      → read (suc fuel) (new_cursor k) ≡ after fuel page
  unfolding collect list_rows page_of
  read-page fuel k page s = rw (lists k, s)

  -- the rows below the last row of a page are those of the rest
  Tail-below :
      (rest : List A) (r : A)
      → Tail rest
      → Descending id rest
      → last (take limit rest) ≡ some r
      → below id (id r) (by_id_desc id rows) ≡ drop limit rest
  unfolding Tail
  Tail-below rest r h d g = h r g ∙ below-last id limit rest r d g

  next-page :
      (rest : List A) (r : A)
      → id r ≢ 0
      → below id (id r) (by_id_desc id rows) ≡ rest
      → page_by_id_desc id (set_page limit 0 (new_cursor (id r))) rows ≡ take limit rest
  unfolding page_by_id_desc set_page
  next-page rest r nz e = rw (key_cursor-new_cursor (id r) nz) (ap (take limit) e)

  next-Tail : (rest : List A) (r : A) → below id (id r) (by_id_desc id rows) ≡ rest → Tail rest
  unfolding Tail
  next-Tail rest r e q g =
      let smaller =
        last-All (λ a. id a < id r) (take limit rest) q
          (take-All (λ a. id a < id r) limit rest
            (subst (All (λ a. id a < id r)) e (below-All id (id r) (by_id_desc id rows))))
          g in
      sym (below-below id (id q) (id r) (by_id_desc id rows) (omega (arith, smaller)))
      ∙ ap (below id (id q)) e

  collect-rest :
      (fuel k : ℕ) (rest : List A)
      → page_by_id_desc id (set_page limit 0 (new_cursor k)) rows ≡ take limit rest
      → Tail rest
      → Descending id rest
      → All (λ a. id a ≢ 0) rest
      → length rest < fuel
      → read fuel (new_cursor k) ≡ convert_all f rest
  collect-rest zero k rest s h d nz enough = absurd (omega arith)
  collect-rest (suc fuel) k rest s h d nz enough =
      read-page fuel k (take limit rest) s
      ∙ elim (Bool-cases (has_next limit (length (take limit rest)))) [
        | inl e ↦ elim (Option-cases (last (take limit rest))) [
          | inl none_left ↦ absurd (
              differ (
                sym (paging.empty limit)
                ∙ subst (λ n. has_next limit n ≡ true) (last-none _ none_left) e))
          | inr found ↦
              let (r, g) = found in
              let later = Tail-below rest r h d g in
              let nonzero =
                last-All (λ a. id a ≢ 0) (take limit rest) r
                  (take-All (λ a. id a ≢ 0) limit rest nz) g in
              after-next fuel (take limit rest) (drop limit rest) r e g nonzero (
                collect-rest fuel (id r) (drop limit rest)
                  (next-page (drop limit rest) r nonzero later)
                  (next-Tail (drop limit rest) r later) (drop-Descending id limit rest d)
                  (drop-All (λ a. id a ≢ 0) limit rest nz)
                  (omega (arith, drop-shorter limit rest r g)))
              ∙ ap (convert_all f) (take-drop limit rest)
        ]
        | inr e ↦ after-last fuel rest e
      ]

  -- Where the ids of the rows differ and none is 0, the loop that reads the list by pages from the
  -- first one ends, on as much fuel as there are rows and one more, and gives the rows converted
  -- one after another, the greatest id first, or the failure of the first row that does not
  -- convert: no row is left out or read twice, at whatever size the pages are.
  pub collect-rows :
      (fuel : ℕ)
      → Distinct id rows
      → All (λ a. id a ≢ 0) rows
      → length rows < fuel
      → collect codec (convert_all f) list fuel (new_cursor 0) ≡ convert_all f (by_id_desc id rows)
  unfolding new_cursor page_by_id_desc set_page Tail
  collect-rows fuel d nz enough =
      collect-rest fuel 0 (by_id_desc id rows) refl (λ r g. refl) (by_id_desc-Descending id rows d)
        (by_id_desc-All id (λ a. id a ≢ 0) rows nz) (rw (by_id_desc-length id rows) enough)
