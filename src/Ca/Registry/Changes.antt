-- ===== src/Ca/Registry/Changes.antt =====
-- internal/ca/registry.go: a change of a row followed by the call that drops its entries. The caches
-- are coherent with the changed rows.
use mathlib.Core.Path.{subst}
use text.Mathlib.Text.{◌==◌ as str_eq}
use text.Mathlib.TextEquality.{eq_iff}
use trustyca.Base.{
  ℕ, ◌≡◌, ◌≢◌, inl, inr, refl, sym, ap, ◌∙◌, String, Bool, true, false, not, ◌&&◌, ◌||◌, Option,
  none, some, List, [], ◌∷◌, ◌==◌, if◌then◌else◌, Bool-cases, Any, All, Any-map, Any-fact, find?,
  find?-Any, map, arith, any,
}
use trustyca.Base.Status.{Result, Error, ok, err, ok-injective, bind_iff, after_check}
use trustyca.Db.Tables.{found, no_error}
use trustyca.Ca.Rows.{Issuer, issuer_status_number, issuer_active}
use trustyca.Ca.Store.{Store}
use trustyca.Ca.Issuers.{
  names_issuer, UpdateIssuerRequest, update_columns, activate_columns, is_updated, is_pending,
  update_row, update_issuer, activate_issuer, issuer_validate,
}
use trustyca.Ca.Registry.{Authority, State}
use trustyca.Ca.Registry.Labels.{SameElsewhere, invalidate_label-Fits}
use trustyca.Ca.Registry.Coherent.{CacheLaws, Coherent, issuer_rows}
use trustyca.Ca.Registry.Resolved.{names_issuer-Within}
use trustyca.Ca.Registry.Signs.{DistinctIds}
use trustyca.Ca.Registry.Lookup.{invalidate_issuer}

All-intro :
    {A : Type 0} (P : A → Type 0) (xs : List A) → ((x : A) → Any (λ y. y ≡ x) xs → P x) → All P xs
All-intro P [] f = tt
All-intro P (x ∷ xs) f = (f x (inl refl), All-intro P xs (λ y h. f y (inr h)))

-- a change that keeps the identity of a row
abbrev Keeps : (Issuer → Issuer) → Type 0
Keeps change =
    (i : Issuer)
    → ((change i).id ≡ i.id)
      × ((change i).org_id ≡ i.org_id)
      × ((change i).project_id ≡ i.project_id)
      × ((change i).label ≡ i.label)

pub unless :
    {A : Type 0} (b : Bool) (e : Error) (x : Result A) (y : A)
    → (if b then err e else x) ≡ ok y
    → x ≡ ok y
unless true e x y h = cc
unless false e x y h = h

update_columns-Keeps : (req : UpdateIssuerRequest) (now : ℕ) → Keeps (update_columns req now)
unfolding update_columns
update_columns-Keeps req now i = (refl, refl, refl, refl)

activate_columns-Keeps : (m : Issuer) (now : ℕ) → Keeps (activate_columns m now)
unfolding activate_columns
activate_columns-Keeps m now i = (refl, refl, refl, refl)

pub is_updated-id :
    (req : UpdateIssuerRequest) (i : Issuer) → is_updated req i ≡ true → i.id ≡ req.id
unfolding is_updated
is_updated-id req i e = ground arith

pub is_pending-id : (m i : Issuer) → is_pending m i ≡ true → i.id ≡ m.id
unfolding is_pending
is_pending-id m i e = ground arith

pub found-some : {A : Type 0} (o : Option A) (x : A) → found o ≡ ok x → o ≡ some x
found-some none x e = cc
found-some (some y) x e = ap some (ok-injective y x e)

module _ (selects : Issuer → Bool) (change : Issuer → Issuer) (keeps : Keeps change) where
  abbrev changed : Issuer → Issuer
  changed j = if selects j then change j else j

  changed-id : (j : Issuer) → (changed j).id ≡ j.id
  changed-id j = elim (Bool-cases (selects j)) [ inl e ↦ rw e (keeps j).0 | inr e ↦ rw e refl ]

  names-change :
      (o p : ℕ) (l : String) (i : Issuer) → names_issuer o p l (change i) ≡ names_issuer o p l i
  unfolding names_issuer
  names-change o p l i = let (_, org, project, label) = keeps i in rw (org, project, label) refl

  -- a label of another scope finds the same row
  find-changed :
      (o p : ℕ) (l : String) (row : Issuer) (xs : List Issuer)
      → names_issuer o p l row ≡ false
      → All (λ i. selects i ≡ true → i ≡ row) xs
      → find? (names_issuer o p l) xs ≡ find? (names_issuer o p l) (map changed xs)
  find-changed o p l row [] off h = refl
  find-changed o p l row (x ∷ xs) off h = elim (Bool-cases (selects x)) [
    | inl e ↦
        let same : names_issuer o p l x ≡ false = ap (names_issuer o p l) (h.0 e) ∙ off in
        rw (e, same, names-change o p l x ∙ same) (find-changed o p l row xs off h.1)
    | inr e ↦ rw e (elim (Bool-cases (names_issuer o p l x)) [
      | inl n ↦ rw n refl
      | inr n ↦ rw n (find-changed o p l row xs off h.1)
    ])
  ]

  -- a row that is not selected stays, and each row comes from a row with its ID
  kept-changed :
      (m : Issuer) (xs : List Issuer)
      → selects m ≡ false
      → Any (λ i. i ≡ m) xs
      → Any (λ i. i ≡ m) (map changed xs)
  kept-changed m (x ∷ xs) off (inl e) = inl (subst (λ y. changed y ≡ m) (sym e) (rw off refl))
  kept-changed m (x ∷ xs) off (inr h) = inr (kept-changed m xs off h)
  kept-changed m [] off h = absurd h

  from-changed :
      (m : Issuer) (xs : List Issuer)
      → Any (λ i. i ≡ m) (map changed xs)
      → (k : Issuer) × Any (λ i. i ≡ k) xs × (changed k ≡ m)
  from-changed m [] h = absurd h
  from-changed m (x ∷ xs) (inl e) = (x, inl refl, e)
  from-changed m (x ∷ xs) (inr h) = let (k, in_it, e) = from-changed m xs h in (k, inr in_it, e)

  changed-DistinctIds :
      (s : Store) → DistinctIds s → DistinctIds (record s { issuers = map changed s.issuers })
  changed-DistinctIds s distinct i j hi hj e =
      let (k, ki, ke) = from-changed i s.issuers hi in
      let (n, ni, ne) = from-changed j s.issuers hj in
      let ids : k.id ≡ n.id =
        sym (changed-id k) ∙ ap (λ q. q.id) ke ∙ e ∙ sym (ap (λ q. q.id) ne) ∙ changed-id n in
      sym ke ∙ ap changed (distinct k n ki ni ids) ∙ ne

  module _ {C D E A P S : Type 0} (a : Authority C D E A P S) (laws : CacheLaws a) (id : ℕ)
      (ids : (i : Issuer) → selects i ≡ true → i.id ≡ id) where
    selected-id :
        (s : Store) (row : Issuer)
        → Any (λ i. (i ≡ row) × (selects i ≡ true)) s.issuers
        → row.id ≡ id
    selected-id s row in_it =
        Any-fact _ s.issuers
          (Any-map _ _ (λ i k. sym (ap (λ q. q.id) k.0) ∙ ids i k.1) s.issuers in_it)

    -- a row under another ID is not the changed one
    unselected :
        (s : Store) (row m : Issuer) (n : ℕ)
        → Any (λ i. (i ≡ row) × (selects i ≡ true)) s.issuers
        → m.id ≡ n
        → (change row).id ≢ n
        → selects m ≡ false
    unselected s row m n in_it this away = elim (Bool-cases (selects m)) [
      | inr e ↦ e
      | inl e ↦ absurd (away ((keeps row).0 ∙ selected-id s row in_it ∙ sym (ids m e) ∙ this))
    ]

    -- the labels of another scope resolve as before
    changed-SameElsewhere :
        (s : Store) (row : Issuer)
        → DistinctIds s
        → Any (λ i. (i ≡ row) × (selects i ≡ true)) s.issuers
        → SameElsewhere
            (change row).org_id
            (change row).project_id
            (change row).label
            (issuer_rows s)
            (issuer_rows (record s { issuers = map changed s.issuers }))
    changed-SameElsewhere s row distinct in_it o p l away =
        find-changed o p l row s.issuers (elsewhere o p l row away) (
          All-intro _ s.issuers (λ i h e.
            distinct i row h (Any-map _ _ (λ j k. k.0) s.issuers in_it)
              (ids i e ∙ sym (selected-id s row in_it))))
      where
        elsewhere :
            (o p : ℕ) (l : String) (row : Issuer)
            → ¬ (
                (o ≡ (change row).org_id)
                × (p ≡ (change row).project_id)
                × (l ≡ (change row).label))
            → names_issuer o p l row ≡ false
        elsewhere o p l row away = elim (Bool-cases (names_issuer o p l row)) [
          | inr e ↦ e
          | inl e ↦
              let (org, project, label) = names_issuer-Within o p l row e in
              let (_, g, h, k) = keeps row in
              absurd
                (away (sym (g ∙ org), sym (h ∙ project), sym (k ∙ (eq_iff row.label l).0 label)))
        ]

    -- the caches, after the entries of the changed row are dropped
    changed-Coherent :
        (s : Store) (row : Issuer) (r : State a)
        → DistinctIds s
        → Any (λ i. (i ≡ row) × (selects i ≡ true)) s.issuers
        → Coherent a s r
        → Coherent a
            (record s { issuers = map changed s.issuers })
            (invalidate_issuer a (change row) r)
    unfolding invalidate_issuer
    changed-Coherent s row r distinct in_it (h, i, j) = (
      λ n e g.
          let (away, was) = laws.0.get-remove r.issuers (change row).id n e g in
          let (this, mem, cfg, set, allowed) = h n e was in
          (
            this,
            kept-changed e.row s.issuers (unselected s row e.row n in_it this away) mem,
            cfg,
            set,
            allowed,
          ),
      invalidate_label-Fits a.labels laws.1 (λ m. Unit) (issuer_rows s) _ (change row).org_id
          (change row).project_id (change row).label r.issuer_labels
          (changed-SameElsewhere s row distinct in_it) i,
      j,
    )

    update_row-Coherent :
        (s t : Store) (row : Issuer) (r : State a)
        → DistinctIds s
        → update_row selects change s ≡ ok (row, t)
        → Coherent a s r
        → DistinctIds t × Coherent a t (invalidate_issuer a row r)
    unfolding update_row
    update_row-Coherent s t row r distinct e h =
        let (old, found_it, done) = (bind_iff (found (find? selects s.issuers)) _ (row, t)).0 e in
        let both = ok-injective _ _ done in
        let in_it = find?-Any selects s.issuers old (found-some _ old found_it) in
        subst (λ q. DistinctIds q.1 × Coherent a q.1 (invalidate_issuer a q.0 r)) both
          (changed-DistinctIds s distinct, changed-Coherent s old r distinct in_it h)

module _ {C D E A P S : Type 0} (a : Authority C D E A P S) (laws : CacheLaws a) where
  -- An update of the status or the settings of an issuer, followed by InvalidateIssuer of the row
  -- that it returns, leaves the caches coherent with the updated rows, whose IDs are distinct.
  pub update_issuer-Coherent :
      (parses : String → Bool) (now : ℕ) (req : UpdateIssuerRequest) (s t : Store) (row : Issuer)
      (r : State a)
      → DistinctIds s
      → update_issuer a.down parses now req s ≡ ok (row, t)
      → Coherent a s r
      → DistinctIds t × Coherent a t (invalidate_issuer a row r)
  unfolding update_issuer
  update_issuer-Coherent parses now req s t row r distinct e h =
      let ask = unless (req.id == 0) _ _ (row, t) e in
      let changes =
        unless ((issuer_status_number req.status == 0) && str_eq req.config "") _ _ (row, t) ask in
      let parsed =
        unless (not (str_eq req.config "") && not (parses req.config)) _ _ (row, t) changes in
      update_row-Coherent (is_updated req) (update_columns req now) (update_columns-Keeps req now) a
        laws req.id (is_updated-id req) s t row r distinct
        (after_check (no_error (a.down "UpdateIssuer")) _ (row, t) parsed) h

  -- The activation of a pending issuer, followed by InvalidateIssuer of the row that it returns,
  -- leaves the caches coherent with the rows, whose IDs are distinct.
  pub activate_issuer-Coherent :
      (now : ℕ) (m : Issuer) (s t : Store) (row : Issuer) (r : State a)
      → DistinctIds s
      → activate_issuer a.down now m s ≡ ok (row, t)
      → Coherent a s r
      → DistinctIds t × Coherent a t (invalidate_issuer a row r)
  unfolding activate_issuer
  activate_issuer-Coherent now m s t row r distinct e h =
      let named = unless (m.id == 0) _ _ (row, t) e in
      let valid =
        after_check
          (no_error (
            not (issuer_validate (record m { status = issuer_active; csr_pem = "" }))
            || a.down "ActivateIssuer"))
          _ (row, t) named in
      update_row-Coherent (is_pending m) (activate_columns m now) (activate_columns-Keeps m now) a
        laws m.id (is_pending-id m) s t row r distinct
        (unless (any (λ i. not (i.id == m.id) && str_eq i.skid m.skid) s.issuers) _ _ (row, t)
          valid)
        h
