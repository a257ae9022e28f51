-- ===== src/Ca/Registry/Labels.antt =====
-- internal/ca/registry.go: the entries of a cache of labels, against the rows. An entry is what its
-- label resolves to, and dropping the entries of a label keeps that after a change of its row.
use text.Mathlib.Text.{◌==◌ as str_eq}
use text.Mathlib.TextEquality.{eq_iff}
use mathlib.Core.Path.{subst}
use trustyca.Base.{
  ℕ, ◌≡◌, ◌≢◌, ◌⊎◌, inl, inr, refl, sym, ◌∙◌, String, Bool, true, false, ◌&&◌, Option, none, some,
  List, [], ◌∷◌, ◌==◌, ==_iff, if◌then◌else◌, Bool-cases, arith, Any, All,
}
use trustyca.Base.Status.{Result, ◌>>=◌}
use trustyca.Db.Tables.{found, no_error}
use trustyca.Ca.Registry.{Lru, ScopeKey, scoped_read, remove_label, invalidate_label}

-- The documented behaviour of an LRU cache with a time to live: an entry is the one that was added
-- last, or absent (it expires or is evicted), a removed key has none, and the keys and the values
-- are those of the entries.
pub record LruLaws {C K V : Type 0} (lru : Lru C K V) : Type 0 where
  pub get-get :
      (c : C) (k j : K) (w : V) → (lru.get (lru.get c k).1 j).0 ≡ some w → (lru.get c j).0 ≡ some w
  pub get-add :
      (c : C) (k j : K) (v w : V)
      → (lru.get (lru.add c k v) j).0 ≡ some w
      → ((k ≡ j) × (v ≡ w)) ⊎ ((lru.get c j).0 ≡ some w)
  pub get-remove :
      (c : C) (k j : K) (w : V)
      → (lru.get (lru.remove c k) j).0 ≡ some w
      → (k ≢ j) × ((lru.get c j).0 ≡ some w)
  pub get-keys : (c : C) (k : K) (w : V) → (lru.get c k).0 ≡ some w → Any (λ j. j ≡ k) (lru.keys c)
  pub get-values :
      (c : C) (w : V) → Any (λ v. v ≡ w) (lru.values c) → (k : K) × ((lru.get c k).0 ≡ some w)

-- a key that the loop keeps is of another org or label
differs :
    (k j : ScopeKey) (org_id : ℕ) (label : String)
    → ((k.org_id == org_id) && str_eq k.label label) ≡ false
    → k ≡ j
    → ¬ ((j.org_id ≡ org_id) × (j.label ≡ label))
differs k j org_id label m same =
    subst (λ i. ¬ ((i.org_id ≡ org_id) × (i.label ≡ label))) same
      (λ (o, l). clash (rw ((==_iff k.org_id org_id).1 o, (eq_iff k.label label).1 l) at m))
  where
    clash : true ≡ false → ⊥
    clash h = cc

at_key :
    {Q : Type 0} (j : ScopeKey) (ks : List ScopeKey)
    → Any (λ k. k ≡ j) ks
    → All (λ k. k ≡ j → Q) ks
    → Q
at_key j [] a h = absurd a
at_key j (k ∷ ks) (inl e) h = h.0 e
at_key j (k ∷ ks) (inr a) h = at_key j ks a h.1

key_of :
    (j : ScopeKey) (o p : ℕ) (l : String)
    → j.org_id ≡ o
    → j.project_id ≡ p
    → j.label ≡ l
    → ◌≡◌ {A = ScopeKey} (record { org_id = o; project_id = p; label = l }) j
key_of j o p l e f g = λ i. record { org_id = sym e i; project_id = sym f i; label = sym g i }

in_project : (p : ℕ) → (p == 0) ≡ false → 0 ≡ p → ⊥
in_project p h e = ground arith

-- the row of each exact scope and label
abbrev pub Rows : Type 0 → Type 0
Rows V = ℕ → ℕ → String → Option V

module _ {V : Type 0} where
  abbrev pub or_org_wide : ℕ → Option V → Option V → Option V
  or_org_wide project_id (some v) org_wide = some v
  or_org_wide project_id none org_wide = if project_id == 0 then none else org_wide

  -- what a label resolves to: the row of the project, or that of the org
  unfoldable pub scoped : Rows V → ℕ → ℕ → String → Option V
  scoped exact org_id project_id label =
      or_org_wide project_id (exact org_id project_id label) (exact org_id 0 label)

  -- the answer of the database
  abbrev pub row_answer : Bool → Option V → Result V
  row_answer down o = no_error down >>= λ _. found o

  pub scoped_read-found :
      (down : Bool) (project_id : ℕ) (x y : Option V)
      → scoped_read project_id (row_answer down x) (row_answer down y)
        ≡ row_answer down (or_org_wide project_id x y)
  scoped_read-found true project_id x y = refl
  scoped_read-found false project_id (some v) y = refl
  scoped_read-found false project_id none y = elim (Bool-cases (project_id == 0)) [
    | inl e ↦ rw e refl
    | inr e ↦ rw e refl
  ]

  -- two tables that differ in the row of one scope and label at most
  abbrev pub SameElsewhere : ℕ → ℕ → String → Rows V → Rows V → Type 0
  SameElsewhere org_id project_id label before after =
      (o p : ℕ) (l : String)
      → ¬ ((o ≡ org_id) × (p ≡ project_id) × (l ≡ label))
      → before o p l ≡ after o p l

  scoped-same :
      (before after : Rows V) (o p : ℕ) (l : String)
      → before o p l ≡ after o p l
      → before o 0 l ≡ after o 0 l
      → scoped before o p l ≡ scoped after o p l
  unfolding scoped
  scoped-same before after o p l own wide = rw (own, wide) refl

module _ {D V : Type 0} (lru : Lru D ScopeKey V) (good : V → Type 0) where
  -- each entry is the row that its label resolves to
  abbrev pub Fits : Rows V → D → Type 0
  Fits exact c =
      (k : ScopeKey) (v : V)
      → (lru.get c k).0 ≡ some v
      → (scoped exact k.org_id k.project_id k.label ≡ some v) × good v

module _ {D V : Type 0} (lru : Lru D ScopeKey V) (laws : LruLaws lru) (good : V → Type 0) where
  pub get-Fits :
      (exact : Rows V) (c : D) (k : ScopeKey)
      → Fits lru good exact c
      → Fits lru good exact (lru.get c k).1
  get-Fits exact c k h j v e = h j v (laws.get-get c k j v e)

  pub add-Fits :
      (exact : Rows V) (c : D) (k : ScopeKey) (v : V)
      → scoped exact k.org_id k.project_id k.label ≡ some v
      → good v
      → Fits lru good exact c
      → Fits lru good exact (lru.add c k v)
  add-Fits exact c k v is g h j w e = elim (laws.get-add c k j v w e) [
    | inl (same, now) ↦
        subst (λ i. (scoped exact i.org_id i.project_id i.label ≡ some w) × good w) same
          (subst (λ u. (scoped exact k.org_id k.project_id k.label ≡ some u) × good u) now (is, g))
    | inr old ↦ h j w old
  ]

  -- an entry that the loop leaves was there, and is of no key of the loop with the org and label
  remove_label-get :
      (org_id : ℕ) (label : String) (ks : List ScopeKey) (c : D) (j : ScopeKey) (w : V)
      → (lru.get (remove_label lru org_id label c ks) j).0 ≡ some w
      → ((lru.get c j).0 ≡ some w)
        × All (λ k. k ≡ j → ¬ ((j.org_id ≡ org_id) × (j.label ≡ label))) ks
  unfolding remove_label
  remove_label-get org_id label [] c j w e = (e, tt)
  remove_label-get org_id label (k ∷ ks) c j w e =
      elim (Bool-cases ((k.org_id == org_id) && str_eq k.label label)) [
        | inl m ↦
            let (was, rest) = remove_label-get org_id label ks (lru.remove c k) j w (rw m at e) in
            let (other, old) = laws.get-remove c k j w was in
            (old, ((λ same. absurd (other same)), rest))
        | inr m ↦
            let (was, rest) = remove_label-get org_id label ks c j w (rw m at e) in
            (was, ((λ same. differs k j org_id label m same), rest))
      ]

  pub invalidate_label-Fits :
      (before after : Rows V) (org_id project_id : ℕ) (label : String) (c : D)
      → SameElsewhere org_id project_id label before after
      → Fits lru good before c
      → Fits lru good after (invalidate_label lru org_id project_id label c)
  unfolding invalidate_label
  invalidate_label-Fits before after org_id project_id label c same h j w e =
      elim (Bool-cases (project_id == 0)) [
        | inl wide ↦
            let (was, others) = remove_label-get org_id label (lru.keys c) c j w (rw wide at e) in
            let (is, g) = h j w was in
            let away : ¬ ((j.org_id ≡ org_id) × (j.label ≡ label)) =
              at_key j (lru.keys c) (laws.get-keys c j w was) others in
            (
              sym (
                    scoped-same before after j.org_id j.project_id j.label
                      (same j.org_id j.project_id j.label (λ (o, _, l). away (o, l)))
                      (same j.org_id 0 j.label (λ (o, _, l). away (o, l))))
                  ∙ is,
              g,
            )
        | inr narrow ↦
            let (away, was) =
              laws.get-remove c (record { org_id = org_id; project_id = project_id; label = label })
                j w (rw narrow at e) in
            let (is, g) = h j w was in
            (
              sym (
                    scoped-same before after j.org_id j.project_id j.label
                      (same j.org_id j.project_id j.label
                        (λ (o, p, l). away (key_of j org_id project_id label o p l)))
                      (same j.org_id 0 j.label (λ (o, p, l). in_project project_id narrow p)))
                  ∙ is,
              g,
            )
      ]
