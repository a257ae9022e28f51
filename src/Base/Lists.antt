-- ===== src/Base/Lists.antt =====
-- Tests and predicates over lists. Membership here is by recursion, so that a proof can be taken
-- apart into data.
use Prim.Native.Nat.{ℕ, suc, ◌≤◌}
use mathlib.Core.Path.{◌≡◌, refl}
use mathlib.Core.Logic.{◌↔◌, ◌⊎◌, inl, inr}
use mathlib.Core.Bool.{Bool, true, false, ◌||◌, ◌&&◌}
use mathlib.Core.List.{List, [], ◌∷◌, ◌++◌}
use mathlib.Core.Option.{Option, none, some}
use native.Mathlib.Omega.{arith}
use mathlib.Core.Option.{some-injective}
use trustyca.Base.Tests.{if◌then◌else◌, ◌==◌, Bool-cases}

module _ {ℓ} {A : Type ℓ} where
  abbrev pub length : List A → ℕ
  length [] = 0
  length (x ∷ xs) = suc (length xs)

  abbrev pub any : (A → Bool) → List A → Bool
  any p [] = false
  any p (x ∷ xs) = p x || any p xs

  abbrev pub all : (A → Bool) → List A → Bool
  all p [] = true
  all p (x ∷ xs) = p x && all p xs

  abbrev pub filter : (A → Bool) → List A → List A
  filter p [] = []
  filter p (x ∷ xs) = let rest = filter p xs in if p x then x ∷ rest else rest

  abbrev pub find? : (A → Bool) → List A → Option A
  find? p [] = none
  find? p (x ∷ xs) = if p x then some x else find? p xs

module _ {ℓ} {A : Type ℓ} where
  abbrev pub All : (A → Type 0) → List A → Type 0
  All P [] = Unit
  All P (x ∷ xs) = P x × All P xs

  abbrev pub Any : (A → Type 0) → List A → Type 0
  Any P [] = ⊥
  Any P (x ∷ xs) = P x ⊎ Any P xs

  pub All-map : (P Q : A → Type 0) → ((x : A) → P x → Q x) → (xs : List A) → All P xs → All Q xs
  All-map P Q f [] h = tt
  All-map P Q f (x ∷ xs) h = (f x h.0, All-map P Q f xs h.1)

  pub any_iff :
      (p : A → Bool) (P : A → Type 0)
      → ((x : A) → (p x ≡ true) ↔ P x)
      → (xs : List A) → (any p xs ≡ true) ↔ Any P xs
  any_iff p P h [] = (λ e. cc, λ a. absurd a)
  any_iff p P h (x ∷ xs) = (
    λ e. elim (Bool-cases (p x)) [
      | inl here ↦ inl ((h x).0 here)
      | inr off ↦ inr ((any_iff p P h xs).0 (rw off at e))
    ],
    λ a. elim a [
      | inl here ↦ rw ((h x).1 here)
      | inr later ↦ ground (arith, (any_iff p P h xs).1 later)
    ],
  )

  pub all_iff :
      (p : A → Bool) (P : A → Type 0)
      → ((x : A) → (p x ≡ true) ↔ P x)
      → (xs : List A) → (all p xs ≡ true) ↔ All P xs
  all_iff p P h [] = (λ e. tt, λ a. refl)
  all_iff p P h (x ∷ xs) = (
    λ e. ((h x).0 (ground arith), (all_iff p P h xs).0 (ground arith)),
    λ a. ground (arith, (h x).1 a.0, (all_iff p P h xs).1 a.1),
  )

  pub Any-map : (P Q : A → Type 0) → ((x : A) → P x → Q x) → (xs : List A) → Any P xs → Any Q xs
  Any-map P Q f [] h = elim h [ ]
  Any-map P Q f (x ∷ xs) (inl h) = inl (f x h)
  Any-map P Q f (x ∷ xs) (inr h) = inr (Any-map P Q f xs h)

module _ {ℓ} {A : Type ℓ} (P : A → Type 0) where
  pub Any-append : (xs ys : List A) → Any P (xs ++ ys) ↔ (Any P xs ⊎ Any P ys)
  Any-append [] ys = (λ h. inr h, λ h. elim h [ inl a ↦ absurd a | inr b ↦ b ])
  Any-append (x ∷ xs) ys =
      let (to, from) = Any-append xs ys in
      (
        λ h. elim h [
          | inl k ↦ inl (inl k)
          | inr a ↦ elim (to a) [ inl b ↦ inl (inr b) | inr c ↦ inr c ]
        ],
        λ h. elim h [
          | inl a ↦ elim a [ inl k ↦ inl k | inr b ↦ inr (from (inl b)) ]
          | inr c ↦ inr (from (inr c))
        ],
      )

  pub All-append : (xs ys : List A) → All P xs → All P ys → All P (xs ++ ys)
  All-append [] ys h k = k
  All-append (x ∷ xs) ys h k = (h.0, All-append xs ys h.1 k)

  -- An element with the property, and its property, out of an `Any`.
  pub Any-All : (Q : A → Type 0) (xs : List A) → Any P xs → All Q xs → Any (λ x. P x × Q x) xs
  Any-All Q [] a h = absurd a
  Any-All Q (x ∷ xs) (inl p) h = inl (p, h.0)
  Any-All Q (x ∷ xs) (inr a) h = inr (Any-All Q xs a h.1)

  pub not-Any : (xs : List A) → All (λ x. ¬ P x) xs → ¬ Any P xs
  not-Any [] h a = a
  not-Any (x ∷ xs) h (inl p) = h.0 p
  not-Any (x ∷ xs) h (inr a) = not-Any xs h.1 a

module _ {A : Type 0} where
  pub Any-fact : (Q : Type 0) (xs : List A) → Any (λ x. Q) xs → Q
  Any-fact Q [] a = absurd a
  Any-fact Q (x ∷ xs) (inl q) = q
  Any-fact Q (x ∷ xs) (inr a) = Any-fact Q xs a

  pub Any-filter :
      (P : A → Type 0) (p : A → Bool) (xs : List A)
      → Any P (filter p xs)
      → Any (λ x. P x × (p x ≡ true)) xs
  Any-filter P p [] a = absurd a
  Any-filter P p (x ∷ xs) a = elim (Bool-cases (p x)) [
    | inl in_it ↦ elim (rw in_it at a) [
      | inl h ↦ inl (h, in_it)
      | inr later ↦ inr (Any-filter P p xs later)
    ]
    | inr out ↦ inr (Any-filter P p xs (rw out at a))
  ]

  pub kept-Any :
      (P : A → Type 0) (p : A → Bool)
      → ((x : A) → P x → p x ≡ true)
      → (xs : List A) → Any P xs
      → Any P (filter p xs)
  kept-Any P p keep [] a = absurd a
  kept-Any P p keep (x ∷ xs) (inl h) = rw (keep x h) (inl h)
  kept-Any P p keep (x ∷ xs) (inr a) = elim (Bool-cases (p x)) [
    | inl in_it ↦ rw in_it (inr (kept-Any P p keep xs a))
    | inr out ↦ rw out (kept-Any P p keep xs a)
  ]

  pub find?-Any :
      (p : A → Bool) (xs : List A) (m : A)
      → find? p xs ≡ some m
      → Any (λ x. (x ≡ m) × (p x ≡ true)) xs
  find?-Any p [] m h = cc
  find?-Any p (x ∷ xs) m h = elim (Bool-cases (p x)) [
    | inl in_it ↦ inl (some-injective x m (rw in_it at h), in_it)
    | inr out ↦ inr (find?-Any p xs m (rw out at h))
  ]

  pub All-filter : (P : A → Type 0) (p : A → Bool) (xs : List A) → All P xs → All P (filter p xs)
  All-filter P p [] h = tt
  All-filter P p (x ∷ xs) h = elim (Bool-cases (p x)) [
    | inl in_it ↦ rw in_it (h.0, All-filter P p xs h.1)
    | inr out ↦ rw out (All-filter P p xs h.1)
  ]

  pub length-filter : (p : A → Bool) (xs : List A) → length (filter p xs) ≤ length xs
  length-filter p [] = omega arith
  length-filter p (x ∷ xs) = ground (arith, length-filter p xs)

-- A Go map with integer keys, as an association list whose keys are distinct.
module _ {ℓ} {V : Type ℓ} where
  abbrev pub lookup : ℕ → List (ℕ × V) → Option V
  lookup k [] = none
  lookup k ((j, v) ∷ m) = if j == k then some v else lookup k m

  abbrev pub put : ℕ → V → List (ℕ × V) → List (ℕ × V)
  put k v [] = (k, v) ∷ []
  put k v ((j, w) ∷ m) = if j == k then (k, v) ∷ m else (j, w) ∷ put k v m

  pub lookup-put :
      (k j : ℕ) (v : V) (m : List (ℕ × V))
      → lookup j (put k v m) ≡ (if k == j then some v else lookup j m)
  lookup-put k j v [] = refl
  lookup-put k j v ((i, w) ∷ m) = ground (arith, lookup-put k j v m)

module _ {A B C : Type 0} where
  pub iff_trans : (A ↔ B) → (B ↔ C) → A ↔ C
  iff_trans h k = (λ a. k.0 (h.0 a), λ c. h.1 (k.1 c))

module _ {A B C D : Type 0} where
  pub iff_sum : (A ↔ B) → (C ↔ D) → (A ⊎ C) ↔ (B ⊎ D)
  iff_sum h k = (
    λ x. elim x [ inl a ↦ inl (h.0 a) | inr c ↦ inr (k.0 c) ],
    λ x. elim x [ inl b ↦ inl (h.1 b) | inr d ↦ inr (k.1 d) ],
  )
