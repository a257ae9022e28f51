-- ===== src/Db/Model/Slices.antt =====
-- the orgs of a list of grants
use trustyca.Base.{
  ℕ, ◌≡◌, ◌↔◌, ◌⊎◌, inl, inr, refl, true, false, List, [], ◌∷◌, ◌==◌, any, Any, any_iff, ==_iff,
  sym, Bool-cases,
}
use trustyca.Db.Model.{MembershipInfo, org_ids, org_ids_from}

-- No element of the list occurs twice.
abbrev pub Distinct : List ℕ → Type 0
Distinct [] = Unit
Distinct (x ∷ xs) = (¬ Any (λ y. y ≡ x) xs) × Distinct xs

seen_iff : (x : ℕ) (seen : List ℕ) → (any (λ s. s == x) seen ≡ true) ↔ Any (λ s. s ≡ x) seen
seen_iff x = any_iff (λ s. s == x) (λ s. s ≡ x) (λ s. ==_iff s x)

not_seen :
    (o x : ℕ) (seen : List ℕ) → any (λ s. s == x) seen ≡ false → x ≡ o → ¬ Any (λ s. s ≡ o) seen
not_seen o x seen new e a = cc ((seen_iff x seen).1 (rw e a))

module _ (o : ℕ) where
  org_ids_from-Any :
      (seen : List ℕ) (m : List MembershipInfo)
      → Any (λ x. x ≡ o) (org_ids_from seen m)
      → Any (λ v. v.org_id ≡ o) m × (¬ Any (λ x. x ≡ o) seen)
  unfolding org_ids_from
  org_ids_from-Any seen [] h = absurd h
  org_ids_from-Any seen (v ∷ m) h = elim (Bool-cases (any (λ s. s == v.org_id) seen)) [
    | inl old ↦ let (a, b) = org_ids_from-Any seen m (rw old at h) in (inr a, b)
    | inr new ↦
        let k : (v.org_id ≡ o) ⊎ Any (λ x. x ≡ o) (org_ids_from (v.org_id ∷ seen) m) =
          rw new at h in
        elim k [
          | inl e ↦ (inl e, not_seen o v.org_id seen new e)
          | inr later ↦
              let (a, b) = org_ids_from-Any (v.org_id ∷ seen) m later in (inr a, λ c. b (inr c))
        ]
  ]

  org_ids_from_hit :
      (seen : List ℕ) (m : List MembershipInfo)
      → Any (λ v. v.org_id ≡ o) m
      → Any (λ x. x ≡ o) (org_ids_from seen m) ⊎ Any (λ x. x ≡ o) seen
  unfolding org_ids_from
  org_ids_from_hit seen [] h = absurd h
  org_ids_from_hit seen (v ∷ m) h = elim (Bool-cases (any (λ s. s == v.org_id) seen)) [
    | inl old ↦ elim h [
      | inl e ↦ inr (rw (sym e) ((seen_iff v.org_id seen).0 old))
      | inr later ↦ rw old (org_ids_from_hit seen m later)
    ]
    | inr new ↦ elim h [
      | inl e ↦ rw new (inl (inl e))
      | inr later ↦ elim (org_ids_from_hit (v.org_id ∷ seen) m later) [
        | inl found ↦ rw new (inl (inr found))
        | inr old ↦ elim old [ inl e ↦ rw new (inl (inl e)) | inr a ↦ inr a ]
      ]
    ]
  ]

org_ids_from-Distinct : (seen : List ℕ) (m : List MembershipInfo) → Distinct (org_ids_from seen m)
unfolding org_ids_from
org_ids_from-Distinct seen [] = tt
org_ids_from-Distinct seen (v ∷ m) = elim (Bool-cases (any (λ s. s == v.org_id) seen)) [
  | inl old ↦ rw old (org_ids_from-Distinct seen m)
  | inr new ↦ rw new (
    λ a. (org_ids_from-Any v.org_id (v.org_id ∷ seen) m a).1 (inl refl),
    org_ids_from-Distinct (v.org_id ∷ seen) m,
  )
]

-- The orgs of a list of grants are exactly the orgs of its rows, each once.
org_ids_lem :
    (m : List MembershipInfo)
    → Distinct (org_ids m) × ((o : ℕ) → Any (λ x. x ≡ o) (org_ids m) ↔ Any (λ v. v.org_id ≡ o) m)
unfolding org_ids
org_ids_lem m = (
  org_ids_from-Distinct [] m,
  λ o. (
    λ h. (org_ids_from-Any o [] m h).0,
    λ h. elim (org_ids_from_hit o [] m h) [ inl found ↦ found | inr a ↦ absurd a ],
  ),
)
