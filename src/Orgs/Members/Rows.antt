-- ===== src/Orgs/Members/Rows.antt =====
-- The rows of the owners of an org, among rows that are unique for an org, a project and a user.
use trustyca.Base.{
  ℕ, zero, suc, ◌<◌, ◌≡◌, sym, ◌∙◌, ◌≢◌, inl, inr, Bool, true, false, ◌&&◌, List, [], ◌∷◌, arith,
  ◌==◌, filter, length, Any, Any-map, Any-filter, Bool-cases,
}
use trustyca.Db.Model.{MembershipInfo}
use trustyca.Db.Tables.{take}
use trustyca.Authctx.Role.{owner, role_eq}
use trustyca.Authctx.Grants.Rows.{IsGrant, UniqueRows}

pub Any-take :
    (P : MembershipInfo → Type 0) (n : ℕ) (xs : List MembershipInfo) → Any P (take n xs) → Any P xs
Any-take P zero xs a = absurd a
Any-take P (suc n) [] a = absurd a
Any-take P (suc n) (x ∷ xs) (inl h) = inl h
Any-take P (suc n) (x ∷ xs) (inr a) = inr (Any-take P n xs a)

pub UniqueRows-take : (n : ℕ) (xs : List MembershipInfo) → UniqueRows xs → UniqueRows (take n xs)
UniqueRows-take zero xs u = tt
UniqueRows-take (suc n) [] u = tt
UniqueRows-take (suc n) (x ∷ xs) u = (λ a. u.0 (Any-take _ n xs a), UniqueRows-take n xs u.1)

pub UniqueRows-filter :
    (p : MembershipInfo → Bool) (xs : List MembershipInfo)
    → UniqueRows xs
    → UniqueRows (filter p xs)
UniqueRows-filter p [] u = tt
UniqueRows-filter p (x ∷ xs) u = elim (Bool-cases (p x)) [
  | inl in_it ↦ rw in_it (
    λ a.
        u.0 (
          Any-map _ (IsGrant x.org_id x.user_id x.project_id) (λ y h. h.0) xs
            (Any-filter _ p xs a)),
    UniqueRows-filter p xs u.1,
  )
  | inr out ↦ rw out (UniqueRows-filter p xs u.1)
]

module _ (org : ℕ) where
  -- an org-wide row of an owner
  abbrev pub IsOwner : MembershipInfo → Type 0
  IsOwner m = (m.org_id ≡ org) × (m.project_id ≡ 0) × (role_eq m.role owner ≡ true)

  -- an owner other than the user
  abbrev pub IsOtherOwner : ℕ → MembershipInfo → Type 0
  IsOtherOwner user_id m = IsOwner m × (m.user_id ≢ user_id)

  pub owners_apart :
      (user_id : ℕ) (xs : List MembershipInfo)
      → ¬ Any (IsGrant org user_id 0) xs
      → Any IsOwner xs
      → Any (IsOtherOwner user_id) xs
  owners_apart user_id [] n a = a
  owners_apart user_id (x ∷ xs) n (inl o) = inl (o, λ e. n (inl (o.0, e, o.1)))
  owners_apart user_id (x ∷ xs) n (inr a) = inr (owners_apart user_id xs (λ b. n (inr b)) a)

  -- A user with an org-wide row that is no owner's is not the owner.
  pub other_owner :
      (user_id : ℕ) (xs : List MembershipInfo)
      → UniqueRows xs
      → Any (λ m. IsGrant org user_id 0 m × (role_eq m.role owner ≡ false)) xs
      → Any IsOwner xs
      → Any (IsOtherOwner user_id) xs
  other_owner user_id [] u a o = a
  other_owner user_id (x ∷ xs) u (inl g) (inl o) = absurd (let e = o.2 in let f = g.1 in cc)
  other_owner user_id (x ∷ xs) u (inl g) (inr o) = inr (
      owners_apart user_id xs
        (λ b. u.0 (
          Any-map _ (IsGrant x.org_id x.user_id x.project_id)
            (λ y h. (h.0 ∙ sym g.0.0, h.1 ∙ sym g.0.1, h.2 ∙ sym g.0.2)) xs b))
        o)
  other_owner user_id (x ∷ xs) u (inr g) (inl o) = inl (
    o,
    λ e. u.0 (
        Any-map _ (IsGrant x.org_id x.user_id x.project_id)
          (λ y h. (h.0.0 ∙ sym o.0, h.0.1 ∙ sym e, h.0.2 ∙ sym o.1)) xs g),
  )
  other_owner user_id (x ∷ xs) u (inr g) (inr o) = inr (other_owner user_id xs u.1 g o)

  abbrev pub owner_row : MembershipInfo → Bool
  owner_row v = v.org_id == org && v.project_id == 0 && role_eq v.role owner

  some-IsOwner : (xs : List MembershipInfo) → 0 < length (filter owner_row xs) → Any IsOwner xs
  some-IsOwner [] h = ground arith
  some-IsOwner (x ∷ xs) h = elim (Bool-cases (owner_row x)) [
    | inl in_it ↦ inl (ground arith, ground arith, ground arith)
    | inr out ↦ inr (some-IsOwner xs (rw out at h))
  ]

  -- Of two owners, one is not the user.
  pub second_owner :
      (user_id : ℕ) (xs : List MembershipInfo)
      → UniqueRows xs
      → 1 < length (filter owner_row xs)
      → Any (IsOtherOwner user_id) xs
  second_owner user_id [] u h = ground arith
  second_owner user_id (x ∷ xs) u h = elim (Bool-cases (owner_row x)) [
    | inr out ↦ inr (second_owner user_id xs u.1 (rw out at h))
    | inl in_it ↦
        let rest : 1 < suc (length (filter owner_row xs)) = rw in_it at h in
        let is_owner : IsOwner x = (ground arith, ground arith, ground arith) in
        elim (Bool-cases (x.user_id == user_id)) [
          | inr other ↦ inl (is_owner, λ e. ground arith)
          | inl same ↦ inr (
              owners_apart user_id xs
                (λ b. u.0 (
                  Any-map _ (IsGrant x.org_id x.user_id x.project_id)
                    (λ y k. (k.0 ∙ sym is_owner.0, ground arith, k.2 ∙ sym is_owner.1)) xs b))
                (some-IsOwner xs (omega arith)))
        ]
  ]
