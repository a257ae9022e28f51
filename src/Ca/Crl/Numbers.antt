-- ===== src/Ca/Crl/Numbers.antt =====
-- The number of the CRLs of an issuer only grows, whatever the publishers and the other calls do
-- in between.
use text.Mathlib.Text.{◌==◌ as str_eq}
use text.Mathlib.TextEquality.{eq_iff}
use mathlib.Core.Option.{none-ne-some}
use trustyca.Base.{
  ℕ, ◌+◌, ◌≡◌, ◌<◌, ◌≤◌, refl, sym, ap, ◌∙◌, String, Bool, true, false, not, ◌||◌, Option, none,
  some, List, [], ◌∷◌, ◌==◌, map, find?, All, Bool-cases, inl, inr, arith,
}
use trustyca.Base.Status.{Result, Error, ok, err, wrapped, ◌>>=◌, bind_iff, ok-injective}
use trustyca.Db.Tables.{no_error}
use trustyca.Ca.Rows.{crl_validate, Issuer, Crl, RevokedCertificate}
use trustyca.Ca.Store.{
  Store, takes_number, set_crl_number, updated_issuer, set_issuer_crl_number, crl_of_issuer,
  stored_crl, put_crl, publish_crl, delete_crl, get_issuer, stale_crl_number,
}
use trustyca.Ca.Crl.Bounds.{stored_crl-fields, stored_crl-found}
use trustyca.Ca.Revocations.{RevokeRequest, revoke_certificate}
use trustyca.Ca.Revocations.Effect.{revoke_certificate-issuers}

-- the issuers of the ID and the SKID have the number or a greater one
AtLeast : ℕ → ℕ → String → List Issuer → Type 0
AtLeast n id ikid issuers = All (λ i. i.id ≡ id → i.skid ≡ ikid → n ≤ i.crl_number) issuers

-- the first issuer that takes the number has a smaller one
takes_number-fields :
    (id : ℕ) (ikid : String) (n : ℕ) (i : Issuer)
    → takes_number id ikid n i ≡ true
    → (i.id ≡ id) × (i.skid ≡ ikid) × (i.crl_number < n)
unfolding takes_number
takes_number-fields id ikid n i h =
    (ground arith, (eq_iff i.skid ikid).0 (ground arith), ground arith)

find-greater :
    (n k id : ℕ) (ikid : String) (issuers : List Issuer) (i : Issuer)
    → AtLeast n id ikid issuers
    → find? (takes_number id ikid k) issuers ≡ some i
    → n < k
unfolding AtLeast
find-greater n k id ikid [] i h e = absurd (none-ne-some _ e)
find-greater n k id ikid (j ∷ issuers) i h e = elim (Bool-cases (takes_number id ikid k j)) [
  | inl t ↦
      let (same_id, same_skid, less) = takes_number-fields id ikid k j t in
      omega (arith, h.0 same_id same_skid)
  | inr t ↦ find-greater n k id ikid issuers i h.1 (rw t at e)
]

-- recording another number keeps what the issuers had reached
set-AtLeast :
    (n k id other : ℕ) (ikid skid : String) (issuers : List Issuer)
    → AtLeast n id ikid issuers
    → AtLeast n id ikid (map (set_crl_number other skid k) issuers)
unfolding AtLeast set_crl_number
set-AtLeast n k id other ikid skid [] h = tt
set-AtLeast n k id other ikid skid (j ∷ issuers) h =
    elim (Bool-cases (takes_number other skid k j)) [
      | inl t ↦
          let (_, _, less) = takes_number-fields other skid k j t in
          rw t
            ((λ a b. omega (arith, less, h.0 a b)), set-AtLeast n k id other ikid skid issuers h.1)
      | inr t ↦ rw t (h.0, set-AtLeast n k id other ikid skid issuers h.1)
    ]

not_taken :
    (id : ℕ) (ikid : String) (n : ℕ) (i : Issuer)
    → takes_number id ikid n i ≡ false
    → i.id ≡ id
    → i.skid ≡ ikid
    → n ≤ i.crl_number
unfolding takes_number
not_taken id ikid n i h a b = ground (arith, (eq_iff i.skid ikid).1 b)

-- the issuers that the number is recorded on have reached it
set-reached :
    (n id : ℕ) (ikid : String) (issuers : List Issuer)
    → AtLeast n id ikid (map (set_crl_number id ikid n) issuers)
unfolding AtLeast set_crl_number
set-reached n id ikid [] = tt
set-reached n id ikid (j ∷ issuers) = elim (Bool-cases (takes_number id ikid n j)) [
  | inl t ↦ rw t ((λ a b. omega arith), set-reached n id ikid issuers)
  | inr t ↦ rw t ((λ a b. not_taken id ikid n j t a b), set-reached n id ikid issuers)
]

updated_issuer-steps :
    (ikid : String) (n : ℕ) (other : Result Issuer) (t u : Store) (o : Option Issuer) (j : Issuer)
    → updated_issuer ikid n other t o ≡ ok (j, u)
    → (i : Issuer) × (o ≡ some i) × (j ≡ record i { crl_number = n }) × (u ≡ t)
updated_issuer-steps ikid n other t u (some i) j h =
    let e = ok-injective (record i { crl_number = n }, t) (j, u) h in
    (i, refl, sym (ap (λ q. q.0) e), sym (ap (λ q. q.1) e))
updated_issuer-steps ikid n (err e) t u none j h = absurd (refuse h)
  where
    refuse : ◌≡◌ {A = Result (Issuer × Store)} (err e) (ok (j, u)) → ⊥
    refuse k = cc
updated_issuer-steps ikid n (ok i) t u none j h = elim (Bool-cases (str_eq i.skid ikid)) [
  | inl same ↦ absurd (refuse stale_crl_number (rw same at h))
  | inr other ↦ absurd (refuse (wrapped "crl ikid does not match issuer") (rw other at h))
]
  where
    refuse : (e : Error) → ◌≡◌ {A = Result (Issuer × Store)} (err e) (ok (j, u)) → ⊥
    refuse e k = cc

set_issuer_crl_number-steps :
    (down : String → Bool) (id : ℕ) (ikid : String) (n : ℕ) (s u : Store) (j : Issuer)
    → set_issuer_crl_number down id ikid n s ≡ ok (j, u)
    → (i : Issuer) × (find? (takes_number id ikid n) s.issuers ≡ some i)
      × (j ≡ record i { crl_number = n })
      × (u ≡ record s { issuers = map (set_crl_number id ikid n) s.issuers })
unfolding set_issuer_crl_number
set_issuer_crl_number-steps down id ikid n s u j h =
    updated_issuer-steps ikid n (get_issuer down id s)
      (record s { issuers = map (set_crl_number id ikid n) s.issuers }) u
      (find? (takes_number id ikid n) s.issuers) j
      ((bind_iff (no_error (down "SetIssuerCrlNumber")) _ (j, u)).0 h).2

abbrev stored_then : (String → Bool) → Crl → Store → Issuer × Store → Result (Crl × Store)
stored_then down m s q =
    let im = crl_of_issuer s.next_id m q.0 in
    no_error (not (crl_validate im) || down "PublishCrl") >>= λ _.
    ok (stored_crl im q.1.crls, record q.1 { crls = put_crl im q.1.crls; next_id = s.next_id + 1 })

-- what a PublishCrl that succeeds has done: an issuer had a smaller number, and takes it
abbrev pub PublishSteps : Crl → Store → Store → Crl → Issuer → Type 0
PublishSteps m s t c i =
    (find? (takes_number m.issuer_id m.ikid m.crl_number) s.issuers ≡ some i)
    × (c ≡ stored_crl (crl_of_issuer s.next_id m (record i { crl_number = m.crl_number })) s.crls)
    × (t ≡ record s {
      issuers = map (set_crl_number m.issuer_id m.ikid m.crl_number) s.issuers;
      crls = put_crl (crl_of_issuer s.next_id m (record i { crl_number = m.crl_number })) s.crls;
      next_id = s.next_id + 1;
    })

stored_then-steps :
    (down : String → Bool) (m : Crl) (s t : Store) (c : Crl) (i j : Issuer) (u : Store)
    → j ≡ record i { crl_number = m.crl_number }
    → u ≡ record s { issuers = map (set_crl_number m.issuer_id m.ikid m.crl_number) s.issuers }
    → stored_then down m s (j, u) ≡ ok (c, t)
    → (c ≡ stored_crl (crl_of_issuer s.next_id m (record i { crl_number = m.crl_number })) s.crls)
      × (t ≡ record s {
        issuers = map (set_crl_number m.issuer_id m.ikid m.crl_number) s.issuers;
        crls = put_crl (crl_of_issuer s.next_id m (record i { crl_number = m.crl_number })) s.crls;
        next_id = s.next_id + 1;
      })
stored_then-steps down m s t c i j u same left h =
    let stored =
      ok-injective _ (c, t)
        ((bind_iff
            (no_error (
              not
                (crl_validate (crl_of_issuer s.next_id m (record i { crl_number = m.crl_number })))
              || down "PublishCrl"))
            _ (c, t)).0
          (rw (same, left) at h)).2 in
    (sym (ap (λ z. z.0) stored), sym (ap (λ z. z.1) stored))

pub publish_crl-steps :
    (down : String → Bool) (m : Crl) (s t : Store) (c : Crl)
    → publish_crl down m s ≡ ok (c, t)
    → (i : Issuer) × PublishSteps m s t c i
unfolding publish_crl
publish_crl-steps down m s t c h = elim (Bool-cases (m.issuer_id == 0)) [
  | inl none_named ↦ absurd (refuse (wrapped "invalid issuer ID") (rw none_named at h))
  | inr named ↦ elim (Bool-cases (str_eq m.ikid "")) [
    | inl unkeyed ↦ absurd (refuse (wrapped "invalid ikid: required") (rw (named, unkeyed) at h))
    | inr keyed ↦
        let (q, numbered, rest) =
          (bind_iff (set_issuer_crl_number down m.issuer_id m.ikid m.crl_number s)
              (stored_then down m s) (c, t)).0
            (rw (named, keyed) at h) in
        let (i, f, same, left) =
          set_issuer_crl_number-steps down m.issuer_id m.ikid m.crl_number s q.1 q.0 numbered in
        let (is_stored, leaves) = stored_then-steps down m s t c i q.0 q.1 same left rest in
        (i, (f, is_stored, leaves))
  ]
]
  where
    refuse : (e : Error) → ◌≡◌ {A = Result (Crl × Store)} (err e) (ok (c, t)) → ⊥
    refuse e k = cc

-- a call on the CA tables that succeeds
pub data Step : Store → Store → Type 0 where
  publishes :
      {s t : Store} (down : String → Bool) (m c : Crl) → publish_crl down m s ≡ ok (c, t) → Step s t
  deletes :
      {s t : Store} (down : String → Bool) (org_id : ℕ) (ikid : String)
      → delete_crl down org_id ikid s ≡ ok (tt, t)
      → Step s t
  revokes :
      {s t : Store} (down : String → Bool) (now : ℕ) (req : RevokeRequest) (r : RevokedCertificate)
      → revoke_certificate down now req s ≡ ok (r, t)
      → Step s t

-- the calls of any number of callers, one after another
pub data Steps : Store → Store → Type 0 where
  none_yet : {s : Store} → Steps s s
  and_then : {s t u : Store} → Steps s t → Step t u → Steps s u

delete_crl-issuers :
    (down : String → Bool) (org_id : ℕ) (ikid : String) (s t : Store)
    → delete_crl down org_id ikid s ≡ ok (tt, t)
    → t.issuers ≡ s.issuers
unfolding delete_crl
delete_crl-issuers down org_id ikid s t h = sym (
    ap (λ q. q.1.issuers)
      (ok-injective _ (tt, t) ((bind_iff (no_error (down "DeleteCrl")) _ (tt, t)).0 h).2))

Step-AtLeast :
    (n id : ℕ) (ikid : String) {s t : Store}
    → Step s t
    → AtLeast n id ikid s.issuers
    → AtLeast n id ikid t.issuers
Step-AtLeast n id ikid {s} {t} (publishes down m c e) h =
    let (i, (_, _, left)) = publish_crl-steps down m s t c e in
    rw left (set-AtLeast n m.crl_number id m.issuer_id ikid m.ikid s.issuers h)
Step-AtLeast n id ikid {s} {t} (deletes down org_id k e) h =
    rw (delete_crl-issuers down org_id k s t e) h
Step-AtLeast n id ikid {s} {t} (revokes down now req r e) h =
    rw (revoke_certificate-issuers down now req s t r e) h

Steps-AtLeast :
    (n id : ℕ) (ikid : String) {s t : Store}
    → Steps s t
    → AtLeast n id ikid s.issuers
    → AtLeast n id ikid t.issuers
Steps-AtLeast n id ikid none_yet h = h
Steps-AtLeast n id ikid (and_then steps step) h =
    Step-AtLeast n id ikid step (Steps-AtLeast n id ikid steps h)

-- the CRL that the table has for a key identifier
abbrev pub IsCurrent : String → Crl → Store → Type 0
IsCurrent ikid c s = find? (λ x. str_eq x.ikid ikid) s.crls ≡ some c

-- a PublishCrl that succeeds leaves the row that it returns in the table, with the caller's number
publish_crl-IsCurrent :
    (down : String → Bool) (m c : Crl) (s t : Store)
    → publish_crl down m s ≡ ok (c, t)
    → IsCurrent m.ikid c t × (c.crl_number ≡ m.crl_number)
unfolding crl_of_issuer
publish_crl-IsCurrent down m c s t h =
    let (i, (_, is_stored, left)) = publish_crl-steps down m s t c h in
    let im = crl_of_issuer s.next_id m (record i { crl_number = m.crl_number }) in
    (
      rw (left, is_stored) (stored_crl-found im s.crls),
      ap (λ x. x.crl_number) is_stored ∙ (stored_crl-fields im s.crls).1,
    )

-- Two CRLs that PublishCrl stores for the same issuer and key identifier have growing numbers: each
-- is the table's CRL of the key identifier after its call, and the number of the later one is
-- greater, whatever calls that publish, delete CRLs and revoke certificates succeed in between, by
-- any callers.
pub publish_crl-grows :
    (down later_down : String → Bool) (m n c d : Crl) (s t u v : Store)
    → publish_crl down m s ≡ ok (c, t)
    → Steps t u
    → publish_crl later_down n u ≡ ok (d, v)
    → n.issuer_id ≡ m.issuer_id
    → n.ikid ≡ m.ikid
    → IsCurrent m.ikid c t × IsCurrent m.ikid d v × (c.crl_number < d.crl_number)
publish_crl-grows down later_down m n c d s t u v first steps second same_issuer same_key =
    let (_, (_, _, left)) = publish_crl-steps down m s t c first in
    let (j, (taken, _, _)) = publish_crl-steps later_down n u v d second in
    let reached : AtLeast m.crl_number m.issuer_id m.ikid t.issuers =
      rw left (set-reached m.crl_number m.issuer_id m.ikid s.issuers) in
    let less : m.crl_number < n.crl_number =
      find-greater m.crl_number n.crl_number m.issuer_id m.ikid u.issuers j
        (Steps-AtLeast m.crl_number m.issuer_id m.ikid steps reached)
        (rw (same_issuer, same_key) at taken) in
    let (now_c, number_c) = publish_crl-IsCurrent down m c s t first in
    let (now_d, number_d) = publish_crl-IsCurrent later_down n d u v second in
    (now_c, rw same_key at now_d, omega (arith, less, number_c, number_d))
