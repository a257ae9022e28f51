-- ===== src/Ca/Crl/Bounds.antt =====
-- The CRL that a publisher stores: its times, and its place in the tables.
use trustyca.Ca.Errors.{issuer_has_expired}
use mathlib.Core.Path.{subst}
use text.Mathlib.Text.{◌==◌ as str_eq}
use text.Mathlib.TextEquality.{eq_iff}
use trustyca.Base.{
  ltb, ℕ, ◌+◌, ◌≡◌, ◌<◌, ◌≤◌, refl, some, List, [], ◌∷◌, find?, Bool-cases, inl, inr, arith,
}
use trustyca.Base.Status.{Result, ok, err, bind_iff, ok-injective}
use trustyca.Ca.Rows.{Issuer, Crl}
use trustyca.Ca.Store.{Store, replace_crl, put_crl, stored_crl}
use trustyca.Ca.Crl.{Publisher, Loaded, Template, next_update_at, built_crl, build_crl, crl_entries}

next_update_at-le :
    (issuer : Loaded) (now : ℕ)
    → (next_update_at issuer now ≤ issuer.not_after)
      × (next_update_at issuer now ≤ now + issuer.crl_expiry)
unfolding next_update_at
next_update_at-le issuer now = (ground arith, ground arith)

-- what a CRL that was built says: it starts at the time, and ends after it, within the validity of
-- the issuer's certificate and the CRL expiry
abbrev pub WithinValidity : Loaded → ℕ → ℕ → ℕ → Type 0
WithinValidity issuer now this_update next_update =
    (this_update ≡ now)
    × (now < next_update)
    × (next_update ≤ issuer.not_after)
    × (next_update ≤ now + issuer.crl_expiry)

module _ (p : Publisher) (issuer : Loaded) where
  -- The CRL that is built for a row has the number and the row's key identifier; it starts at the
  -- time and its next update is later, but not after the end of the issuer's certificate and not
  -- later than the CRL expiry of the issuer.
  pub build_crl-bounds :
      (row : Issuer) (number now : ℕ) (s : Store) (crl : Crl)
      → build_crl p issuer row number now s ≡ ok crl
      → (crl.crl_number ≡ number)
        × (crl.ikid ≡ row.skid)
        × (crl.issuer_id ≡ row.id)
        × WithinValidity issuer now crl.this_update crl.next_update
  unfolding build_crl built_crl
  build_crl-bounds row number now s crl h =
      let (entries, _, rest) = (bind_iff (crl_entries p row.skid now s) _ crl).0 h in
      elim (Bool-cases (ltb now (next_update_at issuer now))) [
        | inr late ↦ absurd (refuse (rw late at rest))
        | inl early ↦
            let t : Template = record {
              number = number;
              this_update = now;
              next_update = next_update_at issuer now;
              entries = entries;
            } in
            let (pem, _, e) =
              (bind_iff (p.sign row t) (λ pem. ok (built_crl row t pem)) crl).0
                (rw early at rest) in
            let is = ok-injective (built_crl row t pem) crl e in
            subst
              (λ z.
                (z.crl_number ≡ number)
                × (z.ikid ≡ row.skid)
                × (z.issuer_id ≡ row.id)
                × WithinValidity issuer now z.this_update z.next_update)
              is
              (
                refl,
                refl,
                refl,
                (
                  refl,
                  ground arith,
                  (next_update_at-le issuer now).0,
                  (next_update_at-le issuer now).1,
                ),
              )
      ]
    where
      refuse : ◌≡◌ {A = Result Crl} (err issuer_has_expired) (ok crl) → ⊥
      refuse e = cc

pub stored_crl-fields :
    (n : Crl) (crls : List Crl)
    → ((stored_crl n crls).ikid ≡ n.ikid)
      × ((stored_crl n crls).crl_number ≡ n.crl_number)
      × ((stored_crl n crls).this_update ≡ n.this_update)
      × ((stored_crl n crls).next_update ≡ n.next_update)
unfolding replace_crl
stored_crl-fields n [] = (refl, refl, refl, refl)
stored_crl-fields n (c ∷ crls) = elim (Bool-cases (str_eq c.ikid n.ikid)) [
  | inl e ↦ rw e ((eq_iff c.ikid n.ikid).0 e, refl, refl, refl)
  | inr e ↦ rw e (stored_crl-fields n crls)
]

pub stored_crl-found :
    (n : Crl) (crls : List Crl)
    → find? (λ c. str_eq c.ikid n.ikid) (put_crl n crls) ≡ some (stored_crl n crls)
unfolding replace_crl
stored_crl-found n [] = rw ((eq_iff n.ikid n.ikid).1 refl)
stored_crl-found n (c ∷ crls) = elim (Bool-cases (str_eq c.ikid n.ikid)) [
  | inl e ↦ rw (e, e)
  | inr e ↦ rw (e, e) (stored_crl-found n crls)
]
