-- ===== src/Ca/Crl/Counts.antt =====
-- internal/ca/crl.go: CountCrls, the states of the CRLs of a scope, and what it counts.
use trustyca.Base.{
  ltb, ℕ, ◌+◌, ◌≡◌, refl, String, Bool, true, false, not, List, [], ◌∷◌, ◌==◌, if◌then◌else◌,
  filter, length, Bool-cases, inl, inr, arith,
}
use mathlib.Core.Path.{subst}
use trustyca.Base.Status.{Result, ok, ◌>>=◌, bind_iff, ok-injective}
use trustyca.Ca.Crl.{expired_at, crl_due_at}

-- CrlState; a CRL that the issuer has not published has the next update 0
pub record CrlState : Type 0 where
  pub id : ℕ
  pub label : String
  pub skid : String
  pub not_after : ℕ
  pub config : String
  pub next_update : ℕ

-- CrlCounts
pub record CrlCounts : Type 0 where
  pub issuers : ℕ
  pub current : ℕ
  pub due : ℕ
  pub overdue : ℕ
  pub missing : ℕ

abbrev pub no_crls : CrlCounts
no_crls = record { issuers = 0; current = 0; due = 0; overdue = 0; missing = 0 }

abbrev pub count_due : CrlCounts → Bool → CrlCounts
count_due c true = record c { due = c.due + 1 }
count_due c false = record c { current = c.current + 1 }

module _ (renewal_of : String → Result ℕ) (now : ℕ) where
  -- the switch of CountCrls, after the issuer was counted
  unfoldable pub classify : CrlState → CrlCounts → Result CrlCounts
  classify state c =
      if state.next_update == 0
      then ok (record c { missing = c.missing + 1 })
      else if not (ltb now state.next_update)
      then ok (record c { overdue = c.overdue + 1 })
      else (renewal_of state.config >>= λ renewal.
          ok (count_due c (crl_due_at state.next_update renewal now)))

  -- the loop of CountCrls, from the counts so far
  unfoldable pub count_from : List CrlState → CrlCounts → Result CrlCounts
  count_from [] c = ok c
  count_from (state ∷ states) c =
      if expired_at state.not_after now
      then count_from states c
      else (classify state (record c { issuers = c.issuers + 1 }) >>= λ d. count_from states d)

  -- CountCrls
  unfoldable pub count_crls : List CrlState → Result CrlCounts
  count_crls states = count_from states no_crls

  -- the issuers whose certificate is valid
  abbrev pub valid_issuers : List CrlState → ℕ
  valid_issuers states = length (filter (λ s. not (expired_at s.not_after now)) states)

  -- the issuers are the sum of the others
  abbrev pub Sums : CrlCounts → Type 0
  Sums c = c.issuers ≡ c.current + c.due + c.overdue + c.missing

  -- one state is counted once
  classify-Sums :
      (state : CrlState) (c d : CrlCounts)
      → Sums c
      → classify state (record c { issuers = c.issuers + 1 }) ≡ ok d
      → Sums d × (d.issuers ≡ c.issuers + 1)
  unfolding classify
  classify-Sums state c d sums h = elim (Bool-cases (state.next_update == 0)) [
    | inl none_yet ↦ moved (ok-injective _ d (rw none_yet at h)) (omega (arith, sums), refl)
    | inr some_crl ↦ elim (Bool-cases (ltb now state.next_update)) [
      | inr over ↦ moved (ok-injective _ d (rw (some_crl, over) at h)) (omega (arith, sums), refl)
      | inl ahead ↦
          let (renewal, _, e) =
            (bind_iff (renewal_of state.config) _ d).0 (rw (some_crl, ahead) at h) in
          elim (Bool-cases (crl_due_at state.next_update renewal now)) [
            | inl due ↦ moved (ok-injective _ d (rw due at e)) (omega (arith, sums), refl)
            | inr later ↦ moved (ok-injective _ d (rw later at e)) (omega (arith, sums), refl)
          ]
    ]
  ]
    where
      moved :
          {e f : CrlCounts}
          → e ≡ f
          → Sums e × (e.issuers ≡ c.issuers + 1)
          → Sums f × (f.issuers ≡ c.issuers + 1)
      moved p k = subst (λ z. Sums z × (z.issuers ≡ c.issuers + 1)) p k

  count_from-Sums :
      (states : List CrlState) (c d : CrlCounts)
      → Sums c
      → count_from states c ≡ ok d
      → Sums d × (d.issuers ≡ c.issuers + valid_issuers states)
  unfolding count_from
  count_from-Sums [] c d sums h =
      subst (λ z. Sums z × (z.issuers ≡ c.issuers + 0)) (ok-injective c d h) (sums, omega arith)
  count_from-Sums (state ∷ states) c d sums h = elim (Bool-cases (expired_at state.not_after now)) [
    | inl expired ↦ rw expired (count_from-Sums states c d sums (rw expired at h))
    | inr valid ↦
        let (e, counted, rest) =
          (bind_iff (classify state (record c { issuers = c.issuers + 1 }))
              (λ d. count_from states d) d).0
            (rw valid at h) in
        let (sums_e, one) = classify-Sums state c e sums counted in
        let (sums_d, total) = count_from-Sums states e d sums_e rest in
        rw valid (sums_d, omega (arith, total, one))
  ]

  -- The counts of CountCrls are of the issuers whose certificate is valid: they are as many as
  -- those states, and each of them is counted once, as current, due, overdue or missing.
  pub count_crls-Sums :
      (states : List CrlState) (c : CrlCounts)
      → count_crls states ≡ ok c
      → (c.issuers ≡ c.current + c.due + c.overdue + c.missing) × (c.issuers ≡ valid_issuers states)
  unfolding count_crls
  count_crls-Sums states c h =
      let (sums, total) = count_from-Sums states no_crls c refl h in (sums, omega (arith, total))
