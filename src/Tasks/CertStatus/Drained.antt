-- ===== src/Tasks/CertStatus/Drained.antt =====
-- server/tasks/certstatus: a run that no failure ends changes every certificate that is due.
use mathlib.Core.Path.{subst}
use native.Mathlib.Nat.{zero-mul, suc-mul}
use trustyca.Base.{
  ltb, leb, ℕ, zero, suc, ◌+◌, ◌-◌, ◌≡◌, ◌<◌, ◌≤◌, inl, inr, refl, sym, ap, ◌∙◌, String, Bool,
  false, not, List, [], ◌∷◌, ◌==◌, if◌then◌else◌, filter, length, any, Bool-cases, arith,
}
use Prim.Native.Nat.{◌*◌}
use trustyca.Base.Status.{Result, Done, ok}
use trustyca.Db.Pages.{take}
use trustyca.Ca.Rows.{Certificate}
use trustyca.Ca.Store.{Store}
use trustyca.Ca.Expiry.{
  insert_by_id, by_id, due, ended, expired, expire_first, delete_first, batch, expire_certificates,
  delete_expired_certificates,
}
use trustyca.Tasks.CertStatus.{
  batch_size, max_batches, RunResult, Batches, batches, after_expiry, retained, run,
}

-- how many rows pass a test
abbrev pub count : (Certificate → Bool) → List Certificate → ℕ
count p rows = length (filter p rows)

abbrev pub least : ℕ → ℕ → ℕ
least a b = if leb a b then a else b

length-take : {A : Type 0} → (n : ℕ) (xs : List A) → length (take n xs) ≡ least n (length xs)
length-take zero xs = ground arith
length-take (suc n) [] = ground arith
length-take (suc n) (x ∷ xs) = ground (arith, length-take n xs)

module _ (p : Certificate → Bool) where
  count-insert :
      (c : Certificate) (rows : List Certificate)
      → count p (insert_by_id c rows) ≡ count p (c ∷ rows)
  count-insert c [] = refl
  count-insert c (d ∷ rows) = ground (arith, count-insert c rows)

  count-by_id : (rows : List Certificate) → count p (by_id rows) ≡ count p rows
  count-by_id [] = refl
  count-by_id (c ∷ rows) = ground (arith, count-insert c (by_id rows), count-by_id rows)

  count-expire_first :
      ((c : Certificate) → p (expired c) ≡ false)
      → (n : ℕ) (rows : List Certificate) → count p (expire_first p n rows) ≡ count p rows - n
  unfolding expire_first
  count-expire_first off n [] = omega arith
  count-expire_first off zero (c ∷ rows) = omega arith
  count-expire_first off (suc n) (c ∷ rows) = elim (Bool-cases (p c)) [
    | inl e ↦ rw (e, off c) (omega (arith, count-expire_first off n rows))
    | inr e ↦ rw (e, e) (count-expire_first off (suc n) rows)
  ]

  count-delete_first :
      (n : ℕ) (rows : List Certificate) → count p (delete_first p n rows) ≡ count p rows - n
  unfolding delete_first
  count-delete_first n [] = omega arith
  count-delete_first zero (c ∷ rows) = omega arith
  count-delete_first (suc n) (c ∷ rows) = elim (Bool-cases (p c)) [
    | inl e ↦ rw e (omega (arith, count-delete_first n rows))
    | inr e ↦ rw (e, e) (count-delete_first (suc n) rows)
  ]

  count-delete_other :
      (q : Certificate → Bool) (n : ℕ) (rows : List Certificate)
      → count q (delete_first p n rows) ≤ count q rows
  unfolding delete_first
  count-delete_other q n [] = omega arith
  count-delete_other q zero (c ∷ rows) = omega arith
  count-delete_other q (suc n) (c ∷ rows) = elim (Bool-cases (p c)) [
    | inl e ↦ rw e (ground (arith, count-delete_other q n rows))
    | inr e ↦ rw e (ground (arith, count-delete_other q (suc n) rows))
  ]

  -- a test on what the expiry keeps
  count-expire_other :
      (q : Certificate → Bool)
      → ((c : Certificate) → q (expired c) ≡ q c)
      → (n : ℕ) (rows : List Certificate) → count q (expire_first p n rows) ≡ count q rows
  unfolding expire_first
  count-expire_other q same n [] = refl
  count-expire_other q same zero (c ∷ rows) = refl
  count-expire_other q same (suc n) (c ∷ rows) = elim (Bool-cases (p c)) [
    | inl e ↦ rw (e, same c) (ground (arith, count-expire_other q same n rows))
    | inr e ↦ rw e (ground (arith, count-expire_other q same (suc n) rows))
  ]

-- a statement that changes up to `size` of the rows that it counts, and relates the tables
abbrev Drains : (Store → Result (ℕ × Store)) → ℕ → (Store → ℕ) → (Store → Store → Type 0) → Type 0
Drains stmt size left Rel =
    (s : Store)
    → (t : Store) × (stmt s ≡ ok (least size (left s), t)) × (left t ≡ left s - size) × Rel s t

abbrev returned : ℕ → Store → Batches
returned n s = (ok tt, n, s)

module _ (stmt : Store → Result (ℕ × Store)) (size : ℕ) (left : Store → ℕ)
    (Rel : Store → Store → Type 0) (trans : (s t u : Store) → Rel s t → Rel t u → Rel s u)
    (drains : Drains stmt size left Rel) where
  batches-drain :
      (n total : ℕ) (s : Store)
      → left s < n * size
      → (t : Store) × (batches stmt size n total s ≡ (ok tt, total + left s, t))
        × (left t ≡ 0)
        × Rel s t
  unfolding batches
  batches-drain zero total s h = absurd (nothing (left s) (rw (zero-mul size) at h))
    where
      nothing : (k : ℕ) → k < 0 → ⊥
      nothing k h = omega (arith, h)
  batches-drain (suc n) total s h =
      let (t, e, d, o) = drains s in
      let room : left s < n * size + size = rw (suc-mul n size) at h in
      elim (Bool-cases (ltb (left s) size)) [
        | inl small ↦
            let part : least size (left s) ≡ left s = ground (arith, small) in
            let gone : left t ≡ 0 = ground (arith, d, small) in
            (t, rw (e, part, small) refl, gone, o)
        | inr full ↦
            let part : least size (left s) ≡ size = ground (arith, full) in
            let again : ltb size size ≡ false = ground arith in
            let fits : left t < n * size = ground (arith, d, full, room) in
            let (u, f, z, q) = batches-drain n (total + size) t fits in
            let sum : total + size + left t ≡ total + left s = ground (arith, d, full) in
            (u, rw (e, part, again) (f ∙ ap (λ k. returned k u) sum), z, trans s t u o q)
      ]

  -- from no rows changed
  batches-drained :
      (n : ℕ) (s : Store)
      → left s < n * size
      → (t : Store) × (batches stmt size n 0 s ≡ (ok tt, left s, t)) × (left t ≡ 0) × Rel s t
  batches-drained n s h =
      let (t, e, none_left, rel) = batches-drain n 0 s h in
      let sum : 0 + left s ≡ left s = omega arith in
      (t, e ∙ ap (λ k. returned k t) sum, none_left, rel)

-- what a run gives
abbrev pub Ran : Type 0
Ran = Result Done × RunResult × Store

abbrev pub ran : ℕ → ℕ → Store → Ran
ran expired deleted s = (ok tt, record { expired = expired; deleted = deleted }, s)

abbrev changed : ℕ → Store → Result (ℕ × Store)
changed n s = ok (n, s)

due-expired : (before : ℕ) (c : Certificate) → due before (expired c) ≡ false
unfolding due
due-expired before c = refl

ended-expired : (before : ℕ) (c : Certificate) → ended before (expired c) ≡ ended before c
unfolding ended
ended-expired before c = refl

-- the rows of a batch, counted
batch-count :
    (p : Certificate → Bool) (limit : ℕ) (s : Store)
    → length (batch p limit s) ≡ least limit (count p s.certificates)
unfolding batch
batch-count p limit s =
    length-take limit (filter p (by_id s.certificates))
    ∙ ap (least limit) (count-by_id p s.certificates)

module _ (down : String → Bool) where
  abbrev SameEnded : ℕ → Store → Store → Type 0
  SameEnded cutoff s t = count (ended cutoff) t.certificates ≡ count (ended cutoff) s.certificates

  abbrev FewerDue : ℕ → Store → Store → Type 0
  FewerDue now s t = count (due now) t.certificates ≤ count (due now) s.certificates

  expire-Drains :
      (before cutoff : ℕ)
      → (before == 0) ≡ false
      → down "ExpireCertificates" ≡ false
      → Drains
          (expire_certificates down before batch_size)
          batch_size
          (λ s. count (due before) s.certificates)
          (SameEnded cutoff)
  unfolding expire_certificates
  expire-Drains before cutoff set up s =
      let t : Store = record s {
        certificates = expire_first (due before) batch_size (by_id s.certificates);
      } in
      (
        t,
        rw (set, up) (ap (λ k. changed k t) (batch-count (due before) batch_size s)),
        count-expire_first (due before) (due-expired before) batch_size (by_id s.certificates)
            ∙ ap (λ k. k - batch_size) (count-by_id (due before) s.certificates),
        count-expire_other (due before) (ended cutoff) (ended-expired cutoff) batch_size
              (by_id s.certificates)
            ∙ count-by_id (ended cutoff) s.certificates,
      )

  delete-Drains :
      (before now : ℕ)
      → (before == 0) ≡ false
      → down "DeleteExpiredCertificates" ≡ false
      → Drains
          (delete_expired_certificates down before batch_size)
          batch_size
          (λ s. count (ended before) s.certificates)
          (FewerDue now)
  unfolding delete_expired_certificates
  delete-Drains before now set up s =
      let t : Store = record s {
        certificates = delete_first (ended before) batch_size (by_id s.certificates);
        revoked =
            filter
              (λ r. not (any (λ c. c.id == r.certificate_id) (batch (ended before) batch_size s)))
              s.revoked;
      } in
      (
        t,
        rw (set, up) (ap (λ k. changed k t) (batch-count (ended before) batch_size s)),
        count-delete_first (ended before) batch_size (by_id s.certificates)
            ∙ ap (λ k. k - batch_size) (count-by_id (ended before) s.certificates),
        subst (λ k. count (due now) t.certificates ≤ k) (count-by_id (due now) s.certificates)
            (count-delete_other (ended before) (due now) batch_size (by_id s.certificates)),
      )

  -- Where no statement fails, the retention ends after the zero time, and fewer certificates than
  -- the batches of a run can change have expired, a run ends without an error: it counts the active
  -- certificates that expired before the time as expired, those of any status that ended before the
  -- retention as deleted, and leaves none of either.
  pub run-drained :
      (retention now : ℕ) (s : Store)
      → down "ExpireCertificates" ≡ false
      → down "DeleteExpiredCertificates" ≡ false
      → 0 < retention
      → retention < now
      → count (due now) s.certificates < max_batches * batch_size
      → count (ended (now - retention)) s.certificates < max_batches * batch_size
      → (t : Store) × (run down retention now s
          ≡ ran (count (due now) s.certificates) (count (ended (now - retention)) s.certificates) t)
        × (count (due now) t.certificates ≡ 0)
        × (count (ended (now - retention)) t.certificates ≡ 0)
  unfolding run
  run-drained retention now s up up_delete keep past due_room ended_room =
      let cutoff : ℕ = now - retention in
      let now_set : (now == 0) ≡ false = ground (arith, past) in
      let cutoff_set : (cutoff == 0) ≡ false = ground (arith, past) in
      let keeps : (retention == 0) ≡ false = ground (arith, keep) in
      let (t, e, none_due, others) =
        batches-drained (expire_certificates down now batch_size) batch_size
          (λ s. count (due now) s.certificates) (SameEnded cutoff) (λ s t u o q. q ∙ o)
          (expire-Drains now cutoff now_set up) max_batches s due_room in
      let (u, f, none_ended, fewer) =
        batches-drained (delete_expired_certificates down cutoff batch_size) batch_size
          (λ s. count (ended cutoff) s.certificates) (FewerDue now)
          (λ s t u o q. omega (arith, o, q)) (delete-Drains cutoff now cutoff_set up_delete)
          max_batches t (subst (λ k. k < max_batches * batch_size) (sym others) ended_room) in
      (
        u,
        ap (after_expiry down retention now) e
            ∙ rw keeps (
                ap (retained down retention now (count (due now) s.certificates)) f
                ∙ ap (λ k. ran (count (due now) s.certificates) k u) others),
        omega (arith, fewer, none_due),
        none_ended,
      )
