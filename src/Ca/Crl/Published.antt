-- ===== src/Ca/Crl/Published.antt =====
-- What a publisher that returns a CRL as published has done.
use trustyca.Ca.Errors.{issuer_has_expired, issuer_not_active}
use mathlib.Core.Path.{subst}
use text.Mathlib.Text.{◌==◌ as str_eq}
use trustyca.Base.{
  ℕ, zero, suc, ◌+◌, ◌≡◌, ◌<◌, ◌≤◌, refl, sym, ◌∙◌, ap, Bool, true, false, not, ◌&&◌, ◌||◌, Option,
  some, ◌==◌, find?, Bool-cases, inl, inr,
}
use trustyca.Base.Status.{Result, Error, ok, err, ok-injective}
use trustyca.Ca.Rows.{Issuer, Crl}
use trustyca.Ca.Store.{Store, crl_of_issuer, put_crl, stored_crl, publish_crl, get_issuer}
use trustyca.Ca.Crl.{
  Publisher, Loaded, build_crl, Publishes, attempts, publish_attempts, after_build, after_store,
  row_again, current_again, is_stale, publish, after_renewal, after_load, current_crl, crl_due,
  publishes, issuer_expired,
}
use trustyca.Ca.Crl.Numbers.{publish_crl-steps}
use trustyca.Ca.Crl.Bounds.{WithinValidity, build_crl-bounds, stored_crl-fields, stored_crl-found}

module _ (p : Publisher) where
  -- the outcome of a failure, or of a CRL that is not due, is no published CRL
  failed :
      (e : Error) (s t : Store) (o : Option Crl)
      → ◌≡◌ {A = Publishes p} (err e, s) (ok (o, true), t)
      → ⊥
  failed e s t o h = refuse (ap (λ q. q.0) h)
    where
      refuse : ◌≡◌ {A = Result (Option Crl × Bool)} (err e) (ok (o, true)) → ⊥
      refuse k = cc

  current :
      (c o : Option Crl) (s t : Store)
      → ◌≡◌ {A = Publishes p} (ok (c, false), s) (ok (o, true), t)
      → ⊥
  current c o s t h = refuse (ap (λ q. q.1) (ok-injective (c, false) (o, true) (ap (λ q. q.0) h)))
    where
      refuse : false ≡ true → ⊥
      refuse k = cc

  -- the CRL was built for a row, with the row's number and one, and stored
  abbrev pub Built : Loaded → ℕ → Crl → Store → Type 0
  Built issuer now c t =
      (row : Issuer) × (m : Crl) × (s : Store) × (u : Store) × (build_crl p issuer row
          (row.crl_number + 1) now s
        ≡ ok m)
      × (publish_crl p.down m u ≡ ok (c, t))

  module _ (others : ℕ → Store → Store) (force : Bool) (renewal now : ℕ) (issuer : Loaded) where
    abbrev Goal : Option Crl → Store → Type 0
    Goal o t = (c : Crl) × (o ≡ some c) × Built issuer now c t

    module _ (o : Option Crl) (t : Store) (again : Issuer → Store → Publishes p)
        (later : (row : Issuer) (s : Store) → again row s ≡ (ok (o, true), t) → Goal o t) where
      again-published :
          (row : Issuer) (s : Store) (r : Result (Option Crl))
          → current_again p others force renewal now issuer (again row) s r ≡ (ok (o, true), t)
          → Goal o t
      again-published row s (err e) h = absurd (failed e s t o h)
      again-published row s (ok c) h =
          elim (Bool-cases (not force && not (crl_due c renewal now))) [
            | inl kept ↦ absurd (current c o s t (rw kept at h))
            | inr due ↦ later row s (rw due at h)
          ]

      row-published :
          (s : Store) (r : Result Issuer)
          → row_again p others force renewal now issuer again s r ≡ (ok (o, true), t)
          → Goal o t
      row-published s (err e) h = absurd (failed _ s t o h)
      row-published s (ok row) h = elim (Bool-cases (publishes row.status)) [
        | inl active ↦ again-published row s (current_crl p row.skid s) (rw active at h)
        | inr gone ↦ absurd (failed issuer_not_active s t o (rw gone at h))
      ]

      store-published :
          (last : Bool) (row old : Issuer) (m : Crl) (s u : Store) (r : Result (Crl × Store))
          → build_crl p issuer old (old.crl_number + 1) now s ≡ ok m
          → publish_crl p.down m u ≡ r
          → after_store p others force renewal now issuer again last row u r ≡ (ok (o, true), t)
          → Goal o t
      store-published last row old m s u (ok (c, v)) built stored h =
          let left : v ≡ t = ap (λ q. q.1) h in
          let is = ap (λ q. q.0) (ok-injective (some c, true) (o, true) (ap (λ q. q.0) h)) in
          (
            c,
            sym is,
            (old, m, s, u, built, subst (λ z. publish_crl p.down m u ≡ ok (c, z)) left stored),
          )
      store-published last row old m s u (err e) built stored h =
          elim (Bool-cases (not (is_stale p others force renewal now issuer e) || last)) [
            | inl stop ↦ absurd (failed _ u t o (rw stop at h))
            | inr stale ↦ row-published u (get_issuer p.down row.id u) (rw stale at h)
          ]

      build-published :
          (last : Bool) (row : Issuer) (s u : Store) (r : Result Crl)
          → build_crl p issuer row (row.crl_number + 1) now s ≡ r
          → after_build p others force renewal now issuer again last row s u r ≡ (ok (o, true), t)
          → Goal o t
      build-published last row s u (err e) built h = absurd (failed e s t o h)
      build-published last row s u (ok m) built h =
          store-published last row row m s u (publish_crl p.down m u) built refl h

    attempts-published :
        (left : ℕ) (row : Issuer) (s t : Store) (o : Option Crl)
        → attempts p others force renewal now issuer left row s ≡ (ok (o, true), t)
        → Goal o t
    unfolding attempts
    attempts-published zero row s t o h = absurd (failed _ s t o h)
    attempts-published (suc left) row s t o h =
        build-published o t (attempts p others force renewal now issuer left)
          (λ row s. attempts-published left row s t o) (left == 0) row s (others left s) _ refl h

  -- the CRL that a PublishCrl returns is the current one of its key identifier
  publish_crl-current :
      (m c : Crl) (u t : Store)
      → publish_crl p.down m u ≡ ok (c, t)
      → (find? (λ d. str_eq d.ikid c.ikid) t.crls ≡ some c)
        × (c.ikid ≡ m.ikid)
        × (c.this_update ≡ m.this_update)
        × (c.next_update ≡ m.next_update)
  unfolding crl_of_issuer
  publish_crl-current m c u t h =
      let (i, (_, is, left)) = publish_crl-steps p.down m u t c h in
      let n = crl_of_issuer u.next_id m (record i { crl_number = m.crl_number }) in
      let (key, _, this, next) = stored_crl-fields n u.crls in
      let found : find? (λ d. str_eq d.ikid (stored_crl n u.crls).ikid) (put_crl n u.crls)
          ≡ some (stored_crl n u.crls) =
        subst (λ z. find? (λ d. str_eq d.ikid z) (put_crl n u.crls) ≡ some (stored_crl n u.crls))
          (sym key) (stored_crl-found n u.crls) in
      (
        subst (λ z. find? (λ d. str_eq d.ikid c.ikid) z.crls ≡ some c) (sym left)
            (subst (λ z. find? (λ d. str_eq d.ikid z.ikid) (put_crl n u.crls) ≡ some z) (sym is)
              found),
        ap (λ z. z.ikid) is ∙ key,
        ap (λ z. z.this_update) is ∙ this,
        ap (λ z. z.next_update) is ∙ next,
      )

  after_load-published :
      (others : ℕ → Store → Store) (force : Bool) (renewal now : ℕ) (row : Issuer) (s t : Store)
      (o : Option Crl) (r : Result Loaded)
      → after_load p others force renewal now row s r ≡ (ok (o, true), t)
      → (issuer : Loaded) × (c : Crl) × (r ≡ ok issuer) × (o ≡ some c) × Built issuer now c t
  after_load-published others force renewal now row s t o (err e) h = absurd (failed e s t o h)
  after_load-published others force renewal now row s t o (ok issuer) h =
      let (c, is, built) =
        attempts-published others force renewal now issuer publish_attempts row s t o h in
      (issuer, c, refl, is, built)

  after_renewal-published :
      (others : ℕ → Store → Store) (force : Bool) (now : ℕ) (row : Issuer) (k : Option Crl)
      (s t : Store) (o : Option Crl) (r : Result ℕ)
      → after_renewal p others force now row k s r ≡ (ok (o, true), t)
      → (issuer : Loaded) × (c : Crl) × (p.load row ≡ ok issuer)
        × (o ≡ some c)
        × Built issuer now c t
  after_renewal-published others force now row k s t o (err e) h = absurd (failed e s t o h)
  after_renewal-published others force now row k s t o (ok renewal) h =
      elim (Bool-cases (not force && not (crl_due k renewal now))) [
        | inl kept ↦ absurd (current k o s t (rw kept at h))
        | inr due ↦
            after_load-published others force renewal now row s t o (p.load row) (rw due at h)
      ]

  -- Whatever other publishers do to the tables between the attempts, a publish that returns a CRL
  -- as published leaves it as the current CRL of its key identifier, the certificate of the issuer
  -- had not expired, and the CRL starts at the time of the publish, its next update is after it,
  -- and not after the end of the certificate of the issuer or the CRL expiry.
  pub publish-published :
      (others : ℕ → Store → Store) (force : Bool) (now : ℕ) (row : Issuer) (k : Option Crl)
      (s t : Store) (o : Option Crl)
      → publish p others force now row k s ≡ (ok (o, true), t)
      → (issuer : Loaded) × (c : Crl) × (p.load row ≡ ok issuer)
        × (o ≡ some c)
        × (find? (λ d. str_eq d.ikid c.ikid) t.crls ≡ some c)
        × (issuer_expired row now ≡ false)
        × WithinValidity issuer now c.this_update c.next_update
  unfolding publish
  publish-published others force now row k s t o h = elim (Bool-cases (issuer_expired row now)) [
    | inl expired ↦ absurd (failed issuer_has_expired s t o (rw expired at h))
    | inr valid ↦
        let (issuer, c, loaded, is, (old, m, v, u, built, stored)) =
          after_renewal-published others force now row k s t o (p.renewal_of row.config)
            (rw valid at h) in
        let (found, _, this, next) = publish_crl-current m c u t stored in
        let (_, _, _, within) = build_crl-bounds p issuer old (old.crl_number + 1) now v m built in
        (
          issuer,
          c,
          loaded,
          is,
          found,
          valid,
          (
            this ∙ within.0,
            subst (λ z. now < z) (sym next) within.1,
            subst (λ z. z ≤ issuer.not_after) (sym next) within.2,
            subst (λ z. z ≤ now + issuer.crl_expiry) (sym next) within.3,
          ),
        )
  ]
