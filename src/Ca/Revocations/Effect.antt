-- ===== src/Ca/Revocations/Effect.antt =====
-- What a revocation that succeeds leaves in the tables, and which certificates it refuses.
use Prim.Native.String.{len}
use trustyca.Base.{
  ltb, ℕ, ◌+◌, ◌≡◌, sym, ap, String, Bool, true, false, not, ◌&&◌, ◌||◌, Option, none, some, [],
  ◌∷◌, ◌==◌, ◌++◌, if◌then◌else◌, map, find?, Bool-cases, inl, inr,
}
use mathlib.Core.Path.{subst, ◌∙◌}
use trustyca.Base.Status.{
  Result, Error, ok, err, grpc, wrapped, not_found, ◌>>=◌, bind_iff, ok-injective,
}
use trustyca.Db.Tables.{found, no_error}
use trustyca.Ca.Rows.{
  Certificate, CertificateStatus, certificate_revoked, is_revoked, Revoked, RevokedCertificate,
  new_revoked_certificate, revoked_validate, max_len_for_name,
}
use trustyca.Ca.Store.{Store, already_revoked}
use trustyca.Ca.Revocations.{
  RevokeRequest, revocation, set_status, get_certificate_for_update, register_revoked,
  update_certificate_status, revoke_certificate,
}

pub found-some : {A : Type 0} (o : Option A) (a : A) → found o ≡ ok a → o ≡ some a
found-some {A = A} none a h = absurd (refuse h)
  where
    refuse : ◌≡◌ {A = Result A} (err (grpc not_found "not found")) (ok a) → ⊥
    refuse e = cc
found-some (some b) a h = ap some (ok-injective b a h)

-- the calls of a RevokeCertificate that succeeds
abbrev pub RevokeSteps :
    ℕ → RevokeRequest → Store → Store → RevokedCertificate → Certificate → Certificate → Type 0
RevokeSteps now req s t r crt old =
    (find? (λ c. c.id == req.certificate_id && c.org_id == req.org_id) s.certificates ≡ some crt)
    × (is_revoked crt.status ≡ false)
    × (revoked_validate (revocation s.next_id now req crt) ≡ true)
    × (find? (λ c. c.id == crt.id) s.certificates ≡ some old)
    × (r
        ≡ new_revoked_certificate (record old { status = certificate_revoked })
            (revocation s.next_id now req crt))
    × (t ≡ record s {
      certificates = map (set_status crt.id certificate_revoked) s.certificates;
      revoked = s.revoked ++ (revocation s.next_id now req crt ∷ []);
      next_id = s.next_id + 1;
    })

-- the tables with the status of the certificate set
abbrev with_certificates : ℕ → Store → Store
with_certificates id u = record u {
  certificates = map (set_status id certificate_revoked) u.certificates;
}

module _ (down : String → Bool) where
  register_revoked-steps :
      (m : Revoked) (s u : Store) (q : Revoked)
      → register_revoked down m s ≡ ok (q, u)
      → (revoked_validate m ≡ true)
        × (q ≡ m)
        × (u ≡ record s { revoked = s.revoked ++ (m ∷ []); next_id = s.next_id + 1 })
  unfolding register_revoked
  register_revoked-steps m s u q h = elim (Bool-cases (revoked_validate m)) [
    | inl valid ↦
        let e =
          ok-injective _ (q, u)
            ((bind_iff (no_error (not (revoked_validate m) || down "RegisterRevoked")) _ (q, u)).0
              h).2 in
        (valid, sym (ap (λ z. z.0) e), sym (ap (λ z. z.1) e))
    | inr invalid ↦ absurd (refuse (rw invalid at h))
  ]
    where
      refuse : ◌≡◌ {A = Result (Revoked × Store)} (err (wrapped "failed")) (ok (q, u)) → ⊥
      refuse k = cc

  update_certificate_status-steps :
      (id : ℕ) (status : CertificateStatus) (s t : Store) (c : Certificate)
      → update_certificate_status down id status s ≡ ok (c, t)
      → (old : Certificate) × (find? (λ d. d.id == id) s.certificates ≡ some old)
        × (c ≡ record old { status = status })
        × (t ≡ record s { certificates = map (set_status id status) s.certificates })
  unfolding update_certificate_status
  update_certificate_status-steps id status s t c h =
      let (old, f, e) =
        (bind_iff (found (find? (λ d. d.id == id) s.certificates)) _ (c, t)).0
          ((bind_iff (no_error (down "UpdateCertificateStatus")) _ (c, t)).0 h).2 in
      let same = ok-injective _ (c, t) e in
      (
        old,
        found-some (find? (λ d. d.id == id) s.certificates) old f,
        sym (ap (λ z. z.0) same),
        sym (ap (λ z. z.1) same),
      )

  abbrev updated_then : Revoked → Certificate × Store → Result (RevokedCertificate × Store)
  updated_then m q = ok (new_revoked_certificate q.0 m, q.1)

  abbrev registered_then : Certificate → Revoked × Store → Result (RevokedCertificate × Store)
  registered_then crt q =
      update_certificate_status down crt.id certificate_revoked q.1 >>= updated_then q.0

  abbrev found_then : ℕ → RevokeRequest → Store → Certificate → Result (RevokedCertificate × Store)
  found_then now req s crt =
      if is_revoked crt.status
      then err already_revoked
      else (register_revoked down (revocation s.next_id now req crt) s >>= registered_then crt)

  registered_then-steps :
      (u t : Store) (r : RevokedCertificate) (crt : Certificate) (m : Revoked)
      → registered_then crt (m, u) ≡ ok (r, t)
      → (old : Certificate) × (find? (λ c. c.id == crt.id) u.certificates ≡ some old)
        × (r ≡ new_revoked_certificate (record old { status = certificate_revoked }) m)
        × (t ≡ record u {
          certificates = map (set_status crt.id certificate_revoked) u.certificates;
        })
  registered_then-steps u t r crt m h =
      let (q, updated, e) =
        (bind_iff (update_certificate_status down crt.id certificate_revoked u) (updated_then m)
            (r, t)).0
          h in
      let (old, f, k, after) =
        update_certificate_status-steps crt.id certificate_revoked u q.1 q.0 updated in
      let is = ok-injective _ (r, t) e in
      (
        old,
        f,
        sym (ap (λ z. z.0) is) ∙ ap (λ c. new_revoked_certificate c m) k,
        sym (ap (λ z. z.1) is) ∙ after,
      )

  pub revoke_certificate-steps :
      (now : ℕ) (req : RevokeRequest) (s t : Store) (r : RevokedCertificate)
      → revoke_certificate down now req s ≡ ok (r, t)
      → (crt : Certificate) × (old : Certificate) × RevokeSteps now req s t r crt old
  unfolding revoke_certificate get_certificate_for_update
  revoke_certificate-steps now req s t r h = elim (Bool-cases (req.certificate_id == 0)) [
    | inl unnamed ↦ absurd (refuse (wrapped "certificate ID is required") (rw unnamed at h))
    | inr named ↦ elim (Bool-cases (ltb max_len_for_name (len req.reason_text))) [
      | inl long ↦ absurd (refuse (wrapped "invalid reason text length") (rw (named, long) at h))
      | inr short ↦
          let (crt, f, rest) =
            (bind_iff (get_certificate_for_update down req.certificate_id req.org_id s)
                (found_then now req s) (r, t)).0
              (rw (named, short) at h) in
          elim (Bool-cases (is_revoked crt.status)) [
            | inl again ↦ absurd (refuse already_revoked (rw again at rest))
            | inr first ↦
                let (q, g, last) =
                  (bind_iff (register_revoked down (revocation s.next_id now req crt) s)
                      (registered_then crt) (r, t)).0
                    (rw first at rest) in
                let (valid, same, left) =
                  register_revoked-steps (revocation s.next_id now req crt) s q.1 q.0 g in
                let (old, is_old, is, leaves) = registered_then-steps q.1 t r crt q.0 last in
                (
                  crt,
                  old,
                  (
                    found-some _ crt
                        ((bind_iff (no_error (down "GetCertificateForUpdate")) _ crt).0 f).2,
                    first,
                    valid,
                    subst (λ z. find? (λ c. c.id == crt.id) z.certificates ≡ some old) left is_old,
                    is
                        ∙ ap (new_revoked_certificate (record old { status = certificate_revoked }))
                            same,
                    leaves ∙ ap (with_certificates crt.id) left,
                  ),
                )
          ]
    ]
  ]
    where
      refuse : (e : Error) → ◌≡◌ {A = Result (RevokedCertificate × Store)} (err e) (ok (r, t)) → ⊥
      refuse e k = cc

  pub revoke_certificate-issuers :
      (now : ℕ) (req : RevokeRequest) (s t : Store) (r : RevokedCertificate)
      → revoke_certificate down now req s ≡ ok (r, t)
      → t.issuers ≡ s.issuers
  revoke_certificate-issuers now req s t r h =
      let (crt, old, steps) = revoke_certificate-steps now req s t r h in
      ap (λ z. z.issuers) steps.5
