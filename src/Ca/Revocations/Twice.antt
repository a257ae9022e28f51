-- ===== src/Ca/Revocations/Twice.antt =====
-- A certificate is revoked once.
use Prim.Native.String.{len}
use mathlib.Core.Option.{some-injective, none-ne-some}
use trustyca.Base.{
  ltb, ℕ, ◌≡◌, ◌≢◌, ◌≤◌, ap, String, Bool, true, false, ◌&&◌, some, List, [], ◌∷◌, ◌==◌, map, find?,
  Bool-cases, inl, inr, arith,
}
use trustyca.Base.Status.{ok, err}
use trustyca.Ca.Rows.{
  Certificate, certificate_revoked, is_revoked, RevokedCertificate, max_len_for_name,
}
use trustyca.Ca.Store.{Store, already_revoked}
use trustyca.Ca.Revocations.{
  RevokeRequest, set_status, get_certificate_for_update, revoke_certificate,
}
use trustyca.Ca.Revocations.Effect.{revoke_certificate-steps}

set_status-fields :
    (id k org_id : ℕ) (c : Certificate)
    → ((set_status k certificate_revoked c).id == id
        && (set_status k certificate_revoked c).org_id == org_id)
      ≡ (c.id == id && c.org_id == org_id)
unfolding set_status
set_status-fields id k org_id c = elim (Bool-cases (c.id == k)) [ inl e ↦ rw e | inr e ↦ rw e ]

-- the certificate that was found is found again, with its status set
find-set_status :
    (id org_id : ℕ) (rows : List Certificate) (c : Certificate)
    → find? (λ d. d.id == id && d.org_id == org_id) rows ≡ some c
    → find? (λ d. d.id == id && d.org_id == org_id) (map (set_status c.id certificate_revoked) rows)
      ≡ some (set_status c.id certificate_revoked c)
find-set_status id org_id [] c h = absurd (none-ne-some _ h)
find-set_status id org_id (x ∷ rows) c h = elim (Bool-cases (x.id == id && x.org_id == org_id)) [
  | inl here ↦
      rw (set_status-fields id c.id org_id x, here)
        (ap (λ z. some (set_status c.id certificate_revoked z)) (some-injective x c (rw here at h)))
  | inr off ↦
      rw (set_status-fields id c.id org_id x, off) (find-set_status id org_id rows c (rw off at h))
]

set_status-is_revoked :
    (c : Certificate) → is_revoked (set_status c.id certificate_revoked c).status ≡ true
unfolding set_status
set_status-is_revoked c = let same : (c.id == c.id) ≡ true = ground arith in rw same

-- After a certificate was revoked, a revocation of the certificate of the same ID and org is
-- refused as already revoked, where its row can be read and its request is within the limits.
pub revoke_certificate-twice :
    (down later_down : String → Bool) (now later : ℕ) (req again : RevokeRequest) (s t : Store)
    (r : RevokedCertificate)
    → revoke_certificate down now req s ≡ ok (r, t)
    → again.certificate_id ≡ req.certificate_id
    → again.org_id ≡ req.org_id
    → req.certificate_id ≢ 0
    → len again.reason_text ≤ max_len_for_name
    → later_down "GetCertificateForUpdate" ≡ false
    → revoke_certificate later_down later again t ≡ err already_revoked
unfolding revoke_certificate get_certificate_for_update
revoke_certificate-twice down later_down now later req again s t r h same_id same_org named short
      up =
    let (crt, old, (is, _, _, _, _, left)) = revoke_certificate-steps down now req s t r h in
    let kept : find? (λ c. c.id == again.certificate_id && c.org_id == again.org_id) t.certificates
        ≡ some (set_status crt.id certificate_revoked crt) =
      rw (same_id, same_org, left)
        (find-set_status req.certificate_id req.org_id s.certificates crt is) in
    let a : (again.certificate_id == 0) ≡ false = ground (arith, same_id) in
    let b : ltb max_len_for_name (len again.reason_text) ≡ false = ground arith in
    rw (a, b, up, kept, set_status-is_revoked crt)
