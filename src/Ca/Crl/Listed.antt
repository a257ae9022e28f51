-- ===== src/Ca/Crl/Listed.antt =====
-- A revoked certificate is in every later CRL of its issuer until it expires.
use mathlib.Core.Path.{subst}
use mathlib.Core.Option.{some-injective}
use text.Mathlib.TextEquality.{eq_iff}
use trustyca.Base.{
  ℕ, ◌≡◌, ◌≢◌, ◌<◌, refl, sym, ◌∙◌, ap, String, Bool, true, false, ◌&&◌, Option, none, some, List,
  [], ◌∷◌, ◌==◌, find?, find?-Any, All, Any, Any-map, Any-append, Any-All, Any-fact, Bool-cases,
  inl, inr, arith,
}
use trustyca.Base.Status.{Result, ok, err, wrapped, bind_iff, ok-injective}
use trustyca.Db.Cursor.RoundTrip.{CodecLaws}
use trustyca.Db.Pages.Order.{Distinct}
use trustyca.Db.Pages.Walk.{PagingLaws}
use trustyca.Db.Tables.{no_error}
use trustyca.Ca.Rows.{
  Certificate, Revoked, RevokedCertificate, revoked_validate, validate_length,
  new_revoked_certificate,
}
use trustyca.Ca.Store.{Store, delete_crl}
use trustyca.Ca.Revocations.{RevokeRequest, revocation, revoke_certificate}
use trustyca.Ca.Revocations.Effect.{revoke_certificate-steps}
use trustyca.Ca.Crl.{ℤ, Publisher, Entry, entry_of, serial_read, crl_entries}
use trustyca.Ca.Crl.Numbers.{
  Step, Steps, publishes, deletes, revokes, none_yet, and_then, publish_crl-steps,
}
use trustyca.Ca.Crl.Entries.{crl_entries-listed}

-- the certificate of the ID and org is the certificate of its ID
find-by_id :
    (id org_id : ℕ) (rows : List Certificate) (c : Certificate)
    → Distinct (λ c. c.id) rows
    → find? (λ c. c.id == id && c.org_id == org_id) rows ≡ some c
    → find? (λ d. d.id == c.id) rows ≡ some c
find-by_id id org_id [] c d h = h
find-by_id id org_id (x ∷ rows) c d h = elim (Bool-cases (x.id == id && x.org_id == org_id)) [
  | inl here ↦
      let same : some x ≡ some c = rw here at h in
      subst (λ z. find? (λ d. d.id == z.id) (x ∷ rows) ≡ some z) (some-injective x c same)
        (ground arith)
  | inr off ↦
      let later : find? (λ c. c.id == id && c.org_id == org_id) rows ≡ some c = rw off at h in
      let apart : c.id ≢ x.id = Any-fact _ rows (
        Any-map _ (λ y. c.id ≢ x.id) (λ y k. subst (λ z. z.id ≢ x.id) k.0.0 k.1) rows
          (Any-All _ (λ b. b.id ≢ x.id) rows (find?-Any _ rows c later) d.0)) in
      let other : (x.id == c.id) ≡ false = ground (arith, apart) in
      rw other (find-by_id id org_id rows c d.1 later)
]

delete_crl-revoked :
    (down : String → Bool) (org_id : ℕ) (ikid : String) (s t : Store)
    → delete_crl down org_id ikid s ≡ ok (tt, t)
    → t.revoked ≡ s.revoked
unfolding delete_crl
delete_crl-revoked down org_id ikid s t h = sym (
    ap (λ q. q.1.revoked)
      (ok-injective _ (tt, t) ((bind_iff (no_error (down "DeleteCrl")) _ (tt, t)).0 h).2))

-- a revocation stays
Step-revoked : (P : Revoked → Type 0) {s t : Store} → Step s t → Any P s.revoked → Any P t.revoked
Step-revoked P {s} {t} (publishes down m c e) h =
    let (i, (_, _, left)) = publish_crl-steps down m s t c e in rw left h
Step-revoked P {s} {t} (deletes down org_id k e) h = rw (delete_crl-revoked down org_id k s t e) h
Step-revoked P {s} {t} (revokes down now req r e) h =
    let (crt, old, steps) = revoke_certificate-steps down now req s t r e in
    subst (λ z. Any P z.revoked) (sym steps.5) ((Any-append P s.revoked _).1 (inl h))

Steps-revoked : (P : Revoked → Type 0) {s t : Store} → Steps s t → Any P s.revoked → Any P t.revoked
Steps-revoked P none_yet h = h
Steps-revoked P (and_then steps step) h = Step-revoked P step (Steps-revoked P steps h)

serial_read-entry :
    (m : Revoked) (o : Option ℤ) (e : Entry)
    → serial_read m o ≡ ok e
    → (o ≡ some e.serial_number) × (e.reason_code ≡ m.reason)
serial_read-entry m none e h = absurd (refuse h)
  where
    refuse :
        ◌≡◌ {A = Result Entry} (err (wrapped "invalid serial number of revoked certificate")) (ok e)
        → ⊥
    refuse k = cc
serial_read-entry m (some n) e h =
    let is = ok-injective _ e h in
    (ap (λ z. some z.serial_number) is, sym (ap (λ z. z.reason_code) is))

revoked_validate-ikid : (m : Revoked) → revoked_validate m ≡ true → m.ikid ≢ ""
unfolding revoked_validate validate_length
revoked_validate-ikid m h e = let unnamed = (eq_iff m.ikid "").1 e in ground (arith, unnamed, h)

-- With the revocations readable and rows whose ids differ and are not 0: after a certificate was
-- revoked, and whatever calls that publish, delete CRLs and revoke certificates succeed since then,
-- the entries of a CRL of its issuer at a time before the certificate expires name its serial
-- number, with the reason of the revocation.
pub revoke_certificate-crl_entries :
    (p : Publisher) (laws : CodecLaws p.codec) (paging : PagingLaws p.has_next)
    (down : String → Bool) (now later : ℕ) (req : RevokeRequest) (s t u : Store)
    (r : RevokedCertificate) (entries : List Entry)
    → revoke_certificate down now req s ≡ ok (r, t)
    → Steps t u
    → p.down "ListRevoked" ≡ false
    → Distinct (λ c. c.id) s.certificates
    → Distinct (λ m. m.id) u.revoked
    → All (λ m. m.id ≢ 0) u.revoked
    → later < r.not_after
    → crl_entries p r.ikid later u ≡ ok entries
    → Any
        (λ e.
          (p.parse_serial r.serial_number ≡ some e.serial_number) × (e.reason_code ≡ req.reason))
        entries
unfolding entry_of revocation new_revoked_certificate
revoke_certificate-crl_entries p laws paging down now later req s t u r entries h steps up certs d
      nz valid listed =
    let (crt, old, (found, _, is_valid, by_id, is, left)) =
      revoke_certificate-steps down now req s t r h in
    let same : old ≡ crt =
      some-injective old crt
        (sym by_id ∙ find-by_id req.certificate_id req.org_id s.certificates crt certs found) in
    let m = revocation s.next_id now req crt in
    let there : Any (λ x. x ≡ m) u.revoked =
      Steps-revoked (λ x. x ≡ m) steps
        (subst (λ z. Any (λ x. x ≡ m) z.revoked) (sym left)
          ((Any-append (λ x. x ≡ m) s.revoked (m ∷ [])).1 (inr (inl refl)))) in
    let key : r.ikid ≡ crt.ikid = ap (λ z. z.ikid) is ∙ ap (λ z. z.ikid) same in
    let expiry : r.not_after ≡ crt.not_after =
      ap (λ z. z.not_after) is ∙ ap (λ z. z.not_after) same in
    let serial : r.serial_number ≡ crt.serial_number =
      ap (λ z. z.serial_number) is ∙ ap (λ z. z.serial_number) same in
    Any-map _ _
      (λ e k.
        let (number, reason) = serial_read-entry m (p.parse_serial crt.serial_number) e k in
        (subst (λ z. p.parse_serial z ≡ some e.serial_number) (sym serial) number, reason))
      entries
      ((crl_entries-listed p crt.ikid later u laws paging entries up
          (revoked_validate-ikid m is_valid) d nz
          (subst (λ z. crl_entries p z later u ≡ ok entries) key listed)).0
        m there refl (subst (λ z. later < z) expiry valid))
