-- ===== src/Ca/Expiry.antt =====
-- internal/db/pgsql/certificate.go: the statements that expire and delete certificates, a batch at
-- a time. A batch is the certificates with the lowest IDs; the table they leave is in that order.
use trustyca.Base.{
  ltb, ℕ, zero, suc, Bool, not, ◌&&◌, ◌||◌, List, [], ◌∷◌, ◌==◌, if◌then◌else◌, filter, any, length,
  String,
}
use trustyca.Base.Status.{Result, ok, ◌>>=◌}
use trustyca.Db.Pages.{take}
use trustyca.Db.Tables.{no_error}
use trustyca.Ca.Rows.{Certificate, certificate_expired, certificate_status_number}
use trustyca.Ca.Store.{Store}

-- ORDER BY id
abbrev pub insert_by_id : Certificate → List Certificate → List Certificate
insert_by_id c [] = c ∷ []
insert_by_id c (d ∷ rows) = if ltb d.id c.id then d ∷ insert_by_id c rows else c ∷ d ∷ rows

abbrev pub by_id : List Certificate → List Certificate
by_id [] = []
by_id (c ∷ rows) = insert_by_id c (by_id rows)

-- the WHERE of the batch of ExpireCertificates, and of DeleteExpiredCertificates
unfoldable pub due : ℕ → Certificate → Bool
due before c = (certificate_status_number c.status == 1) && ltb c.not_after before

unfoldable pub ended : ℕ → Certificate → Bool
ended before c = ltb c.not_after before

-- the SET of ExpireCertificates
abbrev pub expired : Certificate → Certificate
expired c = record c { status = certificate_expired }

-- the rows where the first `limit` of those that a test selects have expired
unfoldable pub expire_first : (Certificate → Bool) → ℕ → List Certificate → List Certificate
expire_first p limit [] = []
expire_first p zero (c ∷ rows) = c ∷ rows
expire_first p (suc n) (c ∷ rows) =
    let rest = expire_first p (if p c then n else suc n) rows in
    if p c then expired c ∷ rest else c ∷ rest

-- the rows less the first `limit` of those that a test selects
unfoldable pub delete_first : (Certificate → Bool) → ℕ → List Certificate → List Certificate
delete_first p limit [] = []
delete_first p zero (c ∷ rows) = c ∷ rows
delete_first p (suc n) (c ∷ rows) =
    let rest = delete_first p (if p c then n else suc n) rows in if p c then rest else c ∷ rest

-- the batch
unfoldable pub batch : (Certificate → Bool) → ℕ → Store → List Certificate
batch p limit s = take limit (filter p (by_id s.certificates))

module _ (down : String → Bool) where
  -- ExpireCertificates
  unfoldable pub expire_certificates : ℕ → ℕ → Store → Result (ℕ × Store)
  expire_certificates before limit s =
      no_error ((before == 0) || (limit == 0) || down "ExpireCertificates") >>= λ _. ok (
        length (batch (due before) limit s),
        record s { certificates = expire_first (due before) limit (by_id s.certificates) },
      )

  -- DeleteExpiredCertificates; the revocations of the deleted certificates follow by cascade
  unfoldable pub delete_expired_certificates : ℕ → ℕ → Store → Result (ℕ × Store)
  delete_expired_certificates before limit s =
      no_error ((before == 0) || (limit == 0) || down "DeleteExpiredCertificates") >>= λ _. ok (
        length (batch (ended before) limit s),
        record s {
          certificates = delete_first (ended before) limit (by_id s.certificates);
          revoked =
              filter (λ r. not (any (λ c. c.id == r.certificate_id) (batch (ended before) limit s)))
                s.revoked;
        },
      )
