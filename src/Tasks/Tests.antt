-- ===== src/Tasks/Tests.antt =====
-- A run at the time 60 with a retention of 20, over a certificate that expired at 50 and one that
-- ended at 30.

use trustyca.Base.{◌≡◌, ◌-◌, refl, [], ◌∷◌, arith}
use trustyca.Ca.Rows.{Certificate, certificate_active, certificate_revoked}
use trustyca.Ca.Store.{Store}
use trustyca.Ca.Expiry.{due, ended}
use trustyca.Ca.Tests.{store, certificate_10, up}
use trustyca.Tasks.CertStatus.{run}
use trustyca.Tasks.CertStatus.Drained.{count, ran, run-drained}

abbrev expired_50 : Certificate
expired_50 = record certificate_10 { not_after = 50; status = certificate_active }

abbrev ended_30 : Certificate
ended_30 = record certificate_10 { id = 9; not_after = 30; status = certificate_revoked }

abbrev rows : Store
rows = record store { certificates = expired_50 ∷ ended_30 ∷ [] }

one_due : count (due 60) rows.certificates ≡ 1
unfolding due
one_due = refl

one_ended : count (ended (60 - 20)) rows.certificates ≡ 1
unfolding ended
one_ended = refl

run-drained_example :
    (t : Store) × (run up 20 60 rows
      ≡ ran (count (due 60) rows.certificates) (count (ended (60 - 20)) rows.certificates) t)
    × (count (due 60) t.certificates ≡ 0)
    × (count (ended (60 - 20)) t.certificates ≡ 0)
run-drained_example =
    run-drained up 20 60 rows refl refl (omega arith) (omega arith) (omega (arith, one_due))
      (omega (arith, one_ended))
