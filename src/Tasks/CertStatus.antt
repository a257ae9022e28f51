-- ===== src/Tasks/CertStatus.antt =====
-- server/tasks/certstatus: the task that marks expired certificates and applies the retention.
pub mod Drained
use trustyca.Base.{ltb, ℕ, zero, suc, ◌+◌, ◌-◌, String, Bool, if◌then◌else◌, ◌==◌, not}
use trustyca.Base.Status.{Result, Done, ok, err}
use trustyca.Ca.Store.{Store}
use trustyca.Ca.Expiry.{expire_certificates, delete_expired_certificates}

-- BatchSize, MaxBatches
abbrev pub batch_size : ℕ
batch_size = 1000

abbrev pub max_batches : ℕ
max_batches = 1000

-- Result: the certificates that a run has changed
pub record RunResult : Type 0 where
  pub expired : ℕ
  pub deleted : ℕ

-- what the batches return, the rows that they changed and the tables they leave
abbrev pub Batches : Type 0
Batches = Result Done × ℕ × Store

-- after one statement: the next batch, where this one is full
abbrev pub after_statement : ℕ → (ℕ → Store → Batches) → ℕ → Store → Result (ℕ × Store) → Batches
after_statement size again total s (err e) = (err e, total, s)
after_statement size again total s (ok (n, t)) =
    if ltb n size then (ok tt, total + n, t) else again (total + n) t

-- batches, on the statements that are left
unfoldable pub batches : (Store → Result (ℕ × Store)) → ℕ → ℕ → ℕ → Store → Batches
batches stmt size zero total s = (ok tt, total, s)
batches stmt size (suc left) total s =
    after_statement size (batches stmt size left) total s (stmt s)

module _ (down : String → Bool) (retention now : ℕ) where
  -- the deletion, where there is a retention; a time before the zero time is the zero time
  abbrev pub retained : ℕ → Batches → Result Done × RunResult × Store
  retained expired (err e, deleted, s) = (err e, record { expired = expired; deleted = deleted }, s)
  retained expired (ok tt, deleted, s) = (ok tt, record { expired = expired; deleted = deleted }, s)

  abbrev pub after_expiry : Batches → Result Done × RunResult × Store
  after_expiry (err e, expired, s) = (err e, record { expired = expired; deleted = 0 }, s)
  after_expiry (ok tt, expired, s) =
      if not (retention == 0)
      then retained expired (
          batches (delete_expired_certificates down (now - retention) batch_size) batch_size
            max_batches 0 s)
      else (ok tt, record { expired = expired; deleted = 0 }, s)

  -- Run
  unfoldable pub run : Store → Result Done × RunResult × Store
  run s =
      after_expiry (batches (expire_certificates down now batch_size) batch_size max_batches 0 s)
