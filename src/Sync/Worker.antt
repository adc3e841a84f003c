-- ===== src/Sync/Worker.antt =====
-- api/internal/services/sync/worker_base.go: Handle, what every sync worker does around its own work,
-- with the circuit breaker and the rate limit of infra.go. The work is a function of nothing but its
-- outcome, an error text or none.
pub mod Laws
use radioledger.Base.{ℕ, Bool, true, false, Bytes, List, Option, none, some}
use radioledger.Sync.Config.{ServicePolicy}
use radioledger.Sync.Circuit.{
  Faults, Circuits, Outcome, allow_circuit, record_failure, record_success,
}
use radioledger.Sync.Rate.{Window, Query, consume_rate_limit}

-- The two tables.
pub record Tables : Type 0 where
  pub circuits : Circuits
  pub windows : List Window

-- What a call meets: the clocks, the second of the rate limit, the statements that fail in each of
-- its transactions, and the outcome of the work.
pub record Conditions : Type 0 where
  pub now : ℕ
  pub db_now : ℕ
  pub bucket : ℕ
  pub allow_faults : Faults
  pub rate_faults : Query → Bool
  pub record_faults : Faults
  pub recorded_at : ℕ
  pub work : Option Bytes

-- What Handle returns: an error before the work, a snooze, the error of the work, the error of
-- RecordSuccess, or nothing.
pub data Handled : Type 0 where
  infra_error : Handled
  snoozed : ℕ → Handled
  work_failed : Bytes → Handled
  record_error : Handled
  done : Handled

abbrev pub one_second : ℕ
one_second = 1_000_000_000

abbrev recorded : {A : Type 0} → Option A → Handled
recorded none = record_error
recorded (some u) = done

abbrev pub executed :
    ServicePolicy → Conditions → Bytes → Circuits → List Window → Option Bytes → Tables × Handled
executed p c service circuits windows (some message) = (
  record {
    circuits = (record_failure p c.record_faults c.recorded_at service message circuits).0;
    windows = windows;
  },
  work_failed message,
)
executed p c service circuits windows none =
    let (after, result) = record_success c.record_faults c.recorded_at service circuits in
    (record { circuits = after; windows = windows }, recorded result)

abbrev pub on_rate :
    ServicePolicy → Conditions → Bytes → Circuits → List Window × Option Bool → Tables × Handled
on_rate p c service circuits (windows, none) =
    (record { circuits = circuits; windows = windows }, infra_error)
on_rate p c service circuits (windows, some false) =
    (record { circuits = circuits; windows = windows }, snoozed one_second)
on_rate p c service circuits (windows, some true) = executed p c service circuits windows c.work

abbrev pub on_circuit :
    ServicePolicy → Conditions → Bytes → List Window → Outcome (Bool × ℕ) → Tables × Handled
on_circuit p c service windows (circuits, none) =
    (record { circuits = circuits; windows = windows }, infra_error)
on_circuit p c service windows (circuits, some (false, wait)) =
    (record { circuits = circuits; windows = windows }, snoozed wait)
on_circuit p c service windows (circuits, some (true, wait)) =
    on_rate p c service circuits (consume_rate_limit p c.rate_faults c.bucket service windows)

unfoldable pub handle : ServicePolicy → Conditions → Bytes → Tables → Tables × Handled
handle p c service t =
    on_circuit p c service t.windows
      (allow_circuit p c.allow_faults c.now c.db_now service t.circuits)

-- The work was done, whatever came of it.
unfoldable pub has_worked : Handled → Bool
has_worked infra_error = false
has_worked (snoozed wait) = false
has_worked (work_failed message) = true
has_worked record_error = true
has_worked done = true
