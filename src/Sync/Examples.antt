-- ===== src/Sync/Examples.antt =====
-- Runs of the circuit breaker, and the theorems at small inputs.
use radioledger.Base.{
  equal, keep, ℕ, ◌+◌, ◌≤◌, ◌≡◌, ◌≢◌, refl, true, false, Bytes, [], ◌∷◌, some, lookup, put, arith,
  List,
}
use radioledger.Base.Text.{codes}
use radioledger.Sync.Config.{ServicePolicy, policy, load_infra_config}
use radioledger.Base.{none}
use radioledger.Sync.Rate.{count_at, consume_rate_limit, is_rate_limited_now}
use radioledger.Sync.Rate.Laws.{calls, calls-min}
use radioledger.Sync.Circuit.{
  circuit_closed, circuit_open, Circuit, Circuits, Faults, commit_tx, allow_circuit, record_success,
  record_failure, circuit_state,
}
use radioledger.Sync.Circuit.Invariant.{IsReachable, IsSound, start, fails, reachable-IsSound}
use radioledger.Sync.Circuit.Trip.{no_fault, record_failures, record_failures-opens}
use radioledger.Sync.Worker.{Tables, Conditions, snoozed, one_second, handle}
use radioledger.Sync.Worker.Laws.{handle_limited, handles, works_for}
use radioledger.Base.{any, all}
use radioledger.Sync.Circuit.Probe.{probe-alone, allow_circuit-recovers}

abbrev quick : ServicePolicy
quick = record {
  rate_limit_rps = 1;
  max_retries = 8;
  circuit_failure_threshold = 2;
  circuit_recovery_timeout = 60;
}

abbrev policies : Bytes → ServicePolicy
policies service = quick

abbrev qrz : Bytes
qrz = codes "qrz"

abbrev timeout_error : Bytes
timeout_error = codes "timeout"

abbrev commit_fails : Faults
commit_fails commit_tx = true
commit_fails _ = false

-- The table behind two failures.
tripped : Circuits
tripped =
    (record_failure quick no_fault 10 qrz timeout_error
      (record_failure quick no_fault 5 qrz timeout_error []).0).0

abbrev open_row : Circuit
open_row = record {
  state = circuit_open;
  consecutive_failures = 2;
  opened_at = some 10;
  half_open_in_flight = false;
  updated_at = 10;
  last_error = some timeout_error;
}

tripped_lem : tripped ≡ (qrz, open_row) ∷ []
unfolding tripped record_failure put lookup
tripped_lem = refl

tripped-reachable : IsReachable policies tripped
unfolding tripped
tripped-reachable =
    fails _ no_fault 10 qrz timeout_error (fails [] no_fault 5 qrz timeout_error start)

tripped-row : lookup qrz tripped ≡ some open_row
unfolding tripped record_failure lookup put
tripped-row = refl

reachable-IsSound_example : IsSound quick open_row
reachable-IsSound_example =
    reachable-IsSound policies tripped qrz open_row (λ s. omega arith) tripped-reachable tripped-row

record_failures-opens_example :
    circuit_state qrz
      (record_failures quick (λ n. n) qrz timeout_error (record_success no_fault 0 qrz []).0 3)
    ≡ circuit_open
record_failures-opens_example =
    record_failures-opens quick (λ n. n) qrz timeout_error 3 0 [] (omega arith)

tripped-not_closed : circuit_state qrz tripped ≢ circuit_closed
unfolding tripped record_failure circuit_state lookup put
tripped-not_closed e = cc

tripped-admits : (allow_circuit quick no_fault 100 100 qrz tripped).1 ≡ some (true, 0)
unfolding tripped record_failure allow_circuit lookup put
tripped-admits = refl

probe-alone_example :
    (allow_circuit quick no_fault 150 150 qrz
      (allow_circuit quick no_fault 100 100 qrz tripped).0).1
    ≢ some (true, 0)
probe-alone_example =
    probe-alone policies (λ s. omega arith) tripped tripped-reachable qrz no_fault no_fault 100 100
      150 150 0 0 tripped-not_closed tripped-admits (omega arith)

open_row-opened : (s : ℕ) → open_row.opened_at ≡ some s → s + 60 ≤ 200
open_row-opened s e = ground (arith, e)

allow_circuit-recovers_example :
    (allow_circuit quick no_fault 200 200 qrz tripped).1 ≡ some (true, 0)
allow_circuit-recovers_example =
    allow_circuit-recovers policies (λ s. omega arith) tripped tripped-reachable qrz 200 200
      open_row tripped-row open_row-opened (omega arith)

-- The settings override a policy.
qrz_limit :
    (policy
      (load_infra_config (record {
        rate_limits = (qrz, 7) ∷ [];
        max_retries = [];
        retry_base_delay = 0;
        retry_max_delay = 0;
        circuit_failure_threshold = 9;
        circuit_recovery_timeout = 0;
        queue_warn_depth = 0;
        queue_critical_depth = 0;
      }))
      qrz).rate_limit_rps
    ≡ 7
unfolding policy load_infra_config
qrz_limit = refl

-- Of three calls in one second the limit of two lets two through.
calls-min_example : (calls (record quick { rate_limit_rps = 2 }) 7 qrz [] 3).1 ≡ 2
unfolding count_at
calls-min_example = calls-min (record quick { rate_limit_rps = 2 }) 7 qrz [] 3 refl

-- In a second with no call the query finds no row, which is an error.
unlimited_is_error : is_rate_limited_now quick 7 qrz [] ≡ none
unfolding is_rate_limited_now
unlimited_is_error = refl

-- The only call of the second has been made.
abbrev tripped_tables : Tables
tripped_tables = record {
  circuits = tripped;
  windows = record { service = qrz; bucket_start = 7; count = 1 } ∷ [];
}

abbrev conditions : ℕ → Conditions
conditions time = record {
  now = time;
  db_now = time;
  bucket = 7;
  allow_faults = no_fault;
  rate_faults = λ q. false;
  record_faults = no_fault;
  recorded_at = time;
  work = none;
}

tripped_limited :
    (consume_rate_limit quick (λ q. false) 7 qrz tripped_tables.windows).1 ≡ some false
unfolding consume_rate_limit keep equal
tripped_limited = refl

-- Calls for the service, and one for another between them.
abbrev later : List (Bytes × Conditions)
later = (qrz, conditions 101) ∷ (codes "eqsl", conditions 150) ∷ (qrz, conditions 220) ∷ []

handle_limited_example :
    ((handle quick (conditions 100) qrz tripped_tables).1 ≡ snoozed one_second)
    × (any
          (works_for qrz)
          (handles policies later (handle quick (conditions 100) qrz tripped_tables).0)
        ≡ false)
unfolding all equal
handle_limited_example =
    handle_limited policies (λ s. omega arith) tripped_tables tripped-reachable qrz (conditions 100)
      later 0 tripped-not_closed tripped-admits tripped_limited refl
