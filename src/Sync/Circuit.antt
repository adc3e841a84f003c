-- ===== src/Sync/Circuit.antt =====
-- api/internal/services/sync/infra.go: the circuit breaker that the sync workers share, kept in the
-- table sync_circuit_state with a row for each service. Times are nanoseconds: `now` is the
-- process's clock and `db_now` is the database's. Each operation is one transaction under an
-- advisory lock; `fails` says which of its statements fails, and a transaction that fails leaves the
-- table as it was.
pub mod Invariant
pub mod Trip
pub mod Probe
use radioledger.Base.{
  ℕ, ◌+◌, ◌-◌, ◌*◌, Bool, true, false, ◌||◌, Bytes, List, Option, some, none, lookup, put,
  if◌then◌else◌, ltb, leb,
}
use radioledger.Sync.Config.{ServicePolicy}

-- The column `state`, a text that is read as a `CircuitState`.
pub data CircuitState : Type 0 where
  circuit_closed : CircuitState
  circuit_open : CircuitState
  circuit_half_open : CircuitState
  other_state : Bytes → CircuitState

pub record Circuit : Type 0 where
  pub state : CircuitState
  pub consecutive_failures : ℕ
  pub opened_at : Option ℕ
  pub half_open_in_flight : Bool
  pub updated_at : ℕ
  pub last_error : Option Bytes

abbrev pub Circuits : Type 0
Circuits = List (Bytes × Circuit)

pub data Statement : Type 0 where
  begin_tx : Statement
  take_lock : Statement
  ensure_row : Statement
  select_row : Statement
  write_row : Statement
  commit_tx : Statement

-- Which statements fail.
abbrev pub Faults : Type 0
Faults = Statement → Bool

-- The table that a transaction leaves, and its result, or `none` for an error.
abbrev pub Outcome : Type 0 → Type 0
Outcome A = Circuits × Option A

-- The row that the column defaults give.
abbrev pub default_circuit : ℕ → Circuit
default_circuit db_now = record {
  state = circuit_closed;
  consecutive_failures = 0;
  opened_at = none;
  half_open_in_flight = false;
  updated_at = db_now;
  last_error = none;
}

-- INSERT ... ON CONFLICT DO NOTHING, and the SELECT behind it.
unfoldable pub circuit_of : ℕ → Bytes → Circuits → Circuit
circuit_of db_now service t = elim (lookup service t) [ some c ↦ c | none ↦ default_circuit db_now ]

-- BEGIN, the advisory lock, INSERT and SELECT. The error of the INSERT is not looked at, but the
-- transaction is aborted then, so that the SELECT fails.
abbrev pub fails_before_read : Faults → Bool
fails_before_read fails =
    fails begin_tx || (fails take_lock || (fails ensure_row || fails select_row))

-- What `AllowCircuit` does with a row: an answer with no UPDATE, or an UPDATE that admits a probe.
pub data Decision : Type 0 where
  answer : Bool → ℕ → Decision
  admit_probe : Circuit → Decision

abbrev opened_or : ℕ → Option ℕ → ℕ
opened_or now none = now
opened_or now (some t) = t

-- A probe that has been under way for longer than twice the timeout counts as lost.
-- `updatedAt < now - 2 * timeout` is written with a sum.
abbrev pub in_flight : ServicePolicy → ℕ → Circuit → Bool
in_flight p now c =
    if c.half_open_in_flight
    then if ltb (c.updated_at + 2 * p.circuit_recovery_timeout) now then false else true
    else false

-- `switch CircuitState(state)` of `AllowCircuit`.
unfoldable pub decide : ServicePolicy → ℕ → ℕ → Circuit → CircuitState → Decision
decide p now db_now c circuit_closed = answer true 0
decide p now db_now c circuit_open =
    let recovers_at = opened_or now c.opened_at + p.circuit_recovery_timeout in
    if ltb now recovers_at
    then answer false (recovers_at - now)
    else admit_probe
        (record c { state = circuit_half_open; half_open_in_flight = true; updated_at = db_now })
decide p now db_now c circuit_half_open =
    if in_flight p now c
    then answer false p.circuit_recovery_timeout
    else admit_probe (record c { half_open_in_flight = true; updated_at = db_now })
decide p now db_now c (other_state s) = answer true 0

unfoldable pub apply_decision : Faults → Bytes → Circuits → Circuit → Decision → Outcome (Bool × ℕ)
apply_decision fails service t c (answer allowed wait) =
    if fails commit_tx then (t, none) else (put service c t, some (allowed, wait))
apply_decision fails service t c (admit_probe probing) =
    if fails write_row
    then (t, none)
    else if fails commit_tx
    then (t, none)
    else (put service probing t, some (true, 0))

unfoldable pub allow_circuit :
    ServicePolicy → Faults → ℕ → ℕ → Bytes → Circuits → Outcome (Bool × ℕ)
unfolding decide apply_decision circuit_of
allow_circuit p fails now db_now service t =
    if fails_before_read fails
    then (t, none)
    else let c = circuit_of db_now service t in
      apply_decision fails service t c (decide p now db_now c c.state)

-- The upsert of `RecordSuccess`.
abbrev pub succeeded : ℕ → Circuit
succeeded db_now = record {
  state = circuit_closed;
  consecutive_failures = 0;
  opened_at = none;
  half_open_in_flight = false;
  updated_at = db_now;
  last_error = none;
}

unfoldable pub record_success : Faults → ℕ → Bytes → Circuits → Outcome Unit
record_success fails db_now service t =
    if fails begin_tx || (fails take_lock || (fails write_row || fails commit_tx))
    then (t, none)
    else (put service (succeeded db_now) t, some tt)

abbrev is_half_open : CircuitState → Bool
is_half_open circuit_half_open = true
is_half_open _ = false

unfoldable pub should_open : ServicePolicy → Circuit → Bool
should_open p c =
    if is_half_open c.state
    then true
    else leb p.circuit_failure_threshold (c.consecutive_failures + 1)

-- The two UPDATEs of `RecordFailure`.
unfoldable pub failed_circuit : ℕ → Bytes → Circuit → Bool → Circuit
failed_circuit db_now message c true = record c {
  state = circuit_open;
  consecutive_failures = c.consecutive_failures + 1;
  opened_at = some db_now;
  half_open_in_flight = false;
  updated_at = db_now;
  last_error = some message;
}
failed_circuit db_now message c false = record c {
  state = circuit_closed;
  consecutive_failures = c.consecutive_failures + 1;
  half_open_in_flight = false;
  updated_at = db_now;
  last_error = some message;
}

unfoldable pub record_failure : ServicePolicy → Faults → ℕ → Bytes → Bytes → Circuits → Outcome Bool
unfolding should_open failed_circuit circuit_of
record_failure p fails db_now service message t =
    if fails_before_read fails || (fails write_row || fails commit_tx)
    then (t, none)
    else let c = circuit_of db_now service t in
      let opens = should_open p c in
      (put service (failed_circuit db_now message c opens) t, some opens)

-- `Infra.CircuitState`, where the query succeeds.
unfoldable pub circuit_state : Bytes → Circuits → CircuitState
circuit_state service t = elim (lookup service t) [ some c ↦ c.state | none ↦ circuit_closed ]
