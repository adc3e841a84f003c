-- ===== src/Sync/Circuit/Trip.antt =====
-- The circuit breaker of api/internal/services/sync/infra.go: when `RecordFailure` opens a circuit,
-- and what an operation does not touch.
use mathlib.Core.Path.{subst, sym}
use radioledger.Base.{
  ◌⊎◌, inl, inr, ◌∙◌, true, refl, if-ind, ℕ, zero, suc, ◌<◌, ◌≡◌, false, Bytes, arith, leb,
  if◌then◌else◌, lookup, ◌≢◌, Bool, none, some, lookup-put, lookup-put_other,
}
use radioledger.Sync.Config.{ServicePolicy}
use radioledger.Sync.Circuit.{
  commit_tx, write_row, circuit_closed, circuit_open, Circuit, Circuits, Faults, should_open,
  failed_circuit, record_failure, circuit_of, record_success, circuit_state, allow_circuit, Outcome,
  succeeded, apply_decision, Decision, answer, admit_probe, fails_before_read,
}

abbrev pub no_fault : Faults
no_fault _ = false

-- `n` failed attempts in a row, at the times that `clock` gives.
abbrev pub record_failures : ServicePolicy → (ℕ → ℕ) → Bytes → Bytes → Circuits → ℕ → Circuits
record_failures p clock service message t zero = t
record_failures p clock service message t (suc n) =
    let u = record_failures p clock service message t n in
    (record_failure p no_fault (clock n) service message u).0

-- The row behind `n` failures in a row.
IsBehind : ServicePolicy → ℕ → Circuit → Type 0
IsBehind p n c =
    (c.consecutive_failures ≡ n)
    × (c.state ≡ (if leb p.circuit_failure_threshold n then circuit_open else circuit_closed))

failed_circuit-IsBehind :
    (p : ServicePolicy) (n db_now : ℕ) (message : Bytes) (c : Circuit)
    → 0 < p.circuit_failure_threshold
    → IsBehind p n c
    → IsBehind p (suc n) (failed_circuit db_now message c (should_open p c))
unfolding IsBehind failed_circuit should_open
failed_circuit-IsBehind p n db_now message c h (count, state) = ground arith

module _ (service : Bytes) where
  pub circuit_of-found :
      (db_now : ℕ) (t : Circuits) {c : Circuit}
      → lookup service t ≡ some c
      → circuit_of db_now service t ≡ c
  unfolding circuit_of
  circuit_of-found db_now t h = rw (circuit_of, h) refl

  pub circuit_state-found :
      (t : Circuits) {c : Circuit} → lookup service t ≡ some c → circuit_state service t ≡ c.state
  unfolding circuit_state
  circuit_state-found t h = rw (circuit_state, h) refl

module _ (p : ServicePolicy) (clock : ℕ → ℕ) (service message : Bytes) where
  HasRow : ℕ → Circuits → Type 0
  HasRow n t = (c : Circuit) × (lookup service t ≡ some c) × IsBehind p n c

  HasRow-record_failure :
      (n db_now : ℕ) (t : Circuits)
      → 0 < p.circuit_failure_threshold
      → HasRow n t
      → HasRow (suc n) (record_failure p no_fault db_now service message t).0
  unfolding HasRow record_failure circuit_of
  HasRow-record_failure n db_now t h (c, found, behind) =
      let d = circuit_of db_now service t in
      let same = circuit_of-found service db_now t found in
      (
        failed_circuit db_now message d (should_open p d),
        lookup-put service (failed_circuit db_now message d (should_open p d)) t,
        failed_circuit-IsBehind p n db_now message d h (subst (IsBehind p n) (sym same) behind),
      )

  HasRow-record_failures :
      (n db_now : ℕ) (t : Circuits)
      → 0 < p.circuit_failure_threshold
      → HasRow n
          (record_failures p clock service message (record_success no_fault db_now service t).0 n)
  unfolding HasRow record_success IsBehind
  HasRow-record_failures zero db_now t h =
      (succeeded db_now, lookup-put service (succeeded db_now) t, (refl, ground (arith, h)))
  HasRow-record_failures (suc n) db_now t h =
      HasRow-record_failure n (clock n) _ h (HasRow-record_failures n db_now t h)

  -- With a positive threshold and no database error: when an attempt succeeds and then `n` attempts
  -- in a row fail, at any times, the circuit is open if the threshold is at most `n`, and closed
  -- otherwise.
  pub record_failures-opens :
      (n db_now : ℕ) (t : Circuits)
      → 0 < p.circuit_failure_threshold
      → circuit_state service
          (record_failures p clock service message (record_success no_fault db_now service t).0 n)
        ≡ (if leb p.circuit_failure_threshold n then circuit_open else circuit_closed)
  unfolding circuit_state HasRow IsBehind
  record_failures-opens n db_now t h =
      let row = HasRow-record_failures n db_now t h in
      circuit_state-found service (record_failures p clock service message _ n) row.1 ∙ row.2.1

-- A transaction on `t` reports no error, or leaves `t`.
abbrev pub IsRolledBack : {A : Type 0} → Circuits → Outcome A → Type 0
IsRolledBack t r = (r.1 ≢ none) ⊎ (r.0 ≡ t)

IsRolledBack-if :
    {A : Type 0} (b : Bool) (t u : Circuits) (a : A)
    → IsRolledBack t (if b then (t, none) else (u, some a))
IsRolledBack-if true t u a = inr refl
IsRolledBack-if false t u a = inl (λ e. absurd cc)

apply_decision-IsRolledBack :
    (fails : Faults) (service : Bytes) (t : Circuits) (c : Circuit) (d : Decision)
    → IsRolledBack t (apply_decision fails service t c d)
unfolding apply_decision
apply_decision-IsRolledBack fails service t c (answer allowed wait) =
    IsRolledBack-if (fails commit_tx) t _ _
apply_decision-IsRolledBack fails service t c (admit_probe probing) =
    if-ind (IsRolledBack t) (fails write_row) _ _ (inr refl)
      (IsRolledBack-if (fails commit_tx) t _ _)

-- An operation that reports an error, for whichever statement fails, leaves the table as it was.
pub errors-IsRolledBack :
    (p : ServicePolicy) (fails : Faults) (now db_now : ℕ) (service message : Bytes) (t : Circuits)
    → IsRolledBack t (allow_circuit p fails now db_now service t)
      × IsRolledBack t (record_success fails db_now service t)
      × IsRolledBack t (record_failure p fails db_now service message t)
unfolding allow_circuit record_success record_failure
errors-IsRolledBack p fails now db_now service message t = (
  if-ind (IsRolledBack t) (fails_before_read fails) _ _ (inr refl)
      (apply_decision-IsRolledBack fails service t _ _),
  IsRolledBack-if _ t _ _,
  IsRolledBack-if _ t _ _,
)

-- The row of a service is the one that it is in `t`.
abbrev pub Keeps : {A : Type 0} → Bytes → Circuits → Outcome A → Type 0
Keeps other t r = lookup other r.0 ≡ lookup other t

apply_decision-Keeps :
    (fails : Faults) (other service : Bytes) (t : Circuits) (c : Circuit) (d : Decision)
    → other ≢ service
    → Keeps other t (apply_decision fails service t c d)
unfolding apply_decision
apply_decision-Keeps fails other service t c (answer allowed wait) h =
    if-ind (Keeps other t) (fails commit_tx) _ _ refl (lookup-put_other other service c t h)
apply_decision-Keeps fails other service t c (admit_probe probing) h =
    if-ind (Keeps other t) (fails write_row) _ _ refl (
      if-ind (Keeps other t) (fails commit_tx) _ _ refl
        (lookup-put_other other service probing t h))

-- No operation on a service changes the row of another service, whichever statement fails.
pub others-kept :
    (p : ServicePolicy) (fails : Faults) (now db_now : ℕ) (other service message : Bytes)
    (t : Circuits)
    → other ≢ service
    → Keeps other t (allow_circuit p fails now db_now service t)
      × Keeps other t (record_success fails db_now service t)
      × Keeps other t (record_failure p fails db_now service message t)
unfolding allow_circuit record_success record_failure
others-kept p fails now db_now other service message t h = (
  if-ind (Keeps other t) (fails_before_read fails) _ _ refl
      (apply_decision-Keeps fails other service t _ _ h),
  if-ind (Keeps other t) _ _ _ refl (lookup-put_other other service _ t h),
  if-ind (Keeps other t) _ _ _ refl (lookup-put_other other service _ t h),
)
