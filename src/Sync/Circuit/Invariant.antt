-- ===== src/Sync/Circuit/Invariant.antt =====
-- The circuit breaker of api/internal/services/sync/infra.go: the rows of sync_circuit_state that its
-- operations can write.
use mathlib.Core.Path.{subst}
use radioledger.Base.{
  ℕ, ◌≤◌, ◌<◌, ◌≡◌, ◌≢◌, refl, sym, ◌∙◌, Bool, true, false, Bytes, [], none, some, inl, inr, lookup,
  put, lookup-put, lookup-put_other, arith, equal, equal_iff, Bool-cases, if◌then◌else◌,
}
use radioledger.Sync.Config.{ServicePolicy}
use radioledger.Sync.Circuit.{
  CircuitState, circuit_closed, circuit_open, circuit_half_open, other_state, Circuit, Circuits,
  Faults, Outcome, default_circuit, circuit_of, Decision, answer, admit_probe, decide,
  apply_decision, allow_circuit, succeeded, record_success, should_open, failed_circuit,
  record_failure, in_flight, fails_before_read, commit_tx, write_row,
}

-- What the columns of a row mean together: a closed circuit counts fewer failures than the
-- threshold; an open one has as many and says since when; a half-open one has its probe under way.
abbrev pub IsSoundIn : ServicePolicy → Circuit → CircuitState → Type 0
IsSoundIn p c circuit_closed =
    (c.consecutive_failures < p.circuit_failure_threshold)
    × (c.opened_at ≡ none)
    × (c.half_open_in_flight ≡ false)
IsSoundIn p c circuit_open =
    (p.circuit_failure_threshold ≤ c.consecutive_failures)
    × (c.opened_at ≢ none)
    × (c.half_open_in_flight ≡ false)
IsSoundIn p c circuit_half_open =
    (p.circuit_failure_threshold ≤ c.consecutive_failures)
    × (c.opened_at ≢ none)
    × (c.half_open_in_flight ≡ true)
IsSoundIn p c (other_state s) = ⊥

abbrev pub IsSound : ServicePolicy → Circuit → Type 0
IsSound p c = IsSoundIn p c c.state

abbrev IsSoundDecision : ServicePolicy → Decision → Type 0
IsSoundDecision p (answer b w) = Unit
IsSoundDecision p (admit_probe c) = IsSound p c

IsSound-of :
    (p : ServicePolicy) (c : Circuit) (s : CircuitState)
    → c.state ≡ s
    → IsSoundIn p c s
    → IsSound p c
IsSound-of p c s e h = subst (λ t. IsSoundIn p c t) (sym e) h

IsSoundDecision-if :
    (p : ServicePolicy) (b : Bool) (x y : Decision)
    → IsSoundDecision p x
    → IsSoundDecision p y
    → IsSoundDecision p (if b then x else y)
IsSoundDecision-if p true x y hx hy = hx
IsSoundDecision-if p false x y hx hy = hy

decide-IsSoundDecision :
    (p : ServicePolicy) (now db_now : ℕ) (c : Circuit) (s : CircuitState)
    → c.state ≡ s
    → IsSoundIn p c s
    → IsSoundDecision p (decide p now db_now c s)
unfolding decide
decide-IsSoundDecision p now db_now c circuit_closed e h = tt
decide-IsSoundDecision p now db_now c circuit_open e h = ground arith
decide-IsSoundDecision p now db_now c circuit_half_open e h =
    let probing = record c { half_open_in_flight = true; updated_at = db_now } in
    IsSoundDecision-if p (in_flight p now c) (answer false p.circuit_recovery_timeout)
      (admit_probe probing) tt (IsSound-of p probing circuit_half_open e (h.0, h.1, refl))
decide-IsSoundDecision p now db_now c (other_state s) e h = tt

failed_circuit-IsSound :
    (p : ServicePolicy) (db_now : ℕ) (message : Bytes) (c : Circuit) (s : CircuitState)
    → c.state ≡ s
    → IsSoundIn p c s
    → IsSound p (failed_circuit db_now message c (should_open p c))
unfolding failed_circuit should_open
failed_circuit-IsSound p db_now message c circuit_closed e h = ground arith
failed_circuit-IsSound p db_now message c circuit_open e h = ground arith
failed_circuit-IsSound p db_now message c circuit_half_open e h = ground arith
failed_circuit-IsSound p db_now message c (other_state s) e h = elim h [ ]

-- Every row of a table is sound, for the policies given.
abbrev pub AreSound : (Bytes → ServicePolicy) → Circuits → Type 0
AreSound policies t =
    (service : Bytes) (c : Circuit) → lookup service t ≡ some c → IsSound (policies service) c

module _ (policies : Bytes → ServicePolicy) (t : Circuits) (sound : AreSound policies t) where
  put-found :
      {other service : Bytes} {c d : Circuit}
      → other ≡ service
      → lookup other (put service c t) ≡ some d
      → c ≡ d
  put-found {other} {service} {c} {d} e h = ground (arith, lookup-put service c t)

  put-AreSound :
      (service : Bytes) (c : Circuit)
      → IsSound (policies service) c
      → AreSound policies (put service c t)
  put-AreSound service c h other d found = elim (Bool-cases (equal other service)) [
    | inl same ↦
        let k = (equal_iff other service).0 same in
        subst (λ x. IsSound (policies other) x) (put-found k found)
          (subst (λ s. IsSound (policies s) c) (sym k) h)
    | inr differs ↦ sound other d (
        sym (
          lookup-put_other other service c t
            (λ e. absurd (ground (arith, equal_iff other service))))
        ∙ found)
  ]

  AreSound-if :
      {A : Type 0} (b : Bool) (x y : Outcome A)
      → AreSound policies x.0
      → AreSound policies y.0
      → AreSound policies (if b then x else y).0
  AreSound-if true x y hx hy = hx
  AreSound-if false x y hx hy = hy

  apply_decision-AreSound :
      (fails : Faults) (service : Bytes) (c : Circuit) (d : Decision)
      → IsSound (policies service) c
      → IsSoundDecision (policies service) d
      → AreSound policies (apply_decision fails service t c d).0
  unfolding apply_decision
  apply_decision-AreSound fails service c (answer allowed wait) h hd =
      AreSound-if (fails commit_tx) (t, none) _ sound (put-AreSound service c h)
  apply_decision-AreSound fails service c (admit_probe probing) h hd =
      AreSound-if (fails write_row) (t, none) _ sound
        (AreSound-if (fails commit_tx) (t, none) _ sound (put-AreSound service probing hd))

  pub circuit_of-IsSound :
      (db_now : ℕ) (service : Bytes)
      → 0 < (policies service).circuit_failure_threshold
      → IsSound (policies service) (circuit_of db_now service t)
  unfolding circuit_of
  circuit_of-IsSound db_now service h =
      (elim (lookup service t)
          as (λ o.
            lookup service t ≡ o
            → IsSound (policies service) (elim o [ some c ↦ c | none ↦ default_circuit db_now ])) [
              | none ↦ λ e. (h, refl, refl)
              | some c ↦ λ e. sound service c e
            ])
        refl

  allow_circuit-AreSound :
      (fails : Faults) (now db_now : ℕ) (service : Bytes)
      → 0 < (policies service).circuit_failure_threshold
      → AreSound policies (allow_circuit (policies service) fails now db_now service t).0
  unfolding allow_circuit
  allow_circuit-AreSound fails now db_now service h =
      AreSound-if (fails_before_read fails) _ _ sound (
        apply_decision-AreSound fails service _ _ (circuit_of-IsSound db_now service h) (
          decide-IsSoundDecision (policies service) now db_now _ _ refl
            (circuit_of-IsSound db_now service h)))

  record_success-AreSound :
      (fails : Faults) (db_now : ℕ) (service : Bytes)
      → 0 < (policies service).circuit_failure_threshold
      → AreSound policies (record_success fails db_now service t).0
  unfolding record_success
  record_success-AreSound fails db_now service h =
      AreSound-if _ _ _ sound (put-AreSound service (succeeded db_now) (h, refl, refl))

  record_failure-AreSound :
      (fails : Faults) (db_now : ℕ) (service message : Bytes)
      → 0 < (policies service).circuit_failure_threshold
      → AreSound policies (record_failure (policies service) fails db_now service message t).0
  unfolding record_failure
  record_failure-AreSound fails db_now service message h =
      let c = circuit_of db_now service t in
      AreSound-if _ _ _ sound (
        put-AreSound service (failed_circuit db_now message c (should_open (policies service) c)) (
          failed_circuit-IsSound (policies service) db_now message c c.state refl
            (circuit_of-IsSound db_now service h)))

-- The tables that the workers can reach, with any interleaving of calls, clocks and failures of the
-- database.
pub data IsReachable (policies : Bytes → ServicePolicy) : Circuits → Type 0 where
  start : IsReachable policies []
  allows :
      (t : Circuits) (fails : Faults) (now db_now : ℕ) (service : Bytes)
      → IsReachable policies t
      → IsReachable policies (allow_circuit (policies service) fails now db_now service t).0
  succeeds :
      (t : Circuits) (fails : Faults) (db_now : ℕ) (service : Bytes)
      → IsReachable policies t
      → IsReachable policies (record_success fails db_now service t).0
  fails :
      (t : Circuits) (fails : Faults) (db_now : ℕ) (service message : Bytes)
      → IsReachable policies t
      → IsReachable policies (record_failure (policies service) fails db_now service message t).0

none_found : (service : Bytes) {c : Circuit} → lookup service [] ≡ some c → ⊥
unfolding lookup
none_found service e = cc

pub reachable-AreSound :
    (policies : Bytes → ServicePolicy) (t : Circuits)
    → ((service : Bytes) → 0 < (policies service).circuit_failure_threshold)
    → IsReachable policies t
    → AreSound policies t
reachable-AreSound policies t h start = λ service c e. absurd (none_found service e)
reachable-AreSound policies t h (allows u f now db_now service r) =
    allow_circuit-AreSound policies u (reachable-AreSound policies u h r) f now db_now service
      (h service)
reachable-AreSound policies t h (succeeds u f db_now service r) =
    record_success-AreSound policies u (reachable-AreSound policies u h r) f db_now service
      (h service)
reachable-AreSound policies t h (fails u f db_now service message r) =
    record_failure-AreSound policies u (reachable-AreSound policies u h r) f db_now service message
      (h service)

-- With positive thresholds, in every table that the workers can reach, whatever the interleaving of
-- their calls, the clocks and the failures of the database, the row of each service is sound: a closed circuit has
-- fewer failures in a row than the threshold, an open or half-open one has at least as many and
-- says when it opened, and exactly the half-open one has a probe under way.
pub reachable-IsSound :
    (policies : Bytes → ServicePolicy) (t : Circuits) (service : Bytes) (c : Circuit)
    → ((s : Bytes) → 0 < (policies s).circuit_failure_threshold)
    → IsReachable policies t
    → lookup service t ≡ some c
    → IsSound (policies service) c
reachable-IsSound policies t service c h r e = reachable-AreSound policies t h r service c e
