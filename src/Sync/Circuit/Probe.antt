-- ===== src/Sync/Circuit/Probe.antt =====
-- `AllowCircuit` of api/internal/services/sync/infra.go: the probe of a half-open circuit.
use mathlib.Core.Path.{subst, sym}
use radioledger.Base.{
  ℕ, ◌+◌, ◌*◌, ◌<◌, ◌≤◌, ◌≡◌, ◌≢◌, ◌∙◌, refl, ap, Bool, true, false, Bytes, none, some, arith,
  lookup, put, lookup-put, if-ind, Option-cases, inl, inr,
}
use radioledger.Sync.Config.{ServicePolicy}
use radioledger.Sync.Circuit.{
  CircuitState, circuit_closed, circuit_open, circuit_half_open, other_state, Circuit, Circuits,
  Faults, Outcome, circuit_of, Decision, answer, admit_probe, decide, apply_decision, allow_circuit,
  circuit_state, write_row, commit_tx, fails_before_read, in_flight,
}
use radioledger.Sync.Circuit.Trip.{no_fault, circuit_of-found}
use radioledger.Sync.Circuit.Invariant.{
  IsSoundIn, IsSound, IsReachable, reachable-AreSound, circuit_of-IsSound,
}

-- A row whose probe began at `since`.
abbrev pub IsProbing : ℕ → Circuit → Type 0
IsProbing since c =
    (c.state ≡ circuit_half_open) × (c.half_open_in_flight ≡ true) × (c.updated_at ≡ since)

-- An attempt is admitted only as a probe.
abbrev IsGuarded : ℕ → Decision → Type 0
IsGuarded since (answer allowed wait) = allowed ≡ false
IsGuarded since (admit_probe c) = IsProbing since c

abbrev Admits : Decision → Type 0
Admits (answer allowed wait) = (allowed ≡ true) × (wait ≡ 0)
Admits (admit_probe c) = Unit

decide-IsGuarded :
    (p : ServicePolicy) (now db_now : ℕ) (c : Circuit) (s : CircuitState)
    → c.state ≡ s
    → s ≢ circuit_closed
    → IsSoundIn p c s
    → IsGuarded db_now (decide p now db_now c s)
unfolding decide
decide-IsGuarded p now db_now c circuit_closed e h sound = absurd (h refl)
decide-IsGuarded p now db_now c circuit_open e h sound =
    if-ind (IsGuarded db_now) _ (answer false _) (admit_probe _) refl (refl, refl, refl)
decide-IsGuarded p now db_now c circuit_half_open e h sound =
    if-ind (IsGuarded db_now) (in_flight p now c) (answer false _) (admit_probe _) refl
      (e, refl, refl)
decide-IsGuarded p now db_now c (other_state s) e h sound = elim sound [ ]

-- A probe that has not been under way for twice the timeout keeps all others out.
decide-busy :
    (p : ServicePolicy) (now db_now since : ℕ) (c : Circuit)
    → IsProbing since c
    → now ≤ since + 2 * p.circuit_recovery_timeout
    → decide p now db_now c c.state ≡ answer false p.circuit_recovery_timeout
unfolding decide
decide-busy p now db_now since c (half, busy, at) h =
    ap (decide p now db_now c) half ∙ ground (arith, busy, at, h)

decide-Admits :
    (p : ServicePolicy) (now db_now : ℕ) (c : Circuit) (s : CircuitState)
    → ((opened : ℕ) → c.opened_at ≡ some opened → opened + p.circuit_recovery_timeout ≤ now)
    → c.updated_at + 2 * p.circuit_recovery_timeout < now
    → IsSoundIn p c s
    → Admits (decide p now db_now c s)
unfolding decide
decide-Admits p now db_now c circuit_closed o h sound = (refl, refl)
decide-Admits p now db_now c circuit_open o h sound = elim (Option-cases c.opened_at) [
  | inl unknown ↦ absurd (sound.1 unknown)
  | inr (opened, known) ↦ ground (arith, o opened known, known)
]
decide-Admits p now db_now c circuit_half_open o h sound = ground (arith, sound)
decide-Admits p now db_now c (other_state s) o h sound = elim sound [ ]

module _ (p : ServicePolicy) (fails : Faults) (service : Bytes) (t : Circuits) where
  -- An answer to `AllowCircuit` that admits the attempt leaves a row whose probe began then.
  unfoldable pub LeavesProbe : ℕ → Outcome (Bool × ℕ) → Type 0
  LeavesProbe since r =
      (w : ℕ)
      → r.1 ≡ some (true, w)
      → (c : Circuit) × (lookup service r.0 ≡ some c) × IsProbing since c

  apply_decision-probe :
      (since : ℕ) (c : Circuit) (d : Decision)
      → IsGuarded since d
      → LeavesProbe since (apply_decision fails service t c d)
  unfolding apply_decision LeavesProbe
  apply_decision-probe since c (answer allowed wait) h =
      if-ind (LeavesProbe since) (fails commit_tx) (t, none) _ (λ w e. absurd cc) (λ w e. absurd cc)
  apply_decision-probe since c (admit_probe probing) h =
      if-ind (LeavesProbe since) (fails write_row) (t, none) _ (λ w e. absurd cc)
        (if-ind (LeavesProbe since) (fails commit_tx) (t, none)
          (put service probing t, some (true, 0)) (λ w e. absurd cc)
          (λ w e. (probing, lookup-put service probing t, h)))

  pub allow_circuit-probe :
      (now db_now : ℕ)
      → IsSound p (circuit_of db_now service t)
      → (circuit_of db_now service t).state ≢ circuit_closed
      → LeavesProbe db_now (allow_circuit p fails now db_now service t)
  unfolding allow_circuit LeavesProbe
  allow_circuit-probe now db_now sound h =
      let c = circuit_of db_now service t in
      if-ind (LeavesProbe db_now) (fails_before_read fails) (t, none) _ (λ w e. absurd cc)
        (apply_decision-probe db_now c (decide p now db_now c c.state)
          (decide-IsGuarded p now db_now c c.state refl h sound))

  unfoldable pub Refuses : Outcome (Bool × ℕ) → Type 0
  Refuses r = (w : ℕ) → r.1 ≢ some (true, w)

  apply_decision-Refuses :
      (c : Circuit) (wait : ℕ) → Refuses (apply_decision fails service t c (answer false wait))
  unfolding apply_decision Refuses
  apply_decision-Refuses c wait =
      if-ind Refuses (fails commit_tx) (t, none) (put service c t, some (false, wait))
        (λ w e. absurd cc) (λ w e. absurd cc)

  pub allow_circuit-busy :
      (now db_now since : ℕ) (c : Circuit)
      → lookup service t ≡ some c
      → IsProbing since c
      → now ≤ since + 2 * p.circuit_recovery_timeout
      → Refuses (allow_circuit p fails now db_now service t)
  unfolding allow_circuit Refuses
  allow_circuit-busy now db_now since c found h l =
      let d = circuit_of db_now service t in
      let h' = subst (IsProbing since) (sym (circuit_of-found service db_now t found)) h in
      if-ind Refuses (fails_before_read fails) (t, none) _ (λ w e. absurd cc)
        (subst (λ x. Refuses (apply_decision fails service t d x))
          (sym (decide-busy p now db_now since d h' l))
          (apply_decision-Refuses d p.circuit_recovery_timeout))

-- A refused attempt leaves the probe as it is.
pub allow_circuit-waits :
    (p : ServicePolicy) (fails : Faults) (service : Bytes) (t : Circuits) (now db_now since : ℕ)
    (c : Circuit)
    → lookup service t ≡ some c
    → IsProbing since c
    → now ≤ since + 2 * p.circuit_recovery_timeout
    → lookup service (allow_circuit p fails now db_now service t).0 ≡ some c
unfolding allow_circuit apply_decision
allow_circuit-waits p fails service t now db_now since c found h l =
    let kept : Outcome (Bool × ℕ) → Type 0 = λ x. lookup service x.0 ≡ some c in
    let d = circuit_of db_now service t in
    let same = circuit_of-found service db_now t found in
    let busy = decide-busy p now db_now since d (subst (IsProbing since) (sym same) h) l in
    if-ind kept (fails_before_read fails) (t, none) _ found
      (subst (λ x. kept (apply_decision fails service t d x)) (sym busy)
        (if-ind kept (fails commit_tx) (t, none) (put service d t, some (false, _)) found
          (lookup-put service d t ∙ ap some same)))

apply_decision-Admits :
    (service : Bytes) (t : Circuits) (c : Circuit) (d : Decision)
    → Admits d
    → (apply_decision no_fault service t c d).1 ≡ some (true, 0)
unfolding apply_decision
apply_decision-Admits service t c (answer allowed wait) (a, w) =
    ap (λ b. some (b, wait)) a ∙ ap (λ n. some (true, n)) w
apply_decision-Admits service t c (admit_probe probing) h = refl

pub circuit_of-state :
    (db_now : ℕ) (service : Bytes) (t : Circuits)
    → (circuit_of db_now service t).state ≡ circuit_state service t
unfolding circuit_of circuit_state
circuit_of-state db_now service t = elim (Option-cases (lookup service t)) [
  | inl e ↦ rw (circuit_of, circuit_state, e) refl
  | inr (c, e) ↦ rw (circuit_of, circuit_state, e) refl
]

module _ (policies : Bytes → ServicePolicy)
    (positive : (service : Bytes) → 0 < (policies service).circuit_failure_threshold) (t : Circuits)
    (reachable : IsReachable policies t) where
  -- With positive thresholds, in a table that the workers can reach: when `AllowCircuit` admits an
  -- attempt although the circuit of the service is not closed, then in the table that it leaves
  -- `AllowCircuit` admits no other attempt for the service, whatever fails, until the clock is past
  -- twice the recovery timeout.
  pub probe-alone :
      (service : Bytes) (fails fails' : Faults) (now db_now now' db_now' w w' : ℕ)
      → circuit_state service t ≢ circuit_closed
      → (allow_circuit (policies service) fails now db_now service t).1 ≡ some (true, w)
      → now' ≤ db_now + 2 * (policies service).circuit_recovery_timeout
      → (allow_circuit
          (policies service)
          fails'
          now'
          db_now'
          service
          (allow_circuit (policies service) fails now db_now service t).0).1
        ≢ some (true, w')
  unfolding LeavesProbe Refuses
  probe-alone service fails fails' now db_now now' db_now' w w' h e l =
      let sound =
        circuit_of-IsSound policies t (reachable-AreSound policies t positive reachable) db_now
          service (positive service) in
      let (c, found, probing) =
        allow_circuit-probe (policies service) fails service t now db_now sound
          (λ x. h (sym (circuit_of-state db_now service t) ∙ x)) w e in
      allow_circuit-busy (policies service) fails' service _ now' db_now' db_now c found probing l
        w'

  -- With positive thresholds and no database error, in a table that the workers can reach: when the
  -- recovery timeout is over since the circuit opened, if it did, and the row has not changed for
  -- more than twice the timeout, `AllowCircuit` admits the next attempt.
  pub allow_circuit-recovers :
      (service : Bytes) (now db_now : ℕ) (c : Circuit)
      → lookup service t ≡ some c
      → ((opened : ℕ)
          → c.opened_at ≡ some opened
          → opened + (policies service).circuit_recovery_timeout ≤ now)
      → c.updated_at + 2 * (policies service).circuit_recovery_timeout < now
      → (allow_circuit (policies service) no_fault now db_now service t).1 ≡ some (true, 0)
  unfolding allow_circuit
  allow_circuit-recovers service now db_now c found o l =
      let d = circuit_of db_now service t in
      let sound = reachable-AreSound policies t positive reachable service c found in
      let p = policies service in
      apply_decision-Admits service t d (decide p now db_now d d.state) (
        subst (λ x. Admits (decide p now db_now x x.state))
          (sym (circuit_of-found service db_now t found))
          (decide-Admits p now db_now c c.state o l sound))
