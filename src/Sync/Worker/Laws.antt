-- ===== src/Sync/Worker/Laws.antt =====
-- api/internal/services/sync/worker_base.go: a worker, the circuit and the rate limit together.
use radioledger.Base.{
  ℕ, ◌+◌, ◌*◌, ◌≤◌, ◌<◌, ◌≡◌, ◌≢◌, refl, Bool, true, false, Bytes, List, Option, none, some, arith,
}
use mathlib.Core.Path.{subst}
use radioledger.Sync.Config.{ServicePolicy}
use radioledger.Sync.Circuit.Probe.{
  IsProbing, LeavesProbe, Refuses, allow_circuit-busy, allow_circuit-waits, allow_circuit-probe,
  circuit_of-state,
}
use radioledger.Sync.Circuit.Invariant.{IsReachable, reachable-AreSound, circuit_of-IsSound}
use radioledger.Sync.Circuit.Trip.{others-kept}
use radioledger.Sync.Worker.{Handled, executed}
use radioledger.Sync.Circuit.{Circuit}
use radioledger.Base.{
  [], ◌∷◌, ◌∙◌, sym, not, ◌&&◌, ◌||◌, equal, equal_iff, leb, any, all, lookup, Bool-cases, inl, inr,
}
use radioledger.Sync.Circuit.{Circuits, Outcome, circuit_closed, circuit_state, allow_circuit}
use radioledger.Sync.Rate.{Window, consume_rate_limit}
use radioledger.Sync.Worker.{
  Tables, Conditions, snoozed, one_second, handle, on_circuit, on_rate, has_worked,
}

on_rate-limited :
    (p : ServicePolicy) (c : Conditions) (service : Bytes) (circuits : Circuits)
    (o : List Window × Option Bool)
    → o.1 ≡ some false
    → ((on_rate p c service circuits o).0.circuits ≡ circuits)
      × ((on_rate p c service circuits o).1 ≡ snoozed one_second)
on_rate-limited p c service circuits (windows, none) h = absurd (ground arith)
on_rate-limited p c service circuits (windows, some false) h = (refl, refl)
on_rate-limited p c service circuits (windows, some true) h = absurd (ground arith)

on_circuit-limited :
    (p : ServicePolicy) (c : Conditions) (service : Bytes) (windows : List Window)
    (o : Outcome (Bool × ℕ)) (w : ℕ)
    → o.1 ≡ some (true, w)
    → (consume_rate_limit p c.rate_faults c.bucket service windows).1 ≡ some false
    → ((on_circuit p c service windows o).0.circuits ≡ o.0)
      × ((on_circuit p c service windows o).1 ≡ snoozed one_second)
on_circuit-limited p c service windows (circuits, none) w e h = absurd (ground arith)
on_circuit-limited p c service windows (circuits, some (false, wait)) w e h = absurd (ground arith)
on_circuit-limited p c service windows (circuits, some (true, wait)) w e h =
    on_rate-limited p c service circuits
      (consume_rate_limit p c.rate_faults c.bucket service windows) h

-- The results of calls of `Handle`, one behind the other, with their services.
unfoldable pub handles :
    (Bytes → ServicePolicy) → List (Bytes × Conditions) → Tables → List (Bytes × Handled)
handles policies [] t = []
handles policies ((service, c) ∷ cs) t =
    let (after, h) = handle (policies service) c service t in
    (service, h) ∷ handles policies cs after

abbrev pub works_for : Bytes → Bytes × Handled → Bool
works_for service (s, h) = equal s service && has_worked h

-- The call is for another service, or comes no later than the instant.
abbrev pub is_until : Bytes → ℕ → Bytes × Conditions → Bool
is_until service at (s, c) = not (equal s service) || leb c.now at

-- A probe of the service has been under way since the instant.
abbrev IsBlocked : Bytes → ℕ → Circuits → Type 0
IsBlocked service since t = (c : Circuit) × (lookup service t ≡ some c) × IsProbing since c

module _ (p : ServicePolicy) (c : Conditions) (service : Bytes) (since : ℕ) where
  abbrev IsKeptOut : Tables × Handled → Type 0
  IsKeptOut x = (has_worked x.1 ≡ false) × IsBlocked service since x.0.circuits

  on_circuit-IsKeptOut :
      (windows : List Window) (o : Outcome (Bool × ℕ))
      → ((w : ℕ) → o.1 ≢ some (true, w))
      → IsBlocked service since o.0
      → IsKeptOut (on_circuit p c service windows o)
  unfolding has_worked
  on_circuit-IsKeptOut windows (circuits, none) h b = (refl, b)
  on_circuit-IsKeptOut windows (circuits, some (false, wait)) h b = (refl, b)
  on_circuit-IsKeptOut windows (circuits, some (true, wait)) h b = absurd (h wait refl)

  handle-IsKeptOut :
      (t : Tables)
      → IsBlocked service since t.circuits
      → c.now ≤ since + 2 * p.circuit_recovery_timeout
      → IsKeptOut (handle p c service t)
  unfolding handle Refuses
  handle-IsKeptOut t (row, found, probing) l =
      on_circuit-IsKeptOut t.windows
        (allow_circuit p c.allow_faults c.now c.db_now service t.circuits)
        (allow_circuit-busy p c.allow_faults service t.circuits c.now c.db_now since row found
          probing l)
        (
          row,
          allow_circuit-waits p c.allow_faults service t.circuits c.now c.db_now since row found
              probing l,
          probing,
        )

  -- A call for another service leaves the row alone.
  module _ (other : Bytes) (far : service ≢ other) where
    executed-row :
        (circuits : Circuits) (windows : List Window) (work : Option Bytes)
        → lookup service (executed p c other circuits windows work).0.circuits
          ≡ lookup service circuits
    executed-row circuits windows (some message) =
        (others-kept p c.record_faults 0 c.recorded_at service other message circuits far).2
    executed-row circuits windows none =
        (others-kept p c.record_faults 0 c.recorded_at service other [] circuits far).1

    on_rate-row :
        (circuits : Circuits) (o : List Window × Option Bool)
        → lookup service (on_rate p c other circuits o).0.circuits ≡ lookup service circuits
    on_rate-row circuits (windows, none) = refl
    on_rate-row circuits (windows, some false) = refl
    on_rate-row circuits (windows, some true) = executed-row circuits windows c.work

    on_circuit-row :
        (windows : List Window) (o : Outcome (Bool × ℕ))
        → lookup service (on_circuit p c other windows o).0.circuits ≡ lookup service o.0
    on_circuit-row windows (circuits, none) = refl
    on_circuit-row windows (circuits, some (false, wait)) = refl
    on_circuit-row windows (circuits, some (true, wait)) =
        on_rate-row circuits (consume_rate_limit p c.rate_faults c.bucket other windows)

    handle-row :
        (t : Tables) → lookup service (handle p c other t).0.circuits ≡ lookup service t.circuits
    unfolding handle
    handle-row t =
        on_circuit-row t.windows (allow_circuit p c.allow_faults c.now c.db_now other t.circuits)
        ∙ (others-kept p c.allow_faults c.now c.db_now service other [] t.circuits far).0

handles-kept_out :
    (policies : Bytes → ServicePolicy) (service : Bytes) (since : ℕ)
    (cs : List (Bytes × Conditions)) (t : Tables)
    → IsBlocked service since t.circuits
    → all (is_until service (since + 2 * (policies service).circuit_recovery_timeout)) cs ≡ true
    → any (works_for service) (handles policies cs t) ≡ false
unfolding handles any all
handles-kept_out policies service since [] t b h = refl
handles-kept_out policies service since ((s, c) ∷ cs) t b h = elim (Bool-cases (equal s service)) [
  | inl same ↦
      let until : c.now ≤ since + 2 * (policies service).circuit_recovery_timeout = ground arith in
      let (idle, blocked) =
        subst
          (λ x.
            (has_worked (handle (policies x) c x t).1 ≡ false)
            × IsBlocked service since (handle (policies x) c x t).0.circuits)
          (sym ((equal_iff s service).0 same))
          (handle-IsKeptOut (policies service) c service since t b until) in
      let rest =
        handles-kept_out policies service since cs (handle (policies s) c s t).0 blocked
          (ground arith) in
      ground (arith, idle, rest)
  | inr other ↦
      let (row, found, probing) = b in
      let far : service ≢ s = λ e. ground (arith, other, e, equal_iff s service) in
      let blocked : IsBlocked service since (handle (policies s) c s t).0.circuits =
        (row, handle-row (policies s) c service since s far t ∙ found, probing) in
      let rest =
        handles-kept_out policies service since cs (handle (policies s) c s t).0 blocked
          (ground arith) in
      ground (arith, other, rest)
]

module _ (policies : Bytes → ServicePolicy)
    (positive : (service : Bytes) → 0 < (policies service).circuit_failure_threshold) (t : Tables)
    (reachable : IsReachable policies t.circuits) where
  -- A probe that meets the rate limit blocks its service. With positive thresholds, in tables that
  -- the workers can reach: when the circuit of the service is not closed, `AllowCircuit` admits the
  -- attempt and the rate limit refuses it, then `Handle` snoozes for a second, but of the calls of
  -- `Handle` that follow, for any services, each begun when the one before has ended and nothing else
  -- changing the tables, none for the service does its work until twice the recovery timeout is over.
  pub handle_limited :
      (service : Bytes) (c : Conditions) (cs : List (Bytes × Conditions)) (w : ℕ)
      → circuit_state service t.circuits ≢ circuit_closed
      → (allow_circuit (policies service) c.allow_faults c.now c.db_now service t.circuits).1
        ≡ some (true, w)
      → (consume_rate_limit (policies service) c.rate_faults c.bucket service t.windows).1
        ≡ some false
      → all (is_until service (c.db_now + 2 * (policies service).circuit_recovery_timeout)) cs
        ≡ true
      → ((handle (policies service) c service t).1 ≡ snoozed one_second)
        × (any (works_for service) (handles policies cs (handle (policies service) c service t).0)
            ≡ false)
  unfolding handle LeavesProbe
  handle_limited service c cs w not_closed admitted limited l =
      let p = policies service in
      let o = allow_circuit p c.allow_faults c.now c.db_now service t.circuits in
      let (kept, snoozes) = on_circuit-limited p c service t.windows o w admitted limited in
      let sound =
        circuit_of-IsSound policies t.circuits
          (reachable-AreSound policies t.circuits positive reachable) c.db_now service
          (positive service) in
      let blocked =
        allow_circuit-probe p c.allow_faults service t.circuits c.now c.db_now sound
          (λ x. not_closed (sym (circuit_of-state c.db_now service t.circuits) ∙ x)) w admitted in
      (
        snoozes,
        handles-kept_out policies service c.db_now cs (on_circuit p c service t.windows o).0
            (rw kept blocked) l,
      )
