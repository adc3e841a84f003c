-- ===== src/Sync/Config.antt =====
-- api/internal/services/sync/infra.go: the policy of each service and how the configuration
-- overrides it. Durations are nanoseconds; a limit that is not positive is 0 here.
use radioledger.Base.{
  ℕ, zero, suc, ◌*◌, Bytes, List, [], ◌∷◌, map, some, none, lookup, put, if◌then◌else◌, ltb,
}
use radioledger.Base.Text.{codes}

pub record ServicePolicy : Type 0 where
  pub rate_limit_rps : ℕ
  pub max_retries : ℕ
  pub circuit_failure_threshold : ℕ
  pub circuit_recovery_timeout : ℕ

abbrev pub second : ℕ
second = 1_000_000_000

-- `InfraConfig`, less `RetryJitter`, a float.
pub record InfraConfig : Type 0 where
  pub services : List (Bytes × ServicePolicy)
  pub retry_base_delay : ℕ
  pub retry_max_delay : ℕ
  pub queue_warn_depth : ℕ
  pub queue_crit_depth : ℕ

-- The fields of `config.Config` that are read; the limits by service.
pub record SyncSettings : Type 0 where
  pub rate_limits : List (Bytes × ℕ)
  pub max_retries : List (Bytes × ℕ)
  pub retry_base_delay : ℕ
  pub retry_max_delay : ℕ
  pub circuit_failure_threshold : ℕ
  pub circuit_recovery_timeout : ℕ
  pub queue_warn_depth : ℕ
  pub queue_critical_depth : ℕ

abbrev pub policy_of : ℕ → ServicePolicy
policy_of rps = record {
  rate_limit_rps = rps;
  max_retries = 8;
  circuit_failure_threshold = 5;
  circuit_recovery_timeout = 60 * second;
}

abbrev pub default_policy : ServicePolicy
default_policy = policy_of 1

abbrev pub default_infra_config : InfraConfig
default_infra_config = record {
  services =
      (codes "eqsl", default_policy)
      ∷ (codes "clublog", policy_of 5)
      ∷ (codes "lotw", default_policy)
      ∷ (codes "qrz", policy_of 2)
      ∷ (codes "sota", default_policy)
      ∷ (codes "pota", default_policy)
      ∷ [];
  retry_base_delay = 1 * second;
  retry_max_delay = 300 * second;
  queue_warn_depth = 1_000;
  queue_crit_depth = 10_000;
}

-- `policy`: a service with no entry has the default one.
unfoldable pub policy : InfraConfig → Bytes → ServicePolicy
policy cfg service = elim (lookup service cfg.services) [ some p ↦ p | none ↦ default_policy ]

abbrev zero_policy : ServicePolicy
zero_policy = record {
  rate_limit_rps = 0;
  max_retries = 0;
  circuit_failure_threshold = 0;
  circuit_recovery_timeout = 0;
}

-- A read of a Go map: the zero value when the key is missing.
abbrev get_policy : Bytes → List (Bytes × ServicePolicy) → ServicePolicy
get_policy service m = elim (lookup service m) [ some p ↦ p | none ↦ zero_policy ]

abbrev override : ℕ → ℕ → ℕ
override zero old = old
override (suc n) old = suc n

-- The loops over `rateLimits` and `maxRetries`: a positive number replaces the policy's.
unfoldable pub override_each :
    (ServicePolicy → ℕ → ServicePolicy)
    → List (Bytes × ℕ)
    → List (Bytes × ServicePolicy)
    → List (Bytes × ServicePolicy)
unfolding lookup put
override_each set [] m = m
override_each set ((service, n) ∷ rest) m =
    if ltb 0 n
    then override_each set rest (put service (set (get_policy service m) n) m)
    else override_each set rest m

abbrev set_rate_limit : ServicePolicy → ℕ → ServicePolicy
set_rate_limit p n = record p { rate_limit_rps = n }

abbrev set_max_retries : ServicePolicy → ℕ → ServicePolicy
set_max_retries p n = record p { max_retries = n }

-- The loops over all services for the two settings of the circuit.
abbrev override_circuit : SyncSettings → Bytes × ServicePolicy → Bytes × ServicePolicy
override_circuit cfg (service, p) = (
  service,
  record p {
    circuit_failure_threshold = override cfg.circuit_failure_threshold p.circuit_failure_threshold;
    circuit_recovery_timeout = override cfg.circuit_recovery_timeout p.circuit_recovery_timeout;
  },
)

-- `loadInfraConfigFromConfig` with a configuration.
unfoldable pub load_infra_config : SyncSettings → InfraConfig
unfolding override_each
load_infra_config cfg = record {
  services = map (override_circuit cfg) (
      override_each set_max_retries cfg.max_retries
        (override_each set_rate_limit cfg.rate_limits default_infra_config.services));
  retry_base_delay = override cfg.retry_base_delay default_infra_config.retry_base_delay;
  retry_max_delay = override cfg.retry_max_delay default_infra_config.retry_max_delay;
  queue_warn_depth = override cfg.queue_warn_depth default_infra_config.queue_warn_depth;
  queue_crit_depth = override cfg.queue_critical_depth default_infra_config.queue_crit_depth;
}
