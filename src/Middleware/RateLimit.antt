-- ===== src/Middleware/RateLimit.antt =====
-- api/internal/middleware/ratelimit.go: one token bucket for each client address. The bucket of
-- golang.org/x/time/rate is a record of functions; instants are counts of nanoseconds.
pub mod Laws
use radioledger.Base.{
  ℕ, ◌+◌, ◌*◌, ◌^◌, Bool, true, false, not, ◌||◌, Bytes, List, [], ◌∷◌, Option, none, some, equal,
  ltb, if◌then◌else◌, lookup, put, keep,
}
use radioledger.Base.Text.{codes, is_empty}
use radioledger.Middleware.ClientIp.{Net, Request, client_ip}

-- What is used of the package rate: `NewLimiter(rps, burst)` with the settings of the server, and
-- `Allow` at an instant, which gives the limiter after the call and the answer.
pub record Bucket (Limiter : Type 0) : Type 0 where
  pub new_limiter : Limiter
  pub allow : ℕ → Limiter → Limiter × Bool

-- An `ipEntry`.
pub record IpEntry (Limiter : Type 0) : Type 0 where
  pub limiter : Limiter
  pub last_seen : ℕ

pub data Verdict : Type 0 where
  pass : Verdict
  too_many_requests : Verdict

unfoldable pub is_probe : Bytes → Bool
is_probe path =
    equal path (codes "/health") || (equal path (codes "/ready") || equal path (codes "/metrics"))

module _ {Limiter : Type 0} (bucket : Bucket Limiter) where
  abbrev pub Limiters : Type 0
  Limiters = List (Bytes × IpEntry Limiter)

  abbrev pub limiter_or_new : Option (IpEntry Limiter) → Limiter
  limiter_or_new none = bucket.new_limiter
  limiter_or_new (some entry) = entry.limiter

  -- The limiter of an address, a new one where there is none.
  unfoldable pub limiter_for_ip : Bytes → Limiters → Limiter
  limiter_for_ip ip limiters = limiter_or_new (lookup ip limiters)

  -- `limiterForIP(ip).Allow()`: the entry is a pointer, so the call shows in the map.
  unfoldable pub allow_ip : Bytes → ℕ → Limiters → Limiters × Bool
  unfolding limiter_for_ip
  allow_ip ip now limiters =
      let (after, allowed) = bucket.allow now (limiter_for_ip ip limiters) in
      (put ip (record { limiter = after; last_seen = now }) limiters, allowed)

  -- Drops the entries that were last seen before `now - ttl`.
  unfoldable pub prune : ℕ → ℕ → Limiters → Limiters
  prune ttl now limiters = keep (λ row. not (ltb (row.1.last_seen + ttl) now)) limiters

  -- What is handed on at once.
  abbrev exempt : Bytes → Bytes → Bool
  exempt path ip = is_probe path || is_empty ip

  module _ {Addr Prefix : Type 0} (net : Net Addr Prefix) (trusted : List Prefix) where
    unfoldable pub rate_limit_ip : ℕ → Request → Limiters → Limiters × Verdict
    unfolding is_probe
    rate_limit_ip now r limiters =
        let ip = client_ip net trusted r in
        let (after, allowed) = allow_ip ip now limiters in
        if exempt r.path ip
        then (limiters, pass)
        else (after, if allowed then pass else too_many_requests)
