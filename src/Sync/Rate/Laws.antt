-- ===== src/Sync/Rate/Laws.antt =====
-- The rate limit of api/internal/services/sync/infra.go: the calls of one second.
use Prim.Native.Nat.{min}
use radioledger.Base.{
  not, ◌∙◌, ap, ℕ, zero, suc, ◌+◌, ◌≡◌, ◌∙◌, refl, Bool, true, false, Bytes, List, [], ◌∷◌, Option,
  none, some, leb, arith, equal_iff, keep, if◌then◌else◌, not,
}
use radioledger.Sync.Config.{ServicePolicy}
use radioledger.Sync.Rate.{
  Window, Query, recent, count_call, consume_rate_limit, count_at, is_rate_limited_now,
}

abbrev pub or_zero : Option ℕ → ℕ
or_zero none = 0
or_zero (some n) = n

-- A call is counted in its second, and the count that it reads is the new one.
pub count_call-count_at :
    (service : Bytes) (bucket : ℕ) (windows : List Window)
    → let n = or_zero (count_at service bucket windows) + 1 in
      ((count_call service bucket windows).1 ≡ n)
      × (count_at service bucket (count_call service bucket windows).0 ≡ some n)
unfolding count_call count_at
count_call-count_at service bucket [] = (refl, ground (arith, equal_iff service service))
count_call-count_at service bucket (w ∷ windows) =
    ground (arith, count_call-count_at service bucket windows)

-- The DELETE does not touch the present second.
pub count_at-recent :
    (service : Bytes) (bucket : ℕ) (windows : List Window)
    → count_at service bucket (recent service bucket windows) ≡ count_at service bucket windows
unfolding recent count_at keep
count_at-recent service bucket [] = refl
count_at-recent service bucket (w ∷ windows) =
    ground (arith, count_at-recent service bucket windows)

abbrev is_yes : Option Bool → Bool
is_yes (some true) = true
is_yes _ = false

abbrev pub no_query_fails : Query → Bool
no_query_fails _ = false

-- `n` calls in one second, and how many of them are let through.
abbrev pub calls : ServicePolicy → ℕ → Bytes → List Window → ℕ → List Window × ℕ
calls p bucket service windows zero = (windows, 0)
calls p bucket service windows (suc n) =
    let (before, passed) = calls p bucket service windows n in
    let (after, allowed) = consume_rate_limit p no_query_fails bucket service before in
    (after, if is_yes allowed then suc passed else passed)

module _ (p : ServicePolicy) (bucket : ℕ) (service : Bytes) where
  consume-count :
      (windows : List Window)
      → let n = or_zero (count_at service bucket windows) + 1 in
        (count_at service bucket (consume_rate_limit p no_query_fails bucket service windows).0
          ≡ some n)
        × ((consume_rate_limit p no_query_fails bucket service windows).1
            ≡ some (leb n p.rate_limit_rps))
  unfolding consume_rate_limit
  consume-count windows =
      let (count, at) = count_call-count_at service bucket (recent service bucket windows) in
      rw (← count_at-recent service bucket windows)
        (at, ap (λ k. some (leb k p.rate_limit_rps)) count)

  calls-count :
      (windows : List Window) (n : ℕ)
      → count_at service bucket windows ≡ none
      → (or_zero (count_at service bucket (calls p bucket service windows n).0) ≡ n)
        × ((calls p bucket service windows n).1 ≡ min n p.rate_limit_rps)
  calls-count windows zero h = (rw (h) refl, (omega arith))
  calls-count windows (suc n) h =
      let before = (calls p bucket service windows n).0 in
      let (count, passed) = calls-count windows n h in
      let c = consume-count before in
      (rw c.0 (omega (arith, count)), rw c.1 (ground (arith, count, passed)))

  -- In a second in which the service has made no call yet, of `n` calls exactly the smaller of `n`
  -- and the rate limit are let through, when the database does not fail.
  pub calls-min :
      (windows : List Window) (n : ℕ)
      → count_at service bucket windows ≡ none
      → (calls p bucket service windows n).1 ≡ min n p.rate_limit_rps
  calls-min windows n h = (calls-count windows n h).1

  -- Behind a call in the same second, `IsRateLimitedNow` answers, and says whether the next call of
  -- the service would be refused.
  pub is_rate_limited_now-next :
      (windows : List Window)
      → let after = (consume_rate_limit p no_query_fails bucket service windows).0 in
        (b : Bool) × (is_rate_limited_now p bucket service after ≡ some b)
        × ((consume_rate_limit p no_query_fails bucket service after).1 ≡ some (not b))
  unfolding is_rate_limited_now
  is_rate_limited_now-next windows =
      let after = (consume_rate_limit p no_query_fails bucket service windows).0 in
      let n = or_zero (count_at service bucket windows) + 1 in
      let at = (consume-count windows).0 in
      let next = (consume-count after).1 in
      (leb p.rate_limit_rps n, rw (is_rate_limited_now, at) refl, next ∙ rw (at) (ground arith))
