-- ===== src/Sync/Rate/Bounds.antt =====
-- The rate limit of api/internal/services/sync/infra.go: how much a call adds to the counts of the
-- seconds.
use radioledger.Base.{
  ℕ, ◌+◌, ◌≤◌, ◌≡◌, refl, ap, Bool, true, false, Bytes, List, [], ◌∷◌, none, some, leb, ltb, arith,
  keep, inl, inr, Bool-cases,
}
use radioledger.Sync.Config.{ServicePolicy}
use radioledger.Sync.Rate.{Window, Query, recent, count_call, consume_rate_limit, count_at}
use radioledger.Sync.Rate.Laws.{or_zero, count_call-count_at}

-- No second has more than `k` calls of the service.
abbrev pub IsBelow : ℕ → Bytes → List Window → Type 0
IsBelow k service windows = (bucket : ℕ) → or_zero (count_at service bucket windows) ≤ k

-- The DELETE leaves the count of a second, or none of it.
count_at-recent_old :
    (service : Bytes) (bucket at : ℕ) (windows : List Window)
    → ltb (at + 60) bucket ≡ true
    → count_at service at (recent service bucket windows) ≡ none
unfolding recent count_at keep
count_at-recent_old service bucket at [] h = refl
count_at-recent_old service bucket at (w ∷ windows) h =
    ground (arith, count_at-recent_old service bucket at windows)

count_at-recent_new :
    (service : Bytes) (bucket at : ℕ) (windows : List Window)
    → ltb (at + 60) bucket ≡ false
    → count_at service at (recent service bucket windows) ≡ count_at service at windows
unfolding recent count_at keep
count_at-recent_new service bucket at [] h = refl
count_at-recent_new service bucket at (w ∷ windows) h =
    ground (arith, count_at-recent_new service bucket at windows)

recent-IsBelow :
    (service : Bytes) (bucket k : ℕ) (windows : List Window)
    → IsBelow k service windows
    → IsBelow k service (recent service bucket windows)
recent-IsBelow service bucket k windows h at = elim (Bool-cases (ltb (at + 60) bucket)) [
  | inl old ↦ rw (count_at-recent_old service bucket at windows old) (omega arith)
  | inr new ↦ rw (count_at-recent_new service bucket at windows new) (h at)
]

-- A call adds one to one second at most.
count_at-count_call :
    (service : Bytes) (bucket at : ℕ) (windows : List Window)
    → or_zero (count_at service at (count_call service bucket windows).0)
      ≤ or_zero (count_at service at windows) + 1
unfolding count_call count_at
count_at-count_call service bucket at [] = ground arith
count_at-count_call service bucket at (w ∷ windows) =
    ground (arith, count_at-count_call service bucket at windows)

-- While a service has made fewer calls in each second than its limit allows, and the database does
-- not fail, a call is let through, and adds one call at most.
pub consume_rate_limit-IsBelow :
    (p : ServicePolicy) (fails : Query → Bool) (bucket k : ℕ) (service : Bytes)
    (windows : List Window)
    → ((q : Query) → fails q ≡ false)
    → IsBelow k service windows
    → k + 1 ≤ p.rate_limit_rps
    → (after : List Window) × (consume_rate_limit p fails bucket service windows
        ≡ (after, some true))
      × IsBelow (k + 1) service after
unfolding consume_rate_limit
consume_rate_limit-IsBelow p fails bucket k service windows f h l =
    let kept = recent service bucket windows in
    let (count, at) = count_call-count_at service bucket kept in
    let below = recent-IsBelow service bucket k windows h in
    let allowed : leb (count_call service bucket kept).1 p.rate_limit_rps ≡ true =
      ground (arith, count, below bucket) in
    (
      (count_call service bucket kept).0,
      rw
          (
            f Query.begin_tx,
            f Query.take_lock,
            f Query.delete_old,
            f Query.insert_call,
            f Query.commit_tx,
          )
          (ap (λ b. ((count_call service bucket kept).0, some b)) allowed),
      λ b. omega (arith, below b, count_at-count_call service bucket b kept),
    )
