-- ===== src/Sync/Rate.antt =====
-- api/internal/services/sync/infra.go: the rate limit that the sync workers share, a count of calls
-- for each service and second in the table sync_rate_limit_window. A bucket is a second; the clock
-- is the database's. Each call is one transaction under an advisory lock; one that fails leaves the
-- table as it was, and reports an error, `none`.
pub mod Laws
pub mod Bounds
use radioledger.Base.{
  ℕ, zero, suc, ◌+◌, ◌==◌, Bool, true, false, not, ◌&&◌, ◌||◌, Bytes, List, [], ◌∷◌, Option, none,
  some, equal, leb, ltb, keep, if◌then◌else◌,
}
use radioledger.Sync.Config.{ServicePolicy}

pub record Window : Type 0 where
  pub service : Bytes
  pub bucket_start : ℕ
  pub count : ℕ

pub data Query : Type 0 where
  begin_tx : Query
  take_lock : Query
  delete_old : Query
  insert_call : Query
  commit_tx : Query

-- The rows that the DELETE leaves: those of the other services, and of the last minute.
unfoldable pub recent : Bytes → ℕ → List Window → List Window
recent service bucket windows =
    keep (λ w. not (equal w.service service && ltb (w.bucket_start + 60) bucket)) windows

abbrev pub is_at : Bytes → ℕ → Window → Bool
is_at service bucket w = equal w.service service && w.bucket_start == bucket

-- The upsert of a call, and the count that it returns.
unfoldable pub count_call : Bytes → ℕ → List Window → List Window × ℕ
count_call service bucket [] =
    (record { service = service; bucket_start = bucket; count = 1 } ∷ [], 1)
count_call service bucket (w ∷ windows) =
    let (rest, n) = count_call service bucket windows in
    if is_at service bucket w
    then (record w { count = w.count + 1 } ∷ windows, w.count + 1)
    else (w ∷ rest, n)

unfoldable pub consume_rate_limit :
    ServicePolicy → (Query → Bool) → ℕ → Bytes → List Window → List Window × Option Bool
unfolding count_call recent
consume_rate_limit p fails bucket service windows =
    if fails begin_tx
      || (fails take_lock || (fails delete_old || (fails insert_call || fails commit_tx)))
    then (windows, none)
    else let (after, count) = count_call service bucket (recent service bucket windows) in
      (after, some (leb count p.rate_limit_rps))

-- The count of a service in a second, if there is a row for it.
unfoldable pub count_at : Bytes → ℕ → List Window → Option ℕ
count_at service bucket [] = none
count_at service bucket (w ∷ windows) =
    let rest = count_at service bucket windows in
    if is_at service bucket w then some w.count else rest

-- Where there is no row, the query has no result, and its Scan is an error.
unfoldable pub is_rate_limited_now : ServicePolicy → ℕ → Bytes → List Window → Option Bool
unfolding count_at
is_rate_limited_now p bucket service windows = elim (count_at service bucket windows) [
  | none ↦ none
  | some count ↦ some (leb p.rate_limit_rps count)
]
