-- ===== src/Middleware/RateLimit/Laws.antt =====
-- api/internal/middleware/ratelimit.go: the requests of one client among all others, and the
-- clearing of the map.
use radioledger.Base.{
  ℕ, ◌+◌, ◌≡◌, ◌≢◌, refl, ap, ◌∙◌, Bool, true, false, not, ◌&&◌, ◌||◌, Bytes, List, [], ◌∷◌, Option,
  none, some, if◌then◌else◌, if-ind, arith, all, equal, equal_iff, ltb, lookup, lookup-put,
  lookup-put_other, lookup-keep, lookup-keep-none, has_distinct_keys, has_distinct_keys-put,
  has_distinct_keys-keep, lookup-keep-dropped, Bool-cases, Option-cases, inl, inr,
}
use radioledger.Base.Text.{is_empty}
use radioledger.Middleware.ClientIp.{Net, Request, client_ip, remote_ip_from_addr, is_trusted_proxy}
use radioledger.Middleware.ClientIp.Laws.{client_ip-untrusted}
use radioledger.Middleware.RateLimit.{
  Bucket, IpEntry, Limiters, Verdict, pass, too_many_requests, allow_ip, limiter_for_ip,
  limiter_or_new, is_probe, prune, rate_limit_ip,
}

-- A request, or a round of the pruning loop, with its instant.
pub data Event : Type 0 where
  serve : ℕ → Request → Event
  prune_older : ℕ → ℕ → Event

module _ {Limiter Addr Prefix : Type 0} (bucket : Bucket Limiter) (net : Net Addr Prefix)
    (trusted : List Prefix) (remote : Bytes) where
  -- The request reaches the server from the address, and is no probe.
  unfoldable pub comes_from : Request → Bool
  comes_from r = equal (remote_ip_from_addr net r.remote_addr) remote && not (is_probe r.path)

  -- No request is counted under the address but those that come from it.
  unfoldable pub is_apart : Event → Bool
  unfolding comes_from
  is_apart (serve now r) =
      comes_from r || (is_probe r.path || not (equal (client_ip net trusted r) remote))
  is_apart (prune_older ttl now) = true

  -- The answers to the requests that come from the address.
  unfoldable pub verdicts : List Event → Limiters bucket → List Verdict
  unfolding comes_from
  verdicts [] limiters = []
  verdicts (serve now r ∷ es) limiters =
      let (after, v) = rate_limit_ip bucket net trusted now r limiters in
      let rest = verdicts es after in if comes_from r then v ∷ rest else rest
  verdicts (prune_older ttl now ∷ es) limiters = verdicts es (prune bucket ttl now limiters)

  abbrev pub pruned : ℕ → ℕ → Option (IpEntry Limiter) → Option (IpEntry Limiter)
  pruned ttl now none = none
  pruned ttl now (some entry) = if ltb (entry.last_seen + ttl) now then none else some entry

  abbrev pub verdict_of : Bool → Verdict
  verdict_of allowed = if allowed then pass else too_many_requests

  -- The answers of one limiter that nothing is asked for but the requests from the address; a new
  -- one takes its place when it has not been asked for longer than a round of pruning allows.
  unfoldable pub answers : List Event → Option (IpEntry Limiter) → List Verdict
  unfolding comes_from
  answers [] entry = []
  answers (serve now r ∷ es) entry =
      let (after, allowed) = bucket.allow now (limiter_or_new bucket entry) in
      let asked = answers es (some (record { limiter = after; last_seen = now })) in
      let other = answers es entry in if comes_from r then verdict_of allowed ∷ asked else other
  answers (prune_older ttl now ∷ es) entry = answers es (pruned ttl now entry)

  rate_limit_ip-untrusted :
      (now : ℕ) (r : Request) (limiters : Limiters bucket)
      → is_empty remote ≡ false
      → is_trusted_proxy net trusted remote ≡ false
      → comes_from r ≡ true
      → rate_limit_ip bucket net trusted now r limiters ≡ (
        (allow_ip bucket remote now limiters).0,
        verdict_of (bucket.allow now (limiter_for_ip bucket remote limiters)).1,
      )
  unfolding rate_limit_ip comes_from allow_ip
  rate_limit_ip-untrusted now r limiters e f h =
      let same : remote_ip_from_addr net r.remote_addr ≡ remote =
        (equal_iff (remote_ip_from_addr net r.remote_addr) remote).0 (ground arith) in
      let here : client_ip net trusted r ≡ remote =
        client_ip-untrusted net trusted r (rw same e) (rw same f) ∙ same in
      let served : is_probe r.path ≡ false = ground arith in rw (here, served, e) refl

  -- A request that is not counted under the address leaves its entry alone.
  rate_limit_ip-other :
      (now : ℕ) (r : Request) (limiters : Limiters bucket)
      → comes_from r ≡ false
      → is_apart (serve now r) ≡ true
      → lookup remote (rate_limit_ip bucket net trusted now r limiters).0 ≡ lookup remote limiters
  unfolding rate_limit_ip is_apart allow_ip
  rate_limit_ip-other now r limiters other apart = elim (Bool-cases (is_probe r.path)) [
    | inl probe ↦ rw probe refl
    | inr served ↦
        let ip = client_ip net trusted r in
        let far : remote ≢ ip = λ e. ground (arith, other, served, apart, equal_iff ip remote, e) in
        if-ind (λ (x : Limiters bucket × Verdict). lookup remote x.0 ≡ lookup remote limiters) _ _ _
          refl (lookup-put_other remote ip _ limiters far)
  ]

  rate_limit_ip-distinct :
      (now : ℕ) (r : Request) (limiters : Limiters bucket)
      → has_distinct_keys limiters ≡ true
      → has_distinct_keys (rate_limit_ip bucket net trusted now r limiters).0 ≡ true
  unfolding rate_limit_ip allow_ip
  rate_limit_ip-distinct now r limiters d =
      if-ind (λ (x : Limiters bucket × Verdict). has_distinct_keys x.0 ≡ true) _ _ _ d
        (has_distinct_keys-put (client_ip net trusted r) _ limiters d)

  lookup-prune :
      (ttl now : ℕ) (limiters : Limiters bucket)
      → has_distinct_keys limiters ≡ true
      → lookup remote (prune bucket ttl now limiters) ≡ pruned ttl now (lookup remote limiters)
  unfolding prune
  lookup-prune ttl now limiters d = elim (Option-cases (lookup remote limiters)) [
    | inl missing ↦ rw missing (lookup-keep-none _ remote limiters missing)
    | inr (entry, found) ↦ elim (Bool-cases (ltb (entry.last_seen + ttl) now)) [
      | inl old ↦ rw (found, old) (lookup-keep-dropped _ remote limiters d found (rw old refl))
      | inr recent ↦ rw (found, recent) (lookup-keep _ remote limiters found (rw recent refl))
    ]
  ]

  -- Neither the headers of a request nor the requests of others get a client past its limiter: the
  -- requests that reach the server from one address, which is no trusted proxy, are answered as one
  -- limiter answers that is asked for them alone, whatever they say in their headers, among requests
  -- that are not counted under the address. A round of pruning behind a pause of the client that is
  -- longer than its limit puts a new limiter in the place of the old one, and nothing else does. The
  -- probes aside, on a map with one entry for an address.
  pub verdicts-answers :
      (es : List Event) (limiters : Limiters bucket)
      → is_empty remote ≡ false
      → is_trusted_proxy net trusted remote ≡ false
      → has_distinct_keys limiters ≡ true
      → all is_apart es ≡ true
      → verdicts es limiters ≡ answers es (lookup remote limiters)
  unfolding verdicts answers all limiter_for_ip
  verdicts-answers [] limiters e f d h = refl
  verdicts-answers (prune_older ttl now ∷ es) limiters e f d h =
      verdicts-answers es (prune bucket ttl now limiters) e f
        (unfold prune in has_distinct_keys-keep _ limiters d) (ground arith)
      ∙ ap (answers es) (lookup-prune ttl now limiters d)
  verdicts-answers (serve now r ∷ es) limiters e f d h =
      let after = (rate_limit_ip bucket net trusted now r limiters).0 in
      let rest =
        verdicts-answers es after e f (rate_limit_ip-distinct now r limiters d) (ground arith) in
      elim (Bool-cases (comes_from r)) [
        | inl ours ↦
            let served = rate_limit_ip-untrusted now r limiters e f ours in
            let entry : lookup remote after
                ≡ some (record {
                  limiter = (bucket.allow now (limiter_for_ip bucket remote limiters)).0;
                  last_seen = now;
                }) =
              ap (λ x. lookup remote x.0) served
              ∙ unfold allow_ip in lookup-put remote _ limiters in
            rw ours (
              ap (λ (x : Limiters bucket × Verdict). x.1 ∷ verdicts es after) served
              ∙ ap (◌∷◌ (verdict_of (bucket.allow now (limiter_for_ip bucket remote limiters)).1))
                  (rest ∙ ap (answers es) entry))
        | inr other ↦
            rw other
              (rest ∙ ap (answers es) (rate_limit_ip-other now r limiters other (ground arith)))
      ]
