-- ===== src/Middleware/StreamToken/Issued.antt =====
-- api/internal/middleware/stream_token.go: where the records of the map come from.
use mathlib.Core.List.{Memᴰ}
use mathlib.Core.Path.{subst}
use radioledger.Base.{
  sym, ◌∙◌, ℕ, ◌≤◌, ◌≡◌, refl, ap, ◌||◌, Bytes, List, [], ◌∷◌, Option, none, some, ◌⊎◌, inl, inr,
  equal, equal_iff, ltb, lookup, arith, remove, Bool-cases, Option-cases, All, All-keep, All-Mem,
  lookup-All, put-All, if-ind,
}
use radioledger.Base.Int.{ℤ}
use radioledger.Base.Text.{is_empty, trim_space}
use radioledger.Middleware.StreamToken.{
  StreamTokens, StreamToken, issue_stream_token, consume_stream_token, cleanup, hex, StreamError,
  accept, normalize_stream_path, is_positive, on_loaded, add_duration,
}
use radioledger.Middleware.StreamToken.Uses.{Op, issue, consume, clean, step, run}

-- The row was put in by an operation that has the property.
abbrev IsIssuedBy : (Op → Type 0) → Bytes × StreamToken → Type 0
IsIssuedBy Q row =
    (user_id : ℤ) × (path : Bytes) × (ttl : ℤ) × (buf : Bytes) × (at : ℕ) × Q
      (issue user_id path ttl (some buf) at)
    × (row.0 ≡ hex buf)
    × (row.1 ≡ record {
      user_id = user_id;
      stream_path = normalize_stream_path path;
      expires_at = add_duration at ttl;
    })

on_loaded-IsIssuedBy :
    (Q : Op → Type 0) (token path : Bytes) (now : ℕ) (tokens : StreamTokens)
    (o : Option StreamToken)
    → All (IsIssuedBy Q) tokens
    → All (IsIssuedBy Q) (on_loaded token path now tokens o).0
unfolding on_loaded
on_loaded-IsIssuedBy Q token path now tokens none a = a
on_loaded-IsIssuedBy Q token path now tokens (some r) a =
    unfold remove in All-keep (IsIssuedBy Q) _ tokens a

step-IsIssuedBy :
    (Q : Op → Type 0) (op : Op) (tokens : StreamTokens)
    → Q op
    → All (IsIssuedBy Q) tokens
    → All (IsIssuedBy Q) (step op tokens)
unfolding step
step-IsIssuedBy Q (issue user_id path ttl none now) tokens q a =
    unfold issue_stream_token in
    if-ind (λ (x : StreamTokens × (StreamError ⊎ Bytes)). All (IsIssuedBy Q) x.0) _ _ _ a a
step-IsIssuedBy Q (issue user_id path ttl (some buf) now) tokens q a =
    unfold issue_stream_token in
    if-ind (λ (x : StreamTokens × (StreamError ⊎ Bytes)). All (IsIssuedBy Q) x.0) _ _ _ a
      (put-All (IsIssuedBy Q) (hex buf) _ tokens a (user_id, path, ttl, buf, now, q, refl, refl))
step-IsIssuedBy Q (consume t path now) tokens q a =
    unfold consume_stream_token in
    if-ind (λ (x : StreamTokens × (StreamError ⊎ ℤ)). All (IsIssuedBy Q) x.0) _ _ _ a
      (on_loaded-IsIssuedBy Q (trim_space t) (normalize_stream_path path) now tokens
        (lookup (trim_space t) tokens) a)
step-IsIssuedBy Q (clean now) tokens q a = unfold cleanup in All-keep (IsIssuedBy Q) _ tokens a

run-IsIssuedBy :
    (Q : Op → Type 0) (ops : List Op) (tokens : StreamTokens)
    → All Q ops
    → All (IsIssuedBy Q) tokens
    → All (IsIssuedBy Q) (run ops tokens)
unfolding run
run-IsIssuedBy Q [] tokens q a = a
run-IsIssuedBy Q (op ∷ ops) tokens q a =
    run-IsIssuedBy Q ops (step op tokens) q.1 (step-IsIssuedBy Q op tokens q.0 a)

accept-only :
    (path : Bytes) (now : ℕ) (r : StreamToken) {user_id : ℤ}
    → accept path now r ≡ inr user_id
    → (r.user_id ≡ user_id) × (r.stream_path ≡ path) × (now ≤ r.expires_at)
unfolding accept
accept-only path now r h = elim (Bool-cases (ltb r.expires_at now)) [
  | inl late ↦ absurd (ground (arith, rw late at h))
  | inr fresh ↦ elim (Bool-cases (equal r.stream_path path)) [
    | inl same ↦ elim (Bool-cases (is_positive r.user_id)) [
      | inl known ↦ (
        ground (arith, rw (fresh, same, known) at h),
        (equal_iff r.stream_path path).0 same,
        ground arith,
      )
      | inr unknown ↦ absurd (ground (arith, rw (fresh, same, unknown) at h))
    ]
    | inr other ↦ absurd (ground (arith, rw (fresh, other) at h))
  ]
]

consume-only :
    (t raw : Bytes) (now : ℕ) (tokens : StreamTokens) {user_id : ℤ}
    → (consume_stream_token t raw now tokens).1 ≡ inr user_id
    → (r : StreamToken) × (lookup (trim_space t) tokens ≡ some r)
      × (accept (normalize_stream_path raw) now r ≡ inr user_id)
unfolding consume_stream_token on_loaded
consume-only t raw now tokens h =
    elim (Bool-cases (is_empty (trim_space t) || is_empty (normalize_stream_path raw))) [
      | inl empty ↦ absurd (ground (arith, rw empty at h))
      | inr full ↦ elim (Option-cases (lookup (trim_space t) tokens)) [
        | inl missing ↦ absurd (ground (arith, rw (full, missing) at h))
        | inr (r, there) ↦ (r, there, rw (full, there) at h)
      ]
    ]

-- Nobody is let in who was not sent: where ConsumeStreamToken gives a user after operations on an
-- empty map, one of them was an issue for that user, of that token, for a path with the same normal
-- form, and its lifetime is not over.
pub consume-IsAuthentic :
    (ops : List Op) (t raw : Bytes) (now : ℕ) {user_id : ℤ}
    → (consume_stream_token t raw now (run ops [])).1 ≡ inr user_id
    → (path : Bytes) × (ttl : ℤ) × (buf : Bytes) × (at : ℕ) × Memᴰ
        (issue user_id path ttl (some buf) at)
        ops
      × (trim_space t ≡ hex buf)
      × (normalize_stream_path raw ≡ normalize_stream_path path)
      × (now ≤ add_duration at ttl)
consume-IsAuthentic ops t raw now {user_id} h =
    let (r, there, fits) = consume-only t raw now (run ops []) h in
    let rows =
      run-IsIssuedBy (λ op. Memᴰ op ops) ops [] (All-Mem (λ op. Memᴰ op ops) ops (λ x m. m)) tt in
    let (user, path, ttl, buf, at, m, key, row) =
      lookup-All (IsIssuedBy (λ op. Memᴰ op ops)) (trim_space t) (run ops []) rows there in
    let (same_user, same_path, in_time) = accept-only (normalize_stream_path raw) now r fits in
    let issued : Memᴰ (issue user_id path ttl (some buf) at) ops =
      subst (λ u. Memᴰ (issue u path ttl (some buf) at) ops)
        (sym (ap (λ x. x.user_id) row) ∙ same_user) m in
    (
      path,
      ttl,
      buf,
      at,
      issued,
      key,
      sym same_path ∙ ap (λ x. x.stream_path) row,
      ground (arith, ap (λ x. x.expires_at) row, in_time),
    )
