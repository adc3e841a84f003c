-- ===== src/Middleware/StreamToken/Laws.antt =====
-- api/internal/middleware/stream_token.go: who is let in by a token.
use radioledger.Base.{
  ℕ, ◌≤◌, ◌≡◌, refl, true, false, ◌||◌, Bytes, List, none, some, inl, inr, equal_refl, lookup, all,
  arith, lookup-put, Bool-cases, ◌∙◌,
}
use radioledger.Base.Int.{ℤ}
use radioledger.Base.Text.{is_empty, trim_space}
use radioledger.Middleware.StreamToken.{
  StreamTokens, StreamToken, issue_stream_token, consume_stream_token, hex, accept,
  normalize_stream_path, is_positive, on_loaded, add_duration, invalid_stream_token,
}
use radioledger.Middleware.StreamToken.Uses.{
  Op, run, issues_other, leaves_alone, run-kept, run-gone, on_loaded-gone,
}

module _ (user_id : ℤ) (path : Bytes) (ttl : ℤ) (buf : Bytes) (now : ℕ) (tokens : StreamTokens)
    (a : is_positive user_id ≡ true) (b : is_positive ttl ≡ true)
    (c : is_empty (normalize_stream_path path) ≡ false) where
  issued : StreamToken
  issued = record {
    user_id = user_id;
    stream_path = normalize_stream_path path;
    expires_at = add_duration now ttl;
  }

  issue-lookup :
      lookup (hex buf) (issue_stream_token user_id path ttl (some buf) now tokens).0 ≡ some issued
  unfolding issue_stream_token issued
  issue-lookup = rw (a, b, c) (lookup-put (hex buf) _ tokens)

  accept-fresh :
      (raw : Bytes) (later : ℕ)
      → normalize_stream_path raw ≡ normalize_stream_path path
      → later ≤ add_duration now ttl
      → accept (normalize_stream_path raw) later issued ≡ inr user_id
  unfolding accept issued
  accept-fresh raw later f h =
      rw (f, equal_refl (normalize_stream_path path), a) (ground (arith, h))

consume-missing :
    (t raw : Bytes) (later : ℕ) (tokens : StreamTokens)
    → lookup (trim_space t) tokens ≡ none
    → (consume_stream_token t raw later tokens).1 ≡ inl invalid_stream_token
unfolding consume_stream_token on_loaded
consume-missing t raw later tokens h = rw h (ground arith)

-- A token that has given a user is no longer in the map.
consume-taken :
    (t raw : Bytes) (now : ℕ) (tokens : StreamTokens) {user_id : ℤ}
    → (consume_stream_token t raw now tokens).1 ≡ inr user_id
    → lookup (trim_space t) (consume_stream_token t raw now tokens).0 ≡ none
unfolding consume_stream_token
consume-taken t raw now tokens h =
    elim (Bool-cases (is_empty (trim_space t) || is_empty (normalize_stream_path raw))) [
      | inl empty ↦ absurd (ground (arith, rw empty at h))
      | inr full ↦ rw full (
          on_loaded-gone (trim_space t) (normalize_stream_path raw) now tokens
            (lookup (trim_space t) tokens) refl)
    ]

consume-found :
    (t raw : Bytes) (later : ℕ) (tokens : StreamTokens) (r : StreamToken)
    → lookup (trim_space t) tokens ≡ some r
    → is_empty (trim_space t) ≡ false
    → is_empty (normalize_stream_path raw) ≡ false
    → (consume_stream_token t raw later tokens).1 ≡ accept (normalize_stream_path raw) later r
unfolding consume_stream_token on_loaded
consume-found t raw later tokens r h e f = rw (e, f, h) refl

-- A token that IssueStreamToken returned for a user and a path is accepted by ConsumeStreamToken and
-- gives that user: with spaces around it or not, for any spelling that normalises to the same path,
-- up to the instant at which it expires and after any operations that neither issue nor consume the
-- same token nor clean up later than that. The user's id and the lifetime are positive, and neither
-- the path nor the token is empty.
pub consume-issue :
    (user_id : ℤ) (path : Bytes) (ttl : ℤ) (buf : Bytes) (now : ℕ) (tokens : StreamTokens)
    (ops : List Op) (t raw : Bytes) (later : ℕ)
    → is_positive user_id ≡ true
    → is_positive ttl ≡ true
    → is_empty (normalize_stream_path path) ≡ false
    → is_empty (hex buf) ≡ false
    → all (leaves_alone (hex buf) (add_duration now ttl)) ops ≡ true
    → trim_space t ≡ hex buf
    → normalize_stream_path raw ≡ normalize_stream_path path
    → later ≤ add_duration now ttl
    → (consume_stream_token t raw later
        (run ops (issue_stream_token user_id path ttl (some buf) now tokens).0)).1
      ≡ inr user_id
consume-issue user_id path ttl buf now tokens ops t raw later a b c d kept e f h =
    let r = issued user_id path ttl buf now tokens a b c in
    let there =
      run-kept ops (hex buf) r (issue_stream_token user_id path ttl (some buf) now tokens).0
        (unfold issued in kept) (issue-lookup user_id path ttl buf now tokens a b c) in
    consume-found t raw later
      (run ops (issue_stream_token user_id path ttl (some buf) now tokens).0) r (rw e there)
      (rw e d) (rw f c)
    ∙ accept-fresh user_id path ttl buf now tokens a b c raw later f h

-- A token works once: when ConsumeStreamToken has given a user, the token is refused as invalid
-- from then on, for every path and instant, whatever operations run in between, as long as no issue
-- draws the same random bytes again.
pub consume-once :
    (t raw : Bytes) (now : ℕ) (tokens : StreamTokens) (ops : List Op) (again : Bytes) (later : ℕ)
    {user_id : ℤ}
    → (consume_stream_token t raw now tokens).1 ≡ inr user_id
    → all (issues_other (trim_space t)) ops ≡ true
    → (consume_stream_token t again later (run ops (consume_stream_token t raw now tokens).0)).1
      ≡ inl invalid_stream_token
consume-once t raw now tokens ops again later h others =
    consume-missing t again later (run ops (consume_stream_token t raw now tokens).0) (
      run-gone ops (trim_space t) (consume_stream_token t raw now tokens).0 others
        (consume-taken t raw now tokens h))
