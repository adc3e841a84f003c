-- ===== src/Middleware/StreamToken/Uses.antt =====
-- api/internal/middleware/stream_token.go: the operations on the map, one behind the other, and
-- what they do to the record of one token.
use mathlib.Core.Path.{subst}
use radioledger.Base.{
  ◌/◌, ◌%◌, ℕ, ◌≡◌, refl, Bool, true, false, not, Bytes, List, [], ◌∷◌, Option, none, some, ◌⊎◌,
  inl, inr, equal, equal_iff, leb, ltb, lookup, all, arith, lookup-put_other, lookup-remove_other,
  lookup-remove, lookup-keep, lookup-keep-none, Bool-cases, if-ind, equal_refl, ◌∙◌,
}
use radioledger.Base.Int.{ℤ}
use radioledger.Base.Text.{trim_space, is_space}
use radioledger.Base.Text.Trim.{trim_space-solid}
use radioledger.Middleware.StreamToken.{
  StreamTokens, StreamToken, issue_stream_token, consume_stream_token, cleanup, hex, hex_digit,
  on_loaded, normalize_stream_path, StreamError,
}

-- An operation with its arguments; the last one is the instant at which it runs.
pub data Op : Type 0 where
  issue : ℤ → Bytes → ℤ → Option Bytes → ℕ → Op
  consume : Bytes → Bytes → ℕ → Op
  clean : ℕ → Op

unfoldable pub step : Op → StreamTokens → StreamTokens
step (issue user_id path ttl random now) tokens =
    (issue_stream_token user_id path ttl random now tokens).0
step (consume token path now) tokens = (consume_stream_token token path now tokens).0
step (clean now) tokens = cleanup now tokens

unfoldable pub run : List Op → StreamTokens → StreamTokens
unfolding step
run [] tokens = tokens
run (op ∷ ops) tokens = run ops (step op tokens)

-- The operation does not issue the token.
abbrev pub issues_other : Bytes → Op → Bool
issues_other token (issue user_id path ttl none now) = true
issues_other token (issue user_id path ttl (some buf) now) = not (equal (hex buf) token)
issues_other token (consume t path now) = true
issues_other token (clean now) = true

-- The operation is about another token, or cleans up no later than at the instant given.
abbrev pub leaves_alone : Bytes → ℕ → Op → Bool
leaves_alone token expires_at (issue user_id path ttl none now) = true
leaves_alone token expires_at (issue user_id path ttl (some buf) now) = not (equal (hex buf) token)
leaves_alone token expires_at (consume t path now) = not (equal (trim_space t) token)
leaves_alone token expires_at (clean now) = leb now expires_at

hex_digit-solid : (n : ℕ) → is_space (hex_digit n) ≡ false
unfolding is_space hex_digit
hex_digit-solid n = ground arith

hex-solid : (buf : Bytes) → all (λ c. not (is_space c)) (hex buf) ≡ true
unfolding all hex
hex-solid [] = refl
hex-solid (b ∷ s) = ground (arith, hex_digit-solid (b / 16), hex_digit-solid (b % 16), hex-solid s)

-- A token as it is printed has no space around it.
pub trim_space-hex : (buf : Bytes) → trim_space (hex buf) ≡ hex buf
trim_space-hex buf = trim_space-solid (hex buf) (hex-solid buf)

issue-lookup :
    (user_id : ℤ) (path : Bytes) (ttl : ℤ) (random : Option Bytes) (now : ℕ) (token : Bytes)
    (tokens : StreamTokens)
    → issues_other token (issue user_id path ttl random now) ≡ true
    → lookup token (issue_stream_token user_id path ttl random now tokens).0 ≡ lookup token tokens
unfolding issue_stream_token
issue-lookup user_id path ttl none now token tokens h =
    if-ind (λ (x : StreamTokens × (StreamError ⊎ Bytes)). lookup token x.0 ≡ lookup token tokens) _
      _ _ refl refl
issue-lookup user_id path ttl (some buf) now token tokens h =
    if-ind (λ (x : StreamTokens × (StreamError ⊎ Bytes)). lookup token x.0 ≡ lookup token tokens) _
      _ _ refl
      (lookup-put_other token (hex buf) _ tokens (λ e. ground (arith, e, equal_refl token)))

on_loaded-lookup :
    (t path : Bytes) (now : ℕ) (token : Bytes) (tokens : StreamTokens) (o : Option StreamToken)
    → equal t token ≡ false
    → lookup token (on_loaded t path now tokens o).0 ≡ lookup token tokens
unfolding on_loaded
on_loaded-lookup t path now token tokens none h = refl
on_loaded-lookup t path now token tokens (some r) h =
    lookup-remove_other token t tokens (λ e. ground (arith, e, equal_refl token))

consume-lookup :
    (t path : Bytes) (now : ℕ) (token : Bytes) (tokens : StreamTokens)
    → equal (trim_space t) token ≡ false
    → lookup token (consume_stream_token t path now tokens).0 ≡ lookup token tokens
unfolding consume_stream_token
consume-lookup t path now token tokens h =
    if-ind (λ (x : StreamTokens × (StreamError ⊎ ℤ)). lookup token x.0 ≡ lookup token tokens) _ _ _
      refl
      (on_loaded-lookup (trim_space t) (normalize_stream_path path) now token tokens
        (lookup (trim_space t) tokens) h)

pub on_loaded-gone :
    (token path : Bytes) (now : ℕ) (tokens : StreamTokens) (o : Option StreamToken)
    → lookup token tokens ≡ o
    → lookup token (on_loaded token path now tokens o).0 ≡ none
unfolding on_loaded
on_loaded-gone token path now tokens none e = e
on_loaded-gone token path now tokens (some r) e = lookup-remove token tokens

consume-gone :
    (t path : Bytes) (now : ℕ) (tokens : StreamTokens)
    → lookup (trim_space t) tokens ≡ none
    → lookup (trim_space t) (consume_stream_token t path now tokens).0 ≡ none
unfolding consume_stream_token
consume-gone t path now tokens h =
    if-ind (λ (x : StreamTokens × (StreamError ⊎ ℤ)). lookup (trim_space t) x.0 ≡ none) _ _ _ h
      (on_loaded-gone (trim_space t) (normalize_stream_path path) now tokens
        (lookup (trim_space t) tokens) refl)

-- An operation that leaves a token alone keeps its record.
step-kept :
    (op : Op) (token : Bytes) (r : StreamToken) (tokens : StreamTokens)
    → leaves_alone token r.expires_at op ≡ true
    → lookup token tokens ≡ some r
    → lookup token (step op tokens) ≡ some r
unfolding step
step-kept (issue user_id path ttl none now) token r tokens h e =
    issue-lookup user_id path ttl none now token tokens refl ∙ e
step-kept (issue user_id path ttl (some buf) now) token r tokens h e =
    issue-lookup user_id path ttl (some buf) now token tokens h ∙ e
step-kept (consume t path now) token r tokens h e =
    consume-lookup t path now token tokens (ground arith) ∙ e
step-kept (clean now) token r tokens h e =
    unfold cleanup in
    lookup-keep (λ (row : Bytes × StreamToken). not (ltb row.1.expires_at now)) token tokens e
      (ground arith)

-- An operation that does not issue a token does not bring it back.
step-gone :
    (op : Op) (token : Bytes) (tokens : StreamTokens)
    → issues_other token op ≡ true
    → lookup token tokens ≡ none
    → lookup token (step op tokens) ≡ none
unfolding step
step-gone (issue user_id path ttl random now) token tokens h e =
    issue-lookup user_id path ttl random now token tokens h ∙ e
step-gone (consume t path now) token tokens h e = elim (Bool-cases (equal (trim_space t) token)) [
  | inl same ↦
      let key = (equal_iff (trim_space t) token).0 same in
      subst (λ k. lookup k (consume_stream_token t path now tokens).0 ≡ none) key
        (consume-gone t path now tokens (rw key e))
  | inr other ↦ consume-lookup t path now token tokens other ∙ e
]
step-gone (clean now) token tokens h e =
    unfold cleanup in
    lookup-keep-none (λ (row : Bytes × StreamToken). not (ltb row.1.expires_at now)) token tokens e

pub run-kept :
    (ops : List Op) (token : Bytes) (r : StreamToken) (tokens : StreamTokens)
    → all (leaves_alone token r.expires_at) ops ≡ true
    → lookup token tokens ≡ some r
    → lookup token (run ops tokens) ≡ some r
unfolding run all
run-kept [] token r tokens h e = e
run-kept (op ∷ ops) token r tokens h e =
    run-kept ops token r (step op tokens) (ground arith)
      (step-kept op token r tokens (ground arith) e)

pub run-gone :
    (ops : List Op) (token : Bytes) (tokens : StreamTokens)
    → all (issues_other token) ops ≡ true
    → lookup token tokens ≡ none
    → lookup token (run ops tokens) ≡ none
unfolding run all
run-gone [] token tokens h e = e
run-gone (op ∷ ops) token tokens h e =
    run-gone ops token (step op tokens) (ground arith) (step-gone op token tokens (ground arith) e)
