-- ===== src/Middleware/StreamToken.antt =====
-- api/internal/middleware/stream_token.go: the tokens that open one event stream, once. The map
-- `streamTokens` is a table; instants are counts of nanoseconds, and the 32 bytes of crypto/rand are
-- an argument of the issue, `none` when reading them fails. An operation runs as a whole.
pub mod Uses
pub mod Laws
pub mod Issued
use radioledger.Base.{
  ℕ, zero, suc, ◌+◌, ◌-◌, ◌/◌, ◌%◌, Bool, true, false, not, ◌||◌, Bytes, List, [], ◌∷◌, Option,
  none, some, ◌⊎◌, inl, inr, equal, ltb, ◌==◌, if◌then◌else◌, lookup, put, remove, keep,
}
use radioledger.Base.Int.{ℤ, pos, negsuc}
use radioledger.Base.Text.{is_empty, trim_space}

-- A `streamToken`.
pub record StreamToken : Type 0 where
  pub user_id : ℤ
  pub stream_path : Bytes
  pub expires_at : ℕ

abbrev pub StreamTokens : Type 0
StreamTokens = List (Bytes × StreamToken)

pub data StreamError : Type 0 where
  invalid_stream_token : StreamError
  expired_stream_token : StreamError
  random_failed : StreamError

unfoldable pub is_positive : ℤ → Bool
is_positive (pos zero) = false
is_positive (pos (suc n)) = true
is_positive (negsuc n) = false

-- `now.Add(ttl)`.
unfoldable pub add_duration : ℕ → ℤ → ℕ
add_duration now (pos n) = now + n
add_duration now (negsuc n) = now - suc n

-- The text in front of the first byte of `?#`.
unfoldable pub before_query : Bytes → Bytes
before_query [] = []
before_query (c ∷ s) = if c == b'?' || c == b'#' then [] else c ∷ before_query s

-- `strings.TrimLeft(path, "/")`.
unfoldable pub trim_slashes : Bytes → Bytes
trim_slashes [] = []
trim_slashes (c ∷ s) = if c == b'/' then trim_slashes s else c ∷ s

abbrev pub starts_with_slash : Bytes → Bool
starts_with_slash [] = false
starts_with_slash (c ∷ s) = c == b'/'

unfoldable pub normalize_stream_path : Bytes → Bytes
normalize_stream_path raw =
    let path = before_query (trim_space raw) in
    if is_empty (trim_space raw)
    then []
    else if is_empty path
    then []
    else b'/' ∷ trim_slashes (if starts_with_slash path then path else b'/' ∷ path)

-- A digit of `hex.EncodeToString`.
unfoldable pub hex_digit : ℕ → ℕ
hex_digit n = if ltb n 10 then b'0' + n else b'a' + (n - 10)

unfoldable pub hex : Bytes → Bytes
unfolding hex_digit
hex [] = []
hex (b ∷ s) = hex_digit (b / 16) ∷ hex_digit (b % 16) ∷ hex s

unfoldable pub new_stream_token : Option Bytes → StreamError ⊎ Bytes
new_stream_token none = inl random_failed
new_stream_token (some buf) = inr (hex buf)

unfoldable pub issue_stream_token :
    ℤ → Bytes → ℤ → Option Bytes → ℕ → StreamTokens → StreamTokens × (StreamError ⊎ Bytes)
unfolding new_stream_token
issue_stream_token user_id raw_path ttl random now tokens =
    let path = normalize_stream_path raw_path in
    if not (is_positive user_id) || (is_empty path || not (is_positive ttl))
    then (tokens, inl invalid_stream_token)
    else elim (new_stream_token random) [
      | inl failed ↦ (tokens, inl failed)
      | inr token ↦ (
        put token
            (record { user_id = user_id; stream_path = path; expires_at = add_duration now ttl })
            tokens,
        inr token,
      )
    ]

-- The tests on the record that LoadAndDelete returned.
unfoldable pub accept : Bytes → ℕ → StreamToken → StreamError ⊎ ℤ
accept path now t =
    if ltb t.expires_at now
    then inl expired_stream_token
    else if not (equal t.stream_path path)
    then inl invalid_stream_token
    else if not (is_positive t.user_id)
    then inl invalid_stream_token
    else inr t.user_id

-- What follows LoadAndDelete.
unfoldable pub on_loaded :
    Bytes → Bytes → ℕ → StreamTokens → Option StreamToken → StreamTokens × (StreamError ⊎ ℤ)
on_loaded token path now tokens none = (tokens, inl invalid_stream_token)
on_loaded token path now tokens (some t) = (remove token tokens, accept path now t)

unfoldable pub consume_stream_token :
    Bytes → Bytes → ℕ → StreamTokens → StreamTokens × (StreamError ⊎ ℤ)
consume_stream_token raw_token raw_path now tokens =
    let token = trim_space raw_token in
    let path = normalize_stream_path raw_path in
    if is_empty token || is_empty path
    then (tokens, inl invalid_stream_token)
    else on_loaded token path now tokens (lookup token tokens)

-- A tick of the goroutine that startStreamTokenCleanup starts.
unfoldable pub cleanup : ℕ → StreamTokens → StreamTokens
cleanup now tokens = keep (λ row. not (ltb row.1.expires_at now)) tokens
