-- ===== src/Middleware/Examples.antt =====
-- Runs and examples for the guards in front of the handlers.
use mathlib.Core.List.{Memᴰ}
use mathlib.Core.Option
use radioledger.Base.{
  ℕ, zero, suc, ◌≤◌, ◌≡◌, refl, true, false, Bytes, List, [], ◌∷◌, some, none, inl, inr, equal,
  arith, put, keep, all, any, lookup, remove, member, has_distinct_keys,
}
use radioledger.Base.Int.{ℤ, pos}
use radioledger.Base.Text.{codes, cut, trim_space, to_lower}
use radioledger.Middleware.ClientIp.{Net, Request, is_trusted_proxy, remote_ip_from_addr, client_ip}
use radioledger.Auth.Rbac.{qso_update, operator, parse_role, named_roles, has_permission}
use radioledger.Middleware.Access.{Database, UserInfo, extract_bearer_token, authenticate_api_key}
use radioledger.Middleware.Access.Guards.{logbook_route}
use radioledger.Middleware.Access.Laws.{HasScope, MayUse}
use radioledger.Middleware.Access.Known.{IsFrom}
use radioledger.Middleware.Access.Route.{logbook_route-IsAuthorised}
use radioledger.Middleware.StreamToken.{
  StreamTokens, issue_stream_token, consume_stream_token, hex, normalize_stream_path, add_duration,
  invalid_stream_token, is_positive, before_query, on_loaded, cleanup, accept, trim_slashes,
}
use radioledger.Middleware.StreamToken.Uses.{Op, issue, consume, clean, run}
use radioledger.Middleware.StreamToken.Laws.{consume-issue, consume-once}
use radioledger.Middleware.StreamToken.Issued.{consume-IsAuthentic}
use radioledger.Middleware.RateLimit.{Bucket, is_probe}
use radioledger.Middleware.RateLimit.Laws.{
  Event, serve, prune_older, verdicts, answers, verdicts-answers, comes_from, is_apart,
}

abbrev random_bytes : Bytes
random_bytes = 250 ∷ 1 ∷ 16 ∷ []

abbrev import_stream : Bytes
import_stream = codes "/v1/import/7/stream"

abbrev with_query : Bytes
with_query = codes " /v1/import/7/stream?x=1"

hex_run : hex random_bytes ≡ codes "fa0110"
unfolding hex
hex_run = refl

abbrev token : Bytes
token = codes " fa0110 "

-- What happens between the issue of a token and its use.
abbrev meanwhile : List Op
meanwhile =
    issue (pos 8) import_stream (pos 60) (some (1 ∷ [])) 5
    ∷ consume (codes "01") import_stream 6
    ∷ clean 7
    ∷ []

consume-issue_example :
    (consume_stream_token token with_query 8 (
      run meanwhile
        (issue_stream_token (pos 7) import_stream (pos 60) (some random_bytes) 3 []).0)).1
    ≡ inr (pos 7)
unfolding hex normalize_stream_path add_duration is_positive trim_space before_query all equal
consume-issue_example =
    consume-issue (pos 7) import_stream (pos 60) random_bytes 3 [] meanwhile token with_query 8 refl
      refl refl refl refl refl refl (omega arith)

abbrev issued : StreamTokens
issued = (issue_stream_token (pos 7) import_stream (pos 60) (some random_bytes) 3 []).0

consume-once_example :
    (consume_stream_token token with_query 10
      (run meanwhile (consume_stream_token token import_stream 8 issued).0)).1
    ≡ inl invalid_stream_token
unfolding hex normalize_stream_path issue_stream_token consume_stream_token trim_space before_query
    on_loaded lookup is_positive put accept add_duration trim_slashes all
consume-once_example = consume-once token import_stream 8 issued meanwhile with_query 10 refl refl

abbrev history : List Op
history = issue (pos 7) import_stream (pos 60) (some random_bytes) 3 ∷ meanwhile

consumed : (consume_stream_token token with_query 8 (run history [])).1 ≡ inr (pos 7)
unfolding hex normalize_stream_path issue_stream_token consume_stream_token run trim_space
    before_query on_loaded lookup cleanup keep is_positive put remove add_duration accept
    trim_slashes
consumed = refl

consume-IsAuthentic_example :
    (path : Bytes) × (ttl : ℤ) × (buf : Bytes) × (at : ℕ) × Memᴰ
      (issue (pos 7) path ttl (some buf) at)
      history
    × (trim_space token ≡ hex buf)
    × (normalize_stream_path with_query ≡ normalize_stream_path path)
    × (8 ≤ add_duration at ttl)
consume-IsAuthentic_example = consume-IsAuthentic history token with_query 8 consumed

-- Addresses as texts, with a port behind a colon.
abbrev text_net : Net Bytes Bytes
text_net = record {
  parse_addr = λ s. some s;
  addr_string = λ a. a;
  same_addr = equal;
  contains = equal;
  split_host_port = λ s. Option.map (λ (ends : Bytes × Bytes). ends.0) (cut b':' s);
}

abbrev request : Bytes → Request
request forwarded = record {
  remote_addr = codes "9.9.9.9:80";
  x_forwarded_for = forwarded;
  x_real_ip = [];
  authorization = codes "Bearer rl_x";
  path = codes "/v1/qsos";
  stream_token = [];
  stream_ticket = [];
  logbook_uuid = codes "u";
}

-- A bucket of two calls that is never filled up.
abbrev two_calls : Bucket ℕ
two_calls = record {
  new_limiter = 2;
  allow = λ now n. elim n [ zero ↦ (0, false) | suc m ↦ (m, true) ];
}

-- The client, another one between, and a round of pruning behind a pause.
abbrev asks : List Event
asks =
    serve 1 (request [])
    ∷ serve 2 (request (codes "1.1.1.1"))
    ∷ serve 3 (record (request (codes "9.9.9.9")) { remote_addr = codes "8.8.8.8:80" })
    ∷ serve 4 (request (codes "2.2.2.2"))
    ∷ prune_older 10 20
    ∷ serve 21 (request [])
    ∷ []

verdicts-answers_example :
    verdicts two_calls text_net (codes "1.2.3.4" ∷ []) (codes "9.9.9.9") asks []
    ≡ answers two_calls text_net (codes "1.2.3.4" ∷ []) (codes "9.9.9.9") asks none
unfolding is_trusted_proxy any equal all comes_from remote_ip_from_addr trim_space cut is_probe
    has_distinct_keys lookup is_apart client_ip
verdicts-answers_example =
    verdicts-answers two_calls text_net (codes "1.2.3.4" ∷ []) (codes "9.9.9.9") asks [] refl refl
      refl refl

-- One key, of the user 7, who may write contacts in the logbook `u`.
abbrev database : Database Bytes
database = record {
  available = true;
  api_keys =
      record {
        key_hash = codes "rl_x";
        key_user_id = pos 7;
        scopes = codes "qsos:write" ∷ [];
        allowed_ips = codes "9.9.9.9" ∷ [];
        expires_at = some 100;
        revoked_at = none;
      }
      ∷ [];
  users = record { id = pos 7; uuid = codes "w"; email = codes "a@b"; deleted_at = none } ∷ [];
  user_roles =
      record {
        logbook_uuid = codes "u";
        role_user_id = pos 7;
        role = codes "operator";
        logbook_deleted_at = none;
      }
      ∷ [];
  now = 50;
  fails = λ q. false;
}

abbrev holder : UserInfo
holder = record {
  user_id = pos 7;
  user_uuid = codes "w";
  email = codes "a@b";
  external_id = [];
  api_key_scopes = some (codes "qsos:write" ∷ []);
}

logbook_route-IsAuthorised_example :
    IsFrom text_net [] (λ s. s) (λ s. none) (λ s. some s) database 50 (request []) [] holder
    × HasScope (codes "qsos:write") holder.api_key_scopes
    × (is_positive holder.user_id ≡ true)
    × MayUse text_net []
        (λ s. s)
        (λ s. none)
        (λ s. some s)
        database
        qso_update
        (request [])
        holder.user_id
        operator
unfolding logbook_route extract_bearer_token trim_space authenticate_api_key equal any client_ip
    remote_ip_from_addr cut is_trusted_proxy member parse_role lookup named_roles to_lower
    has_permission
logbook_route-IsAuthorised_example =
    logbook_route-IsAuthorised text_net [] (λ s. s) (λ s. none) (λ s. some s) database
      (codes "qsos:write") qso_update 50 (request []) [] refl
