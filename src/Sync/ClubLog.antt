-- ===== src/Sync/ClubLog.antt =====
-- api/internal/services/sync/orchestrator.go: what the Club Log workers share: the tables they
-- work on, what they return, and how they tell errors apart. The calls of Club Log, over HTTP, answer
-- with an error text or with none; logs and metrics are left out, and other transactions do not
-- write to the tables of the worker while it runs.
pub mod Upload
pub mod Uploads
pub mod Drain
pub mod Fuel
pub mod Work
pub mod Finish
pub mod Others
pub mod Isolation
pub mod Delete
pub mod Poll
mod Examples
use radioledger.Base.{
  ℕ, zero, suc, Bool, true, false, Bytes, List, [], ◌∷◌, Option, none, some, any, take, drop,
  length, if◌then◌else◌,
}
use radioledger.Base.Text.{codes, contains, is_empty, to_lower, trim_space}
use radioledger.Crypto.Keyring.{Cipher, Keyring}
use radioledger.Sync.Config.{ServicePolicy}
use radioledger.Sync.Circuit.{
  Faults, Circuits, Outcome, allow_circuit, record_failure, record_success,
}
use radioledger.Sync.Rate.{Window, Query, consume_rate_limit}
use radioledger.Sync.Status.{SyncRow, Contact, PendingQso, fetch_pending_qsos}
use radioledger.Sync.Status.Marks.{mark_uploaded, mark_sync_error, mark_all_pending_failed}
use radioledger.Sync.Export.{qsos_to_adif}
use radioledger.Sync.Credentials.{
  ServiceCredential, Credentials, Loaded, not_configured, load_error, plaintext,
  decrypt_service_credentials, decode_credentials,
}

abbrev pub clublog : Bytes
clublog = codes "clublog"

-- The tables that the worker writes to.
pub record Tables : Type 0 where
  pub circuits : Circuits
  pub windows : List Window
  pub rows : List SyncRow

-- The tables that it only reads.
pub record Stored : Type 0 where
  pub contacts : List Contact
  pub credentials : List ServiceCredential

-- ClubLogUploadWorker, with the policy of the service.
pub record Worker : Type 0 where
  pub policy : ServicePolicy
  pub keyring : Option Keyring
  pub api_key : Bytes

-- What Work returns: nil, an error, or a snooze.
pub data Returned : Type 0 where
  finished : Returned
  failed : Returned
  snoozed : ℕ → Returned

unfoldable pub is_clublog_auth_or_permanent_error : Bytes → Bool
unfolding contains any
is_clublog_auth_or_permanent_error message =
    let s = to_lower (trim_space message) in
    any (λ part. contains part s)
      (codes "invalid"
        ∷ codes "authentication failed"
        ∷ codes "unauthorized"
        ∷ codes "forbidden"
        ∷ codes "invalid login"
        ∷ codes "credentials"
        ∷ codes "password"
        ∷ [])

-- isTransientSyncError of qrz_worker.go.
unfoldable pub is_transient_sync_error : Bytes → Bool
unfolding contains any
is_transient_sync_error message =
    let s = to_lower (trim_space message) in
    any (λ part. contains part s)
      (codes "timeout"
        ∷ codes "deadline exceeded"
        ∷ codes "connection refused"
        ∷ codes "connection reset"
        ∷ codes "temporary"
        ∷ codes "rate limit"
        ∷ codes "too many requests"
        ∷ codes " 429"
        ∷ codes "status 429"
        ∷ codes "status 500"
        ∷ codes "status 502"
        ∷ codes "status 503"
        ∷ codes "status 504"
        ∷ [])

abbrev pub one_second : ℕ
one_second = 1_000_000_000
