-- ===== src/Sync/ClubLog/Upload.antt =====
-- ClubLogUploadWorker of api/internal/services/sync/orchestrator.go, with the circuit breaker and the
-- rate limit of infra.go and the statements on sync_status.
use radioledger.Base.{
  ℕ, zero, suc, Bool, true, false, Bytes, List, [], ◌∷◌, Option, none, some, take, drop, length,
  if◌then◌else◌,
}
use radioledger.Base.Text.{codes, is_empty, trim_space}
use radioledger.Crypto.Keyring.{Cipher}
use radioledger.Sync.Circuit.{Faults, Outcome, allow_circuit, record_failure, record_success}
use radioledger.Sync.Rate.{Window, Query, consume_rate_limit}
use radioledger.Sync.Status.{SyncRow, PendingQso, fetch_pending_qsos}
use radioledger.Sync.Status.Marks.{mark_uploaded, mark_sync_error, mark_all_pending_failed}
use radioledger.Sync.Export.{qsos_to_adif}
use radioledger.Sync.Credentials.{
  Credentials, Loaded, not_configured, load_error, plaintext, decrypt_service_credentials,
  decode_credentials,
}
use radioledger.Sync.ClubLog.{
  clublog, Tables, Stored, Worker, Returned, finished, failed, snoozed, one_second,
  is_clublog_auth_or_permanent_error, is_transient_sync_error,
}

-- What the upload of one batch meets: the second of the rate limit and the faults of its
-- transaction, Club Log's answer to a text, the faults and the clock of the circuit's transaction,
-- and of the updates of the rows which fail, their clock, and what nextRetryAt gives.
pub record Round : Type 0 where
  pub bucket : ℕ
  pub rate_faults : Query → Bool
  pub answer : Credentials → Bytes → Option Bytes
  pub record_faults : Faults
  pub recorded_at : ℕ
  pub mark_fails : ℕ → Bool
  pub marked_at : ℕ
  pub next_retry : ℕ → Option ℕ

-- What a run meets.
pub record Run : Type 0 where
  pub now : ℕ
  pub db_now : ℕ
  pub allow_faults : Faults
  pub credentials_fail : Bool
  pub fetch_fails : Bool
  pub fail_all_fails : Bool
  pub rounds : ℕ → Round

abbrev pub batch_size : ℕ
batch_size = 100

abbrev pub fetch_limit : ℕ
fetch_limit = 500

-- The loops over a batch; an update that fails is passed over.
unfoldable pub mark_batch_uploaded : Round → List PendingQso → List SyncRow → List SyncRow
unfolding mark_uploaded
mark_batch_uploaded round [] rows = rows
mark_batch_uploaded round (p ∷ batch) rows =
    mark_batch_uploaded round batch
      (mark_uploaded (round.mark_fails p.row.id) round.marked_at p.row.id [] rows).0

unfoldable pub mark_batch_failed : Round → Bytes → List PendingQso → List SyncRow → List SyncRow
unfolding mark_sync_error
mark_batch_failed round message [] rows = rows
mark_batch_failed round message (p ∷ batch) rows =
    mark_batch_failed round message batch
      (mark_sync_error (round.mark_fails p.row.id) round.marked_at
        (round.next_retry p.row.retry_count) p.row.id message (codes "upload_failed") rows).0

abbrev pub bad_credentials : Bytes
bad_credentials =
    codes "Invalid Club Log credentials. Re-save your email/password/callsign in Settings."

-- markAllPendingFailed, whose error is only logged.
abbrev pub fail_all : Run → Stored → ℕ → Bytes → Tables → Tables
fail_all run stored user message t = record t {
  rows =
      (mark_all_pending_failed run.fail_all_fails stored.contacts run.db_now clublog user message
        t.rows).0;
}

-- Behind an upload: go on with the tables, or return.
abbrev pub Next : Type 0
Next = Tables × Option Returned

-- The error branches of an upload.
unfoldable pub on_upload_error :
    Worker → Run → Round → Stored → ℕ → List PendingQso → Bytes → Tables → Next
unfolding is_clublog_auth_or_permanent_error is_transient_sync_error mark_batch_failed
on_upload_error w run round stored user batch message t =
    let recorded =
      (record_failure w.policy round.record_faults round.recorded_at clublog message
        t.circuits).0 in
    if is_clublog_auth_or_permanent_error message
    then (fail_all run stored user bad_credentials t, some finished)
    else if is_transient_sync_error message
    then (record t { circuits = recorded }, some failed)
    else (
      record t { circuits = recorded; rows = mark_batch_failed round message batch t.rows },
      none,
    )

abbrev pub on_answer :
    Worker → Run → Round → Stored → ℕ → List PendingQso → Tables → Option Bytes → Next
on_answer w run round stored user batch t (some message) =
    on_upload_error w run round stored user batch message t
on_answer w run round stored user batch t none = (
  record t {
    circuits = (record_success round.record_faults round.recorded_at clublog t.circuits).0;
    rows = mark_batch_uploaded round batch t.rows;
  },
  none,
)

-- Behind ConsumeRateLimit. The text of a batch is always made.
abbrev pub on_rate :
    Worker
    → Run
    → Round
    → Stored
    → ℕ
    → Credentials
    → List PendingQso
    → Tables
    → List Window × Option Bool
    → Next
on_rate w run round stored user creds batch t (windows, none) =
    (record t { windows = windows }, some failed)
on_rate w run round stored user creds batch t (windows, some false) =
    (record t { windows = windows }, some (snoozed one_second))
on_rate w run round stored user creds batch t (windows, some true) =
    on_answer w run round stored user batch (record t { windows = windows })
      (round.answer creds (qsos_to_adif batch))

unfoldable pub upload_batch :
    Worker → Run → Round → Stored → ℕ → Credentials → List PendingQso → Tables → Next
unfolding on_upload_error mark_batch_uploaded
upload_batch w run round stored user creds batch t =
    on_rate w run round stored user creds batch t
      (consume_rate_limit w.policy round.rate_faults round.bucket clublog t.windows)

abbrev pub continue_with : (Tables → Tables × Returned) → Next → Tables × Returned
continue_with k (t, some returned) = (t, returned)
continue_with k (t, none) = k t

-- The loop over the batches, on fuel that the number of contacts bounds; `n` counts the rounds.
unfoldable pub upload_batches :
    Worker → Run → Stored → ℕ → Credentials → ℕ → ℕ → List PendingQso → Tables → Tables × Returned
upload_batches w run stored user creds fuel n [] t = (t, finished)
upload_batches w run stored user creds zero n (p ∷ pending) t = (t, failed)
upload_batches w run stored user creds (suc fuel) n (p ∷ pending) t =
    continue_with
      (λ t'. upload_batches w run stored user creds fuel (suc n) (drop batch_size (p ∷ pending)) t')
      (upload_batch w run (run.rounds n) stored user creds (take batch_size (p ∷ pending)) t)

abbrev pub no_credentials : Bytes
no_credentials = codes "No Club Log credentials configured. Add credentials in Settings to sync."

abbrev pub undecryptable : Bytes
undecryptable = codes "Club Log credentials could not be decrypted. Re-save in Settings."

abbrev pub no_api_key : Bytes
no_api_key = codes "Club Log sync is unavailable: server missing CLUBLOG_API_KEY configuration."

-- Behind fetchPendingQSOs.
abbrev pub on_fetched :
    Worker → Run → Stored → ℕ → Credentials → Tables → Option (List PendingQso) → Tables × Returned
on_fetched w run stored user creds t none = (t, failed)
on_fetched w run stored user creds t (some []) = (t, finished)
on_fetched w run stored user creds t (some (p ∷ pending)) =
    if is_empty (trim_space w.api_key)
    then (fail_all run stored user no_api_key t, finished)
    else upload_batches w run stored user creds (length (p ∷ pending)) 0 (p ∷ pending) t

abbrev pub on_credentials :
    Worker → Run → Stored → ℕ → Tables → Option Credentials → Tables × Returned
on_credentials w run stored user t none = (fail_all run stored user bad_credentials t, finished)
on_credentials w run stored user t (some creds) =
    on_fetched w run stored user creds t (
      fetch_pending_qsos run.fetch_fails stored.contacts run.db_now clublog user fetch_limit t.rows)

abbrev pub on_loaded :
    (Bytes → Option Credentials) → Worker → Run → Stored → ℕ → Tables → Loaded → Tables × Returned
on_loaded unmarshal w run stored user t load_error =
    (fail_all run stored user undecryptable t, finished)
on_loaded unmarshal w run stored user t not_configured =
    (fail_all run stored user no_credentials t, finished)
on_loaded unmarshal w run stored user t (plaintext text) =
    on_credentials w run stored user t (decode_credentials unmarshal text)

abbrev pub on_circuit :
    Cipher
    → (Bytes → Option Credentials)
    → Worker
    → Run
    → Stored
    → ℕ
    → Tables
    → Outcome (Bool × ℕ)
    → Tables × Returned
on_circuit cipher unmarshal w run stored user t (circuits, none) =
    (record t { circuits = circuits }, failed)
on_circuit cipher unmarshal w run stored user t (circuits, some (false, wait)) =
    (record t { circuits = circuits }, snoozed wait)
on_circuit cipher unmarshal w run stored user t (circuits, some (true, wait)) =
    on_loaded unmarshal w run stored user (record t { circuits = circuits })
      (decrypt_service_credentials cipher run.credentials_fail w.keyring user clublog
        stored.credentials)

-- ClubLogUploadWorker.Work.
unfoldable pub upload_work :
    Cipher → (Bytes → Option Credentials) → Worker → Run → Stored → ℕ → Tables → Tables × Returned
unfolding upload_batches
upload_work cipher unmarshal w run stored user t =
    on_circuit cipher unmarshal w run stored user t
      (allow_circuit w.policy run.allow_faults run.now run.db_now clublog t.circuits)
