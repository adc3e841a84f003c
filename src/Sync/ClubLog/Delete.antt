-- ===== src/Sync/ClubLog/Delete.antt =====
-- api/internal/services/sync/orchestrator.go: ClubLogDeleteWorker, which deletes a contact from Club
-- Log. Club Log's call answers with an error text or with none.
use radioledger.Base.{ℕ, Bool, true, false, Bytes, List, Option, none, some, if◌then◌else◌}
use radioledger.Base.Text.{is_empty, trim_space}
use radioledger.Crypto.Keyring.{Cipher}
use radioledger.Sync.Circuit.{Faults, Outcome, allow_circuit, record_failure, record_success}
use radioledger.Sync.Rate.{Window, Query, consume_rate_limit}
use radioledger.Sync.Status.{Instant}
use radioledger.Sync.Credentials.{
  ServiceCredential, Credentials, Loaded, not_configured, load_error, plaintext,
  decrypt_service_credentials, decode_credentials,
}
use radioledger.Sync.ClubLog.{
  clublog, Tables, Worker, Returned, finished, failed, snoozed, one_second,
}

-- The arguments of the job; `datetime_on` is what time.Parse makes of the text, none for an error.
pub record DeleteArgs : Type 0 where
  pub user_id : ℕ
  pub their_callsign : Bytes
  pub band : Bytes
  pub mode : Bytes
  pub datetime_on : Option Instant

-- What a call of Club Log meets.
pub record Call : Type 0 where
  pub now : ℕ
  pub db_now : ℕ
  pub allow_faults : Faults
  pub credentials_fail : Bool
  pub bucket : ℕ
  pub rate_faults : Query → Bool
  pub record_faults : Faults
  pub recorded_at : ℕ

-- The call, and the circuit behind it.
abbrev pub on_deleted : Worker → Call → Tables → Option Bytes → Tables × Returned
on_deleted w call t (some message) = (
  record t {
    circuits =
        (record_failure w.policy call.record_faults call.recorded_at clublog message t.circuits).0;
  },
  failed,
)
on_deleted w call t none = (
  record t { circuits = (record_success call.record_faults call.recorded_at clublog t.circuits).0 },
  finished,
)

-- Behind ConsumeRateLimit.
abbrev pub on_delete_rate :
    Worker
    → Call
    → (DeleteArgs → Option Bytes)
    → DeleteArgs
    → Tables
    → List Window × Option Bool
    → Tables × Returned
on_delete_rate w call answer args t (windows, none) = (record t { windows = windows }, failed)
on_delete_rate w call answer args t (windows, some false) =
    (record t { windows = windows }, snoozed one_second)
on_delete_rate w call answer args t (windows, some true) =
    if is_empty (trim_space w.api_key)
    then (record t { windows = windows }, finished)
    else on_deleted w call (record t { windows = windows }) (answer args)

-- Behind DecodeCredentials: the time, and the rate limit.
abbrev pub on_decoded :
    Worker
    → Call
    → (Credentials → DeleteArgs → Option Bytes)
    → DeleteArgs
    → Tables
    → Option Credentials
    → Option Instant
    → Tables × Returned
on_decoded w call answer args t none at = (t, failed)
on_decoded w call answer args t (some creds) none = (t, failed)
on_decoded w call answer args t (some creds) (some at) =
    on_delete_rate w call (answer creds) args t
      (consume_rate_limit w.policy call.rate_faults call.bucket clublog t.windows)

abbrev pub on_delete_loaded :
    (Bytes → Option Credentials)
    → Worker
    → Call
    → (Credentials → DeleteArgs → Option Bytes)
    → DeleteArgs
    → Tables
    → Loaded
    → Tables × Returned
on_delete_loaded unmarshal w call answer args t load_error = (t, failed)
on_delete_loaded unmarshal w call answer args t not_configured = (t, finished)
on_delete_loaded unmarshal w call answer args t (plaintext text) =
    on_decoded w call answer args t (decode_credentials unmarshal text) args.datetime_on

abbrev pub on_delete_circuit :
    Cipher
    → (Bytes → Option Credentials)
    → Worker
    → Call
    → (Credentials → DeleteArgs → Option Bytes)
    → List ServiceCredential
    → DeleteArgs
    → Tables
    → Outcome (Bool × ℕ)
    → Tables × Returned
on_delete_circuit cipher unmarshal w call answer stored args t (circuits, none) =
    (record t { circuits = circuits }, failed)
on_delete_circuit cipher unmarshal w call answer stored args t (circuits, some (false, wait)) =
    (record t { circuits = circuits }, snoozed wait)
on_delete_circuit cipher unmarshal w call answer stored args t (circuits, some (true, wait)) =
    on_delete_loaded unmarshal w call answer args (record t { circuits = circuits })
      (decrypt_service_credentials cipher call.credentials_fail w.keyring args.user_id clublog
        stored)

-- ClubLogDeleteWorker.Work.
unfoldable pub delete_work :
    Cipher
    → (Bytes → Option Credentials)
    → Worker
    → Call
    → (Credentials → DeleteArgs → Option Bytes)
    → List ServiceCredential
    → DeleteArgs
    → Tables
    → Tables × Returned
delete_work cipher unmarshal w call answer stored args t =
    on_delete_circuit cipher unmarshal w call answer stored args t
      (allow_circuit w.policy call.allow_faults call.now call.db_now clublog t.circuits)
