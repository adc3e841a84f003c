-- ===== src/Sync/ClubLog/Poll.antt =====
-- api/internal/services/sync/orchestrator.go: ClubLogPollWorker, which takes the DXCC entities that
-- Club Log counts as worked or confirmed over to sync_status and award_progress. The map of the
-- entities is a list, in any order.
pub mod Laws
pub mod Kept
use radioledger.Base.{ℕ, Bool, true, false, Bytes, List, [], ◌∷◌, Option, none, some, if◌then◌else◌}
use radioledger.Base.Text.{codes, is_empty, trim_space}
use radioledger.Crypto.Keyring.{Cipher}
use radioledger.Sync.Circuit.{Circuits, Outcome, allow_circuit, record_failure, record_success}
use radioledger.Sync.Rate.{Window, consume_rate_limit}
use radioledger.Sync.Status.{SyncRow}
use radioledger.Sync.Status.Marks.{mark_clublog_dxcc_confirmed}
use radioledger.Sync.AwardProgress.{AwardRow, upsert_dxcc_award_progress}
use radioledger.Sync.Credentials.{
  Credentials, Loaded, not_configured, load_error, plaintext, decrypt_service_credentials,
  decode_credentials,
}
use radioledger.Sync.ClubLog.{
  clublog, Tables, Stored, Worker, Returned, finished, failed, snoozed, one_second,
}
use radioledger.Sync.ClubLog.Delete.{Call}

-- DXCCEntityStatus.
pub record EntityStatus : Type 0 where
  pub worked : Bool
  pub confirmed : Bool

-- What GetDXCCStatus answers: an error text, or the entities.
pub data DxccAnswer : Type 0 where
  poll_error : Bytes → DxccAnswer
  entities : List (ℕ × EntityStatus) → DxccAnswer

-- The statements for one entity that fail.
pub record EntityFaults : Type 0 where
  pub mark_fails : Bool
  pub update_fails : Bool
  pub insert_fails : Bool

pub record PollTables : Type 0 where
  pub tables : Tables
  pub awards : List AwardRow

-- One round of the loop; errors are only logged.
unfoldable pub record_entity :
    (ℕ → EntityFaults) → Stored → ℕ → ℕ → ℕ × EntityStatus → PollTables → PollTables
unfolding mark_clublog_dxcc_confirmed upsert_dxcc_award_progress
record_entity faults stored now user (entity, status) t =
    let f = faults entity in
    if status.confirmed
    then record {
      tables = record t.tables {
        rows =
            (mark_clublog_dxcc_confirmed f.mark_fails stored.contacts now user entity
              t.tables.rows).0;
      };
      awards =
          (upsert_dxcc_award_progress f.update_fails f.insert_fails now user entity true
            (codes "clublog") t.awards).0;
    }
    else if status.worked
    then record t {
      awards =
          (upsert_dxcc_award_progress f.update_fails f.insert_fails now user entity false []
            t.awards).0;
    }
    else t

unfoldable pub record_entities :
    (ℕ → EntityFaults) → Stored → ℕ → ℕ → List (ℕ × EntityStatus) → PollTables → PollTables
unfolding record_entity
record_entities faults stored now user [] t = t
record_entities faults stored now user (e ∷ found) t =
    record_entities faults stored now user found (record_entity faults stored now user e t)

abbrev pub with_circuits : PollTables → Circuits → PollTables
with_circuits t circuits = record t { tables = record t.tables { circuits = circuits } }

abbrev pub with_windows : PollTables → List Window → PollTables
with_windows t windows = record t { tables = record t.tables { windows = windows } }

abbrev pub on_dxcc_status :
    Worker
    → Call
    → (ℕ → EntityFaults)
    → Stored
    → ℕ
    → PollTables
    → DxccAnswer
    → PollTables × Returned
on_dxcc_status w call faults stored user t (poll_error message) = (
  with_circuits t
      (record_failure w.policy call.record_faults call.recorded_at clublog message
        t.tables.circuits).0,
  failed,
)
on_dxcc_status w call faults stored user t (entities found) = (
  record_entities faults stored call.db_now user found (
      with_circuits t
        (record_success call.record_faults call.recorded_at clublog t.tables.circuits).0),
  finished,
)

abbrev pub on_poll_rate :
    Worker
    → Call
    → (ℕ → EntityFaults)
    → DxccAnswer
    → Stored
    → ℕ
    → PollTables
    → List Window × Option Bool
    → PollTables × Returned
on_poll_rate w call faults answer stored user t (windows, none) = (with_windows t windows, failed)
on_poll_rate w call faults answer stored user t (windows, some false) =
    (with_windows t windows, snoozed one_second)
on_poll_rate w call faults answer stored user t (windows, some true) =
    if is_empty (trim_space w.api_key)
    then (with_windows t windows, finished)
    else on_dxcc_status w call faults stored user (with_windows t windows) answer

abbrev pub on_poll_decoded :
    Worker
    → Call
    → (ℕ → EntityFaults)
    → (Credentials → DxccAnswer)
    → Stored
    → ℕ
    → PollTables
    → Option Credentials
    → PollTables × Returned
on_poll_decoded w call faults answer stored user t none = (t, failed)
on_poll_decoded w call faults answer stored user t (some creds) =
    on_poll_rate w call faults (answer creds) stored user t
      (consume_rate_limit w.policy call.rate_faults call.bucket clublog t.tables.windows)

abbrev pub on_poll_loaded :
    (Bytes → Option Credentials)
    → Worker
    → Call
    → (ℕ → EntityFaults)
    → (Credentials → DxccAnswer)
    → Stored
    → ℕ
    → PollTables
    → Loaded
    → PollTables × Returned
on_poll_loaded unmarshal w call faults answer stored user t load_error = (t, failed)
on_poll_loaded unmarshal w call faults answer stored user t not_configured = (t, finished)
on_poll_loaded unmarshal w call faults answer stored user t (plaintext text) =
    on_poll_decoded w call faults answer stored user t (decode_credentials unmarshal text)

abbrev pub on_poll_circuit :
    Cipher
    → (Bytes → Option Credentials)
    → Worker
    → Call
    → (ℕ → EntityFaults)
    → (Credentials → DxccAnswer)
    → Stored
    → ℕ
    → PollTables
    → Outcome (Bool × ℕ)
    → PollTables × Returned
on_poll_circuit cipher unmarshal w call faults answer stored user t (circuits, none) =
    (with_circuits t circuits, failed)
on_poll_circuit cipher unmarshal w call faults answer stored user t (circuits, some (false, wait)) =
    (with_circuits t circuits, snoozed wait)
on_poll_circuit cipher unmarshal w call faults answer stored user t (circuits, some (true, wait)) =
    on_poll_loaded unmarshal w call faults answer stored user (with_circuits t circuits) (
      decrypt_service_credentials cipher call.credentials_fail w.keyring user clublog
        stored.credentials)

-- ClubLogPollWorker.Work.
unfoldable pub poll_work :
    Cipher
    → (Bytes → Option Credentials)
    → Worker
    → Call
    → (ℕ → EntityFaults)
    → (Credentials → DxccAnswer)
    → Stored
    → ℕ
    → PollTables
    → PollTables × Returned
unfolding record_entities
poll_work cipher unmarshal w call faults answer stored user t =
    on_poll_circuit cipher unmarshal w call faults answer stored user t
      (allow_circuit w.policy call.allow_faults call.now call.db_now clublog t.tables.circuits)
