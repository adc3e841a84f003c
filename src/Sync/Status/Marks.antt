-- ===== src/Sync/Status/Marks.antt =====
-- api/internal/services/sync/orchestrator.go, and the statements of api/internal/handler/qso.go on
-- sync_status, with the trigger of database/migrations/001_initial_schema.sql that an edit of a
-- contact runs: what changes rows of the table.
use radioledger.Base.{
  ℕ, ◌+◌, ◌==◌, Bool, true, false, not, ◌&&◌, Bytes, List, [], ◌∷◌, less, Option, none, some, equal,
  keep, length, if◌then◌else◌,
}
use radioledger.Base.Text.{codes}
use radioledger.Sync.Status.{
  SyncRow, SyncState, pending, dirty, uploaded, confirmed, error, skipped, Contact, Result,
  contact_of, joined, update_where, is_waiting, is_confirmed,
}

abbrev pub uploaded_row : ℕ → Bytes → SyncRow → SyncRow
uploaded_row now remote_id r = record r {
  status = uploaded;
  last_synced_at = some now;
  remote_id = some remote_id;
  error_message = none;
  last_error_code = none;
  retry_count = 0;
  next_retry_at = none;
  updated_at = now;
}

unfoldable pub mark_uploaded : Bool → ℕ → ℕ → Bytes → List SyncRow → Result Unit
unfolding update_where
mark_uploaded fails now sync_id remote_id rows =
    if fails
    then (rows, none)
    else (update_where (λ r. r.id == sync_id) (uploaded_row now remote_id) rows, some tt)

abbrev five_minutes : ℕ
five_minutes = 300_000_000_000

abbrev pub or_later : ℕ → Option ℕ → ℕ
or_later now none = now + five_minutes
or_later now (some at) = at

abbrev pub failed_row : ℕ → ℕ → Bytes → Bytes → SyncRow → SyncRow
failed_row now next_retry message code r = record r {
  status = error;
  error_message = some message;
  last_error_code = some code;
  retry_count = r.retry_count + 1;
  next_retry_at = some next_retry;
  updated_at = now;
}

-- `next_retry` is what nextRetryAt gives, and the clocks agree.
unfoldable pub mark_sync_error :
    Bool → ℕ → Option ℕ → ℕ → Bytes → Bytes → List SyncRow → Result Unit
unfolding update_where
mark_sync_error fails now next_retry sync_id message code rows = if fails then (rows, none) else (
  update_where (λ r. r.id == sync_id) (failed_row now (or_later now next_retry) message code) rows,
  some tt,
)

-- A waiting row of the user and the service, of a deleted contact too.
unfoldable pub is_waiting_for : List Contact → Bytes → ℕ → SyncRow → Bool
unfolding contact_of
is_waiting_for contacts service user r =
    equal r.service service
    && (joined (λ c. c.user_id == user) (contact_of r.qso_id contacts) && is_waiting r.status)

abbrev pub permanent_row : ℕ → Bytes → SyncRow → SyncRow
permanent_row now message r = record r {
  status = error;
  error_message = some message;
  last_error_code = some (codes "permanent_failure");
  next_retry_at = none;
  updated_at = now;
}

unfoldable pub mark_all_pending_failed :
    Bool → List Contact → ℕ → Bytes → ℕ → Bytes → List SyncRow → Result ℕ
unfolding update_where is_waiting_for
mark_all_pending_failed fails contacts now service user message rows =
    if fails then (rows, none) else (
      update_where (is_waiting_for contacts service user) (permanent_row now message) rows,
      some (length (keep (is_waiting_for contacts service user) rows)),
    )

-- A waiting row of the user and the service, of a contact that is not deleted.
unfoldable pub is_pending_sync : List Contact → Bytes → ℕ → SyncRow → Bool
unfolding contact_of
is_pending_sync contacts service user r =
    equal r.service service
    && (joined (λ c. c.user_id == user && not c.is_deleted) (contact_of r.qso_id contacts)
        && is_waiting r.status)

abbrev pub skipped_row : ℕ → SyncRow → SyncRow
skipped_row now r = record r {
  status = skipped;
  error_message = some (codes "cancelled by user");
  last_error_code = some (codes "cancelled_by_user");
  next_retry_at = none;
  updated_at = now;
}

unfoldable pub cancel_pending_sync : Bool → List Contact → ℕ → ℕ → Bytes → List SyncRow → Result ℕ
unfolding update_where is_pending_sync
cancel_pending_sync fails contacts now user service rows = if fails then (rows, none) else (
  update_where (is_pending_sync contacts service user) (skipped_row now) rows,
  some (length (keep (is_pending_sync contacts service user) rows)),
)

abbrev pub confirmed_row : ℕ → SyncRow → SyncRow
confirmed_row now r = record r {
  status = confirmed;
  last_synced_at = some now;
  error_message = none;
  updated_at = now;
}

unfoldable pub mark_sync_confirmed : Bool → ℕ → ℕ → Bytes → List SyncRow → Result Unit
unfolding update_where
mark_sync_confirmed fails now qso_id service rows = if fails then (rows, none) else (
  update_where (λ r. r.qso_id == qso_id && equal r.service service) (confirmed_row now) rows,
  some tt,
)

abbrev pub is_entity : ℕ → Option ℕ → Bool
is_entity entity none = false
is_entity entity (some d) = d == entity

unfoldable pub is_of_entity : List Contact → ℕ → ℕ → SyncRow → Bool
unfolding contact_of
is_of_entity contacts user entity r =
    equal r.service (codes "clublog")
    && (not (is_confirmed r.status)
        && joined (λ c. is_entity entity c.dxcc && (c.user_id == user && not c.is_deleted))
            (contact_of r.qso_id contacts))

unfoldable pub mark_clublog_dxcc_confirmed :
    Bool → List Contact → ℕ → ℕ → ℕ → List SyncRow → Result Unit
unfolding update_where is_of_entity
mark_clublog_dxcc_confirmed fails contacts now user entity rows =
    if fails
    then (rows, none)
    else (update_where (is_of_entity contacts user entity) (confirmed_row now) rows, some tt)

-- CountPendingEQSLQSOs, with a pool.
unfoldable pub count_pending_eqsl_qsos : Bool → List Contact → ℕ → List SyncRow → Option ℕ
unfolding is_pending_sync
count_pending_eqsl_qsos fails contacts user rows =
    if fails then none else some (length (keep (is_pending_sync contacts (codes "eqsl") user) rows))

abbrev pub reset_row : ℕ → SyncRow → SyncRow
reset_row now r = record r {
  status = pending;
  last_synced_at = none;
  remote_id = none;
  error_message = none;
  last_error_code = none;
  retry_count = 0;
  next_retry_at = none;
  updated_at = now;
}

-- The set of services, sorted.
unfoldable pub add_service : Bytes → List Bytes → List Bytes
unfolding less
add_service service [] = service ∷ []
add_service service (s ∷ services) =
    let rest = add_service service services in
    if equal service s
    then s ∷ services
    else if less service s
    then service ∷ s ∷ services
    else s ∷ rest

unfoldable pub services_of : List SyncRow → List Bytes
unfolding add_service
services_of [] = []
services_of (r ∷ rows) = add_service r.service (services_of rows)

-- resetQSOSyncStatus of api/internal/handler/qso.go, for a contact that has changed.
unfoldable pub reset_qso_sync_status : Bool → ℕ → ℕ → List SyncRow → Result (List Bytes)
unfolding update_where services_of
reset_qso_sync_status fails now qso_id rows = if fails then (rows, none) else (
  update_where (λ r. r.qso_id == qso_id) (reset_row now) rows,
  some (services_of (keep (λ r. r.qso_id == qso_id) rows)),
)

-- The trigger on an edit of a contact.
abbrev pub is_sent : SyncState → Bool
is_sent uploaded = true
is_sent confirmed = true
is_sent _ = false

abbrev pub dirty_row : ℕ → SyncRow → SyncRow
dirty_row now r = record r { status = dirty; updated_at = now }

unfoldable pub mark_sync_dirty : ℕ → ℕ → List SyncRow → List SyncRow
unfolding update_where
mark_sync_dirty now qso_id rows =
    update_where (λ r. r.qso_id == qso_id && is_sent r.status) (dirty_row now) rows

-- DELETE FROM sync_status WHERE qso_id = $1 of Delete in api/internal/handler/qso.go.
unfoldable pub delete_qso_sync : Bool → ℕ → List SyncRow → Result (Unit {0})
delete_qso_sync fails qso_id rows =
    if fails then (rows, none) else (keep (λ r. not (r.qso_id == qso_id)) rows, some tt)
