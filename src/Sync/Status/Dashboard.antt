-- ===== src/Sync/Status/Dashboard.antt =====
-- The statements on sync_status of api/internal/services/sync: dashboard.go, and those of the workers
-- for LoTW, eQSL and HamQTH (lotw_worker.go, lotw_confirmation_worker.go, eqsl_confirmation_worker.go,
-- hamqth_worker.go).
pub mod Keyed
use radioledger.Base.{
  ℕ, ◌+◌, ◌==◌, Bool, true, false, not, ◌&&◌, ◌||◌, Bytes, List, ◌++◌, [], ◌∷◌, Option, none, some,
  equal, keep, length, ltb, if◌then◌else◌,
}
use radioledger.Base.Text.{codes, is_empty, trim_space}
use radioledger.Sync.Status.{
  SyncRow, SyncState, pending, uploaded, confirmed, error, rejected, skipped, not_applicable,
  Contact, Result, contact_of, joined, update_where,
}
use radioledger.Sync.Status.Marks.{confirmed_row, services_of}
use radioledger.Sync.Status.Insert.{Store, is_for, has_row, new_row, insert_sync}

abbrev pub is_contact_of : List Contact → ℕ → ℕ → Bool
is_contact_of contacts user qso_id =
    joined (λ c. c.user_id == user && not c.is_deleted) (contact_of qso_id contacts)

-- INSERT ... ON CONFLICT (qso_id, service) DO UPDATE SET: a row is put in where there is none, and
-- the columns are set in it.
unfoldable pub upsert_sync : ℕ → ℕ → Bytes → (SyncRow → SyncRow) → Store → Store
unfolding insert_sync update_where
upsert_sync now qso_id service change s =
    let inserted = insert_sync now qso_id service pending s in
    record inserted { rows = update_where (is_for qso_id service) change inserted.rows }

abbrev pub lotw_uploaded_row : ℕ → ℕ → SyncRow → SyncRow
lotw_uploaded_row now sent_at r = record r {
  status = uploaded;
  last_synced_at = some sent_at;
  error_message = none;
  last_error_code = none;
  retry_count = 0;
  updated_at = now;
}

unfoldable pub upsert_each : ℕ → ℕ → List ℕ → Store → Store
unfolding upsert_sync
upsert_each now sent_at [] s = s
upsert_each now sent_at (qso_id ∷ qso_ids) s =
    upsert_each now sent_at qso_ids
      (upsert_sync now qso_id (codes "lotw") (lotw_uploaded_row now sent_at) s)

-- upsertSyncStatusRows. The numbers differ; a number that comes twice is an error.
unfoldable pub upsert_sync_status_rows : Bool → ℕ → ℕ → List ℕ → Store → Store × Option (Unit {0})
unfolding upsert_each
upsert_sync_status_rows fails now sent_at qso_ids s =
    if fails then (s, none) else (upsert_each now sent_at qso_ids s, some tt)

abbrev pub service_confirmed_row : ℕ → ℕ → SyncRow → SyncRow
service_confirmed_row now confirmed_at r = record r {
  status = confirmed;
  last_synced_at = some confirmed_at;
  error_message = none;
  last_error_code = none;
  retry_count = 0;
  next_retry_at = none;
  updated_at = now;
}

-- The statement of applyConfirmation, for LoTW and for eQSL.
unfoldable pub confirm_sync : Bool → ℕ → ℕ → ℕ → Bytes → Store → Store × Option (Unit {0})
unfolding upsert_sync
confirm_sync fails now confirmed_at qso_id service s =
    if fails
    then (s, none)
    else (upsert_sync now qso_id service (service_confirmed_row now confirmed_at) s, some tt)

abbrev pub is_uploaded : SyncState → Bool
is_uploaded uploaded = true
is_uploaded _ = false

abbrev pub is_before : ℕ → Option ℕ → Bool
is_before cutoff none = false
is_before cutoff (some at) = ltb at cutoff

unfoldable pub is_long_uploaded : List Contact → ℕ → ℕ → SyncRow → Bool
unfolding contact_of
is_long_uploaded contacts user cutoff r =
    equal r.service (codes "hamqth")
    && (is_uploaded r.status
        && (is_before cutoff r.last_synced_at && is_contact_of contacts user r.qso_id))

unfoldable pub mark_long_uploaded_as_confirmed :
    Bool → List Contact → ℕ → ℕ → ℕ → List SyncRow → Result ℕ
unfolding update_where is_long_uploaded
mark_long_uploaded_as_confirmed fails contacts now user cutoff rows =
    if fails then (rows, none) else (
      update_where (is_long_uploaded contacts user cutoff) (confirmed_row now) rows,
      some (length (keep (is_long_uploaded contacts user cutoff) rows)),
    )

abbrev pub is_failed : SyncState → Bool
is_failed error = true
is_failed _ = false

abbrev pub is_put_off : SyncState → Bool
is_put_off rejected = true
is_put_off skipped = true
is_put_off not_applicable = true
is_put_off s = is_failed s

-- The INSERT of BulkUploadUnsynced, which has no ON CONFLICT, and the number of its rows.
unfoldable pub insert_missing : List Contact → ℕ → ℕ → Bytes → Store × ℕ → Store × ℕ
unfolding has_row
insert_missing [] now user service done = done
insert_missing (c ∷ contacts) now user service (s, n) = insert_missing contacts now user service (
    if c.user_id == user && (not c.is_deleted && not (has_row c.id service s.rows))
    then (
      record {
        next_id = s.next_id + 1;
        rows = s.rows ++ new_row s.next_id now c.id service pending ∷ [];
      },
      n + 1,
    )
    else (s, n))

unfoldable pub is_unsynced : List Contact → ℕ → Bytes → SyncRow → Bool
unfolding contact_of
is_unsynced contacts user service r =
    is_contact_of contacts user r.qso_id && (equal r.service service && is_put_off r.status)

abbrev pub pending_row : ℕ → SyncRow → SyncRow
pending_row now r = record r {
  status = pending;
  next_retry_at = none;
  error_message = none;
  last_error_code = none;
  updated_at = now;
}

unfoldable pub bulk_upload_unsynced : Bool → List Contact → ℕ → ℕ → Bytes → Store → Store × Option ℕ
unfolding insert_missing is_unsynced update_where
bulk_upload_unsynced fails contacts now user service s =
    let (inserted, n) = insert_missing contacts now user service (s, 0) in
    if fails then (s, none) else (
      record inserted {
        rows = update_where (is_unsynced contacts user service) (pending_row now) inserted.rows;
      },
      some (n + length (keep (is_unsynced contacts user service) inserted.rows)),
    )

-- The statement of ResolveSyncConflict on the rows of the contact.
unfoldable pub retry_related : Bool → ℕ → ℕ → Bytes → Bytes → List SyncRow → Result (Unit {0})
unfolding update_where
retry_related fails now qso_id service_a service_b rows = if fails then (rows, none) else (
  update_where
      (λ r.
        r.qso_id == qso_id
        && ((equal r.service service_a || equal r.service service_b) && is_failed r.status))
      (pending_row now) rows,
  some tt,
)

abbrev pub is_chosen : Option ℕ → ℕ → Bool
is_chosen none qso_id = true
is_chosen (some id) qso_id = qso_id == id

-- `qso` is the contact of the UUID, if one is given.
unfoldable pub is_retried : List Contact → ℕ → Option ℕ → Bytes → SyncRow → Bool
unfolding contact_of
is_retried contacts user qso service r =
    is_contact_of contacts user r.qso_id
    && (is_failed r.status
        && (is_chosen qso r.qso_id && (is_empty service || equal r.service service)))

unfoldable pub retry_failed_syncs :
    Bool → List Contact → ℕ → ℕ → Option ℕ → Bytes → List SyncRow → Result (ℕ × List Bytes)
unfolding update_where is_retried services_of
retry_failed_syncs fails contacts now user qso service rows =
    let test = is_retried contacts user qso (trim_space service) in
    if fails then (rows, none) else (
      update_where test (λ r. record (pending_row now r) { retry_count = 0 }) rows,
      some (length (keep test rows), services_of (keep test rows)),
    )
