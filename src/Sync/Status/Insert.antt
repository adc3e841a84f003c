-- ===== src/Sync/Status/Insert.antt =====
-- api/internal/services/sync/orchestrator.go: the rows that InsertPendingSyncForQSO and
-- BackfillSyncStatusForService add to sync_status.
pub mod Backfill
use radioledger.Base.{
  ℕ, ◌+◌, ◌==◌, Bool, true, false, not, ◌&&◌, ◌||◌, Bytes, List, [], ◌∷◌, ◌++◌, Option, none, some,
  equal, all, any, if◌then◌else◌,
}
use radioledger.Base.Text.{codes}
use radioledger.Sync.Status.{SyncState, pending, confirmed, SyncRow, Contact, contact_of, joined}

-- The table and the next number of its sequence.
pub record Store : Type 0 where
  pub next_id : ℕ
  pub rows : List SyncRow

abbrev pub is_for : ℕ → Bytes → SyncRow → Bool
is_for qso_id service r = r.qso_id == qso_id && equal r.service service

unfoldable pub has_row : ℕ → Bytes → List SyncRow → Bool
has_row qso_id service rows = any (is_for qso_id service) rows

abbrev pub new_row : ℕ → ℕ → ℕ → Bytes → SyncState → SyncRow
new_row id now qso_id service status = record {
  id = id;
  qso_id = qso_id;
  service = service;
  status = status;
  last_synced_at = none;
  remote_id = none;
  error_message = none;
  retry_count = 0;
  next_retry_at = none;
  last_error_code = none;
  created_at = now;
  updated_at = now;
}

-- INSERT ... ON CONFLICT (qso_id, service) DO NOTHING. A number is drawn in any case.
unfoldable pub insert_sync : ℕ → ℕ → Bytes → SyncState → Store → Store
unfolding has_row
insert_sync now qso_id service status s = record {
  next_id = s.next_id + 1;
  rows =
      if has_row qso_id service s.rows
      then s.rows
      else s.rows ++ (new_row s.next_id now qso_id service status ∷ []);
}

-- NULLIF(TRIM(...), '') IS NOT NULL.
abbrev pub is_filled : Option Bytes → Bool
is_filled none = false
is_filled (some s) = not (all (λ c. c == b' ') s)

abbrev pub is_nonempty : List Bytes → Bool
is_nonempty [] = false
is_nonempty (ref ∷ refs) = true

-- The condition under which a service gets a row for a new contact.
unfoldable pub takes_contact : List Contact → ℕ → Bytes → Bool
unfolding contact_of
takes_contact contacts qso_id service =
    if equal service (codes "sota")
    then joined (λ c. is_filled c.my_sota_ref) (contact_of qso_id contacts)
    else if equal service (codes "pota")
    then joined (λ c. not c.is_deleted && is_nonempty c.my_pota_refs) (contact_of qso_id contacts)
    else true

unfoldable pub insert_if : Bool → ℕ → ℕ → Bytes → SyncState → Store → Store
unfolding insert_sync
insert_if test now qso_id service status s =
    if test then insert_sync now qso_id service status s else s

-- The transaction is the caller's, which gives it up on an error.
unfoldable pub insert_pending_sync_for_qso :
    (Bytes → Bool) → List Contact → ℕ → ℕ → List Bytes → Store → Store × Option (Unit {0})
unfolding insert_if takes_contact
insert_pending_sync_for_qso fails contacts now qso_id [] s = (s, some tt)
insert_pending_sync_for_qso fails contacts now qso_id (service ∷ services) s =
    let rest =
      insert_pending_sync_for_qso fails contacts now qso_id services
        (insert_if (takes_contact contacts qso_id service) now qso_id service pending s) in
    if fails service then (s, none) else rest

pub record BackfillCounts : Type 0 where
  pub confirmed_count : ℕ
  pub pending_count : ℕ

abbrev pub is_yes : Option Bytes → Bool
is_yes none = false
is_yes (some s) = equal s (codes "Y")

abbrev pub is_set : Option ℕ → Bool
is_set none = false
is_set (some at) = true

-- The CASE of each query.
unfoldable pub is_confirmed_by : Bytes → Contact → Bool
is_confirmed_by service c =
    if equal service (codes "eqsl")
    then is_yes c.eqsl_qsl_rcvd
    else if equal service (codes "lotw")
    then is_yes c.lotw_qsl_rcvd || is_set c.lotw_sent_at
    else if equal service (codes "qrz")
    then is_yes c.qrz_qsl_rcvd
    else false

-- The WHERE of each query, less the NOT EXISTS.
unfoldable pub is_backfilled : Bytes → ℕ → Contact → Bool
is_backfilled service user c =
    c.user_id == user
    && (not c.is_deleted
        && (if equal service (codes "sota")
            then is_filled c.my_sota_ref
            else if equal service (codes "pota")
            then is_nonempty c.my_pota_refs
            else true))

abbrev pub count_status : Bool → BackfillCounts → BackfillCounts
count_status true n = record n { confirmed_count = n.confirmed_count + 1 }
count_status false n = record n { pending_count = n.pending_count + 1 }

abbrev pub backfill_state : Bool → SyncState
backfill_state true = confirmed
backfill_state false = pending

-- The INSERT and the counts of the rows that it returns.
unfoldable pub backfill :
    ℕ → ℕ → Bytes → List Contact → Store × BackfillCounts → Store × BackfillCounts
unfolding insert_sync is_backfilled is_confirmed_by
backfill now user service [] done = done
backfill now user service (c ∷ contacts) (s, n) = backfill now user service contacts (
    if is_backfilled service user c && not (has_row c.id service s.rows)
    then (
      insert_sync now c.id service (backfill_state (is_confirmed_by service c)) s,
      count_status (is_confirmed_by service c) n,
    )
    else (s, n))

abbrev pub no_counts : BackfillCounts
no_counts = record { confirmed_count = 0; pending_count = 0 }

unfoldable pub backfill_sync_status_for_service :
    Bool → List Contact → ℕ → ℕ → Bytes → Store → Store × Option BackfillCounts
unfolding backfill
backfill_sync_status_for_service fails contacts now user service s =
    if fails
    then (s, none)
    else let (after, counts) = backfill now user service contacts (s, no_counts) in
      (after, some counts)
