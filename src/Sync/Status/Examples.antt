-- ===== src/Sync/Status/Examples.antt =====
-- Runs of the statements on sync_status of api/internal/services/sync/orchestrator.go, and the
-- theorems at such inputs.
use radioledger.Base.{
  ℕ, ◌+◌, ◌≡◌, refl, true, false, Bytes, List, [], ◌∷◌, ◌++◌, none, some, all, any, equal, map,
  length, less, keep,
}
use radioledger.Base.Text.{codes}
use radioledger.Sync.Status.{Instant, Contact, SyncRow, pending, is_due}
use radioledger.Sync.Status.Marks.{mark_all_pending_failed, reset_qso_sync_status}
use radioledger.Sync.Status.Insert.{
  Store, insert_pending_sync_for_qso, backfill_sync_status_for_service, BackfillCounts, no_counts,
}
use radioledger.Sync.Status.Insert.Backfill.{is_covered, backfill-IsComplete}
use radioledger.Sync.Status.Keys.{IsKeyed}
use radioledger.Sync.Status.Steps.{
  Reachable, start, next, insert, backfill_step, empty_store, reachable-IsKeyed,
}
use radioledger.Sync.Status.Permanent.{is_due_id, mark_all_pending_failed-is_due}

abbrev pub noon : Instant
noon = record { year = 2024; month = 2; day = 29; hour = 12; minute = 5; second = 0 }

-- A contact of user 7.
abbrev pub contact : ℕ → Contact
contact id = record {
  id = id;
  user_id = 7;
  is_deleted = false;
  callsign = codes "W1AW";
  band = codes "20M";
  mode = codes "SSB";
  datetime_on = noon;
  rst_sent = some (codes "59");
  rst_rcvd = none;
  gridsquare = none;
  my_gridsquare = none;
  station_callsign = none;
  frequency_hz = some 14_074_000;
  dxcc = some 291;
  my_sota_ref = none;
  my_pota_refs = [];
  eqsl_qsl_rcvd = some (codes "Y");
  lotw_qsl_rcvd = none;
  qrz_qsl_rcvd = none;
  lotw_sent_at = none;
}

abbrev pub contacts : List Contact
contacts = contact 1 ∷ contact 2 ∷ []

abbrev pub eqsl : Bytes
eqsl = codes "eqsl"

abbrev pub clublog : Bytes
clublog = codes "clublog"

-- The first contact has a row for Club Log; the other gets one from a backfill.
abbrev inserted : Store
inserted =
    (insert_pending_sync_for_qso (λ s. false) contacts 50 1 (clublog ∷ codes "sota" ∷ [])
      empty_store).0

abbrev filled : Store
filled = (backfill_sync_status_for_service false contacts 60 7 clublog inserted).0

filled-Reachable : Reachable filled
filled-Reachable =
    next (next start (insert (λ s. false) contacts 50 1 (clublog ∷ codes "sota" ∷ [])))
      (backfill_step false contacts 60 7 clublog)

reachable-IsKeyed_example : IsKeyed filled
reachable-IsKeyed_example = reachable-IsKeyed filled-Reachable

-- A contact without a summit gets no row for SOTA.
two_rows : map (λ (r : SyncRow). r.qso_id) filled.rows ≡ 1 ∷ 2 ∷ []
unfolding backfill_sync_status_for_service insert_pending_sync_for_qso any equal
two_rows = refl

backfill-IsComplete_example :
    (after : Store) × (counts : BackfillCounts) × (backfill_sync_status_for_service false contacts
        60 7 eqsl inserted
      ≡ (after, some counts))
    × ((new : List SyncRow) × (after.rows ≡ inserted.rows ++ new)
        × (counts.confirmed_count + counts.pending_count ≡ length new))
    × (all (is_covered 7 eqsl after.rows) contacts ≡ true)
    × (backfill_sync_status_for_service false contacts 90 7 eqsl after ≡ (after, some no_counts))
backfill-IsComplete_example = backfill-IsComplete contacts 60 90 7 eqsl inserted

abbrev pub row : ℕ → SyncRow
row id = record {
  id = id;
  qso_id = id;
  service = clublog;
  status = pending;
  last_synced_at = none;
  remote_id = none;
  error_message = none;
  retry_count = 0;
  next_retry_at = none;
  last_error_code = none;
  created_at = 50;
  updated_at = 50;
}

mark_all_pending_failed-is_due_example :
    is_due_id contacts 100 clublog 7 2
      (mark_all_pending_failed false contacts 99 clublog 7 (codes "no key") (row 1 ∷ row 2 ∷ [])).0
    ≡ true
unfolding any is_due equal
mark_all_pending_failed-is_due_example =
    mark_all_pending_failed-is_due contacts 100 clublog 7 false 99 (codes "no key") 2
      (row 1 ∷ row 2 ∷ []) refl

-- An edit of the first contact: its services, sorted, of which both rows are pending.
edited :
    (reset_qso_sync_status false 70 1
      (row 1 ∷ record (row 3) { qso_id = 1; service = codes "a" } ∷ [])).1
    ≡ some (codes "a" ∷ clublog ∷ [])
unfolding reset_qso_sync_status equal less keep
edited = refl
