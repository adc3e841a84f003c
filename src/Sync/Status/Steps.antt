-- ===== src/Sync/Status/Steps.antt =====
-- The statements of the Go code on the table sync_status as steps, in any order and with any faults,
-- with the trigger on an edit of a contact; the contacts may change between them.
use radioledger.Base.{
  ℕ, ◌≡◌, refl, Bool, true, false, Bytes, List, [], ◌∷◌, Option, none, some, any, all, keep,
  if◌then◌else◌, if-ind, arith,
}
use radioledger.Sync.Status.{SyncRow, Contact, Result}
use radioledger.Sync.Status.Marks.{
  mark_uploaded, mark_sync_error, mark_all_pending_failed, cancel_pending_sync, mark_sync_confirmed,
  mark_sync_dirty, mark_clublog_dxcc_confirmed, reset_qso_sync_status, delete_qso_sync,
}
use radioledger.Sync.Status.Rows.{Key, key, keys}
use radioledger.Sync.Status.Insert.{
  Store, insert_pending_sync_for_qso, backfill_sync_status_for_service, BackfillCounts,
}
use radioledger.Sync.Status.Keys.{
  clashes, clash_free, is_below, IsKeyed, update-IsKeyed, insert_pending-IsKeyed, backfill-IsKeyed,
}
use radioledger.Sync.Status.{pending}
use radioledger.Sync.Status.Insert.{insert_sync}
use radioledger.Sync.Status.Keys.{insert_sync-IsKeyed}
use radioledger.Sync.Status.Dashboard.{
  upsert_sync_status_rows, confirm_sync, mark_long_uploaded_as_confirmed, bulk_upload_unsynced,
  retry_related, retry_failed_syncs,
}
use radioledger.Sync.Status.Dashboard.Keyed.{
  upsert_sync-IsKeyed, upsert_each-IsKeyed, insert_missing-IsKeyed,
}

abbrev pub with_rows : Store → List SyncRow → Store
with_rows s rows = record s { rows = rows }

pub data Step (s : Store) : Store → Type 0 where
  insert :
      (fails : Bytes → Bool) (contacts : List Contact) (now qso_id : ℕ) (services : List Bytes)
      → Step s (insert_pending_sync_for_qso fails contacts now qso_id services s).0
  backfill_step :
      (fails : Bool) (contacts : List Contact) (now user : ℕ) (service : Bytes)
      → Step s (backfill_sync_status_for_service fails contacts now user service s).0
  upload :
      (fails : Bool) (now id : ℕ) (remote_id : Bytes)
      → Step s (with_rows s (mark_uploaded fails now id remote_id s.rows).0)
  fail :
      (fails : Bool) (now : ℕ) (next_retry : Option ℕ) (id : ℕ) (message code : Bytes)
      → Step s (with_rows s (mark_sync_error fails now next_retry id message code s.rows).0)
  fail_all :
      (fails : Bool) (contacts : List Contact) (now : ℕ) (service : Bytes) (user : ℕ)
      (message : Bytes)
      → Step s
          (with_rows s (mark_all_pending_failed fails contacts now service user message s.rows).0)
  cancel :
      (fails : Bool) (contacts : List Contact) (now user : ℕ) (service : Bytes)
      → Step s (with_rows s (cancel_pending_sync fails contacts now user service s.rows).0)
  confirm :
      (fails : Bool) (now qso_id : ℕ) (service : Bytes)
      → Step s (with_rows s (mark_sync_confirmed fails now qso_id service s.rows).0)
  confirm_entity :
      (fails : Bool) (contacts : List Contact) (now user entity : ℕ)
      → Step s (with_rows s (mark_clublog_dxcc_confirmed fails contacts now user entity s.rows).0)
  reset :
      (fails : Bool) (now qso_id : ℕ)
      → Step s (with_rows s (reset_qso_sync_status fails now qso_id s.rows).0)
  edit : (now qso_id : ℕ) → Step s (with_rows s (mark_sync_dirty now qso_id s.rows))
  insert_one :
      (fails : Bool) (now qso_id : ℕ) (service : Bytes)
      → Step s (if fails then s else insert_sync now qso_id service pending s)
  upload_lotw :
      (fails : Bool) (now sent_at : ℕ) (qso_ids : List ℕ)
      → Step s (upsert_sync_status_rows fails now sent_at qso_ids s).0
  confirm_service :
      (fails : Bool) (now confirmed_at qso_id : ℕ) (service : Bytes)
      → Step s (confirm_sync fails now confirmed_at qso_id service s).0
  confirm_hamqth :
      (fails : Bool) (contacts : List Contact) (now user cutoff : ℕ)
      → Step s
          (with_rows s (mark_long_uploaded_as_confirmed fails contacts now user cutoff s.rows).0)
  bulk_upload :
      (fails : Bool) (contacts : List Contact) (now user : ℕ) (service : Bytes)
      → Step s (bulk_upload_unsynced fails contacts now user service s).0
  resolve :
      (fails : Bool) (now qso_id : ℕ) (service_a service_b : Bytes)
      → Step s (with_rows s (retry_related fails now qso_id service_a service_b s.rows).0)
  retry :
      (fails : Bool) (contacts : List Contact) (now user : ℕ) (qso : Option ℕ) (service : Bytes)
      → Step s (with_rows s (retry_failed_syncs fails contacts now user qso service s.rows).0)
  delete :
      (fails : Bool) (qso_id : ℕ) → Step s (with_rows s (delete_qso_sync fails qso_id s.rows).0)

abbrev pub empty_store : Store
empty_store = record { next_id = 1; rows = [] }

pub data Reachable : Store → Type 0 where
  start : Reachable empty_store
  next : {s t : Store} → Reachable s → Step s t → Reachable t

any-clashes-keep :
    (k : Key) (test : SyncRow → Bool) (rows : List SyncRow)
    → any (clashes k) (keys rows) ≡ false
    → any (clashes k) (keys (keep test rows)) ≡ false
unfolding any keep
any-clashes-keep k test [] h = refl
any-clashes-keep k test (r ∷ rows) h = ground (arith, any-clashes-keep k test rows)

clash_free-keep :
    (test : SyncRow → Bool) (rows : List SyncRow)
    → clash_free (keys rows) ≡ true
    → clash_free (keys (keep test rows)) ≡ true
unfolding clash_free keep
clash_free-keep test [] h = refl
clash_free-keep test (r ∷ rows) h =
    ground (arith, any-clashes-keep (key r) test rows, clash_free-keep test rows)

all-is_below-keep :
    (n : ℕ) (test : SyncRow → Bool) (rows : List SyncRow)
    → all (is_below n) (keys rows) ≡ true
    → all (is_below n) (keys (keep test rows)) ≡ true
unfolding all keep
all-is_below-keep n test [] h = refl
all-is_below-keep n test (r ∷ rows) h = ground (arith, all-is_below-keep n test rows)

keep-IsKeyed :
    (test : SyncRow → Bool) {s : Store} → IsKeyed s → IsKeyed (with_rows s (keep test s.rows))
keep-IsKeyed test {s} k = record {
  is_clash_free = clash_free-keep test s.rows k.is_clash_free;
  are_drawn = all-is_below-keep s.next_id test s.rows k.are_drawn;
}

-- A statement that fails leaves the table as it was.
statement-IsKeyed :
    {A : Type 0} (fails : Bool) (rows : List SyncRow) (result : Option A) {s : Store}
    → IsKeyed s
    → IsKeyed (with_rows s rows)
    → let after : Result A = if fails then (s.rows, none) else (rows, result) in
      IsKeyed (with_rows s after.0)
statement-IsKeyed {A} fails rows result {s} k l =
    if-ind (λ (x : Result A). IsKeyed (with_rows s x.0)) fails (s.rows, none) (rows, result) k l

Step-IsKeyed : {s t : Store} → IsKeyed s → Step s t → IsKeyed t
unfolding mark_uploaded mark_sync_error mark_all_pending_failed cancel_pending_sync
    mark_sync_confirmed mark_clublog_dxcc_confirmed reset_qso_sync_status delete_qso_sync
    mark_sync_dirty backfill_sync_status_for_service upsert_sync_status_rows confirm_sync
    mark_long_uploaded_as_confirmed bulk_upload_unsynced retry_related retry_failed_syncs
Step-IsKeyed k (insert fails contacts now qso_id services) =
    insert_pending-IsKeyed fails contacts now qso_id services k
Step-IsKeyed {s} k (backfill_step fails contacts now user service) =
    if-ind (λ (x : Store × Option BackfillCounts). IsKeyed x.0) fails (s, none) _ k
      (backfill-IsKeyed now user service contacts _ k)
Step-IsKeyed k (upload fails now id remote_id) =
    statement-IsKeyed fails _ (some tt) k (update-IsKeyed _ _ (λ r. refl) k)
Step-IsKeyed k (fail fails now next_retry id message code) =
    statement-IsKeyed fails _ (some tt) k (update-IsKeyed _ _ (λ r. refl) k)
Step-IsKeyed k (fail_all fails contacts now service user message) =
    statement-IsKeyed fails _ (some _) k (update-IsKeyed _ _ (λ r. refl) k)
Step-IsKeyed k (cancel fails contacts now user service) =
    statement-IsKeyed fails _ (some _) k (update-IsKeyed _ _ (λ r. refl) k)
Step-IsKeyed k (confirm fails now qso_id service) =
    statement-IsKeyed fails _ (some tt) k (update-IsKeyed _ _ (λ r. refl) k)
Step-IsKeyed k (confirm_entity fails contacts now user entity) =
    statement-IsKeyed fails _ (some tt) k (update-IsKeyed _ _ (λ r. refl) k)
Step-IsKeyed k (reset fails now qso_id) =
    statement-IsKeyed fails _ (some _) k (update-IsKeyed _ _ (λ r. refl) k)
Step-IsKeyed {s} k (insert_one fails now qso_id service) =
    if-ind IsKeyed fails s _ k (insert_sync-IsKeyed now qso_id service pending k)
Step-IsKeyed {s} k (upload_lotw fails now sent_at qso_ids) =
    if-ind (λ (x : Store × Option (Unit {0})). IsKeyed x.0) fails (s, none) _ k
      (upsert_each-IsKeyed now sent_at qso_ids k)
Step-IsKeyed {s} k (confirm_service fails now confirmed_at qso_id service) =
    if-ind (λ (x : Store × Option (Unit {0})). IsKeyed x.0) fails (s, none) _ k
      (upsert_sync-IsKeyed now qso_id service _ (λ r. refl) k)
Step-IsKeyed k (confirm_hamqth fails contacts now user cutoff) =
    statement-IsKeyed fails _ (some _) k (update-IsKeyed _ _ (λ r. refl) k)
Step-IsKeyed {s} k (bulk_upload fails contacts now user service) =
    if-ind (λ (x : Store × Option ℕ). IsKeyed x.0) fails (s, none) _ k
      (update-IsKeyed _ _ (λ r. refl) (insert_missing-IsKeyed contacts now user service (s, 0) k))
Step-IsKeyed k (resolve fails now qso_id service_a service_b) =
    statement-IsKeyed fails _ (some tt) k (update-IsKeyed _ _ (λ r. refl) k)
Step-IsKeyed k (retry fails contacts now user qso service) =
    statement-IsKeyed fails _ (some _) k (update-IsKeyed _ _ (λ r. refl) k)
Step-IsKeyed k (edit now qso_id) = update-IsKeyed _ _ (λ r. refl) k
Step-IsKeyed k (delete fails qso_id) = statement-IsKeyed fails _ (some tt) k (keep-IsKeyed _ k)

-- Whatever inserts, updates, upserts and deletes of api/internal/services/sync, of handler/qso.go and
-- of sqlc/sync.sql.go run on an empty table sync_status, and the trigger on an edit of a contact, in
-- any order and with any faults: no two rows have one number, nor one contact and service, and the
-- sequence is past every number.
pub reachable-IsKeyed : {s : Store} → Reachable s → IsKeyed s
unfolding clash_free all
reachable-IsKeyed start = record { is_clash_free = refl; are_drawn = refl }
reachable-IsKeyed (next r step) = Step-IsKeyed (reachable-IsKeyed r) step
