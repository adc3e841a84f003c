-- ===== src/Sync/Status/Dashboard/Keyed.antt =====
-- The statements of the dashboard and of the workers for LoTW and eQSL keep the keys of sync_status.
use mathlib.Core.Path.{subst}
use radioledger.Base.{
  ℕ, ◌+◌, ◌==◌, ◌≡◌, refl, false, not, ◌&&◌, Bytes, List, [], ◌∷◌, ◌++◌, Bool-cases, inl, inr,
  arith,
}
use radioledger.Sync.Status.{SyncRow, Contact, pending, SyncState}
use radioledger.Sync.Status.Rows.{key}
use radioledger.Sync.Status.Insert.{Store, has_row, new_row, insert_sync}
use radioledger.Sync.Status.Keys.{IsKeyed, insert_sync-IsKeyed, update-IsKeyed}
use radioledger.Sync.Status.Dashboard.{upsert_sync, upsert_each, lotw_uploaded_row, insert_missing}

pub upsert_sync-IsKeyed :
    (now qso_id : ℕ) (service : Bytes) (change : SyncRow → SyncRow) {s : Store}
    → ((r : SyncRow) → key (change r) ≡ key r)
    → IsKeyed s
    → IsKeyed (upsert_sync now qso_id service change s)
unfolding upsert_sync
upsert_sync-IsKeyed now qso_id service change h k =
    update-IsKeyed _ change h (insert_sync-IsKeyed now qso_id service pending k)

pub upsert_each-IsKeyed :
    (now sent_at : ℕ) (qso_ids : List ℕ) {s : Store}
    → IsKeyed s
    → IsKeyed (upsert_each now sent_at qso_ids s)
unfolding upsert_each
upsert_each-IsKeyed now sent_at [] k = k
upsert_each-IsKeyed now sent_at (qso_id ∷ qso_ids) k =
    upsert_each-IsKeyed now sent_at qso_ids
      (upsert_sync-IsKeyed now qso_id _ (lotw_uploaded_row now sent_at) (λ r. refl) k)

-- The condition of the INSERT does what ON CONFLICT would.
insert_sync-new :
    (now qso_id : ℕ) (service : Bytes) (status : SyncState) (s : Store)
    → has_row qso_id service s.rows ≡ false
    → insert_sync now qso_id service status s ≡ record {
      next_id = s.next_id + 1;
      rows = s.rows ++ new_row s.next_id now qso_id service status ∷ [];
    }
unfolding insert_sync
insert_sync-new now qso_id service status s h = rw h refl

pub insert_missing-IsKeyed :
    (contacts : List Contact) (now user : ℕ) (service : Bytes) (done : Store × ℕ)
    → IsKeyed done.0
    → IsKeyed (insert_missing contacts now user service done).0
unfolding insert_missing
insert_missing-IsKeyed [] now user service done k = k
insert_missing-IsKeyed (c ∷ contacts) now user service (s, n) k =
    let test = c.user_id == user && (not c.is_deleted && not (has_row c.id service s.rows)) in
    let keyed : Store × ℕ → Type 0 = λ x. IsKeyed x.0 in
    insert_missing-IsKeyed contacts now user service _ (elim (Bool-cases test) [
      | inl taken ↦ rw taken (
          subst IsKeyed (insert_sync-new now c.id service pending s (ground arith))
            (insert_sync-IsKeyed now c.id service pending k))
      | inr left ↦ rw left k
    ])
