-- ===== src/Sync/Status/Permanent.antt =====
-- markAllPendingFailed of api/internal/services/sync/orchestrator.go: the rows that it marks as
-- failed for good are fetched again.
use radioledger.Base.{
  ℕ, ◌==◌, ◌≡◌, Bool, true, ◌&&◌, Bytes, List, [], ◌∷◌, any, arith, if-ind, none,
}
use radioledger.Sync.Status.{SyncRow, Contact, Result, is_due, update_where}
use radioledger.Sync.Status.Marks.{is_waiting_for, permanent_row, mark_all_pending_failed}

module _ (contacts : List Contact) (now : ℕ) (service : Bytes) (user : ℕ) where
  -- The row with the number is due.
  abbrev pub is_due_id : ℕ → List SyncRow → Bool
  is_due_id id rows = any (λ r. r.id == id && is_due contacts now service user r) rows

  is_due-permanent :
      (at : ℕ) (message : Bytes) (r : SyncRow)
      → is_due contacts now service user r ≡ true
      → is_due contacts now service user (permanent_row at message r) ≡ true
  unfolding is_due
  is_due-permanent at message r h = ground arith

  update-is_due_id :
      (test : SyncRow → Bool) (at : ℕ) (message : Bytes) (id : ℕ) (rows : List SyncRow)
      → is_due_id id rows ≡ true
      → is_due_id id (update_where test (permanent_row at message) rows) ≡ true
  unfolding any update_where
  update-is_due_id test at message id [] h = h
  update-is_due_id test at message id (r ∷ rows) h =
      ground (arith, is_due-permanent at message r, update-is_due_id test at message id rows)

  -- A permanent failure does not stop the retries: a row that is due stays due, at the same instant,
  -- when markAllPendingFailed has marked the rows of the user and the service, whatever the message
  -- and whether or not its statement fails.
  pub mark_all_pending_failed-is_due :
      (fails : Bool) (at : ℕ) (message : Bytes) (id : ℕ) (rows : List SyncRow)
      → is_due_id id rows ≡ true
      → is_due_id id (mark_all_pending_failed fails contacts at service user message rows).0 ≡ true
  unfolding mark_all_pending_failed
  mark_all_pending_failed-is_due fails at message id rows h =
      if-ind (λ (x : Result ℕ). is_due_id id x.0 ≡ true) fails (rows, none) _ h
        (update-is_due_id (is_waiting_for contacts service user) at message id rows h)
