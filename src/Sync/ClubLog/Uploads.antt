-- ===== src/Sync/ClubLog/Uploads.antt =====
-- ClubLogUploadWorker of api/internal/services/sync/orchestrator.go when Club Log accepts what it is
-- sent: how far the queue of the rows that are due gets.
use radioledger.Base.{
  ℕ, zero, suc, ◌≡◌, refl, sym, ap, ◌∙◌, true, false, Bytes, List, [], ◌∷◌, ◌++◌, none, map, keep,
  take, drop, length, take-append, drop-append, arith,
}
use radioledger.Sync.Status.{SyncRow, PendingQso, Contact, is_due, by_created}
use radioledger.Sync.Status.Marks.{uploaded_row}
use radioledger.Sync.Status.Queue.{
  are_apart, change_id, change_each, keep-change_each, by_created-change_each, are_apart-by_created,
  are_apart-change_id,
}
use radioledger.Sync.Credentials.{Credentials}
use radioledger.Sync.ClubLog.{clublog}
use radioledger.Sync.ClubLog.Upload.{Round, Run, mark_batch_uploaded}

-- The rows that are due, in the order in which they are fetched.
abbrev pub due_rows : List Contact → ℕ → ℕ → List SyncRow → List SyncRow
due_rows contacts now user rows = keep (is_due contacts now clublog user) (by_created rows)

-- Club Log accepts every text, and no update of a row fails.
pub record IsAccepting (run : Run) : Type 0 where
  pub accepts :
      (n : ℕ) (creds : Credentials) (text : Bytes) → (run.rounds n).answer creds text ≡ none
  pub marks : (n id : ℕ) → (run.rounds n).mark_fails id ≡ false

abbrev pub row_of : PendingQso → SyncRow
row_of p = p.row

abbrev pub uploaded_at : Round → SyncRow → SyncRow
uploaded_at round = uploaded_row round.marked_at []

pub mark_batch-change_each :
    (round : Round) (batch : List PendingQso) (rows : List SyncRow)
    → ((id : ℕ) → round.mark_fails id ≡ false)
    → mark_batch_uploaded round batch rows ≡ change_each (uploaded_at round) (map row_of batch) rows
unfolding mark_batch_uploaded
mark_batch-change_each round [] rows h = refl
mark_batch-change_each round (p ∷ batch) rows h =
    rw (h p.row.id) (mark_batch-change_each round batch _ h)

is_due-uploaded :
    (contacts : List Contact) (now user : ℕ) (round : Round) (r : SyncRow)
    → is_due contacts now clublog user (uploaded_at round r) ≡ false
unfolding is_due
is_due-uploaded contacts now user round r = ground arith

pub take-drop {ℓ} : {A : Type ℓ} (n : ℕ) (xs : List A) → take n xs ++ drop n xs ≡ xs
take-drop zero xs = refl
take-drop (suc n) [] = refl
take-drop (suc n) (x ∷ xs) = ap (◌∷◌ x) (take-drop n xs)

pub map_row-append :
    (xs ys : List PendingQso) → map row_of (xs ++ ys) ≡ map row_of xs ++ map row_of ys
map_row-append [] ys = refl
map_row-append (x ∷ xs) ys = ap (◌∷◌ (row_of x)) (map_row-append xs ys)

module _ (contacts : List Contact) (now user : ℕ) (round : Round) where
  -- The rows at the front of the queue leave it.
  pub due_rows-change_each :
      (front rest rows : List SyncRow)
      → are_apart rows ≡ true
      → due_rows contacts now user rows ≡ front ++ rest
      → due_rows contacts now user (change_each (uploaded_at round) front rows) ≡ rest
  due_rows-change_each front rest rows a h =
      let up = uploaded_at round in
      let due = is_due contacts now clublog user in
      let sorted = by_created-change_each up (λ r. refl) front rows in
      let left =
        keep-change_each up due (is_due-uploaded contacts now user round) (λ r. refl) (length front)
          (front ++ rest) (by_created rows) (are_apart-by_created rows a) h in
      ap (keep due) sorted
      ∙ ap (λ xs. keep due (change_each up xs (by_created rows))) (sym (take-append front rest))
      ∙ left
      ∙ drop-append front rest

pub are_apart-change_each :
    (round : Round) (batch rows : List SyncRow)
    → are_apart rows ≡ true
    → are_apart (change_each (uploaded_at round) batch rows) ≡ true
are_apart-change_each round [] rows a = a
are_apart-change_each round (r ∷ batch) rows a =
    are_apart-change_each round batch (change_id (uploaded_at round) r.id rows)
      (are_apart-change_id (uploaded_at round) (λ s. refl) r.id rows ∙ a)
