-- ===== src/Sync/ClubLog/Drain.antt =====
-- ClubLogUploadWorker of api/internal/services/sync/orchestrator.go when Club Log accepts what it is
-- sent: a run takes rows off the front of the queue.
use mathlib.Core.Path.{subst}
use radioledger.Base.{
  ℕ, zero, suc, ◌≤◌, ◌≡◌, ◌≢◌, refl, sym, ap, ◌∙◌, Bool, true, false, ◌⊎◌, inl, inr, Bytes, List,
  [], ◌∷◌, ◌++◌, Option, none, some, map, take, drop, length, append_assoc, length-drop-le, arith,
}
use radioledger.Sync.Circuit.{record_success}
use radioledger.Sync.Rate.{Window, consume_rate_limit}
use radioledger.Sync.Status.{SyncRow, PendingQso, Contact}
use radioledger.Sync.Status.Queue.{are_apart}
use radioledger.Sync.Export.{qsos_to_adif}
use radioledger.Sync.Credentials.{Credentials}
use radioledger.Sync.ClubLog.{
  clublog, Tables, Stored, Worker, Returned, finished, failed, snoozed, one_second,
}
use radioledger.Sync.ClubLog.Upload.{
  Round, Run, mark_batch_uploaded, batch_size, Next, on_rate, upload_batch, upload_batches,
  continue_with,
}
use radioledger.Sync.ClubLog.Uploads.{
  due_rows, IsAccepting, row_of, mark_batch-change_each, take-drop, map_row-append,
  due_rows-change_each, are_apart-change_each,
}

-- A batch is uploaded and its rows are marked, or the worker returns, not done, with the rows as
-- they were.
abbrev IsSent : Round → List PendingQso → Tables → Next → Type 0
IsSent round batch t x =
    ((t' : Tables) × (ret : Returned) × (x ≡ (t', some ret))
      × (t'.rows ≡ t.rows)
      × (ret ≢ finished))
    ⊎ ((t' : Tables) × (x ≡ (t', none)) × (t'.rows ≡ mark_batch_uploaded round batch t.rows))

on_rate-IsSent :
    (w : Worker) (run : Run) (round : Round) (stored : Stored) (user : ℕ) (creds : Credentials)
    (batch : List PendingQso) (t : Tables) (o : List Window × Option Bool)
    → ((text : Bytes) → round.answer creds text ≡ none)
    → IsSent round batch t (on_rate w run round stored user creds batch t o)
on_rate-IsSent w run round stored user creds batch t (windows, none) h =
    inl (record t { windows = windows }, failed, refl, refl, λ e. cc)
on_rate-IsSent w run round stored user creds batch t (windows, some false) h =
    inl (record t { windows = windows }, snoozed one_second, refl, refl, λ e. cc)
on_rate-IsSent w run round stored user creds batch t (windows, some true) h =
    let after : Tables = record t {
      windows = windows;
      circuits = (record_success round.record_faults round.recorded_at clublog t.circuits).0;
      rows = mark_batch_uploaded round batch t.rows;
    } in
    inr (after, rw (h (qsos_to_adif batch)) refl, refl)

upload_batch-IsSent :
    (w : Worker) (run : Run) (round : Round) (stored : Stored) (user : ℕ) (creds : Credentials)
    (batch : List PendingQso) (t : Tables)
    → ((text : Bytes) → round.answer creds text ≡ none)
    → IsSent round batch t (upload_batch w run round stored user creds batch t)
unfolding upload_batch
upload_batch-IsSent w run round stored user creds batch t h =
    on_rate-IsSent w run round stored user creds batch t
      (consume_rate_limit w.policy round.rate_faults round.bucket clublog t.windows) h

module _ (contacts : List Contact) (now user : ℕ) where
  -- The worker has dealt with the first of the pending contacts; with all of them, if it finished.
  abbrev pub IsDrained : List PendingQso → List SyncRow → Tables × Returned → Type 0
  IsDrained pending rest x =
      (sent : List PendingQso) × (left : List PendingQso) × (pending ≡ sent ++ left)
      × (due_rows contacts now user x.0.rows ≡ map row_of left ++ rest)
      × (x.1 ≡ finished → left ≡ [])

  IsDrained-behind :
      (batch left : List PendingQso) (pending : List PendingQso) (rest : List SyncRow)
      (x : Tables × Returned)
      → batch ++ left ≡ pending
      → IsDrained left rest x
      → IsDrained pending rest x
  IsDrained-behind batch left pending rest x h (sent, left', split, due, all_sent) = (
    batch ++ sent,
    left',
    sym h ∙ ap (◌++◌ batch) split ∙ sym (append_assoc batch sent left'),
    due,
    all_sent,
  )

  IsDrained-stopped :
      (pending : List PendingQso) (rest rows : List SyncRow) (t : Tables) (ret : Returned)
      → due_rows contacts now user rows ≡ map row_of pending ++ rest
      → t.rows ≡ rows
      → ret ≢ finished
      → IsDrained pending rest (t, ret)
  IsDrained-stopped pending rest rows t ret due same open_ended =
      ([], pending, refl, ap (due_rows contacts now user) same ∙ due, λ e. absurd (open_ended e))

module _ (w : Worker) (run : Run) (stored : Stored) (user : ℕ) (creds : Credentials)
    (accepting : IsAccepting run) where
  pub upload_batches-IsDrained :
      (fuel n : ℕ) (pending : List PendingQso) (rest : List SyncRow) (t : Tables)
      → length pending ≤ fuel
      → are_apart t.rows ≡ true
      → due_rows stored.contacts run.db_now user t.rows ≡ map row_of pending ++ rest
      → IsDrained stored.contacts run.db_now user pending rest
          (upload_batches w run stored user creds fuel n pending t)
  unfolding upload_batches
  upload_batches-IsDrained fuel n [] rest t l a due = ([], [], refl, due, λ e. refl)
  upload_batches-IsDrained zero n (p ∷ pending) rest t l a due = absurd (omega arith)
  upload_batches-IsDrained (suc fuel) n (p ∷ pending) rest t l a due =
      let round = run.rounds n in
      let batch = take batch_size (p ∷ pending) in
      let left = drop batch_size (p ∷ pending) in
      let split = take-drop batch_size (p ∷ pending) in
      let go : Tables → Tables × Returned =
        λ t'. upload_batches w run stored user creds fuel (suc n) left t' in
      let drained : Tables × Returned → Type 0 =
        IsDrained stored.contacts run.db_now user (p ∷ pending) rest in
      elim (upload_batch-IsSent w run round stored user creds batch t (accepting.accepts n creds)) [
        | inl (t', ret, e, same, open_ended) ↦
            subst (λ x. drained (continue_with go x)) (sym e)
              (IsDrained-stopped stored.contacts run.db_now user (p ∷ pending) rest t.rows t' ret
                due same open_ended)
        | inr (t', e, marked) ↦
            let marked_each =
              marked ∙ mark_batch-change_each round batch t.rows (accepting.marks n) in
            let queue =
              due
              ∙ ap (λ ps. map row_of ps ++ rest) (sym split)
              ∙ ap (λ rs. rs ++ rest) (map_row-append batch left)
              ∙ append_assoc (map row_of batch) (map row_of left) rest in
            subst (λ x. drained (continue_with go x)) (sym e)
              (IsDrained-behind stored.contacts run.db_now user batch left (p ∷ pending) rest
                (go t') split
                (upload_batches-IsDrained fuel (suc n) left rest t'
                  (omega (arith, length-drop-le 99 pending))
                  (ap are_apart marked_each
                    ∙ are_apart-change_each round (map row_of batch) t.rows a)
                  (ap (due_rows stored.contacts run.db_now user) marked_each
                    ∙ due_rows-change_each stored.contacts run.db_now user round (map row_of batch)
                        (map row_of left ++ rest) t.rows a queue)))
      ]
