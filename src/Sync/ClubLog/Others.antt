-- ===== src/Sync/ClubLog/Others.antt =====
-- ClubLogUploadWorker of api/internal/services/sync/orchestrator.go: the rows of other services and
-- of other users, whatever fails and whatever Club Log answers.
use radioledger.Base.{
  ℕ, zero, suc, ◌==◌, ◌≡◌, refl, Bool, true, false, not, ◌&&◌, ◌||◌, Bytes, List, [], ◌∷◌, Option,
  none, some, all, all-take, all-drop, take, drop, if◌then◌else◌, if-ind, arith, equal,
}
use radioledger.Base.Text.{codes}
use radioledger.Sync.Rate.{Window, consume_rate_limit}
use radioledger.Sync.Status.{SyncRow, PendingQso, Contact, Result, contact_of, joined}
use radioledger.Sync.Status.Marks.{
  is_waiting_for, mark_uploaded, mark_sync_error, uploaded_row, failed_row, or_later, permanent_row,
  mark_all_pending_failed,
}
use radioledger.Sync.Status.Rows.{Key, key, keys}
use radioledger.Sync.Status.Others.{
  IsAlike, IsAlike-trans, update_where-IsAlike, update_id-IsAlike, is_owned,
}
use radioledger.Sync.Export.{qsos_to_adif}
use radioledger.Sync.Credentials.{Credentials}
use radioledger.Sync.ClubLog.{
  clublog, Tables, Stored, Worker, Returned, is_clublog_auth_or_permanent_error,
  is_transient_sync_error,
}
use radioledger.Sync.ClubLog.Upload.{
  Round, Run, mark_batch_uploaded, mark_batch_failed, fail_all, on_upload_error, on_answer, on_rate,
  upload_batch, upload_batches, continue_with, Next, batch_size, bad_credentials,
}

-- A row of Club Log for a contact of the user.
unfoldable pub is_of_user : List Contact → ℕ → Key → Bool
unfolding contact_of
is_of_user contacts user (id, qso_id, service) =
    equal service clublog && joined (λ c. c.user_id == user) (contact_of qso_id contacts)

module _ (stored : Stored) (user : ℕ) where
  abbrev pub Alike : List SyncRow → List SyncRow → Type 0
  Alike = IsAlike (is_of_user stored.contacts user)

  abbrev pub owned : List Key → PendingQso → Bool
  owned ks p = is_owned (is_of_user stored.contacts user) p.row.id ks

  -- A statement that may fail.
  statement-Alike :
      {A : Type 0} (fails : Bool) (rows rows' : List SyncRow) (a : A)
      → Alike rows rows'
      → let after : Result A = if fails then (rows, none) else (rows', some a) in Alike rows after.0
  statement-Alike {A} fails rows rows' a h =
      if-ind (λ (x : Result A). Alike rows x.0) fails (rows, none) (rows', some a) (refl, refl) h

  mark_batch_uploaded-Alike :
      (round : Round) (batch : List PendingQso) (rows : List SyncRow)
      → all (owned (keys rows)) batch ≡ true
      → Alike rows (mark_batch_uploaded round batch rows)
  unfolding mark_batch_uploaded mark_uploaded all
  mark_batch_uploaded-Alike round [] rows h = (refl, refl)
  mark_batch_uploaded-Alike round (p ∷ batch) rows h =
      let own = is_of_user stored.contacts user in
      let rows' = (mark_uploaded (round.mark_fails p.row.id) round.marked_at p.row.id [] rows).0 in
      let one : Alike rows rows' = statement-Alike (round.mark_fails p.row.id) rows _ tt (
        update_id-IsAlike own p.row.id (uploaded_row round.marked_at []) (λ r. refl) rows
          (ground arith)) in
      let rest : all (owned (keys rows')) batch ≡ true = rw one.1 (ground arith) in
      IsAlike-trans own rows rows' (mark_batch_uploaded round batch rows') one
        (mark_batch_uploaded-Alike round batch rows' rest)

  mark_batch_failed-Alike :
      (round : Round) (message : Bytes) (batch : List PendingQso) (rows : List SyncRow)
      → all (owned (keys rows)) batch ≡ true
      → Alike rows (mark_batch_failed round message batch rows)
  unfolding mark_batch_failed mark_sync_error all
  mark_batch_failed-Alike round message [] rows h = (refl, refl)
  mark_batch_failed-Alike round message (p ∷ batch) rows h =
      let own = is_of_user stored.contacts user in
      let retry = round.next_retry p.row.retry_count in
      let code = codes "upload_failed" in
      let rows' =
        (mark_sync_error (round.mark_fails p.row.id) round.marked_at retry p.row.id message code
          rows).0 in
      let one : Alike rows rows' = statement-Alike (round.mark_fails p.row.id) rows _ tt (
        update_id-IsAlike own p.row.id
          (failed_row round.marked_at (or_later round.marked_at retry) message code) (λ r. refl)
          rows (ground arith)) in
      let rest : all (owned (keys rows')) batch ≡ true = rw one.1 (ground arith) in
      IsAlike-trans own rows rows' (mark_batch_failed round message batch rows') one
        (mark_batch_failed-Alike round message batch rows' rest)

  waits-own :
      (rows : List SyncRow)
      → all
          (λ r.
            not (is_waiting_for stored.contacts clublog user r)
            || is_of_user stored.contacts user (key r))
          rows
        ≡ true
  unfolding all is_waiting_for is_of_user
  waits-own [] = refl
  waits-own (r ∷ rows) = ground (arith, waits-own rows)

  pub fail_all-Alike :
      (run : Run) (message : Bytes) (t : Tables)
      → Alike t.rows (fail_all run stored user message t).rows
  unfolding mark_all_pending_failed
  fail_all-Alike run message t = statement-Alike run.fail_all_fails t.rows _ _ (
      update_where-IsAlike (is_of_user stored.contacts user)
        (is_waiting_for stored.contacts clublog user) (permanent_row run.db_now message) (λ r. refl)
        t.rows (waits-own t.rows))

  on_upload_error-Alike :
      (w : Worker) (run : Run) (round : Round) (batch : List PendingQso) (message : Bytes)
      (t : Tables)
      → all (owned (keys t.rows)) batch ≡ true
      → Alike t.rows (on_upload_error w run round stored user batch message t).0.rows
  unfolding on_upload_error
  on_upload_error-Alike w run round batch message t h =
      let P : Next → Type 0 = λ x. Alike t.rows x.0.rows in
      if-ind P (is_clublog_auth_or_permanent_error message) _ _
        (fail_all-Alike run bad_credentials t)
        (if-ind P (is_transient_sync_error message) _ _ (refl, refl)
          (mark_batch_failed-Alike round message batch t.rows h))

  on_answer-Alike :
      (w : Worker) (run : Run) (round : Round) (batch : List PendingQso) (t : Tables)
      (o : Option Bytes)
      → all (owned (keys t.rows)) batch ≡ true
      → Alike t.rows (on_answer w run round stored user batch t o).0.rows
  on_answer-Alike w run round batch t (some message) h =
      on_upload_error-Alike w run round batch message t h
  on_answer-Alike w run round batch t none h = mark_batch_uploaded-Alike round batch t.rows h

  on_rate-Alike :
      (w : Worker) (run : Run) (round : Round) (creds : Credentials) (batch : List PendingQso)
      (t : Tables) (o : List Window × Option Bool)
      → all (owned (keys t.rows)) batch ≡ true
      → Alike t.rows (on_rate w run round stored user creds batch t o).0.rows
  on_rate-Alike w run round creds batch t (windows, none) h = (refl, refl)
  on_rate-Alike w run round creds batch t (windows, some false) h = (refl, refl)
  on_rate-Alike w run round creds batch t (windows, some true) h =
      on_answer-Alike w run round batch (record t { windows = windows })
        (round.answer creds (qsos_to_adif batch)) h

  continue_with-Alike :
      (rows : List SyncRow) (k : Tables → Tables × Returned) (x : Next)
      → Alike rows x.0.rows
      → ((t : Tables) → Alike rows t.rows → Alike t.rows (k t).0.rows)
      → Alike rows (continue_with k x).0.rows
  continue_with-Alike rows k (t, some returned) h go = h
  continue_with-Alike rows k (t, none) h go =
      IsAlike-trans (is_of_user stored.contacts user) rows t.rows (k t).0.rows h (go t h)

  pub upload_batches-Alike :
      (w : Worker) (run : Run) (creds : Credentials) (fuel n : ℕ) (pending : List PendingQso)
      (t : Tables)
      → all (owned (keys t.rows)) pending ≡ true
      → Alike t.rows (upload_batches w run stored user creds fuel n pending t).0.rows
  unfolding upload_batches upload_batch
  upload_batches-Alike w run creds fuel n [] t h = (refl, refl)
  upload_batches-Alike w run creds zero n (p ∷ pending) t h = (refl, refl)
  upload_batches-Alike w run creds (suc fuel) n (p ∷ pending) t h =
      let round = run.rounds n in
      let batch = take batch_size (p ∷ pending) in
      let left = drop batch_size (p ∷ pending) in
      continue_with-Alike t.rows (λ t'. upload_batches w run stored user creds fuel (suc n) left t')
        (upload_batch w run round stored user creds batch t)
        (on_rate-Alike w run round creds batch t
          (consume_rate_limit w.policy round.rate_faults round.bucket clublog t.windows)
          (all-take (owned (keys t.rows)) batch_size (p ∷ pending) h))
        (λ t' same.
          upload_batches-Alike w run creds fuel (suc n) left t'
            (rw same.1 (all-drop (owned (keys t.rows)) batch_size (p ∷ pending) h)))
