-- ===== src/Sync/ClubLog/Finish.antt =====
-- ClubLogUploadWorker of api/internal/services/sync/orchestrator.go: a run that is not held back
-- sends what is due.
use radioledger.Base.{
  ℕ, zero, suc, ◌+◌, ◌*◌, ◌≤◌, ◌≡◌, refl, ap, ◌∙◌, true, false, Bytes, List, [], ◌∷◌, Option, none,
  some, take, drop, length, length-drop-le, length-drop-from, arith,
}
use radioledger.Base.Text.{is_empty, trim_space}
use radioledger.Crypto.Keyring.{Cipher}
use radioledger.Sync.Circuit.{Circuits, allow_circuit}
use radioledger.Sync.Rate.{Query}
use radioledger.Sync.Rate.Bounds.{IsBelow, consume_rate_limit-IsBelow}
use radioledger.Sync.Status.{PendingQso, is_due, by_created, join_contacts, fetch_pending_qsos}
use radioledger.Sync.Status.Rows.{keys}
use radioledger.Sync.Status.Keys.{clash_free}
use radioledger.Sync.Export.{qsos_to_adif}
use radioledger.Sync.Credentials.{
  Credentials, plaintext, decode_credentials, decrypt_service_credentials,
}
use radioledger.Sync.ClubLog.{clublog, Tables, Stored, Worker, Returned, finished}
use radioledger.Sync.ClubLog.Upload.{
  Run, Next, batch_size, fetch_limit, on_rate, upload_batch, upload_batches, continue_with,
  on_fetched, on_loaded, on_credentials, on_circuit, upload_work,
}
use radioledger.Sync.ClubLog.Uploads.{due_rows, IsAccepting}
use radioledger.Sync.ClubLog.Work.{
  upload_work-IsRun, map_row-join_contacts, length-take-le, length-map_row, all-take-keep,
}

-- No query of the rate limit fails.
abbrev pub IsServed : Run → Type 0
IsServed run = (n : ℕ) (q : Query) → (run.rounds n).rate_faults q ≡ false

module _ (w : Worker) (run : Run) (stored : Stored) (user : ℕ) (creds : Credentials)
    (accepting : IsAccepting run) (served : IsServed run) where
  upload_batch-goes :
      (n k : ℕ) (batch : List PendingQso) (t : Tables)
      → IsBelow k clublog t.windows
      → k + 1 ≤ w.policy.rate_limit_rps
      → (t' : Tables) × (upload_batch w run (run.rounds n) stored user creds batch t ≡ (t', none))
        × IsBelow (k + 1) clublog t'.windows
  unfolding upload_batch
  upload_batch-goes n k batch t below limit =
      let round = run.rounds n in
      let (windows, e, more) =
        consume_rate_limit-IsBelow w.policy round.rate_faults round.bucket k clublog t.windows
          (served n) below limit in
      let sent : Next = on_rate w run round stored user creds batch t (windows, some true) in
      (
        sent.0,
        ap (on_rate w run round stored user creds batch t) e
            ∙ rw (accepting.accepts n creds (qsos_to_adif batch)) refl,
        rw (accepting.accepts n creds (qsos_to_adif batch)) more,
      )

  -- As many rounds as the limit still allows are enough for a hundred times as many contacts.
  upload_batches-finish :
      (rounds fuel n k : ℕ) (pending : List PendingQso) (t : Tables)
      → length pending ≤ rounds * 100
      → length pending ≤ fuel
      → IsBelow k clublog t.windows
      → k + rounds ≤ w.policy.rate_limit_rps
      → (upload_batches w run stored user creds fuel n pending t).1 ≡ finished
  unfolding upload_batches
  upload_batches-finish rounds fuel n k [] t h l below limit = refl
  upload_batches-finish zero fuel n k (p ∷ pending) t h l below limit = absurd (omega arith)
  upload_batches-finish (suc rounds) zero n k (p ∷ pending) t h l below limit = absurd (omega arith)
  upload_batches-finish (suc rounds) (suc fuel) n k (p ∷ pending) t h l below limit =
      let left = drop batch_size (p ∷ pending) in
      let (t', e, more) =
        upload_batch-goes n k (take batch_size (p ∷ pending)) t below (omega arith) in
      let shorter = length-drop-from (rounds * 100) 99 pending (omega arith) in
      let go : Tables → Tables × Returned =
        λ t''. upload_batches w run stored user creds fuel (suc n) left t'' in
      ap (λ x. (continue_with go x).1) e
      ∙ upload_batches-finish rounds fuel (suc n) (k + 1) left t' shorter
          (omega (arith, length-drop-le 99 pending)) more (omega arith)

  on_fetched-finish :
      (k : ℕ) (pending : List PendingQso) (t : Tables)
      → is_empty (trim_space w.api_key) ≡ false
      → length pending ≤ fetch_limit
      → IsBelow k clublog t.windows
      → k + 5 ≤ w.policy.rate_limit_rps
      → (on_fetched w run stored user creds t (some pending)).1 ≡ finished
  on_fetched-finish k [] t has_key l below limit = refl
  on_fetched-finish k (p ∷ pending) t has_key l below limit = rw has_key (
      upload_batches-finish 5 (length (p ∷ pending)) 0 k (p ∷ pending) t l (omega arith) below
        limit)

  on_credentials-finish :
      (k : ℕ) (t : Tables)
      → is_empty (trim_space w.api_key) ≡ false
      → run.fetch_fails ≡ false
      → IsBelow k clublog t.windows
      → k + 5 ≤ w.policy.rate_limit_rps
      → (on_credentials w run stored user t (some creds)).1 ≡ finished
  on_credentials-finish k t has_key fetches below limit =
      let due = is_due stored.contacts run.db_now clublog user in
      let rows = take fetch_limit (due_rows stored.contacts run.db_now user t.rows) in
      let fetched = join_contacts stored.contacts rows in
      let same =
        map_row-join_contacts stored.contacts run.db_now user rows
          (all-take-keep due fetch_limit (by_created t.rows)) in
      let e : fetch_pending_qsos run.fetch_fails stored.contacts run.db_now clublog user fetch_limit
            t.rows
          ≡ some fetched =
        unfold fetch_pending_qsos in rw fetches refl in
      ap (λ o. (on_fetched w run stored user creds t o).1) e
      ∙ on_fetched-finish k fetched t has_key
          (omega (
            arith,
            length-map_row fetched,
            ap length same,
            length-take-le {0} fetch_limit (due_rows stored.contacts run.db_now user t.rows),
          ))
          below limit

-- A run sends what is due: when the circuit admits it, no second has more than `k` calls of Club Log
-- and the limit is `k + 5` calls a second at least, no query of the rate limit fails, and all else is
-- as for a run that takes rows off the queue, then the worker returns nil, and the rows that are due
-- afterwards are those behind the first 500, in their order.
pub upload_work-finishes :
    (cipher : Cipher) (unmarshal : Bytes → Option Credentials) (w : Worker) (run : Run)
    (stored : Stored) (user k : ℕ) (t : Tables) {text : Bytes} {creds : Credentials}
    {circuits : Circuits} {wait : ℕ}
    → IsAccepting run
    → IsServed run
    → is_empty (trim_space w.api_key) ≡ false
    → clash_free (keys t.rows) ≡ true
    → run.fetch_fails ≡ false
    → decrypt_service_credentials cipher run.credentials_fail w.keyring user clublog
        stored.credentials
      ≡ plaintext text
    → decode_credentials unmarshal text ≡ some creds
    → allow_circuit w.policy run.allow_faults run.now run.db_now clublog t.circuits
      ≡ (circuits, some (true, wait))
    → IsBelow k clublog t.windows
    → k + 5 ≤ w.policy.rate_limit_rps
    → let after = upload_work cipher unmarshal w run stored user t in
      (after.1 ≡ finished)
      × (due_rows stored.contacts run.db_now user after.0.rows
          ≡ drop fetch_limit (due_rows stored.contacts run.db_now user t.rows))
unfolding upload_work
upload_work-finishes cipher unmarshal w run stored user k t {text} {creds} {circuits} g s has_key
      free fetches loads decodes admits below limit =
    let t' : Tables = record t { circuits = circuits } in
    let done =
      ap (λ o. (on_circuit cipher unmarshal w run stored user t o).1) admits
      ∙ ap (λ l. (on_loaded unmarshal w run stored user t' l).1) loads
      ∙ ap (λ c. (on_credentials w run stored user t' c).1) decodes
      ∙ on_credentials-finish w run stored user creds g s k t' has_key fetches below limit in
    let (sent, split, few, all_sent) =
      upload_work-IsRun cipher unmarshal w run stored user t g has_key free fetches loads decodes in
    (done, all_sent done)
