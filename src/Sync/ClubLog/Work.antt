-- ===== src/Sync/ClubLog/Work.antt =====
-- ClubLogUploadWorker.Work of api/internal/services/sync/orchestrator.go: a whole run when Club Log
-- accepts what it is sent.
use mathlib.Core.Path.{subst}
use radioledger.Base.{
  ℕ, zero, suc, ◌≤◌, ◌≡◌, ◌≢◌, refl, sym, ap, ◌∙◌, Bool, true, false, inl, inr, Bytes, List, [],
  ◌∷◌, ◌++◌, Option, none, some, map, keep, all, take, drop, length, length-append, append_assoc,
  arith, Option-cases, Bool-cases,
}
use radioledger.Base.Text.{is_empty, trim_space}
use radioledger.Crypto.Keyring.{Cipher}
use radioledger.Sync.Circuit.{Outcome, allow_circuit}
use radioledger.Sync.Status.{
  SyncRow, PendingQso, Contact, is_due, by_created, join_contacts, contact_of, fetch_pending_qsos,
}
use radioledger.Sync.Status.Rows.{keys}
use radioledger.Sync.Status.Keys.{clash_free}
use radioledger.Sync.Status.Queue.{are_apart, are_apart-clash_free}
use radioledger.Sync.Credentials.{
  Credentials, plaintext, decode_credentials, decrypt_service_credentials,
}
use radioledger.Sync.ClubLog.{clublog, Tables, Stored, Worker, Returned, finished, failed, snoozed}
use radioledger.Sync.ClubLog.Upload.{
  Run, fetch_limit, on_fetched, on_loaded, on_credentials, on_circuit, upload_work, upload_batches,
}
use radioledger.Sync.ClubLog.Uploads.{due_rows, IsAccepting, row_of, take-drop, map_row-append}
use radioledger.Sync.ClubLog.Drain.{IsDrained, upload_batches-IsDrained}

pub all-take-keep {ℓ} :
    {A : Type ℓ} (p : A → Bool) (n : ℕ) (xs : List A) → all p (take n (keep p xs)) ≡ true
unfolding all keep
all-take-keep p zero xs = refl
all-take-keep p (suc n) [] = refl
all-take-keep p (suc n) (x ∷ xs) = elim (Bool-cases (p x)) [
  | inl yes' ↦ rw (yes', keep) (rw yes' (all-take-keep p n xs))
  | inr no' ↦ rw (no', keep) (all-take-keep p (suc n) xs)
]

pub length-take-le {ℓ} : {A : Type ℓ} (n : ℕ) (xs : List A) → length (take n xs) ≤ n
length-take-le zero xs = omega arith
length-take-le (suc n) [] = omega arith
length-take-le (suc n) (x ∷ xs) = omega (arith, length-take-le n xs)

pub length-map_row : (ps : List PendingQso) → length (map row_of ps) ≡ length ps
length-map_row [] = refl
length-map_row (p ∷ ps) = ap suc (length-map_row ps)

module _ (contacts : List Contact) (now user : ℕ) where
  -- A row that is due has its contact.
  is_due-contact :
      (r : SyncRow)
      → is_due contacts now clublog user r ≡ true
      → (c : Contact) × (contact_of r.qso_id contacts ≡ some c)
  unfolding is_due
  is_due-contact r h = elim (Option-cases (contact_of r.qso_id contacts)) [
    | inl missing ↦ absurd (ground (arith, missing))
    | inr found ↦ found
  ]

  pub map_row-join_contacts :
      (rows : List SyncRow)
      → all (is_due contacts now clublog user) rows ≡ true
      → map row_of (join_contacts contacts rows) ≡ rows
  unfolding join_contacts all
  map_row-join_contacts [] h = refl
  map_row-join_contacts (r ∷ rows) h =
      let due : is_due contacts now clublog user r ≡ true = ground arith in
      let (c, found) = is_due-contact r due in
      rw found (ap (◌∷◌ r) (map_row-join_contacts rows (ground arith)))

-- A run sends the rows at the front of the queue; the first 500 of them, if it finishes.
abbrev pub IsRun : Run → Stored → ℕ → List SyncRow → Tables × Returned → Type 0
IsRun run stored user rows x =
    (sent : List SyncRow) × (due_rows stored.contacts run.db_now user rows
      ≡ sent ++ due_rows stored.contacts run.db_now user x.0.rows)
    × (length sent ≤ fetch_limit)
    × (x.1 ≡ finished
        → due_rows stored.contacts run.db_now user x.0.rows
          ≡ drop fetch_limit (due_rows stored.contacts run.db_now user rows))

IsRun-stopped :
    (run : Run) (stored : Stored) (user : ℕ) (t : Tables) (ret : Returned)
    → ret ≢ finished
    → IsRun run stored user t.rows (t, ret)
IsRun-stopped run stored user t ret h = ([], refl, omega arith, λ e. absurd (h e))

module _ (w : Worker) (run : Run) (stored : Stored) (user : ℕ) (creds : Credentials) where
  IsDrained-IsRun :
      (pending : List PendingQso) (t : Tables) (x : Tables × Returned)
      → map row_of pending ≡ take fetch_limit (due_rows stored.contacts run.db_now user t.rows)
      → IsDrained stored.contacts run.db_now user pending
          (drop fetch_limit (due_rows stored.contacts run.db_now user t.rows))
          x
      → IsRun run stored user t.rows x
  IsDrained-IsRun pending t x rows (sent, left, split, due, all_sent) =
      let before = due_rows stored.contacts run.db_now user t.rows in
      let rest = drop fetch_limit before in
      let parts = ap (map row_of) split ∙ map_row-append sent left in
      let total = ap length parts in
      (
        map row_of sent,
        sym (take-drop fetch_limit before)
            ∙ ap (λ xs. xs ++ rest) (sym rows ∙ parts)
            ∙ append_assoc (map row_of sent) (map row_of left) rest
            ∙ ap (◌++◌ (map row_of sent)) (sym due),
        omega (
          arith,
          total,
          ap length rows,
          length-take-le {0} fetch_limit before,
          length-append {0} (map row_of sent) (map row_of left),
        ),
        λ e. due ∙ ap (λ ps. map row_of ps ++ rest) (all_sent e),
      )

  module _ (accepting : IsAccepting run) (has_key : is_empty (trim_space w.api_key) ≡ false) where
    on_fetched-IsRun :
        (pending : List PendingQso) (t : Tables)
        → are_apart t.rows ≡ true
        → map row_of pending ≡ take fetch_limit (due_rows stored.contacts run.db_now user t.rows)
        → IsRun run stored user t.rows (on_fetched w run stored user creds t (some pending))
    on_fetched-IsRun [] t a rows =
        let before = due_rows stored.contacts run.db_now user t.rows in
        let queue =
          sym (take-drop fetch_limit before)
          ∙ ap (λ xs. xs ++ drop fetch_limit before) (sym rows) in
        IsDrained-IsRun [] t (t, finished) rows ([], [], refl, queue, λ e. refl)
    on_fetched-IsRun (p ∷ pending) t a rows =
        let before = due_rows stored.contacts run.db_now user t.rows in
        let queue =
          sym (take-drop fetch_limit before)
          ∙ ap (λ xs. xs ++ drop fetch_limit before) (sym rows) in
        let sent : Tables × Returned =
          upload_batches w run stored user creds (length (p ∷ pending)) 0 (p ∷ pending) t in
        rw has_key (
          IsDrained-IsRun (p ∷ pending) t sent rows (
            upload_batches-IsDrained w run stored user creds accepting (length (p ∷ pending)) 0
              (p ∷ pending) (drop fetch_limit before) t (omega arith) a queue))

    on_credentials-IsRun :
        (t : Tables)
        → are_apart t.rows ≡ true
        → run.fetch_fails ≡ false
        → IsRun run stored user t.rows (on_credentials w run stored user t (some creds))
    on_credentials-IsRun t a fetches =
        let due = is_due stored.contacts run.db_now clublog user in
        let rows = take fetch_limit (due_rows stored.contacts run.db_now user t.rows) in
        let fetched = join_contacts stored.contacts rows in
        let e : fetch_pending_qsos run.fetch_fails stored.contacts run.db_now clublog user
              fetch_limit t.rows
            ≡ some fetched =
          unfold fetch_pending_qsos in rw fetches refl in
        subst (λ o. IsRun run stored user t.rows (on_fetched w run stored user creds t o)) (sym e)
          (on_fetched-IsRun fetched t a (
            map_row-join_contacts stored.contacts run.db_now user rows
              (all-take-keep due fetch_limit (by_created t.rows))))

-- Behind AllowCircuit, which leaves the rows alone.
module _ (cipher : Cipher) (unmarshal : Bytes → Option Credentials) (w : Worker) (run : Run)
    (stored : Stored) (user : ℕ) where
  on_circuit-IsRun :
      (t : Tables) {text : Bytes} {creds : Credentials} (o : Outcome (Bool × ℕ))
      → IsAccepting run
      → is_empty (trim_space w.api_key) ≡ false
      → are_apart t.rows ≡ true
      → run.fetch_fails ≡ false
      → decrypt_service_credentials cipher run.credentials_fail w.keyring user clublog
          stored.credentials
        ≡ plaintext text
      → decode_credentials unmarshal text ≡ some creds
      → IsRun run stored user t.rows (on_circuit cipher unmarshal w run stored user t o)
  on_circuit-IsRun t (circuits, none) g k a f d c =
      IsRun-stopped run stored user (record t { circuits = circuits }) failed (λ e. cc)
  on_circuit-IsRun t (circuits, some (false, wait)) g k a f d c =
      IsRun-stopped run stored user (record t { circuits = circuits }) (snoozed wait) (λ e. cc)
  on_circuit-IsRun t {text} {creds} (circuits, some (true, wait)) g k a f d c =
      let t' : Tables = record t { circuits = circuits } in
      subst (λ l. IsRun run stored user t.rows (on_loaded unmarshal w run stored user t' l)) (sym d)
        (subst (λ o. IsRun run stored user t.rows (on_credentials w run stored user t' o)) (sym c)
          (on_credentials-IsRun w run stored user creds g k t' a f))

-- When Club Log accepts every text and no update of a row fails, and the user has credentials that
-- can be read, the worker an API key, and the rows numbers of their own: a run of the worker takes
-- rows off the front of the queue of the rows that are due, at most 500 of them, and leaves the
-- others in their order; a run that returns nil has taken the first 500, or all.
pub upload_work-IsRun :
    (cipher : Cipher) (unmarshal : Bytes → Option Credentials) (w : Worker) (run : Run)
    (stored : Stored) (user : ℕ) (t : Tables) {text : Bytes} {creds : Credentials}
    → IsAccepting run
    → is_empty (trim_space w.api_key) ≡ false
    → clash_free (keys t.rows) ≡ true
    → run.fetch_fails ≡ false
    → decrypt_service_credentials cipher run.credentials_fail w.keyring user clublog
        stored.credentials
      ≡ plaintext text
    → decode_credentials unmarshal text ≡ some creds
    → IsRun run stored user t.rows (upload_work cipher unmarshal w run stored user t)
unfolding upload_work
upload_work-IsRun cipher unmarshal w run stored user t g k a f d c =
    on_circuit-IsRun cipher unmarshal w run stored user t
      (allow_circuit w.policy run.allow_faults run.now run.db_now clublog t.circuits) g k
      (are_apart-clash_free t.rows a) f d c
