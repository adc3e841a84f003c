-- ===== src/Sync/ClubLog/Isolation.antt =====
-- ClubLogUploadWorker of api/internal/services/sync/orchestrator.go: a run leaves the rows of other
-- services and of other users alone.
use radioledger.Base.{
  ℕ, ◌≡◌, refl, Bool, true, false, Bytes, List, [], ◌∷◌, Option, none, some, all, all-take, keep,
  keep-true, keep-false, take, if-ind, Bool-cases, Option-cases, inl, inr, arith, length,
}
use radioledger.Base.Text.{is_empty, trim_space}
use radioledger.Crypto.Keyring.{Cipher}
use radioledger.Sync.Circuit.{Outcome, allow_circuit}
use radioledger.Sync.Status.{
  SyncRow, PendingQso, contact_of, is_due, join_contacts, by_created, insert_row,
  fetch_pending_qsos,
}
use radioledger.Sync.Status.Rows.{Key, key, keys}
use radioledger.Sync.Status.Keys.{clash_free}
use radioledger.Sync.Status.Queue.{are_apart, are_apart-clash_free}
use radioledger.Sync.Status.Others.{others, is_owned, owns_id, all-owns_id}
use radioledger.Sync.Credentials.{
  Credentials, Loaded, not_configured, load_error, plaintext, decode_credentials,
  decrypt_service_credentials,
}
use radioledger.Sync.ClubLog.{clublog, Tables, Stored, Worker, Returned}
use radioledger.Sync.ClubLog.Upload.{
  Run, fetch_limit, on_fetched, on_credentials, on_loaded, on_circuit, upload_work, no_api_key,
  bad_credentials, undecryptable, no_credentials,
}
use radioledger.Sync.ClubLog.Others.{is_of_user, Alike, owned, fail_all-Alike, upload_batches-Alike}

all-insert_row :
    (p : SyncRow → Bool) (r : SyncRow) (rows : List SyncRow)
    → p r ≡ true
    → all p rows ≡ true
    → all p (insert_row r rows) ≡ true
unfolding all insert_row
all-insert_row p r [] h a = ground arith
all-insert_row p r (s ∷ rows) h a = ground (arith, all-insert_row p r rows)

all-by_created :
    (p : SyncRow → Bool) (rows : List SyncRow) → all p rows ≡ true → all p (by_created rows) ≡ true
unfolding all by_created
all-by_created p [] a = refl
all-by_created p (r ∷ rows) a =
    all-insert_row p r (by_created rows) (ground arith) (all-by_created p rows (ground arith))

module _ (stored : Stored) (user : ℕ) where
  is_due-own :
      (now : ℕ) (r : SyncRow)
      → is_due stored.contacts now clublog user r ≡ true
      → is_of_user stored.contacts user (key r) ≡ true
  unfolding is_due is_of_user
  is_due-own now r h = elim (Option-cases (contact_of r.qso_id stored.contacts)) [
    | inl missing ↦ absurd (ground (arith, missing))
    | inr (c, found) ↦ rw found (ground (arith, found))
  ]

  -- The number of a row that is due belongs to the user alone.
  due-owned :
      (now : ℕ) (ks : List Key) (rows : List SyncRow)
      → all (owns_id (is_of_user stored.contacts user) ks) rows ≡ true
      → all
          (λ r. is_owned (is_of_user stored.contacts user) r.id ks)
          (keep (is_due stored.contacts now clublog user) rows)
        ≡ true
  unfolding all
  due-owned now ks [] h = unfold keep in refl
  due-owned now ks (r ∷ rows) h =
      let due : SyncRow → Bool = is_due stored.contacts now clublog user in
      let rest = due-owned now ks rows (ground arith) in
      elim (Bool-cases (due r)) [
        | inl is_due_now ↦
            let mine = is_due-own now r is_due_now in
            rw (keep-true due r rows is_due_now) (ground (arith, rest, mine))
        | inr later ↦ rw (keep-false due r rows later) rest
      ]

  joined-owned :
      (ks : List Key) (rows : List SyncRow)
      → all (λ r. is_owned (is_of_user stored.contacts user) r.id ks) rows ≡ true
      → all (owned stored user ks) (join_contacts stored.contacts rows) ≡ true
  unfolding all join_contacts
  joined-owned ks [] h = refl
  joined-owned ks (r ∷ rows) h =
      let rest = joined-owned ks rows (ground arith) in
      elim (Option-cases (contact_of r.qso_id stored.contacts)) [
        | inl missing ↦ rw missing rest
        | inr (c, found) ↦ rw found (ground (arith, rest))
      ]

  fetched-owned :
      (now : ℕ) (rows : List SyncRow)
      → are_apart rows ≡ true
      → all (owned stored user (keys rows)) (
          join_contacts stored.contacts
            (take fetch_limit (keep (is_due stored.contacts now clublog user) (by_created rows))))
        ≡ true
  fetched-owned now rows a =
      let p : SyncRow → Bool = owns_id (is_of_user stored.contacts user) (keys rows) in
      joined-owned (keys rows) _ (
        all-take _ fetch_limit _ (
          due-owned now (keys rows) (by_created rows)
            (all-by_created p rows (all-owns_id (is_of_user stored.contacts user) rows a))))

  module _ (w : Worker) (run : Run) where
    on_fetched-Alike :
        (creds : Credentials) (pending : List PendingQso) (t : Tables)
        → all (owned stored user (keys t.rows)) pending ≡ true
        → Alike stored user t.rows (on_fetched w run stored user creds t (some pending)).0.rows
    on_fetched-Alike creds [] t h = (refl, refl)
    on_fetched-Alike creds (p ∷ pending) t h =
        if-ind (λ (x : Tables × Returned). Alike stored user t.rows x.0.rows)
          (is_empty (trim_space w.api_key)) _ _ (fail_all-Alike stored user run no_api_key t)
          (upload_batches-Alike stored user w run creds (length (p ∷ pending)) 0 (p ∷ pending) t h)

    on_credentials-Alike :
        (t : Tables) (o : Option Credentials)
        → are_apart t.rows ≡ true
        → Alike stored user t.rows (on_credentials w run stored user t o).0.rows
    unfolding fetch_pending_qsos
    on_credentials-Alike t none a = fail_all-Alike stored user run bad_credentials t
    on_credentials-Alike t (some creds) a =
        if-ind
          (λ (o : Option (List PendingQso)).
            Alike stored user t.rows (on_fetched w run stored user creds t o).0.rows)
          run.fetch_fails none _ (refl, refl)
          (on_fetched-Alike creds _ t (fetched-owned run.db_now t.rows a))

    on_loaded-Alike :
        (unmarshal : Bytes → Option Credentials) (t : Tables) (l : Loaded)
        → are_apart t.rows ≡ true
        → Alike stored user t.rows (on_loaded unmarshal w run stored user t l).0.rows
    on_loaded-Alike unmarshal t load_error a = fail_all-Alike stored user run undecryptable t
    on_loaded-Alike unmarshal t not_configured a = fail_all-Alike stored user run no_credentials t
    on_loaded-Alike unmarshal t (plaintext text) a =
        on_credentials-Alike t (decode_credentials unmarshal text) a

    on_circuit-Alike :
        (cipher : Cipher) (unmarshal : Bytes → Option Credentials) (t : Tables)
        (o : Outcome (Bool × ℕ))
        → are_apart t.rows ≡ true
        → Alike stored user t.rows (on_circuit cipher unmarshal w run stored user t o).0.rows
    on_circuit-Alike cipher unmarshal t (circuits, none) a = (refl, refl)
    on_circuit-Alike cipher unmarshal t (circuits, some (false, wait)) a = (refl, refl)
    on_circuit-Alike cipher unmarshal t (circuits, some (true, wait)) a =
        on_loaded-Alike unmarshal (record t { circuits = circuits })
          (decrypt_service_credentials cipher run.credentials_fail w.keyring user clublog
            stored.credentials)
          a

-- Whatever fails and whatever Club Log answers: a run for a user leaves the rows of other services
-- and of the contacts of other users as they were, and gives no row another number, contact or
-- service, as long as the rows have numbers of their own.
pub upload_work-Alike :
    (cipher : Cipher) (unmarshal : Bytes → Option Credentials) (w : Worker) (run : Run)
    (stored : Stored) (user : ℕ) (t : Tables)
    → clash_free (keys t.rows) ≡ true
    → let after = (upload_work cipher unmarshal w run stored user t).0.rows in
      (others (is_of_user stored.contacts user) after
        ≡ others (is_of_user stored.contacts user) t.rows)
      × (keys after ≡ keys t.rows)
unfolding upload_work
upload_work-Alike cipher unmarshal w run stored user t a =
    on_circuit-Alike stored user w run cipher unmarshal t
      (allow_circuit w.policy run.allow_faults run.now run.db_now clublog t.circuits)
      (are_apart-clash_free t.rows a)
