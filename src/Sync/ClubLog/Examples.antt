-- ===== src/Sync/ClubLog/Examples.antt =====
-- Runs of the Club Log workers of api/internal/services/sync/orchestrator.go, and the theorems at
-- such inputs.
use radioledger.Sync.Status.{fetch_pending_qsos}
use radioledger.Sync.Circuit.{allow_circuit}
use radioledger.Base.{
  keep, lookup, ℕ, ◌≡◌, refl, true, false, List, [], ◌∷◌, ◌++◌, none, some, all, any, equal, drop,
  arith, map,
}
use radioledger.Base.Text.{codes, trim_space}
use radioledger.Base.Decimal.{decimal}
use radioledger.Crypto.Keyring.{Cipher, Keyring, decrypt}
use radioledger.Sync.Rate.{consume_rate_limit}
use radioledger.Sync.Status.{uploaded}
use radioledger.Sync.Config.{default_policy}
use radioledger.Sync.Status.Rows.{keys}
use radioledger.Sync.Status.Keys.{clash_free}
use radioledger.Sync.Status.Others.{others}
use radioledger.Sync.Status.Examples.{contacts, row}
use radioledger.Sync.Credentials.{
  ServiceCredential, Credentials, decrypt_service_credentials, decode_credentials,
}
use radioledger.Sync.AwardProgress.{confirmed_award}
use radioledger.Sync.ClubLog.{clublog, Tables, Stored, Worker, finished, SyncRow}
use radioledger.Sync.ClubLog.Upload.{Run, upload_work, upload_batch}
use radioledger.Sync.ClubLog.Uploads.{IsAccepting}
use radioledger.Sync.ClubLog.Finish.{upload_work-finishes}
use radioledger.Sync.ClubLog.Upload.{fetch_limit}
use radioledger.Sync.ClubLog.Uploads.{due_rows}
use radioledger.Sync.Rate.{count_at}
use radioledger.Sync.ClubLog.Fuel.{upload_batches-enough}
use radioledger.Sync.ClubLog.Upload.{upload_batches}
use radioledger.Sync.Status.{PendingQso, join_contacts}
use radioledger.Sync.ClubLog.Work.{IsRun, upload_work-IsRun}
use radioledger.Sync.ClubLog.Others.{is_of_user}
use radioledger.Sync.ClubLog.Isolation.{upload_work-Alike}
use radioledger.Sync.ClubLog.Delete.{Call}
use radioledger.Sync.ClubLog.Poll.{EntityStatus, entities, PollTables, record_entities, poll_work}
use radioledger.Sync.ClubLog.Poll.Laws.{
  has_confirmed, is_recorded, no_entity_fault, record_entities-is_recorded,
}
use radioledger.Sync.ClubLog.Poll.Kept.{poll_work-keeps}

-- A cipher that adds 16 bytes.
abbrev plain_cipher : Cipher
plain_cipher = record {
  derive = λ master info. master;
  seal = λ key nonce text. codes "0123456789abcdef" ++ text;
  unseal = λ key nonce sealed. some (drop 16 sealed);
  unseal_seal = λ key nonce text. refl;
  length_seal = λ key nonce text. omega arith;
}

abbrev ring : Keyring
ring = record { keys = (1, codes "key") ∷ []; current_version = 1 }

abbrev credential : ServiceCredential
credential = record {
  user_id = 7;
  service = clublog;
  is_active = true;
  ciphertext = codes "abcdefghijkl0123456789abcdefsecret";
  key_version = 1;
}

abbrev stored : Stored
stored = record { contacts = contacts; credentials = credential ∷ [] }

abbrev w1aw : Credentials
w1aw = record { email = codes "a@b.c"; password = codes "secret"; callsign = codes "W1AW" }

abbrev worker : Worker
worker = record { policy = default_policy; keyring = some ring; api_key = codes "k" }

abbrev good_run : Run
good_run = record {
  now = 100;
  db_now = 100;
  allow_faults = λ s. false;
  credentials_fail = false;
  fetch_fails = false;
  fail_all_fails = false;
  rounds = λ n. record {
    bucket = n;
    rate_faults = λ q. false;
    answer = λ creds text. none;
    record_faults = λ s. false;
    recorded_at = 100;
    mark_fails = λ id. false;
    marked_at = 100;
    next_retry = λ retries. none;
  };
}

abbrev tables : Tables
tables = record { circuits = []; windows = []; rows = row 1 ∷ row 2 ∷ [] }

good_run-IsAccepting : IsAccepting good_run
good_run-IsAccepting = record { accepts = λ n creds text. refl; marks = λ n id. refl }

upload_work-IsRun_example :
    IsRun good_run stored 7 tables.rows
      (upload_work plain_cipher (λ text. some w1aw) worker good_run stored 7 tables)
unfolding clash_free any decrypt_service_credentials decode_credentials decrypt equal trim_space
upload_work-IsRun_example =
    upload_work-IsRun plain_cipher (λ text. some w1aw) worker good_run stored 7 tables
      good_run-IsAccepting refl refl refl refl refl

-- Club Log's limit is 5 calls a second.
abbrev quick : Worker
quick = record worker { policy = record default_policy { rate_limit_rps = 5 } }

upload_work-finishes_example :
    let after = upload_work plain_cipher (λ text. some w1aw) quick good_run stored 7 tables in
    (after.1 ≡ finished)
    × (due_rows contacts 100 7 after.0.rows
        ≡ drop fetch_limit (due_rows contacts 100 7 tables.rows))
unfolding clash_free any decrypt_service_credentials decode_credentials decrypt equal trim_space
    allow_circuit lookup count_at
upload_work-finishes_example =
    upload_work-finishes plain_cipher (λ text. some w1aw) quick good_run stored 7 0 tables
      good_run-IsAccepting (λ n q. refl) refl refl refl refl refl refl (λ b. omega arith)
      (omega arith)

upload_work-Alike_example :
    let after =
      (upload_work plain_cipher (λ text. some w1aw) worker good_run stored 8 tables).0.rows in
    (others (is_of_user contacts 8) after ≡ others (is_of_user contacts 8) tables.rows)
    × (keys after ≡ keys tables.rows)
unfolding clash_free any equal
upload_work-Alike_example =
    upload_work-Alike plain_cipher (λ text. some w1aw) worker good_run stored 8 tables refl

-- The contacts that the run sends.
abbrev queued : List PendingQso
queued = join_contacts contacts (row 1 ∷ row 2 ∷ [])

upload_batches-enough_example :
    upload_batches worker good_run stored 7 w1aw 500 0 queued tables
    ≡ upload_batches worker good_run stored 7 w1aw 2 0 queued tables
unfolding join_contacts
upload_batches-enough_example =
    upload_batches-enough worker good_run stored 7 w1aw 2 500 0 queued tables (omega arith)
      (omega arith)

abbrev found : List (ℕ × EntityStatus)
found =
    (291, record { worked = true; confirmed = true })
    ∷ (230, record { worked = true; confirmed = false })
    ∷ []

abbrev poll_tables : PollTables
poll_tables = record { tables = tables; awards = confirmed_award 9 7 (decimal 230) clublog ∷ [] }

record_entities-is_recorded_example :
    all
      (is_recorded 7 (record_entities no_entity_fault stored 100 7 found poll_tables).awards)
      found
    ≡ true
record_entities-is_recorded_example = record_entities-is_recorded stored 100 7 found poll_tables

abbrev call : Call
call = record {
  now = 100;
  db_now = 100;
  allow_faults = λ s. false;
  credentials_fail = false;
  bucket = 3;
  rate_faults = λ q. false;
  record_faults = λ s. false;
  recorded_at = 100;
}

poll_work-keeps_example :
    has_confirmed 7
      (decimal 230)
      (poll_work plain_cipher
        (λ text. some w1aw)
        worker
        call
        no_entity_fault
        (λ c. entities found)
        stored
        7
        poll_tables).0.awards
    ≡ true
unfolding has_confirmed equal decimal
poll_work-keeps_example =
    poll_work-keeps (λ text. some w1aw) worker call no_entity_fault stored 7 7 (decimal 230)
      plain_cipher (λ c. entities found) poll_tables refl

-- Both contacts are sent in one batch.
good_run_sends :
    let (after, returned) =
      upload_work plain_cipher (λ text. some w1aw) worker good_run stored 7 tables in
    (returned ≡ finished) × (map (λ (r : SyncRow). r.status) after.rows ≡ uploaded ∷ uploaded ∷ [])
unfolding upload_work allow_circuit lookup decrypt_service_credentials decrypt decode_credentials
    fetch_pending_qsos keep trim_space upload_batch consume_rate_limit
good_run_sends = (refl, refl)
