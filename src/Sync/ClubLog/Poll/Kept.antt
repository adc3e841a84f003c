-- ===== src/Sync/ClubLog/Poll/Kept.antt =====
-- ClubLogPollWorker of api/internal/services/sync/orchestrator.go: what a poll leaves as it is.
use radioledger.Base.{ℕ, ◌≡◌, Bool, true, false, ◌&&◌, Bytes, List, [], Option, none, some, if-ind}
use radioledger.Base.Text.{codes, is_empty, trim_space}
use radioledger.Crypto.Keyring.{Cipher}
use radioledger.Sync.Circuit.{Outcome, allow_circuit}
use radioledger.Sync.Rate.{Window, consume_rate_limit}
use radioledger.Sync.AwardProgress.{is_dxcc_row}
use radioledger.Sync.Credentials.{
  Credentials, Loaded, not_configured, load_error, plaintext, decode_credentials,
  decrypt_service_credentials,
}
use radioledger.Sync.ClubLog.{clublog, Stored, Worker, Returned}
use radioledger.Sync.ClubLog.Delete.{Call}
use radioledger.Sync.ClubLog.Poll.{
  EntityFaults, DxccAnswer, poll_error, entities, PollTables, with_circuits, with_windows,
  on_dxcc_status, on_poll_rate, on_poll_decoded, on_poll_loaded, on_poll_circuit, poll_work,
}
use radioledger.Sync.ClubLog.Poll.Laws.{has_confirmed, keeps-confirmed, record_entities-keeps}

module _ (unmarshal : Bytes → Option Credentials) (w : Worker) (call : Call)
    (faults : ℕ → EntityFaults) (stored : Stored) (user other : ℕ) (key : Bytes) where
  abbrev Stays : PollTables → PollTables × Returned → Type 0
  Stays t x = has_confirmed other key t.awards ≡ true → has_confirmed other key x.0.awards ≡ true

  on_dxcc_status-keeps :
      (t : PollTables) (a : DxccAnswer) → Stays t (on_dxcc_status w call faults stored user t a)
  unfolding has_confirmed
  on_dxcc_status-keeps t (poll_error message) h = h
  on_dxcc_status-keeps t (entities found) h =
      record_entities-keeps faults stored call.db_now user
        (λ r. is_dxcc_row other key r && r.confirmed) found _
        (keeps-confirmed call.db_now other key (codes "clublog"))
        (keeps-confirmed call.db_now other key []) h

  on_poll_rate-keeps :
      (a : DxccAnswer) (t : PollTables) (o : List Window × Option Bool)
      → Stays t (on_poll_rate w call faults a stored user t o)
  on_poll_rate-keeps a t (windows, none) h = h
  on_poll_rate-keeps a t (windows, some false) h = h
  on_poll_rate-keeps a t (windows, some true) h =
      if-ind (λ (x : PollTables × Returned). has_confirmed other key x.0.awards ≡ true)
        (is_empty (trim_space w.api_key)) _ _ h (on_dxcc_status-keeps (with_windows t windows) a h)

  on_poll_loaded-keeps :
      (answer : Credentials → DxccAnswer) (t : PollTables) (l : Loaded)
      → Stays t (on_poll_loaded unmarshal w call faults answer stored user t l)
  on_poll_loaded-keeps answer t load_error h = h
  on_poll_loaded-keeps answer t not_configured h = h
  on_poll_loaded-keeps answer t (plaintext text) h = decoded (decode_credentials unmarshal text)
    where
      decoded :
          (c : Option Credentials)
          → has_confirmed other key (on_poll_decoded w call faults answer stored user t c).0.awards
            ≡ true
      decoded none = h
      decoded (some creds) =
          on_poll_rate-keeps (answer creds) t
            (consume_rate_limit w.policy call.rate_faults call.bucket clublog t.tables.windows) h

  on_poll_circuit-keeps :
      (cipher : Cipher) (answer : Credentials → DxccAnswer) (t : PollTables)
      (o : Outcome (Bool × ℕ))
      → Stays t (on_poll_circuit cipher unmarshal w call faults answer stored user t o)
  on_poll_circuit-keeps cipher answer t (circuits, none) h = h
  on_poll_circuit-keeps cipher answer t (circuits, some (false, wait)) h = h
  on_poll_circuit-keeps cipher answer t (circuits, some (true, wait)) h =
      on_poll_loaded-keeps answer (with_circuits t circuits)
        (decrypt_service_credentials cipher call.credentials_fail w.keyring user clublog
          stored.credentials)
        h

  -- Whatever fails and whatever Club Log answers: an entity that is confirmed for a user stays
  -- confirmed over a poll for any user.
  pub poll_work-keeps :
      (cipher : Cipher) (answer : Credentials → DxccAnswer) (t : PollTables)
      → has_confirmed other key t.awards ≡ true
      → has_confirmed other key
          (poll_work cipher unmarshal w call faults answer stored user t).0.awards
        ≡ true
  unfolding poll_work
  poll_work-keeps cipher answer t h =
      on_poll_circuit-keeps cipher answer t
        (allow_circuit w.policy call.allow_faults call.now call.db_now clublog t.tables.circuits) h
