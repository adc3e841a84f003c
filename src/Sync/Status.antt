-- ===== src/Sync/Status.antt =====
-- api/internal/services/sync/orchestrator.go: the table sync_status, with a row for a contact and a
-- service, and the statements on it. A contact is a row of qsos with the user of its logbook. Times
-- are numbers on the database's clock. Each statement is a transaction of its own; `fails` says
-- whether it fails, and one that does leaves the table as it was and reports an error, `none`.
pub mod Marks
pub mod Rows
pub mod Keys
pub mod Dashboard
pub mod Steps
pub mod Queue
pub mod Permanent
pub mod Examples
pub mod Others
pub mod Insert
use radioledger.Base.{
  ℕ, zero, suc, ◌+◌, ◌==◌, Bool, true, false, not, ◌&&◌, ◌||◌, Bytes, List, [], ◌∷◌, Option, none,
  some, equal, leb, ltb, keep, length, take, if◌then◌else◌,
}
use radioledger.Base.Text.{codes}

-- The values that the column `status` may have.
pub data SyncState : Type 0 where
  pending : SyncState
  dirty : SyncState
  uploaded : SyncState
  confirmed : SyncState
  error : SyncState
  rejected : SyncState
  not_applicable : SyncState
  skipped : SyncState

pub record SyncRow : Type 0 where
  pub id : ℕ
  pub qso_id : ℕ
  pub service : Bytes
  pub status : SyncState
  pub last_synced_at : Option ℕ
  pub remote_id : Option Bytes
  pub error_message : Option Bytes
  pub retry_count : ℕ
  pub next_retry_at : Option ℕ
  pub last_error_code : Option Bytes
  pub created_at : ℕ
  pub updated_at : ℕ

-- An instant in UTC.
pub record Instant : Type 0 where
  pub year : ℕ
  pub month : ℕ
  pub day : ℕ
  pub hour : ℕ
  pub minute : ℕ
  pub second : ℕ

-- The columns of qsos that the package reads, and `user_id` of the logbook.
pub record Contact : Type 0 where
  pub id : ℕ
  pub user_id : ℕ
  pub is_deleted : Bool
  pub callsign : Bytes
  pub band : Bytes
  pub mode : Bytes
  pub datetime_on : Instant
  pub rst_sent : Option Bytes
  pub rst_rcvd : Option Bytes
  pub gridsquare : Option Bytes
  pub my_gridsquare : Option Bytes
  pub station_callsign : Option Bytes
  pub frequency_hz : Option ℕ
  pub dxcc : Option ℕ
  pub my_sota_ref : Option Bytes
  pub my_pota_refs : List Bytes
  pub eqsl_qsl_rcvd : Option Bytes
  pub lotw_qsl_rcvd : Option Bytes
  pub qrz_qsl_rcvd : Option Bytes
  pub lotw_sent_at : Option ℕ

-- `pendingQSORow`: the columns of both rows.
pub record PendingQso : Type 0 where
  pub row : SyncRow
  pub contact : Contact

-- The table that a statement leaves, and its result, or `none` for an error.
abbrev pub Result : Type 0 → Type 0
Result A = List SyncRow × Option A

-- JOIN qsos q ON q.id = ss.qso_id.
unfoldable pub contact_of : ℕ → List Contact → Option Contact
contact_of id [] = none
contact_of id (c ∷ contacts) =
    let rest = contact_of id contacts in if c.id == id then some c else rest

abbrev pub joined : (Contact → Bool) → Option Contact → Bool
joined test none = false
joined test (some c) = test c

-- UPDATE ... WHERE.
unfoldable pub update_where : (SyncRow → Bool) → (SyncRow → SyncRow) → List SyncRow → List SyncRow
update_where test change [] = []
update_where test change (r ∷ rows) =
    (if test r then change r else r) ∷ update_where test change rows

abbrev pub is_waiting : SyncState → Bool
is_waiting pending = true
is_waiting dirty = true
is_waiting _ = false

abbrev pub is_open : SyncState → Bool
is_open error = true
is_open s = is_waiting s

abbrev pub is_confirmed : SyncState → Bool
is_confirmed confirmed = true
is_confirmed _ = false

abbrev is_ready : ℕ → Option ℕ → Bool
is_ready now none = true
is_ready now (some at) = leb at now

-- The WHERE of fetchPendingSQL.
unfoldable pub is_due : List Contact → ℕ → Bytes → ℕ → SyncRow → Bool
unfolding contact_of
is_due contacts now service user r =
    equal r.service service
    && (is_open r.status
        && (is_ready now r.next_retry_at
            && joined (λ c. c.user_id == user && not c.is_deleted) (contact_of r.qso_id contacts)))

-- ORDER BY ss.created_at ASC. The order of rows of one instant is open; here they stay as they were.
unfoldable pub insert_row : SyncRow → List SyncRow → List SyncRow
insert_row r [] = r ∷ []
insert_row r (s ∷ rows) =
    let rest = insert_row r rows in if leb r.created_at s.created_at then r ∷ s ∷ rows else s ∷ rest

unfoldable pub by_created : List SyncRow → List SyncRow
unfolding insert_row
by_created [] = []
by_created (r ∷ rows) = insert_row r (by_created rows)

abbrev pub with_contact : SyncRow → Option Contact → List PendingQso → List PendingQso
with_contact r none rest = rest
with_contact r (some c) rest = record { row = r; contact = c } ∷ rest

unfoldable pub join_contacts : List Contact → List SyncRow → List PendingQso
unfolding contact_of
join_contacts contacts [] = []
join_contacts contacts (r ∷ rows) =
    with_contact r (contact_of r.qso_id contacts) (join_contacts contacts rows)

-- Without a fault: the columns always fit their variables.
unfoldable pub fetch_pending_qsos :
    Bool → List Contact → ℕ → Bytes → ℕ → ℕ → List SyncRow → Option (List PendingQso)
unfolding is_due by_created join_contacts
fetch_pending_qsos fails contacts now service user limit rows =
    if fails
    then none
    else some (
        join_contacts contacts
          (take limit (keep (is_due contacts now service user) (by_created rows))))
