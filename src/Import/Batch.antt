-- ===== src/Import/Batch.antt =====
-- api/internal/jobs/adif_import.go: deduplicateBatch and insertQSOBatch. The table qsos is the list
-- of the contacts of the logbook that are not deleted, the last one in front. The statements fail
-- where `faults` says so, by the table that they meet.
pub mod Fresh
pub mod Laws
use radioledger.Base.{
  ℕ, suc, ◌+◌, Bool, true, false, not, ◌&&◌, ◌||◌, Bytes, List, [], ◌∷◌, equal, leb, ltb, ◌==◌,
  if◌then◌else◌, length, keep, any, map,
}
use radioledger.Base.Text.{to_upper}
use radioledger.Import.Row.{QsoRow}

-- A `dedupKey`.
pub record DedupKey : Type 0 where
  pub callsign : Bytes
  pub band : Bytes
  pub mode : Bytes
  pub time_key : ℕ

unfoldable pub key_of : QsoRow → DedupKey
key_of r = record {
  callsign = to_upper r.callsign;
  band = r.band;
  mode = r.mode;
  time_key = r.datetime_on;
}

unfoldable pub same_key : DedupKey → DedupKey → Bool
same_key k l =
    equal k.callsign l.callsign
    && (equal k.band l.band && (equal k.mode l.mode && k.time_key == l.time_key))

-- `existing[k]`, of a set of keys.
unfoldable pub has_key : DedupKey → List DedupKey → Bool
has_key k [] = false
has_key k (l ∷ keys) = same_key l k || has_key k keys

pub record Faults : Type 0 where
  pub query_fails : List QsoRow → Bool
  pub copy_fails : List QsoRow → List QsoRow → Bool
  pub insert_fails : List QsoRow → QsoRow → Bool

-- The loops that find the first and the last instant of a batch.
unfoldable pub min_time : ℕ → List QsoRow → ℕ
min_time t [] = t
min_time t (r ∷ rs) = min_time (if ltb r.datetime_on t then r.datetime_on else t) rs

unfoldable pub max_time : ℕ → List QsoRow → ℕ
max_time t [] = t
max_time t (r ∷ rs) = max_time (if ltb t r.datetime_on then r.datetime_on else t) rs

-- The keys of the contacts between two instants.
unfoldable pub existing_keys : ℕ → ℕ → List QsoRow → List DedupKey
existing_keys low high [] = []
existing_keys low high (r ∷ qsos) =
    let rest = existing_keys low high qsos in
    if leb low r.datetime_on && leb r.datetime_on high then key_of r ∷ rest else rest

abbrev pub count_dupe : List QsoRow × ℕ → List QsoRow × ℕ
count_dupe (kept, dupes) = (kept, suc dupes)

abbrev pub keep_row : QsoRow → List QsoRow × ℕ → List QsoRow × ℕ
keep_row r (kept, dupes) = (r ∷ kept, dupes)

-- The rows whose key is new, and the number of the others.
unfoldable pub dedup_loop : List QsoRow → List DedupKey → List QsoRow × ℕ
dedup_loop [] existing = ([], 0)
dedup_loop (r ∷ rs) existing = elim (has_key (key_of r) existing) [
  | true ↦ count_dupe (dedup_loop rs existing)
  | false ↦ keep_row r (dedup_loop rs (key_of r ∷ existing))
]

-- When the query fails, all rows are taken for new. A row of the query that cannot be scanned, and
-- an error between its rows, are left out.
unfoldable pub deduplicate_batch : Faults → List QsoRow → List QsoRow → List QsoRow × ℕ
deduplicate_batch faults qsos [] = ([], 0)
deduplicate_batch faults qsos (r ∷ rs) =
    if faults.query_fails qsos
    then (r ∷ rs, 0)
    else dedup_loop (r ∷ rs)
        (existing_keys (min_time r.datetime_on (r ∷ rs)) (max_time r.datetime_on (r ∷ rs)) qsos)

-- What a batch did: the table, and the numbers of rows inserted, of duplicates and of errors.
pub record Inserted : Type 0 where
  pub qsos : List QsoRow
  pub inserted : ℕ
  pub dupes : ℕ
  pub err_count : ℕ

-- CopyFrom: all of the rows.
unfoldable pub copy_from : List QsoRow → List QsoRow → List QsoRow
copy_from [] qsos = qsos
copy_from (r ∷ rs) qsos = copy_from rs (r ∷ qsos)

-- insertSingleQSO on a row, and what its outcome counts.
unfoldable pub insert_one : Faults → QsoRow → Inserted → Inserted
insert_one faults r done =
    if faults.insert_fails done.qsos r
    then record done { err_count = done.err_count + 1 }
    else record done { qsos = r ∷ done.qsos; inserted = done.inserted + 1 }

-- The loop behind a CopyFrom that failed.
unfoldable pub insert_each : Faults → List QsoRow → Inserted → Inserted
insert_each faults [] done = done
insert_each faults (r ∷ rs) done = insert_each faults rs (insert_one faults r done)

abbrev pub insert_kept : Faults → List QsoRow → List QsoRow × ℕ → Inserted
insert_kept faults qsos ([], dupes) = record {
  qsos = qsos;
  inserted = 0;
  dupes = dupes;
  err_count = 0;
}
insert_kept faults qsos (r ∷ rs, dupes) =
    if faults.copy_fails qsos (r ∷ rs)
    then insert_each faults (r ∷ rs)
        (record { qsos = qsos; inserted = 0; dupes = dupes; err_count = 0 })
    else record {
      qsos = copy_from (r ∷ rs) qsos;
      inserted = length (r ∷ rs);
      dupes = dupes;
      err_count = 0;
    }

unfoldable pub insert_qso_batch : Faults → List QsoRow → List QsoRow → Inserted
insert_qso_batch faults qsos batch = insert_kept faults qsos (deduplicate_batch faults qsos batch)
