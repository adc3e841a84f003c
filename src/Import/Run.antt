-- ===== src/Import/Run.antt =====
-- api/internal/jobs/adif_import.go: countADIFRecords and importRecords, the two passes over a file.
-- What the loops write to the table of job errors and to the progress of the job is left out. A loop
-- is given fuel, as a parser that keeps failing keeps them going.
pub mod Counts
pub mod Steps
pub mod Laws
pub mod Stuck
use radioledger.Base.{
  ℕ, zero, suc, ◌+◌, Bool, true, false, Bytes, List, [], ◌∷◌, ◌++◌, Option, none, some, ◌⊎◌, inl,
  inr, leb, if◌then◌else◌, length,
}
use radioledger.Adif.Record.{Header, Record, adif_version}
use radioledger.Adif.Scan.{Error, eof, context_error}
use radioledger.Adif.Parser.{Parser, ok, failed, header, next}
use radioledger.Import.Row.{Floats, QsoRow, MapError, ImportWarning, map_adif_record}
use radioledger.Import.Batch.{Faults, Inserted, insert_qso_batch}

pub record ImportCounters : Type 0 where
  pub total : ℕ
  pub imported : ℕ
  pub duplicate : ℕ
  pub skipped : ℕ
  pub errors : ℕ
  pub warnings : ℕ

-- The counters, the batch, and the contacts of the logbook.
pub record ImportState : Type 0 where
  pub counters : ImportCounters
  pub batch : List QsoRow
  pub qsos : List QsoRow

abbrev pub batch_size : ℕ
batch_size = 500

abbrev pub no_counts : ImportCounters
no_counts = record { total = 0; imported = 0; duplicate = 0; skipped = 0; errors = 0; warnings = 0 }

abbrev pub add_counts : ImportCounters → Inserted → ImportCounters
add_counts c done = record c {
  imported = c.imported + done.inserted;
  duplicate = c.duplicate + done.dupes;
  errors = c.errors + done.err_count;
}

-- `flushBatch`: nothing is done with an empty batch.
unfoldable pub flush : Faults → ImportCounters → List QsoRow → List QsoRow → ImportState
flush faults counters [] qsos = record { counters = counters; batch = []; qsos = qsos }
flush faults counters (r ∷ rs) qsos =
    let done = insert_qso_batch faults qsos (r ∷ rs) in
    record { counters = add_counts counters done; batch = []; qsos = done.qsos }

unfoldable pub flush_batch : Faults → ImportState → ImportState
unfolding flush
flush_batch faults st = flush faults st.counters st.batch st.qsos

abbrev pub count_record : ImportCounters → ImportCounters
count_record c = record c { total = c.total + 1 }

-- A record that Next returned, by what mapADIFRecord makes of it.
abbrev pub on_mapped : Faults → ImportState → MapError ⊎ (QsoRow × List ImportWarning) → ImportState
on_mapped faults st (inl e) = record st {
  counters = record (count_record st.counters) {
    errors = st.counters.errors + 1;
    skipped = st.counters.skipped + 1;
  };
}
on_mapped faults st (inr (row, ws)) =
    let added = record st {
      counters = record (count_record st.counters) { warnings = st.counters.warnings + length ws };
      batch = st.batch ++ row ∷ [];
    } in
    if leb batch_size (length (st.batch ++ row ∷ [])) then flush_batch faults added else added

abbrev pub count_error : ImportState → ImportState
count_error st = record st { counters = record st.counters { errors = st.counters.errors + 1 } }

module _ (decode : Bytes → Option Bytes) where
  unfoldable pub count_loop : ℕ → Bool → Parser → ℕ → Option ℕ
  count_loop zero cancelled p count = none
  count_loop (suc fuel) cancelled p count = elim (next decode cancelled p) [
    | none ↦ none
    | some (q, ok r) ↦ count_loop fuel cancelled q (count + 1)
    | some (q, failed eof) ↦ some count
    | some (q, failed e) ↦ count_loop fuel cancelled q count
  ]

  abbrev pub version_of : Option Header → Bytes
  version_of none = []
  version_of (some h) = adif_version h

  abbrev pub with_version : Bytes → Option ℕ → Option (Error ⊎ (ℕ × Bytes))
  with_version version none = none
  with_version version (some count) = some (inr (count, version))

  -- From a fresh parser.
  unfoldable pub count_adif_records : ℕ → Bool → Parser → Option (Error ⊎ (ℕ × Bytes))
  unfolding count_loop
  count_adif_records fuel cancelled start = elim (header decode cancelled start) [
    | none ↦ none
    | some (p, failed e) ↦ some (inl e)
    | some (p, ok h) ↦ with_version (version_of h) (count_loop fuel cancelled p 0)
  ]

  module _ (floats : Floats) (faults : Faults) where
    unfoldable pub import_one : Record → ImportState → ImportState
    import_one r st = on_mapped faults st (map_adif_record floats r)

    unfoldable pub import_loop :
        ℕ → Bool → Parser → ImportState → Option (ImportState × Option Error)
    unfolding import_one flush_batch
    import_loop zero cancelled p st = none
    import_loop (suc fuel) true p st = some (st, some context_error)
    import_loop (suc fuel) false p st = elim (next decode false p) [
      | none ↦ none
      | some (q, ok r) ↦ import_loop fuel false q (import_one r st)
      | some (q, failed eof) ↦ some (flush_batch faults st, none)
      | some (q, failed e) ↦ import_loop fuel false q (count_error st)
    ]

    -- From a fresh parser, on the contacts that are there.
    unfoldable pub import_records :
        ℕ → Bool → Parser → List QsoRow → Option (ImportState × Option Error)
    unfolding import_loop
    import_records fuel cancelled start qsos =
        let empty : ImportState = record { counters = no_counts; batch = []; qsos = qsos } in
        elim (header decode cancelled start) [
          | none ↦ none
          | some (p, failed e) ↦ some (empty, some e)
          | some (p, ok h) ↦ import_loop fuel cancelled p empty
        ]
