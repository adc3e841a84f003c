-- ===== src/Import/Run/Counts.antt =====
-- api/internal/jobs/adif_import.go: the counters of importRecords, and the contacts of the logbook.
use radioledger.Base.{
  refl, ℕ, suc, ◌+◌, ◌≤◌, ◌<◌, ◌≡◌, false, List, [], ◌∷◌, ◌++◌, ◌⊎◌, inl, inr, leb, length, arith,
  if-ind, length-append, Bool-cases,
}
use radioledger.Import.Row.{QsoRow, MapError, ImportWarning}
use radioledger.Import.Batch.{Faults}
use radioledger.Import.Batch.Fresh.{AreDistinct}
use radioledger.Import.Batch.Laws.{insert_qso_batch-IsCounted, insert_qso_batch-AreDistinct}
use radioledger.Import.Run.{
  ImportCounters, ImportState, batch_size, flush, flush_batch, count_record, on_mapped,
}

-- The counters balance behind `n` records, on a logbook that held `before` contacts: each record is
-- imported, a duplicate, an error, or in the batch, which is below its limit; the records skipped are
-- among the errors; and the logbook has grown by the records imported.
abbrev pub AreBalanced : ℕ → ℕ → ImportCounters → List QsoRow → List QsoRow → Type 0
AreBalanced before n c batch qsos =
    (c.total ≡ n)
    × (c.imported + (c.duplicate + (c.errors + length batch)) ≡ n)
    × (c.skipped ≤ c.errors)
    × (length qsos ≡ before + c.imported)

abbrev pub IsBalanced : ℕ → ℕ → ImportState → Type 0
IsBalanced before n st =
    AreBalanced before n st.counters st.batch st.qsos × (length st.batch < batch_size)

pub flush-IsBalanced :
    (faults : Faults) (before n : ℕ) (c : ImportCounters) (batch qsos : List QsoRow)
    → AreBalanced before n c batch qsos
    → IsBalanced before n (flush faults c batch qsos)
unfolding flush
flush-IsBalanced faults before n c [] qsos b = (b, omega arith)
flush-IsBalanced faults before n c (r ∷ rs) qsos (t, a, s, l) =
    let done = insert_qso_batch-IsCounted faults qsos (r ∷ rs) in
    ((t, omega (arith, a, done.0), omega (arith, s), omega (arith, l, done.1)), omega arith)

pub on_mapped-IsBalanced :
    (faults : Faults) (before n : ℕ) (st : ImportState)
    (m : MapError ⊎ (QsoRow × List ImportWarning))
    → IsBalanced before n st
    → IsBalanced before (suc n) (on_mapped faults st m)
on_mapped-IsBalanced faults before n st (inl e) ((t, a, s, l), b) =
    ((omega (arith, t), omega (arith, a), omega (arith, s), l), b)
on_mapped-IsBalanced faults before n st (inr (row, ws)) ((t, a, s, l), b) =
    let counts : AreBalanced before (suc n)
        (record (count_record st.counters) { warnings = st.counters.warnings + length ws })
        (st.batch ++ row ∷ []) st.qsos =
      (omega (arith, t), omega (arith, a, length-append st.batch (row ∷ [])), s, l) in
    elim (Bool-cases (leb batch_size (length (st.batch ++ row ∷ [])))) [
      | inl full ↦
          rw full (unfold flush_batch in flush-IsBalanced faults before (suc n) _ _ st.qsos counts)
      | inr room ↦ rw room (counts, ground (arith, room))
    ]

pub flush-AreDistinct :
    (faults : Faults) (c : ImportCounters) (batch qsos : List QsoRow)
    → ((table : List QsoRow) → faults.query_fails table ≡ false)
    → AreDistinct qsos
    → AreDistinct (flush faults c batch qsos).qsos
unfolding flush
flush-AreDistinct faults c [] qsos ok d = d
flush-AreDistinct faults c (r ∷ rs) qsos ok d =
    insert_qso_batch-AreDistinct faults qsos (r ∷ rs) (ok qsos) d

pub on_mapped-AreDistinct :
    (faults : Faults) (st : ImportState) (m : MapError ⊎ (QsoRow × List ImportWarning))
    → ((table : List QsoRow) → faults.query_fails table ≡ false)
    → AreDistinct st.qsos
    → AreDistinct (on_mapped faults st m).qsos
on_mapped-AreDistinct faults st (inl e) ok d = d
on_mapped-AreDistinct faults st (inr (row, ws)) ok d =
    if-ind (λ (x : ImportState). AreDistinct x.qsos)
      (leb batch_size (length (st.batch ++ row ∷ []))) _ _
      (unfold flush_batch in flush-AreDistinct faults _ (st.batch ++ row ∷ []) st.qsos ok d) d

pub flush-empty :
    (faults : Faults) (c : ImportCounters) (batch qsos : List QsoRow)
    → (flush faults c batch qsos).batch ≡ []
unfolding flush
flush-empty faults c [] qsos = refl
flush-empty faults c (r ∷ rs) qsos = refl
