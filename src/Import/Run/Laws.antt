-- ===== src/Import/Run/Laws.antt =====
-- api/internal/jobs/adif_import.go: both passes over a file that ParseAll of pkg/adif reads.
use radioledger.Base.{
  ℕ, zero, suc, ◌+◌, ◌≡◌, refl, ap, sym, ◌∙◌, false, Bytes, List, [], ◌∷◌, ◌++◌, Option, none, some,
  inr, length, arith, append_assoc, append-nil,
}
use mathlib.Core.Path.{subst}
use native.Mathlib.Nat.{add-zero, zero-add}
use radioledger.Adif.Record.{Header, Record}
use radioledger.Adif.Scan.{Error, eof, too_many_records, context_error, parse_error}
use radioledger.Adif.Parser.{Parser, Parsed, ok, failed, header, next, collect, parse_from}
use radioledger.Import.Row.{Floats, QsoRow, map_adif_record}
use radioledger.Import.Batch.{Faults}
use radioledger.Import.Batch.Fresh.{AreDistinct}
use radioledger.Import.Run.{
  ImportState, no_counts, flush_batch, import_one, import_loop, import_records, count_loop,
  count_adif_records, version_of, with_version,
}
use radioledger.Import.Run.Steps.{
  count_adif_records-ok, import_records-ok, count_loop-ok, count_loop-eof, import_loop-ok,
  import_loop-eof,
}
use radioledger.Import.Run.Counts.{
  IsBalanced, on_mapped-IsBalanced, on_mapped-AreDistinct, flush-IsBalanced, flush-AreDistinct,
  flush-empty,
}

abbrev records_of : Option Parsed → List Record
records_of none = []
records_of (some out) = out.records

abbrev errors_of : Option Parsed → Option Error
errors_of none = none
errors_of (some out) = out.err

module _ (decode : Bytes → Option Bytes) (floats : Floats) (faults : Faults) where
  -- The records of a file, one behind the other.
  unfoldable pub import_all : List Record → ImportState → ImportState
  import_all [] st = st
  import_all (r ∷ rs) st = import_all rs (import_one decode floats faults r st)

  -- The loops of both passes, where the loop of ParseAll ends well: the records that it appends
  -- are counted, and imported in their order.
  abbrev Follows : ℕ → Parser → List Record → List Record → Type 0
  Follows fuel p acc records =
      (rs : List Record) × (records ≡ acc ++ rs)
      × ((n : ℕ) → count_loop decode fuel false p n ≡ some (n + length rs))
      × ((st : ImportState)
          → import_loop decode floats faults fuel false p st
            ≡ some (flush_batch faults (import_all rs st), none))

  collect-Follows :
      (fuel : ℕ) (h : Option Header) (acc : List Record) (p : Parser) {out : Parsed}
      → collect decode fuel false h acc p ≡ some out
      → out.err ≡ none
      → Follows fuel p acc out.records
  unfolding collect import_all
  collect-Follows zero h acc p e f = absurd (ground arith)
  collect-Follows (suc fuel) h acc p {out} e f =
      (elim (next decode false p)
          as (λ t. next decode false p ≡ t → Follows (suc fuel) p acc out.records) [
            | none ↦ λ read. absurd (ground (arith, rw (read, collect) at e))
            | some (q, ok r) ↦ λ read.
                let (rs, all_of, counted, imported) =
                  collect-Follows fuel h (acc ++ r ∷ []) q {out = out} (rw (read, collect) at e)
                    f in
                (
                  r ∷ rs,
                  all_of ∙ append_assoc acc (r ∷ []) rs,
                  λ n. count_loop-ok decode fuel p n read ∙ counted (n + 1) ∙ ap some (omega arith),
                  λ st.
                      import_loop-ok decode fuel p floats faults st read
                      ∙ imported (import_one decode floats faults r st),
                )
            | some (q, failed eof) ↦ λ read.
                let records : out.records ≡ acc =
                  sym (ap (λ (x : Option Parsed). records_of x) (rw (read, collect) at e)) in
                (
                  [],
                  records ∙ sym (append-nil acc),
                  λ n. count_loop-eof decode fuel p n read ∙ ap some (omega arith),
                  λ st. import_loop-eof decode fuel p floats faults st read,
                )
            | some (q, failed too_many_records) ↦
                λ read. absurd (ground (arith, f, ap errors_of (rw (read, collect) at e)))
            | some (q, failed context_error) ↦
                λ read. absurd (ground (arith, f, ap errors_of (rw (read, collect) at e)))
            | some (q, failed (parse_error x y z)) ↦
                λ read. absurd (ground (arith, f, ap errors_of (rw (read, collect) at e)))
          ])
        refl

  import_all-IsBalanced :
      (rs : List Record) (before n : ℕ) (st : ImportState)
      → IsBalanced before n st
      → IsBalanced before (n + length rs) (import_all rs st)
  unfolding import_all
  import_all-IsBalanced [] before n st b = rw (add-zero n) b
  import_all-IsBalanced (r ∷ rs) before n st b =
      subst (λ k. IsBalanced before k (import_all rs (import_one decode floats faults r st)))
        (omega arith)
        (import_all-IsBalanced rs before (suc n) (import_one decode floats faults r st) (
          unfold import_one in
          on_mapped-IsBalanced faults before n st (map_adif_record floats r) b))

  import_all-AreDistinct :
      (rs : List Record) (st : ImportState)
      → ((table : List QsoRow) → faults.query_fails table ≡ false)
      → AreDistinct st.qsos
      → AreDistinct (import_all rs st).qsos
  unfolding import_all
  import_all-AreDistinct [] st safe d = d
  import_all-AreDistinct (r ∷ rs) st safe d =
      import_all-AreDistinct rs (import_one decode floats faults r st) safe
        (unfold import_one in on_mapped-AreDistinct faults st (map_adif_record floats r) safe d)

  -- What importRecords returns for the records of a file.
  abbrev pub imported_from : List Record → List QsoRow → ImportState
  imported_from rs qsos =
      flush_batch faults (import_all rs (record { counters = no_counts; batch = []; qsos = qsos }))

  -- Both passes of the import agree with ParseAll. When ParseAll reads a file without an error,
  -- countADIFRecords returns the number of its records, and importRecords returns what mapping and
  -- inserting them in their order does, with the same fuel.
  pub import_records-parse_from :
      (start : Parser) (qsos : List QsoRow) {out : Parsed}
      → parse_from decode false start ≡ some out
      → out.err ≡ none
      → (version : Bytes) × (count_adif_records decode (length start.rest + 3) false start
          ≡ some (inr (length out.records, version)))
        × (import_records decode floats faults (length start.rest + 3) false start qsos
            ≡ some (imported_from out.records qsos, none))
  unfolding parse_from count_adif_records import_records
  import_records-parse_from start qsos {out} e f =
      (elim (header decode false start)
          as (λ t.
            header decode false start ≡ t
            → (version : Bytes) × (count_adif_records decode (length start.rest + 3) false start
                ≡ some (inr (length out.records, version)))
              × (import_records decode floats faults (length start.rest + 3) false start qsos
                  ≡ some (imported_from out.records qsos, none))) [
                    | none ↦ λ read. absurd (ground (arith, rw (read, parse_from) at e))
                    | some (q, failed x) ↦ λ read.
                        absurd (ground (arith, f, ap errors_of (rw (read, parse_from) at e)))
                    | some (q, ok h) ↦ λ read.
                        let (rs, all_of, counted, imported) =
                          collect-Follows (length start.rest + 3) h [] q {out = out}
                            (rw (read, parse_from) at e) f in
                        (
                          version_of decode h,
                          count_adif_records-ok decode (length start.rest + 3) start read
                              ∙ ap (with_version decode (version_of decode h)) (counted 0)
                              ∙ rw all_of (
                                  ap (λ n. some (inr (n, version_of decode h)))
                                    (zero-add (length rs))),
                          import_records-ok decode (length start.rest + 3) start floats faults qsos
                                read
                              ∙ rw all_of (
                                  imported
                                    (record { counters = no_counts; batch = []; qsos = qsos })),
                        )
                  ])
        refl

  import_records-state :
      (start : Parser) (qsos : List QsoRow) {out : Parsed} {st : ImportState} {err : Option Error}
      → parse_from decode false start ≡ some out
      → out.err ≡ none
      → import_records decode floats faults (length start.rest + 3) false start qsos
        ≡ some (st, err)
      → imported_from out.records qsos ≡ st
  import_records-state start qsos e f h =
      let (version, counted, imported) = import_records-parse_from start qsos e f in
      ground (arith, sym imported ∙ h)

  -- The counters of an import balance: when ParseAll reads a file without an error, importRecords
  -- counts every record once, as imported, as a duplicate or as an error, those skipped are among the
  -- errors, nothing is left in the batch, and the logbook has grown by the records imported.
  pub import_records-IsBalanced :
      (start : Parser) (qsos : List QsoRow) {out : Parsed} {st : ImportState} {err : Option Error}
      → parse_from decode false start ≡ some out
      → out.err ≡ none
      → import_records decode floats faults (length start.rest + 3) false start qsos
        ≡ some (st, err)
      → IsBalanced (length qsos) (length out.records) st × (st.batch ≡ [])
  import_records-IsBalanced start qsos {out} {st} {err} e f h =
      let before : ImportState = record { counters = no_counts; batch = []; qsos = qsos } in
      let begun : IsBalanced (length qsos) 0 before =
        ((omega arith, omega arith, omega arith, omega arith), omega arith) in
      let done = import_all out.records before in
      let b : IsBalanced (length qsos) (length out.records) done =
        subst (λ n. IsBalanced (length qsos) n done) (zero-add (length out.records))
          (import_all-IsBalanced out.records (length qsos) 0 before begun) in
      subst (λ (x : ImportState). IsBalanced (length qsos) (length out.records) x × (x.batch ≡ []))
        (import_records-state start qsos e f h)
        (unfold flush_batch in
          (
            flush-IsBalanced faults (length qsos) (length out.records) done.counters done.batch
                done.qsos b.0,
            flush-empty faults done.counters done.batch done.qsos,
          ))

  -- An import adds no duplicates: when ParseAll reads a file without an error, and the query for
  -- duplicates does not fail, importRecords leaves no two contacts with one key in a logbook that had
  -- none before, though rows of one batch, and of the file, may repeat each other.
  pub import_records-AreDistinct :
      (start : Parser) (qsos : List QsoRow) {out : Parsed} {st : ImportState} {err : Option Error}
      → parse_from decode false start ≡ some out
      → out.err ≡ none
      → import_records decode floats faults (length start.rest + 3) false start qsos
        ≡ some (st, err)
      → ((table : List QsoRow) → faults.query_fails table ≡ false)
      → AreDistinct qsos
      → AreDistinct st.qsos
  import_records-AreDistinct start qsos {out} {st} {err} e f h safe d =
      let before : ImportState = record { counters = no_counts; batch = []; qsos = qsos } in
      let done = import_all out.records before in
      subst (λ (x : ImportState). AreDistinct x.qsos) (import_records-state start qsos e f h)
        (unfold flush_batch in
          flush-AreDistinct faults done.counters done.batch done.qsos safe
            (import_all-AreDistinct out.records before safe d))
