-- ===== src/Import/Run/Stuck.antt =====
-- api/internal/jobs/adif_import.go: both passes over a file with as many records as MaxRecords of
-- pkg/adif allows. Next reports that the maximum was exceeded, again and again, and the loops go on.
use radioledger.Base.{
  ℕ, zero, suc, ◌+◌, ◌^◌, ◌≤◌, ◌<◌, ◌≡◌, ◌≢◌, refl, ap, ◌∙◌, false, Bytes, List, [], ◌∷◌, ◌++◌,
  Option, none, some, length, All, arith, map, true,
}
use radioledger.Base.Text.{codes, lacks}
use radioledger.Adif.Record.{Field, Header, Record}
use radioledger.Adif.Scan.Written.{IsWritable}
use radioledger.Adif.Parser.{Options, Parser}
use radioledger.Adif.Parser.Written.{records_text, ready, next-written, next_limit}
use radioledger.Adif.Parser.File.{fresh, to_header, file_text, header-written}
use radioledger.Adif.Writer.{export_fields, format_all}
use radioledger.Adif.Writer.Text.{header_fields, format_all-file_text}
use radioledger.Adif.Writer.RoundTrip.{IsExportable, exports, length-exports}
use radioledger.Import.Row.{Floats, QsoRow}
use radioledger.Import.Batch.{Faults}
use radioledger.Import.Run.{
  ImportState, no_counts, import_one, import_loop, import_records, count_loop, count_adif_records,
  count_error, with_version, version_of,
}
use radioledger.Import.Run.Steps.{
  count_adif_records-ok, import_records-ok, count_loop-ok, count_loop-too_many_records,
  import_loop-ok, import_loop-too_many_records,
}

module _ (decode : Bytes → Option Bytes) (floats : Floats) (faults : Faults) (opts : Options)
    (bound : opts.max_field_len < 2 ^ 63) where
  -- Neither loop comes to an end, whatever fuel it is given.
  abbrev NeverEnd : ℕ → Parser → Type 0
  NeverEnd fuel p =
      ((n : ℕ) → count_loop decode fuel false p n ≡ none)
      × ((st : ImportState) → import_loop decode floats faults fuel false p st ≡ none)

  at_limit-NeverEnd :
      (fuel : ℕ) (h : Option Header) (count : ℕ) (rest : Bytes) (o : ℕ)
      → opts.max_records ≤ count
      → NeverEnd fuel (ready opts h count rest o)
  unfolding count_loop import_loop
  at_limit-NeverEnd zero h count rest o l = (λ n. refl, λ st. refl)
  at_limit-NeverEnd (suc fuel) h count rest o l =
      let (counting, importing) = at_limit-NeverEnd fuel h count rest o l in
      let read = next_limit decode opts h bound count rest o l in
      let p = ready opts h count rest o in
      (
        λ n. count_loop-too_many_records decode fuel p n read ∙ counting n,
        λ st.
            import_loop-too_many_records decode fuel p floats faults st read
            ∙ importing (count_error st),
      )

  written-NeverEnd :
      (rs : List (List Field)) (fuel : ℕ) (h : Option Header) (count : ℕ) (junk : Bytes) (o : ℕ)
      → opts.max_records ≤ count + length rs
      → count + length rs ≤ opts.max_records
      → lacks b'<' junk ≡ true
      → All (λ (fs : List Field). (fs ≢ []) × All (IsWritable opts.max_field_len) fs) rs
      → NeverEnd fuel (ready opts h count (junk ++ records_text rs) o)
  unfolding count_loop import_loop
  written-NeverEnd [] fuel h count junk o l m j w =
      at_limit-NeverEnd fuel h count (junk ++ []) o (omega (arith, l))
  written-NeverEnd ([] ∷ rs) fuel h count junk o l m j w = absurd (w.0.0 refl)
  written-NeverEnd ((g ∷ gs) ∷ rs) zero h count junk o l m j w = (λ n. refl, λ st. refl)
  written-NeverEnd ((g ∷ gs) ∷ rs) (suc fuel) h count junk o l m j w =
      let (o', read) =
        next-written decode opts h bound g gs count junk (records_text rs) o (omega (arith, m)) j
          w.0.1 in
      let (counting, importing) =
        written-NeverEnd rs fuel h (count + 1) (b'\n' ∷ []) o' (omega (arith, l)) (omega (arith, m))
          (unfold lacks in refl) w.1 in
      let p = ready opts h count (junk ++ records_text ((g ∷ gs) ∷ rs)) o in
      (
        λ n. count_loop-ok decode fuel p n read ∙ counting (n + 1),
        λ st.
            import_loop-ok decode fuel p floats faults st read
            ∙ importing (import_one decode floats faults _ st),
      )

  file_text-NeverEnd :
      (hs : List Field) (rs : List (List Field)) (fuel : ℕ) (qsos : List QsoRow)
      → length rs ≡ opts.max_records
      → All (IsWritable opts.max_field_len) hs
      → All (λ (fs : List Field). (fs ≢ []) × All (IsWritable opts.max_field_len) fs) rs
      → (count_adif_records decode fuel false (fresh opts (file_text hs rs)) ≡ none)
        × (import_records decode floats faults fuel false (fresh opts (file_text hs rs)) qsos
            ≡ none)
  file_text-NeverEnd hs rs fuel qsos l wh wr =
      let (o, read) = header-written decode opts bound hs (records_text rs) wh in
      let (counting, importing) =
        written-NeverEnd rs fuel (some (to_header hs)) 0 (codes "\n\n") o (omega (arith, l))
          (omega (arith, l)) (unfold lacks in refl) wr in
      let start = fresh opts (file_text hs rs) in
      (
        count_adif_records-ok decode fuel start read
            ∙ ap (with_version decode (version_of decode (some (to_header hs)))) (counting 0),
        import_records-ok decode fuel start floats faults qsos read
            ∙ importing (record { counters = no_counts; batch = []; qsos = qsos }),
      )

-- A printed file with exactly as many records as MaxRecords allows is never done with: neither
-- countADIFRecords nor importRecords returns, whatever the fuel, as both go on after every error of
-- Next but the end of the input. The fields are writable and no record is empty.
pub import_records_endless :
    (decode : Bytes → Option Bytes) (floats : Floats) (faults : Faults) (h : Option Header)
    (recs : List Record) (version : Bytes) (max_len fuel : ℕ) (qsos : List QsoRow)
    → 32 ≤ max_len
    → max_len < 2 ^ 63
    → All (IsWritable max_len) (header_fields h version)
    → All (IsExportable max_len) recs
    → (count_adif_records decode fuel false (
          fresh
            (record { max_field_len = max_len; max_records = length recs })
            (format_all h recs version))
        ≡ none)
      × (import_records decode floats faults fuel false
            (fresh
              (record { max_field_len = max_len; max_records = length recs })
              (format_all h recs version))
            qsos
          ≡ none)
import_records_endless decode floats faults h recs version max_len fuel qsos room bound wh wr =
    let opts : Options = record { max_field_len = max_len; max_records = length recs } in
    rw (format_all-file_text h recs version) (
      file_text-NeverEnd decode floats faults opts bound (header_fields h version)
        (map export_fields recs) fuel qsos (length-exports recs) wh (exports max_len recs room wr))
