-- ===== src/Adif/Writer/RoundTrip.antt =====
-- pkg/adif/parser.go on what pkg/adif/writer.go prints.
use radioledger.Base.{
  ℕ, ◌^◌, ◌≤◌, ◌<◌, ◌≡◌, ◌≢◌, refl, ap, ◌∙◌, false, List, [], ◌∷◌, map, Option, none, some, Bytes,
  All, length, arith, suc,
}
use radioledger.Adif.Record.{Field, Record, Header}
use radioledger.Adif.Scan.Written.{IsWritable}
use radioledger.Adif.Scan.{Error, too_many_records}
use radioledger.Adif.Parser.{
  Options, parse_from, parse_all, new_parser, default_max_field_len, default_max_records,
}
use radioledger.Adif.Parser.Written.{to_record, final_err}
use radioledger.Adif.Parser.File.{fresh, to_header, parse_from-file_text}
use radioledger.Adif.Writer.{export_fields, format_all}
use radioledger.Adif.Writer.Text.{header_fields, format_all-file_text}
use radioledger.Adif.Writer.Writable.{export_fields-IsWritable, export_fields-ne-nil}

-- A record that has fields, all of them writable.
abbrev pub IsExportable : ℕ → Record → Type 0
IsExportable max_len r = (r.fields ≢ []) × All (IsWritable max_len) r.fields

abbrev pub exported : Record → Record
exported r = record { fields = export_fields r }

pub exports :
    (max_len : ℕ) (recs : List Record)
    → 32 ≤ max_len
    → All (IsExportable max_len) recs
    → All (λ (fs : List Field). (fs ≢ []) × All (IsWritable max_len) fs) (map export_fields recs)
exports max_len [] room h = tt
exports max_len (r ∷ recs) room h = (
  (export_fields-ne-nil r h.0.0, export_fields-IsWritable max_len room r h.0.1),
  exports max_len recs room h.1,
)

pub length-exports : (recs : List Record) → length (map export_fields recs) ≡ length recs
length-exports [] = refl
length-exports (r ∷ recs) = ap suc (length-exports recs)

map-exported : (recs : List Record) → map to_record (map export_fields recs) ≡ map exported recs
map-exported [] = refl
map-exported (r ∷ recs) = ap (◌∷◌ (exported r)) (map-exported recs)

module _ (decode : Bytes → Option Bytes) (h : Option Header) (recs : List Record)
    (version : Bytes) where
  -- Any limits: every record comes back; at the limit on records with an error.
  parse_from-format_all :
      (opts : Options)
      → 32 ≤ opts.max_field_len
      → opts.max_field_len < 2 ^ 63
      → length recs ≤ opts.max_records
      → All (IsWritable opts.max_field_len) (header_fields h version)
      → All (IsExportable opts.max_field_len) recs
      → parse_from decode false (fresh opts (format_all h recs version))
        ≡ some (record {
          header = some (to_header (header_fields h version));
          records = map exported recs;
          err = final_err opts (length recs);
        })
  parse_from-format_all opts room bound l wh wr =
      rw (format_all-file_text h recs version, ← map-exported recs, ← length-exports recs)
        (parse_from-file_text decode opts bound (header_fields h version) (map export_fields recs)
          (omega (arith, length-exports recs)) wh (exports opts.max_field_len recs room wr))

-- `ParseAll` after `FormatAll`, with fewer than 500,000 records: the header holds the standard
-- fields and the extra ones, the records are the exported forms in order, and there is no error.
-- The header fields written and the records' fields are writable, and no record is empty.
pub parse_all-format_all :
    (decode : Bytes → Option Bytes) (h : Option Header) (recs : List Record) (version : Bytes)
    → length recs < default_max_records
    → All (IsWritable default_max_field_len) (header_fields h version)
    → All (IsExportable default_max_field_len) recs
    → parse_all decode false (format_all h recs version)
      ≡ some (record {
        header = some (to_header (header_fields h version));
        records = map exported recs;
        err = none;
      })
unfolding parse_all new_parser
parse_all-format_all decode h recs version l wh wr =
    let opts : Options = record {
      max_field_len = default_max_field_len;
      max_records = default_max_records;
    } in
    let below : final_err opts (length recs) ≡ none = ground arith in
    parse_from-format_all decode h recs version opts (omega arith) (omega arith) (omega arith) wh wr
    ∙ ap
        (λ (e : Option Error). some (record {
          header = some (to_header (header_fields h version));
          records = map exported recs;
          err = e;
        }))
        below

-- A file with exactly as many records as `MaxRecords` allows: all of them are read, and then the
-- parser reports that the maximum was exceeded.
pub parse_from-at_limit :
    (decode : Bytes → Option Bytes) (h : Option Header) (recs : List Record) (version : Bytes)
    (max_len : ℕ)
    → 32 ≤ max_len
    → max_len < 2 ^ 63
    → All (IsWritable max_len) (header_fields h version)
    → All (IsExportable max_len) recs
    → parse_from decode false (
        fresh
          (record { max_field_len = max_len; max_records = length recs })
          (format_all h recs version))
      ≡ some (record {
        header = some (to_header (header_fields h version));
        records = map exported recs;
        err = some too_many_records;
      })
parse_from-at_limit decode h recs version max_len room bound wh wr =
    let opts : Options = record { max_field_len = max_len; max_records = length recs } in
    let at : final_err opts (length recs) ≡ some too_many_records = ground arith in
    parse_from-format_all decode h recs version opts room bound (omega arith) wh wr
    ∙ ap
        (λ (e : Option Error). some (record {
          header = some (to_header (header_fields h version));
          records = map exported recs;
          err = e;
        }))
        at
