-- ===== src/Adif/Writer/Text.antt =====
-- The text that the writer of pkg/adif/writer.go builds, in one piece.
use radioledger.Base.{
  ◌≡◌, refl, ap, sym, ◌∙◌, true, false, List, [], ◌∷◌, ◌++◌, map, Bytes, append_assoc, append-nil,
  Option, if◌then◌else◌,
}
use radioledger.Base.Text.{codes}
use radioledger.Adif.Record.{Field, Record, Header}
use radioledger.Adif.Mode.{is_empty}
use radioledger.Adif.Scan.Written.{fields_text}
use radioledger.Adif.Parser.Written.{record_text, records_text}
use radioledger.Adif.Parser.File.{file_text}
use radioledger.Adif.Writer.{
  Writer, WriterOptions, field_text, write_field, write_fields, print, standard_fields,
  write_header, export_fields, write_record, write_records, extra_fields, format_all, preamble,
  new_writer_with_options,
}

-- The writer once its header is written.
abbrev pub written : Bytes → WriterOptions → Writer
written out opts = record { out = out; opts = opts; header_written = true }

fields_text-append :
    (fs gs : List Field) → fields_text (fs ++ gs) ≡ fields_text fs ++ fields_text gs
fields_text-append [] gs = refl
fields_text-append (f ∷ fs) gs =
    rw (fields_text-append fs gs)
      (sym (append_assoc (field_text f) (fields_text fs) (fields_text gs)))

module _ (opts : WriterOptions) where
  write_fields-out :
      (out : Bytes) (fs : List Field)
      → write_fields (written out opts) fs ≡ written (out ++ fields_text fs) opts
  unfolding write_fields write_field
  write_fields-out out [] = rw append-nil
  write_fields-out out (f ∷ fs) =
      write_fields-out (out ++ field_text f) fs
      ∙ ap (λ (t : Bytes). written t opts) (append_assoc out (field_text f) (fields_text fs))

  write_record-out :
      (out : Bytes) (rec : Record)
      → write_record (written out opts) rec ≡ written (out ++ record_text (export_fields rec)) opts
  unfolding write_record print
  write_record-out out rec = rw (write_fields-out out (export_fields rec)) (rw append_assoc)

  write_records-out :
      (out : Bytes) (recs : List Record)
      → write_records (written out opts) recs
        ≡ written (out ++ records_text (map export_fields recs)) opts
  unfolding write_records
  write_records-out out [] = rw append-nil
  write_records-out out (rec ∷ recs) =
      let text = record_text (export_fields rec) in
      ap (λ (w : Writer). write_records w recs) (write_record-out out rec)
      ∙ write_records-out (out ++ text) recs
      ∙ ap (λ (t : Bytes). written t opts)
          (append_assoc out text (records_text (map export_fields recs)))

  write_header-out :
      (extra : List Field)
      → opts.include_header ≡ true
      → write_header (record { out = []; opts = opts; header_written = false }) extra
        ≡ written
            (preamble
              ++ (fields_text (standard_fields opts.program_version ++ extra) ++ codes "<EOH>\n\n"))
            opts
  unfolding write_header print
  write_header-out extra i =
      let standard = standard_fields opts.program_version in
      simp (i, write_fields-out)
        (ap (λ (t : Bytes). written (preamble ++ t) opts) (rw (fields_text-append standard extra)))

-- The version that the header names.
abbrev pub version_or_default : Bytes → Bytes
version_or_default version = if is_empty version then codes "1.0.0" else version

-- The header fields that `FormatAll` writes.
abbrev pub header_fields : Option Header → Bytes → List Field
header_fields h version = standard_fields (version_or_default version) ++ extra_fields h

abbrev format_opts : Bytes → WriterOptions
format_opts version = record {
  program_version = version_or_default version;
  fields_per_line = 0;
  include_header = true;
}

new_writer_for :
    (version : Bytes)
    → new_writer_with_options
        (record { program_version = version; fields_per_line = 0; include_header = true })
      ≡ record { out = []; opts = format_opts version; header_written = false }
unfolding new_writer_with_options
new_writer_for [] = refl
new_writer_for (c ∷ version) = refl

-- `FormatAll` prints the header fields, the end of the header, and each record with its fields
-- canonicalised and sorted.
pub format_all-file_text :
    (h : Option Header) (recs : List Record) (version : Bytes)
    → format_all h recs version ≡ file_text (header_fields h version) (map export_fields recs)
unfolding format_all
format_all-file_text h recs version =
    let opts = format_opts version in
    let extra = extra_fields h in
    let head = fields_text (header_fields h version) in
    let printed = records_text (map export_fields recs) in
    ap (λ (w : Writer). (write_records (write_header w extra) recs).out) (new_writer_for version)
    ∙ ap (λ (w : Writer). (write_records w recs).out) (write_header-out opts extra refl)
    ∙ ap (λ (w : Writer). w.out)
        (write_records-out opts (preamble ++ (head ++ codes "<EOH>\n\n")) recs)
    ∙ ap (λ (t : Bytes). preamble ++ t) (append_assoc head (codes "<EOH>\n\n") printed)
