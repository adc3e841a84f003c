-- ===== src/Sync/Export/Laws.antt =====
-- qsosToADIF of api/internal/services/sync/orchestrator.go beside FormatAll of pkg/adif.
use radioledger.Base.{
  ◌≡◌, refl, ap, ◌∙◌, List, [], ◌∷◌, none, some, map, All, all, length, ◌<◌, false, Option, equal,
  Bytes,
}
use radioledger.Base.Text.{codes}
use radioledger.Adif.Writer.{
  Writer, print, write_fields, standard_fields, write_field, extra_fields, format_all,
  new_writer_with_options, write_header, write_record, write_records,
}
use radioledger.Adif.Record.{Record}
use radioledger.Base.Text.{to_upper, trim_space, lacks}
use radioledger.Base.Utf8.{valid_utf8, lead}
use radioledger.Adif.Scan.Written.{IsWritable}
use radioledger.Adif.Parser.{parse_all, default_max_field_len, default_max_records}
use radioledger.Adif.Parser.File.{to_header}
use radioledger.Adif.Writer.Text.{header_fields}
use radioledger.Adif.Writer.RoundTrip.{IsExportable, exported, parse_all-format_all}
use radioledger.Adif.Writer.Check.{is_writable, all-IsWritable}
use radioledger.Sync.Status.{PendingQso}
use radioledger.Sync.Export.{to_record, write_pending, qsos_to_adif, default_options}

write_pending-records :
    (w : Writer) (pending : List PendingQso)
    → write_pending w pending ≡ write_records w (map to_record pending)
unfolding write_pending write_records
write_pending-records w [] = refl
write_pending-records w (p ∷ pending) = write_pending-records (write_record w (to_record p)) pending

-- The first record writes the header.
format_all-first :
    (recs : List Record) (rec : Record)
    → (write_records (new_writer_with_options default_options) (rec ∷ recs)).out
      ≡ format_all none (rec ∷ recs) (codes "1.0.0")
unfolding format_all write_records write_record write_header new_writer_with_options extra_fields
    print write_fields standard_fields write_field
format_all-first recs rec = refl

-- The text for a batch that is not empty is what FormatAll prints for its records, with no header
-- fields and version 1.0.0.
pub qsos_to_adif-format_all :
    (p : PendingQso) (pending : List PendingQso)
    → qsos_to_adif (p ∷ pending)
      ≡ format_all none (to_record p ∷ map to_record pending) (codes "1.0.0")
unfolding qsos_to_adif
qsos_to_adif-format_all p pending =
    let w = new_writer_with_options default_options in
    ap (λ (v : Writer). v.out) (write_pending-records w (p ∷ pending))
    ∙ format_all-first (map to_record pending) (to_record p)

header-IsWritable : All (IsWritable default_max_field_len) (header_fields none (codes "1.0.0"))
header-IsWritable = all-IsWritable default_max_field_len (header_fields none (codes "1.0.0")) (
    unfold is_writable all standard_fields extra_fields equal lacks valid_utf8 to_upper trim_space
      lead in
    refl)

-- ParseAll reads the text for a batch back: with at least one contact and fewer than 500,000, whose
-- fields are writable, it gives the records of the contacts in their order, canonicalised and
-- sorted, with the standard header and no error.
pub parse_all-qsos_to_adif :
    (decode : Bytes → Option Bytes) (p : PendingQso) (pending : List PendingQso)
    → length (map to_record (p ∷ pending)) < default_max_records
    → All (IsExportable default_max_field_len) (map to_record (p ∷ pending))
    → parse_all decode false (qsos_to_adif (p ∷ pending))
      ≡ some (record {
        header = some (to_header (header_fields none (codes "1.0.0")));
        records = map exported (map to_record (p ∷ pending));
        err = none;
      })
parse_all-qsos_to_adif decode p pending l h =
    ap (parse_all decode false) (qsos_to_adif-format_all p pending)
    ∙ parse_all-format_all decode none (map to_record (p ∷ pending)) (codes "1.0.0") l
        header-IsWritable h
