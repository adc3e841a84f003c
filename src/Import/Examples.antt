-- ===== src/Import/Examples.antt =====
-- Runs and examples for the import of ADIF files.
use mathlib.Core.List.{lookup}
use radioledger.Base.Utf8.{valid_utf8, lead}
use radioledger.Base.Decimal.{parse_int64}
use radioledger.Adif.Mode.{
  canonical_adif_modes, mode_aliases, ModeValue, normalize_mode_pair, resolve_mode,
}
use radioledger.Base.{
  all, none, map, length, ◌+◌, List, member, ◌≤◌, ◌<◌, ◌≡◌, refl, false, Bytes, [], ◌∷◌, none, some,
  inr, equal, arith,
}
use radioledger.Base.Text.{lacks, to_upper, codes, trim_space, to_lower}
use radioledger.Adif.Parser.{
  Parser, Parsed, new_parser, parse_from, parse_all, default_max_field_len,
}
use radioledger.Adif.Parser.File.{fresh, to_header}
use radioledger.Adif.Writer.{format_all}
use radioledger.Adif.Writer.Text.{header_fields}
use radioledger.Adif.Writer.RoundTrip.{parse_all-format_all, IsExportable, exported}
use radioledger.Import.Batch.{Faults}
use radioledger.Import.Batch.Fresh.{AreDistinct}
use radioledger.Import.Run.{ImportState, count_adif_records, import_records}
use radioledger.Import.Run.Counts.{IsBalanced}
use radioledger.Import.Run.Laws.{
  imported_from, import_records-parse_from, import_records-IsBalanced, import_records-AreDistinct,
}
use radioledger.Import.Run.Stuck.{import_records_endless}
use radioledger.Adif.Examples.{no_decoder, version, header-IsWritable}
use radioledger.Adif.Writer.Check.{is_writable, all-IsWritable}
use radioledger.Adif.Record.{find, get, Field, Record}
use radioledger.Import.Date.{parse_adif_date_time}
use radioledger.Import.Date.Laws.{start_of, parse_adif_date_time_between}
use radioledger.Import.Row.{Floats, QsoRow, map_adif_record, row_of}
use radioledger.Import.Row.Laws.{IsImportable, map_adif_record-IsImportable}

-- The 31st of February is read as the 2nd of March.
february_run : parse_adif_date_time (codes "20240231") (codes "1205") ≡ some (63876600300)
unfolding parse_adif_date_time trim_space parse_int64
february_run = refl

parse_adif_date_time_between_example : (start_of 1898 ≤ 63876600300) × (63876600300 < start_of 2110)
parse_adif_date_time_between_example =
    parse_adif_date_time_between (codes "20240231") (codes "1205") february_run

-- A frequency is not read, and no band is inferred.
abbrev no_floats : Floats
no_floats = record {
  parse_mhz_to_hz = λ s. none;
  infer_band_from_freq = λ s. [];
  is_float = λ s. false;
}

abbrev field : Bytes → Bytes → Field
field name value = record { name = name; value = value; type = [] }

abbrev contact : Record
contact = record {
  fields =
      field (codes "CALL") (codes "n1a")
      ∷ field (codes "QSO_DATE") (codes "20240102")
      ∷ field (codes "BAND") (codes "20M")
      ∷ field (codes "MODE") (codes "CW")
      ∷ field (codes "X") (codes "y")
      ∷ [];
}

abbrev pair : ModeValue
pair = record { mode = codes "CW"; submode = [] }

abbrev row : QsoRow
row = row_of no_floats contact (codes "N1A") 63871372800 (codes "20m") pair

mapped_run : map_adif_record no_floats contact ≡ inr (row, [])
unfolding map_adif_record row_of to_upper trim_space get find equal parse_adif_date_time parse_int64
    to_lower normalize_mode_pair resolve_mode lookup mode_aliases member canonical_adif_modes
mapped_run = refl

map_adif_record-IsImportable_example : IsImportable row
map_adif_record-IsImportable_example = map_adif_record-IsImportable no_floats contact mapped_run

-- One contact twice.
abbrev twice : List Record
twice = contact ∷ contact ∷ []

abbrev no_faults : Faults
no_faults = record {
  query_fails = λ qsos. false;
  copy_fails = λ qsos rs. false;
  insert_fails = λ qsos r. false;
}

contact-IsExportable : IsExportable default_max_field_len contact
unfolding is_writable all equal to_upper trim_space lacks valid_utf8 lead
contact-IsExportable = ((λ e. cc), all-IsWritable default_max_field_len contact.fields refl)

abbrev start : Parser
start = new_parser (format_all none twice version)

abbrev parsed : Parsed
parsed = record {
  header = some (to_header (header_fields none version));
  records = map exported twice;
  err = none;
}

parsed_run : parse_from no_decoder false start ≡ some parsed
unfolding parse_all
parsed_run =
    parse_all-format_all no_decoder none twice version (omega arith) header-IsWritable
      (contact-IsExportable, (contact-IsExportable, tt))

import_records-parse_from_example :
    (header_version : Bytes) × (count_adif_records no_decoder (length start.rest + 3) false start
      ≡ some (inr (2, header_version)))
    × (import_records no_decoder no_floats no_faults (length start.rest + 3) false start []
        ≡ some (imported_from no_decoder no_floats no_faults parsed.records [], none))
import_records-parse_from_example =
    import_records-parse_from no_decoder no_floats no_faults start [] parsed_run refl

abbrev outcome : ImportState
outcome = imported_from no_decoder no_floats no_faults parsed.records []

import_run :
    import_records no_decoder no_floats no_faults (length start.rest + 3) false start []
    ≡ some (outcome, none)
import_run = (import_records-parse_from no_decoder no_floats no_faults start [] parsed_run refl).2

import_records-IsBalanced_example : IsBalanced 0 2 outcome × (outcome.batch ≡ [])
import_records-IsBalanced_example =
    import_records-IsBalanced no_decoder no_floats no_faults start [] parsed_run refl import_run

import_records-AreDistinct_example : AreDistinct outcome.qsos
import_records-AreDistinct_example =
    import_records-AreDistinct no_decoder no_floats no_faults start [] parsed_run refl import_run
      (λ table. refl) tt

-- A limit of two records, and two of them.
import_records_endless_example :
    (count_adif_records no_decoder 10 false (
        fresh
          (record { max_field_len = default_max_field_len; max_records = 2 })
          (format_all none twice version))
      ≡ none)
    × (import_records no_decoder no_floats no_faults 10 false
          (fresh
            (record { max_field_len = default_max_field_len; max_records = 2 })
            (format_all none twice version))
          []
        ≡ none)
import_records_endless_example =
    import_records_endless no_decoder no_floats no_faults none twice version default_max_field_len
      10 [] (omega arith) (omega arith) header-IsWritable
      (contact-IsExportable, (contact-IsExportable, tt))
