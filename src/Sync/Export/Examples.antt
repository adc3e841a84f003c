-- ===== src/Sync/Export/Examples.antt =====
-- qsosToADIF of api/internal/services/sync/orchestrator.go on a batch of one contact.
use radioledger.Base.Decimal.{decimal}
use radioledger.Adif.Record.{get, find, delete, set}
use radioledger.Adif.Mode.{normalize_mode_pair, resolve_mode, mode_aliases, canonical_adif_modes}
use radioledger.Base.{
  length, ap, ◌≡◌, refl, [], ◌∷◌, map, all, All, arith, equal, true, lookup, member,
}
use radioledger.Base.Text.{to_upper, trim_space, lacks, codes}
use radioledger.Base.Utf8.{valid_utf8, lead}
use radioledger.Adif.Parser.{default_max_field_len}
use radioledger.Adif.Writer.RoundTrip.{IsExportable}
use radioledger.Adif.Writer.Check.{is_writable, all-IsWritable}
use radioledger.Sync.Status.{PendingQso}
use radioledger.Sync.Status.Examples.{contact, row}
use radioledger.Sync.Export.{to_record, qsos_to_adif}
use radioledger.Sync.Export.Reads.{IsReadable, AllRead, parse_all-AllRead}
use radioledger.Adif.Record.{Record}
use radioledger.Adif.Parser.{parse_all}
use radioledger.Adif.Parser.File.{to_header}
use radioledger.Adif.Writer.Text.{header_fields}
use radioledger.Base.{List, none, some, false}

abbrev first : PendingQso
first = record { row = row 1; contact = contact 1 }

first_length : length (to_record first).fields ≡ 7
unfolding to_record equal to_upper trim_space normalize_mode_pair get find resolve_mode lookup
    mode_aliases member canonical_adif_modes delete set decimal
first_length = refl

first-writable : all (is_writable default_max_field_len) (to_record first).fields ≡ true
unfolding to_record is_writable all equal lacks valid_utf8 to_upper trim_space lead
    normalize_mode_pair get find resolve_mode lookup mode_aliases member canonical_adif_modes delete
    set decimal
first-writable = refl

first-IsExportable : All (IsExportable default_max_field_len) (map to_record (first ∷ []))
first-IsExportable = (
  (
    (λ e. absurd (omega (arith, first_length, ap length e))),
    all-IsWritable default_max_field_len (to_record first).fields first-writable,
  ),
  tt,
)

first-IsReadable : IsReadable first
unfolding normalize_mode_pair to_upper trim_space resolve_mode lookup mode_aliases equal member
    canonical_adif_modes
first-IsReadable = (
  record {
    year_from = omega arith;
    year_to = omega arith;
    month_fits = omega arith;
    day_fits = omega arith;
    hour_fits = omega arith;
    minute_fits = omega arith;
  },
  (record { mode = codes "SSB"; submode = [] }, refl),
)

parse_all-AllRead_example :
    (recs : List Record) × (parse_all (λ s. none) false (qsos_to_adif (first ∷ []))
      ≡ some (record {
        header = some (to_header (header_fields none (codes "1.0.0")));
        records = recs;
        err = none;
      }))
    × AllRead (first ∷ []) recs
parse_all-AllRead_example =
    parse_all-AllRead (λ s. none) first [] (omega arith) first-IsExportable (first-IsReadable, tt)
