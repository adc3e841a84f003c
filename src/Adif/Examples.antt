-- ===== src/Adif/Examples.antt =====
-- Runs of pkg/adif on small inputs, and the theorems at such inputs.
use radioledger.Base.{
  ◌≡◌, refl, true, false, List, [], ◌∷◌, ◌++◌, map, Option, none, some, Bytes, equal, length, arith,
  All, all,
}
use radioledger.Base.Text.{codes, to_upper, trim_space, lacks}
use radioledger.Base.Utf8.{valid_utf8, lead}
use mathlib.Core.List.{Perm}
use radioledger.Base.{lookup}
use radioledger.Base.Decimal.{atoi_or_zero, parse_int64}
use radioledger.Adif.Record.{find, Field, Record, get}
use radioledger.Adif.Callsign.{parse_callsign, extract_wpx_prefix, normalize_callsign}
use radioledger.Adif.Callsign.Laws.{rejoined, parse_callsign-rejoined, parse_callsign-wpx_prefix}
use radioledger.Awards.Wpx.{wpx_prefix}
use radioledger.Base.Text.{split, is_letter, is_digit}
use radioledger.Base.{any}
use radioledger.Import.Date.{clock}
use radioledger.Adif.Validate.{validate_time, validate_gridsquare}
use radioledger.Adif.Validate.Laws.{IsTimeOfDay, validate_time-IsTimeOfDay}
use radioledger.Adif.Scan.{too_many_records}
use radioledger.Adif.Scan.Written.{IsWritable}
use radioledger.Adif.Parser.{Options, parse_all, parse_from, default_max_field_len, Parsed}
use radioledger.Adif.Parser.Written.{record_text, records_text, to_record}
use radioledger.Adif.Parser.File.{fresh, to_header}
use radioledger.Adif.Parser.Headerless.{parse_from-headerless}
use radioledger.Adif.Parser.Returns.{Returns, parse_all_total}
use radioledger.Adif.Parser.Valid.{IsStoredAll, parse_all-IsStoredAll}
use radioledger.Adif.Mode.{
  mode_aliases, resolve_mode, normalize_mode_pair, canonicalize_record_mode,
}
use radioledger.Adif.Mode.Rewrite.{canonicalize_record_mode_known}
use radioledger.Adif.Order.{sort_fields}
use radioledger.Adif.Order.Laws.{IsOrdered, sort_fields_lem}
use radioledger.Adif.Writer.{format_all, named, standard_fields, extra_fields}
use radioledger.Adif.Writer.Text.{header_fields}
use radioledger.Adif.Writer.RoundTrip.{
  IsExportable, exported, parse_all-format_all, parse_from-at_limit,
}
use radioledger.Adif.Writer.Check.{is_writable, all-IsWritable}

-- A decoder that knows no character.
abbrev pub no_decoder : Bytes → Option Bytes
no_decoder _ = none

abbrev call : Field
call = named (codes "CALL") (codes "W1AW")

abbrev ssb : Field
ssb = named (codes "MODE") (codes "USB")

abbrev contact : Record
contact = record { fields = ssb ∷ call ∷ [] }

abbrev answered : Record
answered = record { fields = call ∷ named (codes "BAND") (codes "20M") ∷ [] }

pub contacts : List Record
contacts = contact ∷ answered ∷ []

abbrev pub version : Bytes
version = codes "2.0"

pub header-IsWritable : All (IsWritable default_max_field_len) (header_fields none version)
header-IsWritable = all-IsWritable default_max_field_len (header_fields none version) (
    unfold is_writable all standard_fields extra_fields equal lacks valid_utf8 to_upper trim_space
      lead in
    refl)

pub contacts-IsExportable : All (IsExportable default_max_field_len) contacts
unfolding contacts
contacts-IsExportable = (
  (
    (λ e. cc),
    all-IsWritable default_max_field_len (ssb ∷ call ∷ [])
        (unfold is_writable all equal lacks valid_utf8 to_upper trim_space lead in refl),
  ),
  (
    (
      (λ e. cc),
      all-IsWritable default_max_field_len (call ∷ named (codes "BAND") (codes "20M") ∷ [])
          (unfold is_writable all equal lacks valid_utf8 to_upper trim_space lead in refl),
    ),
    tt,
  ),
)

short-IsWritable : All (IsWritable 10) (call ∷ ssb ∷ [])
short-IsWritable =
    all-IsWritable 10 (call ∷ ssb ∷ [])
      (unfold is_writable all equal lacks valid_utf8 to_upper trim_space lead in refl)

parse_all-format_all_example :
    parse_all no_decoder false (format_all none contacts version)
    ≡ some (record {
      header = some (to_header (header_fields none version));
      records = map exported contacts;
      err = none;
    })
unfolding contacts
parse_all-format_all_example =
    parse_all-format_all no_decoder none contacts version (omega arith) header-IsWritable
      contacts-IsExportable

parse_from-at_limit_example :
    parse_from no_decoder false (
      fresh
        (record { max_field_len = default_max_field_len; max_records = length contacts })
        (format_all none contacts version))
    ≡ some (record {
      header = some (to_header (header_fields none version));
      records = map exported contacts;
      err = some too_many_records;
    })
parse_from-at_limit_example =
    parse_from-at_limit no_decoder none contacts version default_max_field_len (omega arith)
      (omega arith) header-IsWritable contacts-IsExportable

parse_all_total_example : Returns (parse_all no_decoder false (codes "<CALL:4>W1AW<EOR>"))
parse_all_total_example = parse_all_total no_decoder false (codes "<CALL:4>W1AW<EOR>")

-- A value with the byte of the euro sign in Windows-1252.
abbrev euro : Bytes
euro = codes "<EOH><NAME:1>" ++ (0x80 ∷ codes "<EOR>")

parse_all-IsStoredAll_example :
    (r : Parsed) × (parse_all no_decoder false euro ≡ some r) × IsStoredAll r
parse_all-IsStoredAll_example = parse_all-IsStoredAll no_decoder false euro

abbrev small : Options
small = record { max_field_len = 10; max_records = 5 }

parse_from-headerless_example :
    parse_from no_decoder false (
      fresh small
        (record_text (call ∷ []) ++ (record_text (ssb ∷ []) ++ records_text ((call ∷ []) ∷ []))))
    ≡ some (record {
      header = some (to_header []);
      records = to_record (call ∷ ssb ∷ []) ∷ to_record (call ∷ []) ∷ [];
      err = none;
    })
parse_from-headerless_example =
    parse_from-headerless no_decoder small (omega arith) call [] (ssb ∷ []) ((call ∷ []) ∷ [])
      (omega arith) (short-IsWritable.0, tt) (short-IsWritable.1.0, tt)
      (((λ e. cc), (short-IsWritable.0, tt)), tt)

usb_known :
    normalize_mode_pair (codes " usb ") []
    ≡ some (record { mode = codes "SSB"; submode = codes "USB" })
unfolding normalize_mode_pair to_upper trim_space resolve_mode lookup mode_aliases
usb_known = refl

contact_known :
    normalize_mode_pair (get contact (codes "MODE")) (get contact (codes "SUBMODE"))
    ≡ some (record { mode = codes "SSB"; submode = codes "USB" })
unfolding normalize_mode_pair get to_upper trim_space find equal resolve_mode lookup mode_aliases
contact_known = refl

sort_fields_lem_example :
    Perm (sort_fields (ssb ∷ call ∷ [])) (ssb ∷ call ∷ [])
    × IsOrdered (sort_fields (ssb ∷ call ∷ []))
sort_fields_lem_example = sort_fields_lem (ssb ∷ call ∷ [])

canonicalize_record_mode_known_example :
    let r' = (canonicalize_record_mode contact).0 in
    (get r' (codes "MODE") ≡ codes "SSB") × (canonicalize_record_mode r' ≡ (r', true))
unfolding equal to_upper
canonicalize_record_mode_known_example =
    canonicalize_record_mode_known contact (codes "MODE")
      {v = record { mode = codes "SSB"; submode = codes "USB" }} contact_known

parse_callsign-rejoined_example :
    rejoined (parse_callsign (codes " vk9/w5xxx/p")) ≡ codes "VK9/W5XXX/P"
unfolding any split normalize_callsign to_upper trim_space
parse_callsign-rejoined_example = parse_callsign-rejoined (codes " vk9/w5xxx/p") refl

parse_callsign-wpx_prefix_example :
    (parse_callsign (codes "dl1abc ")).wpx_prefix ≡ wpx_prefix (codes "dl1abc ")
unfolding lacks normalize_callsign to_upper trim_space is_letter
parse_callsign-wpx_prefix_example = parse_callsign-wpx_prefix (codes "dl1abc ") refl refl

-- The two disagree on a call sign that begins with a digit.
nine_a : (parse_callsign (codes "9A1AA")).wpx_prefix ≡ codes "9A1"
unfolding parse_callsign split extract_wpx_prefix to_upper trim_space is_letter is_digit
nine_a = refl

nine : wpx_prefix (codes "9A1AA") ≡ codes "9"
unfolding wpx_prefix to_upper trim_space
nine = refl

validate_time-IsTimeOfDay_example : IsTimeOfDay (clock (trim_space (codes "235959")))
unfolding all validate_time trim_space is_digit atoi_or_zero parse_int64
validate_time-IsTimeOfDay_example = validate_time-IsTimeOfDay (codes "235959") refl

-- The last two bytes of a locator of eight are not tested.
odd_locator : validate_gridsquare (codes "jo22db??") ≡ true
unfolding validate_gridsquare to_upper trim_space
odd_locator = refl
