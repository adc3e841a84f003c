-- ===== src/Sync/Export/Reads.antt =====
-- qsosToADIF of api/internal/services/sync/orchestrator.go beside the import of
-- api/internal/jobs/adif_import.go: what is read in the text that was made for contacts.
use radioledger.Base.{
  ℕ, ◌<◌, ◌≡◌, refl, ap, ◌∙◌, Bool, true, false, Bytes, List, [], ◌∷◌, ◌++◌, Option, none, some,
  arith, equal,
}
use radioledger.Base.Decimal.{magnitude}
use radioledger.Base.Text.{codes}
use radioledger.Sync.Status.{Contact, PendingQso}
use radioledger.Adif.Record.{Field, Record, find, get, value_or_empty}
use radioledger.Base.{lookup, has_distinct_keys, missing-none, Bool-cases, inl, inr, equal_iff}
use mathlib.Core.Option
use radioledger.Adif.Order.Found.{find-sort_fields}
use radioledger.Adif.Writer.{export_fields}
use radioledger.Adif.Writer.RoundTrip.{exported}
use radioledger.Adif.Mode.{ModeValue, normalize_mode_pair}
use radioledger.Adif.Mode.Rewrite.{canonicalize_record_mode_known}
use radioledger.Sync.Export.{to_record}
use radioledger.Base.{if◌then◌else◌}
use radioledger.Base.Text.{to_upper}
use radioledger.Sync.Export.{format_date, format_time, optional, frequency, format_mhz, fields_of}
use radioledger.Import.Date.{parse_adif_date_time}
use radioledger.Sync.Export.Moment.{IsPrintable, start_of_minute, parse_adif_date_time-format}
use radioledger.Sync.Export.Frequency.{read_hz, read_hz-format_mhz}
use radioledger.Sync.Export.Laws.{parse_all-qsos_to_adif}
use radioledger.Sync.Export.{qsos_to_adif}
use radioledger.Adif.Writer.RoundTrip.{IsExportable}
use radioledger.Adif.Writer.Text.{header_fields}
use radioledger.Adif.Parser.{parse_all, default_max_field_len, default_max_records}
use radioledger.Adif.Parser.File.{to_header}
use radioledger.Base.{All, map, length}

abbrev pub or_empty : Option Bytes → Bytes
or_empty none = []
or_empty (some s) = s

abbrev value_at : Option (Option Bytes) → Bytes
value_at none = []
value_at (some v) = or_empty v

-- Fields with their values, those that have one.
unfoldable optionals : List (Bytes × Option Bytes) → List Field
optionals [] = []
optionals ((name, value) ∷ rows) = optional name value ++ optionals rows

find-optionals_absent :
    (name : Bytes) (rows : List (Bytes × Option Bytes))
    → lookup name rows ≡ none
    → find name (optionals rows) ≡ none
unfolding lookup find optionals
find-optionals_absent name [] h = refl
find-optionals_absent name ((other, none) ∷ rows) h =
    ground (arith, find-optionals_absent name rows)
find-optionals_absent name ((other, some v) ∷ rows) h =
    ground (arith, find-optionals_absent name rows)

find-optionals :
    (name : Bytes) (rows : List (Bytes × Option Bytes))
    → has_distinct_keys rows ≡ true
    → value_or_empty (find name (optionals rows)) ≡ value_at (lookup name rows)
unfolding lookup find optionals has_distinct_keys
find-optionals name [] h = refl
find-optionals name ((other, none) ∷ rows) h = elim (Bool-cases (equal other name)) [
  | inl same ↦
      let fresh : lookup name rows ≡ none =
        ground (arith, same, equal_iff other name, missing-none (lookup name rows)) in
      rw (same, lookup, find-optionals_absent name rows fresh) refl
  | inr far ↦ rw (far, lookup) (find-optionals name rows (ground arith))
]
find-optionals name ((other, some v) ∷ rows) h = elim (Bool-cases (equal other name)) [
  | inl same ↦ rw (same, lookup, find) refl
  | inr far ↦ rw (far, lookup, find) (find-optionals name rows (ground arith))
]

abbrev rows_of : Contact → List (Bytes × Option Bytes)
rows_of c =
    (codes "CALL", some c.callsign)
    ∷ (codes "BAND", some c.band)
    ∷ (codes "MODE", some c.mode)
    ∷ (codes "QSO_DATE", some (format_date c.datetime_on))
    ∷ (codes "TIME_ON", some (format_time c.datetime_on))
    ∷ (codes "RST_SENT", c.rst_sent)
    ∷ (codes "RST_RCVD", c.rst_rcvd)
    ∷ (codes "GRIDSQUARE", c.gridsquare)
    ∷ (codes "MY_GRIDSQUARE", c.my_gridsquare)
    ∷ (codes "STATION_CALLSIGN", c.station_callsign)
    ∷ (codes "FREQ", Option.map format_mhz c.frequency_hz)
    ∷ []

frequency-optionals :
    (hz : Option ℕ) → frequency hz ≡ optionals ((codes "FREQ", Option.map format_mhz hz) ∷ [])
unfolding optionals
frequency-optionals none = refl
frequency-optionals (some hz) = refl

fields_of-optionals : (c : Contact) → fields_of c ≡ optionals (rows_of c)
unfolding fields_of optionals
fields_of-optionals c = rw (frequency-optionals c.frequency_hz) refl

rows_of-distinct : (c : Contact) → has_distinct_keys (rows_of c) ≡ true
unfolding has_distinct_keys lookup equal
rows_of-distinct c = refl

abbrev raw : Contact → Record
raw c = record { fields = fields_of c }

get-raw : (c : Contact) (n : Bytes) → get (raw c) n ≡ value_at (lookup (to_upper n) (rows_of c))
unfolding get
get-raw c n =
    ap (λ fs. value_or_empty (find (to_upper n) fs)) (fields_of-optionals c)
    ∙ find-optionals (to_upper n) (rows_of c) (rows_of-distinct c)

read_hz-printed : (hz : Option ℕ) → read_hz (or_empty (Option.map format_mhz hz)) ≡ hz
unfolding read_hz magnitude
read_hz-printed none = refl
read_hz-printed (some hz) = read_hz-format_mhz hz

-- A contact that the import can read: its instant has two or four digits to each part, its year is
-- one that the import takes, and NormalizeModePair knows its mode.
abbrev pub IsReadable : PendingQso → Type 0
IsReadable p =
    IsPrintable p.contact.datetime_on
    × ((v : ModeValue) × (normalize_mode_pair p.contact.mode [] ≡ some v))

-- What is read in the record for a contact: CALL and BAND, the canonical pair of mode and submode, by
-- the import the instant to the minute, the reports, the locators and the call sign of the station,
-- each empty if there is none, and in the digits of FREQ the hertz.
abbrev pub Reads : PendingQso → Record → Type 0
Reads p r =
    ((v : ModeValue) × (normalize_mode_pair p.contact.mode [] ≡ some v)
      × (get r (codes "MODE") ≡ v.mode)
      × (get r (codes "SUBMODE") ≡ v.submode))
    × (get r (codes "CALL") ≡ p.contact.callsign)
    × (get r (codes "BAND") ≡ p.contact.band)
    × (parse_adif_date_time (get r (codes "QSO_DATE")) (get r (codes "TIME_ON"))
        ≡ some (start_of_minute p.contact.datetime_on))
    × (get r (codes "RST_SENT") ≡ or_empty p.contact.rst_sent)
    × (get r (codes "RST_RCVD") ≡ or_empty p.contact.rst_rcvd)
    × (get r (codes "GRIDSQUARE") ≡ or_empty p.contact.gridsquare)
    × (get r (codes "MY_GRIDSQUARE") ≡ or_empty p.contact.my_gridsquare)
    × (get r (codes "STATION_CALLSIGN") ≡ or_empty p.contact.station_callsign)
    × (read_hz (get r (codes "FREQ")) ≡ p.contact.frequency_hz)

-- The records, in the order of the contacts.
abbrev pub AllRead : List PendingQso → List Record → Type 0
AllRead [] [] = Unit {0}
AllRead (p ∷ ps) (r ∷ rs) = Reads p r × AllRead ps rs
AllRead _ _ = ⊥

-- The exported form of the record, whose fields are canonicalised once more and sorted.
get-exported :
    (p : PendingQso) {v : ModeValue} (n : Bytes)
    → normalize_mode_pair p.contact.mode [] ≡ some v
    → get (exported (to_record p)) n ≡ get (to_record p) n
unfolding to_record export_fields get to_upper equal lookup
get-exported p {v} n known =
    let c = p.contact in
    let pair : normalize_mode_pair (get (raw c) (codes "MODE")) (get (raw c) (codes "SUBMODE"))
        ≡ some v =
      rw (get-raw c (codes "MODE"), get-raw c (codes "SUBMODE")) known in
    let again = (canonicalize_record_mode_known (raw c) n pair).1 in
    ap value_or_empty (find-sort_fields (to_upper n) _)
    ∙ ap (λ (x : Record × Bool). value_or_empty (find (to_upper n) x.0.fields)) again

exported-Reads : (p : PendingQso) → IsReadable p → Reads p (exported (to_record p))
unfolding to_record to_upper equal lookup
exported-Reads p (printable, (v, known)) =
    let c = p.contact in
    let pair : normalize_mode_pair (get (raw c) (codes "MODE")) (get (raw c) (codes "SUBMODE"))
        ≡ some v =
      rw (get-raw c (codes "MODE"), get-raw c (codes "SUBMODE")) known in
    let read : (n : Bytes)
        → get (exported (to_record p)) n ≡ (
            if equal (to_upper (codes "SUBMODE")) (to_upper n)
            then v.submode
            else if equal (to_upper (codes "MODE")) (to_upper n)
            then v.mode
            else value_at (lookup (to_upper n) (rows_of c))) =
      λ n.
        get-exported p n known
        ∙ (canonicalize_record_mode_known (raw c) n pair).0
        ∙ rw (get-raw c n) refl in
    (
      (v, known, read (codes "MODE"), read (codes "SUBMODE")),
      read (codes "CALL"),
      read (codes "BAND"),
      rw (read (codes "QSO_DATE"), read (codes "TIME_ON"))
          (parse_adif_date_time-format c.datetime_on printable),
      read (codes "RST_SENT"),
      read (codes "RST_RCVD"),
      read (codes "GRIDSQUARE"),
      read (codes "MY_GRIDSQUARE"),
      read (codes "STATION_CALLSIGN"),
      rw (read (codes "FREQ")) (read_hz-printed c.frequency_hz),
    )

exported-AllRead :
    (ps : List PendingQso) → All IsReadable ps → AllRead ps (map exported (map to_record ps))
exported-AllRead [] h = tt
exported-AllRead (p ∷ ps) (h, hs) = (exported-Reads p h, exported-AllRead ps hs)

-- A batch of contacts that the import can read, at least one and fewer than 500,000, whose fields are
-- writable, is read back: ParseAll gives no error and a record for each contact in their order, in
-- which CALL and BAND are the contact's, MODE and SUBMODE the canonical pair of its mode, QSO_DATE and
-- TIME_ON the import's reading of the start of its minute, RST_SENT, RST_RCVD, GRIDSQUARE,
-- MY_GRIDSQUARE and STATION_CALLSIGN what it has, or empty, and the digits of FREQ its hertz, if it has a
-- frequency.
pub parse_all-AllRead :
    (decode : Bytes → Option Bytes) (p : PendingQso) (pending : List PendingQso)
    → length (map to_record (p ∷ pending)) < default_max_records
    → All (IsExportable default_max_field_len) (map to_record (p ∷ pending))
    → All IsReadable (p ∷ pending)
    → (recs : List Record) × (parse_all decode false (qsos_to_adif (p ∷ pending))
        ≡ some (record {
          header = some (to_header (header_fields none (codes "1.0.0")));
          records = recs;
          err = none;
        }))
      × AllRead (p ∷ pending) recs
parse_all-AllRead decode p pending l w h = (
  map exported (map to_record (p ∷ pending)),
  parse_all-qsos_to_adif decode p pending l w,
  exported-AllRead (p ∷ pending) h,
)
