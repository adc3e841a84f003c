-- ===== src/Import/Row/Columns.antt =====
-- api/internal/jobs/adif_import.go: the fields that mapADIFRecord maps to columns of their own. A
-- column goes by the name of its ADIF field.
use radioledger.Base.{
  ℕ, ◌^◌, Bool, true, false, Bytes, List, [], ◌∷◌, Option, none, some, if◌then◌else◌, ltb, ◌-◌,
}
use radioledger.Base.Int.{ℤ, pos, negsuc}
use radioledger.Base.Text.{codes, is_empty, to_upper, trim_space, split}
use radioledger.Base.Decimal.{parse_int64}
use radioledger.Adif.Record.{Record, get}
use radioledger.Import.Date.{parse_adif_date}

-- `knownMappedFields`.
abbrev pub known_mapped_fields : List Bytes
known_mapped_fields =
    codes "CALL"
    ∷ codes "BAND"
    ∷ codes "MODE"
    ∷ codes "SUBMODE"
    ∷ codes "FREQ"
    ∷ codes "FREQ_RX"
    ∷ codes "BAND_RX"
    ∷ codes "QSO_DATE"
    ∷ codes "TIME_ON"
    ∷ codes "QSO_DATE_OFF"
    ∷ codes "TIME_OFF"
    ∷ codes "RST_SENT"
    ∷ codes "RST_RCVD"
    ∷ codes "NAME"
    ∷ codes "QTH"
    ∷ codes "TX_PWR"
    ∷ codes "RX_PWR"
    ∷ codes "MY_ANTENNA"
    ∷ codes "MY_RIG"
    ∷ codes "ANTENNA"
    ∷ codes "GRIDSQUARE"
    ∷ codes "DXCC"
    ∷ codes "COUNTRY"
    ∷ codes "STATE"
    ∷ codes "COUNTY"
    ∷ codes "CQZ"
    ∷ codes "ITUZ"
    ∷ codes "CONT"
    ∷ codes "MY_GRIDSQUARE"
    ∷ codes "MY_CITY"
    ∷ codes "MY_STATE"
    ∷ codes "MY_COUNTRY"
    ∷ codes "MY_DXCC"
    ∷ codes "SFI"
    ∷ codes "A_INDEX"
    ∷ codes "K_INDEX"
    ∷ codes "PROP_MODE"
    ∷ codes "OPERATOR"
    ∷ codes "STATION_CALLSIGN"
    ∷ codes "CONTEST_ID"
    ∷ codes "SRX"
    ∷ codes "STX"
    ∷ codes "SRX_STRING"
    ∷ codes "STX_STRING"
    ∷ codes "SAT_NAME"
    ∷ codes "SAT_MODE"
    ∷ codes "SOTA_REF"
    ∷ codes "MY_SOTA_REF"
    ∷ codes "POTA_REF"
    ∷ codes "MY_POTA_REF"
    ∷ codes "WWFF_REF"
    ∷ codes "MY_WWFF_REF"
    ∷ codes "IOTA"
    ∷ codes "SIG"
    ∷ codes "SIG_INFO"
    ∷ codes "QSL_SENT"
    ∷ codes "QSL_SENT_VIA"
    ∷ codes "QSL_RCVD"
    ∷ codes "QSL_RCVD_VIA"
    ∷ codes "QSL_VIA"
    ∷ codes "QSLSDATE"
    ∷ codes "QSLRDATE"
    ∷ codes "LOTW_QSL_SENT"
    ∷ codes "LOTW_QSLSDATE"
    ∷ codes "LOTW_QSL_RCVD"
    ∷ codes "LOTW_QSLRDATE"
    ∷ codes "EQSL_QSL_SENT"
    ∷ codes "EQSL_QSLSDATE"
    ∷ codes "EQSL_QSL_RCVD"
    ∷ codes "EQSL_QSLRDATE"
    ∷ codes "COMMENT"
    ∷ codes "NOTES"
    ∷ []

-- The fields of the columns that hold an optional text, and whether the text is put in upper case.
abbrev pub text_fields : List (Bytes × Bool)
text_fields =
    (codes "NAME", false)
    ∷ (codes "QTH", false)
    ∷ (codes "RST_SENT", false)
    ∷ (codes "RST_RCVD", false)
    ∷ (codes "GRIDSQUARE", true)
    ∷ (codes "COUNTRY", false)
    ∷ (codes "STATE", false)
    ∷ (codes "COUNTY", false)
    ∷ (codes "CONT", true)
    ∷ (codes "MY_GRIDSQUARE", true)
    ∷ (codes "MY_CITY", false)
    ∷ (codes "MY_STATE", false)
    ∷ (codes "MY_COUNTRY", false)
    ∷ (codes "MY_ANTENNA", false)
    ∷ (codes "MY_RIG", false)
    ∷ (codes "OPERATOR", true)
    ∷ (codes "STATION_CALLSIGN", true)
    ∷ (codes "CONTEST_ID", false)
    ∷ (codes "SRX", false)
    ∷ (codes "STX", false)
    ∷ (codes "SRX_STRING", false)
    ∷ (codes "STX_STRING", false)
    ∷ (codes "SAT_NAME", false)
    ∷ (codes "SAT_MODE", false)
    ∷ (codes "PROP_MODE", false)
    ∷ (codes "SOTA_REF", false)
    ∷ (codes "MY_SOTA_REF", false)
    ∷ (codes "WWFF_REF", false)
    ∷ (codes "MY_WWFF_REF", false)
    ∷ (codes "IOTA", false)
    ∷ (codes "SIG", false)
    ∷ (codes "SIG_INFO", false)
    ∷ (codes "QSL_SENT", true)
    ∷ (codes "QSL_RCVD", true)
    ∷ (codes "QSL_VIA", true)
    ∷ (codes "LOTW_QSL_SENT", true)
    ∷ (codes "LOTW_QSL_RCVD", true)
    ∷ (codes "EQSL_QSL_SENT", true)
    ∷ (codes "EQSL_QSL_RCVD", true)
    ∷ (codes "COMMENT", false)
    ∷ (codes "NOTES", false)
    ∷ []

-- The fields of the columns that hold a number of 32 or of 16 bits, with the bits.
abbrev pub integer_fields : List (Bytes × ℕ)
integer_fields =
    (codes "DXCC", 32)
    ∷ (codes "MY_DXCC", 32)
    ∷ (codes "CQZ", 16)
    ∷ (codes "ITUZ", 16)
    ∷ (codes "SFI", 16)
    ∷ (codes "A_INDEX", 16)
    ∷ (codes "K_INDEX", 16)
    ∷ []

-- The fields of the columns that hold a date.
abbrev pub date_fields : List Bytes
date_fields =
    codes "QSLSDATE"
    ∷ codes "QSLRDATE"
    ∷ codes "LOTW_QSLSDATE"
    ∷ codes "LOTW_QSLRDATE"
    ∷ codes "EQSL_QSLSDATE"
    ∷ codes "EQSL_QSLRDATE"
    ∷ []

-- The fields of the columns that hold a list of references.
abbrev pub reference_fields : List Bytes
reference_fields = codes "POTA_REF" ∷ codes "MY_POTA_REF" ∷ []

-- Adds a row, if there is a value.
abbrev pub add_some {ℓ} : {A : Type ℓ} → Bytes → Option A → List (Bytes × A) → List (Bytes × A)
add_some name none rows = rows
add_some name (some v) rows = (name, v) ∷ rows

-- `optStr`.
unfoldable pub opt_str : Bytes → Option Bytes
opt_str s = if is_empty (trim_space s) then none else some (trim_space s)

unfoldable pub texts_of : Record → List (Bytes × Bool) → List (Bytes × Bytes)
unfolding opt_str
texts_of r [] = []
texts_of r ((name, upper) ∷ fields) =
    add_some name (opt_str (if upper then to_upper (get r name) else get r name))
      (texts_of r fields)

abbrev in_range : ℕ → ℤ → Option ℤ
in_range bits (pos n) = if ltb n (2 ^ (bits - 1)) then some (pos n) else none
in_range bits (negsuc n) = if ltb n (2 ^ (bits - 1)) then some (negsuc n) else none

abbrev bounded : ℕ → Option ℤ → Option ℤ
bounded bits none = none
bounded bits (some i) = in_range bits i

-- `strconv.ParseInt(s, 10, bits)`; an empty text is no number.
unfoldable pub parse_int : ℕ → Bytes → Option ℤ
parse_int bits s = bounded bits (parse_int64 s)

unfoldable pub integers_of : Record → List (Bytes × ℕ) → List (Bytes × ℤ)
unfolding parse_int
integers_of r [] = []
integers_of r ((name, bits) ∷ fields) =
    add_some name (parse_int bits (trim_space (get r name))) (integers_of r fields)

-- A date that is empty or that does not parse leaves the column nil.
unfoldable pub dates_of : Record → List Bytes → List (Bytes × ℕ)
dates_of r [] = []
dates_of r (name ∷ fields) =
    add_some name (parse_adif_date (trim_space (get r name))) (dates_of r fields)

-- The parts that are not empty, in upper case.
unfoldable pub references : List Bytes → List Bytes
references [] = []
references (part ∷ parts) =
    let rest = references parts in
    if is_empty (to_upper (trim_space part)) then rest else to_upper (trim_space part) ∷ rest

abbrev nil_if_empty : List Bytes → Option (List Bytes)
nil_if_empty [] = none
nil_if_empty (ref ∷ refs) = some (ref ∷ refs)

unfoldable pub parse_reference_list : Bytes → Option (List Bytes)
unfolding references
parse_reference_list raw =
    if is_empty (trim_space raw)
    then none
    else nil_if_empty (references (split b',' (trim_space raw)))

unfoldable pub references_of : Record → List Bytes → List (Bytes × List Bytes)
unfolding parse_reference_list
references_of r [] = []
references_of r (name ∷ fields) =
    add_some name (parse_reference_list (get r name)) (references_of r fields)
