-- ===== src/Import/Row.antt =====
-- api/internal/jobs/adif_import.go: mapADIFRecord. The columns of a `qsoRow` that hold an optional
-- text, number, date or list are tables from the column to its value, and a column that is nil has no
-- row. Numbers in decimal notation with a fraction are left to three functions, as the source
-- computes with floats: parseMHzToHz, inferBandFromFreq, and ParseFloat for the powers. The texts of
-- messages are left out.
pub mod Columns
pub mod Laws
pub mod Extra
use mathlib.Core.Option
use radioledger.Base.{
  ℕ, zero, suc, Bool, true, false, not, ◌&&◌, ◌||◌, Bytes, List, [], ◌∷◌, ◌++◌, Option, none, some,
  ◌⊎◌, inl, inr, if◌then◌else◌, put, member, map, equal, take,
}
use radioledger.Base.Int.{ℤ}
use radioledger.Base.Text.{codes, is_empty, to_lower, to_upper, trim_space, split}
use radioledger.Adif.Record.{Field, Record, get}
use radioledger.Adif.Mode.{ModeValue, normalize_mode_pair}
use radioledger.Import.Date.{parse_adif_date_time}
use radioledger.Import.Row.Columns.{
  known_mapped_fields, texts_of, integers_of, dates_of, references_of, text_fields, integer_fields,
  add_some, date_fields, reference_fields,
}

-- A `mapError` by its code, with its field, and an `importWarning`.
pub record MapError : Type 0 where
  pub code : Bytes
  pub field : Bytes

pub record ImportWarning : Type 0 where
  pub field : Bytes
  pub code : Bytes

-- What the source computes with floats. A power is kept as the text that was read.
pub record Floats : Type 0 where
  pub parse_mhz_to_hz : Bytes → Option ℕ
  pub infer_band_from_freq : Bytes → Bytes
  pub is_float : Bytes → Bool

pub record QsoRow : Type 0 where
  pub callsign : Bytes
  pub band : Bytes
  pub mode : Bytes
  pub submode : Option Bytes
  pub frequency_hz : Option ℕ
  pub freq_rx_hz : Option ℕ
  pub datetime_on : ℕ
  pub datetime_off : Option ℕ
  pub time_source : Bytes
  pub texts : List (Bytes × Bytes)
  pub integers : List (Bytes × ℤ)
  pub powers : List (Bytes × Bytes)
  pub dates : List (Bytes × ℕ)
  pub references : List (Bytes × List Bytes)
  pub extra : List (Bytes × Bytes)
  pub source : Bytes

unfoldable pub trimmed : Record → Bytes → Bytes
trimmed r name = trim_space (get r name)

unfoldable pub has_app_prefix : Bytes → Bool
has_app_prefix name = equal (take 4 name) (codes "APP_")

-- A turn of the loop that fills `Extra`, and the loop.
unfoldable pub add_extra : Field → List (Bytes × Bytes) → List (Bytes × Bytes)
unfolding has_app_prefix
add_extra f extra =
    if is_empty (trim_space f.value)
    then extra
    else if has_app_prefix f.name
    then put f.name (trim_space f.value) extra
    else if not (member f.name known_mapped_fields)
    then put f.name (trim_space f.value) extra
    else extra

unfoldable pub collect_extra : List Field → List (Bytes × Bytes) → List (Bytes × Bytes)
unfolding add_extra
collect_extra [] extra = extra
collect_extra (f ∷ fs) extra = collect_extra fs (add_extra f extra)

abbrev pub mapped_error : Bytes → Bytes → MapError ⊎ (QsoRow × List ImportWarning)
mapped_error code field = inl (record { code = code; field = field })

module _ (floats : Floats) where
  -- The band that is given, or the one inferred from FREQ; and whether it was inferred.
  unfoldable pub band_of : Record → Bytes × Bool
  unfolding trimmed
  band_of r =
      let given = to_lower (trimmed r (codes "BAND")) in
      let freq = trimmed r (codes "FREQ") in
      if not (is_empty given)
      then (given, false)
      else if is_empty freq
      then ([], false)
      else (floats.infer_band_from_freq freq, not (is_empty (floats.infer_band_from_freq freq)))

  unfoldable pub frequency : Record → Bytes → Option ℕ
  unfolding trimmed
  frequency r name =
      if is_empty (trimmed r name) then none else floats.parse_mhz_to_hz (trimmed r name)

  abbrev power : Record → Bytes → Option Bytes
  power r name =
      if is_empty (trimmed r name)
      then none
      else if floats.is_float (trimmed r name)
      then some (trimmed r name)
      else none

  abbrev warn_if : Bool → Bytes → Bytes → List ImportWarning
  warn_if b field code = if b then record { field = field; code = code } ∷ [] else []

  abbrev is_none : Option ℕ → Bool
  is_none none = true
  is_none (some n) = false

  unfoldable pub warnings_of : Record → Bool → List ImportWarning
  unfolding trimmed frequency
  warnings_of r inferred =
      warn_if inferred (codes "BAND") (codes "BAND_INFERRED")
      ++ warn_if (not (is_empty (trimmed r (codes "FREQ"))) && is_none (frequency r (codes "FREQ")))
          (codes "FREQ") (codes "INVALID_FREQ")

  unfoldable pub datetime_off : Record → Option ℕ
  unfolding trimmed
  datetime_off r =
      if is_empty (trimmed r (codes "QSO_DATE_OFF"))
      then none
      else parse_adif_date_time (trimmed r (codes "QSO_DATE_OFF")) (trimmed r (codes "TIME_OFF"))

  abbrev some_if_filled : Bytes → Option Bytes
  some_if_filled s = if is_empty s then none else some s

  -- The row of a record that has all that is required.
  unfoldable pub row_of : Record → Bytes → ℕ → Bytes → ModeValue → QsoRow
  unfolding frequency datetime_off texts_of integers_of dates_of references_of collect_extra
  row_of r callsign on band pair = record {
    callsign = callsign;
    band = band;
    mode = pair.mode;
    submode = some_if_filled pair.submode;
    frequency_hz = frequency r (codes "FREQ");
    freq_rx_hz = frequency r (codes "FREQ_RX");
    datetime_on = on;
    datetime_off = datetime_off r;
    time_source = codes "assumed_utc";
    texts = texts_of r text_fields;
    integers = integers_of r integer_fields;
    powers =
        add_some (codes "TX_PWR") (power r (codes "TX_PWR"))
          (add_some (codes "RX_PWR") (power r (codes "RX_PWR")) []);
    dates = dates_of r date_fields;
    references = references_of r reference_fields;
    extra = collect_extra r.fields [];
    source = codes "adif_import";
  }

  abbrev pub on_pair :
      Record
      → Bytes
      → ℕ
      → Bytes × Bool
      → Bytes
      → Option ModeValue
      → MapError ⊎ (QsoRow × List ImportWarning)
  on_pair r callsign on band submode (some pair) =
      inr (row_of r callsign on band.0 pair, warnings_of r band.1)
  on_pair r callsign on band submode none =
      mapped_error (if is_empty submode then codes "INVALID_MODE" else codes "INVALID_MODE_SUBMODE")
        (codes "MODE")

  abbrev pub on_date : Record → Bytes → Option ℕ → MapError ⊎ (QsoRow × List ImportWarning)
  on_date r callsign none = mapped_error (codes "INVALID_DATE") (codes "QSO_DATE")
  on_date r callsign (some on) =
      let band = band_of r in
      let mode = to_upper (trimmed r (codes "MODE")) in
      let submode = to_upper (trimmed r (codes "SUBMODE")) in
      if is_empty band.0
      then mapped_error (codes "MISSING_BAND") (codes "BAND")
      else if is_empty mode
      then mapped_error (codes "MISSING_MODE") (codes "MODE")
      else on_pair r callsign on band submode (normalize_mode_pair mode submode)

  unfoldable pub map_adif_record : Record → MapError ⊎ (QsoRow × List ImportWarning)
  unfolding trimmed band_of row_of warnings_of
  map_adif_record r =
      let callsign = to_upper (trimmed r (codes "CALL")) in
      let date = trimmed r (codes "QSO_DATE") in
      if is_empty callsign
      then mapped_error (codes "MISSING_CALLSIGN") (codes "CALL")
      else if is_empty date
      then mapped_error (codes "MISSING_DATE") (codes "QSO_DATE")
      else on_date r callsign (parse_adif_date_time date (trimmed r (codes "TIME_ON")))
