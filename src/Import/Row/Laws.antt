-- ===== src/Import/Row/Laws.antt =====
-- api/internal/jobs/adif_import.go: the rows that mapADIFRecord makes.
use mathlib.Core.List.{Memᴰ}
use mathlib.Core.Path.{subst}
use radioledger.Base.{
  ℕ, ◌≡◌, ◌≤◌, ◌<◌, refl, true, false, Bytes, List, [], ◌∷◌, none, some, member, arith,
  Option-cases, inl, inr,
}
use radioledger.Base.Text.{codes, is_empty, trim_space, to_upper, to_upper_idem}
use radioledger.Adif.Record.{Field, Record}
use radioledger.Adif.Mode.{ModeValue, canonical_adif_modes, normalize_mode_pair}
use radioledger.Adif.Mode.Canonical.{normalize_mode_pair-stable}
use radioledger.Import.Date.{parse_adif_date_time}
use radioledger.Import.Date.Laws.{start_of, parse_adif_date_time_between}
use radioledger.Import.Row.{
  Floats, QsoRow, ImportWarning, map_adif_record, row_of, trimmed, collect_extra, band_of, trimmed,
  row_of,
}
use radioledger.Import.Row.Columns.{known_mapped_fields}
use radioledger.Import.Row.Extra.{HasRow, collect_extra_kept}

-- The submode of a row, empty if there is none.
abbrev pub submode_of : QsoRow → Bytes
submode_of row = elim row.submode [ none ↦ [] | some s ↦ s ]

-- A call sign in upper case, a band, a canonical pair of
-- mode and submode, and an instant between the years 1898 and 2110. The table of contacts asks for
-- more: lengths of the reports, ranges of the zones, the letters of the QSL columns.
abbrev pub IsImportable : QsoRow → Type 0
IsImportable row =
    (is_empty row.callsign ≡ false)
    × (to_upper row.callsign ≡ row.callsign)
    × (is_empty row.band ≡ false)
    × (member row.mode canonical_adif_modes ≡ true)
    × (normalize_mode_pair row.mode (submode_of row)
        ≡ some (record { mode = row.mode; submode = submode_of row }))
    × (start_of 1898 ≤ row.datetime_on)
    × (row.datetime_on < start_of 2110)

module _ (floats : Floats) where
  -- What the row of a record is made of.
  abbrev IsRowOf : Record → QsoRow → Type 0
  IsRowOf r row =
      (callsign : Bytes) × (on : ℕ) × (pair : ModeValue) × (mode submode : Bytes) × (is_empty
          (to_upper callsign)
        ≡ false)
      × (parse_adif_date_time (trimmed r (codes "QSO_DATE")) (trimmed r (codes "TIME_ON"))
          ≡ some on)
      × (is_empty (band_of floats r).0 ≡ false)
      × (normalize_mode_pair mode submode ≡ some pair)
      × (row_of floats r (to_upper callsign) on (band_of floats r).0 pair ≡ row)

  map_adif_record-IsRowOf :
      (r : Record) {row : QsoRow} {ws : List ImportWarning}
      → map_adif_record floats r ≡ inr (row, ws)
      → IsRowOf r row
  unfolding map_adif_record
  map_adif_record-IsRowOf r {row} {ws} h =
      let mode = to_upper (trimmed r (codes "MODE")) in
      let submode = to_upper (trimmed r (codes "SUBMODE")) in
      let read =
        parse_adif_date_time (trimmed r (codes "QSO_DATE")) (trimmed r (codes "TIME_ON")) in
      elim (Option-cases read) [
        | inl bad ↦ absurd (ground (arith, bad))
        | inr (on, when) ↦ elim (Option-cases (normalize_mode_pair mode submode)) [
          | inl bad ↦ absurd (ground (arith, when, bad))
          | inr (pair, known) ↦ (
            trimmed r (codes "CALL"),
            on,
            pair,
            mode,
            submode,
            ground (arith, when, known),
            when,
            ground (arith, when, known),
            known,
            ground (arith, when, known),
          )
        ]
      ]

  row_of-submode :
      (r : Record) (callsign : Bytes) (on : ℕ) (band mode submode : Bytes)
      → submode_of (row_of floats r callsign on band (record { mode = mode; submode = submode }))
        ≡ submode
  unfolding row_of
  row_of-submode r callsign on band mode [] = refl
  row_of-submode r callsign on band mode (c ∷ s) = refl

  row_of-extra :
      (r : Record) (callsign : Bytes) (on : ℕ) (band : Bytes) (pair : ModeValue)
      → (row_of floats r callsign on band pair).extra ≡ collect_extra r.fields []
  unfolding row_of
  row_of-extra r callsign on band pair = refl

  row_of-IsImportable :
      (r : Record) (callsign : Bytes) (on : ℕ) (band : Bytes) (pair : ModeValue)
      (mode submode : Bytes)
      → is_empty (to_upper callsign) ≡ false
      → parse_adif_date_time (trimmed r (codes "QSO_DATE")) (trimmed r (codes "TIME_ON")) ≡ some on
      → is_empty band ≡ false
      → normalize_mode_pair mode submode ≡ some pair
      → IsImportable (row_of floats r (to_upper callsign) on band pair)
  unfolding row_of
  row_of-IsImportable r callsign on band pair mode submode c d b n =
      let (known, stable) = normalize_mode_pair-stable mode submode n in
      let (low, high) = parse_adif_date_time_between _ _ d in
      (
        c,
        to_upper_idem callsign,
        b,
        known,
        rw (row_of-submode r (to_upper callsign) on band pair.mode pair.submode) stable,
        low,
        high,
      )

  -- The row of a record that mapADIFRecord accepts has a call sign that is not empty and in upper
  -- case, a band, a canonical pair of mode and submode that NormalizeModePair leaves as it is, and an
  -- instant between the years 1898 and 2110.
  pub map_adif_record-IsImportable :
      (r : Record) {row : QsoRow} {ws : List ImportWarning}
      → map_adif_record floats r ≡ inr (row, ws)
      → IsImportable row
  map_adif_record-IsImportable r h =
      let (callsign, on, pair, mode, submode, c, d, b, n, same) = map_adif_record-IsRowOf r h in
      subst IsImportable same
        (row_of-IsImportable r callsign on (band_of floats r).0 pair mode submode c d b n)

  -- No unknown field is lost: a field of a record that mapADIFRecord accepts, which is not empty and
  -- is not among the fields that the columns are for, is in the `Extra` of the row under its name.
  pub map_adif_record-HasRow :
      (r : Record) (f : Field) {row : QsoRow} {ws : List ImportWarning}
      → map_adif_record floats r ≡ inr (row, ws)
      → Memᴰ f r.fields
      → is_empty (trim_space f.value) ≡ false
      → member f.name known_mapped_fields ≡ false
      → HasRow f.name row.extra
  map_adif_record-HasRow r f h m filled unknown =
      let (callsign, on, pair, mode, submode, c, d, b, n, same) = map_adif_record-IsRowOf r h in
      subst (λ (x : QsoRow). HasRow f.name x.extra) same
        (rw (row_of-extra r (to_upper callsign) on (band_of floats r).0 pair)
          (collect_extra_kept r.fields f [] m filled unknown))
