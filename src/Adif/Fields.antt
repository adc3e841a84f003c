-- ===== src/Adif/Fields.antt =====
-- pkg/adif/fields.go: the catalogue of known fields, the export order and the amateur bands.
use radioledger.Base.{
  ℕ, Bool, true, false, ◌&&◌, List, [], ◌∷◌, Option, none, some, Bytes, length, take, ltb, equal,
  lookup, if◌then◌else◌,
}
use radioledger.Base.Text.{codes}

-- `CanonicalFieldOrder`.
unfoldable pub canonical_field_order : List Bytes
canonical_field_order =
    codes "CALL"
    ∷ codes "QSO_DATE"
    ∷ codes "TIME_ON"
    ∷ codes "TIME_OFF"
    ∷ codes "QSO_DATE_OFF"
    ∷ codes "BAND"
    ∷ codes "MODE"
    ∷ codes "SUBMODE"
    ∷ codes "FREQ"
    ∷ codes "FREQ_RX"
    ∷ codes "BAND_RX"
    ∷ codes "RST_SENT"
    ∷ codes "RST_RCVD"
    ∷ codes "NAME"
    ∷ codes "QTH"
    ∷ codes "GRIDSQUARE"
    ∷ codes "DXCC"
    ∷ codes "COUNTRY"
    ∷ codes "STATE"
    ∷ codes "COUNTY"
    ∷ codes "CQZ"
    ∷ codes "ITUZ"
    ∷ codes "CONT"
    ∷ codes "LAT"
    ∷ codes "LON"
    ∷ codes "MY_GRIDSQUARE"
    ∷ codes "MY_CITY"
    ∷ codes "MY_STATE"
    ∷ codes "MY_COUNTRY"
    ∷ codes "MY_DXCC"
    ∷ codes "MY_CQ_ZONE"
    ∷ codes "MY_ITU_ZONE"
    ∷ codes "MY_LAT"
    ∷ codes "MY_LON"
    ∷ codes "TX_PWR"
    ∷ codes "RX_PWR"
    ∷ codes "MY_ANTENNA"
    ∷ codes "MY_RIG"
    ∷ codes "OPERATOR"
    ∷ codes "STATION_CALLSIGN"
    ∷ codes "OWNER_CALLSIGN"
    ∷ codes "PROP_MODE"
    ∷ codes "SFI"
    ∷ codes "A_INDEX"
    ∷ codes "K_INDEX"
    ∷ codes "CONTEST_ID"
    ∷ codes "SRX"
    ∷ codes "STX"
    ∷ codes "SRX_STRING"
    ∷ codes "STX_STRING"
    ∷ codes "SOTA_REF"
    ∷ codes "MY_SOTA_REF"
    ∷ codes "POTA_REF"
    ∷ codes "MY_POTA_REF"
    ∷ codes "WWFF_REF"
    ∷ codes "MY_WWFF_REF"
    ∷ codes "IOTA"
    ∷ codes "SIG"
    ∷ codes "SIG_INFO"
    ∷ codes "SAT_NAME"
    ∷ codes "SAT_MODE"
    ∷ codes "QSL_SENT"
    ∷ codes "QSL_SENT_VIA"
    ∷ codes "QSL_RCVD"
    ∷ codes "QSL_RCVD_VIA"
    ∷ codes "QSL_VIA"
    ∷ codes "QSLSDATE"
    ∷ codes "QSLRDATE"
    ∷ codes "LOTW_QSL_SENT"
    ∷ codes "LOTW_QSLSDATE"
    ∷ codes "LOTW_QSL_RCVD"
    ∷ codes "LOTW_QSLRDATE"
    ∷ codes "EQSL_QSL_SENT"
    ∷ codes "EQSL_QSLSDATE"
    ∷ codes "EQSL_QSL_RCVD"
    ∷ codes "EQSL_QSLRDATE"
    ∷ codes "COMMENT"
    ∷ codes "NOTES"
    ∷ []

-- `KnownFields` with the data types; the descriptions are left out.
unfoldable pub known_fields : List (Bytes × ℕ)
known_fields =
    (codes "CALL", b'S')
    ∷ (codes "BAND", b'E')
    ∷ (codes "BAND_RX", b'E')
    ∷ (codes "MODE", b'E')
    ∷ (codes "SUBMODE", b'S')
    ∷ (codes "FREQ", b'N')
    ∷ (codes "FREQ_RX", b'N')
    ∷ (codes "QSO_DATE", b'D')
    ∷ (codes "QSO_DATE_OFF", b'D')
    ∷ (codes "TIME_ON", b'T')
    ∷ (codes "TIME_OFF", b'T')
    ∷ (codes "RST_SENT", b'S')
    ∷ (codes "RST_RCVD", b'S')
    ∷ (codes "NAME", b'S')
    ∷ (codes "QTH", b'S')
    ∷ (codes "COMMENT", b'S')
    ∷ (codes "NOTES", b'S')
    ∷ (codes "TX_PWR", b'N')
    ∷ (codes "RX_PWR", b'N')
    ∷ (codes "ANTENNA", b'S')
    ∷ (codes "MY_ANTENNA", b'S')
    ∷ (codes "MY_RIG", b'S')
    ∷ (codes "GRIDSQUARE", b'G')
    ∷ (codes "DXCC", b'I')
    ∷ (codes "COUNTRY", b'S')
    ∷ (codes "STATE", b'E')
    ∷ (codes "COUNTY", b'S')
    ∷ (codes "CQZ", b'I')
    ∷ (codes "ITUZ", b'I')
    ∷ (codes "CONT", b'E')
    ∷ (codes "LAT", b'L')
    ∷ (codes "LON", b'L')
    ∷ (codes "MY_GRIDSQUARE", b'G')
    ∷ (codes "MY_CITY", b'S')
    ∷ (codes "MY_STATE", b'E')
    ∷ (codes "MY_COUNTRY", b'S')
    ∷ (codes "MY_DXCC", b'I')
    ∷ (codes "MY_CQ_ZONE", b'I')
    ∷ (codes "MY_ITU_ZONE", b'I')
    ∷ (codes "MY_LAT", b'L')
    ∷ (codes "MY_LON", b'L')
    ∷ (codes "SFI", b'I')
    ∷ (codes "A_INDEX", b'I')
    ∷ (codes "K_INDEX", b'I')
    ∷ (codes "PROP_MODE", b'E')
    ∷ (codes "OPERATOR", b'S')
    ∷ (codes "STATION_CALLSIGN", b'S')
    ∷ (codes "OWNER_CALLSIGN", b'S')
    ∷ (codes "CONTEST_ID", b'S')
    ∷ (codes "SRX", b'I')
    ∷ (codes "STX", b'I')
    ∷ (codes "SRX_STRING", b'S')
    ∷ (codes "STX_STRING", b'S')
    ∷ (codes "SAT_NAME", b'S')
    ∷ (codes "SAT_MODE", b'S')
    ∷ (codes "SOTA_REF", b'S')
    ∷ (codes "MY_SOTA_REF", b'S')
    ∷ (codes "POTA_REF", b'S')
    ∷ (codes "MY_POTA_REF", b'S')
    ∷ (codes "WWFF_REF", b'S')
    ∷ (codes "MY_WWFF_REF", b'S')
    ∷ (codes "IOTA", b'I')
    ∷ (codes "SIG", b'S')
    ∷ (codes "SIG_INFO", b'S')
    ∷ (codes "QSL_SENT", b'E')
    ∷ (codes "QSL_SENT_VIA", b'E')
    ∷ (codes "QSL_RCVD", b'E')
    ∷ (codes "QSL_RCVD_VIA", b'E')
    ∷ (codes "QSL_VIA", b'S')
    ∷ (codes "QSLSDATE", b'D')
    ∷ (codes "QSLRDATE", b'D')
    ∷ (codes "LOTW_QSL_SENT", b'E')
    ∷ (codes "LOTW_QSLSDATE", b'D')
    ∷ (codes "LOTW_QSL_RCVD", b'E')
    ∷ (codes "LOTW_QSLRDATE", b'D')
    ∷ (codes "EQSL_QSL_SENT", b'E')
    ∷ (codes "EQSL_QSLSDATE", b'D')
    ∷ (codes "EQSL_QSL_RCVD", b'E')
    ∷ (codes "EQSL_QSLRDATE", b'D')
    ∷ []

-- `KnownBands`: a name and its limits, in units of 100 Hz, in which all of them are whole.
pub record BandDef : Type 0 where
  pub lower : ℕ
  pub upper : ℕ

abbrev band : Bytes → ℕ → ℕ → Bytes × BandDef
band name lower upper = (name, record { lower = lower; upper = upper })

unfoldable pub known_bands : List (Bytes × BandDef)
known_bands =
    band (codes "2190m") 1357 1378
    ∷ band (codes "630m") 4720 4790
    ∷ band (codes "560m") 5010 5040
    ∷ band (codes "160m") 18000 20000
    ∷ band (codes "80m") 35000 40000
    ∷ band (codes "60m") 50600 54500
    ∷ band (codes "40m") 70000 73000
    ∷ band (codes "30m") 101000 101500
    ∷ band (codes "20m") 140000 143500
    ∷ band (codes "17m") 180680 181680
    ∷ band (codes "15m") 210000 214500
    ∷ band (codes "12m") 248900 249900
    ∷ band (codes "10m") 280000 297000
    ∷ band (codes "8m") 400000 450000
    ∷ band (codes "6m") 500000 540000
    ∷ band (codes "5m") 540000 699000
    ∷ band (codes "4m") 700000 710000
    ∷ band (codes "2m") 1440000 1480000
    ∷ band (codes "1.25m") 2220000 2250000
    ∷ band (codes "70cm") 4200000 4500000
    ∷ band (codes "33cm") 9020000 9280000
    ∷ band (codes "23cm") 12400000 13000000
    ∷ band (codes "13cm") 23000000 24500000
    ∷ band (codes "9cm") 33000000 35000000
    ∷ band (codes "6cm") 56500000 59250000
    ∷ band (codes "3cm") 100000000 105000000
    ∷ band (codes "1.25cm") 240000000 240500000
    ∷ band (codes "6mm") 470000000 472000000
    ∷ band (codes "4mm") 755000000 810000000
    ∷ band (codes "2.5mm") 1199800000 1200200000
    ∷ band (codes "2mm") 1420000000 1490000000
    ∷ band (codes "1mm") 2410000000 2500000000
    ∷ band (codes "submm") 3000000000 75000000000
    ∷ []

abbrev found {ℓ} : {A : Type ℓ} → Option A → Bool
found none = false
found (some _) = true

unfoldable pub is_known_field : Bytes → Bool
unfolding equal lookup known_fields
is_known_field name =
    if ltb 4 (length name) && equal (take 4 name) (codes "APP_")
    then true
    else found (lookup name known_fields)
