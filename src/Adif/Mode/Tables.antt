-- ===== src/Adif/Mode/Tables.antt =====
-- pkg/adif/mode.go: the tables of the ADIF modes, submodes and aliases, rows in source order.
use radioledger.Base.{List, [], ◌∷◌, Bytes}
use radioledger.Base.Text.{codes}

-- A canonical MODE/SUBMODE pair.
pub record ModeValue : Type 0 where
  pub mode : Bytes
  pub submode : Bytes

-- The keys of the set `CanonicalADIFModes`.
unfoldable pub canonical_adif_modes : List Bytes
canonical_adif_modes =
    codes "AM"
    ∷ codes "ARDOP"
    ∷ codes "ATV"
    ∷ codes "CHIP"
    ∷ codes "CLO"
    ∷ codes "CONTESTI"
    ∷ codes "CW"
    ∷ codes "DIGITALVOICE"
    ∷ codes "DOMINO"
    ∷ codes "DYNAMIC"
    ∷ codes "FAX"
    ∷ codes "FM"
    ∷ codes "FSK"
    ∷ codes "FSK441"
    ∷ codes "FT8"
    ∷ codes "HELL"
    ∷ codes "ISCAT"
    ∷ codes "JT4"
    ∷ codes "JT6M"
    ∷ codes "JT9"
    ∷ codes "JT44"
    ∷ codes "JT65"
    ∷ codes "MFSK"
    ∷ codes "MSK144"
    ∷ codes "MT63"
    ∷ codes "MTONE"
    ∷ codes "OFDM"
    ∷ codes "OLIVIA"
    ∷ codes "OPERA"
    ∷ codes "PAC"
    ∷ codes "PAX"
    ∷ codes "PKT"
    ∷ codes "PSK"
    ∷ codes "PSK2K"
    ∷ codes "Q15"
    ∷ codes "QRA64"
    ∷ codes "ROS"
    ∷ codes "RTTY"
    ∷ codes "RTTYM"
    ∷ codes "SSB"
    ∷ codes "SSTV"
    ∷ codes "T10"
    ∷ codes "THOR"
    ∷ codes "THRB"
    ∷ codes "TOR"
    ∷ codes "V4"
    ∷ codes "VOI"
    ∷ codes "WINMOR"
    ∷ codes "WSPR"
    ∷ []

-- `CanonicalADIFSubmodes`: a submode and its mode.
unfoldable pub canonical_adif_submodes : List (Bytes × Bytes)
canonical_adif_submodes =
    (codes "USB", codes "SSB")
    ∷ (codes "LSB", codes "SSB")
    ∷ (codes "PCW", codes "CW")
    ∷ (codes "ASCI", codes "RTTY")
    ∷ (codes "C4FM", codes "DIGITALVOICE")
    ∷ (codes "DMR", codes "DIGITALVOICE")
    ∷ (codes "DSTAR", codes "DIGITALVOICE")
    ∷ (codes "FREEDV", codes "DIGITALVOICE")
    ∷ (codes "M17", codes "DIGITALVOICE")
    ∷ (codes "FREEDATA", codes "DYNAMIC")
    ∷ (codes "VARA HF", codes "DYNAMIC")
    ∷ (codes "VARA SATELLITE", codes "DYNAMIC")
    ∷ (codes "VARA FM 1200", codes "DYNAMIC")
    ∷ (codes "VARA FM 9600", codes "DYNAMIC")
    ∷ (codes "SCAMP_FAST", codes "FSK")
    ∷ (codes "SCAMP_SLOW", codes "FSK")
    ∷ (codes "SCAMP_VSLOW", codes "FSK")
    ∷ (codes "SCAMP_OO", codes "MTONE")
    ∷ (codes "SCAMP_OO_SLW", codes "MTONE")
    ∷ (codes "RIBBIT_PIX", codes "OFDM")
    ∷ (codes "RIBBIT_SMS", codes "OFDM")
    ∷ (codes "FSQCALL", codes "MFSK")
    ∷ (codes "FST4", codes "MFSK")
    ∷ (codes "FST4W", codes "MFSK")
    ∷ (codes "FT2", codes "MFSK")
    ∷ (codes "FT4", codes "MFSK")
    ∷ (codes "JS8", codes "MFSK")
    ∷ (codes "JTMS", codes "MFSK")
    ∷ (codes "MFSK4", codes "MFSK")
    ∷ (codes "MFSK8", codes "MFSK")
    ∷ (codes "MFSK11", codes "MFSK")
    ∷ (codes "MFSK16", codes "MFSK")
    ∷ (codes "MFSK22", codes "MFSK")
    ∷ (codes "MFSK31", codes "MFSK")
    ∷ (codes "MFSK32", codes "MFSK")
    ∷ (codes "MFSK64", codes "MFSK")
    ∷ (codes "MFSK64L", codes "MFSK")
    ∷ (codes "MFSK128", codes "MFSK")
    ∷ (codes "MFSK128L", codes "MFSK")
    ∷ (codes "Q65", codes "MFSK")
    ∷ (codes "PSK31", codes "PSK")
    ∷ (codes "PSK63", codes "PSK")
    ∷ []

abbrev alias : Bytes → Bytes → Bytes → Bytes × ModeValue
alias name mode submode = (name, record { mode = mode; submode = submode })

-- The literal of `buildModeAliases`.
unfoldable pub explicit_aliases : List (Bytes × ModeValue)
explicit_aliases =
    alias (codes "AMTORFEC") (codes "TOR") (codes "AMTORFEC")
    ∷ alias (codes "ASCI") (codes "RTTY") (codes "ASCI")
    ∷ alias (codes "C4FM") (codes "DIGITALVOICE") (codes "C4FM")
    ∷ alias (codes "CHIP64") (codes "CHIP") (codes "CHIP64")
    ∷ alias (codes "CHIP128") (codes "CHIP") (codes "CHIP128")
    ∷ alias (codes "DOMINOF") (codes "DOMINO") (codes "DOMINOF")
    ∷ alias (codes "DSTAR") (codes "DIGITALVOICE") (codes "DSTAR")
    ∷ alias (codes "FMHELL") (codes "HELL") (codes "FMHELL")
    ∷ alias (codes "FSK31") (codes "PSK") (codes "FSK31")
    ∷ alias (codes "GTOR") (codes "TOR") (codes "GTOR")
    ∷ alias (codes "HELL80") (codes "HELL") (codes "HELL80")
    ∷ alias (codes "HFSK") (codes "HELL") (codes "HFSK")
    ∷ alias (codes "JT4A") (codes "JT4") (codes "JT4A")
    ∷ alias (codes "JT4B") (codes "JT4") (codes "JT4B")
    ∷ alias (codes "JT4C") (codes "JT4") (codes "JT4C")
    ∷ alias (codes "JT4D") (codes "JT4") (codes "JT4D")
    ∷ alias (codes "JT4E") (codes "JT4") (codes "JT4E")
    ∷ alias (codes "JT4F") (codes "JT4") (codes "JT4F")
    ∷ alias (codes "JT4G") (codes "JT4") (codes "JT4G")
    ∷ alias (codes "JT65A") (codes "JT65") (codes "JT65A")
    ∷ alias (codes "JT65B") (codes "JT65") (codes "JT65B")
    ∷ alias (codes "JT65C") (codes "JT65") (codes "JT65C")
    ∷ alias (codes "MFSK8") (codes "MFSK") (codes "MFSK8")
    ∷ alias (codes "MFSK16") (codes "MFSK") (codes "MFSK16")
    ∷ alias (codes "PAC2") (codes "PAC") (codes "PAC2")
    ∷ alias (codes "PAC3") (codes "PAC") (codes "PAC3")
    ∷ alias (codes "PAX2") (codes "PAX") (codes "PAX2")
    ∷ alias (codes "PCW") (codes "CW") (codes "PCW")
    ∷ alias (codes "PSK10") (codes "PSK") (codes "PSK10")
    ∷ alias (codes "PSK31") (codes "PSK") (codes "PSK31")
    ∷ alias (codes "PSK63") (codes "PSK") (codes "PSK63")
    ∷ alias (codes "PSK63F") (codes "PSK") (codes "PSK63F")
    ∷ alias (codes "PSK125") (codes "PSK") (codes "PSK125")
    ∷ alias (codes "PSKAM10") (codes "PSK") (codes "PSKAM10")
    ∷ alias (codes "PSKAM31") (codes "PSK") (codes "PSKAM31")
    ∷ alias (codes "PSKAM50") (codes "PSK") (codes "PSKAM50")
    ∷ alias (codes "PSKFEC31") (codes "PSK") (codes "PSKFEC31")
    ∷ alias (codes "PSKHELL") (codes "HELL") (codes "PSKHELL")
    ∷ alias (codes "QPSK31") (codes "PSK") (codes "QPSK31")
    ∷ alias (codes "QPSK63") (codes "PSK") (codes "QPSK63")
    ∷ alias (codes "QPSK125") (codes "PSK") (codes "QPSK125")
    ∷ alias (codes "THRBX") (codes "THRB") (codes "THRBX")
    ∷ alias (codes "DMR") (codes "DIGITALVOICE") (codes "DMR")
    ∷ alias (codes "FREEDATA") (codes "DYNAMIC") (codes "FREEDATA")
    ∷ alias (codes "FREEDV") (codes "DIGITALVOICE") (codes "FREEDV")
    ∷ alias (codes "FT2") (codes "MFSK") (codes "FT2")
    ∷ alias (codes "FT4") (codes "MFSK") (codes "FT4")
    ∷ alias (codes "JS8") (codes "MFSK") (codes "JS8")
    ∷ alias (codes "LSB") (codes "SSB") (codes "LSB")
    ∷ alias (codes "M17") (codes "DIGITALVOICE") (codes "M17")
    ∷ alias (codes "PACKET") (codes "PKT") []
    ∷ alias (codes "Q65") (codes "MFSK") (codes "Q65")
    ∷ alias (codes "USB") (codes "SSB") (codes "USB")
    ∷ alias (codes "VARA") (codes "DYNAMIC") (codes "VARA HF")
    ∷ alias (codes "VARAFH") (codes "DYNAMIC") (codes "VARA HF")
    ∷ alias (codes "VARAHF") (codes "DYNAMIC") (codes "VARA HF")
    ∷ alias (codes "VARAFM1200") (codes "DYNAMIC") (codes "VARA FM 1200")
    ∷ alias (codes "VARAFM9600") (codes "DYNAMIC") (codes "VARA FM 9600")
    ∷ alias (codes "VARASAT") (codes "DYNAMIC") (codes "VARA SATELLITE")
    ∷ alias (codes "VARASATELLITE") (codes "DYNAMIC") (codes "VARA SATELLITE")
    ∷ []
