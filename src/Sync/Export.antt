-- ===== src/Sync/Export.antt =====
-- api/internal/services/sync/orchestrator.go: qsosToADIF, with the writer of pkg/adif. A frequency
-- of less than 4 * 10 ^ 15 Hz is exact in the floats that the source computes with; the model is of
-- such frequencies.
pub mod Laws
pub mod Moment
pub mod Frequency
pub mod Reads
mod Examples
use radioledger.Base.{
  ℕ, ◌+◌, ◌*◌, ◌/◌, ◌%◌, true, Bytes, List, [], ◌∷◌, ◌++◌, Option, none, some, map,
}
use radioledger.Base.Text.{codes}
use radioledger.Base.Decimal.{decimal}
use radioledger.Adif.Record.{Field, Record}
use radioledger.Adif.Mode.{canonicalize_record_mode}
use radioledger.Adif.Writer.{
  Writer, WriterOptions, named, new_writer_with_options, write_record, write_records,
}
use radioledger.Sync.Status.{Instant, Contact, PendingQso}

abbrev pub two_digits : ℕ → Bytes
two_digits n = (b'0' + n / 10 % 10) ∷ (b'0' + n % 10) ∷ []

abbrev pub four_digits : ℕ → Bytes
four_digits n = two_digits (n / 100) ++ two_digits n

-- Format("20060102") and Format("1504").
abbrev pub format_date : Instant → Bytes
format_date at = four_digits at.year ++ (two_digits at.month ++ two_digits at.day)

abbrev pub format_time : Instant → Bytes
format_time at = two_digits at.hour ++ two_digits at.minute

-- `%.6f` of the megahertz.
unfoldable pub format_mhz : ℕ → Bytes
format_mhz hz = decimal (hz / 1_000_000) ++ (b'.' ∷ (two_digits (hz / 10_000) ++ four_digits hz))

abbrev pub optional : Bytes → Option Bytes → List Field
optional name none = []
optional name (some value) = named name value ∷ []

abbrev pub frequency : Option ℕ → List Field
frequency none = []
frequency (some hz) = named (codes "FREQ") (format_mhz hz) ∷ []

unfoldable pub fields_of : Contact → List Field
unfolding format_mhz
fields_of c =
    (named (codes "CALL") c.callsign
      ∷ named (codes "BAND") c.band
      ∷ named (codes "MODE") c.mode
      ∷ named (codes "QSO_DATE") (format_date c.datetime_on)
      ∷ named (codes "TIME_ON") (format_time c.datetime_on)
      ∷ [])
    ++ (optional (codes "RST_SENT") c.rst_sent
        ++ (optional (codes "RST_RCVD") c.rst_rcvd
            ++ (optional (codes "GRIDSQUARE") c.gridsquare
                ++ (optional (codes "MY_GRIDSQUARE") c.my_gridsquare
                    ++ (optional (codes "STATION_CALLSIGN") c.station_callsign
                        ++ frequency c.frequency_hz)))))

unfoldable pub to_record : PendingQso → Record
unfolding canonicalize_record_mode fields_of
to_record p = (canonicalize_record_mode (record { fields = fields_of p.contact })).0

abbrev pub default_options : WriterOptions
default_options = record {
  program_version = codes "1.0.0";
  fields_per_line = 0;
  include_header = true;
}

-- A write to a bytes.Buffer does not fail.
unfoldable pub write_pending : Writer → List PendingQso → Writer
write_pending w [] = w
write_pending w (p ∷ pending) = write_pending (write_record w (to_record p)) pending

unfoldable pub qsos_to_adif : List PendingQso → Bytes
unfolding write_pending new_writer_with_options
qsos_to_adif pending = (write_pending (new_writer_with_options default_options) pending).out
