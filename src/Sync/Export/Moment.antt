-- ===== src/Sync/Export/Moment.antt =====
-- qsosToADIF of api/internal/services/sync/orchestrator.go beside the import of
-- api/internal/jobs/adif_import.go: an instant in print.
use radioledger.Base.{ℕ, ◌<◌, ◌≤◌, ◌≡◌, refl, some, all, arith}
use radioledger.Base.Int.{pos}
use radioledger.Base.Text.{trim_space, is_digit, is_space}
use radioledger.Base.Text.Trim.{trim_space-solid}
use radioledger.Base.Decimal.{parse_int64, magnitude, value_from, positive, atoi_or_zero}
use radioledger.Sync.Status.{Instant}
use radioledger.Sync.Export.{two_digits, four_digits, format_date, format_time}
use radioledger.Import.Date.{
  parse_adif_date_time, date, clock, plausible, is_zero_time, days_before_year,
}
use radioledger.Import.Date.Laws.{date_between}

parse_int64-two_digits : (n : ℕ) → n < 100 → parse_int64 (two_digits n) ≡ some (pos n)
unfolding parse_int64 magnitude value_from positive is_digit
parse_int64-two_digits n h = ground arith

parse_int64-four_digits : (n : ℕ) → n < 10000 → parse_int64 (four_digits n) ≡ some (pos n)
unfolding parse_int64 magnitude value_from positive is_digit
parse_int64-four_digits n h = ground arith

-- Each part of the instant has its two or four digits, and the import takes the year.
pub record IsPrintable (at : Instant) : Type 0 where
  pub year_from : 1900 ≤ at.year
  pub year_to : at.year ≤ 2100
  pub month_fits : at.month < 100
  pub day_fits : at.day < 100
  pub hour_fits : at.hour < 100
  pub minute_fits : at.minute < 100

format_date-trimmed : (at : Instant) → trim_space (format_date at) ≡ format_date at
format_date-trimmed at = trim_space-solid (format_date at) (unfold all is_space in ground arith)

format_time-trimmed : (at : Instant) → trim_space (format_time at) ≡ format_time at
format_time-trimmed at = trim_space-solid (format_time at) (unfold all is_space in ground arith)

-- The start of the minute of the instant, in seconds.
abbrev pub start_of_minute : Instant → ℕ
start_of_minute at = date at.year (pos at.month) (pos at.day) (pos at.hour) (pos at.minute) (pos 0)

clock-format_time :
    (at : Instant) → IsPrintable at → clock (format_time at) ≡ (pos at.hour, pos at.minute, pos 0)
unfolding clock atoi_or_zero
clock-format_time at h =
    rw (parse_int64-two_digits at.hour h.hour_fits, parse_int64-two_digits at.minute h.minute_fits)
      refl

plausible-start_of_minute :
    (at : Instant)
    → IsPrintable at
    → plausible (pos at.year) (pos at.month) (pos at.day) (pos at.hour, pos at.minute, pos 0)
      ≡ some (start_of_minute at)
unfolding is_zero_time days_before_year
plausible-start_of_minute at h =
    let bounds =
      date_between at.year (pos at.month) (pos at.day) (pos at.hour) (pos at.minute) (pos 0)
        h.year_from h.year_to (omega (arith, h.month_fits)) (omega (arith, h.day_fits))
        (omega (arith, h.hour_fits)) (omega (arith, h.minute_fits)) (omega arith) in
    ground (arith, bounds.0, h.year_from, h.year_to)

pub parse_adif_date_time-format :
    (at : Instant)
    → IsPrintable at
    → parse_adif_date_time (format_date at) (format_time at) ≡ some (start_of_minute at)
unfolding parse_adif_date_time
parse_adif_date_time-format at h =
    rw
      (
        format_date-trimmed at,
        format_time-trimmed at,
        clock-format_time at h,
        parse_int64-four_digits at.year (omega (arith, h.year_to)),
        parse_int64-two_digits at.month h.month_fits,
        parse_int64-two_digits at.day h.day_fits,
      )
      (plausible-start_of_minute at h)
