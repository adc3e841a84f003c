-- ===== src/Import/Date.antt =====
-- api/internal/jobs/adif_import.go: parseADIFDateTime and parseADIFDate. An instant is a count of
-- seconds from the start of the year 0 of the Gregorian calendar, in UTC.
pub mod Laws
use mathlib.Core.Option
use radioledger.Base.{
  ℕ, zero, suc, ◌+◌, ◌-◌, ◌*◌, ◌/◌, ◌%◌, Bool, true, false, ◌||◌, not, ◌&&◌, Bytes, List, [], ◌∷◌,
  Option, none, some, ltb, leb, ◌==◌, if◌then◌else◌, length, take, drop,
}
use radioledger.Base.Int.{ℤ, pos, negsuc}
use radioledger.Base.Text.{is_empty, trim_space}
use radioledger.Base.Decimal.{parse_int64, slice, atoi_or_zero}

-- `n + i` and `n + k * i`, where this is not negative.
unfoldable pub plus_int : ℕ → ℤ → ℕ
plus_int n (pos i) = n + i
plus_int n (negsuc i) = n - suc i

unfoldable pub plus_times : ℕ → ℕ → ℤ → ℕ
plus_times n k (pos i) = n + k * i
plus_times n k (negsuc i) = n - k * suc i

unfoldable pub is_leap : ℕ → Bool
is_leap y = y % 4 == 0 && (not (y % 100 == 0) || y % 400 == 0)

-- The days in front of a year, and those of a common year in front of a month, from 0.
unfoldable pub days_before_year : ℕ → ℕ
days_before_year y = 365 * y + (y + 3) / 4 + (y + 399) / 400 - (y + 99) / 100

abbrev pub month_starts : List ℕ
month_starts = 0 ∷ 31 ∷ 59 ∷ 90 ∷ 120 ∷ 151 ∷ 181 ∷ 212 ∷ 243 ∷ 273 ∷ 304 ∷ 334 ∷ []

abbrev pub nth : List ℕ → ℕ → ℕ
nth [] i = 0
nth (x ∷ xs) zero = x
nth (x ∷ xs) (suc i) = nth xs i

unfoldable pub days_before_month : ℕ → ℕ → ℕ
unfolding is_leap
days_before_month y month = nth month_starts month + (if is_leap y && leb 2 month then 1 else 0)

-- `time.Date` in UTC: a month, a day, an hour, a minute or a second out of its range goes on into
-- the next unit, or back into the one before.
unfoldable pub date : ℕ → ℤ → ℤ → ℤ → ℤ → ℤ → ℕ
unfolding plus_int plus_times days_before_year days_before_month
date year month day hour min sec =
    let months = plus_int (12 * year) month - 1 in
    let y = months / 12 in
    let days = plus_int (days_before_year y + days_before_month y (months % 12)) day - 1 in
    plus_int (plus_times (plus_times (86400 * days) 3600 hour) 60 min) sec

-- The zero `time.Time`: the start of the year 1.
unfoldable pub is_zero_time : ℕ → Bool
is_zero_time t = t == 366 * 86400

-- Hours, minutes and seconds of a text of 4, of 6 or of more than 4 bytes.
unfoldable pub clock : Bytes → ℤ × ℤ × ℤ
unfolding atoi_or_zero
clock time =
    if length time == 6
    then (
      atoi_or_zero (slice 0 2 time),
      atoi_or_zero (slice 2 4 time),
      atoi_or_zero (slice 4 6 time),
    )
    else if leb 4 (length time)
    then (atoi_or_zero (slice 0 2 time), atoi_or_zero (slice 2 4 time), pos 0)
    else (pos 0, pos 0, pos 0)

abbrev pub plausible : ℤ → ℤ → ℤ → ℤ × ℤ × ℤ → Option ℕ
plausible (negsuc y) month day at = none
plausible (pos year) month day at =
    let t = date year month day at.0 at.1 at.2 in
    if is_zero_time t || (ltb year 1900 || ltb 2100 year) then none else some t

-- Behind the tests on the length, at texts without spaces around them.
abbrev pub on_day : ℤ → ℤ → ℤ × ℤ × ℤ → Option ℤ → Option ℕ
on_day year month at none = none
on_day year month at (some day) = plausible year month day at

abbrev pub on_month : ℤ → Bytes → ℤ × ℤ × ℤ → Option ℤ → Option ℕ
on_month year text at none = none
on_month year text at (some month) = on_day year month at (parse_int64 (slice 6 8 text))

abbrev pub on_year : Bytes → ℤ × ℤ × ℤ → Option ℤ → Option ℕ
on_year text at none = none
on_year text at (some year) = on_month year text at (parse_int64 (slice 4 6 text))

unfoldable pub parse_adif_date_time : Bytes → Bytes → Option ℕ
unfolding date is_zero_time clock
parse_adif_date_time raw_date raw_time =
    let text = trim_space raw_date in
    if length text == 8
    then on_year text (clock (trim_space raw_time)) (parse_int64 (slice 0 4 text))
    else none

unfoldable pub parse_adif_date : Bytes → Option ℕ
parse_adif_date s = parse_adif_date_time s []
