-- ===== src/Import/Date/Laws.antt =====
-- api/internal/jobs/adif_import.go: which instants parseADIFDateTime can give.
use radioledger.Base.{
  ℕ, zero, suc, ◌+◌, ◌-◌, ◌*◌, ◌/◌, ◌%◌, ◌≤◌, ◌<◌, ◌≡◌, refl, sym, true, Bytes, List, [], ◌∷◌,
  Option, none, some, leb, ◌==◌, length, take, drop, arith, Bool-cases, Option-cases, inl, inr,
  if-ind, all,
}
use radioledger.Base.Int.{ℤ, pos, negsuc}
use radioledger.Base.Text.{trim_space, is_digit}
use radioledger.Base.Decimal.{
  slice, atoi_or_zero, parse_int64, magnitude, value_from, positive, negative,
}
use radioledger.Import.Date.{
  plausible, nth, month_starts, plus_int, plus_times, days_before_year, days_before_month, date,
  clock, parse_adif_date_time,
}

-- From -9 to 99.
abbrev pub IsSmall : ℤ → Type 0
IsSmall (pos n) = n ≤ 99
IsSmall (negsuc n) = n ≤ 8

length-take-le : (n : ℕ) (s : Bytes) → length (take n s) ≤ n
length-take-le zero s = omega arith
length-take-le (suc n) [] = omega arith
length-take-le (suc n) (c ∷ s) = omega (arith, length-take-le n s)

magnitude_small : (s : Bytes) {n : ℕ} → length s ≤ 2 → magnitude s ≡ some n → n ≤ 99
unfolding magnitude value_from is_digit
magnitude_small [] l e = ground arith
magnitude_small (a ∷ []) l e = ground arith
magnitude_small (a ∷ b ∷ []) l e = ground arith
magnitude_small (a ∷ b ∷ c ∷ s) l e = absurd (omega arith)

magnitude_digit : (s : Bytes) {n : ℕ} → length s ≤ 1 → magnitude s ≡ some n → n ≤ 9
unfolding magnitude value_from is_digit
magnitude_digit [] l e = ground arith
magnitude_digit (a ∷ []) l e = ground arith
magnitude_digit (a ∷ b ∷ s) l e = absurd (omega arith)

positive-IsSmall :
    (o : Option ℕ) {i : ℤ} → ((n : ℕ) → o ≡ some n → n ≤ 99) → positive o ≡ some i → IsSmall i
unfolding positive
positive-IsSmall none h e = ground arith
positive-IsSmall (some n) {i = pos k} h e = ground (arith, h n refl)
positive-IsSmall (some n) {i = negsuc k} h e = ground arith

negative-IsSmall :
    (o : Option ℕ) {i : ℤ} → ((n : ℕ) → o ≡ some n → n ≤ 9) → negative o ≡ some i → IsSmall i
unfolding negative
negative-IsSmall none h e = ground arith
negative-IsSmall (some zero) {i = pos k} h e = ground arith
negative-IsSmall (some zero) {i = negsuc k} h e = ground arith
negative-IsSmall (some (suc n)) {i = pos k} h e = ground arith
negative-IsSmall (some (suc n)) {i = negsuc k} h e = ground (arith, h (suc n) refl)

parse_int64-IsSmall : (s : Bytes) {i : ℤ} → length s ≤ 2 → parse_int64 s ≡ some i → IsSmall i
unfolding parse_int64
parse_int64-IsSmall [] l e = ground arith
parse_int64-IsSmall (c ∷ s) {i} l e = elim (Bool-cases (c == b'-')) [
  | inl minus ↦
      negative-IsSmall (magnitude s) (λ n k. magnitude_digit s (omega arith) k)
        (rw (minus, parse_int64) at e)
  | inr other ↦ elim (Bool-cases (c == b'+')) [
    | inl plus ↦
        positive-IsSmall (magnitude s) (λ n k. magnitude_small s (omega arith) k)
          (rw (other, plus, parse_int64) at e)
    | inr digit ↦
        positive-IsSmall (magnitude (c ∷ s)) (λ n k. magnitude_small (c ∷ s) l k)
          (rw (other, digit, parse_int64) at e)
  ]
]

atoi_or_zero-IsSmall :
    (from to : ℕ) (s : Bytes) → to ≤ from + 2 → IsSmall (atoi_or_zero (slice from to s))
unfolding atoi_or_zero
atoi_or_zero-IsSmall from to s h = elim (Option-cases (parse_int64 (slice from to s))) [
  | inl bad ↦ rw bad (omega arith)
  | inr (i, good) ↦ rw good (
      parse_int64-IsSmall (slice from to s)
        (omega (arith, h, length-take-le (to - from) (drop from s))) good)
]

plus_int-le : (n : ℕ) (i : ℤ) → IsSmall i → (plus_int n i ≤ n + 99) × (n ≤ plus_int n i + 9)
unfolding plus_int
plus_int-le n (pos i) h = (omega arith, omega arith)
plus_int-le n (negsuc i) h = (omega arith, omega arith)

nth-le : (bound : ℕ) (xs : List ℕ) (i : ℕ) → all (λ x. leb x bound) xs ≡ true → nth xs i ≤ bound
unfolding all
nth-le bound [] i a = omega arith
nth-le bound (x ∷ xs) zero a = ground arith
nth-le bound (x ∷ xs) (suc i) a = nth-le bound xs i (ground arith)

days_before_month-le : (y m : ℕ) → days_before_month y m ≤ 335
unfolding days_before_month all
days_before_month-le y m = ground (arith, nth-le 334 month_starts m refl)

days_before_year-le :
    (y : ℕ)
    → 1899 ≤ y
    → y ≤ 2108
    → (days_before_year 1899 ≤ days_before_year y) × (days_before_year y ≤ days_before_year 2108)
unfolding days_before_year
days_before_year-le y a b = (omega arith, omega arith)

hours-le :
    (n : ℕ) (i : ℤ)
    → IsSmall i
    → (plus_times n 3600 i ≤ n + 356400) × (n ≤ plus_times n 3600 i + 32400)
unfolding plus_times
hours-le n (pos i) h = (omega arith, omega arith)
hours-le n (negsuc i) h = (omega arith, omega arith)

minutes-le :
    (n : ℕ) (i : ℤ) → IsSmall i → (plus_times n 60 i ≤ n + 5940) × (n ≤ plus_times n 60 i + 540)
unfolding plus_times
minutes-le n (pos i) h = (omega arith, omega arith)
minutes-le n (negsuc i) h = (omega arith, omega arith)

-- The three parts of a time are small.
AreSmall : ℤ × ℤ × ℤ → Type 0
AreSmall c = IsSmall c.0 × IsSmall c.1 × IsSmall c.2

clock-AreSmall : (s : Bytes) → AreSmall (clock s)
unfolding clock AreSmall
clock-AreSmall s =
    let none_given : AreSmall (pos 0, pos 0, pos 0) = (omega arith, omega arith, omega arith) in
    let short : AreSmall (atoi_or_zero (slice 0 2 s), atoi_or_zero (slice 2 4 s), pos 0) = (
      atoi_or_zero-IsSmall 0 2 s (omega arith),
      atoi_or_zero-IsSmall 2 4 s (omega arith),
      omega arith,
    ) in
    let long : AreSmall
        (atoi_or_zero (slice 0 2 s), atoi_or_zero (slice 2 4 s), atoi_or_zero (slice 4 6 s)) =
      (
        atoi_or_zero-IsSmall 0 2 s (omega arith),
        atoi_or_zero-IsSmall 2 4 s (omega arith),
        atoi_or_zero-IsSmall 4 6 s (omega arith),
      ) in
    if-ind AreSmall (length s == 6) _ _ long
      (if-ind AreSmall (leb 4 (length s)) _ _ short none_given)

-- The start of a year.
abbrev pub start_of : ℕ → ℕ
start_of year = 86400 * days_before_year year

pub date_between :
    (year : ℕ) (month day hour min sec : ℤ)
    → 1900 ≤ year
    → year ≤ 2100
    → IsSmall month
    → IsSmall day
    → IsSmall hour
    → IsSmall min
    → IsSmall sec
    → (start_of 1898 ≤ date year month day hour min sec)
      × (date year month day hour min sec < start_of 2110)
unfolding date
date_between year month day hour min sec a b m d h i s =
    let months = plus_int (12 * year) month - 1 in
    let mb = plus_int-le (12 * year) month m in
    let yb = days_before_year-le (months / 12) (omega (arith, mb.1)) (omega (arith, mb.0)) in
    let before = days_before_year (months / 12) + days_before_month (months / 12) (months % 12) in
    let days = plus_int before day - 1 in
    let db = plus_int-le before day d in
    let hb = hours-le (86400 * days) hour h in
    let ib = minutes-le (plus_times (86400 * days) 3600 hour) min i in
    let sb = plus_int-le (plus_times (plus_times (86400 * days) 3600 hour) 60 min) sec s in
    let jb = days_before_month-le (months / 12) (months % 12) in
    (omega (arith, yb.0, db.1, hb.1, ib.1, sb.1), omega (arith, yb.1, jb, db.0, hb.0, ib.0, sb.0))

plausible_between :
    (year month day : ℤ) (at : ℤ × ℤ × ℤ) {t : ℕ}
    → IsSmall month
    → IsSmall day
    → AreSmall at
    → plausible year month day at ≡ some t
    → (start_of 1898 ≤ t) × (t < start_of 2110)
unfolding AreSmall
plausible_between (negsuc n) month day at m d s h = absurd (ground arith)
plausible_between (pos year) month day at {t} m d s h =
    let given = date year month day at.0 at.1 at.2 in
    let low : 1900 ≤ year = ground arith in
    let high : year ≤ 2100 = ground arith in
    let same : given ≡ t = ground arith in
    rw (sym same) (date_between year month day at.0 at.1 at.2 low high m d s.0 s.1 s.2)

-- An instant that parseADIFDateTime accepts lies between the starts of the years 1898 and 2110:
-- months, days and times out of their ranges are carried over, and no further than that.
pub parse_adif_date_time_between :
    (text time : Bytes) {t : ℕ}
    → parse_adif_date_time text time ≡ some t
    → (start_of 1898 ≤ t) × (t < start_of 2110)
unfolding parse_adif_date_time
parse_adif_date_time_between text time h =
    let c = clock-AreSmall (trim_space time) in
    elim (Option-cases (parse_int64 (slice 0 4 (trim_space text)))) [
      | inl bad ↦ absurd (ground (arith, bad))
      | inr (year, y) ↦ elim (Option-cases (parse_int64 (slice 4 6 (trim_space text)))) [
        | inl bad ↦ absurd (ground (arith, y, bad))
        | inr (month, m) ↦ elim (Option-cases (parse_int64 (slice 6 8 (trim_space text)))) [
          | inl bad ↦ absurd (ground (arith, y, m, bad))
          | inr (day, d) ↦
              let small = length-take-le 2 in
              plausible_between year month day (clock (trim_space time))
                (parse_int64-IsSmall (slice 4 6 (trim_space text))
                  (small (drop 4 (trim_space text))) m)
                (parse_int64-IsSmall (slice 6 8 (trim_space text))
                  (small (drop 6 (trim_space text))) d)
                c (ground (arith, y, m, d))
        ]
      ]
    ]
