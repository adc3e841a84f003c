-- ===== src/Sync/Export/Frequency.antt =====
-- qsosToADIF of api/internal/services/sync/orchestrator.go: a frequency in print.
use radioledger.Base.{
  ℕ, ◌+◌, ◌*◌, ◌/◌, ◌≡◌, refl, ap, ◌∙◌, Bool, true, Bytes, [], ◌∷◌, ◌++◌, Option, some, arith, not,
}
use radioledger.Base.Text.{is_digit}
use radioledger.Base.Decimal.{magnitude, value_from}
use radioledger.Base.{keep, ◌==◌}
use radioledger.Base.Decimal.{decimal, decimal-cons, value_from-digits}
use radioledger.Base.{suc, ◌-◌, sym}
use radioledger.Sync.Export.{two_digits, four_digits, format_mhz}

-- The hertz of a number of megahertz with six places: its digits.
unfoldable pub read_hz : Bytes → Option ℕ
unfolding keep
read_hz text = magnitude (keep (λ b. not (b == b'.')) text)

abbrev is_no_point : ℕ → Bool
is_no_point b = not (b == b'.')

-- A text of digits has no point, and is read before what follows.
keep-digits :
    (s t : Bytes) (acc : ℕ) {k : ℕ}
    → value_from acc s ≡ some k
    → keep is_no_point (s ++ t) ≡ s ++ keep is_no_point t
unfolding keep value_from is_digit
keep-digits [] t acc h = refl
keep-digits (c ∷ s) t acc {k} h =
    let digit : is_digit c ≡ true = ground arith in
    let kept : is_no_point c ≡ true = ground arith in
    rw (kept, keep)
      (ap (◌∷◌ c) (keep-digits s t (acc * 10 + (c - b'0')) {k = k} (ground (arith, digit))))

value_from-behind :
    (s t : Bytes) (acc : ℕ) {k : ℕ}
    → value_from acc s ≡ some k
    → value_from acc (s ++ t) ≡ value_from k t
unfolding value_from is_digit
value_from-behind [] t acc h = ground (arith, h)
value_from-behind (c ∷ s) t acc {k} h =
    let digit : is_digit c ≡ true = ground arith in
    rw digit (value_from-behind s t (acc * 10 + (c - b'0')) {k = k} (ground (arith, digit)))

abbrev places : ℕ → Bytes
places hz = two_digits (hz / 10_000) ++ four_digits hz

value_from-places : (hz : ℕ) → value_from (hz / 1_000_000) (places hz) ≡ some hz
unfolding value_from is_digit
value_from-places hz = ground arith

keep-places : (hz : ℕ) → keep is_no_point (b'.' ∷ places hz) ≡ places hz
unfolding keep
keep-places hz = ground arith

pub read_hz-format_mhz : (hz : ℕ) → read_hz (format_mhz hz) ≡ some hz
unfolding format_mhz read_hz magnitude
read_hz-format_mhz hz =
    let whole = hz / 1_000_000 in
    let (c, t, e, from) = decimal-cons whole in
    let read : value_from 0 (decimal whole) ≡ some whole =
      unfold decimal in value_from-digits (suc whole) whole (omega arith) in
    ap magnitude (
      keep-digits (decimal whole) (b'.' ∷ places hz) 0 read
      ∙ ap (λ s. decimal whole ++ s) (keep-places hz))
    ∙ ap (λ s. magnitude (s ++ places hz)) e
    ∙ value_from-behind (c ∷ t) (places hz) 0 (sym (ap (value_from 0) e) ∙ read)
    ∙ value_from-places hz
