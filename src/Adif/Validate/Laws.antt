-- ===== src/Adif/Validate/Laws.antt =====
-- pkg/adif/validate.go beside api/internal/jobs/adif_import.go: how the import reads a time that is
-- valid.
use mathlib.Core.Path.{subst}
use radioledger.Base.{
  ℕ, ◌+◌, ◌*◌, ◌-◌, ◌≤◌, ◌<◌, ◌≡◌, true, ◌==◌, Bytes, [], ◌∷◌, all, length, arith, Bool-cases, inl,
  inr,
}
use radioledger.Base.Int.{ℤ, pos}
use radioledger.Base.Text.{is_digit, trim_space}
use radioledger.Base.Decimal.{atoi_or_zero, parse_int64, magnitude, value_from, positive}
use radioledger.Import.Date.{clock}
use radioledger.Adif.Validate.{at_most, is_time_of_day, validate_time}

atoi_or_zero-digits :
    (a b : ℕ)
    → is_digit a ≡ true
    → is_digit b ≡ true
    → atoi_or_zero (a ∷ b ∷ []) ≡ pos ((a - b'0') * 10 + (b - b'0'))
unfolding atoi_or_zero parse_int64 magnitude value_from positive is_digit
atoi_or_zero-digits a b h k = ground arith

-- A number up to `n` that the text of two bytes stands for.
abbrev IsRead : ℕ → Bytes → Type 0
IsRead n text = (x : ℕ) × (atoi_or_zero text ≡ pos x) × (x ≤ n)

atoi_or_zero-IsRead :
    (n a b : ℕ)
    → is_digit a ≡ true
    → is_digit b ≡ true
    → at_most n (atoi_or_zero (a ∷ b ∷ [])) ≡ true
    → IsRead n (a ∷ b ∷ [])
atoi_or_zero-IsRead n a b h k bound =
    let e = atoi_or_zero-digits a b h k in
    let small : at_most n (pos ((a - b'0') * 10 + (b - b'0'))) ≡ true =
      subst (λ i. at_most n i ≡ true) e bound in
    ((a - b'0') * 10 + (b - b'0'), e, ground arith)

-- An hour, a minute and a second.
abbrev pub IsTimeOfDay : ℤ × ℤ × ℤ → Type 0
IsTimeOfDay at =
    (h : ℕ) × (m : ℕ) × (s : ℕ) × (at ≡ (pos h, pos m, pos s)) × (h < 24) × (m < 60) × (s < 60)

IsRead-IsTimeOfDay :
    (hour minute second : Bytes)
    → IsRead 23 hour
    → IsRead 59 minute
    → IsRead 59 second
    → IsTimeOfDay (atoi_or_zero hour, atoi_or_zero minute, atoi_or_zero second)
IsRead-IsTimeOfDay hour minute second (h, eh, bh) (m, em, bm) (s, es, bs) =
    (h, m, s, (λ i. (eh i, em i, es i)), omega arith, omega arith, omega arith)

clock-four :
    (s : Bytes)
    → length s ≡ 4
    → all is_digit s ≡ true
    → is_time_of_day s ≡ true
    → IsTimeOfDay (clock s)
unfolding all clock is_time_of_day
clock-four (a ∷ b ∷ c ∷ d ∷ []) l h k =
    let (x, eh, bh) = atoi_or_zero-IsRead 23 a b (ground arith) (ground arith) (ground arith) in
    let (y, em, bm) = atoi_or_zero-IsRead 59 c d (ground arith) (ground arith) (ground arith) in
    (x, y, 0, (λ i. (eh i, em i, pos 0)), omega arith, omega arith, omega arith)
clock-four s l h k = absurd (omega arith)

clock-six :
    (s : Bytes)
    → length s ≡ 6
    → all is_digit s ≡ true
    → is_time_of_day s ≡ true
    → IsTimeOfDay (clock s)
unfolding all clock is_time_of_day
clock-six (a ∷ b ∷ c ∷ d ∷ e ∷ f ∷ []) l h k =
    IsRead-IsTimeOfDay (a ∷ b ∷ []) (c ∷ d ∷ []) (e ∷ f ∷ [])
      (atoi_or_zero-IsRead 23 a b (ground arith) (ground arith) (ground arith))
      (atoi_or_zero-IsRead 59 c d (ground arith) (ground arith) (ground arith))
      (atoi_or_zero-IsRead 59 e f (ground arith) (ground arith) (ground arith))
clock-six s l h k = absurd (omega arith)

-- The import reads a time that ValidateTime accepts as an hour below 24, a minute below 60 and a
-- second below 60.
pub validate_time-IsTimeOfDay :
    (text : Bytes) → validate_time text ≡ true → IsTimeOfDay (clock (trim_space text))
unfolding validate_time
validate_time-IsTimeOfDay text h =
    let s = trim_space text in
    elim (Bool-cases (length s == 4)) [
      | inl four ↦ clock-four s (ground arith) (ground arith) (ground arith)
      | inr other ↦ clock-six s (ground arith) (ground arith) (ground arith)
    ]
