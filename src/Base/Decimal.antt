-- ===== src/Base/Decimal.antt =====
-- Decimal numbers in text: `%d` of fmt, and ParseInt(s, 10, 64) of strconv, on ASCII text.
use radioledger.Base.{
  ℕ, zero, suc, ◌+◌, ◌-◌, ◌*◌, ◌/◌, ◌%◌, ◌^◌, ◌≤◌, ◌<◌, ◌≡◌, refl, true, [], ◌∷◌, ◌++◌, Option,
  none, some, arith, ltb, ◌==◌, if◌then◌else◌, Bytes, ap, ◌∙◌, Bool-cases, inl, inr, take, drop,
}
use radioledger.Base.Int.{ℤ, pos, negsuc}
use radioledger.Base.Text.Trim.{trim_right-append, trim_space_fixed}
use radioledger.Base.Text.{is_digit, lacks, lacks-append, trim_right, trim_space, is_space}

-- The digits of `n`, on fuel above `n`.
unfoldable pub digits : ℕ → ℕ → Bytes
digits zero n = []
digits (suc fuel) n =
    let front = digits fuel (n / 10) in
    if ltb n 10 then (b'0' + n) ∷ [] else front ++ (b'0' + n % 10) ∷ []

-- `%d` of a number that is not negative.
unfoldable pub decimal : ℕ → Bytes
unfolding digits
decimal n = digits (suc n) n

-- The loop of ParseUint: every byte is a digit.
unfoldable pub value_from : ℕ → Bytes → Option ℕ
unfolding is_digit
value_from acc [] = some acc
value_from acc (c ∷ s) = if is_digit c then value_from (acc * 10 + (c - b'0')) s else none

-- The magnitude: at least one digit.
unfoldable pub magnitude : Bytes → Option ℕ
unfolding value_from
magnitude [] = none
magnitude (c ∷ s) = value_from 0 (c ∷ s)

abbrev int64_bound : ℕ
int64_bound = 2 ^ 63

unfoldable pub positive : Option ℕ → Option ℤ
positive none = none
positive (some n) = if ltb n int64_bound then some (pos n) else none

unfoldable pub negative : Option ℕ → Option ℤ
negative none = none
negative (some zero) = some (pos 0)
negative (some (suc n)) = if ltb n int64_bound then some (negsuc n) else none

-- An optional sign, digits, and the range of an int64.
unfoldable pub parse_int64 : Bytes → Option ℤ
unfolding magnitude positive negative
parse_int64 [] = none
parse_int64 (c ∷ s) =
    if c == b'-'
    then negative (magnitude s)
    else if c == b'+'
    then positive (magnitude s)
    else positive (magnitude (c ∷ s))

-- The part of a text that `s[from:to]` is.
abbrev pub slice : ℕ → ℕ → Bytes → Bytes
slice from to s = take (to - from) (drop from s)

abbrev or_zero : Option ℤ → ℤ
or_zero (some i) = i
or_zero none = pos 0

-- `n, _ = strconv.Atoi(s)`.
unfoldable pub atoi_or_zero : Bytes → ℤ
atoi_or_zero s = or_zero (parse_int64 s)

pub data AllDigits : Bytes → Type 0 where
  one : {d : ℕ} → d < 10 → AllDigits ((b'0' + d) ∷ [])
  more : {s : Bytes} {d : ℕ} → AllDigits s → d < 10 → AllDigits (s ++ (b'0' + d) ∷ [])

pub digits-AllDigits : (fuel n : ℕ) → n < fuel → AllDigits (digits fuel n)
unfolding digits
digits-AllDigits zero n h = absurd (omega arith)
digits-AllDigits (suc fuel) n h = elim (Bool-cases (ltb n 10)) [
  | inl small ↦ rw small (one (ground arith))
  | inr large ↦ rw large (more (digits-AllDigits fuel (n / 10) (ground arith)) (omega arith))
]

value_from-append :
    (s : Bytes) (acc : ℕ) {k d : ℕ}
    → value_from acc s ≡ some k
    → d < 10
    → value_from acc (s ++ (b'0' + d) ∷ []) ≡ some (k * 10 + d)
unfolding value_from
value_from-append [] acc h l = ground arith
value_from-append (c ∷ s) acc {k} {d} h l =
    ground (arith, value_from-append s (acc * 10 + (c - b'0')) {k = k} {d = d})

pub value_from-digits : (fuel n : ℕ) → n < fuel → value_from 0 (digits fuel n) ≡ some n
unfolding digits
value_from-digits zero n h = absurd (omega arith)
value_from-digits (suc fuel) n h = elim (Bool-cases (ltb n 10)) [
  | inl small ↦ rw small (unfold value_from in ground arith)
  | inr large ↦ rw large (
      value_from-append (digits fuel (n / 10)) 0 (value_from-digits fuel (n / 10) (ground arith))
        (omega arith)
      ∙ ap some (omega arith))
]

AllDigits-cons : {s : Bytes} → AllDigits s → (c : ℕ) × (t : Bytes) × (s ≡ c ∷ t) × (b'0' ≤ c)
AllDigits-cons (one {d} h) = (b'0' + d, [], refl, omega arith)
AllDigits-cons (more {s} {d} a h) =
    let (c, t, e, k) = AllDigits-cons a in
    (c, t ++ (b'0' + d) ∷ [], ap (λ (u : Bytes). u ++ (b'0' + d) ∷ []) e, k)

pub decimal-cons : (n : ℕ) → (c : ℕ) × (t : Bytes) × (decimal n ≡ c ∷ t) × (b'0' ≤ c)
unfolding decimal
decimal-cons n = AllDigits-cons (digits-AllDigits (suc n) n (omega arith))

magnitude-decimal : (n : ℕ) → magnitude (decimal n) ≡ some n
unfolding magnitude
magnitude-decimal n =
    let (c, t, e, k) = decimal-cons n in
    let read : value_from 0 (decimal n) ≡ some n =
      unfold decimal in value_from-digits (suc n) n (omega arith) in
    rw e (rw e at read)

-- Reading a printed number gives it back, within the range of an int64.
pub parse_int64-decimal : (n : ℕ) → n < 2 ^ 63 → parse_int64 (decimal n) ≡ some (pos n)
unfolding parse_int64
parse_int64-decimal n h =
    let (c, t, e, k) = decimal-cons n in
    let read = magnitude-decimal n in rw e (ground (arith, rw e at read))

AllDigits-lacks : {s : Bytes} (c : ℕ) → AllDigits s → b'9' < c → lacks c s ≡ true
AllDigits-lacks c (one h) k = unfold lacks in ground arith
AllDigits-lacks c (more {s} {d} a h) k =
    lacks-append c s ((b'0' + d) ∷ []) (AllDigits-lacks c a k) (unfold lacks in ground arith)

-- A printed number holds no byte above the digits.
pub decimal-lacks : (n c : ℕ) → b'9' < c → lacks c (decimal n) ≡ true
unfolding decimal
decimal-lacks n c k = AllDigits-lacks c (digits-AllDigits (suc n) n (omega arith)) k

AllDigits-end : {s : Bytes} → AllDigits s → trim_right s ≡ s
AllDigits-end (one h) = unfold trim_right is_space in ground arith
AllDigits-end (more {s} {d} a h) =
    trim_right-append s (b'0' + d) [] (unfold trim_right is_space in ground arith)

-- A printed number has no space at its end, nor at its start.
pub decimal-end : (n : ℕ) → trim_right (decimal n) ≡ decimal n
unfolding decimal
decimal-end n = AllDigits-end (digits-AllDigits (suc n) n (omega arith))

pub decimal-trimmed : (n : ℕ) → trim_space (decimal n) ≡ decimal n
decimal-trimmed n =
    let (c, t, e, k) = decimal-cons n in
    rw e (trim_space_fixed c t (unfold is_space in ground arith) (rw e at (decimal-end n)))
