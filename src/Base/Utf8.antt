-- ===== src/Base/Utf8.antt =====
-- Go's unicode/utf8 and strings on byte strings: ValidString, and ToValidUTF8 with U+FFFD.
use radioledger.Base.{
  ℕ, zero, suc, ◌≡◌, refl, Bool, true, false, ◌&&◌, [], ◌∷◌, Option, none, some, arith, ltb, leb,
  ◌==◌, Option-cases, inl, inr, if◌then◌else◌, Bytes, all,
}

-- What a first byte announces: the number of further bytes, and the range of the next one.
pub record Lead : Type 0 where
  pub need : ℕ
  pub lo : ℕ
  pub hi : ℕ

abbrev within : ℕ → ℕ → ℕ → Bool
within lo hi c = leb lo c && leb c hi

abbrev announce : ℕ → ℕ → ℕ → Option Lead
announce need lo hi = some (record { need = need; lo = lo; hi = hi })

-- The table of first bytes.
unfoldable pub lead : ℕ → Option Lead
lead c =
    if ltb c 0x80
    then announce 0 0x80 0xBF
    else if within 0xC2 0xDF c
    then announce 1 0x80 0xBF
    else if c == 0xE0
    then announce 2 0xA0 0xBF
    else if c == 0xED
    then announce 2 0x80 0x9F
    else if within 0xE1 0xEF c
    then announce 2 0x80 0xBF
    else if c == 0xF0
    then announce 3 0x90 0xBF
    else if within 0xF1 0xF3 c
    then announce 3 0x80 0xBF
    else if c == 0xF4
    then announce 3 0x80 0x8F
    else none

-- The text, of which `need` more bytes belong to the current rune, is valid.
unfoldable pub valid_from : ℕ → ℕ → ℕ → Bytes → Bool
valid_from zero lo hi [] = true
valid_from (suc n) lo hi [] = false
valid_from zero lo hi (c ∷ s) = elim (lead c) [
  | none ↦ false
  | some l ↦ valid_from l.need l.lo l.hi s
]
valid_from (suc n) lo hi (c ∷ s) = within lo hi c && valid_from n 0x80 0xBF s

unfoldable pub valid_utf8 : Bytes → Bool
unfolding valid_from
valid_utf8 s = valid_from 0 0x80 0xBF s

-- The text starts with the `need` bytes that end a rune.
unfoldable pub completes : ℕ → ℕ → ℕ → Bytes → Bool
completes zero lo hi s = true
completes (suc n) lo hi [] = false
completes (suc n) lo hi (c ∷ s) = within lo hi c && completes n 0x80 0xBF s

-- The number of bytes behind the first byte `c` in its rune; `none` if no rune starts here.
unfoldable pub rune_tail : ℕ → Bytes → Option ℕ
unfolding lead completes
rune_tail c s = elim (lead c) [
  | none ↦ none
  | some l ↦ if completes l.need l.lo l.hi s then some l.need else none
]

-- The loop of ToValidUTF8: `copy` bytes of a rune are left, and `invalid` says that the last
-- byte was replaced. A run of bad bytes gives one replacement.
unfoldable pub replace_invalid : ℕ → Bool → Bytes → Bytes
replace_invalid copy invalid [] = []
replace_invalid (suc copy) invalid (c ∷ s) = c ∷ replace_invalid copy false s
replace_invalid zero invalid (c ∷ s) = elim (rune_tail c s) [
  | some n ↦ c ∷ replace_invalid n false s
  | none ↦
      if invalid then replace_invalid 0 true s else 0xEF ∷ 0xBF ∷ 0xBD ∷ replace_invalid 0 true s
]

unfoldable pub to_valid_utf8 : Bytes → Bytes
unfolding replace_invalid rune_tail
to_valid_utf8 s = replace_invalid 0 false s

-- ASCII text is valid.
pub valid_utf8_ascii : (s : Bytes) → all (λ c. ltb c 0x80) s ≡ true → valid_utf8 s ≡ true
unfolding all valid_utf8 lead
valid_utf8_ascii [] h = refl
valid_utf8_ascii (c ∷ s) h = ground (arith, valid_utf8_ascii s)

replacement_valid :
    (t : Bytes) (lo hi : ℕ) → valid_from 0 lo hi (0xEF ∷ 0xBF ∷ 0xBD ∷ t) ≡ valid_from 0 0x80 0xBF t
unfolding valid_from lead
replacement_valid t lo hi = refl

copies-valid :
    (s : Bytes) (n lo hi : ℕ) (b : Bool)
    → completes n lo hi s ≡ true
    → valid_from n lo hi (replace_invalid n b s) ≡ true
unfolding valid_from replace_invalid completes rune_tail
copies-valid [] zero lo hi b h = refl
copies-valid [] (suc n) lo hi b h = cc
copies-valid (c ∷ s) (suc n) lo hi b h = ground (arith, copies-valid s n 0x80 0xBF false)
copies-valid (c ∷ s) zero lo hi b h = elim (Option-cases (lead c)) [
  | inl bad ↦ ground (
    arith,
    bad,
    copies-valid s 0 0x80 0xBF true,
    replacement_valid (replace_invalid 0 true s) lo hi,
  )
  | inr (l, good) ↦ ground (
    arith,
    good,
    copies-valid s l.need l.lo l.hi false,
    copies-valid s 0 0x80 0xBF true,
    replacement_valid (replace_invalid 0 true s) lo hi,
  )
]

-- Whatever the bytes, the result of ToValidUTF8 is valid.
pub to_valid_utf8-valid : (s : Bytes) → valid_utf8 (to_valid_utf8 s) ≡ true
unfolding valid_utf8 to_valid_utf8
to_valid_utf8-valid s = copies-valid s 0 0x80 0xBF false refl
