-- ===== src/Awards/Wpx/Laws.antt =====
-- The shape of a WPX prefix of api/internal/services/awards/wpx.go.
use radioledger.Base.{
  ◌≡◌, refl, ap, true, false, Bytes, [], ◌∷◌, ◌++◌, Option, none, some, any, arith, ◌⊎◌, inl, inr,
  Bool-cases, ℕ,
}
use radioledger.Base.Text.{to_upper, trim_space, is_digit, lacks, cut-append}
use radioledger.Awards.Wpx.{
  base_call, bearing_part, up_to_digit, digit_or_all, wpx_prefix, is_portable_suffix,
}

-- Letters, then one digit, and the digit is the last.
abbrev pub EndsInDigit : Bytes → Type 0
EndsInDigit t =
    (head : Bytes) × (d : ℕ) × (t ≡ head ++ d ∷ [])
    × (any is_digit head ≡ false)
    × (is_digit d ≡ true)

abbrev SlicedAt : Bytes → Option Bytes → Type 0
SlicedAt s none = any is_digit s ≡ false
SlicedAt s (some t) = ((rest : Bytes) × (s ≡ t ++ rest)) × EndsInDigit t

SlicedAt-cons :
    (c : ℕ) (s : Bytes) (o : Option Bytes)
    → is_digit c ≡ false
    → SlicedAt s o
    → SlicedAt (c ∷ s) (elim o [ none ↦ none | some t ↦ some (c ∷ t) ])
unfolding any
SlicedAt-cons c s none h g = rw (h, any) g
SlicedAt-cons c s (some t) h ((rest, e), (head, d, at, none_there, digit)) = (
  (rest, ap (λ (t : Bytes). c ∷ t) e),
  (c ∷ head, d, ap (λ (t : Bytes). c ∷ t) at, rw (h, any) none_there, digit),
)

up_to_digit-SlicedAt : (s : Bytes) → SlicedAt s (up_to_digit s)
unfolding up_to_digit any
up_to_digit-SlicedAt [] = refl
up_to_digit-SlicedAt (c ∷ s) = elim (Bool-cases (is_digit c)) [
  | inl digit ↦ rw (digit, up_to_digit) ((s, refl), ([], c, refl, refl, digit))
  | inr other ↦
      rw (other, up_to_digit) (SlicedAt-cons c s (up_to_digit s) other (up_to_digit-SlicedAt s))
]

abbrev pub IsPrefixOf : Bytes → Bytes → Type 0
IsPrefixOf cs t =
    (any is_digit cs ≡ false) × (t ≡ cs) ⊎ (((rest : Bytes) × (cs ≡ t ++ rest)) × EndsInDigit t)

digit_or_all-IsPrefixOf :
    (cs : Bytes) (o : Option Bytes) → SlicedAt cs o → IsPrefixOf cs (digit_or_all cs o)
unfolding digit_or_all
digit_or_all-IsPrefixOf cs none h = inl (h, refl)
digit_or_all-IsPrefixOf cs (some t) h = inr h

-- The WPX prefix of a call sign that is not empty is the beginning of its base call, the part
-- without the portable designator, up to and with the first digit; where the base call has no
-- digit, it is the whole of it.
pub wpx_prefix-IsPrefixOf :
    (c : ℕ) (callsign : Bytes)
    → IsPrefixOf (base_call (to_upper (trim_space (c ∷ callsign)))) (wpx_prefix (c ∷ callsign))
unfolding wpx_prefix
wpx_prefix-IsPrefixOf c callsign =
    let cs = base_call (to_upper (trim_space (c ∷ callsign))) in
    digit_or_all-IsPrefixOf cs (up_to_digit cs) (up_to_digit-SlicedAt cs)

-- A portable suffix, after the only stroke, does not change the base call.
base_call-portable :
    (call suffix : Bytes)
    → lacks b'/' call ≡ true
    → is_portable_suffix suffix ≡ true
    → base_call (call ++ (b'/' ∷ suffix)) ≡ call
unfolding base_call bearing_part
base_call-portable call suffix h p =
    rw (cut-append b'/' call suffix h, base_call) (ground (arith, p))
