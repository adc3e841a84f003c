-- ===== src/Adif/Validate.antt =====
-- pkg/adif/validate.go: the tests on a time, a band, a mode, a call sign and a grid square; true
-- stands for no error. A call sign is ASCII, and the texts of errors are left out.
pub mod Laws
use radioledger.Base.{
  ℕ, Bool, true, false, not, ◌&&◌, ◌||◌, Bytes, List, [], ◌∷◌, Option, none, some, any, all, length,
  leb, ltb, ◌==◌, lookup,
}
use radioledger.Base.Int.{ℤ, pos, negsuc}
use radioledger.Base.Decimal.{slice, atoi_or_zero}
use radioledger.Base.Text.{is_empty, is_digit, is_letter, to_lower, to_upper, trim_space}
use radioledger.Adif.Fields.{BandDef, known_bands}
use radioledger.Adif.Mode.{ModeValue, resolve_mode}

abbrev pub at_most : ℕ → ℤ → Bool
at_most n (pos i) = leb i n
at_most n (negsuc i) = true

-- The tests on the digits of a time.
unfoldable pub is_time_of_day : Bytes → Bool
is_time_of_day s =
    at_most 23 (atoi_or_zero (slice 0 2 s))
    && (at_most 59 (atoi_or_zero (slice 2 4 s))
        && (not (length s == 6) || at_most 59 (atoi_or_zero (slice 4 6 s))))

unfoldable pub validate_time : Bytes → Bool
unfolding is_time_of_day
validate_time text =
    let s = trim_space text in
    (length s == 4 || length s == 6) && (all is_digit s && is_time_of_day s)

abbrev is_some {ℓ} : {A : Type ℓ} → Option A → Bool
is_some none = false
is_some (some x) = true

unfoldable pub validate_band : Bytes → Bool
validate_band text = is_some (lookup (to_lower (trim_space text)) known_bands)

unfoldable pub validate_mode : Bytes → Bool
validate_mode text = is_some (resolve_mode text)

abbrev pub is_call_byte : ℕ → Bool
is_call_byte c = is_letter c || (is_digit c || c == b'/')

unfoldable pub validate_callsign : Bytes → Bool
validate_callsign text =
    let s = trim_space text in
    not (is_empty s)
    && (leb (length s) 20 && (all is_call_byte (to_upper s) && (any is_letter s && any is_digit s)))

abbrev within : ℕ → ℕ → ℕ → Bool
within low high c = leb low c && leb c high

-- The subsquare, where there is one. What follows it is not tested.
abbrev is_subsquare : Bytes → Bool
is_subsquare (e ∷ f ∷ s) = within b'A' b'X' e && within b'A' b'X' f
is_subsquare s = true

-- The tests on the bytes of a grid square: a field, a square and a subsquare.
abbrev pub is_grid : Bytes → Bool
is_grid (a ∷ b ∷ c ∷ d ∷ s) =
    within b'A' b'R' a
    && (within b'A' b'R' b && (within b'0' b'9' c && (within b'0' b'9' d && is_subsquare s)))
is_grid s = false

unfoldable pub validate_gridsquare : Bytes → Bool
validate_gridsquare text =
    let upper = to_upper (trim_space text) in
    (length upper == 4 || (length upper == 6 || length upper == 8)) && is_grid upper
