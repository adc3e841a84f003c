-- ===== src/Awards/Wpx.antt =====
-- api/internal/services/awards/wpx.go: the WPX prefix of a call sign. A call sign is ASCII.
pub mod Laws
use radioledger.Base.{
  Bool, true, false, Bytes, List, [], ◌∷◌, ◌++◌, Option, none, some, member, if◌then◌else◌,
}
use radioledger.Base.Text.{codes, to_upper, trim_space, cut, is_digit}

unfoldable pub portable_suffixes : List Bytes
portable_suffixes =
    codes "P"
    ∷ codes "M"
    ∷ codes "AM"
    ∷ codes "MM"
    ∷ codes "QRP"
    ∷ codes "QRPP"
    ∷ codes "LGT"
    ∷ codes "A"
    ∷ codes "B"
    ∷ codes "C"
    ∷ []

-- `isPortableSuffix`: behind the switch it answers no with or without a digit.
unfoldable pub is_portable_suffix : Bytes → Bool
unfolding member portable_suffixes
is_portable_suffix s = member s portable_suffixes

-- The part of the call sign that bears the prefix, where there is a stroke.
unfoldable pub bearing_part : Bytes × Bytes → Bytes
bearing_part (left, right) =
    if is_portable_suffix right then left else if is_portable_suffix left then right else left

unfoldable pub base_call : Bytes → Bytes
unfolding cut bearing_part
base_call cs = elim (cut b'/' cs) [ none ↦ cs | some parts ↦ bearing_part parts ]

-- The loop for the first digit, and the slice up to it; `none` when there is no digit.
unfoldable pub up_to_digit : Bytes → Option Bytes
unfolding is_digit
up_to_digit [] = none
up_to_digit (c ∷ s) =
    if is_digit c
    then some (c ∷ [])
    else elim (up_to_digit s) [ none ↦ none | some t ↦ some (c ∷ t) ]

unfoldable pub digit_or_all : Bytes → Option Bytes → Bytes
digit_or_all cs none = cs
digit_or_all cs (some prefix) = prefix

unfoldable pub wpx_prefix : Bytes → Bytes
unfolding base_call up_to_digit digit_or_all
wpx_prefix [] = []
wpx_prefix (c ∷ callsign) =
    let cs = base_call (to_upper (trim_space (c ∷ callsign))) in digit_or_all cs (up_to_digit cs)
