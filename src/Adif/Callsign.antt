-- ===== src/Adif/Callsign.antt =====
-- pkg/adif/callsign.go: the parts of a call sign. A call sign is ASCII, and the descriptions of the
-- suffixes are left out.
pub mod Laws
use radioledger.Base.{
  ℕ, Bool, true, false, not, ◌&&◌, ◌||◌, Bytes, List, [], ◌∷◌, ◌++◌, Option, none, some, any,
  length, leb, ltb, member, if◌then◌else◌,
}
use radioledger.Base.Text.{codes, is_empty, is_digit, is_letter, join, split, to_upper, trim_space}

-- The keys of `KnownSuffixes`.
abbrev pub known_suffixes : List Bytes
known_suffixes =
    codes "P" ∷ codes "M" ∷ codes "MM" ∷ codes "AM" ∷ codes "QRP" ∷ codes "A" ∷ codes "R" ∷ []

-- `known_suffix` stands for a `SuffixInfo` that is not nil.
pub record ParsedCallsign : Type 0 where
  pub raw : Bytes
  pub base : Bytes
  pub prefix_override : Bytes
  pub suffix : Bytes
  pub known_suffix : Bool
  pub wpx_prefix : Bytes

unfoldable pub looks_like_call : Bytes → Bool
looks_like_call s = not (ltb (length s) 3) && (any is_digit s && any is_letter s)

abbrev pub put_first : ℕ → Option Bytes → Option Bytes
put_first c none = none
put_first c (some s) = some (c ∷ s)

-- The text up to the first digit, from a letter on.
unfoldable pub up_to_first_digit : Bytes → Option Bytes
up_to_first_digit [] = none
up_to_first_digit (c ∷ s) =
    let rest = up_to_first_digit s in if is_digit c then some (c ∷ []) else put_first c rest

-- The text up to the first digit behind the first letter.
unfoldable pub from_first_letter : Bytes → Option Bytes
from_first_letter [] = none
from_first_letter (c ∷ s) =
    let rest = from_first_letter s in
    if is_letter c then up_to_first_digit (c ∷ s) else put_first c rest

abbrev pub or_all : Bytes → Option Bytes → Bytes
or_all call none = call
or_all call (some prefix) = prefix

unfoldable pub extract_wpx_prefix : Bytes → Bytes
unfolding from_first_letter up_to_first_digit
extract_wpx_prefix call = or_all call (from_first_letter call)

-- The end of ParseCallsign, with the parts that it has found.
unfoldable pub with_parts : Bytes → Bytes → Bytes → Bytes → Bool → ParsedCallsign
with_parts raw prefix_override base suffix known_suffix = record {
  raw = raw;
  base = base;
  prefix_override = prefix_override;
  suffix = suffix;
  known_suffix = known_suffix;
  wpx_prefix = if is_empty prefix_override then extract_wpx_prefix base else prefix_override;
}

-- The switch on the number of parts. There is always a part.
abbrev pub on_parts : Bytes → List Bytes → ParsedCallsign
on_parts raw [] = with_parts raw [] [] [] false
on_parts raw (base ∷ []) = with_parts raw [] base [] false
on_parts raw (left ∷ right ∷ []) =
    if member right known_suffixes
    then with_parts raw [] left right true
    else if looks_like_call right
    then with_parts raw left right [] false
    else with_parts raw [] left right false
on_parts raw (prefix ∷ base ∷ third ∷ parts) =
    let suffix = join b'/' (third ∷ parts) in
    with_parts raw prefix base suffix (member suffix known_suffixes)

unfoldable pub parse_callsign : Bytes → ParsedCallsign
unfolding with_parts
parse_callsign raw =
    let upper = to_upper (trim_space raw) in
    if is_empty upper
    then record {
      raw = upper;
      base = upper;
      prefix_override = [];
      suffix = [];
      known_suffix = false;
      wpx_prefix = [];
    }
    else on_parts upper (split b'/' upper)

unfoldable pub normalize_callsign : Bytes → Bytes
normalize_callsign s = to_upper (trim_space s)
