-- ===== src/Base/Text.antt =====
-- Go's `strings` on ASCII text, byte by byte: ToUpper, ToLower, TrimSpace, Split. A byte from 128
-- up is left alone.
pub mod Trim
use Prim.Native.Char.{code}
use Prim.Native.String.{String}
use mathlib.Core.Option
use radioledger.Base.{
  sym, ap, ◌∙◌, Bool-cases, inl, inr, List, ℕ, ◌+◌, ◌-◌, ◌≡◌, refl, Bool, true, false, not, ◌&&◌,
  ◌||◌, [], ◌∷◌, ◌++◌, Option, none, some, arith, leb, ◌==◌, if◌then◌else◌, Bytes, ==_iff,
}

abbrev pub is_empty : Bytes → Bool
is_empty [] = true
is_empty (c ∷ s) = false

-- The bytes of an ASCII literal.
abbrev pub codes : String → Bytes
codes String.[] = []
codes (String.◌∷◌ c s) = code c ∷ codes s

unfoldable pub is_upper : ℕ → Bool
is_upper c = leb b'A' c && leb c b'Z'

unfoldable pub is_lower : ℕ → Bool
is_lower c = leb b'a' c && leb c b'z'

-- `unicode.IsLetter` and `unicode.IsDigit`.
unfoldable pub is_letter : ℕ → Bool
unfolding is_upper is_lower
is_letter c = is_upper c || is_lower c

unfoldable pub is_digit : ℕ → Bool
is_digit c = leb b'0' c && leb c b'9'

-- `unicode.IsSpace`: tab, newline, vertical tab, form feed, return and space.
unfoldable pub is_space : ℕ → Bool
is_space c = (leb 9 c && leb c 13) || c == 32

unfoldable pub upper_byte : ℕ → ℕ
unfolding is_lower
upper_byte c = if is_lower c then c - 32 else c

unfoldable pub lower_byte : ℕ → ℕ
unfolding is_upper
lower_byte c = if is_upper c then c + 32 else c

-- `strings.ToUpper` and `strings.ToLower`.
unfoldable pub to_upper : Bytes → Bytes
unfolding upper_byte
to_upper [] = []
to_upper (c ∷ s) = upper_byte c ∷ to_upper s

unfoldable pub to_lower : Bytes → Bytes
unfolding lower_byte
to_lower [] = []
to_lower (c ∷ s) = lower_byte c ∷ to_lower s

pub to_upper_idem : (s : Bytes) → to_upper (to_upper s) ≡ to_upper s
unfolding to_upper
to_upper_idem [] = refl
to_upper_idem (c ∷ s) = ground (arith, to_upper_idem s)

-- `strings.TrimLeftFunc(s, unicode.IsSpace)`.
unfoldable pub trim_left : Bytes → Bytes
unfolding is_space
trim_left [] = []
trim_left (c ∷ s) = if is_space c then trim_left s else c ∷ s

-- Drops the spaces at the end.
unfoldable pub trim_right : Bytes → Bytes
unfolding is_space
trim_right [] = []
trim_right (c ∷ s) = elim (trim_right s) [
  | [] ↦ if is_space c then [] else c ∷ []
  | d ∷ t ↦ c ∷ d ∷ t
]

-- `strings.TrimSpace`.
unfoldable pub trim_space : Bytes → Bytes
unfolding trim_left trim_right
trim_space s = trim_right (trim_left s)

-- `strings.Cut`: the text before the first byte `c`, and the text behind it.
unfoldable pub cut : ℕ → Bytes → Option (Bytes × Bytes)
cut c [] = none
cut c (x ∷ s) = elim (x == c) [
  | true ↦ some ([], s)
  | false ↦ Option.map (λ (ends : Bytes × Bytes). (x ∷ ends.0, ends.1)) (cut c s)
]

abbrev push : ℕ → List Bytes → List Bytes
push c [] = (c ∷ []) ∷ []
push c (part ∷ parts) = (c ∷ part) ∷ parts

-- `strings.Split` at one byte: never without a part.
unfoldable pub split : ℕ → Bytes → List Bytes
split c [] = [] ∷ []
split c (x ∷ s) = let rest = split c s in if x == c then [] ∷ rest else push x rest

-- `strings.Join` with one byte between the parts.
unfoldable pub join : ℕ → List Bytes → Bytes
join c [] = []
join c (part ∷ []) = part
join c (part ∷ next ∷ parts) = part ++ c ∷ join c (next ∷ parts)

join-push :
    (c x : ℕ) (part : Bytes) (parts : List Bytes)
    → join c (push x (part ∷ parts)) ≡ x ∷ join c (part ∷ parts)
unfolding join
join-push c x part [] = refl
join-push c x part (next ∷ parts) = refl

split-cons :
    (c : ℕ) (s : Bytes) → (part : Bytes) × (parts : List Bytes) × (split c s ≡ part ∷ parts)
unfolding split
split-cons c [] = ([], [], refl)
split-cons c (x ∷ s) =
    let (part, parts, e) = split-cons c s in
    elim (x == c)
      as (λ t.
        (p : Bytes) × (ps : List Bytes) × ((if t then [] ∷ split c s else push x (split c s))
          ≡ p ∷ ps)) [ true ↦ ([], split c s, refl) | false ↦ (x ∷ part, parts, ap (push x) e) ]

-- The parts of a text, with the byte between them, are the text.
pub join-split : (c : ℕ) (s : Bytes) → join c (split c s) ≡ s
unfolding split join
join-split c [] = refl
join-split c (x ∷ s) =
    let (part, parts, e) = split-cons c s in
    let ih : join c (part ∷ parts) ≡ s = rw (sym e) (join-split c s) in
    elim (Bool-cases (x == c)) [
      | inl same ↦ rw (same, e, ih) (ap (λ d. d ∷ s) (sym ((==_iff x c).0 same)))
      | inr other ↦ rw (other, e) (join-push c x part parts ∙ ap (◌∷◌ x) ih)
    ]

-- No byte of the text is `c`.
unfoldable pub lacks : ℕ → Bytes → Bool
lacks c [] = true
lacks c (x ∷ s) = not (x == c) && lacks c s

pub cut-append : (c : ℕ) (s t : Bytes) → lacks c s ≡ true → cut c (s ++ c ∷ t) ≡ some (s, t)
unfolding cut lacks
cut-append c [] t h = ground arith
cut-append c (x ∷ s) t h = ground (arith, cut-append c s t)

pub cut-lacks : (c : ℕ) (s : Bytes) → lacks c s ≡ true → cut c s ≡ none
unfolding cut lacks
cut-lacks c [] h = refl
cut-lacks c (x ∷ s) h = ground (arith, cut-lacks c s)

pub lacks-append :
    (c : ℕ) (s t : Bytes) → lacks c s ≡ true → lacks c t ≡ true → lacks c (s ++ t) ≡ true
unfolding lacks
lacks-append c [] t h k = k
lacks-append c (x ∷ s) t h k = ground (arith, lacks-append c s t)

pub split-lacks : (c : ℕ) (s : Bytes) → lacks c s ≡ true → split c s ≡ s ∷ []
unfolding split lacks
split-lacks c [] h = refl
split-lacks c (x ∷ s) h = ground (arith, split-lacks c s)

-- `strings.HasPrefix` and `strings.Contains`.
unfoldable pub starts_with : Bytes → Bytes → Bool
starts_with [] s = true
starts_with (c ∷ part) [] = false
starts_with (c ∷ part) (d ∷ s) = c == d && starts_with part s

unfoldable pub contains : Bytes → Bytes → Bool
unfolding starts_with
contains part [] = starts_with part []
contains part (c ∷ s) = starts_with part (c ∷ s) || contains part s
