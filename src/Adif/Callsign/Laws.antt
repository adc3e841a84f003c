-- ===== src/Adif/Callsign/Laws.antt =====
-- pkg/adif/callsign.go: what the parts of a call sign say of it, and its WPX prefix beside that of
-- api/internal/services/awards/wpx.go.
use radioledger.Base.{
  ℕ, ◌≡◌, refl, sym, ◌∙◌, Bool, true, false, Bytes, List, [], ◌∷◌, ◌++◌, Option, none, some, arith,
  Bool-cases, inl, inr, if◌then◌else◌, if-ind, append-nil, append_assoc, member, any,
}
use radioledger.Base.Text.{
  is_empty, is_digit, is_letter, join, join-split, split, split-lacks, lacks, to_upper, trim_space,
  cut-lacks,
}
use radioledger.Awards.Wpx.{wpx_prefix, base_call, up_to_digit, digit_or_all}
use radioledger.Adif.Callsign.{
  ParsedCallsign, parse_callsign, on_parts, with_parts, looks_like_call, known_suffixes,
  extract_wpx_prefix, normalize_callsign, from_first_letter, up_to_first_digit, or_all, put_first,
}

-- The parts with a stroke between them.
abbrev pub rejoined : ParsedCallsign → Bytes
rejoined p =
    (if is_empty p.prefix_override then p.base else p.prefix_override ++ b'/' ∷ p.base)
    ++ (if is_empty p.suffix then [] else b'/' ∷ p.suffix)

rejoined-with_parts :
    (raw prefix base suffix : Bytes) (known : Bool)
    → rejoined (with_parts raw prefix base suffix known)
      ≡ (if is_empty prefix then base else prefix ++ b'/' ∷ base)
        ++ (if is_empty suffix then [] else b'/' ∷ suffix)
unfolding with_parts
rejoined-with_parts raw prefix base suffix known = refl

-- The two ends of a text with a stroke are its parts.
two-rejoined :
    (raw left right : Bytes)
    → is_empty left ≡ false
    → is_empty right ≡ false
    → rejoined (on_parts raw (left ∷ right ∷ [])) ≡ left ++ b'/' ∷ right
unfolding with_parts
two-rejoined raw left right l r =
    if-ind (λ p. rejoined p ≡ left ++ b'/' ∷ right) (member right known_suffixes) _ _ (rw r refl)
      (if-ind (λ p. rejoined p ≡ left ++ b'/' ∷ right) (looks_like_call right) _ _
        (rw l (append-nil (left ++ b'/' ∷ right))) (rw r refl))

join-nonempty :
    (c : ℕ) (part : Bytes) (parts : List Bytes)
    → is_empty part ≡ false
    → is_empty (join c (part ∷ parts)) ≡ false
unfolding join
join-nonempty c part [] h = h
join-nonempty c [] (next ∷ parts) h = refl
join-nonempty c (x ∷ part) (next ∷ parts) h = refl

on_parts-rejoined :
    (raw : Bytes) (parts : List Bytes)
    → any is_empty parts ≡ false
    → rejoined (on_parts raw parts) ≡ join b'/' parts
unfolding any join with_parts
on_parts-rejoined raw [] h = refl
on_parts-rejoined raw (base ∷ []) h = append-nil base
on_parts-rejoined raw (left ∷ right ∷ []) h =
    two-rejoined raw left right (ground arith) (ground arith)
on_parts-rejoined raw (prefix ∷ base ∷ (third ∷ parts)) h =
    let p : is_empty prefix ≡ false = ground arith in
    let t : is_empty third ≡ false = ground arith in
    rw (p, join-nonempty b'/' third parts t)
      (append_assoc prefix (b'/' ∷ base) (b'/' ∷ join b'/' (third ∷ parts)))

-- When no part between the strokes of a call sign is empty, the prefix override, the base and the
-- suffix that ParseCallsign finds, with the strokes between them, are the trimmed call sign in upper
-- case.
pub parse_callsign-rejoined :
    (raw : Bytes)
    → any is_empty (split b'/' (normalize_callsign raw)) ≡ false
    → rejoined (parse_callsign raw) ≡ normalize_callsign raw
unfolding normalize_callsign parse_callsign
parse_callsign-rejoined raw h =
    let upper = to_upper (trim_space raw) in
    if-ind (λ p. rejoined p ≡ upper) (is_empty upper) _ _ (append-nil upper)
      (on_parts-rejoined upper (split b'/' upper) h ∙ join-split b'/' upper)

up_to_first_digit-up_to_digit : (s : Bytes) → up_to_first_digit s ≡ up_to_digit s
unfolding up_to_digit up_to_first_digit
up_to_first_digit-up_to_digit [] = refl
up_to_first_digit-up_to_digit (c ∷ s) =
    rw (up_to_first_digit-up_to_digit s)
      (elim (up_to_digit s)
        as (λ o. (if is_digit c then some (c ∷ []) else put_first c o) ≡ (
          if is_digit c then some (c ∷ []) else elim o [ none ↦ none | some t ↦ some (c ∷ t) ])) [
            | none ↦ refl
            | some t ↦ refl
          ])

or_all-digit_or_all : (s : Bytes) (o : Option Bytes) → or_all s o ≡ digit_or_all s o
unfolding digit_or_all
or_all-digit_or_all s none = refl
or_all-digit_or_all s (some t) = refl

-- The first byte is a letter.
abbrev pub starts_with_letter : Bytes → Bool
starts_with_letter [] = false
starts_with_letter (c ∷ s) = is_letter c

extract_wpx_prefix-up_to_digit :
    (s : Bytes)
    → starts_with_letter s ≡ true
    → extract_wpx_prefix s ≡ digit_or_all s (up_to_digit s)
unfolding extract_wpx_prefix from_first_letter
extract_wpx_prefix-up_to_digit [] h = ground arith
extract_wpx_prefix-up_to_digit (c ∷ s) h =
    rw (h, up_to_first_digit-up_to_digit (c ∷ s))
      (or_all-digit_or_all (c ∷ s) (up_to_digit (c ∷ s)))

base_call-lacks : (s : Bytes) → lacks b'/' s ≡ true → base_call s ≡ s
unfolding base_call
base_call-lacks s h = rw (base_call, cut-lacks b'/' s h) refl

wpx_prefix-lacks :
    (call : Bytes)
    → lacks b'/' (normalize_callsign call) ≡ true
    → starts_with_letter (normalize_callsign call) ≡ true
    → wpx_prefix call ≡ extract_wpx_prefix (normalize_callsign call)
unfolding wpx_prefix extract_wpx_prefix from_first_letter normalize_callsign to_upper trim_space
wpx_prefix-lacks [] h k = refl
wpx_prefix-lacks (c ∷ call) h k =
    rw (base_call-lacks (to_upper (trim_space (c ∷ call))) h)
      (sym (extract_wpx_prefix-up_to_digit (to_upper (trim_space (c ∷ call))) k))

extract_wpx_prefix-empty : (s : Bytes) → is_empty s ≡ true → [] ≡ extract_wpx_prefix s
unfolding extract_wpx_prefix from_first_letter
extract_wpx_prefix-empty [] h = refl
extract_wpx_prefix-empty (c ∷ s) h = ground arith

parse_callsign-lacks :
    (call : Bytes)
    → lacks b'/' (normalize_callsign call) ≡ true
    → (parse_callsign call).wpx_prefix ≡ extract_wpx_prefix (normalize_callsign call)
unfolding parse_callsign normalize_callsign with_parts
parse_callsign-lacks call h =
    let upper = to_upper (trim_space call) in
    rw (split-lacks b'/' upper h) (elim (Bool-cases (is_empty upper)) [
      | inl e ↦ rw e (extract_wpx_prefix-empty upper e)
      | inr e ↦ rw e refl
    ])

-- For a call sign that begins with a letter and has no stroke ParseCallsign of pkg/adif and
-- WPXPrefix of the awards find the same WPX prefix.
pub parse_callsign-wpx_prefix :
    (call : Bytes)
    → lacks b'/' (normalize_callsign call) ≡ true
    → starts_with_letter (normalize_callsign call) ≡ true
    → (parse_callsign call).wpx_prefix ≡ wpx_prefix call
parse_callsign-wpx_prefix call h k = parse_callsign-lacks call h ∙ sym (wpx_prefix-lacks call h k)
