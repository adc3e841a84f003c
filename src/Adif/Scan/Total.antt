-- ===== src/Adif/Scan/Total.antt =====
-- Termination of `scanFields` of pkg/adif/parser.go.
use radioledger.Base.{
  ℕ, zero, suc, ◌+◌, ◌≤◌, ◌<◌, ◌≡◌, refl, Bool, true, false, List, [], ◌∷◌, arith, Bytes, length,
  some, none, Option, ◌⊎◌, ◌≢◌, inl, inr, Option-cases, Bool-cases, length-drop-le, ltb, equal,
  ◌==◌,
}
use radioledger.Base.Text.{codes, to_upper, cut}
use radioledger.Adif.Record.{Field}
use radioledger.Adif.Tag.{
  Found, read_content, find_next_tag, Tag, parse_tag, Value, read_field_value,
}
use radioledger.Adif.Scan.{
  Scan, Round, again, done, marker_none, take_value, on_tag, on_found, round, scan_fields,
}

-- A fuelled call that does not run out, with what holds of its result.
abbrev pub Yields : {A : Type 0} → (A → Type 0) → Option A → Type 0
Yields P none = ⊥
Yields P (some a) = P a

-- The scan leaves a part of its input: with no marker it has an error, and at a marker it has
-- taken something.
abbrev pub Shrinks : ℕ → Scan → Type 0
Shrinks n s =
    (length s.rest ≤ n)
    × ((s.marker ≡ marker_none) × (s.err ≢ none) ⊎ (length s.rest < n) × (s.marker ≢ marker_none))

abbrev RoundShrinks : ℕ → Round → Type 0
RoundShrinks n (again fields rest offset) = length rest < n
RoundShrinks n (done s) = Shrinks n s

Yields-weaken : (m n : ℕ) (o : Option Scan) → m < n → Yields (Shrinks m) o → Yields (Shrinks n) o
Yields-weaken m n none h y = y
Yields-weaken m n (some s) h y = ground arith

cut-le : (c : ℕ) (s : Bytes) {a b : Bytes} → cut c s ≡ some (a, b) → length b ≤ length s
unfolding cut
cut-le c [] h = cc
cut-le c (x ∷ s) {a} {b} h = elim (Option-cases (cut c s)) [
  | inl absent ↦ ground (arith, absent)
  | inr (p, found) ↦ ground (arith, found, cut-le c s {a = p.0} {b = p.1} found)
]

read_content-le : (s : Bytes) (o : ℕ) → length (read_content s o).rest ≤ length s
unfolding read_content
read_content-le s o = elim (Option-cases (cut b'>' s)) [
  | inl absent ↦ rw (absent, read_content) (omega arith)
  | inr (p, found) ↦ rw (found, read_content) (cut-le b'>' s found)
]

abbrev FoundIn : ℕ → Option Found → Type 0
FoundIn n none = Unit
FoundIn n (some at) = length at.rest < n

FoundIn-suc : (n : ℕ) (f : Option Found) → FoundIn n f → FoundIn (suc n) f
FoundIn-suc n none h = tt
FoundIn-suc n (some at) h = omega arith

find_next_tag-lt : (s : Bytes) (o : ℕ) → FoundIn (length s) (find_next_tag s o)
unfolding find_next_tag
find_next_tag-lt [] o = tt
find_next_tag-lt (b ∷ s) o = elim (Bool-cases (b == b'<')) [
  | inl open_tag ↦ rw (open_tag, find_next_tag) (omega (arith, read_content-le s (o + 1)))
  | inr other ↦
      rw (other, find_next_tag)
        (FoundIn-suc (length s) (find_next_tag s (o + 1)) (find_next_tag-lt s (o + 1)))
]

read_field_value-le : (n : ℕ) (s : Bytes) → length (read_field_value n s).rest ≤ length s
unfolding read_field_value
read_field_value-le n s = ground (arith, length-drop-le n s)

module _ (decode : Bytes → Option Bytes) where
  take_value-shrinks :
      (n : ℕ) (fields : List Field) (tag : Tag) (v : Value) (o : ℕ)
      → length v.rest < n
      → RoundShrinks n (take_value decode fields tag v o)
  unfolding take_value
  take_value-shrinks n fields tag v o h = elim (Bool-cases v.eof) [
    | inl ended ↦ rw (ended, take_value) (omega arith, inl (refl, λ e. cc))
    | inr more ↦ rw (more, take_value) h
  ]

  on_tag-shrinks :
      (n max_len : ℕ) (fields : List Field) (at : Found) (tag : Option Tag)
      → length at.rest < n
      → RoundShrinks n (on_tag decode max_len fields at tag)
  unfolding on_tag
  on_tag-shrinks n max_len fields at none h = h
  on_tag-shrinks n max_len fields at (some tag) h =
      elim (Bool-cases (equal (to_upper tag.name) (codes "EOR"))) [
        | inl eor ↦ rw (eor, on_tag) (omega arith, inr (h, λ e. cc))
        | inr not_eor ↦ elim (Bool-cases (equal (to_upper tag.name) (codes "EOH"))) [
          | inl eoh ↦ rw (not_eor, eoh, on_tag) (omega arith, inr (h, λ e. cc))
          | inr not_eoh ↦ elim (Bool-cases (ltb max_len tag.length)) [
            | inl long ↦ rw (not_eor, not_eoh, long, on_tag) (omega arith, inl (refl, λ e. cc))
            | inr fits ↦
                rw (not_eor, not_eoh, fits, on_tag)
                  (take_value-shrinks n fields tag (read_field_value tag.length at.rest) at.offset
                    (omega (arith, read_field_value-le tag.length at.rest)))
          ]
        ]
      ]

  on_found-shrinks :
      (max_len : ℕ) (fields : List Field) (rest : Bytes) (o : ℕ) (f : Option Found)
      → FoundIn (length rest) f
      → RoundShrinks (length rest) (on_found decode max_len fields rest o f)
  unfolding on_found
  on_found-shrinks max_len fields rest o none h = (omega arith, inl (refl, λ e. cc))
  on_found-shrinks max_len fields rest o (some at) h =
      on_tag-shrinks (length rest) max_len fields at (parse_tag at.content) h

  round-shrinks :
      (cancelled : Bool) (max_len : ℕ) (fields : List Field) (rest : Bytes) (o : ℕ)
      → RoundShrinks (length rest) (round decode cancelled max_len fields rest o)
  unfolding round
  round-shrinks true max_len fields rest o = (omega arith, inl (refl, λ e. cc))
  round-shrinks false max_len fields rest o =
      on_found-shrinks max_len fields rest o (find_next_tag rest o) (find_next_tag-lt rest o)

  -- With more fuel than bytes the scan ends.
  pub scan_fields_total :
      (fuel : ℕ) (cancelled : Bool) (max_len : ℕ) (fields : List Field) (rest : Bytes) (o : ℕ)
      → length rest < fuel
      → Yields (Shrinks (length rest)) (scan_fields decode fuel cancelled max_len fields rest o)
  unfolding scan_fields
  scan_fields_total zero cancelled max_len fields rest o h = absurd (omega arith)
  scan_fields_total (suc fuel) cancelled max_len fields rest o h =
      (elim (round decode cancelled max_len fields rest o)
          as (λ r.
            RoundShrinks (length rest) r
            → Yields (Shrinks (length rest)) (elim r [
              | again fields' rest' o' ↦ scan_fields decode fuel cancelled max_len fields' rest' o'
              | done s ↦ some s
            ])) [
              | again fields' rest' o' ↦ λ less.
                  Yields-weaken (length rest') (length rest) _ less
                    (scan_fields_total fuel cancelled max_len fields' rest' o' (omega arith))
              | done s ↦ λ shrinks. shrinks
            ])
        (round-shrinks cancelled max_len fields rest o)
