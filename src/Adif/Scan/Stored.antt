-- ===== src/Adif/Scan/Stored.antt =====
-- What the fields that `scanFields` of pkg/adif/parser.go collects look like.
use radioledger.Base.{
  ℕ, zero, suc, ◌+◌, ◌≡◌, ◌≢◌, refl, Bool, true, false, List, [], ◌∷◌, ◌++◌, Option, none, some,
  Bytes, All, if-ind, arith, equal, ltb, if◌then◌else◌,
}
use radioledger.Base.Text.{codes, to_upper, to_upper_idem}
use radioledger.Base.Utf8.{valid_utf8, to_valid_utf8-valid}
use radioledger.Adif.Record.{Field}
use radioledger.Adif.Tag.{
  Found, find_next_tag, Tag, parse_tag, Value, read_field_value, sanitize_decoded,
  sanitize_encoding,
}
use radioledger.Adif.Scan.{
  Scan, Round, again, done, stop, marker_none, is_nil, take_value, on_tag, on_found, round,
  scan_fields, eof,
}

-- A field as it is stored: the value is valid UTF-8, the name is in upper case and not empty.
pub record IsStored (f : Field) : Type 0 where
  pub value_valid : valid_utf8 f.value ≡ true
  pub name_upper : to_upper f.name ≡ f.name
  pub name_ne_nil : f.name ≢ []

-- What holds of the result of a fuelled call, if there is one.
abbrev pub IfAny : {A : Type 0} → (A → Type 0) → Option A → Type 0
IfAny P none = Unit
IfAny P (some a) = P a

pub All-append : (fs gs : List Field) → All IsStored fs → All IsStored gs → All IsStored (fs ++ gs)
All-append [] gs hf hg = hg
All-append (f ∷ fs) gs (h, hf) hg = (h, All-append fs gs hf hg)

abbrev RoundStores : Round → Type 0
RoundStores (again fields rest offset) = All IsStored fields
RoundStores (done s) = All IsStored s.fields

module _ (decode : Bytes → Option Bytes) where
  sanitize_decoded-valid :
      (s : Bytes) (d : Option Bytes) → valid_utf8 (sanitize_decoded decode s d) ≡ true
  unfolding sanitize_decoded
  sanitize_decoded-valid s none = to_valid_utf8-valid s
  sanitize_decoded-valid s (some d) = ground (arith, to_valid_utf8-valid s)

  sanitize_encoding-valid : (s : Bytes) → valid_utf8 (sanitize_encoding decode s) ≡ true
  unfolding sanitize_encoding
  sanitize_encoding-valid s = ground (arith, sanitize_decoded-valid s (decode s))

  more-IsStored :
      (fields : List Field) (tag : Tag) (s name : Bytes)
      → to_upper tag.name ≡ name
      → All IsStored fields
      → All IsStored (
          if is_nil name
          then fields
          else fields
            ++ record { name = name; value = sanitize_encoding decode s; type = tag.type } ∷ [])
  more-IsStored fields tag s [] e h = h
  more-IsStored fields tag s (c ∷ name) e h = All-append fields _ h (
    record {
      value_valid = sanitize_encoding-valid s;
      name_upper = rw (← e) (to_upper_idem tag.name);
      name_ne_nil = λ k. cc;
    },
    tt,
  )

  take_value-stores :
      (fields : List Field) (tag : Tag) (v : Value) (offset : ℕ)
      → All IsStored fields
      → RoundStores (take_value decode fields tag v offset)
  unfolding take_value
  take_value-stores fields tag v offset h =
      let more = more-IsStored fields tag v.value (to_upper tag.name) refl h in
      if-ind RoundStores v.eof (stop _ marker_none (some eof) v.rest (offset + v.read))
        (again _ v.rest (offset + v.read)) more more

  on_tag-stores :
      (max_len : ℕ) (fields : List Field) (at : Found) (tag : Option Tag)
      → All IsStored fields
      → RoundStores (on_tag decode max_len fields at tag)
  unfolding on_tag
  on_tag-stores max_len fields at none h = h
  on_tag-stores max_len fields at (some tag) h =
      if-ind RoundStores (equal (to_upper tag.name) (codes "EOR")) _ _ h (
        if-ind RoundStores (equal (to_upper tag.name) (codes "EOH")) _ _ h (
          if-ind RoundStores (ltb max_len tag.length) _ _ tt
            (take_value-stores fields tag (read_field_value tag.length at.rest) at.offset h)))

  on_found-stores :
      (max_len : ℕ) (fields : List Field) (rest : Bytes) (offset : ℕ) (f : Option Found)
      → All IsStored fields
      → RoundStores (on_found decode max_len fields rest offset f)
  unfolding on_found
  on_found-stores max_len fields rest offset none h = h
  on_found-stores max_len fields rest offset (some at) h =
      on_tag-stores max_len fields at (parse_tag at.content) h

  round-stores :
      (cancelled : Bool) (max_len : ℕ) (fields : List Field) (rest : Bytes) (offset : ℕ)
      → All IsStored fields
      → RoundStores (round decode cancelled max_len fields rest offset)
  unfolding round
  round-stores true max_len fields rest offset h = h
  round-stores false max_len fields rest offset h =
      on_found-stores max_len fields rest offset (find_next_tag rest offset) h

  pub scan_fields-stores :
      (fuel : ℕ) (cancelled : Bool) (max_len : ℕ) (fields : List Field) (rest : Bytes) (offset : ℕ)
      → All IsStored fields
      → IfAny
          (λ s. All IsStored s.fields)
          (scan_fields decode fuel cancelled max_len fields rest offset)
  unfolding scan_fields
  scan_fields-stores zero cancelled max_len fields rest offset h = tt
  scan_fields-stores (suc fuel) cancelled max_len fields rest offset h =
      (elim (round decode cancelled max_len fields rest offset)
          as (λ r.
            RoundStores r
            → IfAny (λ (s : Scan). All IsStored s.fields)
                (elim r [
                  | again fields' rest' o' ↦
                      scan_fields decode fuel cancelled max_len fields' rest' o'
                  | done s ↦ some s
                ])) [
                  | again fields' rest' o' ↦
                      λ stored. scan_fields-stores fuel cancelled max_len fields' rest' o' stored
                  | done s ↦ λ stored. stored
                ])
        (round-stores cancelled max_len fields rest offset h)
