-- ===== src/Adif/Scan/Written.antt =====
-- `scanFields` of pkg/adif/parser.go on a run of fields that pkg/adif/writer.go printed.
use radioledger.Base.{
  ℕ, zero, suc, ◌+◌, ◌^◌, ◌≤◌, ◌<◌, ◌≡◌, ◌≢◌, refl, ◌∙◌, true, false, List, [], ◌∷◌, ◌++◌, arith,
  Bytes, length, some, none, Option, append_assoc, append-nil, equal, All,
}
use radioledger.Base.Utf8.{valid_utf8}
use radioledger.Base.Decimal.{decimal, decimal-lacks}
use radioledger.Base.Text.{codes, to_upper, trim_space, lacks, lacks-append}
use radioledger.Adif.Record.{Field}
use radioledger.Adif.Writer.{tag_content, type_part, field_text}
use radioledger.Adif.Tag.{parse_tag, sanitize_encoding}
use radioledger.Adif.Tag.Written.{find_next_tag-written, read_field_value-append, parse_tag-written}
use radioledger.Adif.Scan.{
  Scan, again, done, stop, Marker, marker_none, marker_eor, marker_eoh, on_tag, on_found, round,
  scan_fields,
}

-- A field that can be written and read back: its name is in upper case, is no marker and, like its
-- type, holds no delimiter and no outer space; its value is valid UTF-8 within the parser's limit.
pub record IsWritable (max_len : ℕ) (f : Field) : Type 0 where
  pub name_ne_nil : f.name ≢ []
  pub name_upper : to_upper f.name ≡ f.name
  pub name_trimmed : trim_space f.name ≡ f.name
  pub name_colon : lacks b':' f.name ≡ true
  pub name_close : lacks b'>' f.name ≡ true
  pub name_not_eor : equal f.name (codes "EOR") ≡ false
  pub name_not_eoh : equal f.name (codes "EOH") ≡ false
  pub type_trimmed : trim_space f.type ≡ f.type
  pub type_close : lacks b'>' f.type ≡ true
  pub value_valid : valid_utf8 f.value ≡ true
  pub value_fits : length f.value ≤ max_len

field_text-append :
    (f : Field) (rest : Bytes)
    → field_text f ++ rest ≡ b'<' ∷ (tag_content f ++ (b'>' ∷ (f.value ++ (b'\n' ∷ rest))))
unfolding field_text
field_text-append f rest = simp append_assoc

lacks-type_part : (c : ℕ) (t : Bytes) → lacks c t ≡ true → b':' ≢ c → lacks c (type_part t) ≡ true
lacks-type_part c [] h k = h
lacks-type_part c (d ∷ t) h k = unfold lacks in ground arith

tag_content-close : (f : Field) {m : ℕ} → IsWritable m f → lacks b'>' (tag_content f) ≡ true
unfolding tag_content
tag_content-close f w =
    lacks-append b'>' f.name (b':' ∷ (decimal (length f.value) ++ type_part f.type)) w.name_close (
      unfold lacks in
      lacks-append b'>' (decimal (length f.value)) (type_part f.type)
        (decimal-lacks (length f.value) b'>' (omega arith))
        (lacks-type_part b'>' f.type w.type_close (omega arith)))

abbrev pub fields_text : List Field → Bytes
fields_text [] = []
fields_text (f ∷ fs) = field_text f ++ fields_text fs

-- A marker that `scanFields` stops at, and its text.
abbrev pub marker_text : Marker → Bytes
marker_text marker_eor = codes "EOR"
marker_text marker_eoh = codes "EOH"
marker_text marker_none = []

module _ (decode : Bytes → Option Bytes) (max_len : ℕ) (bound : max_len < 2 ^ 63) where
  on_tag-written :
      (acc : List Field) (f : Field) (rest : Bytes) (o : ℕ)
      → IsWritable max_len f
      → on_tag decode max_len acc
          (record { content = tag_content f; rest = f.value ++ (b'\n' ∷ rest); offset = o })
          (some (record { name = f.name; length = length f.value; type = f.type }))
        ≡ again (acc ++ f ∷ []) (b'\n' ∷ rest) (o + length f.value)
  unfolding on_tag sanitize_encoding
  on_tag-written acc f rest o w = ground (arith, w, read_field_value-append f.value (b'\n' ∷ rest))

  parse_tag-content :
      (f : Field)
      → IsWritable max_len f
      → parse_tag (tag_content f)
        ≡ some (record { name = f.name; length = length f.value; type = f.type })
  unfolding tag_content
  parse_tag-content f w =
      parse_tag-written f.name f.type (length f.value) (omega (arith, w.value_fits)) (record {
        name_ne_nil = w.name_ne_nil;
        name_trimmed = w.name_trimmed;
        name_colon = w.name_colon;
        type_trimmed = w.type_trimmed;
      })

  -- A round reads one printed field.
  round-written :
      (junk : Bytes) (acc : List Field) (f : Field) (rest : Bytes) (o : ℕ)
      → lacks b'<' junk ≡ true
      → IsWritable max_len f
      → (o' : ℕ) × (round decode false max_len acc (junk ++ (field_text f ++ rest)) o
          ≡ again (acc ++ f ∷ []) (b'\n' ∷ rest) o')
  unfolding round
  round-written junk acc f rest o j w =
      let (o', found) =
        find_next_tag-written junk (tag_content f) (f.value ++ (b'\n' ∷ rest)) o j
          (tag_content-close f w) in
      (
        o' + length f.value,
        rw (field_text-append f rest)
            (rw (found, on_found) (rw (parse_tag-content f w) (on_tag-written acc f rest o' w))),
      )

  round-marker :
      (m : Marker) (junk : Bytes) (acc : List Field) (rest : Bytes) (o : ℕ)
      → m ≢ marker_none
      → lacks b'<' junk ≡ true
      → (o' : ℕ) × (round decode false max_len acc (junk ++ b'<' ∷ (marker_text m ++ b'>' ∷ rest)) o
          ≡ stop acc m none rest o')
  unfolding round
  round-marker marker_none junk acc rest o h j = absurd (h refl)
  round-marker marker_eor junk acc rest o h j =
      let (o', found) = find_next_tag-written junk (codes "EOR") rest o j (unfold lacks in refl) in
      (o', rw (found, on_found) (unfold on_tag parse_tag to_upper equal lacks trim_space in refl))
  round-marker marker_eoh junk acc rest o h j =
      let (o', found) = find_next_tag-written junk (codes "EOH") rest o j (unfold lacks in refl) in
      (o', rw (found, on_found) (unfold on_tag parse_tag to_upper equal lacks trim_space in refl))

  module _ (fuel : ℕ) (acc : List Field) (input : Bytes) (o : ℕ) where
    pub scan_fields-again :
        {fields : List Field} {rest : Bytes} {o' : ℕ}
        → round decode false max_len acc input o ≡ again fields rest o'
        → scan_fields decode (suc fuel) false max_len acc input o
          ≡ scan_fields decode fuel false max_len fields rest o'
    unfolding scan_fields
    scan_fields-again h = rw (h, scan_fields)

    pub scan_fields-done :
        {s : Scan}
        → round decode false max_len acc input o ≡ done s
        → scan_fields decode (suc fuel) false max_len acc input o ≡ some s
    unfolding scan_fields
    scan_fields-done h = rw (h, scan_fields)

  -- Printed fields up to a marker are read back, in order, whatever stands in front without a `<`.
  pub scan_fields-written :
      (m : Marker) (fs : List Field) (fuel : ℕ) (junk : Bytes) (acc : List Field) (rest : Bytes)
      (o : ℕ)
      → m ≢ marker_none
      → length fs < fuel
      → lacks b'<' junk ≡ true
      → All (IsWritable max_len) fs
      → (o' : ℕ) × (scan_fields decode fuel false max_len acc
            (junk ++ (fields_text fs ++ b'<' ∷ (marker_text m ++ b'>' ∷ rest)))
            o
          ≡ some (record { fields = acc ++ fs; marker = m; err = none; rest = rest; offset = o' }))
  scan_fields-written m fs zero junk acc rest o h l j w = absurd (omega arith)
  scan_fields-written m [] (suc fuel) junk acc rest o h l j w =
      let (o', e) = round-marker m junk acc rest o h j in
      (
        o',
        rw append-nil
            (scan_fields-done fuel acc (junk ++ b'<' ∷ (marker_text m ++ b'>' ∷ rest)) o e),
      )
  scan_fields-written m (f ∷ fs) (suc fuel) junk acc rest o h l j w =
      let tail = fields_text fs ++ b'<' ∷ (marker_text m ++ b'>' ∷ rest) in
      let (o', e) = round-written junk acc f tail o j w.0 in
      let (o'', ih) =
        scan_fields-written m fs fuel (b'\n' ∷ []) (acc ++ f ∷ []) rest o' h (omega arith)
          (unfold lacks in refl) w.1 in
      (
        o'',
        rw append_assoc (
            scan_fields-again fuel acc (junk ++ (field_text f ++ tail)) o e
            ∙ (rw append_assoc at ih)),
      )
