-- ===== src/Adif/Scan.antt =====
-- pkg/adif/parser.go: `scanFields`, over the rest of an input held in memory. A context is its
-- `ctx.Err() != nil`, constant during a call. The loop takes fuel and returns `none` when it runs
-- out; each round takes at least one byte, so one more than the bytes left is enough.
pub mod Total
pub mod Stored
pub mod Written
use radioledger.Base.{
  ℕ, zero, suc, ◌+◌, Bool, true, false, not, ◌&&◌, List, [], ◌∷◌, ◌++◌, Option, none, some, leb,
  ltb, ◌==◌, if◌then◌else◌, Bytes, length, equal,
}
use radioledger.Base.Text.{codes, to_upper}
use radioledger.Adif.Record.{Field, Record, Header}
use radioledger.Adif.Tag.{
  Found, find_next_tag, Tag, parse_tag, Value, read_field_value, sanitize_encoding,
}

-- io.EOF, ErrTooManyRecords, `ctx.Err()` and ParseError with its offset and the field's claim.
pub data Error : Type 0 where
  eof too_many_records context_error : Error
  parse_error : ℕ → Bytes → ℕ → Error

pub data Marker : Type 0 where
  marker_none marker_eor marker_eoh : Marker

-- What `scanFields` returns, and the reader and offset that it leaves.
pub record Scan : Type 0 where
  pub fields : List Field
  pub marker : Marker
  pub err : Option Error
  pub rest : Bytes
  pub offset : ℕ

-- One round of the loop: another round, or a return.
pub data Round : Type 0 where
  again : List Field → Bytes → ℕ → Round
  done : Scan → Round

abbrev pub stop : List Field → Marker → Option Error → Bytes → ℕ → Round
stop fields marker err rest offset =
    done (record { fields = fields; marker = marker; err = err; rest = rest; offset = offset })

abbrev pub is_nil {ℓ} : {A : Type ℓ} → List A → Bool
is_nil [] = true
is_nil (_ ∷ _) = false

module _ (decode_windows1252 : Bytes → Option Bytes) where
  -- The end of a round: the value is read, repaired and appended.
  unfoldable pub take_value : List Field → Tag → Value → ℕ → Round
  take_value fields tag v offset =
      let upper = to_upper tag.name in
      let value = sanitize_encoding decode_windows1252 v.value in
      let more =
        if is_nil upper
        then fields
        else fields ++ record { name = upper; value = value; type = tag.type } ∷ [] in
      if v.eof
      then stop more marker_none (some eof) v.rest (offset + v.read)
      else again more v.rest (offset + v.read)

  -- A round behind `parseTag`; a malformed tag is skipped.
  unfoldable pub on_tag : ℕ → List Field → Found → Option Tag → Round
  unfolding take_value
  on_tag max_len fields at none = again fields at.rest at.offset
  on_tag max_len fields at (some tag) =
      let upper = to_upper tag.name in
      if equal upper (codes "EOR")
      then stop fields marker_eor none at.rest at.offset
      else if equal upper (codes "EOH")
      then stop fields marker_eoh none at.rest at.offset
      else if ltb max_len tag.length
      then stop [] marker_none (some (parse_error at.offset tag.name tag.length)) at.rest at.offset
      else take_value fields tag (read_field_value tag.length at.rest) at.offset

  unfoldable pub on_found : ℕ → List Field → Bytes → ℕ → Option Found → Round
  unfolding on_tag
  on_found max_len fields rest offset none =
      stop fields marker_none (some eof) [] (offset + length rest)
  on_found max_len fields rest offset (some at) = on_tag max_len fields at (parse_tag at.content)

  unfoldable pub round : Bool → ℕ → List Field → Bytes → ℕ → Round
  unfolding on_found
  round cancelled max_len fields rest offset =
      if cancelled
      then stop fields marker_none (some context_error) rest offset
      else on_found max_len fields rest offset (find_next_tag rest offset)

  -- `scanFields`. It reads in header mode as in record mode: `isHeader` is not used.
  unfoldable pub scan_fields : ℕ → Bool → ℕ → List Field → Bytes → ℕ → Option Scan
  scan_fields zero cancelled max_len fields rest offset = none
  scan_fields (suc fuel) cancelled max_len fields rest offset =
      elim (round cancelled max_len fields rest offset) [
        | again fields' rest' offset' ↦ scan_fields fuel cancelled max_len fields' rest' offset'
        | done s ↦ some s
      ]
