-- ===== src/Adif/Parser.antt =====
-- pkg/adif/parser.go: the streaming parser over an input held in memory: Header, Next and ParseAll.
-- A context is its `ctx.Err() != nil`, constant during a call. The loops take fuel and return `none`
-- when it runs out.
pub mod Total
pub mod Returns
pub mod Stored
pub mod Valid
pub mod Written
pub mod File
pub mod Headerless
use radioledger.Base.{
  ℕ, zero, suc, ◌+◌, Bool, true, false, not, ◌&&◌, List, [], ◌∷◌, ◌++◌, Option, none, some, leb,
  ◌*◌, ltb, ◌==◌, if◌then◌else◌, Bytes, length,
}
use radioledger.Adif.Record.{Field, Record, Header}
use radioledger.Adif.Scan.{
  Error, eof, too_many_records, context_error, parse_error, Marker, marker_none, marker_eor,
  marker_eoh, Scan, scan_fields, is_nil,
}

-- `ParserOptions`, with the defaults filled in.
pub record Options : Type 0 where
  pub max_field_len : ℕ
  pub max_records : ℕ

abbrev pub default_max_field_len : ℕ
default_max_field_len = 10 * 1024 * 1024

abbrev pub default_max_records : ℕ
default_max_records = 500_000

pub record Parser : Type 0 where
  pub rest : Bytes
  pub opts : Options
  pub header_done : Bool
  pub header : Option Header
  pub record_count : ℕ
  pub offset : ℕ
  pub prefetched_fields : List Field
  pub has_prefetch : Bool
  pub at_eof : Bool

abbrev default_if_zero : ℕ → ℕ → ℕ
default_if_zero zero d = d
default_if_zero (suc n) d = suc n

-- `NewParserWithOptions`; a limit that is not positive is 0 here.
unfoldable pub new_parser_with_options : Bytes → Options → Parser
new_parser_with_options input opts = record {
  rest = input;
  opts = record {
    max_field_len = default_if_zero opts.max_field_len default_max_field_len;
    max_records = default_if_zero opts.max_records default_max_records;
  };
  header_done = false;
  header = none;
  record_count = 0;
  offset = 0;
  prefetched_fields = [];
  has_prefetch = false;
  at_eof = false;
}

unfoldable pub new_parser : Bytes → Parser
unfolding new_parser_with_options
new_parser input = new_parser_with_options input (record { max_field_len = 0; max_records = 0 })

-- `Peek(3)` and `Discard(3)`: a byte order mark is dropped.
unfoldable pub strip_bom : Parser → Bytes → Parser
strip_bom p (a ∷ b ∷ c ∷ s) =
    if (a == 0xEF) && (b == 0xBB) && (c == 0xBF)
    then record p { rest = s; offset = p.offset + 3 }
    else p
strip_bom p _ = p

abbrev pub skip_bom : Parser → Parser
skip_bom p = strip_bom p p.rest

-- A call returns the parser that it leaves; `ok (none)` is Go's nil pointer.
pub data Result {ℓ} (A : Type ℓ) : Type ℓ where
  ok : A → Result A
  failed : Error → Result A

abbrev empty_header : Header
empty_header = record { fields = [] }

-- The three branches of `Header` on the marker, behind a scan with no error but io.EOF.
unfoldable pub set_header : Parser → Marker → List Field → Bool → Parser
set_header p marker_eoh fields ended = record p {
  header = some (record { fields = fields });
  at_eof = if ended then true else p.at_eof;
}
set_header p marker_eor fields ended = record p {
  header = some empty_header;
  prefetched_fields = fields;
  has_prefetch = not (is_nil fields);
}
set_header p marker_none fields ended = record p {
  header = some empty_header;
  prefetched_fields = fields;
  has_prefetch = not (is_nil fields);
  at_eof = true;
}

unfoldable pub after_scan : Parser → Scan → Parser
after_scan p s = record p { rest = s.rest; offset = s.offset }

-- `Header` behind its scan.
unfoldable pub finish_header : Parser → Scan → Option Error → Parser × Result (Option Header)
unfolding set_header after_scan
finish_header p s none =
    let q = set_header (after_scan p s) s.marker s.fields false in (q, ok q.header)
finish_header p s (some eof) =
    let q = set_header (after_scan p s) s.marker s.fields true in (q, ok q.header)
finish_header p s (some e) = (after_scan p s, failed e)

-- The end of a round of `Next`: a record, a skipped empty record, or an error.
pub data Turn : Type 0 where
  skip : Parser → Turn
  return : Parser → Result Record → Turn

unfoldable pub give : Parser → List Field → Turn
give p fields =
    return (record p { record_count = p.record_count + 1 }) (ok (record { fields = fields }))

-- `switch marker` of `Next`.
unfoldable pub on_marker : Parser → Marker → List Field → Turn
unfolding give
on_marker p marker_none [] = return p (failed eof)
on_marker p _ [] = if p.at_eof then return p (failed eof) else skip p
on_marker p _ (f ∷ fs) = give p (f ∷ fs)

unfoldable pub on_scan : Parser → List Field → Scan → Option Error → Turn
unfolding on_marker after_scan
on_scan p start s none = on_marker (after_scan p s) s.marker (start ++ s.fields)
on_scan p start s (some eof) =
    on_marker (record (after_scan p s) { at_eof = true }) s.marker (start ++ s.fields)
on_scan p start s (some e) = return (after_scan p s) (failed e)

unfoldable pub leftover : Parser → List Field → Turn
unfolding give
leftover p [] = return p (failed eof)
leftover p (f ∷ fs) = give p (f ∷ fs)

-- What `ParseAll` returns.
pub record Parsed : Type 0 where
  pub header : Option Header
  pub records : List Record
  pub err : Option Error

module _ (decode_windows1252 : Bytes → Option Bytes) where
  abbrev pub scan : Bool → Parser → Option Scan
  scan cancelled p =
      scan_fields decode_windows1252 (length p.rest + 1) cancelled p.opts.max_field_len [] p.rest
        p.offset

  -- The scan of `Header`, and what follows it.
  unfoldable pub scan_header : Bool → Parser → Option (Parser × Result (Option Header))
  scan_header cancelled q = elim (scan cancelled q) [
    | none ↦ none
    | some s ↦ some (finish_header q s s.err)
  ]

  unfoldable pub header : Bool → Parser → Option (Parser × Result (Option Header))
  header cancelled p =
      if p.header_done
      then some (p, ok p.header)
      else scan_header cancelled (skip_bom (record p { header_done = true }))

  -- A round of the loop of `Next`.
  unfoldable pub turn : Bool → Parser → Option Turn
  unfolding on_scan leftover
  turn cancelled p =
      let start = if p.has_prefetch then p.prefetched_fields else [] in
      let q = record p {
        has_prefetch = false;
        prefetched_fields = if p.has_prefetch then [] else p.prefetched_fields;
      } in
      if cancelled
      then some (return p (failed context_error))
      else if p.at_eof
      then some (leftover q start)
      else elim (scan cancelled q) [ none ↦ none | some s ↦ some (on_scan q start s s.err) ]

  unfoldable pub next_loop : ℕ → Bool → Parser → Option (Parser × Result Record)
  next_loop zero cancelled p = none
  next_loop (suc fuel) cancelled p = elim (turn cancelled p) [
    | none ↦ none
    | some (skip q) ↦ next_loop fuel cancelled q
    | some (return q r) ↦ some (q, r)
  ]

  -- `Next` behind the header.
  unfoldable pub next_record : Bool → Parser → Option (Parser × Result Record)
  unfolding next_loop
  next_record cancelled p =
      if cancelled
      then some (p, failed context_error)
      else if p.at_eof && not p.has_prefetch
      then some (p, failed eof)
      else if leb p.opts.max_records p.record_count
      then some (p, failed too_many_records)
      else next_loop (length p.rest + 2) cancelled p

  unfoldable pub next : Bool → Parser → Option (Parser × Result Record)
  unfolding next_record header scan_header finish_header strip_bom
  next cancelled p = if p.header_done then next_record cancelled p else elim (header cancelled p) [
    | none ↦ none
    | some (q, ok _) ↦ next_record cancelled q
    | some (q, failed e) ↦ some (q, failed e)
  ]

  unfoldable pub collect : ℕ → Bool → Option Header → List Record → Parser → Option Parsed
  collect zero cancelled h records p = none
  collect (suc fuel) cancelled h records p = elim (next cancelled p) [
    | none ↦ none
    | some (q, ok r) ↦ collect fuel cancelled h (records ++ r ∷ []) q
    | some (q, failed eof) ↦ some (record { header = h; records = records; err = none })
    | some (q, failed e) ↦ some (record { header = h; records = records; err = some e })
  ]

  -- The body of `ParseAll`, from a fresh parser.
  unfoldable pub parse_from : Bool → Parser → Option Parsed
  parse_from cancelled start = elim (header cancelled start) [
    | none ↦ none
    | some (p, failed e) ↦ some (record { header = none; records = []; err = some e })
    | some (p, ok h) ↦ collect (length start.rest + 3) cancelled h [] p
  ]

  unfoldable pub parse_all : Bool → Bytes → Option Parsed
  unfolding parse_from new_parser header scan_header finish_header strip_bom next collect
  parse_all cancelled input = parse_from cancelled (new_parser input)
