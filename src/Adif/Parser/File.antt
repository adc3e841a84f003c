-- ===== src/Adif/Parser/File.antt =====
-- `ParseAll` of pkg/adif/parser.go on a whole printed file, header and records.
use native.Mathlib.Nat.{zero-add}
use radioledger.Base.{
  ℕ, ◌+◌, ◌^◌, ◌≤◌, ◌<◌, ◌≡◌, ◌≢◌, refl, ◌∙◌, false, List, [], ◌∷◌, ◌++◌, map, arith, Bytes, length,
  some, none, Option, All, length-append,
}
use radioledger.Base.Text.{codes, lacks}
use radioledger.Adif.Record.{Field, Header}
use radioledger.Adif.Writer.{preamble}
use radioledger.Adif.Scan.{marker_eoh}
use radioledger.Adif.Scan.Written.{IsWritable, fields_text, scan_fields-written}
use radioledger.Adif.Parser.{
  Options, Parser, ok, header, collect, parse_from, finish_header, strip_bom, scan_header, true,
  Scan, scan,
}
use radioledger.Adif.Parser.Written.{
  record_text, records_text, to_record, ready, length-fields_text, final_err, collect-written,
}

-- A parser that has read nothing.
abbrev pub fresh : Options → Bytes → Parser
fresh opts input = record {
  rest = input;
  opts = opts;
  header_done = false;
  header = none;
  record_count = 0;
  offset = 0;
  prefetched_fields = [];
  has_prefetch = false;
  at_eof = false;
}

abbrev pub to_header : List Field → Header
to_header fs = record { fields = fs }

-- A printed file.
abbrev pub file_text : List Field → List (List Field) → Bytes
file_text hs rs = preamble ++ (fields_text hs ++ (codes "<EOH>\n\n" ++ records_text rs))

pub length-records_text : (rs : List (List Field)) → length rs ≤ length (records_text rs)
length-records_text [] = omega arith
length-records_text (fs ∷ rs) = omega (
  arith,
  length-records_text rs,
  length-append {0} (record_text fs) (records_text rs),
  length-append {0} (fields_text fs) (codes "<EOR>\n"),
)

module _ (decode : Bytes → Option Bytes) (opts : Options)
    (bound : opts.max_field_len < 2 ^ 63) where
  pub scan_header-step :
      (q : Parser) {s : Scan}
      → scan decode false q ≡ some s
      → scan_header decode false q ≡ some (finish_header q s s.err)
  unfolding scan_header
  scan_header-step q scans = rw (scans, scan_header)

  pub header-written :
      (hs : List Field) (tail : Bytes)
      → All (IsWritable opts.max_field_len) hs
      → (o : ℕ) × (header decode false
            (fresh opts (preamble ++ (fields_text hs ++ (codes "<EOH>\n\n" ++ tail))))
          ≡ some (
            ready opts (some (to_header hs)) 0 (b'\n' ∷ b'\n' ∷ tail) o,
            ok (some (to_header hs)),
          ))
  unfolding header finish_header strip_bom
  header-written hs tail w =
      let input = preamble ++ (fields_text hs ++ (codes "<EOH>\n\n" ++ tail)) in
      let fits : length hs < length input + 1 = omega (
        arith,
        length-fields_text hs,
        length-append {0} (fields_text hs) (codes "<EOH>\n\n" ++ tail),
      ) in
      let (o, e) =
        scan_fields-written decode opts.max_field_len bound marker_eoh hs (length input + 1)
          preamble [] (b'\n' ∷ b'\n' ∷ tail) 0 (λ e. cc) fits (unfold lacks in refl) w in
      (o, scan_header-step (record (fresh opts input) { header_done = true }) e)

  pub parse_from-ok :
      (start : Parser) {p : Parser} {h : Option Header}
      → header decode false start ≡ some (p, ok h)
      → parse_from decode false start ≡ collect decode (length start.rest + 3) false h [] p
  unfolding parse_from
  parse_from-ok start e = rw (e, parse_from)

  -- Header and records come back as they were printed. At the limit on records the end of the
  -- file is not seen, and the error says that it was exceeded.
  pub parse_from-file_text :
      (hs : List Field) (rs : List (List Field))
      → length rs ≤ opts.max_records
      → All (IsWritable opts.max_field_len) hs
      → All (λ (fs : List Field). (fs ≢ []) × All (IsWritable opts.max_field_len) fs) rs
      → parse_from decode false (fresh opts (file_text hs rs))
        ≡ some (record {
          header = some (to_header hs);
          records = map to_record rs;
          err = final_err opts (length rs);
        })
  parse_from-file_text hs rs l wh wr =
      let input = file_text hs rs in
      let fits : length rs < length input + 3 = omega (
        arith,
        length-records_text rs,
        length-append {0} (fields_text hs) (codes "<EOH>\n\n" ++ records_text rs),
      ) in
      let (o, e) = header-written hs (records_text rs) wh in
      parse_from-ok (fresh opts input) e
      ∙ collect-written decode opts (some (to_header hs)) bound rs (length input + 3) 0
          (codes "\n\n") o [] fits (omega arith) (unfold lacks in refl) wr
      ∙ rw zero-add
