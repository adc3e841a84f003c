-- ===== src/Adif/Parser/Headerless.antt =====
-- pkg/adif/parser.go on a printed file that has no header.
use native.Mathlib.Numerals.{one-add}
use radioledger.Base.{
  ℕ, suc, ◌+◌, ◌^◌, ◌<◌, ◌≡◌, ◌≢◌, refl, ◌∙◌, true, false, List, [], ◌∷◌, ◌++◌, map, arith, Bytes,
  length, some, none, Option, append_assoc, All, length-append,
}
use radioledger.Base.Text.{codes, lacks}
use radioledger.Adif.Record.{Field, Header}
use radioledger.Adif.Writer.{field_text}
use radioledger.Adif.Scan.{marker_eor}
use radioledger.Adif.Scan.Written.{IsWritable, fields_text, scan_fields-written}
use radioledger.Adif.Parser.{
  Options, Parser, ok, scan, turn, next, next_record, next_loop, header, parse_from, finish_header,
  strip_bom,
}
use radioledger.Adif.Parser.Written.{
  record_text, records_text, to_record, ready, length-fields_text, final_err, scan-ready,
  collect-ok, collect-written,
}
use radioledger.Adif.Parser.File.{
  fresh, to_header, parse_from-ok, scan_header-step, length-records_text,
}

strip_bom-tag : (p : Parser) (s : Bytes) → strip_bom p (b'<' ∷ s) ≡ p
unfolding strip_bom
strip_bom-tag p [] = refl
strip_bom-tag p (a ∷ []) = refl
strip_bom-tag p (a ∷ b ∷ s) = refl

-- A parser that has read nothing and is inside `Header`.
abbrev begun : Options → Bytes → Parser
begun opts input = record (fresh opts input) { header_done = true }

strip_bom-record :
    (opts : Options) (f : Field) (fs : List Field) (tail : Bytes)
    → let input = record_text (f ∷ fs) ++ tail in
      strip_bom (begun opts input) input ≡ begun opts input
unfolding field_text
strip_bom-record opts f fs tail = strip_bom-tag _ _

module _ (decode : Bytes → Option Bytes) (opts : Options)
    (bound : opts.max_field_len < 2 ^ 63) where
  -- The parser behind `Header`, when an <EOR> came first.
  abbrev prefetched : List Field → Bytes → ℕ → Parser
  prefetched fs rest o = record (ready opts (some (to_header [])) 0 rest o) {
    prefetched_fields = fs;
    has_prefetch = true;
  }

  scan-begun :
      (fs : List Field) (tail : Bytes)
      → All (IsWritable opts.max_field_len) fs
      → (o : ℕ) × (scan decode false (begun opts (record_text fs ++ tail))
          ≡ some (record {
            fields = fs;
            marker = marker_eor;
            err = none;
            rest = b'\n' ∷ tail;
            offset = o;
          }))
  scan-begun fs tail w =
      let input = fields_text fs ++ (codes "<EOR>\n" ++ tail) in
      let fits : length fs < length input + 1 = omega (
        arith,
        length-fields_text fs,
        length-append {0} (fields_text fs) (codes "<EOR>\n" ++ tail),
      ) in
      rw append_assoc (
        scan_fields-written decode opts.max_field_len bound marker_eor fs (length input + 1) [] []
          (b'\n' ∷ tail) 0 (λ e. cc) fits (unfold lacks in refl) w)

  header-headerless :
      (f : Field) (fs : List Field) (tail : Bytes)
      → All (IsWritable opts.max_field_len) (f ∷ fs)
      → (o : ℕ) × (header decode false (fresh opts (record_text (f ∷ fs) ++ tail))
          ≡ some (prefetched (f ∷ fs) (b'\n' ∷ tail) o, ok (some (to_header []))))
  unfolding header finish_header
  header-headerless f fs tail w =
      let input = record_text (f ∷ fs) ++ tail in
      let (o, e) = scan-begun (f ∷ fs) tail w in
      (
        o,
        rw (strip_bom-record opts f fs tail)
            (scan_header-step decode opts bound (begun opts input) e),
      )

  next-headerless :
      (f : Field) (fs gs : List Field) (tail : Bytes) (o : ℕ)
      → 0 < opts.max_records
      → All (IsWritable opts.max_field_len) gs
      → (o' : ℕ) × (next decode false (prefetched (f ∷ fs) (b'\n' ∷ (record_text gs ++ tail)) o)
          ≡ some
              (ready opts (some (to_header [])) 1 (b'\n' ∷ tail) o', ok (to_record (f ∷ fs ++ gs))))
  unfolding next next_record next_loop turn
  next-headerless f fs gs tail o l w =
      let (o', e) =
        scan-ready decode opts (some (to_header [])) bound gs 0 (b'\n' ∷ []) tail o
          (unfold lacks in refl) w in
      (o', ground (arith, e))

  -- A printed file with no header and at least two records: the first two come back as one, with
  -- the fields of both, and the rest as printed. Its fields are writable.
  pub parse_from-headerless :
      (f : Field) (fs gs : List Field) (rs : List (List Field))
      → length rs < opts.max_records
      → All (IsWritable opts.max_field_len) (f ∷ fs)
      → All (IsWritable opts.max_field_len) gs
      → All (λ (hs : List Field). (hs ≢ []) × All (IsWritable opts.max_field_len) hs) rs
      → parse_from decode false
          (fresh opts (record_text (f ∷ fs) ++ (record_text gs ++ records_text rs)))
        ≡ some (record {
          header = some (to_header []);
          records = to_record (f ∷ fs ++ gs) ∷ map to_record rs;
          err = final_err opts (suc (length rs));
        })
  parse_from-headerless f fs gs rs l wf wg wr =
      let tail = record_text gs ++ records_text rs in
      let input = record_text (f ∷ fs) ++ tail in
      let fits : length rs < length input + 2 = omega (
        arith,
        length-records_text rs,
        length-append {0} (record_text (f ∷ fs)) tail,
        length-append {0} (record_text gs) (records_text rs),
      ) in
      let (o, begins) = header-headerless f fs tail wf in
      let (o', merges) = next-headerless f fs gs (records_text rs) o (omega arith) wg in
      let h : Option Header = some (to_header []) in
      let more : length input + 3 ≡ suc (length input + 2) = omega arith in
      parse_from-ok decode opts bound (fresh opts input) begins
      ∙ rw more (
          collect-ok decode opts h bound (length input + 2) []
            (prefetched (f ∷ fs) (b'\n' ∷ tail) o) merges)
      ∙ collect-written decode opts h bound rs (length input + 2) 1 (b'\n' ∷ []) o'
          (to_record (f ∷ fs ++ gs) ∷ []) fits (omega arith) (unfold lacks in refl) wr
      ∙ rw one-add
