-- ===== src/Adif/Parser/Written.antt =====
-- The parser of pkg/adif/parser.go on a file that pkg/adif/writer.go printed.
use radioledger.Base.{
  ℕ, zero, suc, ◌+◌, ◌^◌, ◌≤◌, ◌<◌, ◌≡◌, ◌≢◌, refl, ◌∙◌, true, false, List, [], ◌∷◌, ◌++◌, map,
  arith, Bytes, length, some, none, Option, if◌then◌else◌, append_assoc, append-nil, All,
  length-append,
}
use native.Mathlib.Numerals.{add-one}
use native.Mathlib.Nat.{add-zero, add_assoc, add_comm}
use radioledger.Base.{Bool-cases, inl, inr}
use radioledger.Base.{ltb}
use radioledger.Base.Text.{codes, lacks}
use radioledger.Adif.Record.{Field, Record, Header}
use radioledger.Adif.Writer.{field_text}
use radioledger.Adif.Tag.{find_next_tag}
use radioledger.Adif.Scan.{Error, eof, too_many_records, marker_none, marker_eor, round, on_found}
use radioledger.Adif.Scan.Written.{IsWritable, fields_text, scan_fields-written, scan_fields-done}
use radioledger.Adif.Parser.{
  Options, Parser, Result, ok, failed, scan, turn, return, next_loop, next_record, next, collect,
}

-- A record as it is printed, and a run of records.
abbrev pub record_text : List Field → Bytes
record_text fs = fields_text fs ++ codes "<EOR>\n"

abbrev pub records_text : List (List Field) → Bytes
records_text [] = []
records_text (fs ∷ rs) = record_text fs ++ records_text rs

abbrev pub to_record : List Field → Record
to_record fs = record { fields = fs }

-- The parser between two records.
abbrev pub ready : Options → Option Header → ℕ → Bytes → ℕ → Parser
ready opts h count rest offset = record {
  rest = rest;
  opts = opts;
  header_done = true;
  header = h;
  record_count = count;
  offset = offset;
  prefetched_fields = [];
  has_prefetch = false;
  at_eof = false;
}

pub length-fields_text : (fs : List Field) → length fs ≤ length (fields_text fs)
length-fields_text [] = omega arith
length-fields_text (f ∷ fs) = omega (
  arith,
  length-fields_text fs,
  length-append {0} (field_text f) (fields_text fs),
  at_least_one f,
)
  where
    at_least_one : (f : Field) → 0 < length (field_text f)
    at_least_one f = unfold field_text in omega arith

pub find_next_tag-none : (s : Bytes) (o : ℕ) → lacks b'<' s ≡ true → find_next_tag s o ≡ none
unfolding find_next_tag lacks
find_next_tag-none [] o h = refl
find_next_tag-none (c ∷ s) o h = ground (arith, find_next_tag-none s (o + 1))

-- What the loop of `ParseAll` ends with: at the limit the end of the input is not seen.
abbrev pub final_err : Options → ℕ → Option Error
final_err opts count = if ltb count opts.max_records then none else some too_many_records

module _ (decode : Bytes → Option Bytes) (opts : Options) (h : Option Header)
    (bound : opts.max_field_len < 2 ^ 63) where
  next-turn :
      (count : ℕ) (rest : Bytes) (o : ℕ) {q : Parser} {r : Result Record}
      → count < opts.max_records
      → turn decode false (ready opts h count rest o) ≡ some (return q r)
      → next decode false (ready opts h count rest o) ≡ some (q, r)
  unfolding next next_record next_loop
  next-turn count rest o l e = ground (arith, e)

  pub scan-ready :
      (fs : List Field) (count : ℕ) (junk tail : Bytes) (o : ℕ)
      → lacks b'<' junk ≡ true
      → All (IsWritable opts.max_field_len) fs
      → (o' : ℕ) × (scan decode false (ready opts h count (junk ++ (record_text fs ++ tail)) o)
          ≡ some (record {
            fields = fs;
            marker = marker_eor;
            err = none;
            rest = b'\n' ∷ tail;
            offset = o';
          }))
  scan-ready fs count junk tail o j w = rw append_assoc (
      scan_fields-written decode opts.max_field_len bound marker_eor fs _ junk [] (b'\n' ∷ tail) o
        (λ e. cc)
        (omega (
          arith,
          length-fields_text fs,
          length-append {0} junk (fields_text fs ++ (codes "<EOR>\n" ++ tail)),
          length-append {0} (fields_text fs) (codes "<EOR>\n" ++ tail),
        ))
        j w)

  -- `Next` returns the record that was printed, and stops behind it.
  pub next-written :
      (f : Field) (fs : List Field) (count : ℕ) (junk tail : Bytes) (o : ℕ)
      → count < opts.max_records
      → lacks b'<' junk ≡ true
      → All (IsWritable opts.max_field_len) (f ∷ fs)
      → (o' : ℕ) × (next decode false
            (ready opts h count (junk ++ (record_text (f ∷ fs) ++ tail)) o)
          ≡ some (ready opts h (count + 1) (b'\n' ∷ tail) o', ok (to_record (f ∷ fs))))
  next-written f fs count junk tail o l j w =
      let (o', e) = scan-ready (f ∷ fs) count junk tail o j w in
      (o', next-turn count _ o l (unfold turn in rw e))

  scan_end :
      (count : ℕ) (rest : Bytes) (o : ℕ)
      → lacks b'<' rest ≡ true
      → scan decode false (ready opts h count rest o)
        ≡ some (record {
          fields = [];
          marker = marker_none;
          err = some eof;
          rest = [];
          offset = o + length rest;
        })
  scan_end count rest o j = rw add-one (
      scan_fields-done decode opts.max_field_len bound (length rest) [] rest o
        (unfold round in rw (find_next_tag-none rest o j, on_found)))

  -- `Next` reports the end behind the last record, if the limit is not reached.
  next_end :
      (count : ℕ) (rest : Bytes) (o : ℕ)
      → count < opts.max_records
      → lacks b'<' rest ≡ true
      → (q : Parser) × (next decode false (ready opts h count rest o) ≡ some (q, failed eof))
  next_end count rest o l j = (
    record (ready opts h count [] (o + length rest)) { at_eof = true },
    next-turn count rest o l (unfold turn in rw (scan_end count rest o j)),
  )

  pub next_limit :
      (count : ℕ) (rest : Bytes) (o : ℕ)
      → opts.max_records ≤ count
      → next decode false (ready opts h count rest o)
        ≡ some (ready opts h count rest o, failed too_many_records)
  unfolding next next_record
  next_limit count rest o l = ground arith

  module _ (fuel : ℕ) (acc : List Record) (p : Parser) {q : Parser} where
    pub collect-ok :
        {r : Record}
        → next decode false p ≡ some (q, ok r)
        → collect decode (suc fuel) false h acc p ≡ collect decode fuel false h (acc ++ r ∷ []) q
    unfolding collect
    collect-ok e = rw (e, collect)

    collect-eof :
        next decode false p ≡ some (q, failed eof)
        → collect decode (suc fuel) false h acc p
          ≡ some (record { header = h; records = acc; err = none })
    unfolding collect
    collect-eof e = rw (e, collect)

    collect-limit :
        next decode false p ≡ some (q, failed too_many_records)
        → collect decode (suc fuel) false h acc p
          ≡ some (record { header = h; records = acc; err = some too_many_records })
    unfolding collect
    collect-limit e = rw (e, collect)

  collect_end :
      (fuel count : ℕ) (junk : Bytes) (o : ℕ) (acc : List Record)
      → lacks b'<' junk ≡ true
      → collect decode (suc fuel) false h acc (ready opts h count junk o)
        ≡ some (record { header = h; records = acc; err = final_err opts count })
  collect_end fuel count junk o acc j = elim (Bool-cases (ltb count opts.max_records)) [
    | inl below ↦ rw below (
        collect-eof fuel acc (ready opts h count junk o) (next_end count junk o (ground arith) j).1)
    | inr above ↦ rw above (
        collect-limit fuel acc (ready opts h count junk o) (next_limit count junk o (ground arith)))
  ]

  pub collect-written :
      (rs : List (List Field)) (fuel count : ℕ) (junk : Bytes) (o : ℕ) (acc : List Record)
      → length rs < fuel
      → count + length rs ≤ opts.max_records
      → lacks b'<' junk ≡ true
      → All (λ (fs : List Field). (fs ≢ []) × All (IsWritable opts.max_field_len) fs) rs
      → collect decode fuel false h acc (ready opts h count (junk ++ records_text rs) o)
        ≡ some (record {
          header = h;
          records = acc ++ map to_record rs;
          err = final_err opts (count + length rs);
        })
  collect-written rs zero count junk o acc f l j w = absurd (omega arith)
  collect-written [] (suc fuel) count junk o acc f l j w =
      rw (append-nil, append-nil, add-zero) (collect_end fuel count junk o acc j)
  collect-written ([] ∷ rs) (suc fuel) count junk o acc f l j w = absurd (w.0.0 refl)
  collect-written ((g ∷ gs) ∷ rs) (suc fuel) count junk o acc f l j w =
      let (o', e) = next-written g gs count junk (records_text rs) o (omega arith) j w.0.1 in
      let ih =
        collect-written rs fuel (count + 1) (b'\n' ∷ []) o' (acc ++ to_record (g ∷ gs) ∷ [])
          (omega arith) (omega arith) (unfold lacks in refl) w.1 in
      collect-ok fuel acc (ready opts h count (junk ++ records_text ((g ∷ gs) ∷ rs)) o) e
      ∙ ih
      ∙ rw (append_assoc, add_assoc, add_comm 1 (length rs), add-one)
