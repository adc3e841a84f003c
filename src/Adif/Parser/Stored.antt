-- ===== src/Adif/Parser/Stored.antt =====
-- What the records that pkg/adif/parser.go returns look like.
use radioledger.Base.{
  ℕ, zero, suc, ◌+◌, Bool, true, false, not, List, [], ◌∷◌, ◌++◌, Option, none, some, Bytes, All,
  if-ind, length, leb, if◌then◌else◌, ◌&&◌,
}
use radioledger.Adif.Record.{Field, Record}
use radioledger.Adif.Scan.{
  Error, eof, too_many_records, Marker, marker_none, marker_eor, marker_eoh, Scan,
}
use radioledger.Adif.Scan.Stored.{IsStored, IfAny, All-append, scan_fields-stores}
use radioledger.Adif.Parser.{
  Parser, Result, ok, failed, Turn, skip, return, give, after_scan, on_marker, on_scan, leftover,
  scan, turn, next_loop, next_record,
}

-- Every field of a record, or of a list of records, is as it is stored.
abbrev pub AreStored : List Record → Type 0
AreStored [] = Unit
AreStored (r ∷ records) = All IsStored r.fields × AreStored records

pub AreStored-append :
    (records : List Record) (r : Record)
    → AreStored records
    → All IsStored r.fields
    → AreStored (records ++ r ∷ [])
AreStored-append [] r hs h = (h, tt)
AreStored-append (s ∷ records) r hs h = (hs.0, AreStored-append records r hs.1 h)

abbrev pub Holds : Parser → Type 0
Holds p = All IsStored p.prefetched_fields

abbrev pub Gives : Parser → Result Record → Type 0
Gives p (ok r) = Holds p × All IsStored r.fields
Gives p (failed e) = Unit

abbrev TurnGives : Turn → Type 0
TurnGives (skip p) = Holds p
TurnGives (return p r) = Gives p r

on_marker-gives :
    (p : Parser) (m : Marker) (fields : List Field)
    → Holds p
    → All IsStored fields
    → TurnGives (on_marker p m fields)
unfolding on_marker give
on_marker-gives p marker_none [] h s = tt
on_marker-gives p marker_eor [] h s =
    if-ind TurnGives p.at_eof (return p (failed eof)) (skip p) tt h
on_marker-gives p marker_eoh [] h s =
    if-ind TurnGives p.at_eof (return p (failed eof)) (skip p) tt h
on_marker-gives p marker_none (f ∷ fields) h s = (h, s)
on_marker-gives p marker_eor (f ∷ fields) h s = (h, s)
on_marker-gives p marker_eoh (f ∷ fields) h s = (h, s)

on_scan-gives :
    (p : Parser) (start : List Field) (s : Scan) (e : Option Error)
    → Holds p
    → All IsStored start
    → All IsStored s.fields
    → TurnGives (on_scan p start s e)
unfolding on_scan after_scan
on_scan-gives p start s none h hs hf =
    on_marker-gives (after_scan p s) s.marker (start ++ s.fields) h
      (All-append start s.fields hs hf)
on_scan-gives p start s (some eof) h hs hf =
    on_marker-gives (record (after_scan p s) { at_eof = true }) s.marker (start ++ s.fields) h
      (All-append start s.fields hs hf)
on_scan-gives p start s (some _) h hs hf = tt

leftover-gives :
    (p : Parser) (start : List Field) → Holds p → All IsStored start → TurnGives (leftover p start)
unfolding leftover give
leftover-gives p [] h s = tt
leftover-gives p (f ∷ fields) h s = (h, s)

module _ (decode : Bytes → Option Bytes) where
  pub scan-stores :
      (cancelled : Bool) (p : Parser) → IfAny (λ s. All IsStored s.fields) (scan decode cancelled p)
  scan-stores cancelled p =
      scan_fields-stores decode (length p.rest + 1) cancelled p.opts.max_field_len [] p.rest
        p.offset tt

  scanned-gives :
      (p : Parser) (start : List Field) (o : Option Scan)
      → Holds p
      → All IsStored start
      → IfAny (λ s. All IsStored s.fields) o
      → IfAny TurnGives (elim o [ none ↦ none | some s ↦ some (on_scan p start s s.err) ])
  scanned-gives p start none h hs hf = tt
  scanned-gives p start (some s) h hs hf = on_scan-gives p start s s.err h hs hf

  turn-gives : (cancelled : Bool) (p : Parser) → Holds p → IfAny TurnGives (turn decode cancelled p)
  unfolding turn
  turn-gives true p h = tt
  turn-gives false p h =
      let start = if p.has_prefetch then p.prefetched_fields else [] in
      let q = record p {
        has_prefetch = false;
        prefetched_fields = if p.has_prefetch then [] else p.prefetched_fields;
      } in
      let hq : Holds q = if-ind (All IsStored) p.has_prefetch [] p.prefetched_fields tt h in
      let hs : All IsStored start =
        if-ind (All IsStored) p.has_prefetch p.prefetched_fields [] h tt in
      if-ind (IfAny TurnGives) p.at_eof (some (leftover q start)) _ (leftover-gives q start hq hs)
        (scanned-gives q start (scan decode false p) hq hs (scan-stores false p))

  abbrev pub Returns : Parser × Result Record → Type 0
  Returns (p, r) = Gives p r

  next_loop-gives :
      (fuel : ℕ) (cancelled : Bool) (p : Parser)
      → Holds p
      → IfAny Returns (next_loop decode fuel cancelled p)
  unfolding next_loop
  next_loop-gives zero cancelled p h = tt
  next_loop-gives (suc fuel) cancelled p h =
      (elim (turn decode cancelled p)
          as (λ t.
            IfAny TurnGives t
            → IfAny Returns (elim t [
              | none ↦ none
              | some (skip q) ↦ next_loop decode fuel cancelled q
              | some (return q r) ↦ some (q, r)
            ])) [
              | none ↦ λ m. tt
              | some (skip q) ↦ λ m. next_loop-gives fuel cancelled q m
              | some (return q r) ↦ λ m. m
            ])
        (turn-gives cancelled p h)

  pub next_record-gives :
      (cancelled : Bool) (p : Parser) → Holds p → IfAny Returns (next_record decode cancelled p)
  unfolding next_record
  next_record-gives true p h = tt
  next_record-gives false p h =
      if-ind (IfAny Returns) (p.at_eof && not p.has_prefetch) (some (p, failed eof)) _ tt (
        if-ind (IfAny Returns) (leb p.opts.max_records p.record_count)
          (some (p, failed too_many_records)) _ tt (next_loop-gives (length p.rest + 2) false p h))
