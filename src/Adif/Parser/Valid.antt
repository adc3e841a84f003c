-- ===== src/Adif/Parser/Valid.antt =====
-- What `Header`, `Next` and `ParseAll` of pkg/adif/parser.go return.
use mathlib.Core.Path.{subst}
use radioledger.Base.{
  ℕ, zero, suc, ◌+◌, ◌≡◌, Bool, true, false, List, [], ◌∷◌, ◌++◌, Option, none, some, Bytes, All,
  if-ind, length,
}
use radioledger.Adif.Record.{Field, Record, Header}
use radioledger.Adif.Scan.{Error, eof, Marker, marker_none, marker_eor, marker_eoh, Scan}
use radioledger.Adif.Scan.Stored.{IsStored, IfAny}
use radioledger.Adif.Parser.{
  Parser, Result, ok, failed, set_header, after_scan, finish_header, Parsed, scan, scan_header,
  header, next_record, next, collect, parse_from, parse_all, strip_bom, skip_bom, new_parser,
  new_parser_with_options,
}
use radioledger.Adif.Parser.Returns.{parse_all_total}
use radioledger.Adif.Parser.Stored.{
  AreStored, AreStored-append, Holds, Returns, next_record-gives, scan-stores,
}

abbrev HeaderStored : Option Header → Type 0
HeaderStored none = Unit
HeaderStored (some h) = All IsStored h.fields

abbrev HeaderGives : Parser × Result (Option Header) → Type 0
HeaderGives (p, ok h) = Holds p × HeaderStored h
HeaderGives (p, failed e) = Unit

-- What `Next` needs of the call of `Header`.
abbrev KeepsFields : Parser × Result (Option Header) → Type 0
KeepsFields (p, ok h) = Holds p
KeepsFields (p, failed e) = Unit

KeepsFields-weaken :
    (o : Option (Parser × Result (Option Header))) → IfAny HeaderGives o → IfAny KeepsFields o
KeepsFields-weaken none m = tt
KeepsFields-weaken (some (p, ok h)) m = m.0
KeepsFields-weaken (some (p, failed e)) m = tt

set_header-gives :
    (p : Parser) (m : Marker) (fields : List Field) (ended : Bool)
    → Holds p
    → All IsStored fields
    → HeaderGives (set_header p m fields ended, ok (set_header p m fields ended).header)
unfolding set_header
set_header-gives p marker_none fields ended h s = (s, tt)
set_header-gives p marker_eor fields ended h s = (s, tt)
set_header-gives p marker_eoh fields ended h s = (h, s)

finish_header-gives :
    (p : Parser) (s : Scan) (e : Option Error)
    → Holds p
    → All IsStored s.fields
    → HeaderGives (finish_header p s e)
unfolding finish_header after_scan
finish_header-gives p s none h hs = set_header-gives (after_scan p s) s.marker s.fields false h hs
finish_header-gives p s (some eof) h hs =
    set_header-gives (after_scan p s) s.marker s.fields true h hs
finish_header-gives p s (some _) h hs = tt

strip_bom-Holds : (p : Parser) (s : Bytes) → Holds p → Holds (strip_bom p s)
unfolding strip_bom
strip_bom-Holds p (a ∷ b ∷ c ∷ s) h =
    if-ind Holds _ (record p { rest = s; offset = p.offset + 3 }) p h h
strip_bom-Holds p [] h = h
strip_bom-Holds p (a ∷ []) h = h
strip_bom-Holds p (a ∷ b ∷ []) h = h

-- What `ParseAll` returns, its header and its records.
abbrev pub IsStoredAll : Parsed → Type 0
IsStoredAll r = HeaderStored r.header × AreStored r.records

module _ (decode : Bytes → Option Bytes) where
  scan_header-gives :
      (cancelled : Bool) (p : Parser) → Holds p → IfAny HeaderGives (scan_header decode cancelled p)
  unfolding scan_header
  scan_header-gives cancelled p h =
      (elim (scan decode cancelled p)
          as (λ o.
            IfAny (λ (s : Scan). All IsStored s.fields) o
            → IfAny HeaderGives
                (elim o [ none ↦ none | some s ↦ some (finish_header p s s.err) ])) [
                  | none ↦ λ m. tt
                  | some s ↦ λ m. finish_header-gives p s s.err h m
                ])
        (scan-stores decode cancelled p)

  header-gives :
      (cancelled : Bool) (p : Parser)
      → Holds p
      → HeaderStored p.header
      → IfAny HeaderGives (header decode cancelled p)
  unfolding header
  header-gives cancelled p h hh =
      let q = record p { header_done = true } in
      if-ind (IfAny HeaderGives) p.header_done (some (p, ok p.header)) _ (h, hh)
        (scan_header-gives cancelled (skip_bom q) (strip_bom-Holds q p.rest h))

  header-Holds :
      (cancelled : Bool) (p : Parser) → Holds p → IfAny KeepsFields (header decode cancelled p)
  unfolding header
  header-Holds cancelled p h =
      let q = record p { header_done = true } in
      if-ind (IfAny KeepsFields) p.header_done (some (p, ok p.header)) _ h (
        KeepsFields-weaken (scan_header decode cancelled (skip_bom q))
          (scan_header-gives cancelled (skip_bom q) (strip_bom-Holds q p.rest h)))

  next-gives :
      (cancelled : Bool) (p : Parser) → Holds p → IfAny (Returns decode) (next decode cancelled p)
  unfolding next
  next-gives cancelled p h =
      if-ind (IfAny (Returns decode)) p.header_done (next_record decode cancelled p) _
        (next_record-gives decode cancelled p h)
        ((elim (header decode cancelled p)
            as (λ o.
              IfAny KeepsFields o
              → IfAny (Returns decode) (elim o [
                | none ↦ none
                | some (q, ok _) ↦ next_record decode cancelled q
                | some (q, failed e) ↦ some (q, failed e)
              ])) [
                | none ↦ λ m. tt
                | some (q, ok t) ↦ λ m. next_record-gives decode cancelled q m
                | some (q, failed e) ↦ λ m. tt
              ])
          (header-Holds cancelled p h))

  collect-stores :
      (fuel : ℕ) (cancelled : Bool) (h : Option Header) (records : List Record) (p : Parser)
      → Holds p
      → HeaderStored h
      → AreStored records
      → IfAny IsStoredAll (collect decode fuel cancelled h records p)
  unfolding collect
  collect-stores zero cancelled h records p hp hh hr = tt
  collect-stores (suc fuel) cancelled h records p hp hh hr =
      (elim (next decode cancelled p)
          as (λ t.
            IfAny (Returns decode) t
            → IfAny IsStoredAll (elim t [
              | none ↦ none
              | some (q, ok r) ↦ collect decode fuel cancelled h (records ++ r ∷ []) q
              | some (q, failed eof) ↦ some (record { header = h; records = records; err = none })
              | some (q, failed e) ↦ some (record { header = h; records = records; err = some e })
            ])) [
              | none ↦ λ m. tt
              | some (q, ok r) ↦ λ m.
                  collect-stores fuel cancelled h (records ++ r ∷ []) q m.0 hh
                    (AreStored-append records r hr m.1)
              | some (q, failed eof) ↦ λ m. (hh, hr)
              | some (q, failed _) ↦ λ m. (hh, hr)
            ])
        (next-gives cancelled p hp)

  parse_from-stores :
      (cancelled : Bool) (p : Parser)
      → Holds p
      → HeaderStored p.header
      → IfAny IsStoredAll (parse_from decode cancelled p)
  unfolding parse_from
  parse_from-stores cancelled p h hh =
      (elim (header decode cancelled p)
          as (λ o.
            IfAny HeaderGives o
            → IfAny IsStoredAll (elim o [
              | none ↦ none
              | some (q, failed e) ↦ some (record { header = none; records = []; err = some e })
              | some (q, ok t) ↦ collect decode (length p.rest + 3) cancelled t [] q
            ])) [
              | none ↦ λ m. tt
              | some (q, failed e) ↦ λ m. (tt, tt)
              | some (q, ok t) ↦ λ m. collect-stores (length p.rest + 3) cancelled t [] q m.0 m.1 tt
            ])
        (header-gives cancelled p h hh)

  stored_result :
      (o : Option Parsed) {r : Parsed} → o ≡ some r → IfAny IsStoredAll o → IsStoredAll r
  stored_result o {r} e h = subst (IfAny IsStoredAll) e h

  -- Whatever the bytes of the input and whatever the decoder answers, `ParseAll` returns, and every
  -- field of the header and of the records that it returns has a value that is valid UTF-8, and a
  -- name in upper case that is not empty.
  pub parse_all-IsStoredAll :
      (cancelled : Bool) (input : Bytes)
      → (r : Parsed) × (parse_all decode cancelled input ≡ some r) × IsStoredAll r
  unfolding parse_all new_parser new_parser_with_options
  parse_all-IsStoredAll cancelled input =
      let (r, e) = parse_all_total decode cancelled input in
      (r, e, stored_result _ e (parse_from-stores cancelled (new_parser input) tt tt))
