-- ===== src/Adif/Parser/Returns.antt =====
-- Termination of `Header`, `Next` and `ParseAll` of pkg/adif/parser.go.
use radioledger.Base.{
  ℕ, zero, suc, ◌+◌, ◌≤◌, ◌<◌, ◌≡◌, refl, ◌∙◌, Bool, true, false, not, ◌&&◌, leb, List, [], ◌∷◌,
  ◌++◌, arith, Bytes, length, some, none, Option, if◌then◌else◌, ap,
}
use radioledger.Adif.Record.{Field, Record}
use radioledger.Adif.Scan.{Error, eof, Scan, Marker, marker_none, marker_eor, marker_eoh}
use radioledger.Adif.Scan.Total.{Yields, Shrinks}
use radioledger.Adif.Parser.{
  Parser, Result, ok, failed, scan, after_scan, suc, finish_header, parse_all, scan_header,
  strip_bom, Parsed, set_header, Header, next, collect, next_record, header, new_parser, parse_from,
  new_parser_with_options, skip_bom,
}
use radioledger.Adif.Parser.Total.{work, ResultMoves, next_loop_total, scan_total}

-- A fuelled call does not run out.
abbrev pub Returns : Option Parsed → Type 0
Returns o = (r : Parsed) × (o ≡ some r)

Yields-if :
    {A : Type 0} (P : A → Type 0) (b : Bool) (x y : Option A)
    → Yields P x
    → Yields P y
    → Yields P (if b then x else y)
Yields-if P true x y hx hy = hx
Yields-if P false x y hx hy = hy

Yields-if_true :
    {A : Type 0} (P : A → Type 0) (b : Bool) (x y : Option A)
    → b ≡ true
    → Yields P x
    → Yields P (if b then x else y)
Yields-if_true P true x y h hx = hx
Yields-if_true P false x y h hx = absurd cc

module _ (decode : Bytes → Option Bytes) where
  -- Behind the header a call of `Next` fails, or it leaves less work.
  next_record-moves :
      (cancelled : Bool) (p : Parser) → Yields (ResultMoves p) (next_record decode cancelled p)
  unfolding next_record
  next_record-moves true p = tt
  next_record-moves false p = Yields-if (ResultMoves p) (p.at_eof && not p.has_prefetch) _ _ tt (
      Yields-if (ResultMoves p) (leb p.opts.max_records p.record_count) _ _ tt
        (next_loop_total decode (length p.rest + 2) false p (omega arith)))

  next-moves :
      (cancelled : Bool) (p : Parser)
      → p.header_done ≡ true
      → Yields (ResultMoves p) (next decode cancelled p)
  unfolding next
  next-moves cancelled p h =
      Yields-if_true (ResultMoves p) p.header_done _ _ h (next_record-moves cancelled p)

  collect_total :
      (fuel : ℕ) (cancelled : Bool) (h : Option Header) (records : List Record) (p : Parser)
      → work p < fuel
      → p.header_done ≡ true
      → Returns (collect decode fuel cancelled h records p)
  unfolding collect
  collect_total zero cancelled h records p l d = absurd (omega arith)
  collect_total (suc fuel) cancelled h records p l d =
      (elim (next decode cancelled p)
          as (λ t.
            Yields (ResultMoves p) t
            → Returns (elim t [
              | none ↦ none
              | some (q, ok r) ↦ collect decode fuel cancelled h (records ++ r ∷ []) q
              | some (q, failed eof) ↦ some (record { header = h; records = records; err = none })
              | some (q, failed e) ↦ some (record { header = h; records = records; err = some e })
            ])) [
              | none ↦ λ m. elim m [ ]
              | some (q, ok r) ↦ λ m.
                  collect_total fuel cancelled h (records ++ r ∷ []) q (omega (arith, m.0, l))
                    (m.1 ∙ d)
              | some (q, failed eof) ↦ λ m. (_, refl)
              | some (q, failed _) ↦ λ m. (_, refl)
            ])
        (next-moves cancelled p d)

-- `Header` leaves no more bytes than it found, and has been done.
abbrev HeaderLeaves : ℕ → Parser × Result (Option Header) → Type 0
HeaderLeaves n (q, r) = (length q.rest ≤ n) × (q.header_done ≡ true)

set_header-leaves :
    (p : Parser) (m : Marker) (fields : List Field) (b : Bool)
    → ((set_header p m fields b).rest ≡ p.rest)
      × ((set_header p m fields b).header_done ≡ p.header_done)
unfolding set_header
set_header-leaves p marker_none fields b = (refl, refl)
set_header-leaves p marker_eor fields b = (refl, refl)
set_header-leaves p marker_eoh fields b = (refl, refl)

finish_header-leaves :
    (p : Parser) (s : Scan) (e : Option Error)
    → length s.rest ≤ length p.rest
    → p.header_done ≡ true
    → HeaderLeaves (length p.rest) (finish_header p s e)
unfolding finish_header after_scan
finish_header-leaves p s none l h =
    let q = set_header-leaves (after_scan p s) s.marker s.fields false in
    (omega (arith, ap length q.0, l), q.1 ∙ h)
finish_header-leaves p s (some eof) l h =
    let q = set_header-leaves (after_scan p s) s.marker s.fields true in
    (omega (arith, ap length q.0, l), q.1 ∙ h)
finish_header-leaves p s (some _) l h = (l, h)

strip_bom-leaves :
    (p : Parser) (s : Bytes)
    → p.rest ≡ s
    → (length (strip_bom p s).rest ≤ length s) × ((strip_bom p s).header_done ≡ p.header_done)
unfolding strip_bom
strip_bom-leaves p (a ∷ b ∷ c ∷ s) h = ground arith
strip_bom-leaves p [] h = ground arith
strip_bom-leaves p (a ∷ []) h = ground arith
strip_bom-leaves p (a ∷ b ∷ []) h = ground arith

HeaderLeaves-weaken :
    (m n : ℕ) (o : Option (Parser × Result (Option Header)))
    → m ≤ n
    → Yields (HeaderLeaves m) o
    → Yields (HeaderLeaves n) o
HeaderLeaves-weaken m n none l y = y
HeaderLeaves-weaken m n (some (q, r)) l y = (omega (arith, y.0, l), y.1)

module _ (decode : Bytes → Option Bytes) where
  scan_header_total :
      (cancelled : Bool) (p : Parser)
      → p.header_done ≡ true
      → Yields (HeaderLeaves (length p.rest)) (scan_header decode cancelled p)
  unfolding scan_header
  scan_header_total cancelled p h =
      (elim (scan decode cancelled p)
          as (λ o.
            Yields (Shrinks (length p.rest)) o
            → Yields (HeaderLeaves (length p.rest))
                (elim o [ none ↦ none | some s ↦ some (finish_header p s s.err) ])) [
                  | none ↦ λ m. m
                  | some s ↦ λ m. finish_header-leaves p s s.err m.0 h
                ])
        (scan_total decode cancelled p)

  work-le : (p : Parser) → work p ≤ length p.rest + 2
  work-le p = ground arith

  header_total :
      (cancelled : Bool) (p : Parser)
      → p.header_done ≡ false
      → Yields (HeaderLeaves (length p.rest)) (header decode cancelled p)
  unfolding header
  header_total cancelled p h =
      let q = record p { header_done = true } in
      let b = strip_bom-leaves q p.rest refl in
      rw (h, header)
        (HeaderLeaves-weaken _ (length p.rest) _ b.0 (scan_header_total cancelled (skip_bom q) b.1))

  parse_from_total :
      (cancelled : Bool) (p : Parser)
      → p.header_done ≡ false
      → Returns (parse_from decode cancelled p)
  unfolding parse_from
  parse_from_total cancelled p h =
      (elim (header decode cancelled p)
          as (λ o.
            Yields (HeaderLeaves (length p.rest)) o
            → Returns (elim o [
              | none ↦ none
              | some (q, failed e) ↦ some (record { header = none; records = []; err = some e })
              | some (q, ok t) ↦ collect decode (length p.rest + 3) cancelled t [] q
            ])) [
              | none ↦ λ m. elim m [ ]
              | some (q, failed e) ↦ λ m. (_, refl)
              | some (q, ok t) ↦ λ m.
                  collect_total decode (length p.rest + 3) cancelled t [] q
                    (omega (arith, m.0, work-le q)) m.1
            ])
        (header_total cancelled p h)

  -- On every input, with any decoder, and whether or not the context is cancelled, `ParseAll`
  -- returns: the fuel given to its loops is enough.
  pub parse_all_total :
      (cancelled : Bool) (input : Bytes) → Returns (parse_all decode cancelled input)
  unfolding parse_all new_parser new_parser_with_options
  parse_all_total cancelled input = parse_from_total cancelled (new_parser input) refl
