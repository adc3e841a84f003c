-- ===== src/Adif/Parser/Total.antt =====
-- Termination of the loop of `Next` of pkg/adif/parser.go.
use radioledger.Base.{
  ℕ, zero, suc, ◌+◌, ◌≤◌, ◌<◌, ◌≡◌, refl, ◌∙◌, Bool, true, false, not, List, [], ◌∷◌, ◌++◌, arith,
  Bytes, length, some, none, Option, ◌⊎◌, ◌≢◌, if◌then◌else◌, inl, inr,
}
use radioledger.Adif.Record.{Field, Record}
use radioledger.Adif.Scan.{Error, eof, Scan, Marker, marker_none, marker_eor, marker_eoh}
use radioledger.Adif.Scan.Total.{Yields, Shrinks, scan_fields_total}
use radioledger.Adif.Parser.{
  Parser, Result, ok, failed, scan, Turn, skip, return, on_marker, on_scan, leftover, after_scan,
  give, next_loop, turn, suc,
}

-- What is left to do: the bytes, the prefetched fields, and the end of the input.
abbrev pub bit : Bool → ℕ
bit true = 1
bit false = 0

abbrev pub work : Parser → ℕ
work p = length p.rest + bit p.has_prefetch + bit (not p.at_eof)

-- A turn goes on with fewer bytes, or returns; with a record there is less work left.
abbrev pub Progress : Parser → Parser → Result Record → Type 0
Progress p q (ok r) = (work q < work p) × (q.header_done ≡ p.header_done)
Progress p q (failed e) = Unit {0}

abbrev TurnMoves : Parser → Turn → Type 0
TurnMoves p (skip q) =
    (length q.rest < length p.rest) × (work q < work p) × (q.header_done ≡ p.header_done)
TurnMoves p (return q r) = Progress p q r

on_empty :
    (p q : Parser) (m : Marker)
    → length q.rest ≤ length p.rest
    → (m ≡ marker_none) × (q.at_eof ≡ true) ⊎ (length q.rest < length p.rest) × (m ≢ marker_none)
    → q.has_prefetch ≡ false
    → p.at_eof ≡ false
    → q.header_done ≡ p.header_done
    → TurnMoves p (if q.at_eof then return q (failed eof) else skip q)
on_empty p q m l s f a h = ground arith

-- `on_marker` behind a scan, where `q` is the parser that the scan of `p` left.
on_marker-moves :
    (p q : Parser) (m : Marker) (fields : List Field)
    → length q.rest ≤ length p.rest
    → (m ≡ marker_none) × (q.at_eof ≡ true) ⊎ (length q.rest < length p.rest) × (m ≢ marker_none)
    → q.has_prefetch ≡ false
    → p.at_eof ≡ false
    → q.header_done ≡ p.header_done
    → TurnMoves p (on_marker q m fields)
unfolding on_marker give
on_marker-moves p q marker_none [] l s f a h = tt
on_marker-moves p q marker_eor [] l s f a h = on_empty p q marker_eor l s f a h
on_marker-moves p q marker_eoh [] l s f a h = on_empty p q marker_eoh l s f a h
on_marker-moves p q _ (g ∷ gs) l s f a h = ground arith

module _ (decode : Bytes → Option Bytes) where
  pub scan_total :
      (cancelled : Bool) (p : Parser) → Yields (Shrinks (length p.rest)) (scan decode cancelled p)
  scan_total cancelled p =
      scan_fields_total decode (length p.rest + 1) cancelled p.opts.max_field_len [] p.rest p.offset
        (omega arith)

-- `Next` behind the take of the prefetched fields.
abbrev taken : Parser → List Field → Parser
taken p fields = record p { has_prefetch = false; prefetched_fields = fields }

on_scan-moves :
    (p : Parser) (fields start : List Field) (s : Scan) (e : Option Error)
    → s.err ≡ e
    → Shrinks (length p.rest) s
    → p.at_eof ≡ false
    → TurnMoves p (on_scan (taken p fields) start s e)
unfolding on_scan after_scan
on_scan-moves p fields start s none e (l, h) a =
    on_marker-moves p (after_scan (taken p fields) s) s.marker (start ++ s.fields) l
      (elim h [ inl (none_there, wrong) ↦ absurd (wrong e) | inr moved ↦ inr moved ]) refl a refl
on_scan-moves p fields start s (some eof) e (l, h) a =
    on_marker-moves p (record (after_scan (taken p fields) s) { at_eof = true }) s.marker
      (start ++ s.fields) l
      (elim h [ inl (none_there, _) ↦ inl (none_there, refl) | inr m ↦ inr m ]) refl a refl
on_scan-moves p fields start s (some _) e h a = tt

leftover-moves :
    (p : Parser) (fields start : List Field)
    → p.at_eof ≡ true
    → p.has_prefetch ≡ true
    → TurnMoves p (leftover (taken p fields) start)
unfolding leftover give
leftover-moves p fields [] a h = tt
leftover-moves p fields (f ∷ fs) a h = ground arith

abbrev pub ResultMoves : Parser → Parser × Result Record → Type 0
ResultMoves p (q, r) = Progress p q r

module _ (decode : Bytes → Option Bytes) where
  scanned-moves :
      (p : Parser) (fields start : List Field) (o : Option Scan)
      → Yields (Shrinks (length p.rest)) o
      → p.at_eof ≡ false
      → Yields
          (TurnMoves p)
          (elim o [ none ↦ none | some s ↦ some (on_scan (taken p fields) start s s.err) ])
  scanned-moves p fields start none h a = elim h [ ]
  scanned-moves p fields start (some s) h a = on_scan-moves p fields start s s.err refl h a

  at_end-moves :
      (p : Parser) (b : Bool)
      → p.has_prefetch ≡ b
      → p.at_eof ≡ true
      → TurnMoves p (
          leftover
            (taken p (if b then [] else p.prefetched_fields))
            (if b then p.prefetched_fields else []))
  unfolding leftover
  at_end-moves p true h a = leftover-moves p [] p.prefetched_fields a h
  at_end-moves p false h a = tt

  turn-moves : (cancelled : Bool) (p : Parser) → Yields (TurnMoves p) (turn decode cancelled p)
  unfolding turn
  turn-moves true p = tt
  turn-moves false p =
      (elim p.at_eof
          as (λ b.
            p.at_eof ≡ b
            → Yields (TurnMoves p) (
                if b
                then some (
                    leftover (taken p (if p.has_prefetch then [] else p.prefetched_fields))
                      (if p.has_prefetch then p.prefetched_fields else []))
                else elim (scan decode false
                    (taken p (if p.has_prefetch then [] else p.prefetched_fields))) [
                      | none ↦ none
                      | some s ↦ some (
                          on_scan (taken p (if p.has_prefetch then [] else p.prefetched_fields))
                            (if p.has_prefetch then p.prefetched_fields else []) s s.err)
                    ])) [
                      | true ↦ λ ended. at_end-moves p p.has_prefetch refl ended
                      | false ↦ λ more.
                          scanned-moves p (if p.has_prefetch then [] else p.prefetched_fields)
                            (if p.has_prefetch then p.prefetched_fields else [])
                            (scan decode false p) (scan_total decode false p) more
                    ])
        refl

  ResultMoves-skip :
      (p q : Parser) (o : Option (Parser × Result Record))
      → work q < work p
      → q.header_done ≡ p.header_done
      → Yields (ResultMoves q) o
      → Yields (ResultMoves p) o
  ResultMoves-skip p q none l h y = y
  ResultMoves-skip p q (some (n, ok r)) l h y = (omega (arith, y.0, l), y.1 ∙ h)
  ResultMoves-skip p q (some (n, failed e)) l h y = tt

  pub next_loop_total :
      (fuel : ℕ) (cancelled : Bool) (p : Parser)
      → length p.rest < fuel
      → Yields (ResultMoves p) (next_loop decode fuel cancelled p)
  unfolding next_loop
  next_loop_total zero cancelled p h = absurd (omega arith)
  next_loop_total (suc fuel) cancelled p h =
      (elim (turn decode cancelled p)
          as (λ t.
            Yields (TurnMoves p) t
            → Yields (ResultMoves p) (elim t [
              | none ↦ none
              | some (skip q) ↦ next_loop decode fuel cancelled q
              | some (return q r) ↦ some (q, r)
            ])) [
              | none ↦ λ m. m
              | some (skip q) ↦ λ m.
                  ResultMoves-skip p q _ m.1 m.2
                    (next_loop_total fuel cancelled q (omega (arith, m.0, h)))
              | some (return q r) ↦ λ m. m
            ])
        (turn-moves cancelled p)
