-- ===== src/Import/Run/Steps.antt =====
-- api/internal/jobs/adif_import.go: a turn of the loops of both passes, by what Next returns.
use radioledger.Base.{ℕ, suc, ◌+◌, ◌≡◌, refl, false, Bytes, Option, none, some, List, []}
use radioledger.Adif.Record.{Header, Record}
use radioledger.Adif.Scan.{eof, too_many_records}
use radioledger.Adif.Parser.{Parser, ok, failed, header, next}
use radioledger.Import.Row.{Floats, QsoRow}
use radioledger.Import.Batch.{Faults}
use radioledger.Import.Run.{
  ImportState, flush_batch, import_one, import_loop, count_loop, count_error, count_adif_records,
  with_version, version_of, import_records, no_counts,
}

module _ (decode : Bytes → Option Bytes) (fuel : ℕ) (p : Parser) {q : Parser} where
  pub count_loop-ok :
      (n : ℕ) {r : Record}
      → next decode false p ≡ some (q, ok r)
      → count_loop decode (suc fuel) false p n ≡ count_loop decode fuel false q (n + 1)
  unfolding count_loop
  count_loop-ok n e = rw (e, count_loop) refl

  pub count_loop-eof :
      (n : ℕ)
      → next decode false p ≡ some (q, failed eof)
      → count_loop decode (suc fuel) false p n ≡ some n
  unfolding count_loop
  count_loop-eof n e = rw (e, count_loop) refl

  pub count_loop-too_many_records :
      (n : ℕ)
      → next decode false p ≡ some (q, failed too_many_records)
      → count_loop decode (suc fuel) false p n ≡ count_loop decode fuel false q n
  unfolding count_loop
  count_loop-too_many_records n e = rw (e, count_loop) refl

  module _ (floats : Floats) (faults : Faults) (st : ImportState) where
    pub import_loop-ok :
        {r : Record}
        → next decode false p ≡ some (q, ok r)
        → import_loop decode floats faults (suc fuel) false p st
          ≡ import_loop decode floats faults fuel false q (import_one decode floats faults r st)
    unfolding import_loop
    import_loop-ok e = rw (e, import_loop) refl

    pub import_loop-eof :
        next decode false p ≡ some (q, failed eof)
        → import_loop decode floats faults (suc fuel) false p st
          ≡ some (flush_batch faults st, none)
    unfolding import_loop
    import_loop-eof e = rw (e, import_loop) refl

    pub import_loop-too_many_records :
        next decode false p ≡ some (q, failed too_many_records)
        → import_loop decode floats faults (suc fuel) false p st
          ≡ import_loop decode floats faults fuel false q (count_error st)
    unfolding import_loop
    import_loop-too_many_records e = rw (e, import_loop) refl

module _ (decode : Bytes → Option Bytes) (fuel : ℕ) (start : Parser) {p : Parser}
    {h : Option Header} where
  pub count_adif_records-ok :
      header decode false start ≡ some (p, ok h)
      → count_adif_records decode fuel false start
        ≡ with_version decode (version_of decode h) (count_loop decode fuel false p 0)
  unfolding count_adif_records
  count_adif_records-ok e = rw (e, count_adif_records) refl

  pub import_records-ok :
      (floats : Floats) (faults : Faults) (qsos : List QsoRow)
      → header decode false start ≡ some (p, ok h)
      → import_records decode floats faults fuel false start qsos
        ≡ import_loop decode floats faults fuel false p
            (record { counters = no_counts; batch = []; qsos = qsos })
  unfolding import_records
  import_records-ok floats faults qsos e = rw (e, import_records) refl
