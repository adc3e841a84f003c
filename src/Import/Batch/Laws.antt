-- ===== src/Import/Batch/Laws.antt =====
-- api/internal/jobs/adif_import.go: what insertQSOBatch does to the table, and its counts.
use radioledger.Base.{ℕ, suc, ◌+◌, ◌≡◌, refl, true, false, List, [], ◌∷◌, length, arith, if-ind}
use radioledger.Import.Row.{QsoRow}
use radioledger.Import.Batch.{
  Faults, Inserted, dedup_loop, deduplicate_batch, copy_from, insert_one, insert_each, insert_kept,
  insert_qso_batch, has_key, key_of, DedupKey, count_dupe, keep_row,
}
use radioledger.Import.Batch.Fresh.{
  AreDistinct, AreFresh, AreFresh-skip, deduplicate_batch-AreFresh,
}

-- What has been done with a batch of `n` rows, from a table.
abbrev pub IsCounted : List QsoRow → ℕ → Inserted → Type 0
IsCounted qsos n done =
    (done.inserted + (done.dupes + done.err_count) ≡ n)
    × (length done.qsos ≡ length qsos + done.inserted)

dedup_loop-counts :
    (rs : List QsoRow) (keys : List DedupKey)
    → length (dedup_loop rs keys).0 + (dedup_loop rs keys).1 ≡ length rs
unfolding dedup_loop
dedup_loop-counts [] keys = refl
dedup_loop-counts (r ∷ rs) keys =
    elim (has_key (key_of r) keys)
      as (λ t.
        let out : List QsoRow × ℕ = elim t as (λ u. List QsoRow × ℕ) [
          | true ↦ count_dupe (dedup_loop rs keys)
          | false ↦ keep_row r (dedup_loop rs (key_of r ∷ keys))
        ] in
        length out.0 + out.1 ≡ suc (length rs)) [
          | true ↦ omega (arith, dedup_loop-counts rs keys)
          | false ↦ omega (arith, dedup_loop-counts rs (key_of r ∷ keys))
        ]

deduplicate_batch-counts :
    (faults : Faults) (qsos batch : List QsoRow)
    → length (deduplicate_batch faults qsos batch).0 + (deduplicate_batch faults qsos batch).1
      ≡ length batch
unfolding deduplicate_batch
deduplicate_batch-counts faults qsos [] = refl
deduplicate_batch-counts faults qsos (r ∷ rs) =
    if-ind (λ (out : List QsoRow × ℕ). length out.0 + out.1 ≡ suc (length rs))
      (faults.query_fails qsos) _ _ (omega arith) (dedup_loop-counts (r ∷ rs) _)

length-copy_from : (rs qsos : List QsoRow) → length (copy_from rs qsos) ≡ length qsos + length rs
unfolding copy_from
length-copy_from [] qsos = omega arith
length-copy_from (r ∷ rs) qsos = omega (arith, length-copy_from rs (r ∷ qsos))

insert_one-IsCounted :
    (faults : Faults) (r : QsoRow) (qsos : List QsoRow) (n : ℕ) (done : Inserted)
    → IsCounted qsos n done
    → IsCounted qsos (suc n) (insert_one faults r done)
unfolding insert_one
insert_one-IsCounted faults r qsos n done c =
    if-ind (IsCounted qsos (suc n)) (faults.insert_fails done.qsos r) _ _
      (omega (arith, c.0), omega (arith, c.1)) (omega (arith, c.0), omega (arith, c.1))

insert_each-IsCounted :
    (faults : Faults) (rs qsos : List QsoRow) (n : ℕ) (done : Inserted)
    → IsCounted qsos n done
    → IsCounted qsos (length rs + n) (insert_each faults rs done)
unfolding insert_each
insert_each-IsCounted faults [] qsos n done c = (omega (arith, c.0), c.1)
insert_each-IsCounted faults (r ∷ rs) qsos n done c =
    let ih =
      insert_each-IsCounted faults rs qsos (suc n) (insert_one faults r done)
        (insert_one-IsCounted faults r qsos n done c) in
    (omega (arith, ih.0), ih.1)

insert_kept-IsCounted :
    (faults : Faults) (qsos : List QsoRow) (kept : List QsoRow) (dupes : ℕ)
    → IsCounted qsos (length kept + dupes) (insert_kept faults qsos (kept, dupes))
insert_kept-IsCounted faults qsos [] dupes = (omega arith, omega arith)
insert_kept-IsCounted faults qsos (r ∷ rs) dupes =
    if-ind (IsCounted qsos (length (r ∷ rs) + dupes)) (faults.copy_fails qsos (r ∷ rs)) _ _
      (insert_each-IsCounted faults (r ∷ rs) qsos dupes _ (omega arith, omega arith))
      (omega arith, length-copy_from (r ∷ rs) qsos)

-- Every row of a batch is inserted, a duplicate or an error, and the table grows by the rows inserted.
pub insert_qso_batch-IsCounted :
    (faults : Faults) (qsos batch : List QsoRow)
    → IsCounted qsos (length batch) (insert_qso_batch faults qsos batch)
unfolding insert_qso_batch
insert_qso_batch-IsCounted faults qsos batch =
    let out = deduplicate_batch faults qsos batch in
    let c = insert_kept-IsCounted faults qsos out.0 out.1 in
    (omega (arith, c.0, deduplicate_batch-counts faults qsos batch), c.1)

copy_from-AreDistinct :
    (rs qsos : List QsoRow) → AreDistinct qsos → AreFresh rs qsos → AreDistinct (copy_from rs qsos)
unfolding copy_from
copy_from-AreDistinct [] qsos d f = d
copy_from-AreDistinct (r ∷ rs) qsos d f = copy_from-AreDistinct rs (r ∷ qsos) (f.0, d) f.1

insert_each-AreDistinct :
    (faults : Faults) (rs : List QsoRow) (done : Inserted)
    → AreDistinct done.qsos
    → AreFresh rs done.qsos
    → AreDistinct (insert_each faults rs done).qsos
unfolding insert_each
insert_each-AreDistinct faults [] done d f = d
insert_each-AreDistinct faults (r ∷ rs) done d f =
    let next : AreDistinct (insert_one faults r done).qsos
        × AreFresh rs (insert_one faults r done).qsos =
      unfold insert_one in
      if-ind (λ (x : Inserted). AreDistinct x.qsos × AreFresh rs x.qsos)
        (faults.insert_fails done.qsos r) _ _ (d, AreFresh-skip r rs done.qsos f.1)
        ((f.0, d), f.1) in
    insert_each-AreDistinct faults rs (insert_one faults r done) next.0 next.1

insert_kept-AreDistinct :
    (faults : Faults) (qsos : List QsoRow) (kept : List QsoRow) (dupes : ℕ)
    → AreDistinct qsos
    → AreFresh kept qsos
    → AreDistinct (insert_kept faults qsos (kept, dupes)).qsos
insert_kept-AreDistinct faults qsos [] dupes d f = d
insert_kept-AreDistinct faults qsos (r ∷ rs) dupes d f =
    if-ind (λ (x : Inserted). AreDistinct x.qsos) (faults.copy_fails qsos (r ∷ rs)) _ _
      (insert_each-AreDistinct faults (r ∷ rs) _ d f) (copy_from-AreDistinct (r ∷ rs) qsos d f)

-- Where the query for duplicates does not fail, a batch leaves no two contacts with one key.
pub insert_qso_batch-AreDistinct :
    (faults : Faults) (qsos batch : List QsoRow)
    → faults.query_fails qsos ≡ false
    → AreDistinct qsos
    → AreDistinct (insert_qso_batch faults qsos batch).qsos
unfolding insert_qso_batch
insert_qso_batch-AreDistinct faults qsos batch ok d =
    let out = deduplicate_batch faults qsos batch in
    insert_kept-AreDistinct faults qsos out.0 out.1 d
      (deduplicate_batch-AreFresh faults qsos batch ok)
