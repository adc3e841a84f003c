-- ===== src/Sync/Status/Queue.antt =====
-- The rows of sync_status that are due, in the order in which they are fetched, as a queue: what
-- marking the rows at its front leaves of it.
use mathlib.Core.Path.{subst}
use radioledger.Base.{
  ℕ, zero, suc, ◌==◌, ◌≡◌, refl, sym, ap, ◌∙◌, Bool, true, false, not, ◌&&◌, ◌||◌, List, [], ◌∷◌,
  any, keep, take, drop, if◌then◌else◌, Bool-cases, inl, inr, if-ind, arith,
}
use radioledger.Sync.Status.{SyncRow, update_where, insert_row, by_created}
use radioledger.Sync.Status.Keys.{clashes, clash_free}
use radioledger.Sync.Status.Rows.{key, keys}

-- No two rows have one number.
unfoldable pub are_apart : List SyncRow → Bool
unfolding any
are_apart [] = true
are_apart (r ∷ rows) = not (any (λ s. s.id == r.id) rows) && are_apart rows

module _ (change : SyncRow → SyncRow) where
  -- The rows with one number are changed.
  abbrev pub change_id : ℕ → List SyncRow → List SyncRow
  change_id id rows = update_where (λ r. r.id == id) change rows

  -- The updates for the rows of a batch, one by one.
  abbrev pub change_each : List SyncRow → List SyncRow → List SyncRow
  change_each [] rows = rows
  change_each (r ∷ batch) rows = change_each batch (change_id r.id rows)

  change_id-absent :
      (id : ℕ) (rows : List SyncRow) → any (λ s. s.id == id) rows ≡ false → change_id id rows ≡ rows
  unfolding update_where any
  change_id-absent id [] h = refl
  change_id-absent id (r ∷ rows) h = ground (arith, change_id-absent id rows)

  module _ (keeps_id : (r : SyncRow) → (change r).id ≡ r.id) where
    any-change_id :
        (i id : ℕ) (rows : List SyncRow)
        → any (λ s. s.id == i) (change_id id rows) ≡ any (λ s. s.id == i) rows
    unfolding update_where any
    any-change_id i id [] = refl
    any-change_id i id (r ∷ rows) = ground (arith, any-change_id i id rows, keeps_id r)

    pub are_apart-change_id :
        (id : ℕ) (rows : List SyncRow) → are_apart (change_id id rows) ≡ are_apart rows
    unfolding update_where are_apart
    are_apart-change_id id [] = refl
    are_apart-change_id id (r ∷ rows) =
        ground (arith, are_apart-change_id id rows, keeps_id r, any-change_id r.id id rows)

  module _ (test : SyncRow → Bool) (leaves : (r : SyncRow) → test (change r) ≡ false) where
    keep-skip :
        (s : SyncRow) (rows : List SyncRow) → test s ≡ false → keep test (s ∷ rows) ≡ keep test rows
    unfolding keep
    keep-skip s rows h = rw (keep, h) refl

    keep-cons :
        (s : SyncRow) (rows : List SyncRow)
        → test s ≡ true
        → keep test (s ∷ rows) ≡ s ∷ keep test rows
    unfolding keep
    keep-cons s rows h = rw (keep, h) refl

    -- The row at the front of the queue leaves it when it is changed.
    keep-change_id :
        (rows : List SyncRow) {r : SyncRow} {queue : List SyncRow}
        → are_apart rows ≡ true
        → keep test rows ≡ r ∷ queue
        → keep test (change_id r.id rows) ≡ queue
    unfolding update_where are_apart
    keep-change_id [] a h = unfold keep in ground arith
    keep-change_id (s ∷ rows) {r} {queue} a h = elim (Bool-cases (test s)) [
      | inl due ↦
          let front : s ∷ keep test rows ≡ r ∷ queue = sym (keep-cons s rows due) ∙ h in
          let same : s ≡ r = cc in
          let rest : keep test rows ≡ queue = cc in
          let alone : any (λ x. x.id == s.id) rows ≡ false = ground arith in
          let self : (s.id == s.id) ≡ true = ground arith in
          let tail = change_id s.id rows in
          subst (λ (x : SyncRow). keep test (change_id x.id (s ∷ rows)) ≡ queue) same
            (ap (λ b. keep test ((if b then change s else s) ∷ tail)) self
              ∙ keep-skip (change s) tail (leaves s)
              ∙ ap (keep test) (change_id-absent s.id rows alone)
              ∙ rest)
      | inr other ↦
          let skipped : keep test rows ≡ r ∷ queue = sym (keep-skip s rows other) ∙ h in
          let behind = keep-change_id rows {r = r} {queue = queue} (ground arith) skipped in
          let tail = change_id r.id rows in
          if-ind (λ (x : SyncRow). keep test (x ∷ tail) ≡ queue) (s.id == r.id) (change s) s
            (keep-skip (change s) tail (leaves s) ∙ behind) (keep-skip s tail other ∙ behind)
    ]

    module _ (keeps_id : (r : SyncRow) → (change r).id ≡ r.id) where
      -- Changing the first rows of the queue, one by one, leaves the others.
      pub keep-change_each :
          (n : ℕ) (queue rows : List SyncRow)
          → are_apart rows ≡ true
          → keep test rows ≡ queue
          → keep test (change_each (take n queue) rows) ≡ drop n queue
      keep-change_each zero queue rows a h = h
      keep-change_each (suc n) [] rows a h = h
      keep-change_each (suc n) (r ∷ queue) rows a h =
          keep-change_each n queue (change_id r.id rows)
            (are_apart-change_id keeps_id r.id rows ∙ a) (keep-change_id rows a h)

  -- The order of the rows, where the change keeps `created_at`.
  module _ (keeps_created : (r : SyncRow) → (change r).created_at ≡ r.created_at) where
    insert_row-update :
        (p : SyncRow → Bool) (r : SyncRow) (rows : List SyncRow)
        → insert_row (if p r then change r else r) (update_where p change rows)
          ≡ update_where p change (insert_row r rows)
    unfolding insert_row update_where
    insert_row-update p r [] = refl
    insert_row-update p r (s ∷ rows) =
        ground (arith, insert_row-update p r rows, keeps_created r, keeps_created s)

    by_created-update :
        (p : SyncRow → Bool) (rows : List SyncRow)
        → by_created (update_where p change rows) ≡ update_where p change (by_created rows)
    unfolding by_created update_where
    by_created-update p [] = refl
    by_created-update p (r ∷ rows) =
        ap (insert_row (if p r then change r else r)) (by_created-update p rows)
        ∙ insert_row-update p r (by_created rows)

    pub by_created-change_each :
        (batch rows : List SyncRow)
        → by_created (change_each batch rows) ≡ change_each batch (by_created rows)
    by_created-change_each [] rows = refl
    by_created-change_each (r ∷ batch) rows =
        by_created-change_each batch (change_id r.id rows)
        ∙ ap (change_each batch) (by_created-update (λ s. s.id == r.id) rows)

-- Sorting does not bring a number twice.
any-insert_row :
    (p : SyncRow → Bool) (r : SyncRow) (rows : List SyncRow)
    → any p (insert_row r rows) ≡ (p r || any p rows)
unfolding any insert_row
any-insert_row p r [] = refl
any-insert_row p r (s ∷ rows) = ground (arith, any-insert_row p r rows)

any-by_created : (p : SyncRow → Bool) (rows : List SyncRow) → any p (by_created rows) ≡ any p rows
unfolding any by_created
any-by_created p [] = refl
any-by_created p (r ∷ rows) =
    any-insert_row p r (by_created rows) ∙ ap (◌||◌ (p r)) (any-by_created p rows)

are_apart-insert_row :
    (r : SyncRow) (rows : List SyncRow)
    → any (λ s. s.id == r.id) rows ≡ false
    → are_apart rows ≡ true
    → are_apart (insert_row r rows) ≡ true
unfolding are_apart insert_row
are_apart-insert_row r [] h a = refl
are_apart-insert_row r (s ∷ rows) h a =
    ground (arith, are_apart-insert_row r rows, any-insert_row (λ x. x.id == s.id) r rows)

pub are_apart-by_created :
    (rows : List SyncRow) → are_apart rows ≡ true → are_apart (by_created rows) ≡ true
unfolding are_apart by_created
are_apart-by_created [] a = refl
are_apart-by_created (r ∷ rows) a =
    are_apart-insert_row r (by_created rows)
      (any-by_created (λ s. s.id == r.id) rows ∙ ground arith)
      (are_apart-by_created rows (ground arith))

-- Rows without a clash of their keys have numbers of their own.
any-clashes :
    (r : SyncRow) (rows : List SyncRow)
    → any (clashes (key r)) (keys rows) ≡ false
    → any (λ s. s.id == r.id) rows ≡ false
unfolding any
any-clashes r [] h = refl
any-clashes r (s ∷ rows) h = ground (arith, any-clashes r rows)

pub are_apart-clash_free :
    (rows : List SyncRow) → clash_free (keys rows) ≡ true → are_apart rows ≡ true
unfolding are_apart clash_free
are_apart-clash_free [] h = refl
are_apart-clash_free (r ∷ rows) h = ground (arith, any-clashes r rows, are_apart-clash_free rows)
