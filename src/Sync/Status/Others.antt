-- ===== src/Sync/Status/Others.antt =====
-- The table sync_status: the rows that an UPDATE does not reach, for a test `own` on the keys of the
-- rows.
use radioledger.Base.{
  ℕ, ◌==◌, ◌≡◌, refl, sym, ap, ◌∙◌, Bool, true, false, not, ◌||◌, List, [], ◌∷◌, any, all, keep,
  keep-false, keep-cons, if◌then◌else◌, Bool-cases, inl, inr, arith,
}
use radioledger.Sync.Status.{SyncRow, update_where}
use radioledger.Sync.Status.Rows.{Key, key, keys, keys-update_where}
use radioledger.Sync.Status.Queue.{are_apart}

module _ (own : Key → Bool) where
  -- The rows that are not the test's, in order.
  abbrev pub others : List SyncRow → List SyncRow
  others rows = keep (λ r. not (own (key r))) rows

  -- The same other rows, and the same keys.
  abbrev pub IsAlike : List SyncRow → List SyncRow → Type 0
  IsAlike rows rows' = (others rows' ≡ others rows) × (keys rows' ≡ keys rows)

  pub IsAlike-trans :
      (rows rows' rows'' : List SyncRow)
      → IsAlike rows rows'
      → IsAlike rows' rows''
      → IsAlike rows rows''
  IsAlike-trans rows rows' rows'' (o, k) (o', k') = (o' ∙ o, k' ∙ k)

  module _ (test : SyncRow → Bool) (change : SyncRow → SyncRow)
      (keeps : (r : SyncRow) → key (change r) ≡ key r) where
    others-update_where :
        (rows : List SyncRow)
        → all (λ r. not (test r) || own (key r)) rows ≡ true
        → others (update_where test change rows) ≡ others rows
    unfolding update_where all
    others-update_where [] h = refl
    others-update_where (r ∷ rows) h =
        let ih = others-update_where rows (ground arith) in
        let tail = update_where test change rows in
        let other : SyncRow → Bool = λ s. not (own (key s)) in
        elim (Bool-cases (test r)) [
          | inl hit ↦
              let mine : own (key r) ≡ true = ground arith in
              let still : own (key (change r)) ≡ true = ap own (keeps r) ∙ mine in
              ap (λ b. others ((if b then change r else r) ∷ tail)) hit
              ∙ keep-false other (change r) tail (ap not still)
              ∙ ih
              ∙ sym (keep-false other r rows (ap not mine))
          | inr miss ↦
              ap (λ b. others ((if b then change r else r) ∷ tail)) miss
              ∙ keep-cons other r tail rows ih
        ]

    pub update_where-IsAlike :
        (rows : List SyncRow)
        → all (λ r. not (test r) || own (key r)) rows ≡ true
        → IsAlike rows (update_where test change rows)
    update_where-IsAlike rows h =
        (others-update_where rows h, keys-update_where test change keeps rows)

  -- Every row with the number is the test's.
  unfoldable pub is_owned : ℕ → List Key → Bool
  is_owned id ks = all (λ k. not (k.0 == id) || own k) ks

  all-is_owned :
      (id : ℕ) (rows : List SyncRow)
      → is_owned id (keys rows) ≡ true
      → all (λ r. not (r.id == id) || own (key r)) rows ≡ true
  unfolding is_owned all
  all-is_owned id [] h = refl
  all-is_owned id (r ∷ rows) h = ground (arith, all-is_owned id rows)

  pub update_id-IsAlike :
      (id : ℕ) (change : SyncRow → SyncRow)
      → ((r : SyncRow) → key (change r) ≡ key r)
      → (rows : List SyncRow) → is_owned id (keys rows) ≡ true
      → IsAlike rows (update_where (λ r. r.id == id) change rows)
  update_id-IsAlike id change keeps rows h =
      update_where-IsAlike (λ r. r.id == id) change keeps rows (all-is_owned id rows h)

  is_owned-absent :
      (id : ℕ) (rows : List SyncRow)
      → any (λ s. s.id == id) rows ≡ false
      → is_owned id (keys rows) ≡ true
  unfolding is_owned any all
  is_owned-absent id [] h = refl
  is_owned-absent id (r ∷ rows) h = ground (arith, is_owned-absent id rows)

  -- A row of the test has a number that only such rows have.
  abbrev pub owns_id : List Key → SyncRow → Bool
  owns_id ks r = not (own (key r)) || is_owned r.id ks

  owns_id-cons :
      (r : SyncRow) (ks : List Key) (rows : List SyncRow)
      → any (λ s. s.id == r.id) rows ≡ false
      → all (owns_id ks) rows ≡ true
      → all (owns_id (key r ∷ ks)) rows ≡ true
  unfolding any all is_owned
  owns_id-cons r ks [] a h = refl
  owns_id-cons r ks (s ∷ rows) a h = ground (arith, owns_id-cons r ks rows)

  pub all-owns_id :
      (rows : List SyncRow) → are_apart rows ≡ true → all (owns_id (keys rows)) rows ≡ true
  unfolding are_apart all is_owned
  all-owns_id [] a = refl
  all-owns_id (r ∷ rows) a =
      let rest = owns_id-cons r (keys rows) rows (ground arith) (all-owns_id rows (ground arith)) in
      let alone = is_owned-absent r.id rows (ground arith) in ground (arith, rest, alone)
