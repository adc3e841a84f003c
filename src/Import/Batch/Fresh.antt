-- ===== src/Import/Batch/Fresh.antt =====
-- api/internal/jobs/adif_import.go: the rows that deduplicateBatch keeps.
use radioledger.Base.{
  ℕ, ◌≤◌, ◌≡◌, refl, true, false, List, [], ◌∷◌, ltb, if◌then◌else◌, map, arith, All,
}
use radioledger.Import.Row.{QsoRow}
use radioledger.Import.Batch.{
  DedupKey, key_of, same_key, has_key, Faults, min_time, max_time, existing_keys, dedup_loop,
  count_dupe, keep_row, deduplicate_batch,
}

-- No two contacts have the same key.
abbrev pub AreDistinct : List QsoRow → Type 0
AreDistinct [] = Unit
AreDistinct (r ∷ rs) = (has_key (key_of r) (map key_of rs) ≡ false) × AreDistinct rs

-- The rows can be added to the table, one behind the other, with no key twice.
abbrev pub AreFresh : List QsoRow → List QsoRow → Type 0
AreFresh [] qsos = Unit
AreFresh (r ∷ rs) qsos = (has_key (key_of r) (map key_of qsos) ≡ false) × AreFresh rs (r ∷ qsos)

-- Within the window, a key that is not among the keys is not in the table.
Covers : ℕ → ℕ → List DedupKey → List QsoRow → Type 0
Covers low high keys qsos =
    (k : DedupKey)
    → low ≤ k.time_key
    → k.time_key ≤ high
    → has_key k keys ≡ false
    → has_key k (map key_of qsos) ≡ false

existing_keys-Covers :
    (low high : ℕ) (qsos : List QsoRow) → Covers low high (existing_keys low high qsos) qsos
unfolding existing_keys Covers has_key same_key key_of
existing_keys-Covers low high [] k a b h = h
existing_keys-Covers low high (r ∷ qsos) k a b h =
    ground (arith, existing_keys-Covers low high qsos k a b)

-- A key that is new to the keys and the table stays so behind a row with another key.
Covers-cons :
    (low high : ℕ) (r : QsoRow) (keys : List DedupKey) (qsos : List QsoRow)
    → Covers low high keys qsos
    → Covers low high (key_of r ∷ keys) (r ∷ qsos)
unfolding Covers has_key
Covers-cons low high r keys qsos c k a b h = ground (arith, c k a b)

-- The rows lie in the window.
abbrev AreWithin : ℕ → ℕ → List QsoRow → Type 0
AreWithin low high rs = All (λ r. (low ≤ r.datetime_on) × (r.datetime_on ≤ high)) rs

dedup_loop-AreFresh :
    (low high : ℕ) (rs : List QsoRow) (keys : List DedupKey) (qsos : List QsoRow)
    → AreWithin low high rs
    → Covers low high keys qsos
    → AreFresh (dedup_loop rs keys).0 qsos
unfolding dedup_loop
dedup_loop-AreFresh low high [] keys qsos w c = tt
dedup_loop-AreFresh low high (r ∷ rs) keys qsos w c =
    (elim (has_key (key_of r) keys)
        as (λ t.
          has_key (key_of r) keys ≡ t
          → AreFresh
              (elim t as (λ u. List QsoRow × ℕ) [
                | true ↦ count_dupe (dedup_loop rs keys)
                | false ↦ keep_row r (dedup_loop rs (key_of r ∷ keys))
              ]).0
              qsos) [
                | true ↦ λ known. dedup_loop-AreFresh low high rs keys qsos w.1 c
                | false ↦ λ new. (
                  unfold Covers in
                      c (key_of r) (unfold key_of in w.0.0) (unfold key_of in w.0.1) new,
                  dedup_loop-AreFresh low high rs (key_of r ∷ keys) (r ∷ qsos) w.1
                      (Covers-cons low high r keys qsos c),
                )
              ])
      refl

min_time-le : (t : ℕ) (rs : List QsoRow) → min_time t rs ≤ t
unfolding min_time
min_time-le t [] = omega arith
min_time-le t (r ∷ rs) =
    ground (arith, min_time-le (if ltb r.datetime_on t then r.datetime_on else t) rs)

max_time-ge : (t : ℕ) (rs : List QsoRow) → t ≤ max_time t rs
unfolding max_time
max_time-ge t [] = omega arith
max_time-ge t (r ∷ rs) =
    ground (arith, max_time-ge (if ltb t r.datetime_on then r.datetime_on else t) rs)

window-AreWithin :
    (low high : ℕ) (rs : List QsoRow) → AreWithin (min_time low rs) (max_time high rs) rs
unfolding min_time max_time
window-AreWithin low high [] = tt
window-AreWithin low high (r ∷ rs) =
    let first = if ltb r.datetime_on low then r.datetime_on else low in
    let last = if ltb high r.datetime_on then r.datetime_on else high in
    (
      (ground (arith, min_time-le first rs), ground (arith, max_time-ge last rs)),
      window-AreWithin first last rs,
    )

-- Where its query does not fail, deduplicateBatch keeps rows that can be added to the table with no
-- key twice.
pub deduplicate_batch-AreFresh :
    (faults : Faults) (qsos batch : List QsoRow)
    → faults.query_fails qsos ≡ false
    → AreFresh (deduplicate_batch faults qsos batch).0 qsos
unfolding deduplicate_batch
deduplicate_batch-AreFresh faults qsos [] ok = tt
deduplicate_batch-AreFresh faults qsos (r ∷ rs) ok =
    let low = min_time r.datetime_on (r ∷ rs) in
    let high = max_time r.datetime_on (r ∷ rs) in
    rw ok (
      dedup_loop-AreFresh low high (r ∷ rs) (existing_keys low high qsos) qsos
        (window-AreWithin r.datetime_on r.datetime_on (r ∷ rs))
        (existing_keys-Covers low high qsos))

-- What is new to a table is new to one with fewer keys.
AreFresh-subset :
    (rs small large : List QsoRow)
    → ((k : DedupKey) → has_key k (map key_of large) ≡ false → has_key k (map key_of small) ≡ false)
    → AreFresh rs large
    → AreFresh rs small
unfolding has_key
AreFresh-subset [] small large sub f = tt
AreFresh-subset (r ∷ rs) small large sub f = (
  sub (key_of r) f.0,
  AreFresh-subset rs (r ∷ small) (r ∷ large) (λ k h. ground (arith, sub k)) f.1,
)

pub AreFresh-skip : (r : QsoRow) (rs qsos : List QsoRow) → AreFresh rs (r ∷ qsos) → AreFresh rs qsos
unfolding has_key
AreFresh-skip r rs qsos f = AreFresh-subset rs qsos (r ∷ qsos) (λ k h. ground arith) f
