-- ===== src/Base/Table.antt =====
-- Go's maps with string keys as association lists.
use mathlib.Core.Path.{◌≡◌, refl, sym, subst}
use mathlib.Core.Logic.{inl, inr, ◌≢◌}
use mathlib.Core.Bool.{Bool, true, false, not, ◌&&◌}
use mathlib.Core.List.{List, [], ◌∷◌}
use mathlib.Core.Option.{Option, none, some}
use native.Mathlib.Omega.{arith}
use radioledger.Base.Lists.{all, keep, All}
use radioledger.Base.Tests.{Bytes, equal, equal_iff, Bool-cases, if◌then◌else◌, equal_refl}

module _ {ℓ} {V : Type ℓ} where
  unfoldable pub lookup : Bytes → List (Bytes × V) → Option V
  unfolding equal
  lookup k [] = none
  lookup k ((j, v) ∷ m) = elim (equal j k) [ true ↦ some v | false ↦ lookup k m ]

  -- A property that holds of every row holds of the row that a lookup finds.
  pub lookup-all :
      (p : Bytes × V → Bool) (k : Bytes) (m : List (Bytes × V)) {v : V}
      → all p m ≡ true
      → lookup k m ≡ some v
      → p (k, v) ≡ true
  unfolding lookup all
  lookup-all p k [] h e = ground arith
  lookup-all p k ((j, w) ∷ m) {v} h e = elim (Bool-cases (equal j k)) [
    | inl same ↦ ground (arith, equal_iff j k)
    | inr other ↦ lookup-all p k m (ground arith) (rw (other, lookup) at e)
  ]

unfoldable pub member : Bytes → List Bytes → Bool
unfolding equal
member k [] = false
member k (j ∷ m) = elim (equal j k) [ true ↦ true | false ↦ member k m ]

pub member-all :
    (p : Bytes → Bool) (k : Bytes) (m : List Bytes)
    → all p m ≡ true
    → member k m ≡ true
    → p k ≡ true
unfolding member all
member-all p k [] h e = ground arith
member-all p k (j ∷ m) h e = ground (arith, equal_iff j k, member-all p k m)

-- `m[k] = v`, and the upsert of a row whose primary key is `k`.
module _ {ℓ} {V : Type ℓ} where
  unfoldable pub put : Bytes → V → List (Bytes × V) → List (Bytes × V)
  unfolding equal
  put k v [] = (k, v) ∷ []
  put k v ((j, w) ∷ m) = let rest = put k v m in if equal j k then (j, v) ∷ m else (j, w) ∷ rest

  pub lookup-put : (k : Bytes) (v : V) (m : List (Bytes × V)) → lookup k (put k v m) ≡ some v
  unfolding lookup put
  lookup-put k v [] = rw (lookup, equal_refl k) refl
  lookup-put k v ((j, w) ∷ m) = ground (arith, lookup-put k v m)

  pub lookup-put_other :
      (i k : Bytes) (v : V) (m : List (Bytes × V)) → i ≢ k → lookup i (put k v m) ≡ lookup i m
  unfolding lookup put
  lookup-put_other i k v [] h = ground (arith, equal_iff k i)
  lookup-put_other i k v ((j, w) ∷ m) h =
      ground (arith, equal_iff j i, equal_iff j k, lookup-put_other i k v m h)

-- `delete(m, k)`.
module _ {ℓ} {V : Type ℓ} where
  unfoldable pub remove : Bytes → List (Bytes × V) → List (Bytes × V)
  remove k m = keep (λ row. not (equal row.0 k)) m

  pub lookup-remove : (k : Bytes) (m : List (Bytes × V)) → lookup k (remove k m) ≡ none
  unfolding lookup remove keep
  lookup-remove k [] = refl
  lookup-remove k ((j, w) ∷ m) = ground (arith, lookup-remove k m)

  pub lookup-remove_other :
      (i k : Bytes) (m : List (Bytes × V)) → i ≢ k → lookup i (remove k m) ≡ lookup i m
  unfolding lookup remove keep
  lookup-remove_other i k [] h = refl
  lookup-remove_other i k ((j, w) ∷ m) h =
      ground (arith, equal_iff j i, equal_iff j k, lookup-remove_other i k m h)

  -- A row that is found and passes the test is found among the rows that pass it.
  pub lookup-keep :
      (p : Bytes × V → Bool) (k : Bytes) (m : List (Bytes × V)) {v : V}
      → lookup k m ≡ some v
      → p (k, v) ≡ true
      → lookup k (keep p m) ≡ some v
  unfolding lookup keep
  lookup-keep p k [] h e = ground arith
  lookup-keep p k ((j, w) ∷ m) {v} h e = elim (Bool-cases (equal j k)) [
    | inl same ↦ ground (arith, equal_iff j k)
    | inr other ↦ ground (arith, lookup-keep p k m {v = v})
  ]

  pub lookup-keep-none :
      (p : Bytes × V → Bool) (k : Bytes) (m : List (Bytes × V))
      → lookup k m ≡ none
      → lookup k (keep p m) ≡ none
  unfolding lookup keep
  lookup-keep-none p k [] h = refl
  lookup-keep-none p k ((j, w) ∷ m) h = ground (arith, lookup-keep-none p k m)

  -- What holds of every row holds of the row found.
  abbrev pub is_missing : Option V → Bool
  is_missing none = true
  is_missing (some v) = false

  pub missing-none : (o : Option V) → is_missing o ≡ true → o ≡ none
  missing-none none h = refl
  missing-none (some v) h = absurd cc

  -- One entry for a key.
  unfoldable pub has_distinct_keys : List (Bytes × V) → Bool
  unfolding lookup
  has_distinct_keys [] = true
  has_distinct_keys ((k, v) ∷ m) = is_missing (lookup k m) && has_distinct_keys m

  pub lookup-keep-dropped :
      (p : Bytes × V → Bool) (k : Bytes) (m : List (Bytes × V)) {v : V}
      → has_distinct_keys m ≡ true
      → lookup k m ≡ some v
      → p (k, v) ≡ false
      → lookup k (keep p m) ≡ none
  unfolding has_distinct_keys lookup keep
  lookup-keep-dropped p k [] d h n = absurd cc
  lookup-keep-dropped p k ((j, w) ∷ m) {v} d h n = elim (Bool-cases (equal j k)) [
    | inl same ↦ ground (arith, equal_iff j k, missing-none (lookup j m), lookup-keep-none p k m)
    | inr other ↦ ground (arith, lookup-keep-dropped p k m {v = v})
  ]

  pub has_distinct_keys-keep :
      (p : Bytes × V → Bool) (m : List (Bytes × V))
      → has_distinct_keys m ≡ true
      → has_distinct_keys (keep p m) ≡ true
  unfolding has_distinct_keys keep
  has_distinct_keys-keep p [] d = refl
  has_distinct_keys-keep p ((k, v) ∷ m) d =
      ground (arith, missing-none (lookup k m), lookup-keep-none p k m, has_distinct_keys-keep p m)

  pub has_distinct_keys-put :
      (k : Bytes) (v : V) (m : List (Bytes × V))
      → has_distinct_keys m ≡ true
      → has_distinct_keys (put k v m) ≡ true
  unfolding has_distinct_keys put lookup
  has_distinct_keys-put k v [] d = refl
  has_distinct_keys-put k v ((j, w) ∷ m) d =
      ground
        (arith, equal_iff j k, equal_iff k j, lookup-put_other j k v m, has_distinct_keys-put k v m)

  pub lookup-All {κ} :
      (P : Bytes × V → Type κ) (k : Bytes) (m : List (Bytes × V)) {v : V}
      → All P m
      → lookup k m ≡ some v
      → P (k, v)
  unfolding lookup
  lookup-All P k [] a h = ground arith
  lookup-All P k ((j, w) ∷ m) {v} a h = elim (Bool-cases (equal j k)) [
    | inl same ↦
        let found : some w ≡ some v = rw (same, lookup) at h in
        let value : w ≡ v = ground arith in
        let key = (equal_iff j k).0 same in
        subst (λ x. P (x, v)) key (subst (λ x. P (j, x)) value a.0)
    | inr other ↦ lookup-All P k m a.1 (rw (other, lookup) at h)
  ]

  pub put-All {κ} :
      (P : Bytes × V → Type κ) (k : Bytes) (v : V) (m : List (Bytes × V))
      → All P m
      → P (k, v)
      → All P (put k v m)
  unfolding put
  put-All P k v [] a h = (h, tt)
  put-All P k v ((j, w) ∷ m) a h = elim (Bool-cases (equal j k)) [
    | inl same ↦
        let key = (equal_iff j k).0 same in rw (same, put) (subst (λ x. P (x, v)) (sym key) h, a.1)
    | inr other ↦ rw (other, put) (a.0, put-All P k v m a.1 h)
  ]
