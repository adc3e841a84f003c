-- ===== src/Base/Lists.antt =====
-- Lists measured by native numbers, under the library's names.
use Prim.Native.Nat.{ℕ, zero, suc, ◌+◌, ◌≤◌}
use mathlib.Core.Path.{◌≡◌, refl, ap}
use mathlib.Core.Bool.{Bool, true, false, ◌&&◌, ◌||◌}
use mathlib.Core.List.{List, [], ◌∷◌, ◌++◌, Memᴰ}
use native.Mathlib.Omega.{arith}

module _ {ℓ} {A : Type ℓ} where
  abbrev pub length : List A → ℕ
  length [] = 0
  length (x ∷ xs) = suc (length xs)

  abbrev pub take : ℕ → List A → List A
  take zero xs = []
  take (suc n) [] = []
  take (suc n) (x ∷ xs) = x ∷ take n xs

  abbrev pub drop : ℕ → List A → List A
  drop zero xs = xs
  drop (suc n) [] = []
  drop (suc n) (x ∷ xs) = drop n xs

  -- Every item passes the test.
  unfoldable pub all : (A → Bool) → List A → Bool
  all p [] = true
  all p (x ∷ xs) = p x && all p xs

  -- Some item passes the test.
  unfoldable pub any : (A → Bool) → List A → Bool
  any p [] = false
  any p (x ∷ xs) = p x || any p xs

  -- The items that pass the test, in order.
  unfoldable pub keep : (A → Bool) → List A → List A
  keep p [] = []
  keep p (x ∷ xs) = elim (p x) [ true ↦ x ∷ keep p xs | false ↦ keep p xs ]

  abbrev pub All {κ} : (A → Type κ) → List A → Type κ
  All P [] = Unit
  All P (x ∷ xs) = P x × All P xs

module _ {ℓ} {A : Type ℓ} where
  pub All-keep {κ} : (P : A → Type κ) (p : A → Bool) (xs : List A) → All P xs → All P (keep p xs)
  unfolding keep
  All-keep P p [] a = a
  All-keep P p (x ∷ xs) a =
      elim (p x) as (λ t. All P (elim t [ true ↦ x ∷ keep p xs | false ↦ keep p xs ])) [
        | true ↦ (a.0, All-keep P p xs a.1)
        | false ↦ All-keep P p xs a.1
      ]

  -- Every item of a list is among its items.
  pub All-Mem {κ} : (P : A → Type κ) (xs : List A) → ((x : A) → Memᴰ x xs → P x) → All P xs
  All-Mem P [] f = tt
  All-Mem P (x ∷ xs) f = (f x (Memᴰ.head refl), All-Mem P xs (λ y m. f y (Memᴰ.tail m)))

  pub length-append : (xs ys : List A) → length (xs ++ ys) ≡ length xs + length ys
  length-append [] ys = omega arith
  length-append (x ∷ xs) ys = omega (arith, length-append xs ys)

  pub take-append : (xs ys : List A) → take (length xs) (xs ++ ys) ≡ xs
  take-append [] ys = refl
  take-append (x ∷ xs) ys = ap (◌∷◌ x) (take-append xs ys)

  pub drop-append : (xs ys : List A) → drop (length xs) (xs ++ ys) ≡ ys
  drop-append [] ys = refl
  drop-append (x ∷ xs) ys = drop-append xs ys

  pub length-drop-from : (m n : ℕ) (xs : List A) → length xs ≤ m + n → length (drop n xs) ≤ m
  length-drop-from m zero xs h = omega arith
  length-drop-from m (suc n) [] h = omega arith
  length-drop-from m (suc n) (x ∷ xs) h = length-drop-from m n xs (omega arith)

  pub length-drop-le : (n : ℕ) (xs : List A) → length (drop n xs) ≤ length xs
  length-drop-le zero xs = omega arith
  length-drop-le (suc n) [] = omega arith
  length-drop-le (suc n) (x ∷ xs) = omega (arith, length-drop-le n xs)

module _ {ℓ} {A : Type ℓ} where
  pub keep-true :
      (p : A → Bool) (x : A) (xs : List A) → p x ≡ true → keep p (x ∷ xs) ≡ x ∷ keep p xs
  unfolding keep
  keep-true p x xs h = rw (keep, h) refl

  pub keep-false : (p : A → Bool) (x : A) (xs : List A) → p x ≡ false → keep p (x ∷ xs) ≡ keep p xs
  unfolding keep
  keep-false p x xs h = rw (keep, h) refl

  pub keep-cons :
      (p : A → Bool) (x : A) (xs ys : List A)
      → keep p xs ≡ keep p ys
      → keep p (x ∷ xs) ≡ keep p (x ∷ ys)
  unfolding keep
  keep-cons p x xs ys e =
      elim (p x)
        as (λ b.
          (elim b [ true ↦ x ∷ keep p xs | false ↦ keep p xs ])
          ≡ (elim b [ true ↦ x ∷ keep p ys | false ↦ keep p ys ])) [
            | true ↦ ap (◌∷◌ x) e
            | false ↦ e
          ]

module _ {ℓ} {A : Type ℓ} where
  pub all-take : (p : A → Bool) (n : ℕ) (xs : List A) → all p xs ≡ true → all p (take n xs) ≡ true
  unfolding all
  all-take p zero xs h = refl
  all-take p (suc n) [] h = refl
  all-take p (suc n) (x ∷ xs) h = ground (arith, all-take p n xs)

  pub all-drop : (p : A → Bool) (n : ℕ) (xs : List A) → all p xs ≡ true → all p (drop n xs) ≡ true
  unfolding all
  all-drop p zero xs h = h
  all-drop p (suc n) [] h = refl
  all-drop p (suc n) (x ∷ xs) h = all-drop p n xs (ground arith)
