-- ===== src/Base/Text/Trim.antt =====
-- When `strings.TrimSpace` leaves a text as it is.
use radioledger.Base.{
  all, not, true, ℕ, ◌≤◌, ◌≡◌, refl, ap, false, [], ◌∷◌, ◌++◌, arith, Bytes, length,
}
use radioledger.Base.Text.{is_space, trim_left, trim_right, trim_space}

length-trim_left : (s : Bytes) → length (trim_left s) ≤ length s
unfolding trim_left
length-trim_left [] = omega arith
length-trim_left (c ∷ s) = ground (arith, length-trim_left s)

length-trim_right : (s : Bytes) → length (trim_right s) ≤ length s
unfolding trim_right
length-trim_right [] = omega arith
length-trim_right (c ∷ s) = ground (arith, length-trim_right s)

-- A text that is not changed by TrimSpace starts with a byte that is no space.
pub trimmed-head : (c : ℕ) (s : Bytes) → trim_space (c ∷ s) ≡ c ∷ s → is_space c ≡ false
unfolding trim_space trim_left
trimmed-head c s h =
    ground (arith, ap length h, length-trim_right (trim_left s), length-trim_left s)

-- ... and loses nothing at its end.
pub trimmed-end : (s : Bytes) → trim_space s ≡ s → trim_right s ≡ s
unfolding trim_space
trimmed-end [] h = unfold trim_right in refl
trimmed-end (c ∷ s) h =
    let start : trim_left (c ∷ s) ≡ c ∷ s = unfold trim_left in rw (trimmed-head c s h) in
    rw start at h

trim_right-step :
    (c : ℕ) (u : Bytes) {d : ℕ} {t : Bytes} → trim_right u ≡ d ∷ t → trim_right (c ∷ u) ≡ c ∷ d ∷ t
unfolding trim_right
trim_right-step c u h = rw h

pub trim_right-cons :
    (c d : ℕ) (s : Bytes) → trim_right (d ∷ s) ≡ d ∷ s → trim_right (c ∷ d ∷ s) ≡ c ∷ d ∷ s
trim_right-cons c d s h = trim_right-step c (d ∷ s) h

-- A text ends as its last part does.
pub trim_right-append :
    (s : Bytes) (d : ℕ) (t : Bytes)
    → trim_right (d ∷ t) ≡ d ∷ t
    → trim_right (s ++ d ∷ t) ≡ s ++ d ∷ t
trim_right-append [] d t h = h
trim_right-append (c ∷ []) d t h = trim_right-cons c d t h
trim_right-append (c ∷ e ∷ s) d t h =
    trim_right-cons c e (s ++ d ∷ t) (trim_right-append (e ∷ s) d t h)

-- A text that starts with no space and loses nothing at its end is left as it is.
pub trim_space_fixed :
    (c : ℕ) (s : Bytes)
    → is_space c ≡ false
    → trim_right (c ∷ s) ≡ c ∷ s
    → trim_space (c ∷ s) ≡ c ∷ s
unfolding trim_space trim_left
trim_space_fixed c s h e = rw h e

-- A text without a space is left as it is.
pub trim_right-solid : (s : Bytes) → all (λ c. not (is_space c)) s ≡ true → trim_right s ≡ s
unfolding trim_right all
trim_right-solid [] h = refl
trim_right-solid (c ∷ []) h = ground arith
trim_right-solid (c ∷ d ∷ s) h = trim_right-cons c d s (trim_right-solid (d ∷ s) (ground arith))

pub trim_space-solid : (s : Bytes) → all (λ c. not (is_space c)) s ≡ true → trim_space s ≡ s
unfolding all
trim_space-solid [] h = unfold trim_space trim_left trim_right in refl
trim_space-solid (c ∷ s) h = trim_space_fixed c s (ground arith) (trim_right-solid (c ∷ s) h)
