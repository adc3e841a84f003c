-- ===== src/Confirmation/Matcher/Laws.antt =====
-- api/internal/services/confirmation/matcher.go: the best candidate, and what makes a contact confirmed.
use mathlib.Core.List.{Memᴰ}
use radioledger.Base.{
  ◌||◌, not, ◌&&◌, ◌≤◌, ◌≡◌, refl, true, false, List, [], ◌∷◌, some, All, arith, ltb, if◌then◌else◌,
  Bool-cases, inl, inr, equal, Bytes, Bool,
}
use radioledger.Confirmation.Matcher.{
  MatchCandidate, best_of, best_match, determine_confirmation_status, operator_verification_level,
  codes,
}

-- No candidate has a higher confidence.
abbrev pub IsTop : MatchCandidate → List MatchCandidate → Type 0
IsTop b candidates = All (λ c. c.confidence ≤ b.confidence) candidates

best_of-at_least :
    (b : MatchCandidate) (cs : List MatchCandidate) → b.confidence ≤ (best_of b cs).confidence
unfolding best_of
best_of-at_least b [] = omega arith
best_of-at_least b (c ∷ cs) = elim (Bool-cases (ltb b.confidence c.confidence)) [
  | inl more ↦ rw (more, best_of) (ground (arith, more, best_of-at_least c cs))
  | inr less ↦ rw (less, best_of) (best_of-at_least b cs)
]

best_of-IsTop : (b : MatchCandidate) (cs : List MatchCandidate) → IsTop (best_of b cs) cs
unfolding best_of
best_of-IsTop b [] = tt
best_of-IsTop b (c ∷ cs) =
    (elim (ltb b.confidence c.confidence)
        as (λ t.
          ltb b.confidence c.confidence ≡ t → IsTop (best_of (if t then c else b) cs) (c ∷ cs)) [
            | true ↦ λ more. (best_of-at_least c cs, best_of-IsTop c cs)
            | false ↦ λ less. (ground (arith, less, best_of-at_least b cs), best_of-IsTop b cs)
          ])
      refl

behind_first :
    (b c : MatchCandidate) (cs : List MatchCandidate) (x : MatchCandidate)
    → Memᴰ x (b ∷ cs)
    → Memᴰ x (b ∷ c ∷ cs)
behind_first b c cs x (Memᴰ.head e) = Memᴰ.head e
behind_first b c cs x (Memᴰ.tail m) = Memᴰ.tail (Memᴰ.tail m)

best_of-member : (b : MatchCandidate) (cs : List MatchCandidate) → Memᴰ (best_of b cs) (b ∷ cs)
unfolding best_of
best_of-member b [] = Memᴰ.head refl
best_of-member b (c ∷ cs) =
    elim (ltb b.confidence c.confidence)
      as (λ t. Memᴰ (best_of (if t then c else b) cs) (b ∷ c ∷ cs)) [
        | true ↦ Memᴰ.tail (best_of-member c cs)
        | false ↦ behind_first b c cs (best_of b cs) (best_of-member b cs)
      ]

-- Of one or more candidates `BestMatch` returns one that has the highest confidence.
pub best_match-IsTop :
    (c : MatchCandidate) (cs : List MatchCandidate)
    → (b : MatchCandidate) × (best_match (c ∷ cs) ≡ some b) × Memᴰ b (c ∷ cs) × IsTop b (c ∷ cs)
unfolding best_match
best_match-IsTop c cs =
    (best_of c cs, refl, best_of-member c cs, (best_of-at_least c cs, best_of-IsTop c cs))

-- An operator has a verified record of one of the methods that are asked for.
abbrev pub is_verified : (Bytes → Bool) → Bool
is_verified e =
    e (codes "lotw_cross") || (e (codes "vouch") || (e (codes "address") || e (codes "email")))

abbrev first_of : Bool → Bool → Bool → Bool → Bytes
first_of a b c d =
    if a
    then codes "cross_verified"
    else if b
    then codes "vouched"
    else if c
    then codes "address"
    else if d
    then codes "email"
    else codes "none"

first_of-none :
    (a b c d : Bool) → equal (first_of a b c d) (codes "none") ≡ not (a || (b || (c || d)))
unfolding equal
first_of-none true b c d = refl
first_of-none false true c d = refl
first_of-none false false true d = refl
first_of-none false false false true = refl
first_of-none false false false false = refl

level-first_of :
    (e : Bytes → Bool)
    → (operator_verification_level (λ m. some (e m))).0
      ≡ first_of
          (e (codes "lotw_cross"))
          (e (codes "vouch"))
          (e (codes "address"))
          (e (codes "email"))
unfolding operator_verification_level
level-first_of e = ground arith

level_none :
    (e : Bytes → Bool)
    → equal (operator_verification_level (λ m. some (e m))).0 (codes "none") ≡ not (is_verified e)
level_none e = rw (level-first_of e) (first_of-none _ _ _ _)

status_by :
    (matched a b : Bool) (s t : Bytes)
    → equal s (codes "none") ≡ not a
    → equal t (codes "none") ≡ not b
    → equal (determine_confirmation_status s t matched) (codes "confirmed") ≡ (matched && (a && b))
unfolding determine_confirmation_status equal
status_by false a b s t h g = refl
status_by true false b s t h g = rw (h) refl
status_by true true false s t h g = rw (h, g) refl
status_by true true true s t h g = rw (h, g) refl

-- When the queries do not fail: a contact is confirmed exactly when it is matched and both operators
-- have a verified record of one of the methods lotw_cross, vouch, address and email.
pub determine_confirmation_status-confirmed :
    (ours theirs : Bytes → Bool) (matched : Bool)
    → equal
        (determine_confirmation_status
          (operator_verification_level (λ m. some (ours m))).0
          (operator_verification_level (λ m. some (theirs m))).0
          matched)
        (codes "confirmed")
      ≡ (matched && (is_verified ours && is_verified theirs))
determine_confirmation_status-confirmed ours theirs matched =
    status_by matched (is_verified ours) (is_verified theirs) _ _ (level_none ours)
      (level_none theirs)
