-- ===== src/Confirmation/Matcher.antt =====
-- api/internal/services/confirmation/matcher.go: which contact of another user confirms a contact.
pub mod Laws
use radioledger.Base.{
  ℕ, Bool, true, false, not, ◌&&◌, Bytes, List, [], ◌∷◌, Option, none, some, member, equal, ltb,
  if◌then◌else◌,
}
use radioledger.Base.Text.{codes, to_upper, trim_space}

-- `MatchCandidate`; the times are seconds, and the confidence is in hundredths.
pub record MatchCandidate : Type 0 where
  pub qso_id : ℕ
  pub user_id : ℕ
  pub their_callsign : Bytes
  pub our_callsign : Bytes
  pub band : Bytes
  pub mode : Bytes
  pub datetime_on : ℕ
  pub confidence : ℕ

-- `NormalizeModeGroup` at a mode already trimmed and in upper case.
unfoldable pub mode_group : Bytes → Bytes
unfolding member
mode_group mode =
    if member mode (codes "USB" ∷ codes "LSB" ∷ codes "AM" ∷ codes "SSB" ∷ [])
    then codes "SSB"
    else if member mode (codes "CW" ∷ codes "CWR" ∷ [])
    then codes "CW"
    else if member mode (codes "RTTY" ∷ codes "BAUDOT" ∷ [])
    then codes "RTTY"
    else mode

unfoldable pub normalize_mode_group : Bytes → Bytes
unfolding mode_group
normalize_mode_group mode = mode_group (to_upper (trim_space mode))

-- The loop of `BestMatch`.
unfoldable pub best_of : MatchCandidate → List MatchCandidate → MatchCandidate
best_of best [] = best
best_of best (c ∷ candidates) =
    best_of (if ltb best.confidence c.confidence then c else best) candidates

unfoldable pub best_match : List MatchCandidate → Option MatchCandidate
unfolding best_of
best_match [] = none
best_match (c ∷ candidates) = some (best_of c candidates)

-- The levels of `OperatorVerificationLevel`, with the method that `levelToMethod` gives each.
abbrev pub levels : List (Bytes × Bytes)
levels =
    (codes "cross_verified", codes "lotw_cross")
    ∷ (codes "vouched", codes "vouch")
    ∷ (codes "address", codes "address")
    ∷ (codes "email", codes "email")
    ∷ []

-- Its loop. `exists` is the query for a verified record of a method, `none` where it fails; the
-- second component says whether an error is returned.
unfoldable pub first_level : (Bytes → Option Bool) → List (Bytes × Bytes) → Bytes × Bool
first_level exists [] = (codes "none", false)
first_level exists ((level, method) ∷ rest) =
    let later = first_level exists rest in
    elim (exists method) [
      | none ↦ (codes "none", true)
      | some true ↦ (level, false)
      | some false ↦ later
    ]

unfoldable pub operator_verification_level : (Bytes → Option Bool) → Bytes × Bool
unfolding first_level
operator_verification_level exists = first_level exists levels

unfoldable pub determine_confirmation_status : Bytes → Bytes → Bool → Bytes
unfolding equal
determine_confirmation_status ours theirs matched =
    if not matched
    then codes "unconfirmed"
    else if not (equal ours (codes "none")) && not (equal theirs (codes "none"))
    then codes "confirmed"
    else codes "matched"
