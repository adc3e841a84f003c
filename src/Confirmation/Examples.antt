-- ===== src/Confirmation/Examples.antt =====
-- Runs of the confirmation matcher, and the theorems at such candidates.
use radioledger.Base.{◌≡◌, some, true, equal, Bytes, Bool, ℕ}
use radioledger.Base.Text.{codes}
use radioledger.Confirmation.Matcher.{
  MatchCandidate, operator_verification_level, determine_confirmation_status,
}
use radioledger.Confirmation.Matcher.Laws.{determine_confirmation_status-confirmed}

abbrev candidate : ℕ → ℕ → MatchCandidate
candidate id confidence = record {
  qso_id = id;
  user_id = 7;
  their_callsign = codes "W1AW";
  our_callsign = codes "N0AX";
  band = codes "20m";
  mode = codes "USB";
  datetime_on = 0;
  confidence = confidence;
}

abbrev by_email : Bytes → Bool
by_email method = equal method (codes "email")

determine_confirmation_status-confirmed_example :
    equal
      (determine_confirmation_status
        (operator_verification_level (λ m. some (by_email m))).0
        (operator_verification_level (λ m. some (by_email m))).0
        true)
      (codes "confirmed")
    ≡ true
unfolding equal
determine_confirmation_status-confirmed_example =
    determine_confirmation_status-confirmed by_email by_email true
