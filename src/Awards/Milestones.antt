-- ===== src/Awards/Milestones.antt =====
-- api/internal/services/awards/milestones.go: the counts of the milestones of each award, and its
-- goal. The labels of the milestones are left out.
use radioledger.Base.{◌<◌, arith, ℕ, Bool, Bytes, List, [], ◌∷◌, member}
use radioledger.Base.Text.{codes}

pub data AwardType : Type 0 where
  award_dxcc : AwardType
  award_was : AwardType
  award_vucc : AwardType
  award_waz : AwardType
  award_wpx : AwardType
  award_pota_hunter : AwardType
  award_pota_activator : AwardType
  award_sota_chaser : AwardType
  award_sota_activator : AwardType
  other_award : Bytes → AwardType

-- The strings of the constants, in the order of `ValidAwardTypes`.
unfoldable pub valid_award_types : List Bytes
valid_award_types =
    codes "dxcc"
    ∷ codes "was"
    ∷ codes "vucc"
    ∷ codes "waz"
    ∷ codes "wpx"
    ∷ codes "pota_hunter"
    ∷ codes "pota_activator"
    ∷ codes "sota_chaser"
    ∷ codes "sota_activator"
    ∷ []

unfoldable pub is_valid_award_type : Bytes → Bool
unfolding member valid_award_types
is_valid_award_type s = member s valid_award_types

unfoldable pub milestones_for : AwardType → List ℕ
milestones_for award_dxcc = 100 ∷ 200 ∷ 300 ∷ 330 ∷ []
milestones_for award_was = 10 ∷ 25 ∷ 50 ∷ []
milestones_for award_vucc = 100 ∷ 500 ∷ 1000 ∷ []
milestones_for award_waz = 10 ∷ 20 ∷ 40 ∷ []
milestones_for award_wpx = 100 ∷ 300 ∷ 600 ∷ 1000 ∷ []
milestones_for award_pota_hunter = 10 ∷ 100 ∷ 500 ∷ 1000 ∷ []
milestones_for award_pota_activator = 1 ∷ 10 ∷ 50 ∷ 100 ∷ []
milestones_for award_sota_chaser = 1 ∷ 100 ∷ 500 ∷ 1000 ∷ []
milestones_for award_sota_activator = 1 ∷ 100 ∷ 250 ∷ 500 ∷ []
milestones_for (other_award s) = []

unfoldable pub total_target : AwardType → ℕ
total_target award_dxcc = 340
total_target award_was = 50
total_target award_vucc = 100
total_target award_waz = 40
total_target award_wpx = 0
total_target award_pota_hunter = 0
total_target award_pota_activator = 0
total_target award_sota_chaser = 0
total_target award_sota_activator = 0
total_target (other_award s) = 0

-- The counts rise, the first of them above `n`.
abbrev pub RisesFrom : ℕ → List ℕ → Type 0
RisesFrom n [] = Unit
RisesFrom n (m ∷ ms) = (n < m) × RisesFrom m ms

-- The milestones of an award rise, beginning at 1 or later.
pub milestones_for-RisesFrom : (award : AwardType) → RisesFrom 0 (milestones_for award)
unfolding milestones_for
milestones_for-RisesFrom award_dxcc = ground arith
milestones_for-RisesFrom award_was = ground arith
milestones_for-RisesFrom award_vucc = ground arith
milestones_for-RisesFrom award_waz = ground arith
milestones_for-RisesFrom award_wpx = ground arith
milestones_for-RisesFrom award_pota_hunter = ground arith
milestones_for-RisesFrom award_pota_activator = ground arith
milestones_for-RisesFrom award_sota_chaser = ground arith
milestones_for-RisesFrom award_sota_activator = ground arith
milestones_for-RisesFrom (other_award s) = tt
