-- ===== src/Awards/Examples.antt =====
-- Runs of the award helpers, and the theorems at such call signs.
use radioledger.Base.{◌≡◌, refl, true}
use radioledger.Base.Text.{codes, to_upper, trim_space}
use radioledger.Awards.Wpx.{wpx_prefix, is_portable_suffix}
use radioledger.Awards.Milestones.{is_valid_award_type}

portable_w1aw : wpx_prefix (codes "w1aw/p") ≡ codes "W1"
unfolding wpx_prefix to_upper trim_space is_portable_suffix
portable_w1aw = refl

visitor : wpx_prefix (codes "VK9X/W1AW") ≡ codes "VK9"
unfolding wpx_prefix to_upper trim_space is_portable_suffix
visitor = refl

was_is_valid : is_valid_award_type (codes "was") ≡ true
unfolding is_valid_award_type
was_is_valid = refl
