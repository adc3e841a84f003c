-- ===== src/Adif/Mode/Rewrite.antt =====
-- `CanonicalizeRecordMode` of pkg/adif/mode.go on whole records.
use radioledger.Base.{◌≡◌, refl, ap, ◌∙◌, true, false, some, Bytes, equal, arith, if◌then◌else◌}
use radioledger.Base.Text.{codes, to_upper}
use radioledger.Adif.Record.{Record, get, has, set}
use radioledger.Adif.Record.Laws.{get-set, has-set, delete_lem, set_same, delete_absent}
use radioledger.Adif.Mode.{
  ModeValue, is_empty, normalize_mode_pair, apply_pair, canonicalize_record_mode,
}
use radioledger.Adif.Mode.Canonical.{normalize_mode_pair-stable}

abbrev mode_key : Bytes
mode_key = codes "MODE"

abbrev submode_key : Bytes
submode_key = codes "SUBMODE"

keys_differ :
    (equal (to_upper mode_key) (to_upper submode_key) ≡ false)
    × (equal (to_upper submode_key) (to_upper mode_key) ≡ false)
    × (equal (to_upper mode_key) (to_upper mode_key) ≡ true)
    × (equal (to_upper submode_key) (to_upper submode_key) ≡ true)
unfolding equal to_upper
keys_differ = (refl, refl, refl, refl)

module _ (r : Record) (v : ModeValue) where
  get-apply_pair :
      (n : Bytes)
      → get (apply_pair r (some v)).0 n ≡ (
          if equal (to_upper submode_key) (to_upper n)
          then v.submode
          else if equal (to_upper mode_key) (to_upper n)
          then v.mode
          else get r n)
  unfolding apply_pair
  get-apply_pair n =
      let moded = set r mode_key v.mode in
      ground (
        arith,
        delete_lem moded submode_key n,
        get-set moded submode_key v.submode n,
        get-set r mode_key v.mode n,
      )

  pub has-apply_pair :
      (has (apply_pair r (some v)).0 mode_key ≡ true)
      × (has (apply_pair r (some v)).0 submode_key ≡ (if is_empty v.submode then false else true))
  unfolding apply_pair
  has-apply_pair =
      let moded = set r mode_key v.mode in
      ground (
        arith,
        keys_differ,
        delete_lem moded submode_key mode_key,
        delete_lem moded submode_key submode_key,
        has-set moded submode_key v.submode mode_key,
        has-set moded submode_key v.submode submode_key,
        has-set r mode_key v.mode mode_key,
      )

canonicalize-apply_pair :
    (r : Record) {v : ModeValue}
    → normalize_mode_pair (get r mode_key) (get r submode_key) ≡ some v
    → canonicalize_record_mode r ≡ apply_pair r (some v)
unfolding canonicalize_record_mode
canonicalize-apply_pair r e = ap (apply_pair r) e

apply_pair_again :
    (q : Record) (v : ModeValue)
    → get q mode_key ≡ v.mode
    → get q submode_key ≡ v.submode
    → has q mode_key ≡ true
    → has q submode_key ≡ (if is_empty v.submode then false else true)
    → apply_pair q (some v) ≡ (q, true)
unfolding apply_pair
apply_pair_again q v m s hm hs =
    let moded : set q mode_key v.mode ≡ q = rw (← m) (set_same q mode_key hm) in
    rw moded (ground (arith, set_same q submode_key, delete_absent q submode_key))

canonicalize_again :
    (r : Record) (v : ModeValue)
    → normalize_mode_pair v.mode v.submode ≡ some v
    → canonicalize_record_mode (apply_pair r (some v)).0 ≡ ((apply_pair r (some v)).0, true)
unfolding canonicalize_record_mode
canonicalize_again r v fixed =
    let q = (apply_pair r (some v)).0 in
    let m : get q mode_key ≡ v.mode =
      get-apply_pair r v mode_key ∙ rw (keys_differ.1, keys_differ.2) in
    let s : get q submode_key ≡ v.submode = get-apply_pair r v submode_key ∙ rw keys_differ.3 in
    let pair : normalize_mode_pair (get q mode_key) (get q submode_key) ≡ some v =
      rw (m, s) fixed in
    ap (apply_pair q) pair ∙ apply_pair_again q v m s (has-apply_pair r v).0 (has-apply_pair r v).1

-- When `NormalizeModePair` knows the pair, then afterwards SUBMODE and MODE read as the canonical
-- pair, every other name reads as before, and a second call changes nothing.
pub canonicalize_record_mode_known :
    (r : Record) (n : Bytes) {v : ModeValue}
    → normalize_mode_pair (get r mode_key) (get r submode_key) ≡ some v
    → let r' = (canonicalize_record_mode r).0 in
      (get r' n ≡ (
        if equal (to_upper submode_key) (to_upper n)
        then v.submode
        else if equal (to_upper mode_key) (to_upper n)
        then v.mode
        else get r n))
      × (canonicalize_record_mode r' ≡ (r', true))
canonicalize_record_mode_known r n {v} e = rw (canonicalize-apply_pair r e) (
  get-apply_pair r v n,
  canonicalize_again r v (normalize_mode_pair-stable (get r mode_key) (get r submode_key) e).1,
)
