-- ===== src/Sync/AwardProgress.antt =====
-- api/internal/services/sync/orchestrator.go: upsertDXCCAwardProgress on the table award_progress.
-- `fails_update` and `fails_insert` say which of its two statements fails; each is a transaction of
-- its own.
use radioledger.Base.{
  ℕ, ◌==◌, Bool, true, false, ◌&&◌, Bytes, List, [], ◌∷◌, ◌++◌, Option, none, some, equal, any,
  if◌then◌else◌,
}
use radioledger.Base.Text.{codes}
use radioledger.Base.Decimal.{decimal}

pub record AwardRow : Type 0 where
  pub user_id : ℕ
  pub award_type : Bytes
  pub entity_key : Bytes
  pub band : Option Bytes
  pub mode : Option Bytes
  pub confirmed : Bool
  pub confirmation_method : Option Bytes
  pub confirmed_via : Option Bytes
  pub confirmed_at : Option ℕ
  pub dirty : Bool
  pub updated_at : ℕ

abbrev pub is_null : Option Bytes → Bool
is_null none = true
is_null (some s) = false

-- The WHERE of the UPDATEs.
unfoldable pub is_dxcc_row : ℕ → Bytes → AwardRow → Bool
is_dxcc_row user entity_key r =
    r.user_id == user
    && (equal r.award_type (codes "dxcc")
        && (equal r.entity_key entity_key && (is_null r.band && is_null r.mode)))

abbrev or_now : ℕ → Option ℕ → Option ℕ
or_now now none = some now
or_now now (some at) = some at

abbrev pub confirm_award : ℕ → Bytes → AwardRow → AwardRow
confirm_award now method r = record r {
  confirmed = true;
  confirmation_method = some method;
  confirmed_via = some (codes "clublog");
  confirmed_at = or_now now r.confirmed_at;
  dirty = false;
  updated_at = now;
}

unfoldable pub update_awards :
    (AwardRow → Bool) → (AwardRow → AwardRow) → List AwardRow → List AwardRow
update_awards test change [] = []
update_awards test change (r ∷ rows) =
    (if test r then change r else r) ∷ update_awards test change rows

abbrev pub confirmed_award : ℕ → ℕ → Bytes → Bytes → AwardRow
confirmed_award now user entity_key method = record {
  user_id = user;
  award_type = codes "dxcc";
  entity_key = entity_key;
  band = none;
  mode = none;
  confirmed = true;
  confirmation_method = some method;
  confirmed_via = some (codes "clublog");
  confirmed_at = some now;
  dirty = false;
  updated_at = now;
}

abbrev pub worked_award : ℕ → ℕ → Bytes → AwardRow
worked_award now user entity_key = record {
  user_id = user;
  award_type = codes "dxcc";
  entity_key = entity_key;
  band = none;
  mode = none;
  confirmed = false;
  confirmation_method = none;
  confirmed_via = none;
  confirmed_at = none;
  dirty = false;
  updated_at = now;
}

-- The INSERT comes where the UPDATE has found no row, so that there is no conflict. The UPDATE for
-- an entity that is only worked changes no column.
unfoldable pub upsert_dxcc_award_progress :
    Bool → Bool → ℕ → ℕ → ℕ → Bool → Bytes → List AwardRow → List AwardRow × Option (Unit {0})
unfolding is_dxcc_row update_awards any
upsert_dxcc_award_progress fails_update fails_insert now user entity confirmed method rows =
    let entity_key = decimal entity in
    let updated =
      if confirmed
      then update_awards (is_dxcc_row user entity_key) (confirm_award now method) rows
      else rows in
    let new =
      if confirmed
      then confirmed_award now user entity_key method
      else worked_award now user entity_key in
    if fails_update
    then (rows, none)
    else if any (is_dxcc_row user entity_key) rows
    then (updated, some tt)
    else if fails_insert
    then (updated, none)
    else (updated ++ new ∷ [], some tt)
