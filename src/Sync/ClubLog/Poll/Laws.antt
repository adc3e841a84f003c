-- ===== src/Sync/ClubLog/Poll/Laws.antt =====
-- ClubLogPollWorker of api/internal/services/sync/orchestrator.go: what a poll does to the rows of
-- award_progress.
use radioledger.Base.{
  ℕ, ◌≡◌, refl, Bool, true, false, ◌&&◌, Bytes, List, [], ◌∷◌, ◌++◌, Option, none, any, all,
  if◌then◌else◌, if-ind, Bool-cases, inl, inr, arith, equal_refl,
}
use radioledger.Base.Text.{codes}
use radioledger.Base.Decimal.{decimal}
use radioledger.Sync.AwardProgress.{
  AwardRow, is_dxcc_row, update_awards, confirm_award, confirmed_award, worked_award,
  upsert_dxcc_award_progress,
}
use radioledger.Sync.ClubLog.{Stored}
use radioledger.Sync.ClubLog.Poll.{
  EntityStatus, EntityFaults, PollTables, record_entity, record_entities,
}

-- A row, and a confirmed row, of the user for an entity in all bands and modes.
unfoldable pub has_award : ℕ → Bytes → List AwardRow → Bool
unfolding any is_dxcc_row
has_award user key rows = any (is_dxcc_row user key) rows

unfoldable pub has_confirmed : ℕ → Bytes → List AwardRow → Bool
unfolding any is_dxcc_row
has_confirmed user key rows = any (λ r. is_dxcc_row user key r && r.confirmed) rows

any-update_awards :
    (q test : AwardRow → Bool) (change : AwardRow → AwardRow)
    → ((r : AwardRow) → q r ≡ true → q (change r) ≡ true)
    → (rows : List AwardRow) → any q rows ≡ true
    → any q (update_awards test change rows) ≡ true
unfolding any update_awards
any-update_awards q test change h [] e = e
any-update_awards q test change h (r ∷ rows) e =
    ground (arith, h r, any-update_awards q test change h rows)

any-append {ℓ} :
    {A : Type ℓ} (q : A → Bool) (xs ys : List A) → any q xs ≡ true → any q (xs ++ ys) ≡ true
unfolding any
any-append q [] ys h = ground arith
any-append q (x ∷ xs) ys h = ground (arith, any-append q xs ys)

any-last {ℓ} :
    {A : Type ℓ} (q : A → Bool) (xs : List A) (y : A) → q y ≡ true → any q (xs ++ y ∷ []) ≡ true
unfolding any
any-last q [] y h = ground arith
any-last q (x ∷ xs) y h = ground (arith, any-last q xs y)

module _ (now user entity : ℕ) (method : Bytes) where
  -- What confirming leaves true of every row stays true of some row.
  upsert-keeps :
      (update_fails insert_fails confirmed : Bool) (q : AwardRow → Bool) (rows : List AwardRow)
      → ((r : AwardRow) → q r ≡ true → q (confirm_award now method r) ≡ true)
      → any q rows ≡ true
      → any q
          (upsert_dxcc_award_progress update_fails insert_fails now user entity confirmed method
            rows).0
        ≡ true
  upsert-keeps update_fails insert_fails confirmed q rows h e =
      let test = is_dxcc_row user (decimal entity) in
      let P : List AwardRow × Option (Unit {0}) → Type 0 = λ x. any q x.0 ≡ true in
      let updated =
        if-ind (λ (x : List AwardRow). any q x ≡ true) confirmed
          (update_awards test (confirm_award now method) rows) rows
          (any-update_awards q test (confirm_award now method) h rows e) e in
      unfold upsert_dxcc_award_progress in
      if-ind P update_fails (rows, none) _ e
        (if-ind P (any test rows) _ _ updated
          (if-ind P insert_fails _ _ updated (any-append q _ _ updated)))

  any-update_hit :
      (rows : List AwardRow)
      → any (is_dxcc_row user (decimal entity)) rows ≡ true
      → any
          (λ r. is_dxcc_row user (decimal entity) r && r.confirmed)
          (update_awards (is_dxcc_row user (decimal entity)) (confirm_award now method) rows)
        ≡ true
  unfolding any update_awards is_dxcc_row
  any-update_hit [] h = ground arith
  any-update_hit (r ∷ rows) h = ground (arith, any-update_hit rows)

  new-IsAward :
      is_dxcc_row user (decimal entity) (confirmed_award now user (decimal entity) method) ≡ true
  unfolding is_dxcc_row
  new-IsAward = ground (arith, equal_refl (codes "dxcc"), equal_refl (decimal entity))

  -- An upsert that does not fail leaves a confirmed row, or a row, for the entity.
  upsert-confirms :
      (rows : List AwardRow)
      → has_confirmed user
          (decimal entity)
          (upsert_dxcc_award_progress false false now user entity true method rows).0
        ≡ true
  unfolding upsert_dxcc_award_progress has_confirmed
  upsert-confirms rows = elim (Bool-cases (any (is_dxcc_row user (decimal entity)) rows)) [
    | inl there ↦ rw there (any-update_hit rows there)
    | inr new ↦ rw new (
        any-last (λ r. is_dxcc_row user (decimal entity) r && r.confirmed)
          (update_awards (is_dxcc_row user (decimal entity)) (confirm_award now method) rows)
          (confirmed_award now user (decimal entity) method) (rw new-IsAward refl))
  ]

  upsert-works :
      (rows : List AwardRow)
      → has_award user
          (decimal entity)
          (upsert_dxcc_award_progress false false now user entity false method rows).0
        ≡ true
  unfolding upsert_dxcc_award_progress has_award
  upsert-works rows = elim (Bool-cases (any (is_dxcc_row user (decimal entity)) rows)) [
    | inl there ↦ rw there there
    | inr new ↦ rw new (
        any-last (is_dxcc_row user (decimal entity)) rows (worked_award now user (decimal entity))
          new-IsAward)
  ]

module _ (faults : ℕ → EntityFaults) (stored : Stored) (now user : ℕ) where
  pub record_entities-keeps :
      (q : AwardRow → Bool) (found : List (ℕ × EntityStatus)) (t : PollTables)
      → ((r : AwardRow) → q r ≡ true → q (confirm_award now (codes "clublog") r) ≡ true)
      → ((r : AwardRow) → q r ≡ true → q (confirm_award now [] r) ≡ true)
      → any q t.awards ≡ true
      → any q (record_entities faults stored now user found t).awards ≡ true
  unfolding record_entities record_entity
  record_entities-keeps q [] t h k e = e
  record_entities-keeps q ((entity, status) ∷ found) t h k e =
      let f = faults entity in
      record_entities-keeps q found (record_entity faults stored now user (entity, status) t) h k (
        if-ind (λ (x : PollTables). any q x.awards ≡ true) status.confirmed _ _
          (upsert-keeps now user entity (codes "clublog") f.update_fails f.insert_fails true q
            t.awards h e)
          (if-ind (λ (x : PollTables). any q x.awards ≡ true) status.worked _ _
            (upsert-keeps now user entity [] f.update_fails f.insert_fails false q t.awards k e) e))

pub keeps-confirmed :
    (now user : ℕ) (key method : Bytes) (r : AwardRow)
    → (is_dxcc_row user key r && r.confirmed) ≡ true
    → (is_dxcc_row user key (confirm_award now method r) && (confirm_award now method r).confirmed)
      ≡ true
unfolding is_dxcc_row
keeps-confirmed now user key method r h = ground arith

keeps-row :
    (now user : ℕ) (key method : Bytes) (r : AwardRow)
    → is_dxcc_row user key r ≡ true
    → is_dxcc_row user key (confirm_award now method r) ≡ true
unfolding is_dxcc_row
keeps-row now user key method r h = h

-- What Club Log says of an entity is in the table: a confirmed row for a confirmed entity, and a row
-- for one that is only worked.
abbrev pub is_recorded : ℕ → List AwardRow → ℕ × EntityStatus → Bool
is_recorded user awards (entity, status) =
    if status.confirmed
    then has_confirmed user (decimal entity) awards
    else if status.worked
    then has_award user (decimal entity) awards
    else true

abbrev pub no_entity_fault : ℕ → EntityFaults
no_entity_fault entity = record { mark_fails = false; update_fails = false; insert_fails = false }

module _ (stored : Stored) (now user : ℕ) where
  record_entity-is_recorded :
      (e : ℕ × EntityStatus) (t : PollTables)
      → is_recorded user (record_entity no_entity_fault stored now user e t).awards e ≡ true
  unfolding record_entity
  record_entity-is_recorded (entity, status) t = elim (Bool-cases status.confirmed) [
    | inl yes' ↦ simp yes' (upsert-confirms now user entity (codes "clublog") t.awards)
    | inr no' ↦ elim (Bool-cases status.worked) [
      | inl worked ↦ simp (no', worked) (upsert-works now user entity [] t.awards)
      | inr other ↦ simp (no', other)
    ]
  ]

  has_confirmed-keeps :
      (found : List (ℕ × EntityStatus)) (other : ℕ) (key : Bytes) (t : PollTables)
      → has_confirmed other key t.awards ≡ true
      → has_confirmed other key (record_entities no_entity_fault stored now user found t).awards
        ≡ true
  unfolding has_confirmed
  has_confirmed-keeps found other key t h =
      record_entities-keeps no_entity_fault stored now user
        (λ r. is_dxcc_row other key r && r.confirmed) found t
        (keeps-confirmed now other key (codes "clublog")) (keeps-confirmed now other key []) h

  has_award-keeps :
      (found : List (ℕ × EntityStatus)) (other : ℕ) (key : Bytes) (t : PollTables)
      → has_award other key t.awards ≡ true
      → has_award other key (record_entities no_entity_fault stored now user found t).awards ≡ true
  unfolding has_award
  has_award-keeps found other key t h =
      record_entities-keeps no_entity_fault stored now user (is_dxcc_row other key) found t
        (keeps-row now other key (codes "clublog")) (keeps-row now other key []) h

  recorded-keeps :
      (found : List (ℕ × EntityStatus)) (e : ℕ × EntityStatus) (t : PollTables)
      → is_recorded user t.awards e ≡ true
      → is_recorded user (record_entities no_entity_fault stored now user found t).awards e ≡ true
  recorded-keeps found (entity, status) t h =
      let key = decimal entity in
      ground (arith, has_confirmed-keeps found user key t, has_award-keeps found user key t)

  -- After the loop over the entities, none of whose statements fails, every entity that Club Log
  -- counts as confirmed has a confirmed row for the user, and every one that it counts as worked a
  -- row, in whatever order the map is read.
  pub record_entities-is_recorded :
      (found : List (ℕ × EntityStatus)) (t : PollTables)
      → let after = (record_entities no_entity_fault stored now user found t).awards in
        all (is_recorded user after) found ≡ true
  unfolding record_entities all
  record_entities-is_recorded [] t = refl
  record_entities-is_recorded (e ∷ found) t =
      let next = record_entity no_entity_fault stored now user e t in
      let head = recorded-keeps found e next (record_entity-is_recorded e t) in
      rw head (record_entities-is_recorded found next)
