-- ===== src/Sync/Status/Insert/Backfill.antt =====
-- BackfillSyncStatusForService of api/internal/services/sync/orchestrator.go: which rows it adds.
use radioledger.Base.{
  ℕ, ◌+◌, ◌≡◌, refl, sym, ap, ◌∙◌, Bool, true, false, not, ◌&&◌, ◌||◌, Bytes, List, [], ◌∷◌, ◌++◌,
  some, any, all, length, length-append, append-nil, append_assoc, if◌then◌else◌, if-ind,
  Bool-cases, inl, inr, arith, equal_refl,
}
use radioledger.Sync.Status.{SyncRow, SyncState, Contact}
use radioledger.Sync.Status.Insert.{
  Store, has_row, is_for, new_row, insert_sync, is_backfilled, is_confirmed_by, backfill_state,
  count_status, backfill, BackfillCounts, backfill_sync_status_for_service, no_counts,
}

has_row-append :
    (qso_id : ℕ) (service : Bytes) (rows new : List SyncRow)
    → has_row qso_id service rows ≡ true
    → has_row qso_id service (rows ++ new) ≡ true
unfolding has_row any
has_row-append qso_id service [] new h = ground arith
has_row-append qso_id service (r ∷ rows) new h =
    ground (arith, has_row-append qso_id service rows new)

has_row-last :
    (qso_id : ℕ) (service : Bytes) (rows : List SyncRow) (r : SyncRow)
    → is_for qso_id service r ≡ true
    → has_row qso_id service (rows ++ r ∷ []) ≡ true
unfolding has_row any
has_row-last qso_id service [] r h = ground arith
has_row-last qso_id service (s ∷ rows) r h = ground (arith, has_row-last qso_id service rows r)

-- A contact that the service takes has a row.
abbrev pub is_covered : ℕ → Bytes → List SyncRow → Contact → Bool
is_covered user service rows c = not (is_backfilled service user c) || has_row c.id service rows

module _ (now user : ℕ) (service : Bytes) where
  insert_sync-keeps :
      (qso_id : ℕ) (q : ℕ) (status : SyncState) (s : Store)
      → has_row q service s.rows ≡ true
      → has_row q service (insert_sync now qso_id service status s).rows ≡ true
  unfolding insert_sync
  insert_sync-keeps qso_id q status s h =
      if-ind (λ rows. has_row q service rows ≡ true) (has_row qso_id service s.rows) s.rows _ h
        (has_row-append q service s.rows _ h)

  insert_sync-adds :
      (qso_id : ℕ) (status : SyncState) (s : Store)
      → has_row qso_id service s.rows ≡ false
      → (insert_sync now qso_id service status s).rows
        ≡ s.rows ++ new_row s.next_id now qso_id service status ∷ []
  unfolding insert_sync
  insert_sync-adds qso_id status s h = rw (h, insert_sync) refl

  -- One round of the loop over the contacts.
  abbrev round : Contact → Store → BackfillCounts → Store × BackfillCounts
  round c s n =
      if is_backfilled service user c && not (has_row c.id service s.rows)
      then (
        insert_sync now c.id service (backfill_state (is_confirmed_by service c)) s,
        count_status (is_confirmed_by service c) n,
      )
      else (s, n)

  round-keeps :
      (c : Contact) (s : Store) (n : BackfillCounts) (q : ℕ)
      → has_row q service s.rows ≡ true
      → has_row q service (round c s n).0.rows ≡ true
  round-keeps c s n q h =
      if-ind (λ (x : Store × BackfillCounts). has_row q service x.0.rows ≡ true)
        (is_backfilled service user c && not (has_row c.id service s.rows)) _ (s, n)
        (insert_sync-keeps c.id q _ s h) h

  round-covers :
      (c : Contact) (s : Store) (n : BackfillCounts)
      → is_backfilled service user c ≡ true
      → has_row c.id service (round c s n).0.rows ≡ true
  round-covers c s n b = elim (Bool-cases (has_row c.id service s.rows)) [
    | inl there ↦ round-keeps c s n c.id there
    | inr new ↦
        rw (b, new)
          (rw (insert_sync-adds c.id _ s new)
            (has_row-last c.id service s.rows _ (ground (arith, equal_refl service))))
  ]

  backfill-keeps :
      (contacts : List Contact) (s : Store) (n : BackfillCounts) (q : ℕ)
      → has_row q service s.rows ≡ true
      → has_row q service (backfill now user service contacts (s, n)).0.rows ≡ true
  unfolding backfill
  backfill-keeps [] s n q h = h
  backfill-keeps (c ∷ contacts) s n q h =
      backfill-keeps contacts (round c s n).0 (round c s n).1 q (round-keeps c s n q h)

  backfill-covers :
      (contacts : List Contact) (s : Store) (n : BackfillCounts)
      → all (is_covered user service (backfill now user service contacts (s, n)).0.rows) contacts
        ≡ true
  unfolding backfill all
  backfill-covers [] s n = refl
  backfill-covers (c ∷ contacts) s n =
      let rest = backfill-covers contacts (round c s n).0 (round c s n).1 in
      elim (Bool-cases (is_backfilled service user c)) [
        | inl taken ↦
            rw
              (
                taken,
                backfill-keeps contacts (round c s n).0 (round c s n).1 c.id
                    (round-covers c s n taken),
              )
              rest
        | inr other ↦ rw other rest
      ]

  -- Where every contact has its row, nothing is added.
  backfill-covered :
      (contacts : List Contact) (s : Store) (n : BackfillCounts)
      → all (is_covered user service s.rows) contacts ≡ true
      → backfill now user service contacts (s, n) ≡ (s, n)
  unfolding backfill all
  backfill-covered [] s n h = refl
  backfill-covered (c ∷ contacts) s n h =
      let skipped : (is_backfilled service user c && not (has_row c.id service s.rows)) ≡ false =
        ground arith in
      rw skipped (backfill-covered contacts s n (ground arith))

  -- The rows that are added, behind the old ones, are as many as the counts say.
  abbrev IsAdded : Store → BackfillCounts → Store × BackfillCounts → Type 0
  IsAdded s n done =
      (new : List SyncRow) × (done.0.rows ≡ s.rows ++ new)
      × (done.1.confirmed_count + done.1.pending_count
          ≡ n.confirmed_count + n.pending_count + length new)

  count_status-one :
      (b : Bool) (n : BackfillCounts)
      → (count_status b n).confirmed_count + (count_status b n).pending_count
        ≡ n.confirmed_count + n.pending_count + 1
  count_status-one true n = omega arith
  count_status-one false n = omega arith

  round-IsAdded : (c : Contact) (s : Store) (n : BackfillCounts) → IsAdded s n (round c s n)
  round-IsAdded c s n =
      elim (Bool-cases (is_backfilled service user c && not (has_row c.id service s.rows))) [
        | inl added ↦
            let new : has_row c.id service s.rows ≡ false = ground arith in
            rw added (
              new_row s.next_id now c.id service (backfill_state (is_confirmed_by service c)) ∷ [],
              insert_sync-adds c.id _ s new,
              count_status-one (is_confirmed_by service c) n,
            )
        | inr other ↦ rw other ([], sym (append-nil s.rows), omega arith)
      ]

  backfill-IsAdded :
      (contacts : List Contact) (s : Store) (n : BackfillCounts)
      → IsAdded s n (backfill now user service contacts (s, n))
  unfolding backfill
  backfill-IsAdded [] s n = ([], sym (append-nil s.rows), omega arith)
  backfill-IsAdded (c ∷ contacts) s n =
      let (xs, rows, count) = round-IsAdded c s n in
      let (ys, rows', count') = backfill-IsAdded contacts (round c s n).0 (round c s n).1 in
      (
        xs ++ ys,
        rows' ∙ ap (λ zs. zs ++ ys) rows ∙ append_assoc s.rows xs ys,
        omega (arith, count, count', length-append {0} xs ys),
      )

-- A backfill that does not fail leaves the rows that were there and adds as many as its counts say
-- behind them; afterwards every contact of the user that the service takes has a row, and a second
-- backfill adds nothing and counts nothing.
pub backfill-IsComplete :
    (contacts : List Contact) (now later user : ℕ) (service : Bytes) (s : Store)
    → (after : Store) × (counts : BackfillCounts) × (backfill_sync_status_for_service false contacts
          now user service s
        ≡ (after, some counts))
      × ((new : List SyncRow) × (after.rows ≡ s.rows ++ new)
          × (counts.confirmed_count + counts.pending_count ≡ length new))
      × (all (is_covered user service after.rows) contacts ≡ true)
      × (backfill_sync_status_for_service false contacts later user service after
          ≡ (after, some no_counts))
unfolding backfill_sync_status_for_service
backfill-IsComplete contacts now later user service s =
    let done = backfill now user service contacts (s, no_counts) in
    let (new, rows, count) = backfill-IsAdded now user service contacts s no_counts in
    let covered = backfill-covers now user service contacts s no_counts in
    (
      done.0,
      done.1,
      refl,
      (new, rows, omega (arith, count)),
      covered,
      rw (backfill-covered later user service contacts done.0 no_counts covered) refl,
    )
