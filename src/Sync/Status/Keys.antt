-- ===== src/Sync/Status/Keys.antt =====
-- The table sync_status: its keys. The statements of orchestrator.go and of the handler of contacts
-- as steps on the table.
use radioledger.Base.{
  ℕ, ◌+◌, ◌==◌, ◌≡◌, refl, ◌∙◌, ap, Bool, true, false, not, ◌&&◌, ◌||◌, Bytes, List, [], ◌∷◌, ◌++◌,
  equal, equal_iff, any, all, Bool-cases, inl, inr, if-ind, arith, ltb, Option, none,
}
use radioledger.Sync.Status.{SyncRow, SyncState, Contact, update_where, pending}
use radioledger.Sync.Status.Rows.{Key, key, keys, keys-update_where}
use radioledger.Sync.Status.Insert.{
  Store, has_row, new_row, insert_sync, insert_if, insert_pending_sync_for_qso, backfill,
  is_backfilled, BackfillCounts, takes_contact,
}

-- One number, or one contact and service.
abbrev pub clashes : Key → Key → Bool
clashes (id, qso_id, service) (id', qso_id', service') =
    id' == id || (qso_id' == qso_id && equal service' service)

unfoldable pub clash_free : List Key → Bool
unfolding any
clash_free [] = true
clash_free (k ∷ ks) = not (any (clashes k) ks) && clash_free ks

abbrev pub is_below : ℕ → Key → Bool
is_below next_id (id, qso_id, service) = ltb id next_id

-- No two rows share a number, nor a contact and a service, and the sequence is past every number.
pub record IsKeyed (s : Store) : Type 0 where
  pub is_clash_free : clash_free (keys s.rows) ≡ true
  pub are_drawn : all (is_below s.next_id) (keys s.rows) ≡ true

any-clashes_last :
    (k new : Key) (ks : List Key)
    → any (clashes k) ks ≡ false
    → clashes k new ≡ false
    → any (clashes k) (ks ++ new ∷ []) ≡ false
unfolding any
any-clashes_last k new [] h c = ground arith
any-clashes_last k new (l ∷ ks) h c = ground (arith, any-clashes_last k new ks)

-- A key that is new at the end.
clash_free-last :
    (id qso_id : ℕ) (service : Bytes) (ks : List Key)
    → clash_free ks ≡ true
    → all (is_below id) ks ≡ true
    → any (λ k. k.1 == qso_id && equal k.2 service) ks ≡ false
    → clash_free (ks ++ (id, qso_id, service) ∷ []) ≡ true
unfolding clash_free all any
clash_free-last id qso_id service [] h b n = refl
clash_free-last id qso_id service ((i, q, s) ∷ ks) h b n = ground (
  arith,
  equal_iff service s,
  equal_iff s service,
  any-clashes_last (i, q, s) (id, qso_id, service) ks,
  clash_free-last id qso_id service ks,
)

all-is_below_suc :
    (id : ℕ) (ks : List Key) → all (is_below id) ks ≡ true → all (is_below (id + 1)) ks ≡ true
unfolding all
all-is_below_suc id [] h = refl
all-is_below_suc id (k ∷ ks) h = ground (arith, all-is_below_suc id ks)

all-is_below_last :
    (id qso_id : ℕ) (service : Bytes) (ks : List Key)
    → all (is_below (id + 1)) ks ≡ true
    → all (is_below (id + 1)) (ks ++ (id, qso_id, service) ∷ []) ≡ true
unfolding all
all-is_below_last id qso_id service [] h = ground arith
all-is_below_last id qso_id service (k ∷ ks) h =
    ground (arith, all-is_below_last id qso_id service ks)

keys-append : (xs ys : List SyncRow) → keys (xs ++ ys) ≡ keys xs ++ keys ys
keys-append [] ys = refl
keys-append (x ∷ xs) ys = ap (◌∷◌ (key x)) (keys-append xs ys)

any-keys :
    (qso_id : ℕ) (service : Bytes) (rows : List SyncRow)
    → any (λ k. k.1 == qso_id && equal k.2 service) (keys rows) ≡ has_row qso_id service rows
unfolding any has_row
any-keys qso_id service [] = refl
any-keys qso_id service (r ∷ rows) =
    ap (λ t. (r.qso_id == qso_id && equal r.service service) || t) (any-keys qso_id service rows)

pub insert_sync-IsKeyed :
    (now qso_id : ℕ) (service : Bytes) (status : SyncState) {s : Store}
    → IsKeyed s
    → IsKeyed (insert_sync now qso_id service status s)
unfolding insert_sync
insert_sync-IsKeyed now qso_id service status {s} k =
    elim (Bool-cases (has_row qso_id service s.rows)) [
      | inl there ↦
          rw (there, insert_sync)
            (record {
              is_clash_free = k.is_clash_free;
              are_drawn = all-is_below_suc s.next_id (keys s.rows) k.are_drawn;
            })
      | inr new ↦
          rw (new, insert_sync)
            (record {
              is_clash_free =
                  rw (keys-append s.rows (new_row s.next_id now qso_id service status ∷ [])) (
                    clash_free-last s.next_id qso_id service (keys s.rows) k.is_clash_free
                      k.are_drawn (any-keys qso_id service s.rows ∙ new));
              are_drawn =
                  rw (keys-append s.rows (new_row s.next_id now qso_id service status ∷ [])) (
                    all-is_below_last s.next_id qso_id service (keys s.rows)
                      (all-is_below_suc s.next_id (keys s.rows) k.are_drawn));
            })
    ]

pub insert_pending-IsKeyed :
    (fails : Bytes → Bool) (contacts : List Contact) (now qso_id : ℕ) (services : List Bytes)
    {s : Store}
    → IsKeyed s
    → IsKeyed (insert_pending_sync_for_qso fails contacts now qso_id services s).0
unfolding insert_pending_sync_for_qso insert_if
insert_pending-IsKeyed fails contacts now qso_id [] k = k
insert_pending-IsKeyed fails contacts now qso_id (service ∷ services) {s} k =
    let takes = takes_contact contacts qso_id service in
    let next : Store = insert_if takes now qso_id service pending s in
    let inserted : IsKeyed next =
      if-ind IsKeyed takes (insert_sync now qso_id service pending s) s
        (insert_sync-IsKeyed now qso_id service pending k) k in
    if-ind (λ (x : Store × Option (Unit {0})). IsKeyed x.0) (fails service) (s, none)
      (insert_pending_sync_for_qso fails contacts now qso_id services next) k
      (insert_pending-IsKeyed fails contacts now qso_id services inserted)

pub backfill-IsKeyed :
    (now user : ℕ) (service : Bytes) (contacts : List Contact) (done : Store × BackfillCounts)
    → IsKeyed done.0
    → IsKeyed (backfill now user service contacts done).0
unfolding backfill
backfill-IsKeyed now user service [] done k = k
backfill-IsKeyed now user service (c ∷ contacts) (s, n) k =
    backfill-IsKeyed now user service contacts _ (
      if-ind (λ (x : Store × BackfillCounts). IsKeyed x.0)
        (is_backfilled service user c && not (has_row c.id service s.rows)) _ (s, n)
        (insert_sync-IsKeyed now c.id service _ k) k)

pub update-IsKeyed :
    (test : SyncRow → Bool) (change : SyncRow → SyncRow) {s : Store}
    → ((r : SyncRow) → key (change r) ≡ key r)
    → IsKeyed s
    → IsKeyed (record s { rows = update_where test change s.rows })
update-IsKeyed test change {s} h k =
    let same = keys-update_where test change h s.rows in
    record { is_clash_free = rw same k.is_clash_free; are_drawn = rw same k.are_drawn }
