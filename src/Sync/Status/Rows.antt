-- ===== src/Sync/Status/Rows.antt =====
-- The table sync_status: what an UPDATE leaves alone.
use radioledger.Base.{ℕ, ◌≡◌, refl, ap, Bool, Bytes, List, [], ◌∷◌, if-ind}
use radioledger.Sync.Status.{SyncRow, update_where}

-- What identifies a row: its number, and the contact and the service.
abbrev pub Key : Type 0
Key = ℕ × ℕ × Bytes

abbrev pub key : SyncRow → Key
key r = (r.id, r.qso_id, r.service)

abbrev pub keys : List SyncRow → List Key
keys [] = []
keys (r ∷ rows) = key r ∷ keys rows

-- An UPDATE that sets none of the columns of the key leaves the keys as they were.
pub keys-update_where :
    (test : SyncRow → Bool) (change : SyncRow → SyncRow)
    → ((r : SyncRow) → key (change r) ≡ key r)
    → (rows : List SyncRow) → keys (update_where test change rows) ≡ keys rows
unfolding update_where
keys-update_where test change h [] = refl
keys-update_where test change h (r ∷ rows) =
    if-ind (λ x. key x ∷ keys (update_where test change rows) ≡ key r ∷ keys rows) (test r)
      (change r) r (λ i. h r i ∷ keys-update_where test change h rows i)
      (ap (◌∷◌ (key r)) (keys-update_where test change h rows))
