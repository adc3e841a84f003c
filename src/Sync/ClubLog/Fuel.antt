-- ===== src/Sync/ClubLog/Fuel.antt =====
-- ClubLogUploadWorker of api/internal/services/sync/orchestrator.go: the fuel of the loop over the
-- batches.
use radioledger.Base.{
  ℕ, zero, suc, ◌≤◌, ◌≡◌, refl, List, [], ◌∷◌, take, drop, length, length-drop-le, arith, none,
  some,
}
use radioledger.Sync.Status.{PendingQso}
use radioledger.Sync.Credentials.{Credentials}
use radioledger.Sync.ClubLog.{Tables, Stored, Worker, Returned}
use radioledger.Sync.ClubLog.Upload.{
  Run, Next, batch_size, continue_with, upload_batch, upload_batches,
}

continue_with-each :
    (k k' : Tables → Tables × Returned) (x : Next)
    → ((t : Tables) → k t ≡ k' t)
    → continue_with k x ≡ continue_with k' x
continue_with-each k k' (t, some returned) h = refl
continue_with-each k k' (t, none) h = h t

-- The loop over the batches ends before its fuel does: with as much fuel as there are contacts, any
-- fuel above it gives the same tables and the same result, whatever fails and whatever Club Log
-- answers.
pub upload_batches-enough :
    (w : Worker) (run : Run) (stored : Stored) (user : ℕ) (creds : Credentials) (fuel more n : ℕ)
    (pending : List PendingQso) (t : Tables)
    → length pending ≤ fuel
    → fuel ≤ more
    → upload_batches w run stored user creds more n pending t
      ≡ upload_batches w run stored user creds fuel n pending t
unfolding upload_batches
upload_batches-enough w run stored user creds fuel more n [] t l m = refl
upload_batches-enough w run stored user creds zero more n (p ∷ pending) t l m = absurd (omega arith)
upload_batches-enough w run stored user creds (suc fuel) zero n (p ∷ pending) t l m =
    absurd (omega arith)
upload_batches-enough w run stored user creds (suc fuel) (suc more) n (p ∷ pending) t l m =
    continue_with-each _ _
      (upload_batch w run (run.rounds n) stored user creds (take batch_size (p ∷ pending)) t)
      (λ t'.
        upload_batches-enough w run stored user creds fuel more (suc n)
          (drop batch_size (p ∷ pending)) t' (omega (arith, length-drop-le 99 pending))
          (omega arith))
