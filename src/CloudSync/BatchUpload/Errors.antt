-- ===== src/CloudSync/BatchUpload/Errors.antt =====
-- What bin/ledger/cloud_sync/impl/batch_upload.cc does after an error.
use peridot.Base.{
  ℕ, zero, suc, ◌<◌, ◌≡◌, refl, ◌⊎◌, inl, inr, true, none, some, [], arith, Reaches-some,
}
use peridot.CloudSync.BatchUpload.{BatchUpload, retry, start_object_upload}
use peridot.CloudSync.BatchUpload.Invariant.{Inv}
use peridot.CloudSync.BatchUpload.Schedule.{Reach, again, Reach-Inv, Inv-retry}

retry_aborts : (s : BatchUpload) → 0 < s.current_uploads → retry s ≡ none
unfolding retry start_object_upload
retry_aborts s h = ground arith

-- Once an upload has ended before `AddObject` was answered (its object name or its content could not
-- be had), `Retry` fails a debug check; if none has, `Retry` begins a new attempt. `lost` is the
-- number of such uploads.
pub retry_exact :
    {lost n : ℕ} {s : BatchUpload}
    → Reach lost n s
    → s.pending ≡ []
    → s.errored ≡ true
    → ((lost ≡ 0) × (t : BatchUpload) × (retry s ≡ some t) × Reach lost (suc n) t)
      ⊎ ((0 < lost) × (retry s ≡ none))
retry_exact {lost} {n} {s} d q h = go lost d
  where
    go :
        (l : ℕ)
        → Reach l n s
        → ((l ≡ 0) × (t : BatchUpload) × (retry s ≡ some t) × Reach l (suc n) t)
          ⊎ ((0 < l) × (retry s ≡ none))
    go zero d' =
        let (t, e, _) = Reaches-some (Inv 0 (suc n)) (retry s) (Inv-retry n s q h (Reach-Inv d')) in
        inl (refl, t, e, again d' q e)
    go (suc l) d' = let v = Reach-Inv d' in inr (omega arith, retry_aborts s (omega arith))
