-- ===== src/Uploads/Progress.antt =====
-- frontend/src/lib/api/files.ts and frontend/src/hooks/use-file-upload.ts: the bounds of the progress that is shown.
use native.Mathlib.Nat.{div-lt_iff_lt-mul, le-div_iff_mul-le}
use harmony_saas_multitenanc.Base.{
  ℕ, ◌+◌, ◌*◌, ◌≤◌, ◌<◌, ◌≡◌, refl, true, List, [], ◌∷◌, arith, length, all, leb, Bool-cases, inl,
  inr,
}
use harmony_saas_multitenanc.Uploads.{ProgressEvent, rounded, percent, reported}
use harmony_saas_multitenanc.Uploads.Batch.{FileUploadProgress, total_progress, progress_sum}

rounded-le : (a b : ℕ) → 0 < b → a ≤ 100 * b → rounded a b ≤ 100
unfolding rounded
rounded-le a b p h =
    let q =
      (div-lt_iff_lt-mul {k = 2 * b} {x = 2 * a + b} {y = 101} (omega arith)).1 (omega arith) in
    omega arith

rounded-ge : (a b : ℕ) → 0 < b → 100 * b ≤ a → 100 ≤ rounded a b
unfolding rounded
rounded-ge a b p h =
    (le-div_iff_mul-le {k = 2 * b} {x = 100} {y = 2 * a + b} (omega arith)).1 (omega arith)

-- What the standard says of an event: a computable length is positive, and no more than it is loaded.
abbrev pub IsSound : List ProgressEvent → Type 0
IsSound [] = Unit {0}
IsSound (e ∷ es) = (e.length_computable ≡ true → (0 < e.total) × (e.loaded ≤ e.total)) × IsSound es

-- Every progress that an upload reports is a percentage, where the events of the browser are sound.
pub reported_le : (es : List ProgressEvent) → IsSound es → all (λ n. leb n 100) (reported es) ≡ true
unfolding reported percent
reported_le [] h = refl
reported_le (e ∷ es) (h, k) = elim (Bool-cases e.length_computable) [
  | inl c ↦ rw c (
      ground (
        arith,
        rounded-le (100 * e.loaded) e.total (h c).0 (omega (arith, (h c).1)),
        reported_le es k,
      ))
  | inr c ↦ rw c (reported_le es k)
]

module _ {R : Type 0} where
  sum-le :
      (us : List (FileUploadProgress R))
      → all (λ (u : FileUploadProgress R). leb u.progress 100) us ≡ true
      → progress_sum us ≤ 100 * length us
  unfolding progress_sum
  sum-le [] h = omega arith
  sum-le (u ∷ us) h = ground (arith, sum-le us)

  sum-ge :
      (us : List (FileUploadProgress R))
      → all (λ (u : FileUploadProgress R). leb 100 u.progress) us ≡ true
      → 100 * length us ≤ progress_sum us
  unfolding progress_sum
  sum-ge [] h = omega arith
  sum-ge (u ∷ us) h = ground (arith, sum-ge us)

  -- Where the progress of each entry is a percentage, the total progress is one too; it is 100 where
  -- each entry is at 100 and there is one, and 0 where there is none.
  pub total_progress_bounds :
      (us : List (FileUploadProgress R))
      → all (λ (u : FileUploadProgress R). leb u.progress 100) us ≡ true
      → (total_progress us ≤ 100)
        × (0 < length us
            → all (λ (u : FileUploadProgress R). leb 100 u.progress) us ≡ true
            → total_progress us ≡ 100)
        × (length us ≡ 0 → total_progress us ≡ 0)
  unfolding total_progress
  total_progress_bounds us h = (
    ground (arith, rounded-le (progress_sum us) (length us), sum-le us h),
    λ p k. ground (
      arith,
      rounded-le (progress_sum us) (length us),
      rounded-ge (progress_sum us) (length us),
      sum-le us h,
      sum-ge us k,
    ),
    λ e. ground arith,
  )
