-- ===== src/Uploads/Finished.antt =====
-- frontend/src/hooks/use-file-upload.ts: what the entries of finished uploads say, and their counts.
use harmony_saas_multitenanc.Base.{ℕ, ◌+◌, ◌≡◌, refl, none, some, List, [], ◌∷◌, arith, length}
use harmony_saas_multitenanc.Uploads.{
  File, UploadError, Reply, resolved, rejected, FileServer, Uploaded, upload_file,
}
use harmony_saas_multitenanc.Uploads.Batch.{
  UploadStatus, FileUploadProgress, UseFileUploadOptions, to_error, success_count, error_count,
}

-- The entries of files whose uploads ended with the given replies, with the results of those that are
-- complete and the errors of the others, each in the order of the files.
pub data Finished {R : Type 0}
    : List File
      → List (Reply R)
      → List (FileUploadProgress R)
      → List R
      → List UploadError
      → Type 0 where
  none_left : Finished [] [] [] [] []
  completed :
      {fs : List File} {ws : List (Reply R)} {us : List (FileUploadProgress R)} {rs : List R}
      {es : List UploadError} (f : File) (r : R)
      → Finished fs ws us rs es
      → Finished
          (f ∷ fs)
          (resolved r ∷ ws)
          (record {
            file = f;
            progress = 100;
            status = UploadStatus.complete;
            error_of = none;
            result = some r;
          }
            ∷ us)
          (r ∷ rs)
          es
  failed :
      {fs : List File} {ws : List (Reply R)} {us : List (FileUploadProgress R)} {rs : List R}
      {es : List UploadError} (f : File) (n : ℕ) (e : UploadError)
      → Finished fs ws us rs es
      → Finished
          (f ∷ fs)
          (rejected e ∷ ws)
          (record {
            file = f;
            progress = n;
            status = UploadStatus.error;
            error_of = some (to_error e);
            result = none;
          }
            ∷ us)
          rs
          (to_error e ∷ es)

module _ {S R : Type 0} (options : UseFileUploadOptions) (server : FileServer S R) where
  -- The upload of one file with the options of the hook.
  abbrev pub upload_of : File → S → Uploaded S R
  upload_of file s =
      upload_file server file options.category options.resource_type options.resource_id
        options.is_public s

  -- What the uploads of the files end with, one after the other, and the server's state then.
  unfoldable pub replies_of : List File → S → List (Reply R) × S
  replies_of [] s = ([], s)
  replies_of (f ∷ fs) s =
      let (ws, t) = replies_of fs (upload_of f s).after in ((upload_of f s).reply ∷ ws, t)

module _ {R : Type 0} where
  pub Finished-success :
      {fs : List File} {ws : List (Reply R)} {us : List (FileUploadProgress R)} {rs : List R}
      {es : List UploadError}
      → Finished fs ws us rs es
      → success_count us ≡ length rs
  unfolding success_count
  Finished-success none_left = refl
  Finished-success (completed f r h) = omega (arith, Finished-success h)
  Finished-success (failed f n e h) = omega (arith, Finished-success h)

  pub Finished-error :
      {fs : List File} {ws : List (Reply R)} {us : List (FileUploadProgress R)} {rs : List R}
      {es : List UploadError}
      → Finished fs ws us rs es
      → error_count us ≡ length es
  unfolding error_count
  Finished-error none_left = refl
  Finished-error (completed f r h) = omega (arith, Finished-error h)
  Finished-error (failed f n e h) = omega (arith, Finished-error h)

  pub Finished-total :
      {fs : List File} {ws : List (Reply R)} {us : List (FileUploadProgress R)} {rs : List R}
      {es : List UploadError}
      → Finished fs ws us rs es
      → length rs + length es ≡ length fs
  Finished-total none_left = refl
  Finished-total (completed f r h) = omega (arith, Finished-total h)
  Finished-total (failed f n e h) = omega (arith, Finished-total h)
