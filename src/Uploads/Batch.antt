-- ===== src/Uploads/Batch.antt =====
-- frontend/src/hooks/use-file-upload.ts: the hook that uploads a list of files one after the other. An entry keeps
-- the error in place of its message.
use harmony_saas_multitenanc.Base.{
  ℕ, zero, suc, ◌+◌, String, Bool, true, false, Option, none, some, List, [], ◌∷◌, ◌++◌, map,
  if◌then◌else◌, nat_eq, ltb, length, take,
}
use harmony_saas_multitenanc.Uploads.{
  File, FileCategory, UploadError, upload_failed, no_error, api_error, failed_with_status, Reply,
  resolved, rejected, FileServer, upload_file, rounded,
}

pub data UploadStatus : Type 0 where
  pending uploading confirming complete error : UploadStatus

pub record FileUploadProgress (R : Type 0) : Type 0 where
  pub file : File
  pub progress : ℕ
  pub status : UploadStatus
  pub error_of : Option UploadError
  pub result : Option R

pub record UseFileUploadOptions : Type 0 where
  pub category : FileCategory
  pub resource_type : Option String
  pub resource_id : Option String
  pub is_public : Option Bool
  pub max_files : Option ℕ

-- The state of the hook, and what `uploadFiles` has collected.
pub record Batch (S : Type 0) (R : Type 0) : Type 0 where
  pub uploads : List (FileUploadProgress R)
  pub is_uploading : Bool
  pub results : List R
  pub errors : List UploadError
  pub server_state : S

-- `prev.map((upload, i) => (i === index ? … : upload))`, from the position `i`
unfoldable pub map_at {ℓ} : {A : Type ℓ} → ℕ → ℕ → (A → A) → List A → List A
map_at i index f [] = []
map_at i index f (x ∷ xs) = (if nat_eq i index then f x else x) ∷ map_at (suc i) index f xs

unfoldable pub remove_at {ℓ} : {A : Type ℓ} → ℕ → ℕ → List A → List A
remove_at i index [] = []
remove_at i index (x ∷ xs) =
    let rest = remove_at (suc i) index xs in if nat_eq i index then rest else x ∷ rest

-- `error instanceof Error ? error : new Error('Upload failed')`
unfoldable pub to_error : UploadError → UploadError
to_error no_error = upload_failed
to_error upload_failed = upload_failed
to_error (api_error m) = api_error m
to_error (failed_with_status n) = failed_with_status n

-- `options.maxFiles ? files.slice(0, options.maxFiles) : files`
unfoldable pub files_to_upload : Option ℕ → List File → List File
files_to_upload none files = files
files_to_upload (some zero) files = files
files_to_upload (some (suc n)) files = take (suc n) files

module _ {R : Type 0} where
  unfoldable pub initial_upload : File → FileUploadProgress R
  initial_upload file = record {
    file = file;
    progress = 0;
    status = UploadStatus.pending;
    error_of = none;
    result = none;
  }

  abbrev pub set_status : UploadStatus → FileUploadProgress R → FileUploadProgress R
  set_status status u = record u { status = status }

  abbrev pub set_progress : ℕ → FileUploadProgress R → FileUploadProgress R
  set_progress progress u = record u { progress = progress }

  abbrev pub set_complete : R → FileUploadProgress R → FileUploadProgress R
  set_complete r u = record u { status = UploadStatus.complete; progress = 100; result = some r }

  abbrev pub set_error : UploadError → FileUploadProgress R → FileUploadProgress R
  set_error e u = record u { status = UploadStatus.error; error_of = some e }

module _ {S R : Type 0} where
  unfoldable pub update_upload :
      ℕ → (FileUploadProgress R → FileUploadProgress R) → Batch S R → Batch S R
  update_upload index updates b = record b { uploads = map_at 0 index updates b.uploads }

  -- The calls of `onProgress` during an upload.
  unfoldable pub report_each : ℕ → List ℕ → Batch S R → Batch S R
  report_each i [] b = b
  report_each i (n ∷ ns) b = report_each i ns (update_upload i (set_progress n) b)

  unfoldable pub settle_upload : ℕ → Reply R → Batch S R → Batch S R
  settle_upload i (resolved r) b = record (update_upload i (set_complete r) b) {
    results = b.results ++ r ∷ [];
  }
  settle_upload i (rejected e) b = record (update_upload i (set_error (to_error e)) b) {
    errors = b.errors ++ to_error e ∷ [];
  }

  -- A round of the loop.
  unfoldable pub upload_one :
      UseFileUploadOptions → FileServer S R → ℕ → File → Batch S R → Batch S R
  upload_one options server i file b =
      let up =
        upload_file server file options.category options.resource_type options.resource_id
          options.is_public b.server_state in
      settle_upload i up.reply (
        report_each i up.progress (record (update_upload i (set_status UploadStatus.uploading) b) {
          server_state = up.after;
        }))

  unfoldable pub upload_each :
      UseFileUploadOptions → FileServer S R → ℕ → List File → Batch S R → Batch S R
  upload_each options server i [] b = b
  upload_each options server i (file ∷ files) b =
      upload_each options server (suc i) files (upload_one options server i file b)

  unfoldable pub upload_files :
      UseFileUploadOptions → FileServer S R → List File → Batch S R → Batch S R
  upload_files options server files b =
      let taken = files_to_upload options.max_files files in
      record (upload_each options server 0 taken (record {
        uploads = map initial_upload taken;
        is_uploading = true;
        results = [];
        errors = [];
        server_state = b.server_state;
      })) { is_uploading = false }

  unfoldable pub clear_uploads : Batch S R → Batch S R
  clear_uploads b = record b { uploads = [] }

  unfoldable pub remove_upload : ℕ → Batch S R → Batch S R
  remove_upload index b = record b { uploads = remove_at 0 index b.uploads }

-- The arguments of `onSuccess` and of `onError`, where they are called.
unfoldable pub success_call {ℓ} : {A : Type ℓ} → List A → Option (List A)
success_call [] = none
success_call (r ∷ rs) = some (r ∷ rs)

unfoldable pub error_call : List UploadError → Option UploadError
error_call [] = none
error_call (e ∷ es) = some e

abbrev pub is_complete : UploadStatus → Bool
is_complete UploadStatus.complete = true
is_complete UploadStatus.pending = false
is_complete UploadStatus.uploading = false
is_complete UploadStatus.confirming = false
is_complete UploadStatus.error = false

abbrev pub is_error : UploadStatus → Bool
is_error UploadStatus.error = true
is_error UploadStatus.pending = false
is_error UploadStatus.uploading = false
is_error UploadStatus.confirming = false
is_error UploadStatus.complete = false

-- `list.filter(p).length`
abbrev pub count_of {ℓ} : {A : Type ℓ} → (A → Bool) → List A → ℕ
count_of p [] = 0
count_of p (x ∷ xs) = (if p x then 1 else 0) + count_of p xs

module _ {R : Type 0} where
  unfoldable pub success_count : List (FileUploadProgress R) → ℕ
  success_count us = count_of (λ u. is_complete u.status) us

  unfoldable pub error_count : List (FileUploadProgress R) → ℕ
  error_count us = count_of (λ u. is_error u.status) us

  unfoldable pub progress_sum : List (FileUploadProgress R) → ℕ
  progress_sum [] = 0
  progress_sum (u ∷ us) = u.progress + progress_sum us

  unfoldable pub total_progress : List (FileUploadProgress R) → ℕ
  total_progress us = if ltb 0 (length us) then rounded (progress_sum us) (length us) else 0
