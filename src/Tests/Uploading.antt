-- ===== src/Tests/Uploading.antt =====
-- Uploads to a concrete server.
use harmony_saas_multitenanc.Base.{
  ℕ, some, suc, ◌+◌, ◌≡◌, String, true, false, refl, none, List, [], ◌∷◌, ◌==◌, if◌then◌else◌,
  length,
}
use harmony_saas_multitenanc.Uploads.{
  File, FileCategory, resolved, rejected, FileServer, load, ProgressEvent, upload_file,
  PresignedUploadResponse, reported, api_error, upload_with, confirm_upload, confirm_after,
  transfer_result, Reply,
}
use harmony_saas_multitenanc.Uploads.Flow.{Ends, request_for, upload_file-Ends}
use harmony_saas_multitenanc.Uploads.Finished.{Finished, replies_of}
use harmony_saas_multitenanc.Uploads.Accounting.{upload_files-Finished}
use harmony_saas_multitenanc.Uploads.Batch.{
  UploadStatus, FileUploadProgress, UseFileUploadOptions, Batch, upload_files, files_to_upload,
  success_count, error_count, upload_each, upload_one, settle_upload, report_each, update_upload,
  to_error,
}
use harmony_saas_multitenanc.Upgrade.Proof.{
  ProofPage, nothing, Selected, handle_file_select, handle_file_select-Selected,
}
use harmony_saas_multitenanc.Tests.Upgrades.{open_request}

abbrev logo : File
logo = record { name = "logo.png"; content_type = "image/png"; size = 10 }

abbrev notes : File
notes = record { name = "notes.txt"; content_type = "text/plain"; size = 20 }

abbrev address : PresignedUploadResponse
address = record {
  upload_url = "https://storage/k1";
  storage_key = "k1";
  expires_at = "2026-01-02";
  max_size_bytes = 100;
  fields = none;
}

abbrev two_events : List ProgressEvent
two_events =
    record { loaded = 5; total = 10; length_computable = true }
    ∷ record { loaded = 10; total = 10; length_computable = true }
    ∷ []

-- It refuses notes, stores all else, and counts the calls; a file record is a key.
abbrev storage : FileServer ℕ String
storage = record {
  presign = λ request n. (
    if request.filename == "notes.txt" then rejected (api_error "type") else resolved address,
    suc n,
  );
  confirm = λ key request n. (resolved key, suc n);
  presign_logo = λ request n. (resolved address, suc n);
  set_logo = λ key request n. (resolved key, suc n);
  presign_avatar = λ user request n. (resolved address, suc n);
  set_avatar = λ user key request n. (resolved key, suc n);
  put = λ url file n. (record { events = two_events; ending = load 200 }, suc n);
}

abbrev options : UseFileUploadOptions
options = record {
  category = FileCategory.document;
  resource_type = none;
  resource_id = none;
  is_public = none;
  max_files = none;
}

abbrev no_batch : Batch ℕ String
no_batch = record {
  uploads = [];
  is_uploading = false;
  results = [];
  errors = [];
  server_state = 0;
}

upload_file-Ends_example :
    Ends storage.put logo
      (λ key. storage.confirm key (request_for logo FileCategory.document none none none))
      (storage.presign (request_for logo FileCategory.document none none none) 0)
      (upload_file storage logo FileCategory.document none none none 0)
upload_file-Ends_example = upload_file-Ends storage logo FileCategory.document none none none 0

upload_files-Finished_example :
    let c = upload_files options storage (logo ∷ notes ∷ []) no_batch in
    let taken = files_to_upload none (logo ∷ notes ∷ []) in
    (c.is_uploading ≡ false)
    × (c.server_state ≡ (replies_of options storage taken 0).1)
    × Finished taken (replies_of options storage taken 0).0 c.uploads c.results c.errors
    × (success_count c.uploads ≡ length c.results)
    × (error_count c.uploads ≡ length c.errors)
    × (length c.results + length c.errors ≡ length taken)
upload_files-Finished_example = upload_files-Finished options storage (logo ∷ notes ∷ []) no_batch

abbrev half : FileUploadProgress String
half = record {
  file = logo;
  progress = 50;
  status = UploadStatus.uploading;
  error_of = none;
  result = none;
}

-- The call that attaches a file to a request, which is always accepted.
abbrev attach_always : String → String → ℕ → Reply (Unit {0}) × ℕ
attach_always request file n = (resolved tt, suc n)

abbrev idle : ProofPage ℕ
idle = record { is_uploading = false; upload_progress = 0; notice = nothing; server_state = 0 }

handle_file_select-Selected_example :
    Selected storage
      (λ r. r)
      attach_always
      idle
      (some logo)
      (some open_request)
      (handle_file_select storage (λ r. r) attach_always (some logo) (some open_request) idle)
handle_file_select-Selected_example =
    handle_file_select-Selected storage (λ r. r) attach_always (some logo) (some open_request) idle

two_uploads :
    let c = upload_files options storage (logo ∷ notes ∷ []) no_batch in
    (c.results ≡ "k1" ∷ []) × (c.errors ≡ api_error "type" ∷ []) × (c.server_state ≡ 4)
unfolding upload_files upload_each upload_one upload_file upload_with confirm_upload confirm_after
    transfer_result settle_upload report_each update_upload to_error files_to_upload reported
two_uploads = (refl, refl, refl)
