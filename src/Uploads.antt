-- ===== src/Uploads.antt =====
-- frontend/src/lib/api/files.ts and frontend/src/types/file.ts: the upload of a file in three calls. The API server
-- and the storage stand in a record of functions on a state `S`; `R` is the type of the file records that
-- the API server answers.
pub mod Batch
pub mod Flow
pub mod Finished
pub mod Round
pub mod Accounting
pub mod Progress
use harmony_saas_multitenanc.Base.{
  ℕ, ◌+◌, ◌*◌, ◌/◌, String, Bool, true, false, Option, none, some, List, [], ◌∷◌, ◌&&◌,
  if◌then◌else◌, leb, ltb,
}

pub record File : Type 0 where
  pub name : String
  pub content_type : String
  pub size : ℕ

pub data FileCategory : Type 0 where
  tenant_logo user_avatar document attachment payment_proof : FileCategory

pub record FileUploadRequest : Type 0 where
  pub filename : String
  pub content_type : String
  pub size_bytes : ℕ
  pub category : FileCategory
  pub resource_type : Option String
  pub resource_id : Option String
  pub is_public : Option Bool

-- `TenantLogoUpload` and `UserAvatarUpload`
pub record ImageUpload : Type 0 where
  pub filename : String
  pub content_type : String
  pub size_bytes : ℕ

pub record PresignedUploadResponse : Type 0 where
  pub upload_url : String
  pub storage_key : String
  pub expires_at : String
  pub max_size_bytes : ℕ
  pub fields : Option (List (String × String))

-- `Upload failed with status ${status}`, `Upload failed`, an error of the API client, or a thrown value
-- that is no `Error`.
pub data UploadError : Type 0 where
  failed_with_status : ℕ → UploadError
  upload_failed : UploadError
  api_error : String → UploadError
  no_error : UploadError

pub data Reply (A : Type 0) : Type 0 where
  resolved : A → Reply A
  rejected : UploadError → Reply A

-- The events of the request that sends the file to the storage, and how it ends.
pub record ProgressEvent : Type 0 where
  pub loaded : ℕ
  pub total : ℕ
  pub length_computable : Bool

pub data Ending : Type 0 where
  load : ℕ → Ending
  network_error : Ending

pub record Transfer : Type 0 where
  pub events : List ProgressEvent
  pub ending : Ending

-- `Math.round(a / b)` for a positive b, with exact division
unfoldable pub rounded : ℕ → ℕ → ℕ
rounded a b = (2 * a + b) / (2 * b)

-- `Math.round((loaded / total) * 100)`; an event with a computable length has a positive total.
unfoldable pub percent : ProgressEvent → ℕ
percent e = rounded (100 * e.loaded) e.total

-- The calls of `onProgress`.
unfoldable pub reported : List ProgressEvent → List ℕ
reported [] = []
reported (e ∷ es) = let rest = reported es in if e.length_computable then percent e ∷ rest else rest

unfoldable pub transfer_result : Ending → Option UploadError
transfer_result (load status) =
    if leb 200 status && ltb status 300 then none else some (failed_with_status status)
transfer_result network_error = some upload_failed

pub record FileServer (S : Type 0) (R : Type 0) : Type 0 where
  pub presign : FileUploadRequest → S → Reply PresignedUploadResponse × S
  pub confirm : String → FileUploadRequest → S → Reply R × S
  pub presign_logo : ImageUpload → S → Reply PresignedUploadResponse × S
  pub set_logo : String → ImageUpload → S → Reply R × S
  pub presign_avatar : String → ImageUpload → S → Reply PresignedUploadResponse × S
  pub set_avatar : String → String → ImageUpload → S → Reply R × S
  pub put : String → File → S → Transfer × S

-- The result, the progress that was reported, and the server afterwards.
pub record Uploaded (S : Type 0) (R : Type 0) : Type 0 where
  pub reply : Reply R
  pub progress : List ℕ
  pub after : S

abbrev image_upload : File → ImageUpload
image_upload file = record {
  filename = file.name;
  content_type = file.content_type;
  size_bytes = file.size;
}

module _ {S R : Type 0} where
  -- What follows the transfer: its error, or the call that confirms.
  unfoldable pub confirm_after : Option UploadError → List ℕ → (S → Reply R × S) → S → Uploaded S R
  confirm_after (some e) progress confirm s = record {
    reply = rejected e;
    progress = progress;
    after = s;
  }
  confirm_after none progress confirm s = record {
    reply = (confirm s).0;
    progress = progress;
    after = (confirm s).1;
  }

  unfoldable pub confirm_upload : (S → Reply R × S) → Transfer × S → Uploaded S R
  confirm_upload confirm (t, s) =
      confirm_after (transfer_result t.ending) (reported t.events) confirm s

  -- The three steps, each only after the one before it is resolved.
  unfoldable pub upload_with :
      (String → File → S → Transfer × S)
      → File
      → (String → S → Reply R × S)
      → Reply PresignedUploadResponse × S
      → Uploaded S R
  upload_with put file confirm (rejected e, s) = record {
    reply = rejected e;
    progress = [];
    after = s;
  }
  upload_with put file confirm (resolved presigned, s) =
      confirm_upload (confirm presigned.storage_key) (put presigned.upload_url file s)

  -- `options` of `uploadFile`; the progress is always returned.
  unfoldable pub upload_file :
      FileServer S R
      → File
      → FileCategory
      → Option String
      → Option String
      → Option Bool
      → S
      → Uploaded S R
  upload_file server file category resource_type resource_id is_public s =
      let request : FileUploadRequest = record {
        filename = file.name;
        content_type = file.content_type;
        size_bytes = file.size;
        category = category;
        resource_type = resource_type;
        resource_id = resource_id;
        is_public = is_public;
      } in
      upload_with server.put file (λ storage_key. server.confirm storage_key request)
        (server.presign request s)

  unfoldable pub upload_tenant_logo : FileServer S R → File → S → Uploaded S R
  upload_tenant_logo server file s =
      upload_with server.put file (λ storage_key. server.set_logo storage_key (image_upload file))
        (server.presign_logo (image_upload file) s)

  unfoldable pub upload_user_avatar : FileServer S R → String → File → S → Uploaded S R
  upload_user_avatar server user_id file s =
      upload_with server.put file
        (λ storage_key. server.set_avatar user_id storage_key (image_upload file))
        (server.presign_avatar user_id (image_upload file) s)
