-- ===== src/Uploads/Flow.antt =====
-- frontend/src/lib/api/files.ts: how an upload of three calls ends.
use harmony_saas_multitenanc.Base.{
  ℕ, ◌≤◌, ◌<◌, String, Bool, true, false, ◌≡◌, ◌⊎◌, inl, inr, refl, Option, none, some, [], ◌&&◌,
  arith, leb, ltb, Bool-cases,
}
use harmony_saas_multitenanc.Uploads.{
  File, FileCategory, FileUploadRequest, PresignedUploadResponse, UploadError, failed_with_status,
  upload_failed, Reply, resolved, rejected, Ending, load, network_error, Transfer, transfer_result,
  reported, FileServer, Uploaded, upload_with, confirm_upload, confirm_after, upload_file,
}

-- What became of the file at the storage: it was accepted with a status of 2xx, or the upload fails
-- with the error that tells why.
abbrev pub Accepted : Ending → Type 0
Accepted (load status) = (200 ≤ status) × (status < 300)
Accepted network_error = true ≡ false

abbrev pub Refused : Ending → UploadError → Type 0
Refused (load status) e = ((status < 200) ⊎ (300 ≤ status)) × (e ≡ failed_with_status status)
Refused network_error e = e ≡ upload_failed

transfer_cases :
    (t : Ending)
    → ((transfer_result t ≡ none) × Accepted t)
      ⊎ ((e : UploadError) × (transfer_result t ≡ some e) × Refused t e)
unfolding transfer_result
transfer_cases (load status) = status_cases status
  where
    status_cases :
        (n : ℕ)
        → ((transfer_result (load n) ≡ none) × Accepted (load n))
          ⊎ ((e : UploadError) × (transfer_result (load n) ≡ some e) × Refused (load n) e)
    status_cases n = elim (Bool-cases (leb 200 n && ltb n 300)) [
      | inl h ↦ inl (rw h refl, (ground arith, ground arith))
      | inr h ↦ inr (failed_with_status n, rw h refl, (ground arith, refl))
    ]
transfer_cases network_error = inr (upload_failed, refl, refl)

abbrev pub request_for :
    File → FileCategory → Option String → Option String → Option Bool → FileUploadRequest
request_for file category resource_type resource_id is_public = record {
  filename = file.name;
  content_type = file.content_type;
  size_bytes = file.size;
  category = category;
  resource_type = resource_type;
  resource_id = resource_id;
  is_public = is_public;
}

module _ {S R : Type 0} where
  -- The three ways in which an upload ends, of the calls that were made in order.
  pub data Ends (put : String → File → S → Transfer × S) (file : File)
      (confirm : String → S → Reply R × S)
      : Reply PresignedUploadResponse × S → Uploaded S R → Type 0 where
    not_presigned :
        (e : UploadError) (s : S)
        → Ends put file confirm
            (rejected e, s)
            (record { reply = rejected e; progress = []; after = s })
    not_stored :
        (p : PresignedUploadResponse) (s : S) (e : UploadError)
        → Refused (put p.upload_url file s).0.ending e
        → Ends put file confirm
            (resolved p, s)
            (record {
              reply = rejected e;
              progress = reported (put p.upload_url file s).0.events;
              after = (put p.upload_url file s).1;
            })
    stored :
        (p : PresignedUploadResponse) (s : S)
        → Accepted (put p.upload_url file s).0.ending
        → Ends put file confirm
            (resolved p, s)
            (record {
              reply = (confirm p.storage_key (put p.upload_url file s).1).0;
              progress = reported (put p.upload_url file s).0.events;
              after = (confirm p.storage_key (put p.upload_url file s).1).1;
            })

  upload_with-Ends :
      (put : String → File → S → Transfer × S) (file : File) (confirm : String → S → Reply R × S)
      (presigned : Reply PresignedUploadResponse × S)
      → Ends put file confirm presigned (upload_with put file confirm presigned)
  unfolding upload_with confirm_upload confirm_after
  upload_with-Ends put file confirm (rejected e, s) = not_presigned e s
  upload_with-Ends put file confirm (resolved p, s) =
      elim (transfer_cases (put p.upload_url file s).0.ending) [
        | inl (h, a) ↦ rw h (stored p s a)
        | inr (e, h, a) ↦ rw h (not_stored p s e a)
      ]

  -- An upload ends in one of three ways: the call for the address is refused, and no other is made; the
  -- storage refuses the file, by a status outside 2xx or by a network error, and the upload fails with
  -- that error, without the call that confirms; or the storage accepts it, and the upload ends as that
  -- call does, which names the key of the address.
  pub upload_file-Ends :
      (server : FileServer S R) (file : File) (category : FileCategory) (kind id : Option String)
      (is_public : Option Bool) (s : S)
      → Ends server.put file
          (λ key. server.confirm key (request_for file category kind id is_public))
          (server.presign (request_for file category kind id is_public) s)
          (upload_file server file category kind id is_public s)
  unfolding upload_file
  upload_file-Ends server file category kind id is_public s = upload_with-Ends server.put file _ _
