-- ===== src/Upgrade/Proof.antt =====
-- frontend/src/app/(dashboard)/upgrade/page.tsx: the upload of the proof of payment. The parameters are the servers of
-- an upload, the call that attaches a file to a request, and the id of a file record.
use harmony_saas_multitenanc.Base.{
  ℕ, ◌*◌, ◌≤◌, ◌<◌, ◌≡◌, inl, inr, refl, String, Bool, true, false, not, Option, none, some,
  if◌then◌else◌, starts_with, ltb, arith, Bool-cases,
}
use harmony_saas_multitenanc.Payment.{UpgradeRequest}
use harmony_saas_multitenanc.Uploads.{
  File, FileCategory, UploadError, Reply, resolved, rejected, FileServer, Uploaded, upload_file,
}

-- The message that the user gets, if any.
pub data Notice : Type 0 where
  nothing not_an_image too_large uploaded : Notice
  failed : UploadError → Notice

-- The state of the page that the handler changes, and the server's.
pub record ProofPage (S : Type 0) : Type 0 where
  pub is_uploading : Bool
  pub upload_progress : ℕ
  pub notice : Notice
  pub server_state : S

module _ {S R : Type 0} (server : FileServer S R) (id_of : R → String)
    (upload_proof : String → String → S → Reply (Unit {0}) × S) where
  abbrev attach_notice : Reply (Unit {0}) → Notice
  attach_notice (resolved u) = uploaded
  attach_notice (rejected e) = failed e

  -- What follows the upload of the file: its error, or the call that attaches it.
  unfoldable pub attach : UpgradeRequest → Reply R → S → Notice × S
  attach r (rejected e) s = (failed e, s)
  attach r (resolved record_of) s =
      let (reply, s') = upload_proof r.id (id_of record_of) s in (attach_notice reply, s')

  -- the `finally`
  unfoldable pub finish : Notice × S → ProofPage S
  finish (n, s) = record { is_uploading = false; upload_progress = 0; notice = n; server_state = s }

  -- The upload, with the options that the page gives.
  abbrev pub stored_at : File → UpgradeRequest → ProofPage S → Uploaded S R
  stored_at file r p =
      upload_file server file FileCategory.payment_proof (some "upgrade_request") (some r.id) none
        p.server_state

  unfoldable pub upload_image : UpgradeRequest → File → ProofPage S → ProofPage S
  upload_image r file p = let up = stored_at file r p in finish (attach r up.reply up.after)

  -- `sizeMB > 10` is exact for a whole number of bytes.
  unfoldable pub check_image : UpgradeRequest → File → ProofPage S → ProofPage S
  check_image r file p =
      if not (starts_with file.content_type "image/")
      then record p { notice = not_an_image }
      else (if ltb (10 * 1024 * 1024) file.size
          then record p { notice = too_large }
          else upload_image r file p)

  unfoldable pub handle_file_select :
      Option File → Option UpgradeRequest → ProofPage S → ProofPage S
  handle_file_select none r p = record p { notice = nothing }
  handle_file_select (some file) none p = record p { notice = nothing }
  handle_file_select (some file) (some r) p = check_image r file p

  -- How a choice of a file ends: nothing is sent, since there is no file, no request, no image or too
  -- much of it; or the upload is refused; or the file is stored, and the request gets its id.
  pub data Selected (p : ProofPage S)
      : Option File → Option UpgradeRequest → ProofPage S → Type 0 where
    no_file : (r : Option UpgradeRequest) → Selected p none r (record p { notice = nothing })
    no_request : (f : File) → Selected p (some f) none (record p { notice = nothing })
    wrong_type :
        (f : File) (r : UpgradeRequest)
        → starts_with f.content_type "image/" ≡ false
        → Selected p (some f) (some r) (record p { notice = not_an_image })
    too_big :
        (f : File) (r : UpgradeRequest)
        → starts_with f.content_type "image/" ≡ true
        → 10485760 < f.size
        → Selected p (some f) (some r) (record p { notice = too_large })
    not_stored :
        (f : File) (r : UpgradeRequest) (e : UploadError)
        → starts_with f.content_type "image/" ≡ true
        → f.size ≤ 10485760
        → (stored_at f r p).reply ≡ rejected e
        → Selected p (some f) (some r) (record {
          is_uploading = false;
          upload_progress = 0;
          notice = failed e;
          server_state = (stored_at f r p).after;
        })
    attached :
        (f : File) (r : UpgradeRequest) (x : R)
        → starts_with f.content_type "image/" ≡ true
        → f.size ≤ 10485760
        → (stored_at f r p).reply ≡ resolved x
        → Selected p (some f) (some r) (record {
          is_uploading = false;
          upload_progress = 0;
          notice = attach_notice (upload_proof r.id (id_of x) (stored_at f r p).after).0;
          server_state = (upload_proof r.id (id_of x) (stored_at f r p).after).1;
        })

  upload_image-Selected :
      (p : ProofPage S) (f : File) (r : UpgradeRequest)
      → starts_with f.content_type "image/" ≡ true
      → f.size ≤ 10485760
      → Selected p (some f) (some r) (upload_image r f p)
  unfolding upload_image attach finish
  upload_image-Selected p f r t l = go (stored_at f r p).reply refl
    where
      go :
          (reply : Reply R)
          → (stored_at f r p).reply ≡ reply
          → Selected p (some f) (some r) (finish (attach r reply (stored_at f r p).after))
      go (rejected e) h = not_stored f r e t l h
      go (resolved x) h = attached f r x t l h

  -- A choice of a file sends nothing unless there is an active request and the file is an image of 10 MB
  -- at most. Else the file is uploaded as the proof of that request; only if that succeeds is the request
  -- told, with the id of the stored file. Each failure is the notice, and in the end no upload is shown.
  pub handle_file_select-Selected :
      (f : Option File) (r : Option UpgradeRequest) (p : ProofPage S)
      → Selected p f r (handle_file_select f r p)
  unfolding handle_file_select check_image
  handle_file_select-Selected none r p = no_file r
  handle_file_select-Selected (some f) none p = no_request f
  handle_file_select-Selected (some f) (some r) p =
      elim (Bool-cases (starts_with f.content_type "image/")) [
        | inr t ↦ rw t (wrong_type f r t)
        | inl t ↦ elim (Bool-cases (ltb (10 * 1024 * 1024) f.size)) [
          | inl b ↦ rw (t, b) (too_big f r t (ground arith))
          | inr b ↦ rw (t, b) (upload_image-Selected p f r t (ground arith))
        ]
      ]
