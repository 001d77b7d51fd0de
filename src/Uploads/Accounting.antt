-- ===== src/Uploads/Accounting.antt =====
-- frontend/src/hooks/use-file-upload.ts: what the list of entries says after `uploadFiles`, against the results and
-- the errors that it returns.
use mathlib.Core.List.{append-nil, append_assoc}
use harmony_saas_multitenanc.Base.{
  ℕ, suc, ◌+◌, ◌≡◌, refl, ap, sym, ◌∙◌, true, false, List, [], ◌∷◌, ◌++◌, map, arith, length,
  length-append,
}
use harmony_saas_multitenanc.Uploads.Finished.{
  upload_of, replies_of, Finished, none_left, Finished-success, Finished-error, Finished-total,
}
use harmony_saas_multitenanc.Uploads.Round.{
  result_of, error_list, at, entry_after, extended, upload_one-at, entry-Finished,
}
use harmony_saas_multitenanc.Uploads.{File, UploadError, FileServer}
use harmony_saas_multitenanc.Uploads.Batch.{
  FileUploadProgress, UseFileUploadOptions, Batch, files_to_upload, initial_upload, upload_one,
  upload_each, upload_files, success_count, error_count,
}

module _ {S R : Type 0} (options : UseFileUploadOptions) (server : FileServer S R) where
  upload_each-Finished :
      (files : List File) (i : ℕ) (us : List (FileUploadProgress R)) (b : Batch S R)
      → i ≡ length us
      → (vs : List (FileUploadProgress R)) × (rs : List R) × (es : List UploadError) × (upload_each
            options server i files
            (record b { uploads = us ++ map initial_upload files })
          ≡ extended b (us ++ vs) rs es (replies_of options server files b.server_state).1)
        × Finished files (replies_of options server files b.server_state).0 vs rs es
  unfolding upload_each replies_of
  upload_each-Finished [] i us b h =
      ([], [], [], rw (append-nil b.results, append-nil b.errors) refl, none_left)
  upload_each-Finished (file ∷ files) i us b h =
      let up = upload_of options server file b.server_state in
      let v = entry_after up file in
      let (vs, rs, es, k, f) =
        upload_each-Finished files (suc i) (us ++ v ∷ [])
          (extended b [] (result_of up.reply) (error_list up.reply) up.after)
          (omega (arith, length-append us (v ∷ []))) in
      (
        v ∷ vs,
        result_of up.reply ++ rs,
        error_list up.reply ++ es,
        ap
              (λ j. upload_each options server (suc i) files (
                upload_one options server j file
                  (at us (initial_upload file) (map initial_upload files) b)))
              h
            ∙ ap (upload_each options server (suc i) files)
                (upload_one-at options server file us (map initial_upload files) b)
            ∙ sym (
                ap
                  (λ xs.
                    upload_each options server (suc i) files
                      (extended b xs (result_of up.reply) (error_list up.reply) up.after))
                  (append_assoc us (v ∷ []) (map initial_upload files)))
            ∙ k
            ∙ rw
                (
                  append_assoc us (v ∷ []) vs,
                  append_assoc b.results (result_of up.reply) rs,
                  append_assoc b.errors (error_list up.reply) es,
                )
                refl,
        entry-Finished up.reply up.progress file f,
      )

  -- After `uploadFiles` no upload is under way, and the server has been asked for exactly the uploads of
  -- the files that were taken, one after the other. There is one entry for each of these files, in their
  -- order: complete and at 100 with the result that its upload ended with, or with the error. The results
  -- and the errors that are returned are those of the entries, in order; the counts of the entries are
  -- their numbers, which add up to the number of files.
  pub upload_files-Finished :
      (files : List File) (b : Batch S R)
      → let c = upload_files options server files b in
        let taken = files_to_upload options.max_files files in
        (c.is_uploading ≡ false)
        × (c.server_state ≡ (replies_of options server taken b.server_state).1)
        × Finished taken
            (replies_of options server taken b.server_state).0
            c.uploads
            c.results
            c.errors
        × (success_count c.uploads ≡ length c.results)
        × (error_count c.uploads ≡ length c.errors)
        × (length c.results + length c.errors ≡ length taken)
  unfolding upload_files
  upload_files-Finished files b =
      let taken = files_to_upload options.max_files files in
      let (vs, rs, es, k, f) =
        upload_each-Finished taken 0 []
          (record {
            uploads = [];
            is_uploading = true;
            results = [];
            errors = [];
            server_state = b.server_state;
          })
          refl in
      rw k (refl, refl, f, Finished-success f, Finished-error f, Finished-total f)
