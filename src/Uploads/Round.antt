-- ===== src/Uploads/Round.antt =====
-- frontend/src/hooks/use-file-upload.ts: what one round of the loop of `uploadFiles` does to the list of entries.
use mathlib.Core.Path.{subst}
use mathlib.Core.List.{append-nil}
use harmony_saas_multitenanc.Base.{
  ℕ, suc, ◌+◌, ◌<◌, ◌≡◌, refl, ap, ◌∙◌, List, [], ◌∷◌, ◌++◌, arith, length,
}
use harmony_saas_multitenanc.Uploads.Finished.{upload_of, Finished, completed, failed}
use harmony_saas_multitenanc.Uploads.{
  File, UploadError, Reply, resolved, rejected, FileServer, Uploaded,
}
use harmony_saas_multitenanc.Uploads.Batch.{
  UploadStatus, FileUploadProgress, UseFileUploadOptions, Batch, map_at, to_error, initial_upload,
  update_upload, set_status, set_progress, set_complete, set_error, report_each, settle_upload,
  upload_one,
}

map_at-later :
    {A : Type 0} (i index : ℕ) (f : A → A) (xs : List A) → index < i → map_at i index f xs ≡ xs
unfolding map_at
map_at-later i index f [] h = refl
map_at-later i index f (x ∷ xs) h = ground (arith, map_at-later (suc i) index f xs)

map_at-middle :
    {A : Type 0} (i index : ℕ) (f : A → A) (xs : List A) (y : A) (ys : List A)
    → index ≡ i + length xs
    → map_at i index f (xs ++ y ∷ ys) ≡ xs ++ f y ∷ ys
unfolding map_at
map_at-middle i index f [] y ys h = ground (arith, map_at-later (suc i) index f ys)
map_at-middle i index f (x ∷ xs) y ys h = ground (arith, map_at-middle (suc i) index f xs y ys)

-- An entry after the progress that an upload reports, and after its end.
module _ {R : Type 0} where
  abbrev pub advanced : List ℕ → FileUploadProgress R → FileUploadProgress R
  advanced [] u = u
  advanced (n ∷ ns) u = advanced ns (set_progress n u)

  abbrev pub ended : Reply R → FileUploadProgress R → FileUploadProgress R
  ended (resolved r) u = set_complete r u
  ended (rejected e) u = set_error (to_error e) u

  advanced-keeps :
      (ns : List ℕ) (u : FileUploadProgress R)
      → record u { progress = (advanced ns u).progress } ≡ advanced ns u
  advanced-keeps [] u = refl
  advanced-keeps (n ∷ ns) u = advanced-keeps ns (set_progress n u)

-- What a reply adds to the results, and to the errors.
abbrev pub result_of : {R : Type 0} → Reply R → List R
result_of (resolved r) = r ∷ []
result_of (rejected e) = []

abbrev pub error_list : {R : Type 0} → Reply R → List UploadError
error_list (resolved r) = []
error_list (rejected e) = to_error e ∷ []

module _ {R : Type 0} where
  pub entry-Finished :
      {fs : List File} {ws : List (Reply R)} {us : List (FileUploadProgress R)} {rs : List R}
      {es : List UploadError} (reply : Reply R) (ns : List ℕ) (file : File)
      → Finished fs ws us rs es
      → Finished
          (file ∷ fs)
          (reply ∷ ws)
          (ended reply (advanced ns (set_status UploadStatus.uploading (initial_upload file))) ∷ us)
          (result_of reply ++ rs)
          (error_list reply ++ es)
  unfolding initial_upload
  entry-Finished {fs = fs} {ws = ws} {us = us} {rs = rs} {es = es} (resolved r) ns file h =
      subst (λ u. Finished (file ∷ fs) (resolved r ∷ ws) (set_complete r u ∷ us) (r ∷ rs) es)
        (advanced-keeps ns (set_status UploadStatus.uploading (initial_upload file)))
        (completed file r h)
  entry-Finished {fs = fs} {ws = ws} {us = us} {rs = rs} {es = es} (rejected e) ns file h =
      subst
        (λ u.
          Finished (file ∷ fs) (rejected e ∷ ws) (set_error (to_error e) u ∷ us) rs
            (to_error e ∷ es))
        (advanced-keeps ns (set_status UploadStatus.uploading (initial_upload file)))
        (failed file _ e h)

module _ {S R : Type 0} where
  -- A batch whose entries are known around the position of one.
  abbrev pub at :
      List (FileUploadProgress R)
      → FileUploadProgress R
      → List (FileUploadProgress R)
      → Batch S R
      → Batch S R
  at us u vs b = record b { uploads = us ++ u ∷ vs }

  update_upload-at :
      (f : FileUploadProgress R → FileUploadProgress R) (us : List (FileUploadProgress R))
      (u : FileUploadProgress R) (vs : List (FileUploadProgress R)) (b : Batch S R)
      → update_upload (length us) f (at us u vs b) ≡ at us (f u) vs b
  unfolding update_upload
  update_upload-at f us u vs b =
      ap (λ xs. record b { uploads = xs }) (map_at-middle 0 (length us) f us u vs (omega arith))

  report_each-at :
      (ns : List ℕ) (us : List (FileUploadProgress R)) (u : FileUploadProgress R)
      (vs : List (FileUploadProgress R)) (b : Batch S R)
      → report_each (length us) ns (at us u vs b) ≡ at us (advanced ns u) vs b
  unfolding report_each
  report_each-at [] us u vs b = refl
  report_each-at (n ∷ ns) us u vs b =
      ap (report_each (length us) ns) (update_upload-at (set_progress n) us u vs b)
      ∙ report_each-at ns us (set_progress n u) vs b

  settle_upload-at :
      (r : Reply R) (us : List (FileUploadProgress R)) (u : FileUploadProgress R)
      (vs : List (FileUploadProgress R)) (b : Batch S R)
      → settle_upload (length us) r (at us u vs b)
        ≡ at us
            (ended r u)
            vs
            (record b { results = b.results ++ result_of r; errors = b.errors ++ error_list r })
  unfolding settle_upload
  settle_upload-at (resolved r) us u vs b =
      rw (update_upload-at (set_complete r) us u vs b, append-nil b.errors) refl
  settle_upload-at (rejected e) us u vs b =
      rw (update_upload-at (set_error (to_error e)) us u vs b, append-nil b.results) refl

  -- The entry of a file after its round.
  abbrev pub entry_after : Uploaded S R → File → FileUploadProgress R
  entry_after up file =
      ended up.reply
        (advanced up.progress (set_status UploadStatus.uploading (initial_upload file)))

  -- A batch to which entries, results and errors are added.
  abbrev pub extended :
      Batch S R → List (FileUploadProgress R) → List R → List UploadError → S → Batch S R
  extended b us rs es s = record b {
    uploads = us;
    results = b.results ++ rs;
    errors = b.errors ++ es;
    server_state = s;
  }

  pub upload_one-at :
      (options : UseFileUploadOptions) (server : FileServer S R) (file : File)
      (us : List (FileUploadProgress R)) (vs : List (FileUploadProgress R)) (b : Batch S R)
      → let up = upload_of options server file b.server_state in
        upload_one options server (length us) file (at us (initial_upload file) vs b)
        ≡ extended b
            (us ++ entry_after up file ∷ vs)
            (result_of up.reply)
            (error_list up.reply)
            up.after
  unfolding upload_one
  upload_one-at options server file us vs b =
      let up = upload_of options server file b.server_state in
      ap
        (λ (c : Batch S R).
          settle_upload (length us) up.reply
            (report_each (length us) up.progress (record c { server_state = up.after })))
        (update_upload-at (set_status UploadStatus.uploading) us (initial_upload file) vs b)
      ∙ ap (settle_upload (length us) up.reply) (
          report_each-at up.progress us (set_status UploadStatus.uploading (initial_upload file)) vs
            (record b { server_state = up.after }))
      ∙ settle_upload-at up.reply us _ vs (record b { server_state = up.after })
