-- ===== src/Factoring/Submit/Trigger.antt =====
-- The order of client/factoring/rtssftp.go: the manifest appears last, and nothing of a batch that is
-- refused.
use backend_pkg.Common.{
  ℕ, ◌+◌, ◌≡◌, ◌≢◌, refl, ◌∙◌, ◌⊎◌, inl, inr, true, List, ◌∷◌, Bytes, codes, none, some, ℤ, length,
  arith, Bool-cases, Option-cases, is_some, ◌||◌, get_or,
}
use backend_pkg.Factoring.Invoices.{ProviderType, InvoicePdf, Batch, validate}
use backend_pkg.Factoring.Rules.{validate_invoices_for_provider}
use backend_pkg.Factoring.Submit.{
  Sftp, Manifest, rendered, refused, connected, with_manifest, submit_batch, csv_name_of,
  manifest_of, Sent,
}
use backend_pkg.Factoring.Submit.Folder.{
  last_byte, last_byte-append, HaveOwnNames, AreStored, IsDelivered as Delivered, IsSafe as Safe,
}
use backend_pkg.Factoring.Submit.Activate.{IsSafe-from, drop_files_lem}

module _ (sftp : Sftp) (join : Bytes → Bytes) where
  open sftp use {
    State, file, dial, ensure_dir, is_cancelled, upload, rename, file-dial, file-ensure_dir,
    upload_stored, upload_other, rename_whole, rename_done, rename_other,
  }

  abbrev connection : Bytes → Bytes → List InvoicePdf → State → Sent sftp join
  connection = connected sftp join

  connected_lem :
      (csv_name manifest : Bytes) (pdfs : List InvoicePdf) (s : State)
      → last_byte csv_name ≡ b'v'
      → HaveOwnNames pdfs
      → Safe sftp join csv_name manifest 0 s (connection csv_name manifest pdfs s).state pdfs
        × ((connection csv_name manifest pdfs s).error ≡ none
            → Delivered sftp join csv_name manifest 0
                (connection csv_name manifest pdfs s).state
                pdfs)
  connected_lem csv_name manifest pdfs s named own =
      let s' = (dial s).0 in
      let s'' = (ensure_dir s').0 in
      let same' = file-dial s csv_name in
      let same'' = file-ensure_dir s' csv_name ∙ same' in
      let total = length pdfs + 1 in
      elim (Bool-cases (dial s).1) [
        | inr e ↦ rw e (inl same', λ h. cc)
        | inl e ↦ elim (Bool-cases (ensure_dir s').1) [
          | inr f ↦ rw (e, f) (inl same'', λ h. cc)
          | inl f ↦
              let (safe, delivered) =
                drop_files_lem sftp join csv_name manifest total named pdfs s'' own in
              rw (e, f)
                (
                  IsSafe-from sftp join csv_name manifest total named s s'' _ pdfs same'' safe,
                  delivered,
                )
        ]
      ]

  -- The folder holds the manifest, whole, and every PDF.
  abbrev pub IsWhole : Bytes → List InvoicePdf → Manifest → State → Type 0
  IsWhole csv_name pdfs manifest t =
      (m : Bytes) × (manifest ≡ rendered m)
      × (file t csv_name ≡ some m)
      × AreStored sftp join t pdfs

  with_manifest_lem :
      (csv_name : Bytes) (manifest : Manifest) (pdfs : List InvoicePdf) (s : State)
      → last_byte csv_name ≡ b'v'
      → HaveOwnNames pdfs
      → ((file (with_manifest sftp join csv_name manifest pdfs s).state csv_name ≡ file s csv_name)
          ⊎ IsWhole csv_name pdfs manifest (with_manifest sftp join csv_name manifest pdfs s).state)
        × ((with_manifest sftp join csv_name manifest pdfs s).error ≡ none
            → IsWhole csv_name pdfs manifest
                (with_manifest sftp join csv_name manifest pdfs s).state)
  with_manifest_lem csv_name (refused e) pdfs s named own = (inl refl, λ h. cc)
  with_manifest_lem csv_name (rendered m) pdfs s named own =
      let (safe, delivered) = connected_lem csv_name m pdfs s named own in
      (
        elim safe [ inl same ↦ inl same | inr d ↦ inr (m, refl, d.0, d.1) ],
        λ h. let d = delivered h in (m, refl, d.0, d.1),
      )

  module _ (format_date : ℕ → Bytes) (format_amount : ℤ → Bytes)
      (render : List (List Bytes) → Bytes) (format_time : ℕ → Bytes) (now : ℕ) (username : Bytes)
      (pt : ProviderType) (b : Batch) (s : State) where
    abbrev pub result : Sent sftp join
    result = submit_batch sftp join format_date format_amount render format_time now username pt b s

    abbrev pub name_of_csv : Bytes
    name_of_csv =
        csv_name_of sftp join format_date format_amount render format_time now username pt b

    abbrev pub rows_of_csv : Manifest
    rows_of_csv =
        manifest_of sftp join format_date format_amount render format_time now username pt b

    name_of_csv_last : last_byte name_of_csv ≡ b'v'
    unfolding last_byte
    name_of_csv_last =
        last_byte-append (b'_' ∷ format_time (get_or now b.submitted_at)) b'.' (codes "csv")

    -- Unless two PDFs share a name, the file that triggers RTS is as before, or it is the whole manifest
    -- and every PDF of the batch lies beside it: whatever fails, and wherever the upload stops.
    pub submit_batch_trigger :
        HaveOwnNames b.pdfs
        → (file result.state name_of_csv ≡ file s name_of_csv)
          ⊎ IsWhole name_of_csv b.pdfs rows_of_csv result.state
    unfolding submit_batch
    submit_batch_trigger own =
        let (safe, _) = with_manifest_lem name_of_csv rows_of_csv b.pdfs s name_of_csv_last own in
        elim (Option-cases (validate b)) [
          | inr (e, k) ↦ rw k (inl refl)
          | inl k ↦ elim (Option-cases (validate_invoices_for_provider pt b.invoices)) [
            | inr (e, v) ↦ rw (k, v) (inl refl)
            | inl v ↦ rw (k, v) safe
          ]
        ]

    -- If no error is reported, the batch met its rules and is in the folder as a whole.
    submit_batch_success :
        HaveOwnNames b.pdfs
        → result.error ≡ none
        → (validate b ≡ none)
          × (validate_invoices_for_provider pt b.invoices ≡ none)
          × IsWhole name_of_csv b.pdfs rows_of_csv result.state
    unfolding submit_batch
    submit_batch_success own h =
        let (_, whole) = with_manifest_lem name_of_csv rows_of_csv b.pdfs s name_of_csv_last own in
        elim (Option-cases (validate b)) [
          | inr (e, k) ↦ absurd (ground arith)
          | inl k ↦ elim (Option-cases (validate_invoices_for_provider pt b.invoices)) [
            | inr (e, v) ↦ absurd (ground arith)
            | inl v ↦ (k, v, rw (k, v) (whole (rw (k, v) at h)))
          ]
        ]

    -- A batch that is malformed or breaks a rule never reaches the server.
    submit_batch_refused :
        (is_some (validate b) || is_some (validate_invoices_for_provider pt b.invoices)) ≡ true
        → (result.state ≡ s) × (result.error ≢ none)
    unfolding submit_batch
    submit_batch_refused h = elim (Option-cases (validate b)) [
      | inr (e, k) ↦ rw k (refl, λ n. cc)
      | inl k ↦ elim (Option-cases (validate_invoices_for_provider pt b.invoices)) [
        | inr (e, v) ↦ rw (k, v) (refl, λ n. cc)
        | inl v ↦ absurd (ground arith)
      ]
    ]
