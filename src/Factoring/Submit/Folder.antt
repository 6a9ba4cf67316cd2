-- ===== src/Factoring/Submit/Folder.antt =====
-- The PDFs of client/factoring/rtssftp.go: what their upload leaves in the folder.
use backend_pkg.Common.{
  ℕ, suc, ◌+◌, ◌≡◌, ◌≢◌, refl, sym, ap, ◌∙◌, ◌⊎◌, inl, inr, true, List, [], ◌∷◌, ◌++◌, subst, Bytes,
  codes, none, some, All, arith, Bool-cases,
}
use backend_pkg.Factoring.Invoices.{InvoicePdf, sanitize_pdf_name, sanitize_from}
use backend_pkg.Factoring.Submit.{Sftp, Progress, upload_pdfs, tmp_name, Sent}

unfoldable pub last_byte : Bytes → ℕ
last_byte [] = 0
last_byte (c ∷ []) = c
last_byte (c ∷ (d ∷ s)) = last_byte (d ∷ s)

pub last_byte-append :
    (s : Bytes) (c : ℕ) (t : Bytes) → last_byte (s ++ (c ∷ t)) ≡ last_byte (c ∷ t)
unfolding last_byte
last_byte-append [] c t = refl
last_byte-append (a ∷ []) c t = refl
last_byte-append (a ∷ (b ∷ s)) c t = last_byte-append (b ∷ s) c t

pdf_last : (number : Bytes) → last_byte (sanitize_pdf_name number) ≡ b'f'
unfolding sanitize_pdf_name last_byte
pdf_last number = last_byte-append (sanitize_from 0 number) b'.' (codes "pdf")

-- Each PDF of the batch has a name of its own.
abbrev pub HaveOwnNames : List InvoicePdf → Type 0
HaveOwnNames [] = Unit
HaveOwnNames (pdf ∷ pdfs) =
    All {A = InvoicePdf}
      (λ p. sanitize_pdf_name p.invoice_number ≢ sanitize_pdf_name pdf.invoice_number) pdfs
    × HaveOwnNames pdfs

abbrev NamesOther : Bytes → List InvoicePdf → Type 0
NamesOther n = All {A = InvoicePdf} (λ p. sanitize_pdf_name p.invoice_number ≢ n)

pub no_pdf_name : (n : Bytes) → last_byte n ≢ b'f' → (pdfs : List InvoicePdf) → NamesOther n pdfs
no_pdf_name n h [] = tt
no_pdf_name n h (pdf ∷ pdfs) =
    (λ e. h (sym (ap last_byte e) ∙ pdf_last pdf.invoice_number), no_pdf_name n h pdfs)

module _ (sftp : Sftp) (join : Bytes → Bytes) where
  open sftp use {
    State, file, dial, ensure_dir, is_cancelled, upload, rename, file-dial, file-ensure_dir,
    upload_stored, upload_other, rename_whole, rename_done, rename_other,
  }

  -- Every PDF lies in the folder, whole.
  abbrev pub AreStored : State → List InvoicePdf → Type 0
  AreStored s =
      All {A = InvoicePdf} (λ p. file s (sanitize_pdf_name p.invoice_number) ≡ some p.content)

  module _ (csv_name manifest : Bytes) (total : ℕ) where
    abbrev pub sending : ℕ → List InvoicePdf → List Bytes → List Progress → State → Sent sftp join
    sending = upload_pdfs sftp join csv_name manifest total

    pub upload_pdfs_other :
        (i : ℕ) (pdfs : List InvoicePdf) (up : List Bytes) (done : List Progress) (s : State)
        (n : Bytes)
        → NamesOther n pdfs
        → file (sending i pdfs up done s).state n ≡ file s n
    unfolding upload_pdfs
    upload_pdfs_other i [] up done s n h = refl
    upload_pdfs_other i (pdf ∷ pdfs) up done s n (h, hs) =
        let name = sanitize_pdf_name pdf.invoice_number in
        let s' = (upload s name pdf.content).0 in
        let tick : Progress = record { done = i + 1; total = total; detail = name } in
        ground (
          arith,
          upload_other s name pdf.content n h,
          upload_pdfs_other (suc i) pdfs (up ++ (join name ∷ [])) (done ++ (tick ∷ [])) s' n hs,
        )

    module _ (i : ℕ) (pdf : InvoicePdf) (pdfs : List InvoicePdf) (up : List Bytes)
        (done : List Progress) (s : State) where
      abbrev name_of_pdf : Bytes
      name_of_pdf = sanitize_pdf_name pdf.invoice_number

      abbrev after_pdf : State
      after_pdf = (upload s name_of_pdf pdf.content).0

      abbrev next_sending : Sent sftp join
      next_sending =
          sending (suc i) pdfs (up ++ (join name_of_pdf ∷ []))
            (done ++ (record { done = i + 1; total = total; detail = name_of_pdf } ∷ [])) after_pdf

      sending_step :
          (sending i (pdf ∷ pdfs) up done s).error ≡ none
          → ((upload s name_of_pdf pdf.content).1 ≡ true)
            × (sending i (pdf ∷ pdfs) up done s ≡ next_sending)
      unfolding upload_pdfs
      sending_step ok = elim (Bool-cases (is_cancelled s)) [
        | inl c ↦ absurd (ground arith)
        | inr c ↦ elim (Bool-cases (upload s name_of_pdf pdf.content).1) [
          | inl u ↦ (u, rw (c, u) refl)
          | inr u ↦ absurd (ground arith)
        ]
      ]

    pub upload_pdfs_stored :
        (i : ℕ) (pdfs : List InvoicePdf) (up : List Bytes) (done : List Progress) (s : State)
        → HaveOwnNames pdfs
        → (sending i pdfs up done s).error ≡ none
        → AreStored (sending i pdfs up done s).state pdfs
    upload_pdfs_stored i [] up done s own ok = tt
    upload_pdfs_stored i (pdf ∷ pdfs) up done s (first, own) ok =
        let (u, e) = sending_step i pdf pdfs up done s ok in
        let name = sanitize_pdf_name pdf.invoice_number in
        let s' = (upload s name pdf.content).0 in
        let up' = up ++ (join name ∷ []) in
        let tick : Progress = record { done = i + 1; total = total; detail = name } in
        let done' = done ++ (tick ∷ []) in
        subst (λ r. AreStored r.state (pdf ∷ pdfs)) (sym e)
          (
            upload_pdfs_other (suc i) pdfs up' done' s' name first
                ∙ upload_stored s name pdf.content u,
            upload_pdfs_stored (suc i) pdfs up' done' s' own (ap (λ r. r.error) (sym e) ∙ ok),
          )

    abbrev pub tmp : Bytes
    tmp = tmp_name sftp join csv_name manifest total

    -- The whole manifest lies in the folder, and every PDF.
    abbrev pub IsDelivered : State → List InvoicePdf → Type 0
    IsDelivered s pdfs = (file s csv_name ≡ some manifest) × AreStored s pdfs

    pub AreStored-other :
        (s s' : State) (pdfs : List InvoicePdf)
        → ((n : Bytes) → tmp ≢ n → csv_name ≢ n → file s' n ≡ file s n)
        → NamesOther tmp pdfs
        → NamesOther csv_name pdfs
        → AreStored s pdfs
        → AreStored s' pdfs
    AreStored-other s s' [] same t c stored = tt
    AreStored-other s s' (pdf ∷ pdfs) same (t, ts) (c, cs) (here, stored) = (
      same (sanitize_pdf_name pdf.invoice_number) (λ e. t (sym e)) (λ e. c (sym e)) ∙ here,
      AreStored-other s s' pdfs same ts cs stored,
    )

    -- A manifest that was not there is there whole, or not at all.
    abbrev pub IsSafe : State → State → List InvoicePdf → Type 0
    IsSafe s s' pdfs = (file s' csv_name ≡ file s csv_name) ⊎ IsDelivered s' pdfs
