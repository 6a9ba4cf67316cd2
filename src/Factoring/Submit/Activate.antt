-- ===== src/Factoring/Submit/Activate.antt =====
-- The manifest of client/factoring/rtssftp.go: it is uploaded under a name that triggers nothing, then
-- renamed.
use backend_pkg.Common.{
  ℕ, ◌≡◌, ◌≢◌, refl, sym, ap, ◌∙◌, inl, inr, true, false, List, [], subst, Bytes, codes, none,
  arith, Bool-cases, Option-cases,
}
use backend_pkg.Factoring.Invoices.{InvoicePdf}
use backend_pkg.Factoring.Submit.{
  Sftp, Progress, upload_pdfs, activate_manifest, drop_files, tmp_name, Sent,
}
use backend_pkg.Factoring.Submit.Folder.{
  last_byte, last_byte-append, no_pdf_name, upload_pdfs_other, upload_pdfs_stored, AreStored-other,
  HaveOwnNames, AreStored, IsDelivered as Delivered, IsSafe as Safe,
}

module _ (sftp : Sftp) (join : Bytes → Bytes) where
  open sftp use {
    State, file, dial, ensure_dir, is_cancelled, upload, rename, file-dial, file-ensure_dir,
    upload_stored, upload_other, rename_whole, rename_done, rename_other,
  }

  module _ (csv_name manifest : Bytes) (total : ℕ) where
    abbrev tmp : Bytes
    tmp = tmp_name sftp join csv_name manifest total

    abbrev IsDelivered : State → List InvoicePdf → Type 0
    IsDelivered = Delivered sftp join csv_name manifest total

    abbrev IsSafe : State → State → List InvoicePdf → Type 0
    IsSafe = Safe sftp join csv_name manifest total

    module _ (named : last_byte csv_name ≡ b'v') where
      tmp_other : tmp ≢ csv_name
      unfolding last_byte
      tmp_other e =
          absurd (
            omega
              (arith, ap last_byte e, last_byte-append csv_name b'.' (codes "uploading"), named))

      module _ (pdfs : List InvoicePdf) (s : State) (stored : AreStored sftp join s pdfs)
          (ok : (upload s tmp manifest).1 ≡ true) where
        abbrev moved_state : State
        moved_state = (rename (upload s tmp manifest).0 tmp csv_name).0

        activated :
            file moved_state csv_name ≡ file (upload s tmp manifest).0 tmp
            → IsDelivered moved_state pdfs
        unfolding last_byte
        activated moved = (
          moved ∙ upload_stored s tmp manifest ok,
          AreStored-other sftp join csv_name manifest total s moved_state pdfs
              (λ n t c.
                rename_other (upload s tmp manifest).0 tmp csv_name n t c
                ∙ upload_other s tmp manifest n t)
              (no_pdf_name tmp
                (λ e. absurd (omega (arith, e, last_byte-append csv_name b'.' (codes "uploading"))))
                pdfs)
              (no_pdf_name csv_name (λ e. absurd (omega (arith, e, named))) pdfs) stored,
        )

        moved-IsSafe : IsSafe s moved_state pdfs
        moved-IsSafe = elim (rename_whole (upload s tmp manifest).0 tmp csv_name) [
          | inl same ↦ inl (same ∙ upload_other s tmp manifest csv_name tmp_other)
          | inr moved ↦ inr (activated moved)
        ]

      module _ (pdfs : List InvoicePdf) (up : List Bytes) (done : List Progress) (s : State) where
        abbrev activation : Sent sftp join
        activation = activate_manifest sftp join csv_name manifest total up done s

        activation_state :
            (upload s tmp manifest).1 ≡ true
            → activation.state ≡ (rename (upload s tmp manifest).0 tmp csv_name).0
        unfolding activate_manifest
        activation_state ok =
            rw ok (elim (Bool-cases (rename (upload s tmp manifest).0 tmp csv_name).1) [
              | inl e ↦ rw e refl
              | inr e ↦ rw e refl
            ])

        activation_fails :
            (upload s tmp manifest).1 ≡ false
            → (activation.state ≡ (upload s tmp manifest).0) × (activation.error ≢ none)
        unfolding activate_manifest
        activation_fails bad = (rw bad refl, λ e. ground arith)

        activation_moves :
            (upload s tmp manifest).1 ≡ true
            → activation.error ≡ none
            → (rename (upload s tmp manifest).0 tmp csv_name).1 ≡ true
        unfolding activate_manifest
        activation_moves ok e = ground arith

        activate_manifest-IsSafe : AreStored sftp join s pdfs → IsSafe s activation.state pdfs
        activate_manifest-IsSafe stored = elim (Bool-cases (upload s tmp manifest).1) [
          | inl ok ↦
              subst (λ t. IsSafe s t pdfs) (sym (activation_state ok))
                (moved-IsSafe pdfs s stored ok)
          | inr bad ↦ inl (
              ap (λ t. file t csv_name) (activation_fails bad).0
              ∙ upload_other s tmp manifest csv_name tmp_other)
        ]

        activate_manifest_done :
            AreStored sftp join s pdfs → activation.error ≡ none → IsDelivered activation.state pdfs
        activate_manifest_done stored e = elim (Bool-cases (upload s tmp manifest).1) [
          | inl ok ↦
              subst (λ t. IsDelivered t pdfs) (sym (activation_state ok))
                (activated pdfs s stored ok
                  (rename_done (upload s tmp manifest).0 tmp csv_name (activation_moves ok e)))
          | inr bad ↦ absurd ((activation_fails bad).1 e)
        ]

      pub IsSafe-from :
          (s s' t : State) (pdfs : List InvoicePdf)
          → file s' csv_name ≡ file s csv_name
          → IsSafe s' t pdfs
          → IsSafe s t pdfs
      IsSafe-from s s' t pdfs e (inl same) = inl (same ∙ e)
      IsSafe-from s s' t pdfs e (inr delivered) = inr delivered

      module _ (pdfs : List InvoicePdf) (s : State) (own : HaveOwnNames pdfs) where
        abbrev pdfs_sent : Sent sftp join
        pdfs_sent = upload_pdfs sftp join csv_name manifest total 0 pdfs [] [] s

        csv_untouched : file pdfs_sent.state csv_name ≡ file s csv_name
        csv_untouched =
            upload_pdfs_other sftp join csv_name manifest total 0 pdfs [] [] s csv_name
              (no_pdf_name csv_name (λ e. absurd (omega (arith, e, named))) pdfs)

        abbrev dropped : Sent sftp join
        dropped = drop_files sftp join csv_name manifest total pdfs s

        pub drop_files_lem :
            IsSafe s dropped.state pdfs × (dropped.error ≡ none → IsDelivered dropped.state pdfs)
        unfolding drop_files
        drop_files_lem = elim (Option-cases pdfs_sent.error) [
          | inl e ↦
              let stored =
                upload_pdfs_stored sftp join csv_name manifest total 0 pdfs [] [] s own e in
              let up = pdfs_sent.uploaded in
              let done = pdfs_sent.reported in
              rw e (
                IsSafe-from s pdfs_sent.state _ pdfs csv_untouched
                    (activate_manifest-IsSafe pdfs up done pdfs_sent.state stored),
                activate_manifest_done pdfs up done pdfs_sent.state stored,
              )
          | inr (x, e) ↦ rw e (inl csv_untouched, λ h. cc)
        ]
