-- ===== src/Factoring/Submit.antt =====
-- client/factoring/rtssftp.go with csv.go and sftp.go: the upload of a batch to RTS. The folder of RTS is
-- the interface Sftp; the rendering of rows, dates and amounts belongs to the packages `csv`, `time` and
-- `strconv`. Nobody else writes to the folder meanwhile.
pub mod Folder
pub mod Activate
pub mod Trigger
use backend_pkg.Common.{
  ℕ, suc, ◌+◌, ◌≡◌, ◌≢◌, ◌⊎◌, Bool, true, false, List, [], ◌∷◌, ◌++◌, map, Bytes, codes, ◌=ᵇ◌,
  if◌then◌else◌, Option, none, some, ℤ, length, trim_space, get_or,
}
use backend_pkg.Factoring.Invoices.{
  ProviderType, InvoiceLine, InvoicePdf, Batch, BatchError, validate, sanitize_pdf_name,
}
use backend_pkg.Factoring.Rules.{BatchValidationError, validate_invoices_for_provider, is_blank}

-- The folder on the server. An upload that fails may leave anything under its name; a rename takes place
-- as a whole or not at all, whatever the client is told.
pub record Sftp : Type 1 where
  pub State : Type 0
  pub file : State → Bytes → Option Bytes
  pub dial : State → State × Bool
  pub ensure_dir : State → State × Bool
  pub is_cancelled : State → Bool
  pub upload : State → Bytes → Bytes → State × Bool
  pub rename : State → Bytes → Bytes → State × Bool
  pub file-dial : (s : State) (n : Bytes) → file (dial s).0 n ≡ file s n
  pub file-ensure_dir : (s : State) (n : Bytes) → file (ensure_dir s).0 n ≡ file s n
  pub upload_stored :
      (s : State) (n c : Bytes) → (upload s n c).1 ≡ true → file (upload s n c).0 n ≡ some c
  pub upload_other : (s : State) (n c j : Bytes) → n ≢ j → file (upload s n c).0 j ≡ file s j
  pub rename_whole :
      (s : State) (from to : Bytes)
      → (file (rename s from to).0 to ≡ file s to) ⊎ (file (rename s from to).0 to ≡ file s from)
  pub rename_done :
      (s : State) (from to : Bytes)
      → (rename s from to).1 ≡ true
      → file (rename s from to).0 to ≡ file s from
  pub rename_other :
      (s : State) (from to j : Bytes) → from ≢ j → to ≢ j → file (rename s from to).0 j ≡ file s j

pub data ManifestError : Type 0 where
  no_client_number no_rows : ManifestError
  row_without_number : ℕ → ManifestError

pub data SubmitError : Type 0 where
  malformed : BatchError → SubmitError
  violated : BatchValidationError → SubmitError
  no_manifest : ManifestError → SubmitError
  dial_failed dir_failed cancelled : SubmitError
  pdf_failed : ℕ → SubmitError
  manifest_failed activation_failed : SubmitError

pub record Progress : Type 0 where
  pub done : ℕ
  pub total : ℕ
  pub detail : Bytes

abbrev rts_csv_header : List Bytes
rts_csv_header =
    codes "Client"
    ∷ (codes "Invoice#"
        ∷ (codes "DebtorNo"
            ∷ (codes "Debtor Name" ∷ (codes "Load #" ∷ (codes "InvDate" ∷ (codes "InvAmt" ∷ []))))))

pub data Manifest : Type 0 where
  rendered : Bytes → Manifest
  refused : ManifestError → Manifest

-- The position of the first invoice without a number.
abbrev missing_from : ℕ → List InvoiceLine → Option ℕ
missing_from i [] = none
missing_from i (inv ∷ invs) =
    let rest = missing_from (suc i) invs in if inv.invoice_number =ᵇ [] then some i else rest

module _ (format_date : ℕ → Bytes) (format_amount : ℤ → Bytes)
    (render : List (List Bytes) → Bytes) where
  pub rts_row : Bytes → InvoiceLine → List Bytes
  rts_row client_number inv =
      client_number
      ∷ (inv.invoice_number
          ∷ (inv.debtor_name
              ∷ (inv.debtor_name
                  ∷ (inv.po_number
                      ∷ (format_date inv.invoice_date ∷ (format_amount inv.amount ∷ []))))))

  unfoldable pub build_rts_csv : Bytes → List InvoiceLine → Manifest
  unfolding rts_row
  build_rts_csv client_number [] =
      if is_blank client_number then refused no_client_number else refused no_rows
  build_rts_csv client_number (inv ∷ invs) =
      if is_blank client_number
      then refused no_client_number
      else elim (missing_from 0 (inv ∷ invs)) [
        | some i ↦ refused (row_without_number i)
        | none ↦ rendered (render (rts_csv_header ∷ map (rts_row client_number) (inv ∷ invs)))
      ]

-- `join` puts the folder in front of a name.
module _ (sftp : Sftp) (join : Bytes → Bytes) where
  open sftp use {State, dial, ensure_dir, is_cancelled, upload, rename}

  -- Where the server is left, the error if there is one, what the result names, and what was reported.
  pub record Sent : Type 0 where
    pub state : State
    pub error : Option SubmitError
    pub csv_file_name : Bytes
    pub uploaded : List Bytes
    pub reported : List Progress

  abbrev pub stopped : SubmitError → State → Sent
  stopped e s = record {
    state = s;
    error = some e;
    csv_file_name = [];
    uploaded = [];
    reported = [];
  }

  module _ (csv_name manifest : Bytes) (total : ℕ) where
    abbrev pub sent : Option SubmitError → List Bytes → List Progress → State → Sent
    sent e up done s = record {
      state = s;
      error = e;
      csv_file_name = csv_name;
      uploaded = up;
      reported = done;
    }

    unfoldable pub upload_pdfs : ℕ → List InvoicePdf → List Bytes → List Progress → State → Sent
    upload_pdfs i [] up done s = sent none up done s
    upload_pdfs i (pdf ∷ pdfs) up done s =
        let name = sanitize_pdf_name pdf.invoice_number in
        let (s', ok) = upload s name pdf.content in
        let tick : Progress = record { done = i + 1; total = total; detail = name } in
        let rest = upload_pdfs (suc i) pdfs (up ++ (join name ∷ [])) (done ++ (tick ∷ [])) s' in
        if is_cancelled s
        then sent (some cancelled) up done s
        else if ok
        then rest
        else sent (some (pdf_failed i)) up done s'

    abbrev pub tmp_name : Bytes
    tmp_name = csv_name ++ codes ".uploading"

    unfoldable pub activate_manifest : List Bytes → List Progress → State → Sent
    activate_manifest up done s =
        let (s', ok) = upload s tmp_name manifest in
        let (s'', moved) = rename s' tmp_name csv_name in
        let tick : Progress = record { done = total; total = total; detail = csv_name } in
        if ok
        then (if moved
            then sent none (up ++ (join csv_name ∷ [])) (done ++ (tick ∷ [])) s''
            else sent (some activation_failed) up done s'')
        else sent (some manifest_failed) up done s'

    abbrev pub and_manifest : Option SubmitError → Sent → Sent
    and_manifest none r = activate_manifest r.uploaded r.reported r.state
    and_manifest (some e) r = r

    unfoldable pub drop_files : List InvoicePdf → State → Sent
    drop_files pdfs s = let r = upload_pdfs 0 pdfs [] [] s in and_manifest r.error r

  abbrev pub connected : Bytes → Bytes → List InvoicePdf → State → Sent
  connected csv_name manifest pdfs s =
      let (s', dialed) = dial s in
      let (s'', ready) = ensure_dir s' in
      if dialed
      then (if ready
          then drop_files csv_name manifest (length pdfs + 1) pdfs s''
          else stopped dir_failed s'')
      else stopped dial_failed s'

  abbrev pub with_manifest : Bytes → Manifest → List InvoicePdf → State → Sent
  with_manifest csv_name (refused e) pdfs s = stopped (no_manifest e) s
  with_manifest csv_name (rendered m) pdfs s = connected csv_name m pdfs s

  abbrev pub checked :
      Option BatchError
      → Option BatchValidationError
      → Bytes
      → Manifest
      → List InvoicePdf
      → State
      → Sent
  checked (some e) v csv_name m pdfs s = stopped (malformed e) s
  checked none (some v) csv_name m pdfs s = stopped (violated v) s
  checked none none csv_name m pdfs s = with_manifest csv_name m pdfs s

  module _ (format_date : ℕ → Bytes) (format_amount : ℤ → Bytes)
      (render : List (List Bytes) → Bytes) (format_time : ℕ → Bytes) (now : ℕ) (username : Bytes)
      (pt : ProviderType) where
    abbrev pub csv_name_of : Batch → Bytes
    csv_name_of b = codes "invoices_" ++ (format_time (get_or now b.submitted_at) ++ codes ".csv")

    abbrev pub manifest_of : Batch → Manifest
    manifest_of b = build_rts_csv format_date format_amount render username b.invoices

    unfoldable pub submit_batch : Batch → State → Sent
    submit_batch b s =
        checked (validate b) (validate_invoices_for_provider pt b.invoices) (csv_name_of b)
          (manifest_of b) b.pdfs s
