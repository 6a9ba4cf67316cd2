-- ===== src/Factoring/Examples.antt =====
-- The theorems on factoring at concrete inputs: a folder that takes every file, and a batch of one
-- invoice.
use backend_pkg.Common.{
  ℕ, ◌≤◌, ◌≡◌, ◌≢◌, refl, ◌⊎◌, inl, inr, Bool, true, false, List, [], ◌∷◌, ◌++◌, Bytes, codes, ◌=ᵇ◌,
  =ᵇ→eq, =ᵇ_refl, Option, none, some, ℤ, pos, lookup, insert, lookup-insert, Bool-cases, trim_space,
  contains, All, ◌↔◌,
}
use backend_pkg.Factoring.Invoices.{InvoiceLine, Batch, rts_sftp, is_rts, sanitize_pdf_name}
use backend_pkg.Factoring.Rules.{
  validate_invoices_for_provider, validate_invoices_for_provider_iff, AreDistinct, IsComplete,
}
use backend_pkg.Factoring.Submit.{Sftp, submit_batch}
use backend_pkg.Factoring.Submit.Trigger.{submit_batch_trigger, rows_of_csv, IsWhole}

abbrev Folder : Type 0
Folder = List (Bytes × Bytes)

abbrev moved : Option Bytes → Bytes → Folder → Folder × Bool
moved none to s = (s, false)
moved (some c) to s = (insert to c s, true)

insert_self : (n c : Bytes) (s : Folder) → lookup n (insert n c s) ≡ some c
insert_self n c s = rw (lookup-insert n n c s, =ᵇ_refl n) refl

insert_other : (n c j : Bytes) (s : Folder) → n ≢ j → lookup j (insert n c s) ≡ lookup j s
insert_other n c j s h = elim (Bool-cases (n =ᵇ j)) [
  | inl e ↦ absurd (h (=ᵇ→eq n j e))
  | inr e ↦ rw (lookup-insert n j c s, e) refl
]

moved_whole :
    (o : Option Bytes) (to : Bytes) (s : Folder)
    → (lookup to (moved o to s).0 ≡ lookup to s) ⊎ (lookup to (moved o to s).0 ≡ o)
moved_whole none to s = inl refl
moved_whole (some c) to s = inr (insert_self to c s)

moved_done :
    (o : Option Bytes) (to : Bytes) (s : Folder)
    → (moved o to s).1 ≡ true
    → lookup to (moved o to s).0 ≡ o
moved_done none to s h = cc
moved_done (some c) to s h = insert_self to c s

moved_other :
    (o : Option Bytes) (to j : Bytes) (s : Folder) → to ≢ j → lookup j (moved o to s).0 ≡ lookup j s
moved_other none to j s h = refl
moved_other (some c) to j s h = insert_other to c j s h

abbrev folder : Sftp
folder = record {
  State = Folder;
  file = λ s n. lookup n s;
  dial = λ s. (s, true);
  ensure_dir = λ s. (s, true);
  is_cancelled = λ s. false;
  upload = λ s n c. (insert n c s, true);
  rename = λ s from to. moved (lookup from s) to s;
  file-dial = λ s n. refl;
  file-ensure_dir = λ s n. refl;
  upload_stored = λ s n c h. insert_self n c s;
  upload_other = λ s n c j h. insert_other n c j s h;
  rename_whole = λ s from to. moved_whole (lookup from s) to s;
  rename_done = λ s from to h. moved_done (lookup from s) to s h;
  rename_other = λ s from to j _ h. moved_other (lookup from s) to j s h;
}

abbrev invoice : InvoiceLine
invoice = record {
  debtor_name = codes "Acme";
  invoice_number = codes "INV 7";
  invoice_date = 0;
  po_number = codes "PO1";
  amount = pos 12500;
}

abbrev batch : Batch
batch = record {
  submitted_at = some 0;
  invoices = invoice ∷ [];
  pdfs = record { invoice_number = codes "INV 7"; content = codes "%PDF" } ∷ [];
}

abbrev as_is : Bytes → Bytes
as_is name = name

abbrev some_text : ℕ → Bytes
some_text n = codes "20260111"

abbrev some_amount : ℤ → Bytes
some_amount z = codes "125.00"

-- The texts one after the other.
abbrev flat_row : List Bytes → Bytes
flat_row [] = []
flat_row (c ∷ cs) = c ++ flat_row cs

abbrev flat : List (List Bytes) → Bytes
flat [] = []
flat (r ∷ rs) = flat_row r ++ flat rs

validate_invoices_for_provider_iff_example :
    (validate_invoices_for_provider rts_sftp (invoice ∷ []) ≡ none)
    ↔ ((1 ≤ 999) × AreDistinct (invoice ∷ []) × All IsComplete (invoice ∷ []))
unfolding is_rts ◌=ᵇ◌
validate_invoices_for_provider_iff_example =
    validate_invoices_for_provider_iff rts_sftp (invoice ∷ []) refl

-- The batch meets the rules of RTS.
batch_passes : validate_invoices_for_provider rts_sftp (invoice ∷ []) ≡ none
unfolding validate_invoices_for_provider trim_space ◌=ᵇ◌ contains
batch_passes = refl

submit_batch_trigger_example :
    (lookup
        (codes "invoices_20260111.csv")
        (submit_batch folder as_is some_text some_amount flat some_text 0
          (codes "42")
          rts_sftp
          batch
          []).state
      ≡ none)
    ⊎ IsWhole folder as_is
        (codes "invoices_20260111.csv")
        batch.pdfs
        (rows_of_csv folder as_is some_text some_amount flat some_text 0
          (codes "42")
          rts_sftp
          batch
          [])
        (submit_batch folder as_is some_text some_amount flat some_text 0
          (codes "42")
          rts_sftp
          batch
          []).state
unfolding lookup
submit_batch_trigger_example =
    submit_batch_trigger folder as_is some_text some_amount flat some_text 0 (codes "42") rts_sftp
      batch [] (tt, tt)

-- Two numbers that differ may give one name.
names_collide :
    (sanitize_pdf_name (codes "INV 7") ≡ sanitize_pdf_name (codes "INV#7"))
    × (sanitize_pdf_name (0xE2 ∷ 0x84 ∷ 0x96 ∷ codes "7") ≡ codes "_7.pdf")
    × (sanitize_pdf_name (0x84 ∷ 0xE2 ∷ 0x84 ∷ []) ≡ codes "___.pdf")
unfolding sanitize_pdf_name
names_collide = (refl, refl, refl)
