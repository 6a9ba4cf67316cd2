-- ===== src/Factoring/Invoices.antt =====
-- client/factoring/factoring.go: the providers, a batch of invoices and its first check. An amount is a
-- number of cents.
use backend_pkg.Common.{
  ℕ, zero, suc, Bool, true, false, not, ◌&&◌, ◌||◌, leb, List, [], ◌∷◌, ◌++◌, Bytes, codes, ◌=ᵇ◌,
  contains, if◌then◌else◌, Option, none, some, ℤ, length, ◌==◌, is_upper, is_lower, is_digit,
}

abbrev pub ProviderType : Type 0
ProviderType = Bytes

abbrev triumph_sftp : ProviderType
triumph_sftp = codes "triumph_sftp"

abbrev pub rts_sftp : ProviderType
rts_sftp = codes "rts_sftp"

abbrev rts_test_sftp : ProviderType
rts_test_sftp = codes "rts_test_sftp"

abbrev all_provider_types : List ProviderType
all_provider_types = triumph_sftp ∷ (rts_sftp ∷ (rts_test_sftp ∷ []))

unfoldable pub is_rts : ProviderType → Bool
is_rts pt = pt =ᵇ rts_sftp || pt =ᵇ rts_test_sftp

is_valid : ProviderType → Bool
is_valid = contains all_provider_types

pub record InvoiceLine : Type 0 where
  pub debtor_name : Bytes
  pub invoice_number : Bytes
  pub invoice_date : ℕ
  pub po_number : Bytes
  pub amount : ℤ

pub record InvoicePdf : Type 0 where
  pub invoice_number : Bytes
  pub content : Bytes

-- The time of submission may be missing.
pub record Batch : Type 0 where
  pub submitted_at : Option ℕ
  pub invoices : List InvoiceLine
  pub pdfs : List InvoicePdf

-- Why a batch is malformed, with the position of the invoice.
pub data BatchError : Type 0 where
  no_invoices counts_differ : BatchError
  missing_number number_differs empty_pdf : ℕ → BatchError

validate_from : ℕ → List InvoiceLine → List InvoicePdf → Option BatchError
validate_from i [] pdfs = none
validate_from i (inv ∷ invs) [] = none
validate_from i (inv ∷ invs) (pdf ∷ pdfs) =
    let rest = validate_from (suc i) invs pdfs in
    if inv.invoice_number =ᵇ []
    then some (missing_number i)
    else if not (pdf.invoice_number =ᵇ inv.invoice_number)
    then some (number_differs i)
    else if pdf.content =ᵇ []
    then some (empty_pdf i)
    else rest

unfoldable pub validate : Batch → Option BatchError
unfolding validate_from
validate b =
    if length b.invoices == 0
    then some no_invoices
    else if not (length b.invoices == length b.pdfs)
    then some counts_differ
    else validate_from 0 b.invoices b.pdfs

abbrev pub safe_byte : ℕ → ℕ
safe_byte c =
    if is_upper c || (is_lower c || (is_digit c || (c == b'.' || (c == b'_' || c == b'-'))))
    then c
    else b'_'

abbrev between : ℕ → ℕ → ℕ → Bool
between lo hi c = leb lo c && leb c hi

-- How many bytes the first byte of a rune asks for behind it, and which the second may be.
abbrev tail_length : ℕ → ℕ
tail_length c =
    if between 0xC2 0xDF c
    then 1
    else if between 0xE0 0xEF c
    then 2
    else if between 0xF0 0xF4 c
    then 3
    else 0

abbrev second_low : ℕ → ℕ
second_low c = if c == 0xE0 then 0xA0 else if c == 0xF0 then 0x90 else 0x80

abbrev second_high : ℕ → ℕ
second_high c = if c == 0xED then 0x9F else if c == 0xF4 then 0x8F else 0xBF

continues : ℕ → Bytes → Bool
continues zero s = true
continues (suc n) [] = false
continues (suc n) (c ∷ s) = between 0x80 0xBF c && continues n s

-- The bytes of a rune behind its first, as `range` reads a text; a byte that begins none is one alone.
rune_tail : ℕ → Bytes → ℕ
unfolding continues
rune_tail c [] = 0
rune_tail c (d ∷ s) =
    if between (second_low c) (second_high c) d && continues (tail_length c) (d ∷ s)
    then tail_length c
    else 0

-- A byte for each rune; the first argument counts the bytes of the last rune that are left.
unfoldable pub sanitize_from : ℕ → Bytes → Bytes
unfolding rune_tail
sanitize_from k [] = []
sanitize_from zero (c ∷ s) = safe_byte c ∷ sanitize_from (rune_tail c s) s
sanitize_from (suc k) (c ∷ s) = sanitize_from k s

unfoldable pub sanitize_pdf_name : Bytes → Bytes
unfolding sanitize_from
sanitize_pdf_name number = sanitize_from 0 number ++ codes ".pdf"
