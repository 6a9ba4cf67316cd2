-- ===== src/Toll/PrePass/Account.antt =====
-- What becomes of the rows of a table in client/toll/prepass.go.
use backend_pkg.Common.{
  ℕ, zero, suc, ◌+◌, ◌≡◌, refl, ap, ◌∙◌, subst, false, List, [], ◌∷◌, Bytes, Option, none, some,
  length, get_elem?, Any, ◌⊎◌, inl, inr, arith, Bool-cases,
}
use backend_pkg.Toll.{TollLibrary}
use backend_pkg.Toll.Normalize.{parse_file_time, parse_money}
use backend_pkg.Toll.Sheet.{Table, cell, row_map, is_blank}
use backend_pkg.Toll.Hashes.{Row, assign_from, assign_hashes, ProviderType}
use backend_pkg.Toll.PrePass.{
  ParsedRow, bad_row, good_row, ParseResult, read_amount, read_row, read_named, row_at,
  parse_prepass_row, add_parsed, parse_from, parse_table, prepass_sftp, col_post_date, col_amount,
}

module _ (lib : TollLibrary) where
  abbrev number_of : ParsedRow lib → ℕ
  number_of (bad_row e) = e.row_number
  number_of (good_row r) = r.row_number

  read_amount-number :
      (f : Bytes → Bytes) (n : ℕ) (raw : List (Bytes × Bytes)) (post : lib.Time)
      (amount : Option lib.Decimal)
      → number_of (read_amount lib f n raw post amount) ≡ n
  unfolding read_amount row_at
  read_amount-number f n raw post none = refl
  read_amount-number f n raw post (some amount) = refl

  read_row-number :
      (f : Bytes → Bytes) (n : ℕ) (raw : List (Bytes × Bytes)) (post : Option lib.Time)
      → number_of (read_row lib f n raw post) ≡ n
  unfolding read_row
  read_row-number f n raw none = refl
  read_row-number f n raw (some post) =
      read_amount-number f n raw post (parse_money lib (f col_amount))

  parse_prepass_row-number :
      (t : Table) (n : ℕ) (row : List Bytes) → number_of (parse_prepass_row lib t n row) ≡ n
  unfolding parse_prepass_row read_named
  parse_prepass_row-number t n row =
      read_row-number (cell t row) n (row_map t row)
        (parse_file_time lib (cell t row col_post_date))

  -- The row with the number was read or is reported.
  abbrev pub HasNumber : ℕ → ParseResult lib → Type 0
  HasNumber n res = Any (λ r. r.row_number ≡ n) res.rows ⊎ Any (λ e. e.row_number ≡ n) res.errors

  abbrev size : ParseResult lib → ℕ
  size res = length res.rows + length res.errors + res.skipped

  size-add_parsed :
      (p : ParsedRow lib) (res : ParseResult lib) → size (add_parsed lib p res) ≡ suc (size res)
  size-add_parsed (bad_row e) res = omega arith
  size-add_parsed (good_row r) res = omega arith

  add_parsed-first :
      (p : ParsedRow lib) (res : ParseResult lib) → HasNumber (number_of p) (add_parsed lib p res)
  add_parsed-first (bad_row e) res = inr (inl refl)
  add_parsed-first (good_row r) res = inl (inl refl)

  add_parsed-later :
      (p : ParsedRow lib) (res : ParseResult lib) (n : ℕ)
      → HasNumber n res
      → HasNumber n (add_parsed lib p res)
  add_parsed-later (bad_row e) res n (inl h) = inl h
  add_parsed-later (bad_row e) res n (inr h) = inr (inr h)
  add_parsed-later (good_row r) res n (inl h) = inl (inr h)
  add_parsed-later (good_row r) res n (inr h) = inr h

  module _ (t : Table) (account : Bytes) where
    parse_from-size :
        (n : ℕ) (raws : List (List Bytes)) → size (parse_from lib t account n raws) ≡ length raws
    unfolding parse_from
    parse_from-size n [] = omega arith
    parse_from-size n (raw ∷ raws) = elim (Bool-cases (is_blank raw)) [
      | inl blank ↦ rw blank (omega (arith, parse_from-size (suc n) raws))
      | inr full ↦ rw full (
          size-add_parsed (parse_prepass_row lib t n raw) (parse_from lib t account (suc n) raws)
          ∙ ap suc (parse_from-size (suc n) raws))
    ]

    parse_from-has :
        (n : ℕ) (raws : List (List Bytes)) (i : ℕ) (raw : List Bytes)
        → get_elem? raws i ≡ some raw
        → is_blank raw ≡ false
        → HasNumber (n + i) (parse_from lib t account n raws)
    unfolding parse_from
    parse_from-has n [] i raw at full = cc
    parse_from-has n (r ∷ raws) zero raw at full =
        let same : r ≡ raw = cc in
        let here : n ≡ n + 0 = omega arith in
        let p = parse_prepass_row lib t n r in
        rw (ap is_blank same ∙ full) (
          subst (λ k. HasNumber k (add_parsed lib p (parse_from lib t account (suc n) raws)))
            (parse_prepass_row-number t n r ∙ here)
            (add_parsed-first p (parse_from lib t account (suc n) raws)))
    parse_from-has n (r ∷ raws) (suc i) raw at full =
        let shift : suc n + i ≡ n + suc i = omega arith in
        let rest = parse_from lib t account (suc n) raws in
        let h = subst (λ k. HasNumber k rest) shift (parse_from-has (suc n) raws i raw at full) in
        elim (Bool-cases (is_blank r)) [
          | inl blank ↦ rw blank h
          | inr there ↦ rw there (add_parsed-later (parse_prepass_row lib t n r) rest (n + suc i) h)
        ]

  assign_from-length :
      (pt : ProviderType) (rs : List (Row lib)) (seen : List (Bytes × ℕ))
      → length (assign_from lib pt seen rs) ≡ length rs
  unfolding assign_from
  assign_from-length pt [] seen = refl
  assign_from-length pt (r ∷ rs) seen = ap suc (assign_from-length pt rs _)

  assign_from-numbers :
      (pt : ProviderType) (n : ℕ) (rs : List (Row lib)) (seen : List (Bytes × ℕ))
      → Any (λ r. r.row_number ≡ n) rs
      → Any (λ r. r.row_number ≡ n) (assign_from lib pt seen rs)
  unfolding assign_from
  assign_from-numbers pt n [] seen h = h
  assign_from-numbers pt n (r ∷ rs) seen (inl e) = inl e
  assign_from-numbers pt n (r ∷ rs) seen (inr h) = inr (assign_from-numbers pt n rs _ h)

  -- Every row below the header is a transaction, an error or a blank row that is counted, none of them
  -- twice; a row with content is found, by its number in the sheet, among the transactions or the errors.
  pub parse_table_lem :
      (account : Bytes) (t : Table)
      → let res = parse_table lib account t in
        (length res.rows + length res.errors + res.skipped ≡ length t.rows)
        × ((i : ℕ) (raw : List Bytes)
            → get_elem? t.rows i ≡ some raw
            → is_blank raw ≡ false
            → HasNumber (suc t.header_row + i) res)
  unfolding parse_table assign_hashes
  parse_table_lem account t =
      let res = parse_from lib t account (suc t.header_row) t.rows in
      (
        omega (
          arith,
          parse_from-size t account (suc t.header_row) t.rows,
          assign_from-length prepass_sftp res.rows [],
        ),
        λ i raw at full. elim (parse_from-has t account (suc t.header_row) t.rows i raw at full) [
          | inl h ↦ inl (assign_from-numbers prepass_sftp (suc t.header_row + i) res.rows [] h)
          | inr h ↦ inr h
        ],
      )
