-- ===== src/Toll/PrePass/Columns.antt =====
-- A spacer column in a file that client/toll/prepass.go parses.
use mathlib.Core.Path.{fun_ext}
use backend_pkg.Common.{
  ℕ, zero, suc, ◌≤◌, ◌≡◌, refl, ap, ◌∙◌, List, [], ◌∷◌, map, Bytes, ◌=ᵇ◌, length, arith,
}
use backend_pkg.Toll.{TollLibrary}
use backend_pkg.Toll.Sheet.{Table, table_at, cell, row_map, is_blank}
use backend_pkg.Toll.Sheet.Spacer.{insert_at, cell-insert_at, row_map-insert_at}
use backend_pkg.Toll.Hashes.{assign_hashes}
use backend_pkg.Toll.PrePass.{
  ParseResult, read_named, parse_prepass_row, parse_from, parse_table, prepass_sftp,
}

is_blank-insert_at : (n : ℕ) (row : List Bytes) → is_blank (insert_at n [] row) ≡ is_blank row
unfolding is_blank insert_at ◌=ᵇ◌
is_blank-insert_at zero row = refl
is_blank-insert_at (suc n) [] = refl
is_blank-insert_at (suc n) (v ∷ vs) = ground (arith, is_blank-insert_at n vs)

module _ (lib : TollLibrary) (n : ℕ) (sheet : Bytes) (header : List Bytes) (i : ℕ)
    (wide : n ≤ length header) where
  abbrev spaced : List (List Bytes) → List (List Bytes)
  spaced = map (insert_at n [])

  abbrev plain_table : List (List Bytes) → Table
  plain_table below = table_at sheet header below i

  abbrev spaced_table : List (List Bytes) → Table
  spaced_table below = table_at sheet (insert_at n [] header) (spaced below) i

  parse_row_same :
      (below : List (List Bytes)) (k : ℕ) (row : List Bytes)
      → parse_prepass_row lib (spaced_table below) k (insert_at n [] row)
        ≡ parse_prepass_row lib (plain_table below) k row
  unfolding parse_prepass_row
  parse_row_same below k row =
      ap (λ f. read_named lib f (row_map (spaced_table below) (insert_at n [] row)) k)
        (fun_ext (cell-insert_at n [] sheet header row below (spaced below) i wide))
      ∙ ap (λ m. read_named lib (cell (plain_table below) row) m k)
          (row_map-insert_at n [] sheet header row below (spaced below) i wide)

  parse_from_same :
      (below : List (List Bytes)) (account : Bytes) (k : ℕ) (raws : List (List Bytes))
      → parse_from lib (spaced_table below) account k (spaced raws)
        ≡ parse_from lib (plain_table below) account k raws
  unfolding parse_from
  parse_from_same below account k [] = refl
  parse_from_same below account k (raw ∷ raws) =
      rw
        (
          is_blank-insert_at n raw,
          parse_row_same below k raw,
          parse_from_same below account (suc k) raws,
        )
        refl

  -- A column without content, in the header and in every row that is long enough, wherever it is put,
  -- changes nothing of what a file is parsed to: not the transactions and their keys, not the errors.
  pub parse_table_spaced :
      (account : Bytes) (below : List (List Bytes))
      → parse_table lib account (spaced_table below) ≡ parse_table lib account (plain_table below)
  unfolding parse_table table_at
  parse_table_spaced account below =
      ap (λ (res : ParseResult lib). record res { rows = assign_hashes lib prepass_sftp res.rows })
        (parse_from_same below account (suc i) below)
