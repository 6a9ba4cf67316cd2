-- ===== src/Toll/PrePass.antt =====
-- client/toll/prepass.go: from the sheets of a file to the rows. The provider's connection is in Credential and
-- Folder.
pub mod Account
pub mod Columns
use backend_pkg.Common.{
  ℕ, suc, ◌+◌, ◌*◌, ◌/◌, ◌%◌, ◌≡◌, Bool, true, false, ◌&&◌, ◌||◌, not, List, [], ◌∷◌, Bytes, codes,
  ◌=ᵇ◌, ◌==◌, if◌then◌else◌, Option, none, some, trim_space, to_lower, contains, is_some,
}
use backend_pkg.Toll.{TollLibrary}
use backend_pkg.Toll.Normalize.{
  parse_file_time, parse_money, normalize_plate, normalize_truck_ref, normalize_device_id,
  first_layout,
}
use backend_pkg.Toll.Sheet.{
  Sheet, Table, Readers, read_sheets, find_table, cell, row_map, is_blank, normalize_header, key_of,
}
use backend_pkg.Toll.Hashes.{
  Row, ReadType, read_transponder, read_plate, read_unknown, assign_hashes, ProviderType,
}

abbrev pub prepass_sftp : ProviderType
prepass_sftp = codes "prepass_sftp"

abbrev pub col_post_date : Bytes
col_post_date = codes "Post Date"

abbrev pub col_amount : Bytes
col_amount = codes "Toll $"

abbrev col_account : Bytes
col_account = codes "Account"

-- Why a row was not read, with its number, the column and the cell.
pub data RowFault : Type 0 where
  unreadable_date not_money : RowFault

pub record RowError : Type 0 where
  pub row_number : ℕ
  pub column : Bytes
  pub value : Bytes
  pub fault : RowFault

unfoldable pub parse_read_type : Bytes → ReadType
unfolding trim_space contains
parse_read_type s =
    let t = to_lower (trim_space s) in
    if contains (codes "transponder" ∷ codes "tag" ∷ codes "toll tag" ∷ []) t
    then read_transponder
    else if contains
        (codes "plate"
          ∷ codes "licence plate"
          ∷ codes "license plate"
          ∷ codes "image"
          ∷ codes "video"
          ∷ [])
        t
    then read_plate
    else read_unknown

abbrev is_plate : ReadType → Bool
is_plate read_plate = true
is_plate read_transponder = false
is_plate read_unknown = false

time_of_day_layouts : List Bytes
time_of_day_layouts = codes "15:04:05" ∷ codes "15:04" ∷ codes "3:04:05 PM" ∷ codes "3:04 PM" ∷ []

module _ (lib : TollLibrary) where
  open lib use {Time, Float, parse_float, below, part_seconds, clock, at_clock}

  abbrev split_seconds : ℕ → ℕ × ℕ × ℕ
  split_seconds secs = (secs / 3600, secs % 3600 / 60, secs % 60)

  -- A part of a day as a fraction; 0 and more, below 1.
  fraction_clock : Option Float → Option (ℕ × ℕ × ℕ)
  fraction_clock none = none
  fraction_clock (some f) =
      if not (below f 0) && below f 1 then some (split_seconds (part_seconds f)) else none

  clock_or : Option Time → Option (ℕ × ℕ × ℕ) → Option (ℕ × ℕ × ℕ)
  clock_or none other = other
  clock_or (some t) other = some (clock t)

  unfoldable pub parse_time_of_day : Bytes → Option (ℕ × ℕ × ℕ)
  unfolding fraction_clock clock_or time_of_day_layouts trim_space ◌=ᵇ◌
  parse_time_of_day s =
      let v = trim_space s in
      if v =ᵇ []
      then none
      else clock_or (parse_file_time lib v)
          (clock_or (first_layout lib time_of_day_layouts v) (fraction_clock (parse_float v)))

  abbrev is_midnight : ℕ × ℕ × ℕ → Bool
  is_midnight (h, m, s) = h == 0 && (m == 0 && s == 0)

  spliced : Time → Option (ℕ × ℕ × ℕ) → Time
  spliced d none = d
  spliced d (some c) = at_clock d c

  -- From here on a row is read through `cell_of`, its cell for the name of a column.
  module _ (cell_of : Bytes → Bytes) where
    with_clock : Bytes → Option Time → Option Time
    unfolding spliced
    with_clock time_col none = none
    with_clock time_col (some d) =
        some (if is_midnight (clock d) then spliced d (parse_time_of_day (cell_of time_col)) else d)

    unfoldable pub combine_date_time : Bytes → Bytes → Option Time
    unfolding with_clock
    combine_date_time date_col time_col =
        with_clock time_col (parse_file_time lib (cell_of date_col))

    row_at : ℕ → List (Bytes × Bytes) → Time → lib.Decimal → Row lib
    unfolding combine_date_time
    row_at row_num raw post amount =
        let read_type = parse_read_type (cell_of (codes "Read Type")) in
        let agency_ref = trim_space (cell_of (codes "Toll Device ID or Plate")) in
        record {
          row_number = row_num;
          post_date = post;
          invoice_date = parse_file_time lib (cell_of (codes "Invoice Date"));
          entry_at = combine_date_time (codes "Entry Date") (codes "Entry Time");
          exit_at = combine_date_time (codes "Exit Date") (codes "Exit Time");
          source = trim_space (cell_of (codes "Source"));
          agency = trim_space (cell_of (codes "Agency"));
          read_type = read_type;
          device_id = normalize_device_id (cell_of (codes "PP Device ID"));
          agency_ref = agency_ref;
          plate = if is_plate read_type then normalize_plate agency_ref else [];
          truck_ref = normalize_truck_ref (cell_of (codes "Truck ID"));
          entry_plaza = trim_space (cell_of (codes "Entry Plaza"));
          exit_plaza = trim_space (cell_of (codes "Exit Plaza"));
          class = trim_space (cell_of (codes "Cl"));
          miles = trim_space (cell_of (codes "Mi"));
          amount = amount;
          hash = [];
          raw = raw;
        }

  pub data ParsedRow : Type 0 where
    bad_row : RowError → ParsedRow
    good_row : Row lib → ParsedRow

  read_amount : (Bytes → Bytes) → ℕ → List (Bytes × Bytes) → Time → Option lib.Decimal → ParsedRow
  unfolding row_at
  read_amount cell_of row_num raw post none = bad_row (record {
    row_number = row_num;
    column = col_amount;
    value = cell_of col_amount;
    fault = not_money;
  })
  read_amount cell_of row_num raw post (some amount) =
      good_row (row_at cell_of row_num raw post amount)

  read_row : (Bytes → Bytes) → ℕ → List (Bytes × Bytes) → Option Time → ParsedRow
  unfolding read_amount
  read_row cell_of row_num raw none = bad_row (record {
    row_number = row_num;
    column = col_post_date;
    value = cell_of col_post_date;
    fault = unreadable_date;
  })
  read_row cell_of row_num raw (some post) =
      read_amount cell_of row_num raw post (parse_money lib (cell_of col_amount))

  unfoldable pub read_named : (Bytes → Bytes) → List (Bytes × Bytes) → ℕ → ParsedRow
  unfolding read_row
  read_named cell_of raw row_num =
      read_row cell_of row_num raw (parse_file_time lib (cell_of col_post_date))

  unfoldable pub parse_prepass_row : Table → ℕ → List Bytes → ParsedRow
  unfolding read_named
  parse_prepass_row t row_num row = read_named (cell t row) (row_map t row) row_num

  pub record ParseResult : Type 0 where
    pub account : Bytes
    pub rows : List (Row lib)
    pub errors : List RowError
    pub skipped : ℕ

  abbrev pub add_parsed : ParsedRow → ParseResult → ParseResult
  add_parsed (bad_row e) res = record res { errors = e ∷ res.errors }
  add_parsed (good_row r) res = record res { rows = r ∷ res.rows }

  -- The loop, from the row with number `row_num` on.
  unfoldable pub parse_from : Table → Bytes → ℕ → List (List Bytes) → ParseResult
  parse_from t account row_num [] = record {
    account = account;
    rows = [];
    errors = [];
    skipped = 0;
  }
  parse_from t account row_num (raw ∷ raws) =
      let rest = parse_from t account (suc row_num) raws in
      if is_blank raw
      then record rest { skipped = suc rest.skipped }
      else add_parsed (parse_prepass_row t row_num raw) rest

  -- The first cell with content behind a label.
  first_content : List Bytes → Bytes
  first_content [] = []
  first_content (v ∷ vs) =
      let rest = first_content vs in if trim_space v =ᵇ [] then rest else trim_space v

  abbrev or_else : Bytes → Bytes → Bytes
  or_else [] rest = rest
  or_else (c ∷ s) rest = c ∷ s

  account_in_row : List Bytes → Bytes
  account_in_row [] = []
  account_in_row (v ∷ vs) =
      let rest = account_in_row vs in
      if key_of v =ᵇ to_lower col_account then or_else (first_content vs) rest else rest

  account_in_rows : List (List Bytes) → Bytes
  account_in_rows [] = []
  account_in_rows (r ∷ rs) = or_else (account_in_row r) (account_in_rows rs)

  unfoldable pub find_account : List Sheet → Bytes → Bytes
  unfolding account_in_rows account_in_row first_content
  find_account [] data_sheet = []
  find_account (s ∷ ss) data_sheet =
      let rest = find_account ss data_sheet in
      if s.name =ᵇ data_sheet then rest else or_else (account_in_rows s.rows) rest

  unfoldable pub parse_table : Bytes → Table → ParseResult
  unfolding parse_from
  parse_table account t =
      let res = parse_from t account (suc t.header_row) t.rows in
      record res { rows = assign_hashes lib prepass_sftp res.rows }

  parse_sheets : List Sheet → Option Table → Option ParseResult
  unfolding parse_table find_account
  parse_sheets sheets none = none
  parse_sheets sheets (some t) = some (parse_table (find_account sheets t.sheet) t)

  parse_read : Option (List Sheet) → Option ParseResult
  unfolding parse_sheets
  parse_read none = none
  parse_read (some sheets) =
      parse_sheets sheets (find_table sheets (col_post_date ∷ (col_amount ∷ [])))

  -- None if the file cannot be read or has no sheet of PrePass.
  unfoldable pub parse : Readers → Bytes → Bytes → Option ParseResult
  unfolding parse_read
  parse readers name content = parse_read (read_sheets readers name content)
