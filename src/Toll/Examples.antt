-- ===== src/Toll/Examples.antt =====
-- The theorems on toll files at concrete sheets: amounts and times are whole numbers, and the digest of a text
-- is the text.
use backend_pkg.Common.{
  ℕ, suc, ◌+◌, ◌≤◌, ◌≡◌, ◌≢◌, refl, false, List, [], ◌∷◌, ◌++◌, map, Bytes, codes, Option, none,
  some, itoa, atoi, ℤ, pos, negsuc, length, get_elem?, arith, ◌=ᵇ◌, ◌==◌, lookup, insert,
  if◌then◌else◌, All,
}
use backend_pkg.Toll.{TollLibrary}
use backend_pkg.Toll.Normalize.{
  normalize_plate, normalize_truck_ref, parse_file_time, parse_money, money_text,
}
use backend_pkg.Toll.Sheet.{table_at, is_blank, normalize_header, cell}
use backend_pkg.Toll.Sheet.Spacer.{insert_at}
use backend_pkg.Toll.Hashes.{Row, assign_hashes}
use backend_pkg.Toll.Hashes.Distinct.{
  AreDistinct, assign_hashes-AreDistinct, hashes, assign_hashes-resend,
}
use backend_pkg.Toll.PrePass.{
  ParseResult, parse_prepass_row, parse_table, prepass_sftp, parse_read_type,
}
use backend_pkg.Toll.PrePass.Account.{HasNumber, parse_table_lem}
use backend_pkg.Toll.PrePass.Columns.{parse_table_spaced}
use backend_pkg.Toll.Folder.{fetch_within, fetch_within_sound, slash}

abbrev natural : Option ℤ → Option ℕ
natural none = none
natural (some (pos n)) = some n
natural (some (negsuc n)) = none

abbrev lib : TollLibrary
lib = record {
  Decimal = ℕ;
  Float = ℕ;
  Time = ℕ;
  zero_decimal = 0;
  new_from_string = λ s. natural (atoi s);
  negated = λ d. d;
  round_cents = λ d. d;
  fixed_cents = itoa;
  parse_float = λ s. natural (atoi s);
  below = λ f n. false;
  above = λ f n. false;
  whole_seconds = λ f. f;
  part_seconds = λ f. f;
  epoch_plus = λ n. n;
  parse_layout = λ l s. none;
  day_text = itoa;
  instant_text = itoa;
  clock = λ t. (0, 0, 0);
  at_clock = λ t c. t;
  digest = λ s. s;
}

-- The header has a spacer in front of the amount.
abbrev header : List Bytes
header = codes "Post Date" ∷ [] ∷ codes "Toll  $" ∷ codes "Truck ID" ∷ []

abbrev below : List (List Bytes)
below =
    (codes "45535" ∷ [] ∷ codes "$ 12" ∷ codes "008" ∷ [])
    ∷ []
    ∷ (codes "45535" ∷ [] ∷ codes "x" ∷ [])
    ∷ (codes "45535" ∷ [] ∷ codes "12" ∷ [])
    ∷ []

abbrev tab : Bytes
tab = codes "Tolls"

abbrev result : ParseResult lib
result = parse_table lib [] (table_at tab header below 1)

parse_table_lem_example :
    (length result.rows + length result.errors + result.skipped ≡ 4)
    × ((i : ℕ) (raw : List Bytes)
        → get_elem? below i ≡ some raw
        → is_blank raw ≡ false
        → HasNumber lib (suc 1 + i) result)
unfolding table_at
parse_table_lem_example = parse_table_lem lib [] (table_at tab header below 1)

parse_table_spaced_example :
    parse_table lib [] (table_at tab (insert_at 2 [] header) (map (insert_at 2 []) below) 1)
    ≡ result
parse_table_spaced_example = parse_table_spaced lib 2 tab header 1 (omega arith) [] below

two_rows : length result.rows ≡ 2
unfolding parse_table table_at lookup ◌=ᵇ◌ normalize_header atoi money_text assign_hashes is_blank
    parse_prepass_row parse_file_time cell insert parse_money
two_rows = refl

assign_hashes-AreDistinct_example :
    AreDistinct lib prepass_sftp (assign_hashes lib prepass_sftp result.rows)
assign_hashes-AreDistinct_example =
    assign_hashes-AreDistinct lib prepass_sftp (λ s t e. e) result.rows

-- A crossing, and the same with a corrected truck.
abbrev crossing : Bytes → Row lib
crossing truck = record {
  row_number = 2;
  post_date = 45535;
  invoice_date = none;
  entry_at = none;
  exit_at = none;
  source = [];
  agency = codes "FTE";
  read_type = parse_read_type [];
  device_id = codes "016";
  agency_ref = [];
  plate = [];
  truck_ref = truck;
  entry_plaza = [];
  exit_plaza = [];
  class = [];
  miles = [];
  amount = 12;
  hash = [];
  raw = [];
}

assign_hashes-resend_example :
    (more : List Bytes) × (hashes lib prepass_sftp
        (assign_hashes lib prepass_sftp (crossing (codes "9") ∷ crossing [] ∷ []))
      ≡ hashes lib prepass_sftp (assign_hashes lib prepass_sftp (crossing (codes "8") ∷ []))
        ++ more)
assign_hashes-resend_example =
    assign_hashes-resend lib prepass_sftp (crossing (codes "8") ∷ [])
      (crossing (codes "9") ∷ crossing [] ∷ [])
      ((refl, refl, refl, refl, refl, refl, refl, refl), tt)

-- A plate that is itself printed with a dash behind two letters has two forms.
dash_in_plate :
    (normalize_plate (codes "IL-AB-123") ≡ codes "AB123")
    × (normalize_plate (codes "AB-123") ≡ codes "123")
unfolding normalize_plate
dash_in_plate = (refl, refl)

same_unit : normalize_truck_ref (codes " 008") ≡ normalize_truck_ref (codes "8")
unfolding normalize_truck_ref ◌=ᵇ◌
same_unit = refl

abbrev weekly : Bytes → Option Bytes
weekly path = if path =ᵇ codes "in/week.csv" then some (codes "a,b") else none

abbrev in_folder : Bytes → Bytes → Bytes
in_folder dir name = dir ++ (slash ∷ name)

fetch_within_sound_example :
    (b : Bytes) × All (λ c. (c == slash) ≡ false) b
    × (b ≢ [])
    × (b ≢ codes ".")
    × (b ≢ codes "..")
    × (weekly (in_folder (codes "in") b) ≡ some (codes "a,b"))
    × (length (codes "a,b") ≤ 100)
unfolding fetch_within ◌=ᵇ◌
fetch_within_sound_example =
    fetch_within_sound weekly in_folder 100 (codes "in") (codes "../x/week.csv") (codes "a,b") refl
