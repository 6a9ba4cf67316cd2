-- ===== src/Toll/Sheet.antt =====
-- client/toll/sheet.go: a sheet of cells, and the table in it, whose columns are found by their names. What
-- the readers of xlsx and csv make of a file comes from outside.
pub mod Spacer
use backend_pkg.Common.{
  ℕ, zero, suc, ◌+◌, ◌≡◌, Bool, true, false, ◌&&◌, ◌||◌, not, List, [], ◌∷◌, ◌++◌, map, Bytes,
  codes, ◌=ᵇ◌, ◌==◌, ltb, if◌then◌else◌, Option, none, some, is_some, trim_space, to_lower,
  is_space, length, get_elem?, lookup, insert, has_prefix, contains,
}

abbrev header_scan_depth : ℕ
header_scan_depth = 10

pub record Sheet : Type 0 where
  pub name : Bytes
  pub rows : List (List Bytes)

pub record Table : Type 0 where
  pub sheet : Bytes
  pub headers : List Bytes
  pub index : List (Bytes × ℕ)
  pub rows : List (List Bytes)
  pub header_row : ℕ

-- `strings.Fields`: the words between white space; `word` is the one that is being read.
flush : Bytes → List Bytes → List Bytes
flush [] words = words
flush (c ∷ s) words = (c ∷ s) ∷ words

fields_from : Bytes → Bytes → List Bytes
unfolding flush
fields_from word [] = flush word []
fields_from word (c ∷ s) =
    let rest = fields_from (if is_space c then [] else word ++ (c ∷ [])) s in
    if is_space c then flush word rest else rest

join_words : List Bytes → Bytes
join_words [] = []
join_words (w ∷ []) = w
join_words (w ∷ (v ∷ ws)) = w ++ (b' ' ∷ join_words (v ∷ ws))

unfoldable pub normalize_header : Bytes → Bytes
unfolding fields_from join_words
normalize_header s = join_words (fields_from [] s)

-- The separator that stands most often in the first line, the first of those that tie.
count_byte : ℕ → Bytes → ℕ
count_byte b [] = 0
count_byte b (c ∷ s) = let n = count_byte b s in if c == b then suc n else n

first_line : Bytes → Bytes
first_line [] = []
first_line (c ∷ s) = let rest = first_line s in if c == b'\n' then [] else c ∷ rest

best_of : Bytes → List ℕ → ℕ → ℕ → ℕ
best_of line [] best n = best
best_of line (c ∷ cs) best n =
    let m = count_byte c line in
    best_of line cs (if ltb n m then c else best) (if ltb n m then m else n)

unfoldable sniff_delimiter : Bytes → ℕ
unfolding best_of count_byte first_line
sniff_delimiter content = best_of (first_line content) (b',' ∷ b';' ∷ b'\t' ∷ b'|' ∷ []) b',' 0

-- `filepath.Ext`: the text from the last dot behind the last slash.
ext_from : Bytes → Bytes → Bytes
ext_from found [] = found
ext_from found (c ∷ s) = ext_from (if c == b'.' then c ∷ s else if c == b'/' then [] else found) s

unfoldable ext : Bytes → Bytes
unfolding ext_from
ext = ext_from []

without_bom : Bytes → Bytes
without_bom [] = []
without_bom (a ∷ []) = a ∷ []
without_bom (a ∷ (b ∷ [])) = a ∷ (b ∷ [])
without_bom (a ∷ (b ∷ (c ∷ s))) =
    if a == 0xEF && (b == 0xBB && c == 0xBF) then s else a ∷ (b ∷ (c ∷ s))

-- excelize and encoding/csv: the sheets of a workbook, and the records for a separator.
pub record Readers : Type 0 where
  pub xlsx_sheets : Bytes → Option (List Sheet)
  pub csv_records : ℕ → Bytes → Option (List (List Bytes))

-- A file without sheets or rows is an error too.
nonempty_sheets : Option (List Sheet) → Option (List Sheet)
nonempty_sheets none = none
nonempty_sheets (some []) = none
nonempty_sheets (some (s ∷ ss)) = some (s ∷ ss)

csv_sheets : Option (List (List Bytes)) → Option (List Sheet)
csv_sheets none = none
csv_sheets (some []) = none
csv_sheets (some (r ∷ rs)) = some (record { name = codes "csv"; rows = r ∷ rs } ∷ [])

unfoldable pub read_sheets : Readers → Bytes → Bytes → Option (List Sheet)
unfolding nonempty_sheets csv_sheets without_bom sniff_delimiter ext contains
read_sheets readers name content =
    let plain = without_bom content in
    if content =ᵇ []
    then none
    else if contains (codes ".xlsx" ∷ codes ".xlsm" ∷ codes ".xls" ∷ []) (to_lower (ext name))
    then nonempty_sheets (readers.xlsx_sheets content)
    else csv_sheets (readers.csv_records (sniff_delimiter plain) plain)

-- The loop of `tableAt` from column `c` on: the first column of a name counts, a spacer has none.
unfoldable pub index_from : ℕ → List Bytes → List (Bytes × ℕ) → List (Bytes × ℕ)
index_from c [] m = m
index_from c (h ∷ hs) m =
    index_from (suc c) hs (
      if h =ᵇ [] then m else if is_some (lookup (to_lower h) m) then m else insert (to_lower h) c m)

unfoldable pub table_at : Bytes → List Bytes → List (List Bytes) → ℕ → Table
unfolding index_from
table_at sheet raw below header_row = record {
  sheet = sheet;
  headers = map normalize_header raw;
  index = index_from 0 (map normalize_header raw) [];
  rows = below;
  header_row = header_row;
}

abbrev pub key_of : Bytes → Bytes
key_of name = to_lower (normalize_header name)

abbrev has_each : Table → List Bytes → Bool
has_each t [] = true
has_each t (n ∷ ns) = is_some (lookup (key_of n) t.index) && has_each t ns

unfoldable pub has_all : Table → List Bytes → Bool
has_all t [] = false
has_all t (n ∷ ns) = has_each t (n ∷ ns)

unfoldable pub has : Table → Bytes → Bool
has t name = is_some (lookup (key_of name) t.index)

abbrev pub trimmed : Option Bytes → Bytes
trimmed none = []
trimmed (some v) = trim_space v

abbrev pub value_in : List Bytes → Option ℕ → Bytes
value_in row none = []
value_in row (some c) = trimmed (get_elem? row c)

unfoldable pub cell : Table → List Bytes → Bytes → Bytes
cell t row name = value_in row (lookup (key_of name) t.index)

-- A later column of the same name overwrites an earlier one; spacers and empty values are left out.
unfoldable pub row_map_from : List Bytes → List Bytes → List (Bytes × Bytes) → List (Bytes × Bytes)
row_map_from [] row m = m
row_map_from (h ∷ hs) [] m = m
row_map_from (h ∷ hs) (v ∷ vs) m =
    row_map_from hs vs
      (if h =ᵇ [] then m else if trim_space v =ᵇ [] then m else insert h (trim_space v) m)

unfoldable pub row_map : Table → List Bytes → List (Bytes × Bytes)
unfolding row_map_from
row_map t row = row_map_from t.headers row []

unfoldable pub is_blank : List Bytes → Bool
unfolding trim_space
is_blank [] = true
is_blank (v ∷ vs) = trim_space v =ᵇ [] && is_blank vs

-- The first of the leading rows that is a header; `i` counts the rows above.
header_in : Bytes → List Bytes → ℕ → ℕ → List (List Bytes) → Option Table
header_in sheet required zero i rows = none
header_in sheet required (suc depth) i [] = none
header_in sheet required (suc depth) i (r ∷ rs) =
    let rest = header_in sheet required depth (suc i) rs in
    let t = table_at sheet r rs (suc i) in if has_all t required then some t else rest

unfoldable pub find_table : List Sheet → List Bytes → Option Table
unfolding header_in
find_table [] required = none
find_table (s ∷ ss) required =
    let rest = find_table ss required in
    elim (header_in s.name required header_scan_depth 0 s.rows) [ none ↦ rest | some t ↦ some t ]
