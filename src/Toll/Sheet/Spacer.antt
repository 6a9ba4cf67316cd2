-- ===== src/Toll/Sheet/Spacer.antt =====
-- A spacer column in a sheet of client/toll/sheet.go, wherever it stands, changes nothing that is read by name.
use backend_pkg.Common.{
  ℕ, zero, suc, ◌+◌, ◌≤◌, ◌≡◌, refl, sym, ap, ◌∙◌, List, [], ◌∷◌, map, Bytes, ◌=ᵇ◌, =ᵇ→eq,
  if◌then◌else◌, Option, none, some, is_some, lookup, insert, lookup-insert, to_lower, length,
  get_elem?, arith, Bool-cases, Option-cases, subst, inl, inr,
}
use backend_pkg.Toll.Sheet.{
  Table, table_at, index_from, normalize_header, key_of, cell, value_in, trimmed, row_map,
  row_map_from,
}

-- A row that is too short stays as it is.
unfoldable pub insert_at {ℓ} : {A : Type ℓ} → ℕ → A → List A → List A
insert_at zero x xs = x ∷ xs
insert_at (suc n) x [] = []
insert_at (suc n) x (y ∷ ys) = y ∷ insert_at n x ys

-- Where a column stands after a column was put at place `n`.
abbrev moved : ℕ → ℕ → ℕ
moved zero i = suc i
moved (suc n) zero = zero
moved (suc n) (suc i) = suc (moved n i)

abbrev map_option : (ℕ → ℕ) → Option ℕ → Option ℕ
map_option f none = none
map_option f (some i) = some (f i)

-- The first column whose header has the key, spacers aside.
position : Bytes → List Bytes → Option ℕ
position k [] = none
position k (h ∷ hs) =
    let rest = map_option suc (position k hs) in
    if h =ᵇ [] then rest else if to_lower h =ᵇ k then some 0 else rest

abbrev either : Option ℕ → Option ℕ → Option ℕ
either none o = o
either (some i) o = some i

either-none : (o : Option ℕ) → either o none ≡ o
either-none none = refl
either-none (some i) = refl

-- Behind a first column, the others are counted from one place on.
count_on :
    (c : ℕ) (o p : Option ℕ)
    → either o (map_option (λ i. suc c + i) p)
      ≡ either o (map_option (λ i. c + i) (map_option suc p))
count_on c (some j) p = refl
count_on c none none = refl
count_on c none (some i) = ap some (omega arith)

-- One step of the loop: the header's column, unless it is a spacer or its name is there.
abbrev entered : ℕ → Bytes → List (Bytes × ℕ) → List (Bytes × ℕ)
entered c h m =
    if h =ᵇ [] then m else if is_some (lookup (to_lower h) m) then m else insert (to_lower h) c m

abbrev first_is : Bytes → Bytes → Option ℕ → Option ℕ
first_is k h rest = if h =ᵇ [] then rest else if to_lower h =ᵇ k then some 0 else rest

either_first :
    (k : Bytes) (c : ℕ) (h : Bytes) (m : List (Bytes × ℕ)) (p : Option ℕ)
    → either (lookup k (entered c h m)) (map_option (λ i. suc c + i) p)
      ≡ either (lookup k m) (map_option (λ i. c + i) (first_is k h (map_option suc p)))
either_first k c h m p = elim (Bool-cases (h =ᵇ [])) [
  | inl spacer ↦ rw spacer (count_on c (lookup k m) p)
  | inr named ↦ elim (Option-cases (lookup (to_lower h) m)) [
    | inl new ↦ elim (Bool-cases (to_lower h =ᵇ k)) [
      | inl hit ↦
          let absent : lookup k m ≡ none =
            subst (λ t. lookup t m ≡ none) (=ᵇ→eq (to_lower h) k hit) new in
          let start : c ≡ c + 0 = omega arith in
          rw (named, new, lookup-insert (to_lower h) k c m, hit, absent) (ap some start)
      | inr miss ↦
          rw (named, new, lookup-insert (to_lower h) k c m, miss) (count_on c (lookup k m) p)
    ]
    | inr (j, old) ↦ elim (Bool-cases (to_lower h =ᵇ k)) [
      | inl hit ↦
          let there : lookup k m ≡ some j =
            subst (λ t. lookup t m ≡ some j) (=ᵇ→eq (to_lower h) k hit) old in
          rw (named, old, hit, there) refl
      | inr miss ↦ rw (named, old, miss) (count_on c (lookup k m) p)
    ]
  ]
]

index_from-position :
    (k : Bytes) (c : ℕ) (hs : List Bytes) (m : List (Bytes × ℕ))
    → lookup k (index_from c hs m) ≡ either (lookup k m) (map_option (λ i. c + i) (position k hs))
unfolding index_from position
index_from-position k c [] m = sym (either-none (lookup k m))
index_from-position k c (h ∷ hs) m =
    index_from-position k (suc c) hs (entered c h m) ∙ either_first k c h m (position k hs)

get_elem?-insert_at {ℓ} :
    {A : Type ℓ} (n : ℕ) (x : A) (row : List A) (i : ℕ)
    → get_elem? (insert_at n x row) (moved n i) ≡ get_elem? row i
unfolding insert_at
get_elem?-insert_at zero x row i = refl
get_elem?-insert_at (suc n) x [] i = ground arith
get_elem?-insert_at (suc n) x (y ∷ ys) zero = refl
get_elem?-insert_at (suc n) x (y ∷ ys) (suc i) = get_elem?-insert_at n x ys i

map_suc : (p : Option ℕ) → map_option suc p ≡ map_option (moved 0) p
map_suc none = refl
map_suc (some i) = refl

map_suc-moved :
    (n : ℕ) (p : Option ℕ)
    → map_option suc (map_option (moved n) p) ≡ map_option (moved (suc n)) (map_option suc p)
map_suc-moved n none = refl
map_suc-moved n (some i) = refl

first_is-moved :
    (k h : Bytes) (n : ℕ) (p : Option ℕ)
    → first_is k h (map_option (moved (suc n)) (map_option suc p))
      ≡ map_option (moved (suc n)) (first_is k h (map_option suc p))
first_is-moved k h n p = ground arith

position-insert_at :
    (k : Bytes) (n : ℕ) (hs : List Bytes)
    → n ≤ length hs
    → position k (insert_at n [] hs) ≡ map_option (moved n) (position k hs)
unfolding position insert_at ◌=ᵇ◌
position-insert_at k zero hs h = map_suc (position k hs)
position-insert_at k (suc n) [] h = absurd (omega arith)
position-insert_at k (suc n) (g ∷ hs) h =
    let e = position-insert_at k n hs (omega arith) in
    ap (first_is k g) (ap (map_option suc) e ∙ map_suc-moved n (position k hs))
    ∙ first_is-moved k g n (position k hs)

row_map_from-insert_at :
    (n : ℕ) (v : Bytes) (hs row : List Bytes) (m : List (Bytes × Bytes))
    → row_map_from (insert_at n [] hs) (insert_at n v row) m ≡ row_map_from hs row m
unfolding row_map_from insert_at ◌=ᵇ◌
row_map_from-insert_at zero v hs row m = refl
row_map_from-insert_at (suc n) v [] row m = refl
row_map_from-insert_at (suc n) v (h ∷ hs) [] m = refl
row_map_from-insert_at (suc n) v (h ∷ hs) (w ∷ ws) m = row_map_from-insert_at n v hs ws _

value_in-insert_at :
    (n : ℕ) (v : Bytes) (row : List Bytes) (p : Option ℕ)
    → value_in (insert_at n v row) (map_option (moved n) p) ≡ value_in row p
value_in-insert_at n v row none = refl
value_in-insert_at n v row (some i) = ap trimmed (get_elem?-insert_at n v row i)

map-insert_at :
    (n : ℕ) (hs : List Bytes)
    → map normalize_header (insert_at n [] hs) ≡ insert_at n [] (map normalize_header hs)
unfolding insert_at normalize_header
map-insert_at zero hs = refl
map-insert_at (suc n) [] = refl
map-insert_at (suc n) (h ∷ hs) = ap (λ t. normalize_header h ∷ t) (map-insert_at n hs)

length-map : (hs : List Bytes) → length (map normalize_header hs) ≡ length hs
length-map [] = refl
length-map (h ∷ hs) = ap suc (length-map hs)

count_from_zero : (p : Option ℕ) → map_option (λ i. 0 + i) p ≡ p
count_from_zero none = refl
count_from_zero (some i) = ap some (omega arith)

column-position :
    (k : Bytes) (sheet : Bytes) (raw : List Bytes) (below : List (List Bytes)) (i : ℕ)
    → lookup k (table_at sheet raw below i).index ≡ position k (map normalize_header raw)
unfolding table_at lookup
column-position k sheet raw below i =
    let hs = map normalize_header raw in
    index_from-position k 0 hs [] ∙ count_from_zero (position k hs)

-- A column without a header, put before any column of the sheet or behind the last, and whatever its
-- cell holds in the row: every column that is asked for by its name has the same value in the row, and
-- the map of the whole row is the same.
module _ (n : ℕ) (v : Bytes) (sheet : Bytes) (header row : List Bytes)
    (below below' : List (List Bytes)) (i : ℕ) (wide : n ≤ length header) where
  abbrev before : Table
  before = table_at sheet header below i

  abbrev after : Table
  after = table_at sheet (insert_at n [] header) below' i

  pub cell-insert_at : (name : Bytes) → cell after (insert_at n v row) name ≡ cell before row name
  unfolding cell
  cell-insert_at name =
      let k = key_of name in
      let hs = map normalize_header header in
      let columns =
        column-position k sheet (insert_at n [] header) below' i
        ∙ ap (position k) (map-insert_at n header)
        ∙ position-insert_at k n hs (omega (arith, length-map header))
        ∙ ap (map_option (moved n)) (sym (column-position k sheet header below i)) in
      ap (value_in (insert_at n v row)) columns
      ∙ value_in-insert_at n v row (lookup (key_of name) before.index)

  pub row_map-insert_at : row_map after (insert_at n v row) ≡ row_map before row
  unfolding row_map table_at
  row_map-insert_at =
      ap (λ hs. row_map_from hs (insert_at n v row) []) (map-insert_at n header)
      ∙ row_map_from-insert_at n v (map normalize_header header) row []
