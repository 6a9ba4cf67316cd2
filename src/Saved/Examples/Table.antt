-- ===== src/Saved/Examples/Table.antt =====
-- A table of savedfilter/repository.go that takes the rows of the user 3 only.
use backend_pkg.Common.{
  suc, ◌≡◌, ◌≢◌, refl, sym, ap, ◌∙◌, subst, inl, inr, Bool, true, false, List, [], ◌∷◌, ◌++◌, codes,
  ◌==◌, ==→eq, if◌then◌else◌, Option, none, some, length, keep, Any, Bool-cases, arith,
}
use backend_pkg.Auth.Actor.{Uuid}
use backend_pkg.Saved.Repository.{SavedFilter, is_counted, FilterRepository}

unfoldable pub find_in : Uuid → List SavedFilter → Option SavedFilter
find_in i [] = none
find_in i (g ∷ gs) = if g.id == i then some g else find_in i gs

unfoldable pub put_in : Uuid → SavedFilter → List SavedFilter → List SavedFilter
put_in i f [] = []
put_in i f (g ∷ gs) = if g.id == i then f ∷ gs else g ∷ put_in i f gs

unfoldable pub cut_in : Uuid → List SavedFilter → List SavedFilter
cut_in i [] = []
cut_in i (g ∷ gs) = if g.id == i then gs else g ∷ cut_in i gs

some_injective : (f g : SavedFilter) → some f ≡ some g → f ≡ g
some_injective f g e = cc

find_in_lem :
    (i : Uuid) (s : List SavedFilter) (g : SavedFilter)
    → find_in i s ≡ some g
    → (g.id ≡ i) × Any (λ h. h ≡ g) s
unfolding find_in
find_in_lem i [] g h = cc
find_in_lem i (k ∷ s) g h = elim (Bool-cases (k.id == i)) [
  | inl e ↦
      let same = some_injective k g (rw e at h) in
      (ap (λ (x : SavedFilter). x.id) (sym same) ∙ ==→eq k.id i e, inl same)
  | inr e ↦ let (id, row) = find_in_lem i s g (rw e at h) in (id, inr row)
]

-- The first row of a key, and what is put in its place.
replaced_in :
    (i : Uuid) (s : List SavedFilter) (f g : SavedFilter)
    → find_in i s ≡ some g
    → (xs ys : List SavedFilter) × (s ≡ xs ++ (g ∷ ys))
      × (put_in i f s ≡ xs ++ (f ∷ ys))
      × (cut_in i s ≡ xs ++ ys)
unfolding find_in put_in cut_in
replaced_in i [] f g h = cc
replaced_in i (k ∷ s) f g h = elim (Bool-cases (k.id == i)) [
  | inl e ↦
      let same = some_injective k g (rw e at h) in
      ([], s, ap (λ x. x ∷ s) same, rw e refl, rw e refl)
  | inr e ↦
      let (xs, ys, a, b, c) = replaced_in i s f g (rw e at h) in
      (k ∷ xs, ys, ap (λ t. k ∷ t) a, rw e (ap (λ t. k ∷ t) b), rw e (ap (λ t. k ∷ t) c))
]

abbrev pub rows_of : List SavedFilter → Uuid → List SavedFilter
rows_of s u = if u == 3 then s else []

abbrev pub of_3 : Option SavedFilter → Option SavedFilter
of_3 none = none
of_3 (some g) = if g.user_id == 3 then some g else none

pub of_3_lem :
    (o : Option SavedFilter) (g : SavedFilter) → of_3 o ≡ some g → (o ≡ some g) × (g.user_id ≡ 3)
of_3_lem none g h = cc
of_3_lem (some k) g h = elim (Bool-cases (k.user_id == 3)) [
  | inl e ↦
      let same = some_injective k g (rw e at h) in
      (ap some same, ap (λ (x : SavedFilter). x.user_id) (sym same) ∙ ==→eq k.user_id 3 e)
  | inr e ↦ let wrong : none ≡ some g = rw e at h in cc
]

pub rows_of_other :
    (s t : List SavedFilter) (w u : Uuid) → w ≡ 3 → w ≢ u → rows_of s u ≡ rows_of t u
rows_of_other s t w u e other = elim (Bool-cases (u == 3)) [
  | inl h ↦ absurd (other (e ∙ sym (==→eq u 3 h)))
  | inr h ↦ rw h refl
]

abbrev pub insert_in : List SavedFilter → SavedFilter → List SavedFilter × Option Uuid
insert_in s f =
    if f.user_id == 3
    then (record f { id = suc (length s) } ∷ s, some (suc (length s)))
    else (s, none)

abbrev pub write_in : List SavedFilter → SavedFilter → List SavedFilter × Bool
write_in s f = if f.user_id == 3 then (put_in f.id f s, true) else (s, false)

pub found_owned :
    (s : List SavedFilter) (i : Uuid) (f : SavedFilter)
    → of_3 (find_in i s) ≡ some f
    → (f.id ≡ i) × Any (λ g. g ≡ f) (rows_of s f.user_id)
found_owned s i f h =
    let (found, own) = of_3_lem (find_in i s) f h in
    let (id, row) = find_in_lem i s f found in
    (id, subst (λ u. Any (λ g. g ≡ f) (rows_of s u)) (sym own) row)

pub inserted :
    (s : List SavedFilter) (f : SavedFilter) (i : Uuid)
    → (insert_in s f).1 ≡ some i
    → rows_of (insert_in s f).0 f.user_id ≡ record f { id = i } ∷ rows_of s f.user_id
inserted s f i h = elim (Bool-cases (f.user_id == 3)) [
  | inl e ↦
      let given : some (suc (length s)) ≡ some i = rw e at h in
      let id : suc (length s) ≡ i = cc in rw e (ap (λ (k : Uuid). record f { id = k } ∷ s) id)
  | inr e ↦ let wrong : none ≡ some i = rw e at h in cc
]

pub insert_other :
    (s : List SavedFilter) (f : SavedFilter) (u : Uuid)
    → f.user_id ≢ u
    → rows_of (insert_in s f).0 u ≡ rows_of s u
insert_other s f u other = elim (Bool-cases (f.user_id == 3)) [
  | inl e ↦ rows_of_other (insert_in s f).0 s f.user_id u (==→eq f.user_id 3 e) other
  | inr e ↦ rw e refl
]

pub insert_error :
    (s : List SavedFilter) (f : SavedFilter) (u : Uuid)
    → (insert_in s f).1 ≡ none
    → rows_of (insert_in s f).0 u ≡ rows_of s u
insert_error s f u h = elim (Bool-cases (f.user_id == 3)) [
  | inl e ↦ let wrong : some (suc (length s)) ≡ none = rw e at h in cc
  | inr e ↦ rw e refl
]

pub put_rows :
    (s : List SavedFilter) (f g : SavedFilter)
    → of_3 (find_in f.id s) ≡ some g
    → g.user_id ≡ f.user_id
    → (xs ys : List SavedFilter) × (rows_of s f.user_id ≡ xs ++ (g ∷ ys))
      × (rows_of (write_in s f).0 f.user_id ≡ xs ++ (f ∷ ys))
put_rows s f g h same =
    let (found, own) = of_3_lem (find_in f.id s) g h in
    let (xs, ys, before, after, cut) = replaced_in f.id s f g found in
    let e : f.user_id == 3 ≡ true = ground (arith, same, own) in (xs, ys, rw e before, rw e after)

pub write_other :
    (s : List SavedFilter) (f : SavedFilter) (u : Uuid)
    → f.user_id ≢ u
    → rows_of (write_in s f).0 u ≡ rows_of s u
write_other s f u other = elim (Bool-cases (f.user_id == 3)) [
  | inl e ↦ rows_of_other (write_in s f).0 s f.user_id u (==→eq f.user_id 3 e) other
  | inr e ↦ rw e refl
]

pub write_error :
    (s : List SavedFilter) (f : SavedFilter) (u : Uuid)
    → (write_in s f).1 ≡ false
    → rows_of (write_in s f).0 u ≡ rows_of s u
write_error s f u h = elim (Bool-cases (f.user_id == 3)) [
  | inl e ↦ let wrong : true ≡ false = rw e at h in cc
  | inr e ↦ rw e refl
]

pub cut :
    (s : List SavedFilter) (i : Uuid) (g : SavedFilter)
    → of_3 (find_in i s) ≡ some g
    → (xs ys : List SavedFilter) × (rows_of s g.user_id ≡ xs ++ (g ∷ ys))
      × (rows_of (cut_in i s) g.user_id ≡ xs ++ ys)
cut s i g h =
    let (found, own) = of_3_lem (find_in i s) g h in
    let (xs, ys, before, after, left) = replaced_in i s g g found in
    let e : g.user_id == 3 ≡ true = ground (arith, own) in (xs, ys, rw e before, rw e left)

abbrev pub table : FilterRepository
table = record {
  Store = List SavedFilter;
  table = codes "saved_filters";
  has_table = λ e. cc;
  owned = rows_of;
  find = λ ctx s i. of_3 (find_in i s);
  count_by_user_and_entity =
      λ ctx s u e. some (length (keep (is_counted (codes "saved_filters") ctx e) (rows_of s u)));
  list_by_user_and_entity =
      λ ctx s u e. some (keep (is_counted (codes "saved_filters") ctx e) (rows_of s u));
  create = λ ctx. insert_in;
  update = λ ctx. write_in;
  delete = λ ctx s i. (cut_in i s, true);
  find-owned = λ ctx. found_owned;
  count-owned = λ ctx s u e n h. cc;
  create-owned = λ ctx. inserted;
  create-other = λ ctx. insert_other;
  create-error = λ ctx. insert_error;
  update-owned = λ ctx s f g found same ok. put_rows s f g found same;
  update-other = λ ctx s f g u found same other. write_other s f u other;
  update-error = λ ctx. write_error;
  delete-owned = λ ctx s i g found ok. cut s i g found;
  delete-other = λ ctx s i g u found other.
      rows_of_other (cut_in i s) s g.user_id u (of_3_lem (find_in i s) g found).1 other;
  delete-error = λ ctx s i u h. cc;
}
