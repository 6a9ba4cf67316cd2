-- ===== src/Perms/Sorting.antt =====
-- `sort.Strings` of middleware/perms.go: what it holds, and that the order of its input is forgotten.
use mathlib.Core.List.{Perm, Permᴰ}
use mathlib.Core.Logic.{∥∥₁_elim}
use native.Mathlib.Nat.{ℕ_set}
use backend_pkg.Common.{
  List, [], ◌∷◌, ◌≡◌, refl, ap, inl, inr, Bool, ◌∙◌, true, false, ◌&&◌, ◌||◌, Bytes, ◌=ᵇ◌, =ᵇ→eq,
  if◌then◌else◌, contains, arith, Bool-cases, keep,
}
use backend_pkg.Perms.{str_le, insert, sort}

contains-insert :
    (p : Bytes) (qs : List Bytes) (s : Bytes) → contains (insert p qs) s ≡ (p =ᵇ s || contains qs s)
unfolding insert contains
contains-insert p [] s = refl
contains-insert p (q ∷ qs) s = ground (arith, contains-insert p qs s)

pub contains-sort : (ps : List Bytes) (s : Bytes) → contains (sort ps) s ≡ contains ps s
unfolding sort contains
contains-sort [] s = refl
contains-sort (p ∷ ps) s = rw (contains-insert, contains-sort ps s)

pub contains-keep :
    (f : Bytes → Bool) (ps : List Bytes) (s : Bytes)
    → contains (keep f ps) s ≡ (f s && contains ps s)
unfolding contains
contains-keep f [] s = ground arith
contains-keep f (p ∷ ps) s = elim (Bool-cases (p =ᵇ s)) [
  | inl e ↦ let same = =ᵇ→eq p s e in ground (arith, ap f same, contains-keep f ps s)
  | inr e ↦ ground (arith, contains-keep f ps s)
]

str_le_total : (s t : Bytes) → str_le s t ≡ false → str_le t s ≡ true
unfolding str_le
str_le_total [] t h = cc
str_le_total (a ∷ s) [] h = refl
str_le_total (a ∷ s) (b ∷ t) h = ground (arith, str_le_total s t)

str_le_antisymm : (s t : Bytes) → str_le s t ≡ true → str_le t s ≡ true → s ≡ t
unfolding str_le
str_le_antisymm [] [] h k = refl
str_le_antisymm [] (b ∷ t) h k = cc
str_le_antisymm (a ∷ s) [] h k = cc
str_le_antisymm (a ∷ s) (b ∷ t) h k = ground (arith, str_le_antisymm s t)

str_le_trans : (s t u : Bytes) → str_le s t ≡ true → str_le t u ≡ true → str_le s u ≡ true
unfolding str_le
str_le_trans [] t u h k = refl
str_le_trans (a ∷ s) [] u h k = cc
str_le_trans (a ∷ s) (b ∷ t) [] h k = cc
str_le_trans (a ∷ s) (b ∷ t) (c ∷ u) h k = ground (arith, str_le_trans s t u)

insert_comm : (a b : Bytes) (l : List Bytes) → insert a (insert b l) ≡ insert b (insert a l)
unfolding insert
insert_comm a b [] = ground (arith, str_le_total a b, str_le_antisymm a b)
insert_comm a b (c ∷ l) = ground (
  arith,
  insert_comm a b l,
  str_le_total a b,
  str_le_antisymm a b,
  str_le_trans a b c,
  str_le_trans b a c,
  str_le_total a c,
  str_le_total b c,
)

sort-keep_cons :
    (f : Bytes → Bool) (a : Bytes) (ps : List Bytes)
    → sort (keep f (a ∷ ps)) ≡ (if f a then insert a (sort (keep f ps)) else sort (keep f ps))
unfolding sort
sort-keep_cons f a ps = elim (Bool-cases (f a)) [ inl e ↦ rw e refl | inr e ↦ rw e refl ]

sort-keep_swap :
    (f : Bytes → Bool) (a b : Bytes) (l : List Bytes)
    → sort (keep f (a ∷ (b ∷ l))) ≡ sort (keep f (b ∷ (a ∷ l)))
sort-keep_swap f a b l = ground (
  arith,
  sort-keep_cons f a (b ∷ l),
  sort-keep_cons f b l,
  sort-keep_cons f b (a ∷ l),
  sort-keep_cons f a l,
  insert_comm a b (sort (keep f l)),
)

sort-keep-permᴰ :
    (f : Bytes → Bool) {ps qs : List Bytes} → Permᴰ ps qs → sort (keep f ps) ≡ sort (keep f qs)
sort-keep-permᴰ f Permᴰ.nil = refl
sort-keep-permᴰ f (Permᴰ.cons {a = a} {b = b} {l₁ = l₁} {l₂ = l₂} e h) =
    rw (sort-keep_cons f a l₁, sort-keep_cons f b l₂, e, sort-keep-permᴰ f h)
sort-keep-permᴰ f (Permᴰ.swap {a = a} {b = b} {l = l} e g) = rw (← e, ← g) (sort-keep_swap f a b l)
sort-keep-permᴰ f (Permᴰ.trans h k) = sort-keep-permᴰ f h ∙ sort-keep-permᴰ f k

Texts-set : IsSet (List Bytes)
Texts-set = hlevel ℕ_set

-- A filter and a sort forget the order of the list.
pub sort-keep-perm :
    (f : Bytes → Bool) {ps qs : List Bytes} → Perm ps qs → sort (keep f ps) ≡ sort (keep f qs)
sort-keep-perm f h = ∥∥₁_elim h (Texts-set _ _) (sort-keep-permᴰ f)
