-- ===== src/Toll/Hashes/Distinct.antt =====
-- The keys that client/toll/normalize.go gives to the rows of one file.
use mathlib.Core.List.{append_assoc}
use backend_pkg.Common.{
  ℕ, ◌+◌, ◌≤◌, ◌≡◌, ◌≢◌, refl, sym, ap, ◌∙◌, subst, List, [], ◌∷◌, ◌++◌, map, Bytes, ◌==◌, ==→eq,
  ◌=ᵇ◌, =ᵇ→eq, =ᵇ_refl, if◌then◌else◌, lookup, insert, lookup-insert, get_or, itoa, itoa_injective,
  itoa-range, All, arith, Bool-cases, inl, inr,
}
use backend_pkg.Toll.{TollLibrary}
use backend_pkg.Toll.Hashes.{
  ProviderType, Row, exit_text, hash_sep, join_at, hash_row, assign_from, assign_hashes,
}

not_behind : (s a b : Bytes) → All (λ c. b'0' ≤ c) a → a ≡ s ++ (hash_sep ∷ b) → ⊥
not_behind [] [] b h e = cc
not_behind [] (c ∷ a) b (low, h) e = ground arith
not_behind (d ∷ s) [] b h e = cc
not_behind (d ∷ s) (c ∷ a) b (low, h) e = not_behind s a b h (cc)

-- What stands in front of the last separator, and what behind it, are told by the text.
last_part :
    (s t a b : Bytes)
    → All (λ c. b'0' ≤ c) a
    → All (λ c. b'0' ≤ c) b
    → s ++ (hash_sep ∷ a) ≡ t ++ (hash_sep ∷ b)
    → (s ≡ t) × (a ≡ b)
last_part [] [] a b ha hb e = (refl, cc)
last_part [] (d ∷ t) a b ha hb e = absurd (not_behind t a b ha (cc))
last_part (c ∷ s) [] a b ha hb e = absurd (not_behind s b a hb (cc))
last_part (c ∷ s) (d ∷ t) a b ha hb e =
    let (front, back) = last_part s t a b ha hb (cc) in (cc, back)

abbrev counted : Bytes → List (Bytes × ℕ) → ℕ
counted k seen = get_or 0 (lookup k seen)

counted-insert :
    (j k : Bytes) (seen : List (Bytes × ℕ))
    → counted k seen ≤ counted k (insert j (counted j seen + 1) seen)
counted-insert j k seen = elim (Bool-cases (j =ᵇ k)) [
  | inl same ↦
      let e = ap (λ i. counted i seen) (=ᵇ→eq j k same) in
      rw (lookup-insert j k (counted j seen + 1) seen, same) (omega (arith, e))
  | inr other ↦ rw (lookup-insert j k (counted j seen + 1) seen, other) (omega arith)
]

counted-insert_self :
    (j : Bytes) (n : ℕ) (seen : List (Bytes × ℕ)) → counted j (insert j n seen) ≡ n
counted-insert_self j n seen = rw (lookup-insert j j n seen, =ᵇ_refl j) refl

module _ (lib : TollLibrary) (pt : ProviderType) where
  open lib use {fixed_cents, day_text, digest}

  -- The text of a row without its occurrence.
  abbrev stem : Row lib → Bytes
  stem r = join_at hash_sep (
      pt
      ∷ day_text r.post_date
      ∷ r.device_id
      ∷ r.agency_ref
      ∷ r.plate
      ∷ exit_text lib r.exit_at
      ∷ r.exit_plaza
      ∷ r.agency
      ∷ fixed_cents r.amount
      ∷ [])

  hash_row_lem :
      (r : Row lib) (n : ℕ) → hash_row lib pt r n ≡ digest (stem r ++ (hash_sep ∷ itoa n))
  unfolding hash_row
  hash_row_lem r n = simp append_assoc

  abbrev base : Row lib → Bytes
  base r = hash_row lib pt r 0

  abbrev count : List (Bytes × ℕ) → Row lib → ℕ
  count seen r = get_or 0 (lookup (base r) seen)

  numbered :
      (r : Row lib) (n : ℕ) → (if n == 0 then base r else hash_row lib pt r n) ≡ hash_row lib pt r n
  numbered r n = elim (Bool-cases (n == 0)) [
    | inl e ↦ rw e (ap (hash_row lib pt r) (sym (==→eq n 0 e)))
    | inr e ↦ rw e refl
  ]

  -- The hash is that of some row whose number is not below what the map counts for it.
  abbrev IsCounted : List (Bytes × ℕ) → Row lib → Type 0
  IsCounted seen q = (r : Row lib) × (n : ℕ) × (q.hash ≡ hash_row lib pt r n) × (count seen r ≤ n)

  count-insert :
      (seen : List (Bytes × ℕ)) (r q : Row lib)
      → count seen q ≤ count (insert (base r) (count seen r + 1) seen) q
  count-insert seen r q = counted-insert (base r) (base q) seen

  IsCounted-later :
      (seen : List (Bytes × ℕ)) (r : Row lib) (qs : List (Row lib))
      → All (IsCounted (insert (base r) (count seen r + 1) seen)) qs
      → All (IsCounted seen) qs
  IsCounted-later seen r [] h = tt
  IsCounted-later seen r (q ∷ qs) ((p, n, e, le), h) =
      ((p, n, e, omega (arith, count-insert seen r p)), IsCounted-later seen r qs h)

  assign_from-IsCounted :
      (seen : List (Bytes × ℕ)) (rs : List (Row lib))
      → All (IsCounted seen) (assign_from lib pt seen rs)
  unfolding assign_from
  assign_from-IsCounted seen [] = tt
  assign_from-IsCounted seen (r ∷ rs) =
      let seen' = insert (base r) (count seen r + 1) seen in
      (
        (r, count seen r, numbered r (count seen r), omega arith),
        IsCounted-later seen r (assign_from lib pt seen' rs) (assign_from-IsCounted seen' rs),
      )

  abbrev pub AreDistinct : List (Row lib) → Type 0
  AreDistinct [] = Unit
  AreDistinct (r ∷ rs) = All (λ q. q.hash ≢ r.hash) rs × AreDistinct rs

  module _ (injective : (s t : Bytes) → digest s ≡ digest t → s ≡ t) where
    hash_row_injective :
        (r q : Row lib) (m n : ℕ)
        → hash_row lib pt r m ≡ hash_row lib pt q n
        → (base r ≡ base q) × (m ≡ n)
    hash_row_injective r q m n e =
        let texts =
          injective (stem r ++ (hash_sep ∷ itoa m)) (stem q ++ (hash_sep ∷ itoa n))
            (sym (hash_row_lem r m) ∙ e ∙ hash_row_lem q n) in
        let (stems, numbers) =
          last_part (stem r) (stem q) (itoa m) (itoa n) (itoa-range m) (itoa-range n) texts in
        (
          hash_row_lem r 0
              ∙ ap (λ s. digest (s ++ (hash_sep ∷ itoa 0))) stems
              ∙ sym (hash_row_lem q 0),
          itoa_injective m n numbers,
        )

    differ_later :
        (seen : List (Bytes × ℕ)) (r : Row lib) (qs : List (Row lib))
        → All (IsCounted (insert (base r) (count seen r + 1) seen)) qs
        → All (λ q. q.hash ≢ hash_row lib pt r (count seen r)) qs
    differ_later seen r [] h = tt
    differ_later seen r (q ∷ qs) ((p, n, e, le), h) = (
      λ same.
          let (bases, numbers) = hash_row_injective p r n (count seen r) (sym e ∙ same) in
          let own = counted-insert_self (base r) (count seen r + 1) seen in
          let seen' = insert (base r) (count seen r + 1) seen in
          let moved = ap (λ k. counted k seen') bases in
          absurd (omega (arith, own, moved, le, numbers)),
      differ_later seen r qs h,
    )

    assign_from-AreDistinct :
        (seen : List (Bytes × ℕ)) (rs : List (Row lib)) → AreDistinct (assign_from lib pt seen rs)
    unfolding assign_from
    assign_from-AreDistinct seen [] = tt
    assign_from-AreDistinct seen (r ∷ rs) =
        let seen' = insert (base r) (count seen r + 1) seen in
        let qs = assign_from lib pt seen' rs in
        (
          subst (λ k. All (λ q. q.hash ≢ k) qs) (sym (numbered r (count seen r)))
              (differ_later seen r qs (assign_from-IsCounted seen' rs)),
          assign_from-AreDistinct seen' rs,
        )

    -- No two transactions of a file get one key, if the digest gives no two texts one value: also those that agree
    -- in everything that the key is made of, and whatever bytes their cells hold.
    pub assign_hashes-AreDistinct : (rs : List (Row lib)) → AreDistinct (assign_hashes lib pt rs)
    unfolding assign_hashes
    assign_hashes-AreDistinct rs = assign_from-AreDistinct [] rs

  -- Two readings of one crossing: what may be corrected later is left out.
  abbrev pub SameCrossing : Row lib → Row lib → Type 0
  SameCrossing r q =
      (day_text r.post_date ≡ day_text q.post_date)
      × (r.device_id ≡ q.device_id)
      × (r.agency_ref ≡ q.agency_ref)
      × (r.plate ≡ q.plate)
      × (exit_text lib r.exit_at ≡ exit_text lib q.exit_at)
      × (r.exit_plaza ≡ q.exit_plaza)
      × (r.agency ≡ q.agency)
      × (fixed_cents r.amount ≡ fixed_cents q.amount)

  hash_row_same :
      (r q : Row lib) (n : ℕ) → SameCrossing r q → hash_row lib pt r n ≡ hash_row lib pt q n
  unfolding hash_row
  hash_row_same r q n (post, device, ref, plate, exit, plaza, agency, amount) = λ i. digest (
      join_at hash_sep (
        pt
        ∷ post i
        ∷ device i
        ∷ ref i
        ∷ plate i
        ∷ exit i
        ∷ plaza i
        ∷ agency i
        ∷ amount i
        ∷ itoa n
        ∷ []))

  abbrev pub AreSame : List (Row lib) → List (Row lib) → Type 0
  AreSame [] qs = Unit
  AreSame (r ∷ rs) [] = ⊥
  AreSame (r ∷ rs) (q ∷ qs) = SameCrossing r q × AreSame rs qs

  abbrev pub hashes : List (Row lib) → List Bytes
  hashes = map (λ r. r.hash)

  hashes_step :
      (seen : List (Bytes × ℕ)) (r : Row lib) (rs : List (Row lib))
      → hashes (assign_from lib pt seen (r ∷ rs))
        ≡ hash_row lib pt r (count seen r)
          ∷ hashes (assign_from lib pt (insert (base r) (count seen r + 1) seen) rs)
  unfolding assign_from
  hashes_step seen r rs =
      ap (λ h. h ∷ hashes (assign_from lib pt (insert (base r) (count seen r + 1) seen) rs))
        (numbered r (count seen r))

  assign_from-resend :
      (seen : List (Bytes × ℕ)) (rs qs : List (Row lib))
      → AreSame rs qs
      → (more : List Bytes) × (hashes (assign_from lib pt seen qs)
          ≡ hashes (assign_from lib pt seen rs) ++ more)
  assign_from-resend seen [] qs h =
      (hashes (assign_from lib pt seen qs), unfold assign_from in refl)
  assign_from-resend seen (r ∷ rs) [] h = absurd h
  assign_from-resend seen (r ∷ rs) (q ∷ qs) (same, h) =
      let seen' = insert (base r) (count seen r + 1) seen in
      let (more, e) = assign_from-resend seen' rs qs h in
      let rest = hashes (assign_from lib pt seen' qs) in
      (
        more,
        hashes_step seen q qs
            ∙ ap
                (λ k.
                  hash_row lib pt q (counted k seen)
                  ∷ hashes (assign_from lib pt (insert k (counted k seen + 1) seen) qs))
                (sym (hash_row_same r q 0 same))
            ∙ ap (λ k. k ∷ rest) (sym (hash_row_same r q (count seen r) same))
            ∙ ap (λ ks. hash_row lib pt r (count seen r) ∷ ks) e
            ∙ ap (λ ks. ks ++ more) (sym (hashes_step seen r rs)),
      )

  -- A file that is sent again with the same crossings in the same order, and perhaps others behind them,
  -- gives these the keys that they had, whatever was corrected in the fields that the key leaves out.
  pub assign_hashes-resend :
      (rs qs : List (Row lib))
      → AreSame rs qs
      → (more : List Bytes) × (hashes (assign_hashes lib pt qs)
          ≡ hashes (assign_hashes lib pt rs) ++ more)
  unfolding assign_hashes
  assign_hashes-resend rs qs h = assign_from-resend [] rs qs h
