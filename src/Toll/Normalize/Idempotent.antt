-- ===== src/Toll/Normalize/Idempotent.antt =====
-- Plates and truck numbers of client/toll/normalize.go: normalising what is normal changes nothing.
use backend_pkg.Common.{
  ℕ, ◌≡◌, refl, sym, ap, ◌∙◌, Bool, true, false, ◌&&◌, ◌||◌, [], ◌∷◌, map, Bytes, if◌then◌else◌,
  trim_space, trim_left, trim_right, trim_right-append, trim_space_left, to_upper, upper_byte,
  is_upper, is_lower, is_digit, is_space, keep, arith, All, Bool-cases, inl, inr,
}
use backend_pkg.Toll.Normalize.{
  is_alpha, is_plate_byte, is_separator, without_state, normalize_plate,
}

-- The bytes of a normal plate.
abbrev is_normal : ℕ → Bool
is_normal c = is_upper c || is_digit c

abbrev pub IsNormal : Bytes → Type 0
IsNormal s = All (λ c. is_normal c ≡ true) s

abbrev HasNoLower : Bytes → Type 0
HasNoLower s = All (λ c. is_lower c ≡ false) s

to_upper-HasNoLower : (s : Bytes) → HasNoLower (map upper_byte s)
to_upper-HasNoLower [] = tt
to_upper-HasNoLower (c ∷ s) = (ground arith, to_upper-HasNoLower s)

without_state-HasNoLower : (s : Bytes) → HasNoLower s → HasNoLower (without_state s)
without_state-HasNoLower [] h = h
without_state-HasNoLower (a ∷ []) h = h
without_state-HasNoLower (a ∷ (b ∷ [])) h = h
without_state-HasNoLower (a ∷ (b ∷ (c ∷ []))) h = h
without_state-HasNoLower (a ∷ (b ∷ (c ∷ (d ∷ s)))) h =
    elim (Bool-cases (is_alpha a && (is_alpha b && is_separator c))) [
      | inl state ↦ rw state h.1.1.1
      | inr whole ↦ rw whole h
    ]

keep-IsNormal : (s : Bytes) → HasNoLower s → IsNormal (keep is_plate_byte s)
keep-IsNormal [] h = tt
keep-IsNormal (c ∷ s) (low, h) = elim (Bool-cases (is_plate_byte c)) [
  | inl kept ↦ rw kept (ground arith, keep-IsNormal s h)
  | inr dropped ↦ rw dropped (keep-IsNormal s h)
]

trim_right-IsNormal : (s : Bytes) → IsNormal s → trim_right s ≡ s
unfolding trim_right
trim_right-IsNormal [] h = refl
trim_right-IsNormal (c ∷ []) (n, h) = ground arith
trim_right-IsNormal (c ∷ (d ∷ s)) (n, h) = rw (trim_right-IsNormal (d ∷ s) h) refl

trim_space-IsNormal : (s : Bytes) → IsNormal s → trim_space s ≡ s
unfolding trim_space trim_left
trim_space-IsNormal [] h = trim_right-IsNormal [] h
trim_space-IsNormal (c ∷ s) (n, h) = ground (arith, trim_right-IsNormal (c ∷ s) (n, h))

to_upper-IsNormal : (s : Bytes) → IsNormal s → to_upper s ≡ s
to_upper-IsNormal [] h = refl
to_upper-IsNormal (c ∷ s) (n, h) = ground (arith, to_upper-IsNormal s h)

without_state-IsNormal : (s : Bytes) → IsNormal s → without_state s ≡ s
without_state-IsNormal [] h = refl
without_state-IsNormal (a ∷ []) h = refl
without_state-IsNormal (a ∷ (b ∷ [])) h = refl
without_state-IsNormal (a ∷ (b ∷ (c ∷ []))) h = refl
without_state-IsNormal (a ∷ (b ∷ (c ∷ (d ∷ s)))) (na, (nb, (nc, h))) = ground arith

keep_all-IsNormal : (s : Bytes) → IsNormal s → keep is_plate_byte s ≡ s
keep_all-IsNormal [] h = refl
keep_all-IsNormal (c ∷ s) (n, h) = ground (arith, keep_all-IsNormal s h)

normalize_plate-IsNormal : (s : Bytes) → IsNormal (normalize_plate s)
unfolding normalize_plate
normalize_plate-IsNormal s =
    keep-IsNormal (without_state (to_upper (trim_space s)))
      (without_state-HasNoLower (to_upper (trim_space s)) (to_upper-HasNoLower (trim_space s)))

IsNormal-fixed : (s : Bytes) → IsNormal s → normalize_plate s ≡ s
unfolding normalize_plate
IsNormal-fixed s h =
    rw
      (
        trim_space-IsNormal s h,
        to_upper-IsNormal s h,
        without_state-IsNormal s h,
        keep_all-IsNormal s h,
      )
      refl

trim_right-behind :
    (a b c d : ℕ) (p : Bytes)
    → IsNormal (d ∷ p)
    → trim_right (a ∷ (b ∷ (c ∷ (d ∷ p)))) ≡ a ∷ (b ∷ (c ∷ (d ∷ p)))
trim_right-behind a b c d p h =
    trim_right-append (a ∷ (b ∷ (c ∷ []))) d p (trim_right-IsNormal (d ∷ p) h)

alpha_not_space : (a : ℕ) → is_alpha a ≡ true → is_space a ≡ false
alpha_not_space a h = ground arith

-- Capitals, and separators, stay what they are.
upper_state :
    (a b c : ℕ)
    → is_alpha a ≡ true
    → is_alpha b ≡ true
    → is_separator c ≡ true
    → (is_alpha (upper_byte a) && (is_alpha (upper_byte b) && is_separator (upper_byte c))) ≡ true
upper_state a b c ha hb hc =
    let ka : is_alpha (upper_byte a) ≡ true = ground arith in
    let kb : is_alpha (upper_byte b) ≡ true = ground arith in
    let kc : is_separator (upper_byte c) ≡ true = ground arith in rw (ka, kb, kc) refl

state_dropped :
    (a b c d : ℕ) (p : Bytes)
    → is_alpha a ≡ true
    → is_alpha b ≡ true
    → is_separator c ≡ true
    → IsNormal (d ∷ p)
    → normalize_plate (a ∷ (b ∷ (c ∷ (d ∷ p)))) ≡ d ∷ p
unfolding normalize_plate
state_dropped a b c d p ha hb hc h =
    let whole =
      trim_space_left a (b ∷ (c ∷ (d ∷ p))) (alpha_not_space a ha)
      ∙ trim_right-behind a b c d p h in
    ap (λ s. keep is_plate_byte (without_state (to_upper s))) whole
    ∙ ap
        (λ (t : Bool). keep is_plate_byte (
          if t
          then to_upper (d ∷ p)
          else upper_byte a ∷ (upper_byte b ∷ (upper_byte c ∷ to_upper (d ∷ p)))))
        (upper_state a b c ha hb hc)
    ∙ ap (keep is_plate_byte) (to_upper-IsNormal (d ∷ p) h)
    ∙ keep_all-IsNormal (d ∷ p) h

-- A normalised plate holds capital letters and digits only, and is its own normal form; and a plate of
-- capital letters and digits is found under that form also behind a state's two letters and a separator.
normalize_plate_lem :
    (s : Bytes)
    → IsNormal (normalize_plate s)
      × (normalize_plate (normalize_plate s) ≡ normalize_plate s)
      × ((a b c d : ℕ) (p : Bytes)
          → is_alpha a ≡ true
          → is_alpha b ≡ true
          → is_separator c ≡ true
          → IsNormal (d ∷ p)
          → normalize_plate (a ∷ (b ∷ (c ∷ (d ∷ p)))) ≡ normalize_plate (d ∷ p))
normalize_plate_lem s = (
  normalize_plate-IsNormal s,
  IsNormal-fixed (normalize_plate s) (normalize_plate-IsNormal s),
  λ a b c d p ha hb hc h. state_dropped a b c d p ha hb hc h ∙ sym (IsNormal-fixed (d ∷ p) h),
)
