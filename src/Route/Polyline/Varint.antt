-- ===== src/Route/Polyline/Varint.antt =====
-- The numbers of client/here/polyline.go: an encoder of the format, and that the decoder undoes it.
use backend_pkg.Common.{
  ℕ, zero, suc, ◌+◌, ◌*◌, ◌/◌, ◌%◌, ◌^◌, ◌<◌, ◌≡◌, refl, ap, ◌∙◌, Bool, true, false, ◌&&◌, [], ◌∷◌,
  ◌++◌, Bytes, if◌then◌else◌, Option, none, some, ltb, ◌==◌, length, get_elem?, get_or, arith,
  Bool-cases, inl, inr, ==→eq, ltb→lt,
}
use native.Mathlib.Numerals.{towards_suc}
use backend_pkg.Route.Polyline.{
  Decoded-cases, flex_polyline_alphabet, place_from, ok, decode_polyline_char, with_chunk,
  decode_from, decode_unsigned_value,
}

char_of : ℕ → ℕ
char_of v = get_or 0 (get_elem? flex_polyline_alphabet v)

has_place : ℕ → Option ℕ → Bool
has_place v none = false
has_place v (some w) = w == v

all_below : ℕ → (ℕ → Bool) → Bool
all_below zero p = true
all_below (suc n) p = p n && all_below n p

all_below_sound : (n : ℕ) (p : ℕ → Bool) (v : ℕ) → all_below n p ≡ true → v < n → p v ≡ true
unfolding all_below
all_below_sound zero p v h lt = absurd (omega arith)
all_below_sound (suc n) p v h lt = ground (arith, all_below_sound n p v)

alphabet_table :
    all_below 64 (λ v. has_place v (place_from 0 flex_polyline_alphabet (char_of v))) ≡ true
unfolding all_below has_place place_from char_of
alphabet_table = refl

has_place_sound : (v : ℕ) (o : Option ℕ) → has_place v o ≡ true → o ≡ some v
unfolding has_place
has_place_sound v none h = cc
has_place_sound v (some w) h = ap some (==→eq w v h)

decode_polyline_char-char_of : (v : ℕ) → v < 64 → decode_polyline_char (char_of v) ≡ ok v
unfolding decode_polyline_char
decode_polyline_char-char_of v h =
    let found = has_place_sound v _ (all_below_sound 64 _ v alphabet_table h) in rw found refl

-- Five bits at a time, the lowest first; a sixth bit says that more follow.
encode_from : ℕ → ℕ → Bytes
encode_from zero n = char_of (n % 32) ∷ []
encode_from (suc f) n =
    let more = encode_from f (n / 32) in
    if ltb n 32 then char_of n ∷ [] else char_of (n % 32 + 32) ∷ more

-- Thirteen characters hold 65 bits.
pub encode_unsigned : ℕ → Bytes
encode_unsigned n = encode_from 12 n

-- The lowest five bits and the rest, at a place.
split_product : (n p : ℕ) → n % 32 * p + n / 32 * (p * 32) ≡ n * p
split_product n p =
    let e : n % 32 + n / 32 * 32 ≡ n = omega arith in
    let d : n % 32 * p + n / 32 * (p * 32) ≡ (n % 32 + n / 32 * 32) * p = grind arith in
    d ∙ ap (λ (t : ℕ). t * p) e

power_step : (s : ℕ) → 2 ^ (s + 5) ≡ 2 ^ s * 32
power_step s = simp towards_suc (omega arith)

split_at : (n s : ℕ) → n % 32 * 2 ^ s + n / 32 * 2 ^ (s + 5) ≡ n * 2 ^ s
split_at n s = rw (power_step s) (split_product n (2 ^ s))

decode_from-last :
    (n acc shift : ℕ) (rest : Bytes)
    → n < 32
    → acc + n * 2 ^ shift < 2 ^ 64
    → decode_from acc shift (char_of n ∷ rest) ≡ ok (acc + n * 2 ^ shift, rest)
unfolding decode_from
decode_from-last n acc shift rest h fits = ground (arith, decode_polyline_char-char_of n)

decode_from-more :
    (r acc shift : ℕ) (rest : Bytes)
    → r < 32
    → acc + r * 2 ^ shift < 2 ^ 64
    → decode_from acc shift (char_of (r + 32) ∷ rest)
      ≡ decode_from (acc + r * 2 ^ shift) (shift + 5) rest
unfolding decode_from
decode_from-more r acc shift rest h fits = ground (arith, decode_polyline_char-char_of (r + 32))

decode_from-encode_from :
    (f n acc shift : ℕ) (rest : Bytes)
    → n < 32 ^ suc f
    → acc + n * 2 ^ shift < 2 ^ 64
    → decode_from acc shift (encode_from f n ++ rest) ≡ ok (acc + n * 2 ^ shift, rest)
unfolding encode_from
decode_from-encode_from zero n acc shift rest h fits =
    let r : n % 32 ≡ n = omega arith in rw r (decode_from-last n acc shift rest (omega arith) fits)
decode_from-encode_from (suc f) n acc shift rest h fits =
    let whole = split_at n shift in
    elim (Bool-cases (ltb n 32)) [
      | inl e ↦ rw e (decode_from-last n acc shift rest (ltb→lt n 32 e) fits)
      | inr e ↦
          let acc' = acc + n % 32 * 2 ^ shift in
          let sum : acc' + n / 32 * 2 ^ (shift + 5) ≡ acc + n * 2 ^ shift = omega (arith, whole) in
          let more = encode_from f (n / 32) ++ rest in
          rw e (
            decode_from-more (n % 32) acc shift more (omega arith) (omega (arith, whole))
            ∙ decode_from-encode_from f (n / 32) acc' (shift + 5) rest (omega arith)
                (omega (arith, sum))
            ∙ ap (λ (t : ℕ). ok (t, rest)) sum)
    ]

-- The decoder reads back the number, and leaves what follows it.
pub decode_unsigned_value-encode :
    (n : ℕ) (rest : Bytes)
    → n < 2 ^ 64
    → decode_unsigned_value (encode_unsigned n ++ rest) ≡ ok (n, rest)
unfolding decode_unsigned_value encode_unsigned
decode_unsigned_value-encode n rest h = ground (arith, decode_from-encode_from 12 n 0 0 rest)

-- What is read is longer than what is left of it.
pub decode_from_shorter :
    (acc shift : ℕ) (s : Bytes) (n : ℕ) (rest : Bytes)
    → decode_from acc shift s ≡ ok (n, rest)
    → length rest < length s
unfolding decode_from
decode_from_shorter acc shift [] n rest h = cc
decode_from_shorter acc shift (c ∷ s) n rest h = elim (Decoded-cases (decode_polyline_char c)) [
  | inl (e, k) ↦ absurd (ground arith)
  | inr (v, k) ↦ ground (arith, decode_from_shorter (with_chunk acc shift v) (shift + 5) s n rest)
]
