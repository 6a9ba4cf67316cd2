-- ===== src/Route/Polyline/Ends.antt =====
-- The loop of client/here/polyline.go ends: the length of the text is fuel enough.
use backend_pkg.Common.{
  ℕ, zero, suc, ◌+◌, ◌/◌, ◌%◌, ◌==◌, ◌≤◌, ◌<◌, ◌≢◌, ap, ◌∙◌, Bool, true, false, not, List, [], ◌∷◌,
  Bytes, length, arith, inl, inr, none, some, Option, ltb, Bool-cases,
}
use backend_pkg.Route.Polyline.{
  Decoded, Decoded-cases, ok, err, out_of_fuel, found_or, decode_polyline_char, with_chunk,
  decode_from, decode_unsigned_value, decode_signed_value, read_lng, skip_z, read_pair,
  decode_pairs, coordinate_then, polyline_of, DecodedCoordinate, Polyline, decode_header,
  decode_flexible_polyline, place_from, flex_polyline_alphabet, sum64, signed_of,
}

-- Reading does not run out of fuel, and takes something of a text.
abbrev IsReading {ℓ} : {A : Type ℓ} → Decoded (A × Bytes) → ℕ → Type 0
IsReading (err e) n = e ≢ out_of_fuel
IsReading (ok r) n = length r.1 < n

found_or_reads : (c : ℕ) (o : Option ℕ) → found_or c o ≢ err out_of_fuel
found_or_reads c none h = cc
found_or_reads c (some v) h = cc

decode_polyline_char_reads : (c : ℕ) → decode_polyline_char c ≢ err out_of_fuel
unfolding decode_polyline_char
decode_polyline_char_reads c = found_or_reads c (place_from 0 flex_polyline_alphabet c)

longer {ℓ} :
    {A : Type ℓ} (d : Decoded (A × Bytes)) (n m : ℕ) → IsReading d n → n ≤ m → IsReading d m
longer (err e) n m h le = h
longer (ok r) n m h le = omega arith

-- One reading after another.
then_reads {ℓ κ} :
    {A : Type ℓ} {B : Type κ} (d : Decoded (A × Bytes)) (f : A × Bytes → Decoded (B × Bytes))
    (n : ℕ)
    → IsReading d n
    → ((r : A × Bytes) → IsReading (f r) (suc (length r.1)))
    → IsReading (elim d [ err e ↦ err e | ok r ↦ f r ]) n
then_reads (err e) f n h g = h
then_reads (ok r) f n h g = longer (f r) (suc (length r.1)) n (g r) (omega arith)

decode_from_reads : (acc shift : ℕ) (s : Bytes) → IsReading (decode_from acc shift s) (length s)
unfolding decode_from
decode_from_reads acc shift [] = λ e. cc
decode_from_reads acc shift (c ∷ s) = elim (Decoded-cases (decode_polyline_char c)) [
  | inl (e, k) ↦ rw (decode_from, k) (λ h. decode_polyline_char_reads c (k ∙ ap (λ x. err x) h))
  | inr (v, k) ↦
      let rest = decode_from_reads (with_chunk acc shift v) (shift + 5) s in
      elim (Bool-cases (ltb v 32)) [
        | inl b ↦ rw (decode_from, k, b) (omega arith)
        | inr b ↦
            rw (decode_from, k, b)
              (longer (decode_from (with_chunk acc shift v) (shift + 5) s) (length s)
                (suc (length s)) rest (omega arith))
      ]
]

decode_signed_value_reads : (s : Bytes) → IsReading (decode_signed_value s) (length s)
unfolding decode_signed_value decode_unsigned_value
decode_signed_value_reads s =
    then_reads (decode_from 0 0 s) (λ r. ok (signed_of r.0, r.1)) (length s)
      (decode_from_reads 0 0 s) (λ r. omega arith)

read_lng_reads : (s : Bytes) → IsReading (read_lng s) (suc (length s))
read_lng_reads [] = λ e. cc
read_lng_reads (c ∷ s) =
    longer (decode_signed_value (c ∷ s)) _ _ (decode_signed_value_reads (c ∷ s)) (omega arith)

-- The third number, if it is read, with the two before it.
with_z : ℕ × ℕ → Decoded Bytes → Decoded ((ℕ × ℕ) × Bytes)
with_z p d = elim d [ err e ↦ err e | ok u ↦ ok (p, u) ]

skip_z_reads :
    (p : ℕ × ℕ) (third : Bool) (s : Bytes) → IsReading (with_z p (skip_z third s)) (suc (length s))
unfolding with_z
skip_z_reads p false s = omega arith
skip_z_reads p true [] = λ e. cc
skip_z_reads p true (c ∷ s) = elim (Decoded-cases (decode_signed_value (c ∷ s))) [
  | inl (e, k) ↦ rw (with_z, k) (rw k at (decode_signed_value_reads (c ∷ s)))
  | inr (r, k) ↦
      let n : length r.1 < suc (length s) = rw k at (decode_signed_value_reads (c ∷ s)) in
      rw (with_z, k) (omega arith)
]

read_pair_reads : (third : Bool) (s : Bytes) → IsReading (read_pair third s) (length s)
unfolding read_pair with_z
read_pair_reads third s =
    then_reads (decode_signed_value s) _ (length s) (decode_signed_value_reads s) (λ r.
      then_reads (read_lng r.1) _ (suc (length r.1)) (read_lng_reads r.1)
        (λ t. skip_z_reads (r.0, t.0) third t.1))

coordinate_then_ends :
    (lat lng : ℕ) (d : Decoded (List DecodedCoordinate))
    → d ≢ err out_of_fuel
    → coordinate_then lat lng d ≢ err out_of_fuel
coordinate_then_ends lat lng (err e) h k = h k
coordinate_then_ends lat lng (ok cs) h k = cc

decode_pairs_ends :
    (fuel : ℕ) (third : Bool) (lat lng : ℕ) (s : Bytes)
    → length s ≤ fuel
    → decode_pairs fuel third lat lng s ≢ err out_of_fuel
unfolding decode_pairs
decode_pairs_ends fuel third lat lng [] enough = λ h. cc
decode_pairs_ends zero third lat lng (c ∷ s) enough = absurd (omega arith)
decode_pairs_ends (suc fuel) third lat lng (c ∷ s) enough =
    elim (Decoded-cases (read_pair third (c ∷ s))) [
      | inl (e, k) ↦
          let n : e ≢ out_of_fuel = rw k at (read_pair_reads third (c ∷ s)) in
          rw (decode_pairs, k) (λ h. n (cc))
      | inr (r, k) ↦
          let n : length r.1 < suc (length s) = rw k at (read_pair_reads third (c ∷ s)) in
          let lat' = sum64 lat r.0.0 in
          let lng' = sum64 lng r.0.1 in
          rw (decode_pairs, k)
            (coordinate_then_ends lat' lng' (decode_pairs fuel third lat' lng' r.1)
              (decode_pairs_ends fuel third lat' lng' r.1 (omega arith)))
    ]

polyline_of_ends :
    (precision : ℕ) (d : Decoded (List DecodedCoordinate))
    → d ≢ err out_of_fuel
    → polyline_of precision d ≢ err out_of_fuel
polyline_of_ends precision (err e) h k = h (cc)
polyline_of_ends precision (ok cs) h k = cc

header_ends : (h : ℕ × Bytes) → decode_header h ≢ err out_of_fuel
unfolding decode_header
header_ends (n, s) =
    polyline_of_ends (n % 16) _
      (decode_pairs_ends (length s) (not (n / 16 % 8 == 0)) 0 0 s (omega arith))

then_ends :
    (d : Decoded (ℕ × Bytes)) (n : ℕ) (f : ℕ × Bytes → Decoded Polyline)
    → IsReading d n
    → ((r : ℕ × Bytes) → f r ≢ err out_of_fuel)
    → elim d [ err e ↦ err e | ok r ↦ f r ] ≢ err out_of_fuel
then_ends (err e) n f h g k = h (cc)
then_ends (ok r) n f h g k = g r k

-- Every text is decoded to a route or refused with an error of the source: the rounds never run out.
pub decode_flexible_polyline_ends : (s : Bytes) → decode_flexible_polyline s ≢ err out_of_fuel
unfolding decode_flexible_polyline decode_unsigned_value
decode_flexible_polyline_ends [] = λ h. cc
decode_flexible_polyline_ends (c ∷ s) =
    then_ends (decode_from 0 0 (c ∷ s)) (length (c ∷ s)) _ (decode_from_reads 0 0 (c ∷ s)) (λ r.
      then_ends (decode_from 0 0 r.1) (length r.1) decode_header (decode_from_reads 0 0 r.1)
        header_ends)
