-- ===== src/Route/Polyline.antt =====
-- client/here/polyline.go: the flexible polyline of HERE. An int64 is the number of its 64 bits; an index
-- into the text is what is left of it. A coordinate is an integer that the source divides by a power of
-- ten, which is left undone here.
pub mod Varint
pub mod Signed
pub mod RoundTrip
pub mod Ends
use backend_pkg.Common.{
  ℕ, zero, suc, ◌+◌, ◌-◌, ◌*◌, ◌/◌, ◌%◌, ◌^◌, ◌≡◌, refl, ◌⊎◌, inl, inr, Bool, true, false, not,
  List, [], ◌∷◌, Bytes, codes, if◌then◌else◌, Option, none, some, ltb, ◌==◌, length, ℤ, pos, negsuc,
}

abbrev pub flex_polyline_alphabet : Bytes
flex_polyline_alphabet = codes "ABCDEFGHIJKLMNOPQRSTUVWXYZabcdefghijklmnopqrstuvwxyz0123456789-_"

-- The table that `init` fills: the place of a character in the alphabet.
unfoldable pub place_from : ℕ → Bytes → ℕ → Option ℕ
place_from i [] c = none
place_from i (a ∷ s) c = let rest = place_from (suc i) s c in if a == c then some i else rest

pub data DecodeError : Type 0 where
  invalid_character : ℕ → DecodeError
  unexpected_end end_after_lat end_after_lng out_of_fuel : DecodeError

pub data Decoded {ℓ} (A : Type ℓ) : Type ℓ where
  ok : A → Decoded A
  err : DecodeError → Decoded A

pub Decoded-cases {ℓ} :
    {A : Type ℓ} (d : Decoded A) → ((e : DecodeError) × (d ≡ err e)) ⊎ ((a : A) × (d ≡ ok a))
Decoded-cases (err e) = inl (e, refl)
Decoded-cases (ok a) = inr (a, refl)

abbrev found_or : ℕ → Option ℕ → Decoded ℕ
found_or c none = err (invalid_character c)
found_or c (some v) = ok v

unfoldable pub decode_polyline_char : ℕ → Decoded ℕ
unfolding place_from
decode_polyline_char c = found_or c (place_from 0 flex_polyline_alphabet c)

-- `result |= (v & 0x1F) << shift`: the bits of `result` lie below `shift`, so that the two sides share
-- none, and those above the 64th are lost.
abbrev pub with_chunk : ℕ → ℕ → ℕ → ℕ
with_chunk result shift v = (result + (v % 32) * 2 ^ shift) % 2 ^ 64

unfoldable pub decode_from : ℕ → ℕ → Bytes → Decoded (ℕ × Bytes)
decode_from result shift [] = err unexpected_end
decode_from result shift (c ∷ s) = elim (decode_polyline_char c) [
  | err e ↦ err e
  | ok v ↦
      let rest = decode_from (with_chunk result shift v) (shift + 5) s in
      if ltb v 32 then ok (with_chunk result shift v, s) else rest
]

unfoldable pub decode_unsigned_value : Bytes → Decoded (ℕ × Bytes)
decode_unsigned_value s = decode_from 0 0 s

-- `>> 1` on an int64 keeps the sign.
abbrev shift_right : ℕ → ℕ
shift_right n = if ltb n (2 ^ 63) then n / 2 else n / 2 + 2 ^ 63

-- `-(u >> 1) - 1` flips every bit of `u >> 1`.
unfoldable pub signed_of : ℕ → ℕ
signed_of n = if n % 2 == 1 then 2 ^ 64 - 1 - shift_right n else shift_right n

unfoldable pub decode_signed_value : Bytes → Decoded (ℕ × Bytes)
unfolding signed_of
decode_signed_value s = elim (decode_unsigned_value s) [
  | err e ↦ err e
  | ok r ↦ ok (signed_of r.0, r.1)
]

abbrev pub int64 : ℕ → ℤ
int64 n = if ltb n (2 ^ 63) then pos n else negsuc (2 ^ 64 - n - 1)

pub record DecodedCoordinate : Type 0 where
  pub lat : ℤ
  pub lng : ℤ

-- What the loop has read: the latitude and the longitude as int64, and the coordinates.
abbrev pub sum64 : ℕ → ℕ → ℕ
sum64 a b = (a + b) % 2 ^ 64

-- The third number of a coordinate is read and dropped.
abbrev pub skip_z : Bool → Bytes → Decoded Bytes
skip_z false s = ok s
skip_z true [] = err end_after_lng
skip_z true (c ∷ s) = elim (decode_signed_value (c ∷ s)) [ err e ↦ err e | ok r ↦ ok r.1 ]

abbrev pub read_lng : Bytes → Decoded (ℕ × Bytes)
read_lng [] = err end_after_lat
read_lng (c ∷ s) = decode_signed_value (c ∷ s)

-- The two differences of one coordinate, and what is left of the text.
unfoldable pub read_pair : Bool → Bytes → Decoded ((ℕ × ℕ) × Bytes)
read_pair has_third s = elim (decode_signed_value s) [
  | err e ↦ err e
  | ok r ↦ elim (read_lng r.1) [
    | err e ↦ err e
    | ok t ↦ elim (skip_z has_third t.1) [ err e ↦ err e | ok u ↦ ok ((r.0, t.0), u) ]
  ]
]

abbrev pub coordinate_then :
    ℕ → ℕ → Decoded (List DecodedCoordinate) → Decoded (List DecodedCoordinate)
coordinate_then lat lng (err e) = err e
coordinate_then lat lng (ok cs) = ok (record { lat = int64 lat; lng = int64 lng } ∷ cs)

-- Every round takes a character at least, so the length of the text is fuel enough.
unfoldable pub decode_pairs : ℕ → Bool → ℕ → ℕ → Bytes → Decoded (List DecodedCoordinate)
decode_pairs fuel has_third lat lng [] = ok []
decode_pairs zero has_third lat lng (c ∷ s) = err out_of_fuel
decode_pairs (suc fuel) has_third lat lng (c ∷ s) = elim (read_pair has_third (c ∷ s)) [
  | err e ↦ err e
  | ok r ↦
      let lat' = sum64 lat r.0.0 in
      let lng' = sum64 lng r.0.1 in
      coordinate_then lat' lng' (decode_pairs fuel has_third lat' lng' r.1)
]

-- The coordinates, and the power of ten to divide them by.
pub record Polyline : Type 0 where
  pub precision : ℕ
  pub coordinates : List DecodedCoordinate

abbrev pub polyline_of : ℕ → Decoded (List DecodedCoordinate) → Decoded Polyline
polyline_of precision (err e) = err e
polyline_of precision (ok cs) = ok (record { precision = precision; coordinates = cs })

unfoldable pub decode_header : ℕ × Bytes → Decoded Polyline
decode_header (header, s) =
    let third = header / 16 % 8 in
    polyline_of (header % 16) (decode_pairs (length s) (not (third == 0)) 0 0 s)

unfoldable pub decode_flexible_polyline : Bytes → Decoded Polyline
decode_flexible_polyline [] = ok (record { precision = 0; coordinates = [] })
decode_flexible_polyline (c ∷ s) = elim (decode_unsigned_value (c ∷ s)) [
  | err e ↦ err e
  | ok r ↦ elim (decode_unsigned_value r.1) [ err e ↦ err e | ok h ↦ decode_header h ]
]
