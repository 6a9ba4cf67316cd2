-- ===== src/Route/Polyline/RoundTrip.antt =====
-- client/here/polyline.go undoes the encoding of a route.
use backend_pkg.Common.{
  ℕ, zero, suc, ◌+◌, ◌-◌, ◌/◌, ◌%◌, ◌^◌, ◌≤◌, ◌<◌, ◌≡◌, ◌≢◌, refl, ap, ◌∙◌, Bool, false, List, [],
  ◌∷◌, ◌++◌, Bytes, length, arith, ℤ, pos, negsuc, All,
}
use backend_pkg.Route.Polyline.{
  ok, decode_unsigned_value, decode_signed_value, int64, sum64, read_lng, read_pair, decode_pairs,
  coordinate_then, DecodedCoordinate, Polyline, decode_header, decode_from,
  decode_flexible_polyline,
}
use backend_pkg.Route.Polyline.Varint.{
  encode_unsigned, decode_unsigned_value-encode, decode_from_shorter,
}
use backend_pkg.Route.Polyline.Signed.{
  bits, zigzag, encode_signed, IsBelow, zigzag_below, decode_signed_value-encode,
}

-- What is written of a coordinate is how far it lies from the last one.
abbrev step_of : ℕ → ℤ → ℤ
step_of last z = int64 ((bits z + 2 ^ 64 - last) % 2 ^ 64)

step-IsBelow : (q p : ℤ) → IsBelow 61 q → IsBelow 61 p → IsBelow 62 (step_of (bits q) p)
step-IsBelow (pos a) (pos b) hq hp = ground arith
step-IsBelow (pos a) (negsuc b) hq hp = ground arith
step-IsBelow (negsuc a) (pos b) hq hp = ground arith
step-IsBelow (negsuc a) (negsuc b) hq hp = ground arith

step_back :
    (q p : ℤ) → IsBelow 61 q → IsBelow 61 p → sum64 (bits q) (bits (step_of (bits q) p)) ≡ bits p
step_back (pos a) (pos b) hq hp = ground arith
step_back (pos a) (negsuc b) hq hp = ground arith
step_back (negsuc a) (pos b) hq hp = ground arith
step_back (negsuc a) (negsuc b) hq hp = ground arith

int64-bits : (p : ℤ) → IsBelow 61 p → int64 (bits p) ≡ p
int64-bits (pos n) h = ground arith
int64-bits (negsuc n) h = ground arith

encode_points : ℕ → ℕ → List DecodedCoordinate → Bytes
encode_points lat lng [] = []
encode_points lat lng (p ∷ ps) =
    encode_signed (step_of lat p.lat)
    ++ (encode_signed (step_of lng p.lng) ++ encode_points (bits p.lat) (bits p.lng) ps)

-- Version 1, the precision without a third dimension, and the coordinates.
pub encode_polyline : Polyline → Bytes
encode_polyline l =
    encode_unsigned 1 ++ (encode_unsigned l.precision ++ encode_points 0 0 l.coordinates)

-- The range of degrees is far within.
abbrev IsNear : DecodedCoordinate → Type 0
IsNear p = IsBelow 61 p.lat × IsBelow 61 p.lng

read_lng_eq : (s : Bytes) (r : ℕ × Bytes) → decode_signed_value s ≡ ok r → read_lng s ≡ ok r
unfolding decode_signed_value decode_unsigned_value decode_from
read_lng_eq [] r h = cc
read_lng_eq (c ∷ s) r h = h

read_pair-encode :
    (q r : ℤ) (p : DecodedCoordinate) (rest : Bytes)
    → IsBelow 61 q
    → IsBelow 61 r
    → IsNear p
    → read_pair false
        (encode_signed (step_of (bits q) p.lat) ++ (encode_signed (step_of (bits r) p.lng) ++ rest))
      ≡ ok ((bits (step_of (bits q) p.lat), bits (step_of (bits r) p.lng)), rest)
unfolding read_pair
read_pair-encode q r p rest hq hr (ha, hb) =
    let more = encode_signed (step_of (bits r) p.lng) ++ rest in
    let first =
      decode_signed_value-encode (step_of (bits q) p.lat) more (step-IsBelow q p.lat hq ha) in
    let second =
      decode_signed_value-encode (step_of (bits r) p.lng) rest (step-IsBelow r p.lng hr hb) in
    rw (read_pair, first, read_lng_eq more _ second) refl

read_pair_nil : (third : Bool) (r : (ℕ × ℕ) × Bytes) → read_pair third [] ≢ ok r
unfolding read_pair decode_signed_value decode_unsigned_value decode_from
read_pair_nil third r h = cc

decode_pairs_step :
    (fuel : ℕ) (third : Bool) (lat lng : ℕ) (s : Bytes) (r : (ℕ × ℕ) × Bytes)
    → read_pair third s ≡ ok r
    → decode_pairs (suc fuel) third lat lng s
      ≡ coordinate_then
          (sum64 lat r.0.0)
          (sum64 lng r.0.1)
          (decode_pairs fuel third (sum64 lat r.0.0) (sum64 lng r.0.1) r.1)
unfolding decode_pairs
decode_pairs_step fuel third lat lng [] r h = absurd (read_pair_nil third r h)
decode_pairs_step fuel third lat lng (c ∷ s) r h = rw (decode_pairs, h) refl

length-encode :
    (n : ℕ) (rest : Bytes) → n < 2 ^ 64 → length rest < length (encode_unsigned n ++ rest)
unfolding decode_unsigned_value
length-encode n rest h =
    decode_from_shorter 0 0 (encode_unsigned n ++ rest) n rest
      (decode_unsigned_value-encode n rest h)

abbrev pair_text : ℤ → ℤ → DecodedCoordinate → Bytes → Bytes
pair_text q r p rest =
    encode_signed (step_of (bits q) p.lat) ++ (encode_signed (step_of (bits r) p.lng) ++ rest)

encode_points_cons :
    (q r : ℤ) (p : DecodedCoordinate) (ps : List DecodedCoordinate)
    → encode_points (bits q) (bits r) (p ∷ ps)
      ≡ pair_text q r p (encode_points (bits p.lat) (bits p.lng) ps)
unfolding encode_points
encode_points_cons q r p ps = refl

encode_points_shrink :
    (q r : ℤ) (p : DecodedCoordinate) (ps : List DecodedCoordinate)
    → IsBelow 61 q
    → IsBelow 61 r
    → IsNear p
    → length (encode_points (bits p.lat) (bits p.lng) ps)
      < length (encode_points (bits q) (bits r) (p ∷ ps))
unfolding encode_points
encode_points_shrink q r p ps hq hr (ha, hb) =
    let a = step_of (bits q) p.lat in
    let b = step_of (bits r) p.lng in
    let rest = encode_points (bits p.lat) (bits p.lng) ps in
    let one =
      length-encode (zigzag a) (encode_signed b ++ rest)
        (zigzag_below a (step-IsBelow q p.lat hq ha)) in
    let two = length-encode (zigzag b) rest (zigzag_below b (step-IsBelow r p.lng hr hb)) in
    omega (arith, one, two)

coordinate_back :
    (fuel x y : ℕ) (p : DecodedCoordinate) (ps : List DecodedCoordinate) (s : Bytes)
    → x ≡ bits p.lat
    → y ≡ bits p.lng
    → IsNear p
    → decode_pairs fuel false (bits p.lat) (bits p.lng) s ≡ ok ps
    → coordinate_then x y (decode_pairs fuel false x y s) ≡ ok (p ∷ ps)
coordinate_back fuel x y p ps s ex ey (ha, hb) back =
    let lat = int64-bits p.lat ha in
    let lng = int64-bits p.lng hb in rw (ex, ey, back) (ground (arith, lat, lng))

decode_pairs-encode :
    (fuel : ℕ) (ps : List DecodedCoordinate) (q r : ℤ)
    → IsBelow 61 q
    → IsBelow 61 r
    → All IsNear ps
    → length (encode_points (bits q) (bits r) ps) ≤ fuel
    → decode_pairs fuel false (bits q) (bits r) (encode_points (bits q) (bits r) ps) ≡ ok ps
decode_pairs-encode fuel [] q r hq hr near enough = unfold encode_points decode_pairs in refl
decode_pairs-encode zero (p ∷ ps) q r hq hr (h, near) enough =
    absurd (omega (arith, encode_points_shrink q r p ps hq hr h))
decode_pairs-encode (suc fuel) (p ∷ ps) q r hq hr (h, near) enough =
    let shrink = encode_points_shrink q r p ps hq hr h in
    let rest = encode_points (bits p.lat) (bits p.lng) ps in
    let back = decode_pairs-encode fuel ps p.lat p.lng h.0 h.1 near (omega (arith, shrink)) in
    ap (decode_pairs (suc fuel) false (bits q) (bits r)) (encode_points_cons q r p ps)
    ∙ decode_pairs_step fuel false (bits q) (bits r) (pair_text q r p rest) _
        (read_pair-encode q r p rest hq hr h)
    ∙ coordinate_back fuel _ _ p ps rest (step_back q p.lat hq h.0) (step_back r p.lng hr h.1) h
        back

flexible_step :
    (s : Bytes) (v h : ℕ × Bytes)
    → decode_unsigned_value s ≡ ok v
    → decode_unsigned_value v.1 ≡ ok h
    → decode_flexible_polyline s ≡ decode_header h
unfolding decode_flexible_polyline
flexible_step [] v h e f = absurd (unfold decode_unsigned_value decode_from in cc)
flexible_step (c ∷ s) v h e f = rw (decode_flexible_polyline, e, f) refl

header_back :
    (precision : ℕ) (s : Bytes) (ps : List DecodedCoordinate)
    → precision < 16
    → decode_pairs (length s) false 0 0 s ≡ ok ps
    → decode_header (precision, s) ≡ ok (record { precision = precision; coordinates = ps })
unfolding decode_header
header_back precision s ps h back =
    let low : precision % 16 ≡ precision = omega arith in
    let none_third : precision / 16 % 8 ≡ 0 = omega arith in rw (low, none_third, back) refl

-- A route that is encoded with up to fifteen decimals comes back as it was, and no error is possible.
pub decode_flexible_polyline-encode :
    (l : Polyline)
    → l.precision < 16
    → All IsNear l.coordinates
    → decode_flexible_polyline (encode_polyline l) ≡ ok l
unfolding encode_polyline
decode_flexible_polyline-encode l h near =
    let points = encode_points 0 0 l.coordinates in
    let head = encode_unsigned l.precision ++ points in
    let version = decode_unsigned_value-encode 1 head (omega arith) in
    let header = decode_unsigned_value-encode l.precision points (omega arith) in
    flexible_step (encode_unsigned 1 ++ head) _ _ version header
    ∙ header_back l.precision points l.coordinates h (
        decode_pairs-encode (length points) l.coordinates (pos 0) (pos 0) (omega arith)
          (omega arith) near (omega arith))
