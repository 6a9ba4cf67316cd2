-- ===== src/Route/Polyline/Signed.antt =====
-- The signed numbers of client/here/polyline.go: their encoding, and that the decoder undoes it.
use backend_pkg.Common.{ℕ, ◌+◌, ◌-◌, ◌*◌, ◌^◌, ◌<◌, ◌≡◌, refl, ◌++◌, Bytes, arith, ℤ, pos, negsuc}
use backend_pkg.Route.Polyline.{ok, signed_of, decode_signed_value}
use backend_pkg.Route.Polyline.Varint.{encode_unsigned, decode_unsigned_value-encode}

-- The 64 bits of a number.
abbrev pub bits : ℤ → ℕ
bits (pos n) = n
bits (negsuc n) = 2 ^ 64 - 1 - n

-- The sign goes to the lowest bit.
abbrev pub zigzag : ℤ → ℕ
zigzag (pos n) = n * 2
zigzag (negsuc n) = n * 2 + 1

abbrev pub encode_signed : ℤ → Bytes
encode_signed z = encode_unsigned (zigzag z)

abbrev pub IsBelow : ℕ → ℤ → Type 0
IsBelow k (pos n) = n < 2 ^ k
IsBelow k (negsuc n) = n < 2 ^ k

signed_of-zigzag : (z : ℤ) → IsBelow 62 z → signed_of (zigzag z) ≡ bits z
unfolding signed_of
signed_of-zigzag (pos n) h = ground arith
signed_of-zigzag (negsuc n) h = ground arith

pub zigzag_below : (z : ℤ) → IsBelow 62 z → zigzag z < 2 ^ 64
zigzag_below (pos n) h = omega arith
zigzag_below (negsuc n) h = omega arith

pub decode_signed_value-encode :
    (z : ℤ) (rest : Bytes)
    → IsBelow 62 z
    → decode_signed_value (encode_signed z ++ rest) ≡ ok (bits z, rest)
unfolding decode_signed_value
decode_signed_value-encode z rest h =
    let e = decode_unsigned_value-encode (zigzag z) rest (zigzag_below z h) in
    rw (decode_signed_value, e, signed_of-zigzag z h) refl
