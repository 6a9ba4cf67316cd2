-- ===== src/Route/Examples.antt =====
-- The theorems on routes at concrete ones.
use backend_pkg.Common.{◌≡◌, ◌≢◌, refl, [], ◌∷◌, codes, pos, negsuc, arith}
use backend_pkg.Route.Polyline.{
  Polyline, ok, decode_flexible_polyline, place_from, decode_polyline_char, decode_from,
  decode_unsigned_value, signed_of, decode_signed_value, read_pair, decode_pairs, decode_header,
  err, out_of_fuel, end_after_lat,
}
use backend_pkg.Route.Polyline.Ends.{decode_flexible_polyline_ends}
use backend_pkg.Route.Polyline.RoundTrip.{encode_polyline, decode_flexible_polyline-encode}

-- The example of the format's description.
abbrev frankfurt : Polyline
frankfurt = record {
  precision = 5;
  coordinates =
      record { lat = pos 5010228; lng = pos 869821 }
      ∷ (record { lat = pos 5010201; lng = pos 869567 }
          ∷ (record { lat = pos 5010063; lng = pos 869150 }
              ∷ (record { lat = pos 5009878; lng = pos 868752 } ∷ [])));
}

abbrev south_west : Polyline
south_west = record {
  precision = 5;
  coordinates = record { lat = negsuc 3344999; lng = negsuc 7099999 } ∷ [];
}

decode_flexible_polyline-encode_example :
    decode_flexible_polyline (encode_polyline south_west) ≡ ok south_west
decode_flexible_polyline-encode_example =
    decode_flexible_polyline-encode south_west (omega arith) ((omega arith, omega arith), tt)

decode_frankfurt : decode_flexible_polyline (codes "BFoz5xJ67i1B1B7PzIhaxL7Y") ≡ ok frankfurt
unfolding place_from decode_polyline_char decode_from decode_unsigned_value signed_of
    decode_signed_value read_pair decode_pairs decode_header decode_flexible_polyline
decode_frankfurt = refl

decode_truncated : decode_flexible_polyline (codes "BFoz5xJ") ≡ err end_after_lat
unfolding place_from decode_polyline_char decode_from decode_unsigned_value signed_of
    decode_signed_value read_pair decode_pairs decode_header decode_flexible_polyline
decode_truncated = refl

decode_flexible_polyline_ends_example : decode_flexible_polyline (codes "BF!") ≢ err out_of_fuel
decode_flexible_polyline_ends_example = decode_flexible_polyline_ends (codes "BF!")
