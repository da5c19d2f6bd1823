-- ===== src/Base64/Tests.antt =====
-- The examples of include/lmcore/base64.h.
use lmcore.Prelude.{◌+◌, ◌*◌, ◌/◌, length, ◌≡◌, refl, arith, true, [], ◌∷◌, ◌++◌, codes}
use lmcore.Base64.{is_base64_char, char_at, value_of, encode, accepted, decode_groups, decode}
use lmcore.Base64.RoundTrip.{base64_round_trip, length-encode, decode_stops}

encode_runs : encode (codes "Hello World") ≡ codes "SGVsbG8gV29ybGQ="
unfolding encode char_at
encode_runs = refl

decode_runs : decode (codes "SGVsbG8gV29ybGQ=") ≡ (true, codes "Hello World")
unfolding decode accepted decode_groups value_of is_base64_char
decode_runs = refl

base64_round_trip_example :
    decode (encode (0 ∷ 255 ∷ 170 ∷ 85 ∷ [])) ≡ (true, 0 ∷ 255 ∷ 170 ∷ 85 ∷ [])
base64_round_trip_example = base64_round_trip (0 ∷ 255 ∷ 170 ∷ 85 ∷ []) (omega arith)

-- Invalid input is reported as decoded.
decode_stops_example :
    (decode (codes "SGVs" ++ (b'!' ∷ codes "bG8")) ≡ decode (codes "SGVs"))
    × ((decode (codes "SGVs" ++ (b'!' ∷ codes "bG8"))).0 ≡ true)
unfolding is_base64_char
decode_stops_example = decode_stops (codes "SGVs") b'!' (codes "bG8") refl

length-encode_example : length (encode (codes "four")) ≡ (length (codes "four") + 2) / 3 * 4
length-encode_example = length-encode (codes "four")
