-- ===== src/Hex/Tests.antt =====
-- The examples of include/lmcore/hex.h.
use lmcore.Prelude.{
  ◌==◌, if◌then◌else◌, ◌*◌, ◌%◌, ◌≤◌, ◌≡◌, refl, arith, true, false, [], ◌∷◌, some, codes, length,
}
use lmcore.Hex.{
  is_xdigit, hex_char, encode, clean, char_to_nibble, decode_pairs, decode, is_valid_hex,
  is_separator,
}
use lmcore.Hex.RoundTrip.{hex_round_trip, decode_of_valid, decode_lem}

colon : is_xdigit b':' ≡ false
unfolding is_xdigit
colon = refl

encode_runs : encode true b':' (some (0xde ∷ 0xad ∷ 0xbe ∷ [])) ≡ codes "DE:AD:BE"
unfolding encode hex_char
encode_runs = refl

decode_runs : decode (codes "de:ad be") ≡ (true, 0xde ∷ 0xad ∷ 0xbe ∷ [])
unfolding decode clean decode_pairs is_xdigit char_to_nibble
decode_runs = refl

hex_round_trip_example :
    decode (encode false b':' (some (0xde ∷ 0xad ∷ []))) ≡ (true, 0xde ∷ 0xad ∷ [])
hex_round_trip_example = hex_round_trip false b':' colon (0xde ∷ 0xad ∷ []) (omega arith)

decode_of_valid_example :
    ((decode (codes "DE-AD")).0 ≡ true) × (1 ≤ length (decode (codes "DE-AD")).1)
unfolding is_valid_hex is_xdigit is_separator
decode_of_valid_example = decode_of_valid (codes "DE-AD") true refl

decode_lem_example :
    ((decode (codes "de:ad:b")).0 ≡ (length (clean (codes "de:ad:b")) % 2 == 0))
    × (2 * length (decode (codes "de:ad:b")).1
        ≡ (if (decode (codes "de:ad:b")).0 then length (clean (codes "de:ad:b")) else 0))
decode_lem_example = decode_lem (codes "de:ad:b")
