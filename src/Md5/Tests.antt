-- ===== src/Md5/Tests.antt =====
-- The test suite of RFC 1321.
use lmcore.Prelude.{◌≡◌, refl, [], ◌∷◌, ◌++◌, Bytes, replicate, codes, arith}
use lmcore.Hex.{hex_char}
use lmcore.Md5.{
  f_mix, g_mix, h_mix, i_mix, rotate_left, round, rounds, decode, encode, transform, init,
  transform_loop, add_count, update, final, digest_to_hex, calculate, update_all,
}
use lmcore.Md5.Blocks.{Absorbed}
use lmcore.Md5.Update.{init-Absorbed, update-Absorbed}
use lmcore.Md5.Final.{pieces_lem}

empty_text : calculate (replicate 64 7) [] ≡ codes "d41d8cd98f00b204e9800998ecf8427e"
unfolding calculate digest_to_hex final update add_count transform_loop transform encode decode
    rounds round rotate_left f_mix g_mix h_mix i_mix init hex_char
empty_text = refl

abc : calculate (replicate 64 7) (codes "abc") ≡ codes "900150983cd24fb0d6963f7d28e17f72"
unfolding calculate digest_to_hex final update add_count transform_loop transform encode decode
    rounds round rotate_left f_mix g_mix h_mix i_mix init hex_char
abc = refl

abbrev nulls : Bytes
nulls = replicate 64 0

abbrev ones : Bytes
ones = replicate 64 1

update-Absorbed_example : Absorbed (update (init nulls) (codes "abc")) ([] ++ codes "abc")
update-Absorbed_example =
    update-Absorbed (init nulls) [] (codes "abc") (omega arith) (init-Absorbed nulls refl)

pieces_lem_example :
    final (update_all (init nulls) (codes "a" ∷ codes "bc" ∷ []))
    ≡ final (update_all (init ones) (codes "abc" ∷ []))
pieces_lem_example =
    pieces_lem nulls ones (codes "a" ∷ codes "bc" ∷ []) (codes "abc" ∷ []) refl refl
      (omega arith, (omega arith, tt)) (omega arith, tt) refl
