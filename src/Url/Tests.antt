-- ===== src/Url/Tests.antt =====
-- URLs, and the theorems at concrete ones.
use lmcore.Prelude.{◌≡◌, refl, arith, true, List, [], ◌∷◌, some, All, Bytes, IsByte, codes}
use lmcore.Hex.{hex_char}
use lmcore.StringUtils.{lower_char}
use lmcore.Url.{
  Url, encode, is_unreserved, decode, get_query_param, parse, port, to_string, get_default_port,
}
use lmcore.Url.Codec.{decode-encode}
use lmcore.Url.Query.{ArePairs, print_query, get_query_param-print_query}
use lmcore.Url.Whole.{IsUrl, read_back, parse-to_string}
use lmcore.Url.Sample.{sample, sample-IsStd}

abbrev text : Bytes
text = codes "a b+c/%"

text-bytes : All IsByte text
text-bytes = (
  omega arith,
  (omega arith, (omega arith, (omega arith, (omega arith, (omega arith, (omega arith, tt)))))),
)

encoded : encode text ≡ codes "a%20b%2Bc%2F%25"
unfolding encode is_unreserved hex_char
encoded = refl

decode-encode_example : decode sample (encode text) ≡ text
decode-encode_example = decode-encode sample sample-IsStd text text-bytes

abbrev camera : Url
camera = record {
  scheme = codes "rtsp";
  username = codes "me";
  password = codes "p@";
  host = codes "::1";
  port = 554;
  path = codes "/a";
  query = codes "k=v";
  fragment = codes "z1";
  valid = true;
}

camera-IsUrl : IsUrl camera
unfolding lower_char
camera-IsUrl = record {
  is_valid = refl;
  has_scheme = tt;
  scheme = (refl, (refl, (refl, (refl, tt))));
  lower = refl;
  username = (omega arith, (omega arith, tt));
  password = (omega arith, (omega arith, tt));
  named = tt;
  has_host = tt;
  host = (refl, (refl, (refl, tt)));
  small = omega arith;
  path = (refl, (refl, tt));
  rooted = refl;
  query = (refl, (refl, (refl, tt)));
  fragment = (refl, (refl, tt));
}

parse-to_string_example :
    (parse sample (to_string sample camera)
      ≡ some (read_back sample sample-IsStd camera camera-IsUrl))
    × (port (read_back sample sample-IsStd camera camera-IsUrl) ≡ port camera)
parse-to_string_example = parse-to_string sample sample-IsStd camera camera-IsUrl

-- The default port is not printed.
printed : to_string sample camera ≡ codes "rtsp://me:p%40@[::1]/a?k=v#z1"
unfolding to_string get_default_port encode is_unreserved hex_char
printed = refl

abbrev params : List (Bytes × Bytes)
params = (codes "a", codes "1") ∷ (codes "b", codes "x&y") ∷ (codes "a", codes "2") ∷ []

params-ArePairs : ArePairs params
params-ArePairs = (
  ((omega arith, tt), (omega arith, tt)),
  (
    ((omega arith, tt), (omega arith, (omega arith, (omega arith, tt)))),
    (((omega arith, tt), (omega arith, tt)), tt),
  ),
)

get_query_param-print_query_example :
    get_query_param sample (record camera { query = print_query params }) (codes "a") [] ≡ codes "2"
get_query_param-print_query_example =
    get_query_param-print_query sample sample-IsStd camera params (codes "a") [] params-ArePairs
