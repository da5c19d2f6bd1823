-- ===== src/StringUtils/Tests.antt =====
-- The examples of include/lmcore/string_utils.h.
use lmcore.Prelude.{◌++◌, ◌≡◌, ◌↔◌, refl, true, false, if◌then◌else◌, [], ◌∷◌, Bytes, codes}
use lmcore.StringUtils.{
  bytes_eq, starts_with, ends_with, find, contains, get_lines, split_char, split_loop, split, join,
  is_space, trim_left, trim_end, trim_right, trim, to_lower, equals_ignore_case, replace,
  replace_all, keep_all,
}
use lmcore.StringUtils.Find.{affix_lem, contains_lem}
use lmcore.StringUtils.Split.{replace_all_lem, join-split, split-skip, last_is, join-split_char}
use lmcore.StringUtils.Trim.{AllSpace, first_is_space, last_is_space, trim_lem}
use lmcore.StringUtils.Case.{equals_ignore_case_lem}

split_runs : split_char (codes "a,,b,") b',' false ≡ codes "a" ∷ [] ∷ codes "b" ∷ []
unfolding split_char get_lines
split_runs = refl

split_text_runs : split (codes "a::b::") (codes "::") true ≡ codes "a" ∷ codes "b" ∷ []
unfolding split split_loop find starts_with bytes_eq
split_text_runs = refl

replace_runs : replace (codes "aXbX") (codes "X") (codes "--") ≡ codes "a--bX"
unfolding replace find starts_with bytes_eq
replace_runs = refl

trim_runs : trim (codes "  a b ") ≡ codes "a b"
unfolding trim trim_left trim_right trim_end is_space
trim_runs = refl

abbrev csv : Bytes
csv = codes "a,b,"

affix_lem_example :
    ((starts_with csv (codes "a,") ≡ true) ↔ ((r : Bytes) × (csv ≡ codes "a," ++ r)))
    × ((ends_with csv (codes "a,") ≡ true) ↔ ((r : Bytes) × (csv ≡ r ++ codes "a,")))
affix_lem_example = affix_lem csv (codes "a,")

contains_lem_example :
    (contains csv (codes ",b") ≡ true)
    ↔ ((a : Bytes) × (b : Bytes) × (csv ≡ a ++ (codes ",b" ++ b)))
contains_lem_example = contains_lem csv (codes ",b")

replace_all_lem_example :
    replace_all csv (codes ",") (codes "; ") ≡ join (split csv (codes ",") false) (codes "; ")
replace_all_lem_example = replace_all_lem csv (codes ",") (codes "; ")

join-split_example : join (split csv (codes ",") false) (codes ",") ≡ csv
join-split_example = join-split csv (codes ",")

split-skip_example :
    (split csv (codes ",") true ≡ keep_all true (split csv (codes ",") false))
    × (split_char csv b',' true ≡ keep_all true (split_char csv b',' false))
split-skip_example = split-skip csv (codes ",") b','

join-split_char_example :
    join (split_char csv b',' false) (b',' ∷ []) ++ (if last_is b',' csv then b',' ∷ [] else [])
    ≡ csv
join-split_char_example = join-split_char csv b','

trim_lem_example :
    (first_is_space (trim (codes " a ")) ≡ false)
    × (last_is_space (trim (codes " a ")) ≡ false)
    × ((l : Bytes) × (r : Bytes) × AllSpace l
        × AllSpace r
        × (codes " a " ≡ l ++ (trim (codes " a ") ++ r)))
trim_lem_example = trim_lem (codes " a ")

equals_ignore_case_lem_example :
    (equals_ignore_case (codes "Abc") (codes "aBC") ≡ true)
    ↔ (to_lower (codes "Abc") ≡ to_lower (codes "aBC"))
equals_ignore_case_lem_example = equals_ignore_case_lem (codes "Abc") (codes "aBC")
