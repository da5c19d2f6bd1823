-- ===== src/Uuid/Tests.antt =====
-- Texts of identifiers.
use lmcore.Prelude.{◌+◌, ◌/◌, ◌%◌, ◌^◌, ◌≡◌, refl, arith, true, false, codes, get_or}
use lmcore.Hex.{hex_char, is_xdigit}
use lmcore.Uuid.{
  put_hex, format, with_version, with_variant, generate, validate, digits_but_dashes, add_dashes,
  remove_dashes,
}
use lmcore.Uuid.Text.{remove_dashes-add_dashes, validate-generate}
use lmcore.Uuid.Version.{version_lem}

generate_runs : generate true 0 0 ≡ codes "00000000-0000-4000-8000-000000000000"
unfolding generate format put_hex with_version with_variant hex_char
generate_runs = refl

validate_runs : validate (codes "00000000-0000-4000-8000-00000000000g") ≡ false
unfolding validate digits_but_dashes is_xdigit
validate_runs = refl

remove_dashes-add_dashes_example :
    remove_dashes (add_dashes (codes "0123456789abcdef0123456789abcdef"))
    ≡ remove_dashes (codes "0123456789abcdef0123456789abcdef")
remove_dashes-add_dashes_example =
    remove_dashes-add_dashes (codes "0123456789abcdef0123456789abcdef")

validate-generate_example : validate (generate true 12345 67890) ≡ true
validate-generate_example = validate-generate true 12345 67890

version_lem_example :
    (get_or (generate true 12345 67890) 14 0 ≡ b'4')
    × (get_or (generate true 12345 67890) 19 0 ≡ hex_char false (8 + 67890 / 2 ^ 60 % 4))
version_lem_example = version_lem 12345 67890 (omega arith)
