-- ===== src/Tests/Updating.antt =====
-- Versions and texts that are none.
use onegw.Prelude.{◌≡◌, refl, none, some}
use onegw.Prelude.Int.{pos}
use onegw.Update.{
  less, compare, parse_semver, atoi, compare_pre, compare_parts, compare_idents, compare_strings,
  split_dots, cut_dash, trim_v, trim_left, trim_right, is_space, valid_pre, all_parts, all_pre,
  numbers, number, magnitude, digits, negated,
}
use onegw.Update.Signs.{flip, Chain}
use onegw.Update.Order.{compare-Chain}

version :
    parse_semver " v1.20.3-rc.1\n"
    ≡ some (record { major = pos 1; minor = pos 20; patch = pos 3; pre = "rc.1" })
unfolding parse_semver atoi split_dots cut_dash trim_v trim_left trim_right is_space valid_pre
    all_parts all_pre numbers number magnitude digits negated
version = refl

no_version : parse_semver "1.2.3-rc..1" ≡ none
unfolding parse_semver atoi split_dots cut_dash trim_v trim_left trim_right is_space valid_pre
    all_parts all_pre numbers number magnitude digits negated
no_version = refl

-- A plus sign is read.
plus_sign :
    parse_semver "+1.2.3" ≡ some (record { major = pos 1; minor = pos 2; patch = pos 3; pre = "" })
unfolding parse_semver atoi split_dots cut_dash trim_v trim_left trim_right is_space valid_pre
    all_parts all_pre numbers number magnitude digits negated
plus_sign = refl

tenth_candidate : compare_pre "rc.2" "rc.10" ≡ less
unfolding compare_pre compare_parts compare_idents compare_strings atoi split_dots magnitude digits
    negated
tenth_candidate = refl

-- A signed identifier is a number.
signed_identifier : compare_pre "-5" "1" ≡ less
unfolding compare_pre compare_parts compare_idents compare_strings atoi split_dots magnitude digits
    negated
signed_identifier = refl

compare-Chain_example :
    (compare "1.0.0" "v1.0.0-rc.1" ≡ flip (compare "v1.0.0-rc.1" "1.0.0"))
    × Chain
        (compare "v1.0.0-rc.1" "1.0.0")
        (compare "1.0.0" "1.0.1")
        (compare "v1.0.0-rc.1" "1.0.1")
compare-Chain_example = compare-Chain "v1.0.0-rc.1" "1.0.0" "1.0.1"
