-- ===== src/HfUri/Tests.antt =====
-- The round trip at an address with blanks around it.
use computecloud_node.Prelude.{ℕ, ◌≡◌, refl, List}
use computecloud_node.Python.{ok, raise, value_error, codes, strip, strip_left, strip_right}
use computecloud_node.Python.Text.{starts_with, is_infix, split}
use computecloud_node.HfUri.{
  split_at_sign, match_parts, check_parts, parse_stripped, parse_hf_uri, build_hf_uri,
}
use computecloud_node.HfUri.RoundTrip.{parse_hf_uri-build_hf_uri}

abbrev padded : List ℕ
padded = codes " hf://org/model "

parse_padded : parse_hf_uri padded ≡ ok (codes "org/model", codes "main")
unfolding parse_hf_uri parse_stripped match_parts check_parts split_at_sign starts_with is_infix
    split strip strip_left strip_right
parse_padded = refl

traversal : parse_hf_uri (codes "hf://org/../model") ≡ raise value_error
unfolding parse_hf_uri parse_stripped match_parts check_parts split_at_sign starts_with is_infix
    split strip strip_left strip_right
traversal = refl

deep : parse_hf_uri (codes "hf://a/b/c@v1") ≡ raise value_error
unfolding parse_hf_uri parse_stripped match_parts check_parts split_at_sign starts_with is_infix
    split strip strip_left strip_right
deep = refl

parse_hf_uri-build_hf_uri_example :
    (build_hf_uri (codes "org/model") (codes "main") ≡ ok (codes "hf://org/model@main"))
    × (parse_hf_uri (codes "hf://org/model@main") ≡ ok (codes "org/model", codes "main"))
parse_hf_uri-build_hf_uri_example =
    parse_hf_uri-build_hf_uri padded (codes "org/model") (codes "main") parse_padded
