-- ===== src/Tests/ParseTags.antt =====
-- Tests of control-plane/helper/parsetags.
use consul_k8s.Base.{◌≡◌, refl, String, List, [], ◌∷◌, map}
use consul_k8s.Base.Strings.{chars, text, trim_space}
use consul_k8s.ParseTags.{parse_tags, is_escaped}
use consul_k8s.ParseTags.RoundTrip.{AreTags, print_tags, parse_tags-print_tags}

skipped : parse_tags "a,, b\\,c" ≡ "a" ∷ "b,c" ∷ []
unfolding parse_tags
skipped = refl

abbrev tags : List String
tags = "b,c" ∷ "\\a" ∷ []

tags-AreTags : AreTags (map chars tags)
unfolding trim_space is_escaped
tags-AreTags = (
  record { filled = refl; trimmed = refl; unescaped = refl },
  (record { filled = refl; trimmed = refl; unescaped = refl }, tt),
)

parse_tags-print_tags_example : parse_tags (text (print_tags (map chars tags))) ≡ tags
parse_tags-print_tags_example = parse_tags-print_tags tags tags-AreTags
