-- ===== src/ParseTags.antt =====
-- control-plane/helper/parsetags/parsetags.go: `ParseTags`. A text is the list of its characters.
-- The code looks at the last byte of a tag, which is a backslash if and only if the last character
-- is, as no other character has that byte in UTF-8.
pub mod RoundTrip
use Prim.Native.Char.{Char}
use consul_k8s.Base.{String, Bool, true, false, not, Option, none, some, List, [], ◌∷◌, ◌++◌, map}
use consul_k8s.Base.{if◌then◌else◌}
use consul_k8s.Base.Strings.{Chars, chars, text, is_char, is_empty, trim_space}

abbrev pub comma : Char
comma = ","

abbrev pub backslash : Char
backslash = "\\"

-- The last character is a backslash.
unfoldable pub is_escaped : Chars → Bool
is_escaped [] = false
is_escaped (c ∷ []) = is_char 92 c
is_escaped (_ ∷ c ∷ cs) = is_escaped (c ∷ cs)

-- `nextTag[0:len(nextTag)-1]`
unfoldable pub drop_last : Chars → Chars
drop_last [] = []
drop_last (c ∷ []) = []
drop_last (c ∷ c' ∷ cs) = c ∷ drop_last (c' ∷ cs)

-- One round of the loop: the tag that is pushed, if any, and `nextTag` afterwards.
unfoldable pub step : Chars → Char → Option (Chars) × Chars
unfolding trim_space is_escaped drop_last
step next_tag c =
    if not (is_char 44 c)
    then (none, next_tag ++ c ∷ [])
    else if is_empty next_tag
    then (none, next_tag)
    else if is_escaped next_tag
    then (none, drop_last next_tag ++ comma ∷ [])
    else (some (trim_space next_tag), [])

-- The loop from `nextTag` on, and what follows it.
unfoldable pub scan : Chars → Chars → List Chars
unfolding step
scan next_tag [] = if is_empty next_tag then [] else trim_space next_tag ∷ []
scan next_tag (c ∷ cs) =
    let (pushed, next_tag') = step next_tag c in
    let rest = scan next_tag' cs in elim pushed [ none ↦ rest | some tag ↦ tag ∷ rest ]

unfoldable pub parse_tags : String → List String
unfolding scan
parse_tags tags_anno = map text (scan [] (chars tags_anno))
