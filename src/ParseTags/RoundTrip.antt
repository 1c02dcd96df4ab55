-- ===== src/ParseTags/RoundTrip.antt =====
-- The annotation that stands for a list of tags (control-plane/helper/parsetags/parsetags.go).
use Prim.Native.Char.{Char}
use package.text.Mathlib.TextEquality.{Char-path}
use consul_k8s.Base.{
  String, Option, ◌≡◌, refl, sym, ap, ◌∙◌, true, false, none, some, List, [], ◌∷◌, ◌++◌, arith,
  Bool-cases, inl, inr,
}
use consul_k8s.Base.{if◌then◌else◌, map}
use consul_k8s.Base.Strings.{
  Chars, chars, text, is_char, is_empty, trim_space, chars-text, text-chars,
}
use consul_k8s.ParseTags.{comma, backslash, is_escaped, drop_last, step, scan, parse_tags}

-- Each comma of a tag is escaped.
unfoldable pub escape : Chars → Chars
escape [] = []
escape (c ∷ cs) =
    let rest = escape cs in if is_char 44 c then backslash ∷ comma ∷ rest else c ∷ rest

-- The tags, escaped, with a comma between any two.
unfoldable pub print_tags : List Chars → Chars
unfolding escape
print_tags [] = []
print_tags (t ∷ []) = escape t
print_tags (t ∷ u ∷ ts) = escape t ++ comma ∷ print_tags (u ∷ ts)

-- A tag that an annotation can hold: not empty, no space around it, no backslash at its end.
pub record IsTag (t : Chars) : Type 0 where
  pub filled : is_empty t ≡ false
  pub trimmed : trim_space t ≡ t
  pub unescaped : is_escaped t ≡ false

abbrev pub AreTags : List Chars → Type 0
AreTags [] = Unit
AreTags (t ∷ ts) = IsTag t × AreTags ts

append_cons : (xs ys : Chars) (c : Char) → (xs ++ c ∷ []) ++ ys ≡ xs ++ c ∷ ys
append_cons [] ys c = refl
append_cons (x ∷ xs) ys c = ap (λ l. x ∷ l) (append_cons xs ys c)

append_nil : (xs : Chars) → xs ++ [] ≡ xs
append_nil [] = refl
append_nil (x ∷ xs) = ap (λ l. x ∷ l) (append_nil xs)

is_escaped-snoc : (xs : Chars) → is_escaped (xs ++ backslash ∷ []) ≡ true
unfolding is_escaped
is_escaped-snoc [] = refl
is_escaped-snoc (x ∷ []) = refl
is_escaped-snoc (x ∷ y ∷ xs) = is_escaped-snoc (y ∷ xs)

drop_last-snoc : (xs : Chars) (c : Char) → drop_last (xs ++ c ∷ []) ≡ xs
unfolding drop_last
drop_last-snoc [] c = refl
drop_last-snoc (x ∷ []) c = refl
drop_last-snoc (x ∷ y ∷ xs) c = ap (λ l. x ∷ l) (drop_last-snoc (y ∷ xs) c)

is_empty-snoc : (xs : Chars) (c : Char) → is_empty (xs ++ c ∷ []) ≡ false
is_empty-snoc [] c = refl
is_empty-snoc (x ∷ xs) c = refl

step-plain : (t : Chars) (c : Char) → is_char 44 c ≡ false → step t c ≡ (none, t ++ c ∷ [])
unfolding step
step-plain t c e = rw (e, step)

step-escaped : (t : Chars) → step (t ++ backslash ∷ []) comma ≡ (none, t ++ comma ∷ [])
unfolding step
step-escaped t = rw (step, is_empty-snoc t backslash, is_escaped-snoc t, drop_last-snoc t backslash)

step-pushed : (t : Chars) → IsTag t → step t comma ≡ (some t, [])
unfolding step
step-pushed t tag = rw (step, tag.filled, tag.unescaped, tag.trimmed)

-- A round of the loop by what the step answers.
scan-step :
    (t cs : Chars) (c : Char) (r : Option (Chars) × Chars)
    → step t c ≡ r
    → scan t (c ∷ cs) ≡ elim r.0 [ none ↦ scan r.1 cs | some tag ↦ tag ∷ scan r.1 cs ]
unfolding scan
scan-step t cs c r e = ap (λ r. elim r.0 [ none ↦ scan r.1 cs | some tag ↦ tag ∷ scan r.1 cs ]) e

-- An escaped tag is read as the tag.
scan-escape :
    (t next_tag rest : Chars) → scan next_tag (escape t ++ rest) ≡ scan (next_tag ++ t) rest
unfolding escape scan
scan-escape [] next_tag rest = ap (λ l. scan l rest) (sym (append_nil next_tag))
scan-escape (c ∷ cs) next_tag rest =
    let read : scan (next_tag ++ c ∷ []) (escape cs ++ rest) ≡ scan (next_tag ++ c ∷ cs) rest =
      scan-escape cs (next_tag ++ c ∷ []) rest
      ∙ ap (λ l. scan l rest) (append_cons next_tag cs c) in
    elim (Bool-cases (is_char 44 c)) [
      | inl e ↦
          let same : c ≡ comma = Char-path c comma (ground (arith, e)) in
          rw e (
            scan-step next_tag (comma ∷ escape cs ++ rest) backslash _
              (step-plain next_tag backslash refl)
            ∙ scan-step (next_tag ++ backslash ∷ []) (escape cs ++ rest) comma _
                (step-escaped next_tag)
            ∙ ap (λ d. scan (next_tag ++ d ∷ []) (escape cs ++ rest)) (sym same)
            ∙ read)
      | inr e ↦ rw e (scan-step next_tag (escape cs ++ rest) c _ (step-plain next_tag c e) ∙ read)
    ]

scan-print_tags : (ts : List Chars) → AreTags ts → scan [] (print_tags ts) ≡ ts
unfolding print_tags scan
scan-print_tags [] h = refl
scan-print_tags (t ∷ []) (tag, h) =
    ap (scan []) (sym (append_nil (escape t))) ∙ scan-escape t [] [] ∙ rw (tag.filled, tag.trimmed)
scan-print_tags (t ∷ u ∷ ts) (tag, h) =
    scan-escape t [] (comma ∷ print_tags (u ∷ ts))
    ∙ scan-step t (print_tags (u ∷ ts)) comma _ (step-pushed t tag)
    ∙ ap (λ l. t ∷ l) (scan-print_tags (u ∷ ts) h)

map-text-chars : (ts : List String) → map text (map chars ts) ≡ ts
map-text-chars [] = refl
map-text-chars (t ∷ ts) = cc (text-chars t, map-text-chars ts)

-- ParseTags reads back the tags of an annotation that was made of them by escaping their commas and
-- joining them, if no tag is empty, has space at its ends or ends in a backslash.
pub parse_tags-print_tags :
    (ts : List String) → AreTags (map chars ts) → parse_tags (text (print_tags (map chars ts))) ≡ ts
unfolding parse_tags
parse_tags-print_tags ts h =
    rw (chars-text (print_tags (map chars ts)), scan-print_tags (map chars ts) h)
      (map-text-chars ts)
