-- ===== src/Base/Strings/Join.antt =====
-- `strings.Join` by one character, and how `Split` and `SplitN` undo it.
use Prim.Native.Char.{Char}
use mathlib.Core.Path.{◌≡◌, refl, ap, ◌∙◌}
use mathlib.Core.Logic.{inl, inr}
use mathlib.Core.Bool.{Bool, true, false, ◌||◌, ◌&&◌}
use mathlib.Core.List.{List, [], ◌∷◌, ◌++◌}
use Prim.Native.Nat.{ℕ, zero, suc}
use native.Mathlib.Omega.{arith}
use consul_k8s.Base.Lists.{All}
use consul_k8s.Base.Tests.{if◌then◌else◌, Bool-cases}
use consul_k8s.Base.Strings.{
  Chars, is_char, is_space, split, split_n, contains_char, is_empty, trim_left, trim_right,
  trim_space,
}

abbrev pub join : Char → List Chars → Chars
join sep [] = []
join sep (w ∷ []) = w
join sep (w ∷ v ∷ ws) = w ++ sep ∷ join sep (v ∷ ws)

-- A text without this character.
abbrev pub Lacks : ℕ → Chars → Type 0
Lacks n s = contains_char n s ≡ false

pub contains_char-append :
    (n : ℕ) (s t : Chars) → contains_char n (s ++ t) ≡ (contains_char n s || contains_char n t)
unfolding contains_char
contains_char-append n [] t = refl
contains_char-append n (c ∷ s) t = ground (arith, contains_char-append n s t)

pub contains_char-join :
    (n : ℕ) (sep : Char) (ws : List Chars)
    → is_char n sep ≡ false
    → All (Lacks n) ws
    → Lacks n (join sep ws)
unfolding contains_char
contains_char-join n sep [] other lacks = refl
contains_char-join n sep (w ∷ []) other lacks = lacks.0
contains_char-join n sep (w ∷ v ∷ ws) other lacks = ground (
  arith,
  other,
  lacks.0,
  contains_char-append n w (sep ∷ join sep (v ∷ ws)),
  contains_char-join n sep (v ∷ ws) other lacks.1,
)

split-last : (n : ℕ) (w : Chars) → Lacks n w → split n w ≡ w ∷ []
unfolding split contains_char
split-last n [] lacks = refl
split-last n (c ∷ w) lacks = ground (arith, lacks, split-last n w)

split-first :
    (n : ℕ) (sep : Char) (w s : Chars)
    → is_char n sep ≡ true
    → Lacks n w
    → split n (w ++ sep ∷ s) ≡ w ∷ split n s
unfolding split contains_char
split-first n sep [] s same lacks = ground (arith, same)
split-first n sep (c ∷ w) s same lacks = ground (arith, same, lacks, split-first n sep w s same)

pub split-join :
    (n : ℕ) (sep : Char) (w : Chars) (ws : List Chars)
    → is_char n sep ≡ true
    → All (Lacks n) (w ∷ ws)
    → split n (join sep (w ∷ ws)) ≡ w ∷ ws
split-join n sep w [] same lacks = split-last n w lacks.0
split-join n sep w (v ∷ ws) same lacks =
    split-first n sep w (join sep (v ∷ ws)) same lacks.0
    ∙ ap (λ l. w ∷ l) (split-join n sep v ws same lacks.1)

split_n-last : (m n : ℕ) (w : Chars) → Lacks n w → split_n m n w ≡ w ∷ []
unfolding split_n contains_char
split_n-last zero n w lacks = refl
split_n-last (suc m) n [] lacks = refl
split_n-last (suc m) n (c ∷ w) lacks = ground (arith, lacks, split_n-last (suc m) n w)

split_n-first :
    (m n : ℕ) (sep : Char) (w s : Chars)
    → is_char n sep ≡ true
    → Lacks n w
    → split_n (suc m) n (w ++ sep ∷ s) ≡ w ∷ split_n m n s
unfolding split_n contains_char
split_n-first m n sep [] s same lacks = ground (arith, same)
split_n-first m n sep (c ∷ w) s same lacks =
    ground (arith, same, lacks, split_n-first m n sep w s same)

pub split_n-pair :
    (m n : ℕ) (sep : Char) (w v : Chars)
    → is_char n sep ≡ true
    → Lacks n w
    → Lacks n v
    → split_n (suc m) n (w ++ sep ∷ v) ≡ w ∷ v ∷ []
split_n-pair m n sep w v same lacks lacks' =
    split_n-first m n sep w v same lacks ∙ ap (λ l. w ∷ l) (split_n-last m n v lacks')

-- A dot is no space, so that trimming keeps it.
dot_kept : (c : Char) → is_char 46 c ≡ true → is_space c ≡ false
unfolding is_space
dot_kept c h = ground (arith, h)

contains_char-trim_left : (s : Chars) → contains_char 46 (trim_left s) ≡ contains_char 46 s
unfolding trim_left contains_char
contains_char-trim_left [] = refl
contains_char-trim_left (c ∷ s) = ground (arith, contains_char-trim_left s, dot_kept c)

-- A round of trim_right.
contains_char-round :
    (n : ℕ) (c : Char) (r s : Chars) (space : Bool)
    → (is_char n c ≡ true → space ≡ false)
    → contains_char n r ≡ contains_char n s
    → contains_char n (if space && is_empty r then [] else c ∷ r)
      ≡ (is_char n c || contains_char n s)
unfolding contains_char
contains_char-round n c r s false other h = ap (λ b. is_char n c || b) h
contains_char-round n c [] s true other h = elim (Bool-cases (is_char n c)) [
  | inl e ↦ absurd (ground (arith, other e))
  | inr e ↦ rw e h
]
contains_char-round n c (x ∷ r) s true other h = ap (λ b. is_char n c || b) h

contains_char-trim_right : (s : Chars) → contains_char 46 (trim_right s) ≡ contains_char 46 s
unfolding trim_right contains_char
contains_char-trim_right [] = refl
contains_char-trim_right (c ∷ s) =
    contains_char-round 46 c (trim_right s) s (is_space c) (dot_kept c) (contains_char-trim_right s)

pub contains_char-trim_space : (s : Chars) → contains_char 46 (trim_space s) ≡ contains_char 46 s
unfolding trim_space
contains_char-trim_space s = contains_char-trim_right (trim_left s) ∙ contains_char-trim_left s
