-- ===== src/Base/Strings.antt =====
-- Go's `strings`, on texts as lists of characters and, at the end, on strings. A separator is the
-- code of an ASCII character.
pub mod Join
use Prim.Native.Char.{Char, code}
use Prim.Native.Nat.{ℕ, zero, suc}
use Prim.Native.String.{String}
use mathlib.Core.Path.{◌≡◌, refl, ap}
use mathlib.Core.Bool.{Bool, true, false, ◌&&◌, ◌||◌}
use mathlib.Core.Option.{Option, none, some}
use mathlib.Core.List.{List, [], ◌∷◌}
use consul_k8s.Base.Tests.{nat_eq, leb, if◌then◌else◌}

abbrev pub Chars : Type 0
Chars = List Char

abbrev pub chars : String → Chars
chars String.[] = []
chars (String.◌∷◌ c s) = c ∷ chars s

abbrev pub text : Chars → String
text [] = String.[]
text (c ∷ cs) = String.◌∷◌ c (text cs)

pub chars-text : (cs : Chars) → chars (text cs) ≡ cs
chars-text [] = refl
chars-text (c ∷ cs) = ap (λ l. c ∷ l) (chars-text cs)

pub text-chars : (s : String) → text (chars s) ≡ s
text-chars String.[] = refl
text-chars (String.◌∷◌ c s) = ap (λ l. String.◌∷◌ c l) (text-chars s)

-- The character has this code.
abbrev pub is_char : ℕ → Char → Bool
is_char n c = nat_eq (code c) n

-- `unicode.IsSpace`
unfoldable pub is_space : Char → Bool
is_space c =
    (leb 9 (code c) && leb (code c) 13)
    || is_char 32 c
    || is_char 133 c
    || is_char 160 c
    || is_char 5760 c
    || (leb 8192 (code c) && leb (code c) 8202)
    || is_char 8232 c
    || is_char 8233 c
    || is_char 8239 c
    || is_char 8287 c
    || is_char 12288 c

abbrev pub is_empty {ℓ} : {A : Type ℓ} → List A → Bool
is_empty [] = true
is_empty (_ ∷ _) = false

trim_left : Chars → Chars
unfolding is_space
trim_left [] = []
trim_left (c ∷ cs) = let rest = trim_left cs in if is_space c then rest else c ∷ cs

trim_right : Chars → Chars
unfolding is_space
trim_right [] = []
trim_right (c ∷ cs) =
    let rest = trim_right cs in if is_space c && is_empty rest then [] else c ∷ rest

-- `strings.TrimSpace`
unfoldable pub trim_space : Chars → Chars
unfolding trim_left trim_right
trim_space s = trim_right (trim_left s)

abbrev pub cons_first : Char → List Chars → List Chars
cons_first c [] = (c ∷ []) ∷ []
cons_first c (w ∷ ws) = (c ∷ w) ∷ ws

-- `strings.Split` by one character.
unfoldable pub split : ℕ → Chars → List Chars
split sep [] = [] ∷ []
split sep (c ∷ cs) =
    let rest = split sep cs in if is_char sep c then [] ∷ rest else cons_first c rest

-- `strings.SplitN` by one character, with `n` cuts at most.
unfoldable pub split_n : ℕ → ℕ → Chars → List Chars
split_n zero sep cs = cs ∷ []
split_n (suc n) sep [] = [] ∷ []
split_n (suc n) sep (c ∷ cs) =
    let cut = [] ∷ split_n n sep cs in
    let rest = cons_first c (split_n (suc n) sep cs) in if is_char sep c then cut else rest

-- `strings.Contains` of one character.
unfoldable pub contains_char : ℕ → Chars → Bool
contains_char sep [] = false
contains_char sep (c ∷ cs) = is_char sep c || contains_char sep cs

-- What follows the prefix: `strings.HasPrefix` and `strings.TrimPrefix` in one.
unfoldable pub after_prefix : Chars → Chars → Option Chars
after_prefix [] s = some s
after_prefix (p ∷ ps) [] = none
after_prefix (p ∷ ps) (c ∷ cs) =
    let rest = after_prefix ps cs in if is_char (code p) c then rest else none

abbrev pub trim_prefix : String → String → String
trim_prefix s p = elim (after_prefix (chars p) (chars s)) [ none ↦ s | some rest ↦ text rest ]

abbrev pub trimmed : String → String
trimmed s = text (trim_space (chars s))
