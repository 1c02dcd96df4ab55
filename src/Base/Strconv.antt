-- ===== src/Base/Strconv.antt =====
-- Go's `strconv`: ParseInt, Atoi and ParseBool. A parse error is an `Option`, and the number stands
-- beside it, since the code reads the one without the other.
pub mod Bounds
pub mod RoundTrip
use Prim.Native.Char.{Char, code}
use Prim.Native.Nat.{ℕ, zero, suc, ◌+◌, ◌*◌, ◌-◌}
use Prim.Native.String.{String}
use mathlib.Core.Bool.{Bool, true, false, not, ◌&&◌, ◌||◌}
use mathlib.Core.Option.{Option, none, some}
use mathlib.Core.List.{List, [], ◌∷◌}
use consul_k8s.Base.Tests.{nat_eq, ltb, leb, if◌then◌else◌}
use consul_k8s.Base.Equality.{contains}
use consul_k8s.Base.Strings.{Chars, chars, text, is_char}
use consul_k8s.Base.Int.{ℤ, pos, negsuc, negate}

pub data NumError : Type 0 where
  invalid_syntax out_of_range : NumError

-- A letter in lower case, `c | ('x' - 'X')`, where the code asks for a letter.
abbrev lower : Char → ℕ
lower c = if leb 65 (code c) && leb (code c) 90 then code c + 32 else code c

-- The value of a digit; 36 is no digit of any base.
abbrev pub digit_value : Char → ℕ
digit_value c =
    if leb 48 (code c) && leb (code c) 57
    then code c - 48
    else if leb 97 (lower c) && leb (lower c) 122
    then lower c - 87
    else 36

-- The loop of ParseUint. The answer is the number, or the error; an overflow is met before what
-- follows it. `prefixed` says that the base is read from the text, so that `_` may stand in it.
unfoldable pub parse_digits : Bool → ℕ → ℕ → ℕ → Chars → Option NumError × ℕ
parse_digits prefixed base limit n [] = (none, n)
parse_digits prefixed base limit n (c ∷ cs) =
    let skipped = parse_digits prefixed base limit n cs in
    let m = n * base + digit_value c in
    let rest = parse_digits prefixed base limit m cs in
    if is_char 95 c && prefixed
    then skipped
    else if leb base (digit_value c)
    then (some invalid_syntax, 0)
    else if leb limit m
    then (some out_of_range, limit - 1)
    else rest

-- What was seen last by `underscoreOK`.
pub data Seen : Type 0 where
  start digit underscore other : Seen

underscores_from : Bool → Seen → Chars → Bool
underscores_from hex seen [] = elim seen [ underscore ↦ false | _ ↦ true ]
underscores_from hex seen (c ∷ cs) =
    let after_digit = underscores_from hex digit cs in
    let after_underscore = underscores_from hex underscore cs in
    let after_other = underscores_from hex other cs in
    if (leb 48 (code c) && leb (code c) 57) || (hex && leb 97 (lower c) && leb (lower c) 102)
    then after_digit
    else if is_char 95 c
    then elim seen [ digit ↦ after_underscore | _ ↦ false ]
    else elim seen [ underscore ↦ false | _ ↦ after_other ]

is_base_letter : Char → Bool
is_base_letter c = nat_eq (lower c) 98 || nat_eq (lower c) 111 || nat_eq (lower c) 120

-- `underscoreOK`, of a text without its sign. The prefix of a base counts as a digit.
underscore_ok : Chars → Bool
unfolding underscores_from is_base_letter
underscore_ok (z ∷ b ∷ cs) =
    if is_char 48 z && is_base_letter b
    then underscores_from (nat_eq (lower b) 120) digit cs
    else underscores_from false start (z ∷ b ∷ cs)
underscore_ok cs = underscores_from false start cs

abbrev base_of : Char → ℕ
base_of b = if nat_eq (lower b) 98 then 2 else if nat_eq (lower b) 111 then 8 else 16

-- The text after the prefix of the base, and the base, of a text that begins with 0.
abbrev split_base : Chars → ℕ × Chars
split_base (z ∷ b ∷ c ∷ cs) =
    if nat_eq (lower b) 98 || nat_eq (lower b) 111 || nat_eq (lower b) 120
    then (base_of b, c ∷ cs)
    else (8, b ∷ c ∷ cs)
split_base (z ∷ cs) = (8, cs)
split_base [] = (10, [])

starts_with_zero : Chars → Bool
starts_with_zero [] = false
starts_with_zero (c ∷ cs) = is_char 48 c

-- `ParseUint(s, base, bits)` for the bases 0 (`prefixed`) and 10.
unfoldable pub parse_uint_chars : Bool → ℕ → Chars → Option NumError × ℕ
unfolding parse_digits underscore_ok starts_with_zero
parse_uint_chars prefixed limit [] = (some invalid_syntax, 0)
parse_uint_chars prefixed limit cs =
    let (base, rest) = if prefixed && starts_with_zero cs then split_base cs else (10, cs) in
    let (e, n) = parse_digits prefixed base limit 0 rest in
    elim e [
      | some e' ↦ (some e', n)
      | none ↦ if prefixed && not (underscore_ok cs) then (some invalid_syntax, 0) else (none, n)
    ]

-- The sign, with the bounds of `bits` bits: a number out of them is the nearest bound.
abbrev signed : ℕ → Bool → Option NumError × ℕ → Option NumError × ℤ
signed cutoff negative (some invalid_syntax, n) = (some invalid_syntax, pos 0)
signed cutoff negative (e, n) =
    if not negative && leb cutoff n
    then (some out_of_range, pos (cutoff - 1))
    else if negative && ltb cutoff n
    then (some out_of_range, negate cutoff)
    else (e, if negative then negate n else pos n)

-- `ParseInt(s, base, bits)` with `cutoff` for 2 ^ (bits - 1).
unfoldable pub parse_int : Bool → ℕ → Chars → Option NumError × ℤ
unfolding parse_uint_chars
parse_int prefixed cutoff [] = (some invalid_syntax, pos 0)
parse_int prefixed cutoff (c ∷ cs) =
    if is_char 43 c
    then signed cutoff false (parse_uint_chars prefixed (2 * cutoff) cs)
    else if is_char 45 c
    then signed cutoff true (parse_uint_chars prefixed (2 * cutoff) cs)
    else signed cutoff false (parse_uint_chars prefixed (2 * cutoff) (c ∷ cs))

-- `ParseBool`, with `none` for an error.
unfoldable pub parse_bool : String → Option Bool
parse_bool s =
    if contains ("1" ∷ "t" ∷ "T" ∷ "TRUE" ∷ "true" ∷ "True" ∷ []) s
    then some true
    else if contains ("0" ∷ "f" ∷ "F" ∷ "FALSE" ∷ "false" ∷ "False" ∷ []) s
    then some false
    else none

-- The decimal digits of a number, the last first.
unfoldable pub increment : List ℕ → List ℕ
increment [] = 1 ∷ []
increment (d ∷ ds) = let rest = increment ds in if nat_eq d 9 then 0 ∷ rest else (d + 1) ∷ ds

unfoldable pub digits : ℕ → List ℕ
unfolding increment
digits zero = 0 ∷ []
digits (suc n) = increment (digits n)

abbrev digit_char : ℕ → Chars → Char
digit_char zero (c ∷ cs) = c
digit_char (suc n) (c ∷ cs) = digit_char n cs
digit_char n [] = "0"

abbrev write_digits : List ℕ → Chars → Chars
write_digits [] cs = cs
write_digits (d ∷ ds) cs = write_digits ds (digit_char d (chars "0123456789") ∷ cs)

-- `FormatInt` in base 10.
unfoldable pub format_int : ℤ → String
unfolding digits
format_int (pos n) = text (write_digits (digits n) [])
format_int (negsuc n) = text ("-" ∷ write_digits (digits (suc n)) [])
