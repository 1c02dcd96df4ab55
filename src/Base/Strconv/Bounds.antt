-- ===== src/Base/Strconv/Bounds.antt =====
-- The bounds of what ParseInt and ParseUint return, with an error or without.
use Prim.Native.Nat.{ℕ, zero, suc, ◌<◌, ◌≤◌, ◌+◌, ◌*◌}
use mathlib.Core.Logic.{inl, inr}
use mathlib.Core.Bool.{Bool, true, false, ◌&&◌}
use mathlib.Core.Option.{Option, none, some}
use mathlib.Core.List.{[], ◌∷◌}
use native.Mathlib.Omega.{arith}
use consul_k8s.Base.Tests.{Bool-cases, leb, ltb, if◌then◌else◌}
use consul_k8s.Base.Int.{ℤ, pos, negsuc, negate}
use consul_k8s.Base.Strings.{Chars, is_char}
use consul_k8s.Base.Strconv.{
  NumError, invalid_syntax, out_of_range, parse_digits, parse_uint_chars, parse_int, signed,
  digit_value, split_base, starts_with_zero,
}

-- A number of so many bits: from -cutoff to cutoff - 1.
abbrev pub Fits : ℕ → ℤ → Type 0
Fits cutoff (pos n) = n < cutoff
Fits cutoff (negsuc n) = n < cutoff

parse_digits-bound :
    (prefixed : Bool) (base limit n : ℕ) (cs : Chars)
    → n < limit
    → (parse_digits prefixed base limit n cs).1 < limit
unfolding parse_digits
parse_digits-bound prefixed base limit n [] h = h
parse_digits-bound prefixed base limit n (c ∷ cs) h = ground (
  arith,
  h,
  parse_digits-bound prefixed base limit n cs,
  parse_digits-bound prefixed base limit (n * base + digit_value c) cs,
)

parse_uint_chars-bound :
    (prefixed : Bool) (limit : ℕ) (cs : Chars)
    → 0 < limit
    → (parse_uint_chars prefixed limit cs).1 < limit
unfolding parse_uint_chars
parse_uint_chars-bound prefixed limit [] h = h
parse_uint_chars-bound prefixed limit (c ∷ cs) h =
    let b : ℕ × Chars =
      if prefixed && starts_with_zero (c ∷ cs) then split_base (c ∷ cs) else (10, c ∷ cs) in
    ground (arith, h, parse_digits-bound prefixed b.0 limit 0 b.1 h)

negate-Fits : (cutoff n : ℕ) → n ≤ cutoff → 0 < cutoff → Fits cutoff (negate n)
negate-Fits cutoff zero h positive = positive
negate-Fits cutoff (suc n) h positive = omega (arith, h)

signed-Fits :
    (cutoff : ℕ) (negative : Bool) (e : Option NumError) (n : ℕ)
    → 0 < cutoff
    → Fits cutoff (signed cutoff negative (e, n)).1
signed-Fits cutoff negative (some invalid_syntax) n h = h
signed-Fits cutoff false (some out_of_range) n h = elim (Bool-cases (leb cutoff n)) [
  | inl e ↦ rw e (omega (arith, h))
  | inr e ↦ rw e (ground (arith, e))
]
signed-Fits cutoff true (some out_of_range) n h = elim (Bool-cases (ltb cutoff n)) [
  | inl e ↦ rw e (negate-Fits cutoff cutoff (omega arith) h)
  | inr e ↦ rw e (negate-Fits cutoff n (ground (arith, e)) h)
]
signed-Fits cutoff false none n h = elim (Bool-cases (leb cutoff n)) [
  | inl e ↦ rw e (omega (arith, h))
  | inr e ↦ rw e (ground (arith, e))
]
signed-Fits cutoff true none n h = elim (Bool-cases (ltb cutoff n)) [
  | inl e ↦ rw e (negate-Fits cutoff cutoff (omega arith) h)
  | inr e ↦ rw e (negate-Fits cutoff n (ground (arith, e)) h)
]

-- ParseInt returns a number of its bits, also beside an error.
pub parse_int-Fits :
    (prefixed : Bool) (cutoff : ℕ) (cs : Chars)
    → 0 < cutoff
    → Fits cutoff (parse_int prefixed cutoff cs).1
unfolding parse_int
parse_int-Fits prefixed cutoff [] h = h
parse_int-Fits prefixed cutoff (c ∷ cs) h = elim (Bool-cases (is_char 43 c)) [
  | inl e ↦ rw e (signed-Fits cutoff false _ _ h)
  | inr e ↦ elim (Bool-cases (is_char 45 c)) [
    | inl e' ↦ rw (e, e') (signed-Fits cutoff true _ _ h)
    | inr e' ↦ rw (e, e') (signed-Fits cutoff false _ _ h)
  ]
]
