-- ===== src/Base/Strconv/RoundTrip.antt =====
-- ParseInt reads back what FormatInt writes.
use Prim.Native.Nat.{ℕ, zero, suc, ◌<◌, ◌+◌, ◌*◌}
use Prim.Native.Char.{Char}
use mathlib.Core.Path.{subst, ◌≡◌, refl, sym, ap, ◌∙◌}
use mathlib.Core.Logic.{inl, inr}
use mathlib.Core.Bool.{false}
use mathlib.Core.Option.{none}
use mathlib.Core.List.{List, [], ◌∷◌}
use native.Mathlib.Omega.{arith}
use consul_k8s.Base.Tests.{Bool-cases, nat_eq}
use consul_k8s.Base.Int.{ℤ, pos, negsuc}
use consul_k8s.Base.Lists.{All}
use consul_k8s.Base.Strings.{Chars, chars, is_char, chars-text}
use consul_k8s.Base.Strconv.Bounds.{Fits}
use consul_k8s.Base.Strconv.{
  parse_digits, parse_uint_chars, parse_int, digit_value, increment, digits, digit_char,
  write_digits, format_int,
}

value : List ℕ → ℕ
value [] = 0
value (d ∷ ds) = d + value ds * 10

abbrev AreDigits : List ℕ → Type 0
AreDigits ds = All (λ d. d < 10) ds

increment-value : (ds : List ℕ) → AreDigits ds → value (increment ds) ≡ suc (value ds)
unfolding increment value
increment-value [] h = refl
increment-value (d ∷ ds) h = elim (Bool-cases (nat_eq d 9)) [
  | inl e ↦ rw e (ground (arith, e, increment-value ds h.1))
  | inr e ↦ rw e (omega arith)
]

increment-AreDigits : (ds : List ℕ) → AreDigits ds → AreDigits (increment ds)
unfolding increment
increment-AreDigits [] h = (omega arith, tt)
increment-AreDigits (d ∷ ds) h = elim (Bool-cases (nat_eq d 9)) [
  | inl e ↦ rw e (omega arith, increment-AreDigits ds h.1)
  | inr e ↦ rw e (ground (arith, e, h.0), h.1)
]

digits-AreDigits : (n : ℕ) → AreDigits (digits n)
unfolding digits
digits-AreDigits zero = (omega arith, tt)
digits-AreDigits (suc n) = increment-AreDigits (digits n) (digits-AreDigits n)

digits-value : (n : ℕ) → value (digits n) ≡ n
unfolding digits value
digits-value zero = refl
digits-value (suc n) =
    increment-value (digits n) (digits-AreDigits n) ∙ ap (λ m. suc m) (digits-value n)

abbrev char_of : ℕ → Char
char_of d = digit_char d (chars "0123456789")

-- The characters of the digits.
char_of-lem :
    (d : ℕ)
    → d < 10
    → (digit_value (char_of d) ≡ d)
      × (is_char 43 (char_of d) ≡ false)
      × (is_char 45 (char_of d) ≡ false)
char_of-lem zero h = (refl, refl, refl)
char_of-lem (suc zero) h = (refl, refl, refl)
char_of-lem (suc (suc zero)) h = (refl, refl, refl)
char_of-lem (suc (suc (suc zero))) h = (refl, refl, refl)
char_of-lem (suc (suc (suc (suc zero)))) h = (refl, refl, refl)
char_of-lem (suc (suc (suc (suc (suc zero))))) h = (refl, refl, refl)
char_of-lem (suc (suc (suc (suc (suc (suc zero)))))) h = (refl, refl, refl)
char_of-lem (suc (suc (suc (suc (suc (suc (suc zero))))))) h = (refl, refl, refl)
char_of-lem (suc (suc (suc (suc (suc (suc (suc (suc zero)))))))) h = (refl, refl, refl)
char_of-lem (suc (suc (suc (suc (suc (suc (suc (suc (suc zero))))))))) h = (refl, refl, refl)
char_of-lem (suc (suc (suc (suc (suc (suc (suc (suc (suc (suc n)))))))))) h =
    absurd (omega (arith, h))

-- Reading the digits leaves their value for what follows.
parse_digits-write_digits :
    (limit : ℕ) (ds : List ℕ) (cs : Chars)
    → AreDigits ds
    → value ds < limit
    → parse_digits false 10 limit 0 (write_digits ds cs) ≡ parse_digits false 10 limit (value ds) cs
unfolding parse_digits value
parse_digits-write_digits limit [] cs h small = refl
parse_digits-write_digits limit (d ∷ ds) cs h small =
    let digit = (char_of-lem d h.0).0 in
    let before = parse_digits-write_digits limit ds (char_of d ∷ cs) h.1 (omega (arith, small)) in
    let same : value ds * 10 + digit_value (char_of d) ≡ d + value ds * 10 = omega (arith, digit) in
    before ∙ ground (arith, digit, h.0, small, ap (λ n. parse_digits false 10 limit n cs) same)

-- A text of digits has no sign.
abbrev IsUnsigned : Chars → Type 0
IsUnsigned [] = ⊥
IsUnsigned (c ∷ cs) = (is_char 43 c ≡ false) × (is_char 45 c ≡ false)

write_digits-IsUnsigned :
    (ds : List ℕ) (cs : Chars) → AreDigits ds → IsUnsigned cs → IsUnsigned (write_digits ds cs)
write_digits-IsUnsigned [] cs h u = u
write_digits-IsUnsigned (d ∷ ds) cs h u =
    write_digits-IsUnsigned ds (char_of d ∷ cs) h.1 ((char_of-lem d h.0).1, (char_of-lem d h.0).2)

parse_int-unsigned :
    (cutoff n : ℕ) (cs : Chars)
    → IsUnsigned cs
    → parse_digits false 10 (2 * cutoff) 0 cs ≡ (none, n)
    → n < cutoff
    → parse_int false cutoff cs ≡ (none, pos n)
unfolding parse_int parse_uint_chars
parse_int-unsigned cutoff n [] u read small = absurd u
parse_int-unsigned cutoff n (c ∷ cs) u read small =
    rw (u.0, u.1, parse_uint_chars, read) (ground (arith, small))

increment-cons : (ds : List ℕ) → (e : ℕ) × (es : List ℕ) × (increment ds ≡ e ∷ es)
unfolding increment
increment-cons [] = (1, [], refl)
increment-cons (d ∷ ds) = elim (Bool-cases (nat_eq d 9)) [
  | inl e ↦ (0, increment ds, rw e refl)
  | inr e ↦ (d + 1, ds, rw e refl)
]

digits-cons : (n : ℕ) → (e : ℕ) × (es : List ℕ) × (digits n ≡ e ∷ es)
unfolding digits
digits-cons zero = (0, [], refl)
digits-cons (suc n) = increment-cons (digits n)

format_int-IsUnsigned : (n : ℕ) → IsUnsigned (write_digits (digits n) [])
format_int-IsUnsigned n =
    let (e, es, cons) = digits-cons n in
    let h : AreDigits (e ∷ es) = subst AreDigits cons (digits-AreDigits n) in
    let head = char_of-lem e h.0 in
    subst (λ ds. IsUnsigned (write_digits ds [])) (sym cons)
      (write_digits-IsUnsigned es (char_of e ∷ []) h.1 (head.1, head.2))

-- What the digits of a number are read as.
digits-read :
    (limit n : ℕ)
    → n < limit
    → parse_digits false 10 limit 0 (write_digits (digits n) []) ≡ (none, n)
unfolding parse_digits
digits-read limit n small =
    parse_digits-write_digits limit (digits n) [] (digits-AreDigits n)
      (omega (arith, small, digits-value n))
    ∙ ap (λ m. (none, m)) (digits-value n)

parse_int-negative :
    (cutoff n : ℕ) (cs : Chars)
    → IsUnsigned cs
    → parse_digits false 10 (2 * cutoff) 0 cs ≡ (none, suc n)
    → n < cutoff
    → parse_int false cutoff ("-" ∷ cs) ≡ (none, negsuc n)
unfolding parse_int parse_uint_chars
parse_int-negative cutoff n [] u read small = absurd u
parse_int-negative cutoff n (c ∷ cs) u read small =
    rw (parse_uint_chars, read) (ground (arith, small))

-- ParseInt reads back what FormatInt writes of a number that has its bits.
pub parse_int-format_int :
    (cutoff : ℕ) (v : ℤ) → Fits cutoff v → parse_int false cutoff (chars (format_int v)) ≡ (none, v)
unfolding format_int
parse_int-format_int cutoff (pos n) small =
    ap (parse_int false cutoff) (chars-text (write_digits (digits n) []))
    ∙ parse_int-unsigned cutoff n (write_digits (digits n) []) (format_int-IsUnsigned n)
        (digits-read (2 * cutoff) n (omega (arith, small))) small
parse_int-format_int cutoff (negsuc n) small =
    ap (parse_int false cutoff) (chars-text ("-" ∷ write_digits (digits (suc n)) []))
    ∙ parse_int-negative cutoff n (write_digits (digits (suc n)) []) (format_int-IsUnsigned (suc n))
        (digits-read (2 * cutoff) (suc n) (omega (arith, small))) small
