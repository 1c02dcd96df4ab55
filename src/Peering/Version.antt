-- ===== src/Peering/Version.antt =====
-- The annotation of a peering resource with its version: `strconv.ParseUint` in base 10 with 64
-- bits, and the comparison with the version that the status records.
use Prim.Native.Char.{Char, code}
use Prim.Native.Nat.{ℕ, ◌+◌, ◌*◌, ◌-◌, ◌^◌}
use consul_k8s.Base.{
  String, ◌<>◌, Bool, true, false, ◌&&◌, Option, none, some, leb, ltb, if◌then◌else◌,
}
use consul_k8s.Base.{◌≡◌, arith, Result, ok, err}
use consul_k8s.Base.Dict
use consul_k8s.Peering.{Resource}

abbrev pub annotation_peering_version : String
annotation_peering_version = "consul.hashicorp.com/peering-version"

is_digit : Char → Bool
is_digit c = leb 48 (code c) && leb (code c) 57

-- The rest of a number after the digits that make `n`. `none` is a character that is no digit, and
-- `some none` a number that does not fit, whatever follows.
digits : ℕ → String → Option (Option ℕ)
unfolding is_digit
digits n String.[] = some (some n)
digits n (String.◌∷◌ c s) =
    let m = n * 10 + (code c - 48) in
    let rest = digits m s in
    if is_digit c then (if ltb m (2 ^ 64) then rest else some none) else none

unfoldable pub parse_uint : (String → String) → String → Result ℕ
unfolding digits
parse_uint quote String.[] = err ("strconv.ParseUint: parsing " <> quote "" <> ": invalid syntax")
parse_uint quote s = elim (digits 0 s) [
  | none ↦ err ("strconv.ParseUint: parsing " <> quote s <> ": invalid syntax")
  | some none ↦ err ("strconv.ParseUint: parsing " <> quote s <> ": value out of range")
  | some (some n) ↦ ok n
]

-- The status records no version, or a smaller one.
abbrev pub is_newer : Option ℕ → ℕ → Bool
is_newer none v = true
is_newer (some latest) v = ltb latest v

unfoldable pub version_annotation_updated : (String → String) → Resource → Result Bool
unfolding parse_uint
version_annotation_updated quote o = elim (Dict.lookup annotation_peering_version o.annotations) [
  | none ↦ ok false
  | some text ↦ elim (parse_uint quote text) [
    | err e ↦ err e
    | ok v ↦ ok (is_newer o.latest_peering_version v)
  ]
]

-- The version that a status update records, or the error of the annotation.
unfoldable pub record_version : (String → String) → Resource → Result Resource
unfolding parse_uint
record_version quote o = elim (Dict.lookup annotation_peering_version o.annotations) [
  | none ↦ ok o
  | some text ↦ elim (parse_uint quote text) [
    | err e ↦ err e
    | ok v ↦
        if is_newer o.latest_peering_version v
        then ok (record o { latest_peering_version = some v })
        else ok o
  ]
]

pub record_version_done :
    (quote : String → String) (o o' : Resource)
    → record_version quote o ≡ ok o'
    → (latest : Option ℕ) × (o' ≡ record o { latest_peering_version = latest })
      × (version_annotation_updated quote o' ≡ ok false)
unfolding record_version version_annotation_updated
record_version_done quote o o' e = (o'.latest_peering_version, ground (arith, e), ground (arith, e))
