-- ===== src/Catalog/Source/Selection.antt =====
-- Which services of Consul the sink is to have (control-plane/catalog/to-k8s/source.go).
use text.Mathlib.TextLemmas.{append_cancel_left}
use consul_k8s.Base.{◌≡◌, refl, ◌∙◌, String, ◌<>◌, Option, none, some, arith}
use consul_k8s.Base.{List, [], ◌∷◌, ◌==◌, if◌then◌else◌, contains, string_dec, Bool-cases, inl, inr}
use consul_k8s.Base.Dict.{Dict, NodupKeys, lookup, insert, lookup-insert}
use consul_k8s.Catalog.Source.{Source, is_k8s, dns_name, select}

-- The service is listed, without the tag.
abbrev pub wanted : Source → String → Dict (List String) → Option String
wanted s name m = elim (lookup name m) [
  | none ↦ none
  | some tags ↦ if contains tags s.consul_k8s_tag then none else some (dns_name s name)
]

is_k8s-contains : (s : Source) (ts : List String) → is_k8s s ts ≡ contains ts s.consul_k8s_tag
unfolding is_k8s
is_k8s-contains s [] = refl
is_k8s-contains s (t ∷ ts) = ground (arith, is_k8s-contains s ts)

prefix-eq : (p a b : String) → ((p <> a) == (p <> b)) ≡ (a == b)
prefix-eq p a b = elim (string_dec a b) [
  | yes same ↦ rw same (ground arith)
  | no other ↦ ground (arith, other, append_cancel_left p a b)
]

select-over :
    (s : Source) (name : String) (m : Dict (List String)) (d : Dict String)
    → NodupKeys m
    → lookup (s.prefix <> name) (select s m d)
      ≡ elim (wanted s name m) [ none ↦ lookup (s.prefix <> name) d | some dns ↦ some dns ]
unfolding select lookup
select-over s name [] d u = refl
select-over s name ((name', tags) ∷ rest) d (fresh, u) =
    let key = s.prefix <> name' in
    let added = insert key (dns_name s name') d in
    elim (Bool-cases (is_k8s s tags)) [
      | inl e ↦ rw e (ground (arith, e, fresh, is_k8s-contains s tags, select-over s name rest d u))
      | inr e ↦ rw e (
          ground (
            arith,
            e,
            fresh,
            is_k8s-contains s tags,
            select-over s name rest added u,
            lookup-insert (s.prefix <> name) key (dns_name s name') d,
            prefix-eq s.prefix name name',
          ))
    ]

-- Of a map with distinct names, the selection has an entry for a name, under the prefix and the
-- name, if and only if the map lists the name without the tag of the sync; the entry is the DNS
-- name of the service.
pub lookup-select :
    (s : Source) (name : String) (m : Dict (List String))
    → NodupKeys m
    → lookup (s.prefix <> name) (select s m []) ≡ wanted s name m
unfolding lookup
lookup-select s name m u = select-over s name m [] u ∙ ground arith
