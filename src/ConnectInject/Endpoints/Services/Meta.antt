-- ===== src/ConnectInject/Endpoints/Services/Meta.antt =====
-- The metadata that `createServiceRegistrations` of
-- control-plane/connect-inject/controllers/endpoints/endpoints_controller.go takes from annotations.
use Prim.Native.Char.{code}
use package.text.Mathlib.TextLemmas.{cons-append, nil-append}
use package.text.Mathlib.TextEquality.{Char-path}
use consul_k8s.Base.{
  ◌≡◌, ◌≢◌, inl, inr, refl, sym, ap, ◌∙◌, String, ◌<>◌, none, some, [], ◌∷◌, ◌++◌, arith,
}
use consul_k8s.Base.{◌==◌, if◌then◌else◌, Bool-cases, Option-cases, string_dec}
use consul_k8s.Base.Strings.{Chars, chars, text, is_char, after_prefix, text-chars, chars-text}
use consul_k8s.Base.Dict
use consul_k8s.Base.Dict.{Dict, NodupKeys, lookup-nil, lookup-cons, lookup-insert}
use consul_k8s.ConnectInject.{Pod}
use consul_k8s.ConnectInject.Endpoints.{Endpoints}
use consul_k8s.ConnectInject.Endpoints.Services.{
  annotation_meta, base_meta, key_of, meta_key, meta_value, add_meta, meta_of,
}

chars-append : (s t : String) → chars (s <> t) ≡ chars s ++ chars t
chars-append String.[] t = ap chars (nil-append t)
chars-append (String.◌∷◌ c s) t = ap chars (cons-append c s t) ∙ ap (λ l. c ∷ l) (chars-append s t)

after_prefix-append : (p s : Chars) → after_prefix p (p ++ s) ≡ some s
unfolding after_prefix
after_prefix-append [] s = refl
after_prefix-append (c ∷ p) s = ground (arith, after_prefix-append p s)

-- A prefix and what follows it are the text.
append-after_prefix : (p s : Chars) {rest : Chars} → after_prefix p s ≡ some rest → s ≡ p ++ rest
unfolding after_prefix
append-after_prefix [] s h = ground (arith, h)
append-after_prefix (c ∷ p) [] h = cc
append-after_prefix (c ∷ p) (d ∷ s) h = elim (Bool-cases (is_char (code c) d)) [
  | inl same ↦
      (let eq : d ≡ c = Char-path d c (ground (arith, same)) in
        rw eq (ap (λ l. c ∷ l) (append-after_prefix p s (ground (arith, same, h)))))
  | inr other ↦ absurd (ground (arith, other, h))
]

-- An annotation with the prefix and a name is kept under the name.
meta_key-annotation : (k : String) → k ≢ "" → meta_key (annotation_meta <> k) ≡ some k
meta_key-annotation k named =
    let read : after_prefix (chars annotation_meta) (chars (annotation_meta <> k))
        ≡ some (chars k) =
      ap (after_prefix (chars annotation_meta)) (chars-append annotation_meta k)
      ∙ after_prefix-append (chars annotation_meta) (chars k) in
    ap key_of read ∙ rw (text-chars k) (ground (arith, named))

annotation-meta_key : (a : String) {k : String} → meta_key a ≡ some k → a ≡ annotation_meta <> k
annotation-meta_key a {k} h = elim (Option-cases (after_prefix (chars annotation_meta) (chars a))) [
  | inl e ↦ absurd (ground (arith, sym (ap key_of e) ∙ h))
  | inr (rest, e) ↦
      (let same : text rest ≡ k = ground (arith, sym (ap key_of e) ∙ h) in
        sym (text-chars a)
        ∙ ap text (
            append-after_prefix (chars annotation_meta) (chars a) e
            ∙ ap (λ l. chars annotation_meta ++ l) (sym (chars-text rest) ∙ ap chars same)
            ∙ sym (chars-append annotation_meta k))
        ∙ text-chars (annotation_meta <> k))
]

lookup-add_meta :
    (pod : Pod) (k : String) (annotations meta : Dict String)
    → k ≢ ""
    → NodupKeys annotations
    → Dict.lookup k (add_meta pod annotations meta)
      ≡ (elim (Dict.lookup (annotation_meta <> k) annotations) [
        | none ↦ Dict.lookup k meta
        | some v ↦ some (meta_value pod v)
      ])
unfolding add_meta
lookup-add_meta pod k [] meta named unique = rw (lookup-nil (annotation_meta <> k)) refl
lookup-add_meta pod k ((a, v) ∷ more) meta named (fresh, unique) =
    let cons = lookup-cons (annotation_meta <> k) a v more in
    elim (Option-cases (meta_key a)) [
      | inl other ↦
          (let ne : a ≢ annotation_meta <> k =
              λ e. ground (arith, sym other ∙ ap meta_key e ∙ meta_key-annotation k named) in
            rw (add_meta, other, cons)
              (ground (arith, ne, lookup-add_meta pod k more meta named unique)))
      | inr (key, kept) ↦
          (let found = annotation-meta_key a kept in
            let put = Dict.insert key (meta_value pod v) meta in
            let later = lookup-add_meta pod k more put named unique in
            let at = lookup-insert k key (meta_value pod v) meta in
            elim (string_dec key k) [
              | yes same ↦
                  (let e : a ≡ annotation_meta <> k = found ∙ ap (λ x. annotation_meta <> x) same in
                    rw (add_meta, kept, cons, later)
                      (ground (arith, e, sym (ap (λ x. Dict.lookup x more) e) ∙ fresh, at, same)))
              | no differ ↦
                  (let ne : a ≢ annotation_meta <> k = λ e.
                      differ
                        (ground (arith, sym kept ∙ ap meta_key e ∙ meta_key-annotation k named)) in
                    rw (add_meta, kept, cons, later) (ground (arith, ne, at, differ)))
            ])
    ]

-- A name has in the metadata of a service the value of the pod's annotation service-meta-<name>, with
-- $POD_NAME for the pod's name, if there is one, also if it is a mark by which the controller finds its
-- own instances; without such an annotation it has what the controller sets.
pub lookup-meta_of :
    (pod : Pod) (ep : Endpoints) (k : String)
    → k ≢ ""
    → NodupKeys pod.annotations
    → Dict.lookup k (meta_of pod ep)
      ≡ (elim (Dict.lookup ("consul.hashicorp.com/service-meta-" <> k) pod.annotations) [
        | none ↦ Dict.lookup k (base_meta pod ep)
        | some v ↦ some (if v == "$POD_NAME" then pod.name else v)
      ])
unfolding meta_of
lookup-meta_of pod ep k named unique =
    lookup-add_meta pod k pod.annotations (base_meta pod ep) named unique
