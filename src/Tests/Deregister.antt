-- ===== src/Tests/Deregister.antt =====
-- Tests of the deregistration of control-plane/connect-inject/controllers/endpoints, over a Consul that
-- is kept in memory.
use mathlib.Core.Path.{subst}
use consul_k8s.Base.{
  Bool-cases, inl, inr, ap, ◌≡◌, refl, String, Bool, true, false, not, ◌&&◌, ◌||◌, Option, none,
  some, List, [], ◌∷◌, arith,
}
use consul_k8s.Base.{◌==◌, if◌then◌else◌, ok, err, string_dec, All}
use consul_k8s.Base.Strings.{after_prefix}
use consul_k8s.Base.Dict.{lookup}
use consul_k8s.ConnectInject.Deregister.{
  ServiceInstance, Deregistration, Token, ConsulApi, Texts, Settings, deregister_service,
}
use consul_k8s.ConnectInject.Deregister.Query.{listing}
use consul_k8s.ConnectInject.Deregister.Instances.{
  IsCatalog, is_dropped, deregister_service-removes,
}
use consul_k8s.ConnectInject.Deregister.Tokens.{
  IsTokenStore, IsSpared, deregister_service-keeps_tokens,
}

-- The services of the node, and whether the token of the auth method is there.
abbrev Consul : Type 0
Consul = List ServiceInstance × Bool

abbrev has : List ServiceInstance → String → String → Bool
has [] i j = false
has (s ∷ ss) i j = (i == s.namespace && j == s.id) || has ss i j

abbrev without : List ServiceInstance → Deregistration → List ServiceInstance
without [] d = []
without (s ∷ ss) d =
    let rest = without ss d in
    if s.namespace == d.namespace && s.id == d.service_id then rest else s ∷ rest

has-without :
    (ss : List ServiceInstance) (d : Deregistration) (i j : String)
    → has (without ss d) i j ≡ (has ss i j && not (i == d.namespace && j == d.service_id))
has-without [] d i j = refl
has-without (s ∷ ss) d i j = ground (arith, has-without ss d i j)

abbrev mine : Token
mine = record {
  accessor_id = "a";
  auth_method = "k8s";
  service_identities = "web" ∷ [];
  description = "{web-1}";
}

abbrev foreign : Token
foreign = record {
  accessor_id = "b";
  auth_method = "ci";
  service_identities = "web" ∷ [];
  description = "{web-1}";
}

abbrev tokens_of : Consul → String → String → Option Token
tokens_of (ss, present) i j =
    if i == "" && j == "b"
    then some foreign
    else if i == "" && j == "a" && present
    then some mine
    else none

abbrev list_tokens : Consul → String → List Token
list_tokens (ss, present) ns =
    if ns == "" then if present then foreign ∷ mine ∷ [] else foreign ∷ [] else []

abbrev api : ConsulApi Consul
api = record {
  node_service_list = λ (ss, present) node filter ns.
      if node == "k8s-service-mesh" && ns == "" then ok ss else ok [];
  deregister = λ (ss, present) d.
      if d.node == "k8s-service-mesh"
      then ((without ss d, present), none)
      else ((ss, present), none);
  token_list = λ w ns. ok (list_tokens w ns);
  token_delete = λ (ss, present) accessor ns.
      if ns == "" && accessor == "a" then ((ss, false), none) else ((ss, present), some "denied");
}

abbrev view : Consul → String → String → Bool
view (ss, present) i j = has ss i j

api-IsCatalog : IsCatalog api view
api-IsCatalog = record {
  view-deregister = λ w d i j h. ground (arith, has-without w.0 d i j);
  view-token_delete = λ w i j accessor ns. ground arith;
}

abbrev texts : Texts
texts = record {
  quote = λ s. s;
  submatch = λ s. some s;
  unmarshal = λ s. ok (("pod", "shop/web-1") ∷ []);
}

abbrev instance_at : String → ServiceInstance
instance_at address = record {
  id = "web-1-web";
  service = "web";
  namespace = "";
  address = address;
  meta = ("pod-name", "web-1") ∷ [];
}

abbrev settings : Settings
settings = record { enable_consul_namespaces = false; auth_method = "k8s" }

abbrev before : Consul
before = (instance_at "10.0.0.1" ∷ record (instance_at "10.0.0.2") { id = "web-2-web" } ∷ [], true)

-- The instance that no endpoint has goes, with its token; the other one stays.
selective :
    (deregister_service api texts settings "web" "shop" (some ("10.0.0.2" ∷ [])) before)
    ≡ ((record (instance_at "10.0.0.2") { id = "web-2-web" } ∷ [], false), none)
unfolding deregister_service lookup string_dec after_prefix
selective = refl

deregister_service-removes_example :
    (svcs : List ServiceInstance) × (listing api texts false before "web" "shop" ≡ ok svcs)
    × ((i j : String)
        → view
            (deregister_service api texts settings "web" "shop" (some ("10.0.0.2" ∷ [])) before).0
            i
            j
          ≡ (view before i j && not (is_dropped (some ("10.0.0.2" ∷ [])) i j svcs)))
unfolding deregister_service lookup string_dec after_prefix
deregister_service-removes_example =
    deregister_service-removes api texts settings view api-IsCatalog "web" "shop"
      (some ("10.0.0.2" ∷ [])) before refl

a_ne_b : ("a" == "b") ≡ false
unfolding string_dec
a_ne_b = refl

ok_inj : {A : Type 0} {a b : A} → ok a ≡ ok b → a ≡ b
ok_inj {a = a} e = ap (λ r. elim r [ ok x ↦ x | err _ ↦ a ]) e

list_tokens_lem :
    (w : Consul) (ns : String) → All (λ t. tokens_of w ns t.accessor_id ≡ some t) (list_tokens w ns)
list_tokens_lem (ss, present) ns = elim (Bool-cases (ns == "")) [
  | inr e ↦ rw (e, list_tokens) tt
  | inl e ↦ elim (Bool-cases present) [
    | inl e' ↦ rw (e, e', list_tokens) (ground arith, (ground (arith, a_ne_b), tt))
    | inr e' ↦ rw (e, e', list_tokens) (ground arith, tt)
  ]
]

api-IsTokenStore : IsTokenStore api tokens_of
api-IsTokenStore = record {
  tokens-list = λ w ns ts e.
      subst (All (λ t. tokens_of w ns t.accessor_id ≡ some t)) (ok_inj e) (list_tokens_lem w ns);
  tokens-token_delete = λ w i j ns accessor h. ground (arith, h);
  tokens-deregister = λ w i j d. ground arith;
}

foreign-IsSpared : IsSpared settings foreign
unfolding string_dec
foreign-IsSpared = refl

deregister_service-keeps_tokens_example :
    tokens_of (deregister_service api texts settings "web" "shop" none before).0 "" "b"
    ≡ some foreign
unfolding string_dec
deregister_service-keeps_tokens_example =
    deregister_service-keeps_tokens api texts settings tokens_of api-IsTokenStore "web" "shop" none
      before "" "b" foreign foreign-IsSpared refl
