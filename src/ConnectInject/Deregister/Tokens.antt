-- ===== src/ConnectInject/Deregister/Tokens.antt =====
-- Which ACL tokens a deregistration leaves alone
-- (control-plane/connect-inject/controllers/endpoints/endpoints_controller.go).
use consul_k8s.Base.{Bool, ◌≡◌, refl, sym, ap, ◌∙◌, String, true, false, ◌&&◌, Option, some, List}
use consul_k8s.Base.{[], ◌∷◌, arith, ◌==◌, inl, inr, ok, Result-cases, get_or, All, string_dec}
use consul_k8s.Base.Dict
use consul_k8s.ConnectInject.Deregister.{
  ServiceInstance, Deregistration, Token, ConsulApi, Texts, Settings, consul_node_name,
  meta_key_pod_name, is_owned, service_instances, delete_tokens,
  delete_acl_tokens_for_service_instance, deregister_instance, deregister_each, deregister_service,
}

-- What the code relies on of the tokens of a namespace: a list has them under their accessors, and a
-- deletion, also one that fails, touches no other.
pub record IsTokenStore {S : Type 0} (api : ConsulApi S)
    (tokens : S → String → String → Option Token) : Type 0 where
  pub tokens-list :
      (w : S) (ns : String) (ts : List Token)
      → api.token_list w ns ≡ ok ts
      → All (λ t. tokens w ns t.accessor_id ≡ some t) ts
  pub tokens-token_delete :
      (w : S) (i j ns accessor : String)
      → (i == ns && j == accessor) ≡ false
      → tokens (api.token_delete w accessor ns).0 i j ≡ tokens w i j
  pub tokens-deregister :
      (w : S) (i j : String) (d : Deregistration) → tokens (api.deregister w d).0 i j ≡ tokens w i j

-- One identity and no more.
abbrev pub is_single : List String → Bool
is_single [] = false
is_single (name ∷ []) = true
is_single (name ∷ other ∷ more) = false

-- A token of another auth method, or without an identity of its own.
abbrev pub IsSpared : Settings → Token → Type 0
IsSpared c token =
    (token.auth_method == c.auth_method && is_single token.service_identities) ≡ false

is_owned_none :
    (c : Settings) (svc : ServiceInstance) (id auth_method description : String)
    (names : List String)
    → (auth_method == c.auth_method && is_single names) ≡ false
    → is_owned c svc (record {
      accessor_id = id;
      auth_method = auth_method;
      service_identities = names;
      description = description;
    })
      ≡ false
is_owned_none c svc id auth_method description [] h = refl
is_owned_none c svc id auth_method description (name ∷ []) h = ground (arith, h)
is_owned_none c svc id auth_method description (name ∷ other ∷ more) h = refl

-- Such a token belongs to no instance, whatever its service.
IsSpared-is_owned :
    (c : Settings) (token : Token) (svc : ServiceInstance)
    → IsSpared c token
    → is_owned c svc token ≡ false
IsSpared-is_owned c token svc h =
    is_owned_none c svc token.accessor_id token.auth_method token.description
      token.service_identities h

some_inj : {A : Type 0} (a b : A) → some a ≡ some b → a ≡ b
some_inj a b e = ap (λ o. get_or o a) e

module _ {S : Type 0} (api : ConsulApi S) (t : Texts) (c : Settings)
    (tokens : S → String → String → Option Token) (l : IsTokenStore api tokens) (i j : String)
    (kept : Token) (spared : IsSpared c kept) where
  -- If a listed token has the name of the one that is kept, then it is not owned.
  abbrev IsOther : ServiceInstance → Token → Type 0
  IsOther svc token =
      (i == svc.namespace && j == token.accessor_id) ≡ true → is_owned c svc token ≡ false

  tokens-delete_tokens :
      (svc : ServiceInstance) (k8s_ns pod_name : String) (ts : List Token) (w : S)
      → All (IsOther svc) ts
      → tokens (delete_tokens api t c svc k8s_ns pod_name ts w).0 i j ≡ tokens w i j
  unfolding delete_tokens
  tokens-delete_tokens svc k8s_ns pod_name [] w others = refl
  tokens-delete_tokens svc k8s_ns pod_name (token ∷ more) w others =
      let deleted = api.token_delete w token.accessor_id svc.namespace in
      ground (
        arith,
        others.0,
        tokens-delete_tokens svc k8s_ns pod_name more w others.1,
        tokens-delete_tokens svc k8s_ns pod_name more deleted.0 others.1,
        l.tokens-token_delete w i j svc.namespace token.accessor_id,
      )

  -- The tokens of a list are others, if the one that is kept is there.
  listed-IsOther :
      (svc : ServiceInstance) (w : S) (ts : List Token)
      → tokens w i j ≡ some kept
      → All (λ t. tokens w svc.namespace t.accessor_id ≡ some t) ts
      → All (IsOther svc) ts
  listed-IsOther svc w [] there listed = tt
  listed-IsOther svc w (token ∷ more) there listed = (
    λ same. elim (string_dec i svc.namespace) [
      | no other ↦ absurd (ground (arith, same, other))
      | yes p ↦ elim (string_dec j token.accessor_id) [
        | no other ↦ absurd (ground (arith, same, other))
        | yes q ↦
            let at : tokens w i j ≡ tokens w svc.namespace token.accessor_id =
              ap (λ x. tokens w x j) p ∙ ap (λ x. tokens w svc.namespace x) q in
            ap (is_owned c svc) (some_inj token kept (sym listed.0 ∙ sym at ∙ there))
            ∙ IsSpared-is_owned c kept svc spared
      ]
    ],
    listed-IsOther svc w more there listed.1,
  )

  tokens-delete_acl_tokens :
      (svc : ServiceInstance) (k8s_ns pod_name : String) (w : S)
      → tokens w i j ≡ some kept
      → tokens (delete_acl_tokens_for_service_instance api t c svc k8s_ns pod_name w).0 i j
        ≡ some kept
  unfolding delete_acl_tokens_for_service_instance
  tokens-delete_acl_tokens svc k8s_ns pod_name w there =
      elim (Result-cases (api.token_list w svc.namespace)) [
        | inr (_, e) ↦ ground (arith, e, there)
        | inl (ts, e) ↦ ground (
          arith,
          e,
          there,
          tokens-delete_tokens svc k8s_ns pod_name ts w
              (listed-IsOther svc w ts there (l.tokens-list w svc.namespace ts e)),
        )
      ]

  tokens-deregister_instance :
      (k8s_ns : String) (addresses : Option (List String)) (svc : ServiceInstance) (w : S)
      → tokens w i j ≡ some kept
      → tokens (deregister_instance api t c k8s_ns addresses svc w).0 i j ≡ some kept
  unfolding deregister_instance
  tokens-deregister_instance k8s_ns addresses svc w there =
      let pod_name = get_or (Dict.lookup meta_key_pod_name svc.meta) "" in
      let d : Deregistration = record {
        node = consul_node_name;
        service_id = svc.id;
        namespace = svc.namespace;
      } in
      let still = l.tokens-deregister w i j d ∙ there in
      ground (
        arith,
        there,
        still,
        tokens-delete_acl_tokens svc k8s_ns pod_name (api.deregister w d).0 still,
      )

  tokens-deregister_each :
      (k8s_ns : String) (addresses : Option (List String)) (svcs : List ServiceInstance) (w : S)
      → tokens w i j ≡ some kept
      → tokens (deregister_each api t c k8s_ns addresses svcs w).0 i j ≡ some kept
  unfolding deregister_each
  tokens-deregister_each k8s_ns addresses [] w there = there
  tokens-deregister_each k8s_ns addresses (svc ∷ more) w there =
      let still = tokens-deregister_instance k8s_ns addresses svc w there in
      let w' = (deregister_instance api t c k8s_ns addresses svc w).0 in
      ground (arith, still, tokens-deregister_each k8s_ns addresses more w' still)

-- A deregistration never deletes an ACL token that another auth method made or that has not exactly one
-- service identity, whichever calls of Consul fail.
pub deregister_service-keeps_tokens :
    {S : Type 0} (api : ConsulApi S) (t : Texts) (c : Settings)
    (tokens : S → String → String → Option Token)
    → IsTokenStore api tokens
    → (name namespace : String) (addresses : Option (List String)) (w : S) (i j : String)
      (kept : Token)
    → IsSpared c kept
    → tokens w i j ≡ some kept
    → tokens (deregister_service api t c name namespace addresses w).0 i j ≡ some kept
unfolding deregister_service
deregister_service-keeps_tokens api t c tokens l name namespace addresses w i j kept spared there =
    elim (Result-cases (service_instances api t c w name namespace)) [
      | inr (_, e) ↦ ground (arith, e, there)
      | inl (svcs, e) ↦ ground (
        arith,
        e,
        tokens-deregister_each api t c tokens l i j kept spared namespace addresses svcs w there,
      )
    ]
