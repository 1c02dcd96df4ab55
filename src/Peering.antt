-- ===== src/Peering.antt =====
-- control-plane/connect-inject/controllers/peering: the state that the two peering controllers work
-- on, the APIs that they call, and the helpers that they both have. The two kinds of resource have
-- the same fields. A resource has a secret in its spec: the validating webhook refuses one without.
pub mod Version
pub mod Requests
pub mod Dialer
pub mod Acceptor
use consul_k8s.Base.{
  ℕ, String, Bool, true, false, Option, none, some, List, [], ◌∷◌, Result, ok, err,
}
use consul_k8s.Base.Dict.{Dict}
use consul_k8s.ConfigEntry.{Condition, ConditionStatus, is_false}
use consul_k8s.ConfigEntry.Status.{condition_synced}

-- `Secret` of a spec: where the token is.
pub record Secret : Type 0 where
  pub name : String
  pub key : String
  pub backend : String

pub record SecretRefStatus : Type 0 where
  pub secret : Secret
  pub resource_version : String

-- `PeeringDialer` or `PeeringAcceptor`.
pub record Resource : Type 0 where
  pub name : String
  pub namespace : String
  pub deleting : Bool
  pub finalizers : List String
  pub annotations : Dict String
  pub secret : Secret
  pub latest_peering_version : Option ℕ
  pub secret_ref : Option SecretRefStatus
  pub conditions : List Condition
  pub last_synced_time : Option ℕ

-- `corev1.Secret`
pub record KubeSecret : Type 0 where
  pub name : String
  pub namespace : String
  pub labels : Dict String
  pub «data» : Dict String
  pub resource_version : String

-- What a `Get` of the Kubernetes client answers: the object, an error for which
-- `k8serrors.IsNotFound` holds, or another error.
pub data Answer (A : Type 0) : Type 0 where
  found : A → Answer A
  not_found failed : String → Answer A

-- The Kubernetes client for a kind of resource. An update that succeeds answers with the object as
-- stored, which is decoded over the object in memory.
pub record ResourceApi (S : Type 0) : Type 0 where
  pub get : S → String → String → Answer Resource
  pub update : S → Resource → S × Result Resource
  pub update_status : S → Resource → S × Option String

pub record SecretApi (S : Type 0) : Type 0 where
  pub get : S → String → String → Answer KubeSecret
  pub create : S → KubeSecret → S × Option String
  pub update : S → KubeSecret → S × Option String
  pub delete : S → KubeSecret → S × Option String

-- `apiClient.Peerings()`. Of a peering the code reads only whether it is there.
pub record PeeringApi (S : Type 0) : Type 0 where
  pub read : S → String → Result Bool
  pub establish : S → String → String → S × Option String
  pub generate_token : S → String → S × Result String
  pub delete : S → String → S × Option String

-- All that one reconcile finds around it: `server_state` and `new_client` are the errors, if any,
-- of finding a server and of making a client; the finalizer functions are those of controllerutil;
-- `quote` is `strconv.Quote`.
pub record Setting : Type 1 where
  pub Kube : Type 0
  pub Consul : Type 0
  pub resources : ResourceApi Kube
  pub secrets : SecretApi Kube
  pub peerings : PeeringApi Consul
  pub server_state : Option String
  pub new_client : Option String
  pub now : ℕ
  pub quote : String → String
  pub contains_finalizer : List String → String → Bool
  pub add_finalizer : List String → String → List String
  pub remove_finalizer : List String → String → List String

-- The state that a reconcile changes.
pub record World (E : Setting) : Type 0 where
  pub kube : E.Kube
  pub consul : E.Consul

abbrev pub finalizer_name : String
finalizer_name = "finalizers.consul.hashicorp.com"

abbrev pub consul_agent_error : String
consul_agent_error = "consulAgentError"

abbrev pub internal_error : String
internal_error = "internalError"

abbrev pub kubernetes_error : String
kubernetes_error = "kubernetesError"

unfoldable pub set_synced_condition : ℕ → ConditionStatus → String → String → Resource → Resource
set_synced_condition now status reason message o = record o {
  conditions =
      record {
        kind = condition_synced;
        status = status;
        last_transition_time = now;
        reason = reason;
        message = message;
      }
      ∷ [];
}

module _ (E : Setting) where
  -- An error of the write is logged.
  unfoldable pub update_status_error : Resource → String → String → World E → World E
  unfolding set_synced_condition
  update_status_error o reason e w = record w {
    kube = (E.resources.update_status w.kube (set_synced_condition E.now is_false reason e o)).0;
  }

  unfoldable pub write_status : Resource → World E → World E × Option String
  write_status o w =
      let (kube, answer) = E.resources.update_status w.kube o in (record w { kube = kube }, answer)

  -- `getSecret` and `getExistingSecret`: a secret that is not found is nil.
  unfoldable pub get_secret : String → String → World E → Result (Option KubeSecret)
  get_secret name namespace w = elim (E.secrets.get w.kube name namespace) [
    | found s ↦ ok (some s)
    | not_found e ↦ ok none
    | failed e ↦ err e
  ]
