-- ===== src/ConfigEntry.antt =====
-- control-plane/controller/configentry_controller.go: the state that `ReconcileEntry` works on, and
-- the APIs that it calls.
pub mod Status
pub mod Reconcile
pub mod Plan
pub mod Deletion
pub mod Convergence
pub mod ExportedServices
pub mod Webhook
use consul_k8s.Base.{ℕ, String, ◌<>◌, Bool, true, false, Option, none, some, List, [], ◌∷◌, ◌++◌}
use consul_k8s.Base.{◌==◌, if◌then◌else◌, Result}
use consul_k8s.Base.Dict.{Dict}
use consul_k8s.Namespaces.{NamespaceApi}

-- `corev1.ConditionStatus`
pub data ConditionStatus : Type 0 where
  is_true is_false is_unknown : ConditionStatus

pub record Condition : Type 0 where
  pub kind : String
  pub status : ConditionStatus
  pub last_transition_time : ℕ
  pub reason : String
  pub message : String

-- A custom resource: what the controller reads and writes of its metadata and status, and its
-- spec. `deleting` says that the deletion timestamp is not zero.
pub record Object (Spec : Type 0) : Type 0 where
  pub name : String
  pub namespace : String
  pub deleting : Bool
  pub finalizers : List String
  pub annotations : Dict String
  pub conditions : List Condition
  pub last_synced_time : Option ℕ
  pub spec : Spec

-- What `ReconcileEntry` asks of a kind of resource: the methods of `common.ConfigEntryResource`
-- that the kinds implement each in its own way, and the methods of `capi.ConfigEntry`.
pub record EntryKind : Type 1 where
  pub Spec : Type 0
  pub Entry : Type 0
  pub to_consul : String → Object Spec → Entry
  pub matches_consul : Object Spec → Entry → Bool
  pub consul_kind : String
  pub consul_name : Object Spec → String
  pub mirroring_ns : Object Spec → String
  pub global_resource : Bool
  pub get_name : Entry → String
  pub get_namespace : Entry → String
  pub get_meta : Entry → Dict String

-- `ConfigEntryController`
pub record Config : Type 0 where
  pub datacenter_name : String
  pub enable_consul_namespaces : Bool
  pub consul_destination_namespace : String
  pub enable_ns_mirroring : Bool
  pub ns_mirroring_prefix : String
  pub cross_ns_acl_policy : String

-- What `crdCtrl.Get` finds.
pub data Found (A : Type 0) : Type 0 where
  found : A → Found A
  not_found : Found A
  failed : String → Found A

-- The Kubernetes API for one kind. A write that succeeds answers with the object as stored, which
-- the client library decodes over the object in memory.
pub record KubeApi (S Obj : Type 0) : Type 0 where
  pub get : S → String → String → Found Obj
  pub update : S → Obj → S × Result Obj
  pub update_status : S → Obj → S × Result Obj

-- `consulClient.ConfigEntries()`: an entry is named by its kind, its name and its namespace.
pub record EntryApi (S Entry : Type 0) : Type 0 where
  pub get : S → String → String → String → Result Entry
  pub set : S → Entry → String → S × Option String
  pub delete : S → String → String → String → S × Option String

-- All that one reconcile finds around it. `server_state` and `new_client` are the errors, if any,
-- of finding a server and of making a client.
pub record Setting (K : EntryKind) : Type 1 where
  pub Kube : Type 0
  pub Consul : Type 0
  pub kube_api : KubeApi Kube (Object K.Spec)
  pub entry_api : EntryApi Consul K.Entry
  pub namespace_api : NamespaceApi Consul
  pub server_state : Option String
  pub new_client : Option String
  pub now : ℕ
  pub marshal : K.Entry → Result String
  pub quote : String → String

-- The state that a reconcile changes: Kubernetes, and Consul.
pub record World {K : EntryKind} (E : Setting K) : Type 0 where
  pub kube : E.Kube
  pub consul : E.Consul
