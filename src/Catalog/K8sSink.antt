-- ===== src/Catalog/K8sSink.antt =====
-- control-plane/catalog/to-k8s/sink.go: `K8SSink`, which mirrors Consul services as Kubernetes
-- services of type ExternalName. The mutex makes each method one step. Of a Kubernetes service
-- the model keeps what the sink reads and writes.
pub mod Changes
pub mod Rounds
pub mod Safety
pub mod Settled
pub mod Events
pub mod Retry
use consul_k8s.Base.{String, Bool, true, false, Option, none, some, List, [], ◌∷◌, ◌++◌}
use consul_k8s.Base.{◌==◌, if◌then◌else◌, is_some, to_lower}
use consul_k8s.Base.Dict
use consul_k8s.Base.Dict.{Dict}

pub record ServiceSpec : Type 0 where
  pub kind : String
  pub external_name : String

pub record Service : Type 0 where
  pub name : String
  pub labels : Dict String
  pub annotations : Dict String
  pub spec : ServiceSpec

-- `triggerCh` is nil (`none`), or holds a message or not: its buffer has one place.
pub record K8sSink : Type 0 where
  pub configured_namespace : String
  pub source_services : Dict String
  pub key_to_name : Dict String
  pub service_map : Dict (Unit {0})
  pub service_map_consul : Dict Service
  pub trigger_ch : Option Bool

-- A send that does not block. Without a channel nothing happens.
unfoldable pub trigger : K8sSink → K8sSink
trigger s = elim s.trigger_ch [ none ↦ s | some _ ↦ record s { trigger_ch = some true } ]

unfoldable pub namespace : K8sSink → String
namespace s = if s.configured_namespace == "" then "default" else s.configured_namespace

-- `strings.ToLower` on every name and every DNS entry, in the order of the `range` loop.
unfoldable pub lowercase : Dict String → Dict String → Dict String
lowercase [] low = low
lowercase ((name, dns) ∷ svcs) low = lowercase svcs (Dict.insert (to_lower name) (to_lower dns) low)

unfoldable pub set_services : Dict String → K8sSink → K8sSink
unfolding trigger lowercase
set_services svcs s = trigger (record s { source_services = lowercase svcs [] })

abbrev pub is_consul : Service → Bool
is_consul svc = Dict.get "consul" svc.labels == "true"

-- `none` is an object that is not a `*Service`.
unfoldable pub upsert : String → Option Service → K8sSink → K8sSink
unfolding trigger
upsert key none s = s
upsert key (some svc) s =
    let seen = record s {
      key_to_name = Dict.insert key svc.name s.key_to_name;
      service_map = Dict.insert svc.name tt s.service_map;
    } in
    if is_consul svc
    then trigger
        (record seen { service_map_consul = Dict.insert svc.name svc s.service_map_consul })
    else seen

forget : String → String → K8sSink → K8sSink
forget key name s = record s {
  key_to_name = Dict.erase key s.key_to_name;
  service_map = Dict.erase name s.service_map;
  service_map_consul = Dict.erase name s.service_map_consul;
}

unfoldable pub delete : String → K8sSink → K8sSink
unfolding trigger forget
delete key s = elim (Dict.lookup key s.key_to_name) [
  | none ↦ trigger s
  | some name ↦
      if Dict.has name s.source_services then trigger (forget key name s) else forget key name s
]

-- What `crudList` does with one entry of `sourceServices`.
pub data Decision : Type 0 where
  matching : Decision
  outdated : Service → Decision
  taken : Decision
  missing : Decision

abbrev pub external : String → ServiceSpec
external dns = record { kind = "ExternalName"; external_name = dns }

abbrev pub new_service : String → String → Service
new_service name dns = record {
  name = name;
  labels = ("consul", "true") ∷ [];
  annotations = ("consul.hashicorp.com/service-sync", "false") ∷ [];
  spec = external dns;
}

unfoldable pub classify : K8sSink → String → String → Decision
classify s name dns = elim (Dict.lookup name s.service_map_consul) [
  | some svc ↦ if svc.spec.external_name == dns then matching else outdated svc
  | none ↦ if Dict.has name s.service_map then taken else missing
]

-- `svc.Spec = …` writes through the pointer that `serviceMapConsul` holds.
abbrev redirect : String → String → Decision → K8sSink → K8sSink
redirect name dns (outdated svc) s = record s {
  service_map_consul = Dict.insert name (record svc { spec = external dns }) s.service_map_consul;
}
redirect name dns _ s = s

abbrev updated : String → Decision → List Service
updated dns (outdated svc) = record svc { spec = external dns } ∷ []
updated dns _ = []

abbrev created : String → String → Decision → List Service
created name dns missing = new_service name dns ∷ []
created name dns _ = []

pub record Crud : Type 0 where
  pub create : List Service
  pub update : List Service
  pub delete : List String

-- The first loop of `crudList`, over the entries of `sourceServices`.
unfoldable pub changes : Dict String → K8sSink → K8sSink × List Service × List Service
unfolding classify
changes [] s = (s, [], [])
changes ((name, dns) ∷ rest) s =
    let d = classify s name dns in
    let (s', create, update) = changes rest (redirect name dns d s) in
    (s', created name dns d ++ create, updated dns d ++ update)

-- The second loop, over `serviceMapConsul`.
unfoldable pub stale : Dict Service → Dict String → List String
stale [] source = []
stale ((name, _) ∷ rest) source =
    let later = stale rest source in if Dict.has name source then later else name ∷ later

unfoldable pub crud_list : K8sSink → K8sSink × Crud
unfolding changes stale
crud_list s =
    let (s', create, update) = changes s.source_services s in
    (
      s',
      record {
        create = create;
        update = update;
        delete = stale s'.service_map_consul s'.source_services;
      },
    )

-- The Kubernetes API for the services of one namespace: a state, the service that it stores
-- under a name, and calls that give an error or succeed.
pub record ServiceApi : Type 1 where
  pub State : Type 0
  pub view : State → String → Option Service
  pub delete : State → String → State × Option String
  pub update : State → Service → State × Option String
  pub create : State → Service → State × Option String

module _ (A : ServiceApi) where
  -- The three loops of `Run` over the lists. An error is logged, and the loop goes on.
  unfoldable pub delete_all : List String → A.State → A.State
  delete_all [] w = w
  delete_all (name ∷ names) w = delete_all names (A.delete w name).0

  unfoldable pub update_all : List Service → A.State → A.State
  update_all [] w = w
  update_all (svc ∷ svcs) w = update_all svcs (A.update w svc).0

  unfoldable pub create_all : List Service → A.State → A.State
  create_all [] w = w
  create_all (svc ∷ svcs) w = create_all svcs (A.create w svc).0

  unfoldable pub apply_crud : Crud → A.State → A.State
  unfolding delete_all update_all create_all
  apply_crud crud w = create_all crud.create (update_all crud.update (delete_all crud.delete w))

  -- One round of the loop of `Run`, from the receipt of the message on `triggerCh`.
  unfoldable pub run_round : K8sSink → A.State → K8sSink × A.State
  run_round s w =
      let (s', crud) =
        crud_list (record s { trigger_ch = if is_some s.trigger_ch then some false else none }) in
      (s', apply_crud crud w)
