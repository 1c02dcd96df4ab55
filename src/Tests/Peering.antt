-- ===== src/Tests/Peering.antt =====
-- Tests of control-plane/connect-inject/controllers/peering over clients that are kept in memory.
pub mod Dialer
pub mod Acceptor
use consul_k8s.Base.{
  ◌≡◌, ◌≢◌, refl, String, Bool, true, false, ◌&&◌, ◌||◌, Option, none, some, List, [], ◌∷◌, ◌++◌,
}
use consul_k8s.Base.{◌==◌, if◌then◌else◌, string_dec, arith, contains, Result, ok, err}
use consul_k8s.Base.Dict
use consul_k8s.Peering.{
  Setting, World, Resource, Secret, SecretRefStatus, KubeSecret, Answer, found, not_found, failed,
  finalizer_name, get_secret,
}

unfoldable pub find_resource : List Resource → String → String → Answer Resource
find_resource [] name namespace = not_found "no such resource"
find_resource (o ∷ os) name namespace =
    let rest = find_resource os name namespace in
    if o.name == name && o.namespace == namespace then found o else rest

unfoldable pub find_secret : List KubeSecret → String → String → Answer KubeSecret
find_secret [] name namespace = not_found "no such secret"
find_secret (s ∷ ss) name namespace =
    let rest = find_secret ss name namespace in
    if s.name == name && s.namespace == namespace then found s else rest

unfoldable pub drop_secret : String → List KubeSecret → List KubeSecret
drop_secret name [] = []
drop_secret name (s ∷ ss) =
    let rest = drop_secret name ss in if s.name == name then rest else s ∷ rest

unfoldable pub drop_text : List String → String → List String
drop_text [] x = []
drop_text (y ∷ ys) x = let rest = drop_text ys x in if y == x then rest else y ∷ rest

pub record Cluster : Type 0 where
  pub resources : List Resource
  pub secrets : List KubeSecret

-- Every call succeeds, except that a deletion of a peering answers with `lost`. The state of Consul
-- is the names of its peerings.
abbrev pub memory : Option String → Setting
memory lost = record {
  Kube = Cluster;
  Consul = List String;
  resources = record {
    get = λ k name namespace. find_resource k.resources name namespace;
    update = λ k o. (record k { resources = o ∷ k.resources }, ok o);
    update_status = λ k o. (record k { resources = o ∷ k.resources }, none);
  };
  secrets = record {
    get = λ k name namespace. find_secret k.secrets name namespace;
    create = λ k s. (record k { secrets = s ∷ k.secrets }, none);
    update = λ k s. (record k { secrets = s ∷ k.secrets }, none);
    delete = λ k s. (record k { secrets = drop_secret s.name k.secrets }, none);
  };
  peerings = record {
    read = λ c name. ok (contains c name);
    establish = λ c name token. (name ∷ c, none);
    generate_token = λ c name. (name ∷ c, ok "generated");
    delete = λ c name. (drop_text c name, lost);
  };
  server_state = none;
  new_client = none;
  now = 7;
  quote = λ s. s;
  contains_finalizer = contains;
  add_finalizer = λ fs name. fs ++ name ∷ [];
  remove_finalizer = drop_text;
}

abbrev pub where_is : Secret
where_is = record { name = "token"; key = "data"; backend = "kubernetes" }

abbrev pub token_secret : KubeSecret
token_secret = record {
  name = "token";
  namespace = "default";
  labels = [];
  «data» = ("data", "abc") ∷ [];
  resource_version = "1";
}

abbrev pub resource : Bool → Resource
resource deleting = record {
  name = "peer";
  namespace = "default";
  deleting = deleting;
  finalizers = finalizer_name ∷ [];
  annotations = [];
  secret = where_is;
  latest_peering_version = none;
  secret_ref = none;
  conditions = [];
  last_synced_time = none;
}

abbrev pub cluster : Bool → Cluster
cluster deleting = record { resources = resource deleting ∷ []; secrets = token_secret ∷ [] }

abbrev pub world : (lost : Option String) → Bool → List String → World (memory lost)
world lost deleting consul = record { kube = cluster deleting; consul = consul }

pub find_resource-named :
    (os : List Resource) (name namespace : String) (o : Resource)
    → find_resource os name namespace ≡ found o
    → (o.name ≡ name) × (o.namespace ≡ namespace)
unfolding find_resource
find_resource-named [] name namespace o e = ground (arith, e)
find_resource-named (o' ∷ os) name namespace o e =
    ground (arith, e, find_resource-named os name namespace o)

pub find_secret-named :
    (ss : List KubeSecret) (name namespace : String) (s : KubeSecret)
    → find_secret ss name namespace ≡ found s
    → s.name ≡ name
unfolding find_secret
find_secret-named [] name namespace s e = ground (arith, e)
find_secret-named (s' ∷ ss) name namespace s e =
    ground (arith, e, find_secret-named ss name namespace s)

pub find_secret-drop :
    (ss : List KubeSecret) (name namespace other : String)
    → name ≢ other
    → find_secret (drop_secret other ss) name namespace ≡ find_secret ss name namespace
unfolding find_secret drop_secret
find_secret-drop [] name namespace other d = refl
find_secret-drop (s ∷ ss) name namespace other d =
    ground (arith, d, find_secret-drop ss name namespace other)
