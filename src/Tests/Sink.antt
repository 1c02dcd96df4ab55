-- ===== src/Tests/Sink.antt =====
-- Tests of control-plane/catalog/to-k8s over Kubernetes services that are kept in memory.
use consul_k8s.Base.{◌≡◌, ◌⊎◌, refl, String, true, false, none, some, [], ◌∷◌, arith}
use consul_k8s.Base.{if◌then◌else◌, ◌==◌, string_dec, to_lower}
use consul_k8s.Base.Dict
use consul_k8s.Base.Dict.{Dict}
use consul_k8s.Catalog.K8sSink.{Service, K8sSink, ServiceApi, external, new_service, is_consul}
use consul_k8s.Catalog.K8sSink.{set_services, upsert, crud_list, run_round, apply_crud}
use consul_k8s.Catalog.K8sSink.Changes.{IsNamed}
use consul_k8s.Catalog.K8sSink.Rounds.{IsLawful, IsUp, Reflects, wanted, view-run_round}
use consul_k8s.Catalog.K8sSink.Safety.{run_round-keeps}
use consul_k8s.Catalog.K8sSink.Settled.{nothing_to_do, crud_list-run_round}
use consul_k8s.Catalog.K8sSink.Events.{step_wakes, step, deleted}
use consul_k8s.Catalog.K8sSink.Retry.{crud_list_again}

-- A name that is not there is not deleted or updated, and one that is there is not created.
abbrev memory : ServiceApi
memory = record {
  State = Dict Service;
  view = λ d k. Dict.lookup k d;
  delete = λ d k. if Dict.has k d then (Dict.erase k d, none) else (d, some "not found");
  update = λ d svc.
      if Dict.has svc.name d then (Dict.insert svc.name svc d, none) else (d, some "not found");
  create = λ d svc.
      if Dict.has svc.name d
      then (d, some "already exists")
      else (Dict.insert svc.name svc d, none);
}

memory-IsLawful : IsLawful memory
memory-IsLawful = record {
  view-delete = λ w k j. ground (arith, Dict.lookup-erase j k w);
  view-update = λ w svc j. ground (arith, Dict.lookup-insert j svc.name svc w);
  view-create = λ w svc j. ground (arith, Dict.lookup-insert j svc.name svc w);
}

memory-IsUp : IsUp memory
memory-IsUp = record {
  delete_up = λ w k. ground arith;
  update_up = λ w svc. ground arith;
  create_up = λ w svc. ground arith;
}

abbrev plain : String → Service
plain name = record { name = name; labels = []; annotations = []; spec = external "elsewhere" }

-- Kubernetes has a service of its own, one to redirect, and one that Consul no longer lists.
abbrev before : Dict Service
before =
    ("api", plain "api") ∷ ("web", new_service "web" "old") ∷ ("gone", new_service "gone" "x") ∷ []

abbrev idle : K8sSink
idle = record {
  configured_namespace = "";
  source_services = [];
  key_to_name = [];
  service_map = [];
  service_map_consul = [];
  trigger_ch = some false;
}

abbrev sink : K8sSink
sink = record {
  configured_namespace = "";
  source_services =
      ("web", "web.service.consul") ∷ ("db", "db.service.consul") ∷ ("api", "api.x") ∷ [];
  key_to_name = ("default/web", "web") ∷ ("default/gone", "gone") ∷ [];
  service_map = ("api", tt) ∷ ("web", tt) ∷ ("gone", tt) ∷ [];
  service_map_consul = ("web", new_service "web" "old") ∷ ("gone", new_service "gone" "x") ∷ [];
  trigger_ch = some true;
}

tests :
    (is_consul (plain "api") ≡ false)
    × (is_consul (new_service "web" "old") ≡ true)
    × (is_consul (new_service "gone" "x") ≡ true)
    × (("web" == "api") ≡ false)
    × (("gone" == "api") ≡ false)
unfolding Dict.lookup string_dec
tests = (refl, refl, refl, refl, refl)

sink-Reflects : Reflects sink (memory.view before)
unfolding Dict.lookup
sink-Reflects = record {
  all = λ n. ground arith;
  made = λ n. ground (arith, tests);
  named = λ n svc e. ground arith;
}

sink-NodupKeys : Dict.NodupKeys sink.source_services
unfolding Dict.lookup string_dec
sink-NodupKeys = (refl, (refl, (refl, tt)))

round : K8sSink × Dict Service
unfolding run_round apply_crud crud_list Dict.lookup Dict.insert Dict.erase string_dec
round = run_round memory sink before

abbrev expected : Dict Service
expected =
    ("api", plain "api")
    ∷ ("web", new_service "web" "web.service.consul")
    ∷ ("db", new_service "db" "db.service.consul")
    ∷ []

round_runs : round.1 ≡ expected
unfolding round
round_runs = refl

-- Nothing happens to a message on a channel that is not there.
upsert_without_channel :
    (upsert "default/x" (some (new_service "x" "y")) (record idle { trigger_ch = none })).trigger_ch
    ≡ none
unfolding upsert Dict.lookup string_dec
upsert_without_channel = refl

lowercased :
    (set_services (("Web", "Web.Service.Consul") ∷ []) idle).source_services
    ≡ ("web", "web.service.consul") ∷ []
unfolding set_services Dict.insert to_lower
lowercased = refl

view-run_round_example :
    memory.view (run_round memory sink before).1 "db"
    ≡ wanted "db" (Dict.lookup "db" sink.source_services) (memory.view before "db")
view-run_round_example =
    view-run_round memory memory-IsLawful memory-IsUp sink before "db" sink-Reflects sink-NodupKeys

run_round-keeps_example : memory.view (run_round memory sink before).1 "api" ≡ some (plain "api")
unfolding Dict.lookup string_dec
run_round-keeps_example =
    run_round-keeps memory memory-IsLawful sink before "api" (plain "api") sink-Reflects refl refl

abbrev settled : K8sSink
settled = record sink {
  service_map = ("api", tt) ∷ ("web", tt) ∷ ("db", tt) ∷ [];
  service_map_consul =
      ("web", new_service "web" "web.service.consul")
      ∷ ("db", new_service "db" "db.service.consul")
      ∷ [];
}

settled_tests :
    (is_consul (plain "api") ≡ false)
    × (is_consul (new_service "web" "web.service.consul") ≡ true)
    × (is_consul (new_service "db" "db.service.consul") ≡ true)
    × (("web" == "api") ≡ false)
    × (("db" == "api") ≡ false)
unfolding Dict.lookup string_dec
settled_tests = (refl, refl, refl, refl, refl)

expected-Reflects : Reflects settled (memory.view expected)
unfolding Dict.lookup
expected-Reflects = record {
  all = λ n. ground arith;
  made = λ n. ground (arith, settled_tests);
  named = λ n svc e. ground arith;
}

settled-Reflects : Reflects settled (memory.view (run_round memory sink before).1)
unfolding round
settled-Reflects = expected-Reflects

crud_list-run_round_example : crud_list settled ≡ (settled, nothing_to_do)
crud_list-run_round_example =
    crud_list-run_round memory memory-IsLawful memory-IsUp sink settled before sink-Reflects
      sink-NodupKeys settled-Reflects refl

settled_quiet : (crud_list settled).1 ≡ nothing_to_do
unfolding crud_list Dict.lookup string_dec
settled_quiet = refl

settled-IsNamed : IsNamed settled
unfolding Dict.lookup
settled-IsNamed k svc e = ground arith

step_wakes_example :
    ((step (deleted "default/web") settled).trigger_ch ≡ some true)
    ⊎ ((crud_list (step (deleted "default/web") settled)).1 ≡ nothing_to_do)
step_wakes_example =
    step_wakes (deleted "default/web") settled sink-NodupKeys settled-IsNamed refl settled_quiet

crud_list_again_example : (crud_list (crud_list sink).0).1.update ≡ []
crud_list_again_example = crud_list_again sink sink-NodupKeys
