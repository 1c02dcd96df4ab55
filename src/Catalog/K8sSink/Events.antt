-- ===== src/Catalog/K8sSink/Events.antt =====
-- The events that reach `K8SSink` between two rounds: they keep its maps in step with Kubernetes,
-- and they wake the loop of `Run` when there is work.
use consul_k8s.Base.{◌≡◌, refl, ◌⊎◌, inl, inr, ap, String, true, false, Option, none, some, arith}
use consul_k8s.Base.{List, [], ◌∷◌, not, ◌&&◌, is_some, contains, Bool-cases, Option-cases}
use consul_k8s.Base.Dict
use consul_k8s.Base.Dict.{Dict, NodupKeys, lookup-insert, lookup-erase}
use consul_k8s.Catalog.K8sSink.{Service, K8sSink, external, is_consul, classify, changes, crud_list}
use consul_k8s.Catalog.K8sSink.{Crud, set_services, upsert, delete, forget}
use consul_k8s.Catalog.K8sSink.Changes.{
  IsNamed, contains-create, contains-stale, changes_frame, changes-has, replaced, replaced-update,
  outcome, names,
}
use consul_k8s.Catalog.K8sSink.Settled.{
  IsSettled, nothing_to_do, changes_of_IsSettled, stale_of_subset,
}

pub data Event : Type 0 where
  services : Dict String → Event
  upserted : String → Option Service → Event
  deleted : String → Event

abbrev pub step : Event → K8sSink → K8sSink
step (services svcs) s = set_services svcs s
step (upserted key raw) s = upsert key raw s
step (deleted key) s = delete key s

-- Nothing to do, said of each name.
record IsQuiet (s : K8sSink) : Type 0 where
  settled : (n dns : String) → Dict.lookup n s.source_services ≡ some dns → IsSettled s n dns
  kept : (n : String) → Dict.has n s.service_map_consul ≡ true → Dict.has n s.source_services ≡ true

nothing_to_do_of_IsQuiet :
    (s : K8sSink) → NodupKeys s.source_services → IsQuiet s → (crud_list s).1 ≡ nothing_to_do
unfolding crud_list
nothing_to_do_of_IsQuiet s u q =
    rw (changes_of_IsSettled s.source_services s u q.settled)
      (rw (stale_of_subset s.service_map_consul s.source_services q.kept))

-- Two services that differ, to tell whether an update changes one.
abbrev probe : Dict String → Service
probe labels = record { name = ""; labels = labels; annotations = []; spec = external "" }

settled_of_lists :
    (s : K8sSink) (n dns : String) (create update : List Service)
    → contains (names create) n
      ≡ (not (Dict.has n s.service_map_consul) && not (Dict.has n s.service_map))
    → ((labels : Dict String)
        → replaced n (some (probe labels)) update
          ≡ outcome (classify s n dns) dns (some (probe labels)))
    → create ≡ []
    → update ≡ []
    → IsSettled s n dns
unfolding classify
settled_of_lists s n dns create update c w no_create no_update = ground (
  arith,
  w [],
  w (("", "") ∷ []),
  ap (replaced n (some (probe []))) no_update,
  ap (replaced n (some (probe (("", "") ∷ [])))) no_update,
  ap (λ (l : List Service). contains (names l) n) no_create,
)

nothing_to_do-IsQuiet :
    (s : K8sSink)
    → NodupKeys s.source_services
    → IsNamed s
    → (crud_list s).1 ≡ nothing_to_do
    → IsQuiet s
unfolding crud_list
nothing_to_do-IsQuiet s u h e =
    let src = s.source_services in
    record {
      settled = λ n dns listed.
          settled_of_lists s n dns (changes src s).1 (changes src s).2
            (ground (arith, contains-create n src s))
            (λ labels. replaced-update n dns src s (some (probe labels)) h u listed)
            (ap (λ (c : Crud). c.create) e) (ap (λ (c : Crud). c.update) e);
      kept = λ n held. ground (
        arith,
        ap (λ (c : Crud). contains c.delete n) e,
        contains-stale n (changes src s).0.service_map_consul (changes src s).0.source_services,
        changes_frame src s,
        changes-has n src s,
      );
    }

upsert-IsQuiet :
    (key : String) (svc : Service) (s : K8sSink)
    → is_consul svc ≡ false
    → IsQuiet s
    → IsQuiet (upsert key (some svc) s)
      × ((upsert key (some svc) s).source_services ≡ s.source_services)
unfolding upsert classify
upsert-IsQuiet key svc s foreign q = rw foreign (
  record {
    settled =
        λ n dns e. ground (arith, q.settled n dns e, lookup-insert n svc.name tt s.service_map);
    kept = q.kept;
  },
  refl,
)

forget-IsQuiet :
    (key name : String) (s : K8sSink)
    → Dict.has name s.source_services ≡ false
    → IsQuiet s
    → IsQuiet (forget key name s)
unfolding forget classify
forget-IsQuiet key name s gone q = record {
  settled = λ n dns e. ground (
    arith,
    q.settled n dns e,
    lookup-erase n name s.service_map,
    lookup-erase n name s.service_map_consul,
  );
  kept = λ n e. ground (arith, q.kept n, lookup-erase n name s.service_map_consul);
}

delete-IsQuiet :
    (key : String) (s : K8sSink)
    → is_some s.trigger_ch ≡ true
    → IsQuiet s
    → ((delete key s).trigger_ch ≡ some true)
      ⊎ (IsQuiet (delete key s) × ((delete key s).source_services ≡ s.source_services))
unfolding delete
delete-IsQuiet key s ready q = elim (Option-cases (Dict.lookup key s.key_to_name)) [
  | inl e ↦ inl (rw (e, delete) (ground arith))
  | inr (name, e) ↦ elim (Bool-cases (Dict.has name s.source_services)) [
    | inl listed ↦ inl (rw (e, delete) (rw listed (ground arith)))
    | inr gone ↦ inr (rw (e, delete) (rw gone (forget-IsQuiet key name s gone q, refl)))
  ]
]

-- An event that sends no message gives no work.
step-IsQuiet :
    (e : Event) (s : K8sSink)
    → is_some s.trigger_ch ≡ true
    → IsQuiet s
    → ((step e s).trigger_ch ≡ some true)
      ⊎ (IsQuiet (step e s) × ((step e s).source_services ≡ s.source_services))
unfolding set_services upsert
step-IsQuiet (services svcs) s ready q = inl (ground arith)
step-IsQuiet (upserted key none) s ready q = inr (q, refl)
step-IsQuiet (upserted key (some svc)) s ready q = elim (Bool-cases (is_consul svc)) [
  | inl made ↦ inl (ground arith)
  | inr foreign ↦ inr (upsert-IsQuiet key svc s foreign q)
]
step-IsQuiet (deleted key) s ready q = delete-IsQuiet key s ready q

-- A message on `triggerCh` waits after an event that gives work to a sink that had none.
pub step_wakes :
    (e : Event) (s : K8sSink)
    → NodupKeys s.source_services
    → IsNamed s
    → is_some s.trigger_ch ≡ true
    → (crud_list s).1 ≡ nothing_to_do
    → ((step e s).trigger_ch ≡ some true) ⊎ ((crud_list (step e s)).1 ≡ nothing_to_do)
step_wakes e s u h ready quiet = elim (step-IsQuiet e s ready (nothing_to_do-IsQuiet s u h quiet)) [
  | inl woken ↦ inl woken
  | inr (q, same) ↦ inr (nothing_to_do_of_IsQuiet _ (rw same u) q)
]
