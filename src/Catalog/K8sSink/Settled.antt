-- ===== src/Catalog/K8sSink/Settled.antt =====
-- A second look at the lists: after a round there is nothing left to do.
use consul_k8s.Base.{◌≡◌, refl, String, true, some, [], ◌∷◌, arith}
use consul_k8s.Base.{◌⊎◌, inl, inr, Option, is_some, string_dec}
use consul_k8s.Base.Dict
use consul_k8s.Base.Dict.{Dict, NodupKeys, lookup-insert}
use consul_k8s.Catalog.K8sSink.{
  Service, K8sSink, ServiceApi, Crud, is_consul, new_service, matching, taken,
}
use consul_k8s.Catalog.K8sSink.{classify, changes, stale, crud_list, run_round}
use consul_k8s.Catalog.K8sSink.Rounds.{
  IsLawful, IsUp, wanted, consul_only, Reflects, view-run_round,
}

abbrev pub nothing_to_do : Crud
nothing_to_do = record { create = []; update = []; delete = [] }

-- Nothing is to be written for a name whose service points to its DNS entry, or is not the sink's.
abbrev pub IsSettled : K8sSink → String → String → Type 0
IsSettled s n dns = (classify s n dns ≡ matching) ⊎ (classify s n dns ≡ taken)

pub changes_of_IsSettled :
    (src : Dict String) (s : K8sSink)
    → NodupKeys src
    → ((n dns : String) → Dict.lookup n src ≡ some dns → IsSettled s n dns)
    → changes src s ≡ (s, [], [])
unfolding changes
changes_of_IsSettled [] s u h = refl
changes_of_IsSettled ((name, dns) ∷ rest) s (fresh, u) h =
    let ih =
      changes_of_IsSettled rest s u
        λ n dns' e. h n dns' (ground (arith, Dict.lookup-cons n name dns rest)) in
    elim (h name dns (ground (arith, Dict.lookup-cons name name dns rest))) [
      | inl e ↦ rw (e, changes) (rw ih)
      | inr e ↦ rw (e, changes) (rw ih)
    ]

pub stale_of_subset :
    (held : Dict Service) (source : Dict String)
    → ((n : String) → Dict.has n held ≡ true → Dict.has n source ≡ true)
    → stale held source ≡ []
unfolding stale
stale_of_subset [] source h = refl
stale_of_subset ((name, svc) ∷ rest) source h =
    let ih =
      stale_of_subset rest source λ n e. h n (ground (arith, Dict.lookup-cons n name svc rest)) in
    ground (arith, ih, h name (ground (arith, Dict.lookup-cons name name svc rest)))

is_consul-new_service : (n dns : String) → is_consul (new_service n dns) ≡ true
unfolding Dict.lookup string_dec
is_consul-new_service n dns = refl

wanted-IsSettled :
    (t : K8sSink) (n dns : String) (old now : Option Service)
    → Dict.has n t.service_map ≡ is_some now
    → Dict.lookup n t.service_map_consul ≡ consul_only now
    → now ≡ wanted n (some dns) old
    → IsSettled t n dns
unfolding classify
wanted-IsSettled t n dns old now all made e = ground (arith, is_consul-new_service n dns)

wanted-has :
    (t : K8sSink) (n : String) (dns : Option String) (old now : Option Service)
    → Dict.lookup n t.service_map_consul ≡ consul_only now
    → now ≡ wanted n dns old
    → Dict.has n t.service_map_consul ≡ true
    → is_some dns ≡ true
wanted-has t n dns old now made e h = ground arith

module _ (A : ServiceApi) (L : IsLawful A) (up : IsUp A) where
  -- If the sink's maps hold what Kubernetes holds, then after a round in which Kubernetes refuses only
  -- to create a name that is taken and to update or delete one that is absent, a sink that has seen the
  -- round's changes, and still wants the same services, has nothing to create, update or delete.
  pub crud_list-run_round :
      (s t : K8sSink) (w : A.State)
      → Reflects s (A.view w)
      → NodupKeys s.source_services
      → Reflects t (A.view (run_round A s w).1)
      → t.source_services ≡ s.source_services
      → crud_list t ≡ (t, nothing_to_do)
  unfolding crud_list
  crud_list-run_round s t w r u r' same =
      let done = changes_of_IsSettled t.source_services t (rw same u) (λ n dns e.
        wanted-IsSettled t n dns (A.view w n) _ (r'.all n) (r'.made n)
          (rw (← rw same at e) (view-run_round A L up s w n r u))) in
      let gone = stale_of_subset t.service_map_consul t.source_services (λ n h.
        rw same
          (wanted-has t n _ (A.view w n) _ (r'.made n) (view-run_round A L up s w n r u) h)) in
      rw done (rw gone)
