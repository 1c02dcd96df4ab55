-- ===== src/Catalog/K8sSink/Rounds.antt =====
-- What one round of the loop of `K8SSink.Run` leaves in Kubernetes.
use consul_k8s.Base.{◌≡◌, refl, ap, ◌∙◌, String, Bool, true, false, not, ◌&&◌, Option, none, some}
use consul_k8s.Base.{
  List, [], ◌∷◌, arith, ◌==◌, if◌then◌else◌, contains, is_some, Option-cases, inl, inr,
}
use consul_k8s.Base.Dict
use consul_k8s.Base.Dict.{Dict, NodupKeys}
use consul_k8s.Catalog.K8sSink.{Service, K8sSink, ServiceApi, is_consul, external, new_service}
use consul_k8s.Catalog.K8sSink.{classify, changes, crud_list, run_round, delete_all, update_all}
use consul_k8s.Catalog.K8sSink.{create_all, apply_crud}
use consul_k8s.Catalog.K8sSink.Changes.{
  IsNamed, changes_frame, changes-has, contains-stale, creation, outcome, replaced, added,
  replaced-update, added-create, replaced-update_absent, added-create_absent,
}

abbrev pub succeeded : Option String → Bool
succeeded none = true
succeeded (some e) = false

-- A call that gives no error does what it says to the one name, and one that gives an error
-- does nothing.
pub record IsLawful (A : ServiceApi) : Type 0 where
  pub view-delete :
      (w : A.State) (k j : String)
      → A.view (A.delete w k).0 j
        ≡ (if succeeded (A.delete w k).1 && j == k then none else A.view w j)
  pub view-update :
      (w : A.State) (svc : Service) (j : String)
      → A.view (A.update w svc).0 j
        ≡ (if succeeded (A.update w svc).1 && j == svc.name then some svc else A.view w j)
  pub view-create :
      (w : A.State) (svc : Service) (j : String)
      → A.view (A.create w svc).0 j
        ≡ (if succeeded (A.create w svc).1 && j == svc.name then some svc else A.view w j)

-- Kubernetes is up and answers as it does: a deletion or an update of a name that is there succeeds,
-- and of a name that is not there gives the error 404; a creation succeeds under a name that is free,
-- and gives the error 409 under one that is taken.
pub record IsUp (A : ServiceApi) : Type 0 where
  pub delete_up : (w : A.State) (k : String) → succeeded (A.delete w k).1 ≡ is_some (A.view w k)
  pub update_up :
      (w : A.State) (svc : Service) → succeeded (A.update w svc).1 ≡ is_some (A.view w svc.name)
  pub create_up :
      (w : A.State) (svc : Service)
      → succeeded (A.create w svc).1 ≡ not (is_some (A.view w svc.name))

-- The service under a name if it is one that the sink made.
abbrev pub consul_only : Option Service → Option Service
consul_only none = none
consul_only (some svc) = if is_consul svc then some svc else none

-- The sink's maps hold what Kubernetes holds, as a view of the service under each name.
pub record Reflects (s : K8sSink) (view : String → Option Service) : Type 0 where
  pub all : (n : String) → Dict.has n s.service_map ≡ is_some (view n)
  pub made : (n : String) → Dict.lookup n s.service_map_consul ≡ consul_only (view n)
  pub named : (n : String) (svc : Service) → view n ≡ some svc → svc.name ≡ n

pub Reflects-IsNamed : (s : K8sSink) (view : String → Option Service) → Reflects s view → IsNamed s
Reflects-IsNamed s view r k svc e = ground (arith, r.made k, r.named k svc)

-- What a name should hold, from what it holds and the DNS entry that Consul wants for it.
abbrev pub wanted : String → Option String → Option Service → Option Service
wanted n none none = none
wanted n none (some svc) = if is_consul svc then none else some svc
wanted n (some dns) none = some (new_service n dns)
wanted n (some dns) (some svc) =
    if is_consul svc && not (svc.spec.external_name == dns)
    then some (record svc { spec = external dns })
    else some svc

module _ (A : ServiceApi) where
  module _ (L : IsLawful A) (up : IsUp A) where
    view-delete_all :
        (ns : List String) (w : A.State) (j : String)
        → A.view (delete_all A ns w) j ≡ (if contains ns j then none else A.view w j)
    unfolding delete_all
    view-delete_all [] w j = refl
    view-delete_all (n ∷ ns) w j =
        ground (arith, view-delete_all ns (A.delete w n).0 j, L.view-delete w n j, up.delete_up w n)

    view-update_all :
        (l : List Service) (w : A.State) (j : String)
        → A.view (update_all A l w) j ≡ replaced j (A.view w j) l
    unfolding update_all
    view-update_all [] w j = refl
    view-update_all (svc ∷ l) w j =
        view-update_all l (A.update w svc).0 j
        ∙ ap (λ old. replaced j old l) (ground (arith, L.view-update w svc j, up.update_up w svc))

    view-create_all :
        (l : List Service) (w : A.State) (j : String)
        → A.view (create_all A l w) j ≡ added j (A.view w j) l
    unfolding create_all
    view-create_all [] w j = refl
    view-create_all (svc ∷ l) w j =
        view-create_all l (A.create w svc).0 j
        ∙ ap (λ old. added j old l) (ground (arith, L.view-create w svc j, up.create_up w svc))

  classify-wanted :
      (s : K8sSink) (w : A.State) (n dns : String)
      → Reflects s (A.view w)
      → creation (classify s n dns) n dns (outcome (classify s n dns) dns (A.view w n))
        ≡ wanted n (some dns) (A.view w n)
  unfolding classify
  classify-wanted s w n dns r = ground (arith, r.made n, r.all n)

  module _ (L : IsLawful A) (up : IsUp A) where
    added-crud :
        (s : K8sSink) (w : A.State) (n : String)
        → Reflects s (A.view w)
        → NodupKeys s.source_services
        → added n
            (replaced n
              (if contains (crud_list s).1.delete n then none else A.view w n)
              (crud_list s).1.update)
            (crud_list s).1.create
          ≡ wanted n (Dict.lookup n s.source_services) (A.view w n)
    unfolding crud_list
    added-crud s w n r u =
        let named = Reflects-IsNamed s (A.view w) r in
        let src = s.source_services in
        let held = (changes src s).0.service_map_consul in
        elim (Option-cases (Dict.lookup n src)) [
          | inl e ↦
              rw (replaced-update_absent n src s _ named e, added-create_absent n src s _ e)
                (ground (
                  arith,
                  contains-stale n held (changes src s).0.source_services,
                  changes_frame src s,
                  changes-has n src s,
                  r.made n,
                ))
          | inr (dns, e) ↦
              rw (replaced-update n dns src s _ named u e, added-create n dns src s _ u e)
                (ground (
                  arith,
                  contains-stale n held (changes src s).0.source_services,
                  changes_frame src s,
                  classify-wanted s w n dns r,
                ))
        ]

    view-apply_crud :
        (s : K8sSink) (w : A.State) (n : String)
        → Reflects s (A.view w)
        → NodupKeys s.source_services
        → A.view (apply_crud A (crud_list s).1 w) n
          ≡ wanted n (Dict.lookup n s.source_services) (A.view w n)
    unfolding apply_crud
    view-apply_crud s w n r u =
        rw (view-create_all L up, view-update_all L up, view-delete_all L up) (added-crud s w n r u)

    -- If the sink's maps hold what Kubernetes holds, and Kubernetes refuses only to create a name that
    -- is taken and to update or delete one that is absent, then after a round each name holds what it
    -- should: a service that Consul lists is there and, if it was absent or made by the sink, points to
    -- its DNS entry; one that the sink made and Consul no longer lists is gone; every other is unchanged.
    pub view-run_round :
        (s : K8sSink) (w : A.State) (n : String)
        → Reflects s (A.view w)
        → NodupKeys s.source_services
        → A.view (run_round A s w).1 n ≡ wanted n (Dict.lookup n s.source_services) (A.view w n)
    unfolding run_round
    view-run_round s w n r u =
        view-apply_crud _ w n (record { all = r.all; made = r.made; named = r.named }) u
