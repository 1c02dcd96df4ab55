-- ===== src/Catalog/K8sSink/Safety.antt =====
-- Services that the sink did not make are left alone, also when calls fail.
use consul_k8s.Base.{◌≡◌, ◌∙◌, refl, String, false, some, List, [], ◌∷◌, arith}
use consul_k8s.Base.{contains}
use consul_k8s.Catalog.K8sSink.{Service, K8sSink, ServiceApi, is_consul, changes, crud_list}
use consul_k8s.Catalog.K8sSink.{run_round, delete_all, update_all, create_all, apply_crud}
use consul_k8s.Catalog.K8sSink.Changes.{
  names, changes-has, contains-stale, contains-create, contains-update,
}
use consul_k8s.Catalog.K8sSink.Rounds.{IsLawful, Reflects, Reflects-IsNamed}

module _ (A : ServiceApi) (L : IsLawful A) where
  view-delete_all_other :
      (ns : List String) (w : A.State) (j : String)
      → contains ns j ≡ false
      → A.view (delete_all A ns w) j ≡ A.view w j
  unfolding delete_all
  view-delete_all_other [] w j e = refl
  view-delete_all_other (n ∷ ns) w j e =
      ground (arith, view-delete_all_other ns (A.delete w n).0 j, L.view-delete w n j)

  view-update_all_other :
      (l : List Service) (w : A.State) (j : String)
      → contains (names l) j ≡ false
      → A.view (update_all A l w) j ≡ A.view w j
  unfolding update_all
  view-update_all_other [] w j e = refl
  view-update_all_other (svc ∷ l) w j e =
      ground (arith, view-update_all_other l (A.update w svc).0 j, L.view-update w svc j)

  view-create_all_other :
      (l : List Service) (w : A.State) (j : String)
      → contains (names l) j ≡ false
      → A.view (create_all A l w) j ≡ A.view w j
  unfolding create_all
  view-create_all_other [] w j e = refl
  view-create_all_other (svc ∷ l) w j e =
      ground (arith, view-create_all_other l (A.create w svc).0 j, L.view-create w svc j)

  -- The name of such a service stands in none of the three lists.
  crud_list-avoids :
      (s : K8sSink) (w : A.State) (n : String) (svc : Service)
      → Reflects s (A.view w)
      → A.view w n ≡ some svc
      → is_consul svc ≡ false
      → (contains (crud_list s).1.delete n ≡ false)
        × (contains (names (crud_list s).1.update) n ≡ false)
        × (contains (names (crud_list s).1.create) n ≡ false)
  unfolding crud_list
  crud_list-avoids s w n svc r here foreign =
      let src = s.source_services in
      let t = (changes src s).0 in
      (
        ground (
          arith,
          contains-stale n t.service_map_consul t.source_services,
          changes-has n src s,
          r.made n,
        ),
        ground (arith, contains-update n src s (Reflects-IsNamed s (A.view w) r), r.made n),
        ground (arith, contains-create n src s, r.all n),
      )

  apply_crud-keeps :
      (s : K8sSink) (w : A.State) (n : String) (svc : Service)
      → Reflects s (A.view w)
      → A.view w n ≡ some svc
      → is_consul svc ≡ false
      → A.view (apply_crud A (crud_list s).1 w) n ≡ some svc
  unfolding apply_crud
  apply_crud-keeps s w n svc r here foreign =
      let (d, u, c) = crud_list-avoids s w n svc r here foreign in
      view-create_all_other _ _ n c
      ∙ view-update_all_other _ _ n u
      ∙ view-delete_all_other _ w n d
      ∙ here

  -- If the sink's maps hold what Kubernetes holds, a service without the label `consul=true` is the
  -- same after a round, whichever of the round's calls fail.
  pub run_round-keeps :
      (s : K8sSink) (w : A.State) (n : String) (svc : Service)
      → Reflects s (A.view w)
      → A.view w n ≡ some svc
      → is_consul svc ≡ false
      → A.view (run_round A s w).1 n ≡ some svc
  unfolding run_round
  run_round-keeps s w n svc r here foreign =
      apply_crud-keeps _ w n svc (record { all = r.all; made = r.made; named = r.named }) here
        foreign
