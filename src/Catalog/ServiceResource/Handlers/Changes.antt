-- ===== src/Catalog/ServiceResource/Handlers/Changes.antt =====
-- What the handlers of control-plane/catalog/to-consul/resource.go change keeps the rule that only
-- services that are to be synced are known, tracked and registered.
use consul_k8s.Base.{◌≡◌, ap, String, true, false, ◌&&◌, ◌||◌, some, arith}
use consul_k8s.Base.{◌==◌, string_dec, Option-cases, inl, inr}
use consul_k8s.Base.Dict
use consul_k8s.Base.Dict.{lookup, insert, erase, lookup-insert, lookup-erase, lookup-nil}
use consul_k8s.Catalog.ServiceResource.{
  Service, Endpoints, Reader, Settings, ServiceResource, should_sync, should_track_endpoints,
}
use consul_k8s.Catalog.ServiceResource.Generate.{generate_registrations}
use consul_k8s.Catalog.ServiceResource.Generate.Instances.{
  generate_registrations_frame, lookup-generate_registrations,
}

-- What is registered or has endpoints is a known service, and known services are to be synced.
pub record IsAllowed (c : Settings) (t : ServiceResource) : Type 0 where
  pub registered : (k : String) → Dict.has k t.consul_map ≡ true → Dict.has k t.service_map ≡ true
  pub tracked : (k : String) → Dict.has k t.endpoints_map ≡ true → Dict.has k t.service_map ≡ true
  pub selected :
      (k : String) (svc : Service) → lookup k t.service_map ≡ some svc → should_sync c svc ≡ true

-- A generation registers nothing under other keys.
has-generate :
    (c : Settings) (rd : Reader) (key k : String) (t : ServiceResource)
    → Dict.has k (generate_registrations c rd key t).consul_map ≡ true
    → (Dict.has k t.consul_map || (k == key && Dict.has key t.service_map)) ≡ true
unfolding generate_registrations
has-generate c rd key k t h = elim (Option-cases (lookup key t.service_map)) [
  | inl unknown ↦ ground (arith, unknown, h)
  | inr (svc, known) ↦
      ground (arith, known, h, lookup-generate_registrations c rd key k svc t known)
]

pub generate-IsAllowed :
    (c : Settings) (rd : Reader) (key : String) (t : ServiceResource)
    → IsAllowed c t
    → IsAllowed c (generate_registrations c rd key t)
generate-IsAllowed c rd key t v = rw (generate_registrations_frame c rd key t) (record {
  registered = λ k h. ground (arith, has-generate c rd key k t h, v.registered k);
  tracked = v.tracked;
  selected = v.selected;
})

-- What a deletion leaves.
pub erase-IsAllowed :
    (c : Settings) (key : String) (t : ServiceResource)
    → IsAllowed c t
    → IsAllowed c (record t {
      service_map = erase key t.service_map;
      endpoints_map = erase key t.endpoints_map;
      consul_map = erase key t.consul_map;
    })
erase-IsAllowed c key t v = record {
  registered = λ k h.
      ground (
        arith,
        h,
        v.registered k,
        lookup-erase k key t.consul_map,
        lookup-erase k key t.service_map,
      );
  tracked = λ k h.
      ground (
        arith,
        h,
        v.tracked k,
        lookup-erase k key t.endpoints_map,
        lookup-erase k key t.service_map,
      );
  selected = λ k svc h. ground (arith, h, v.selected k svc, lookup-erase k key t.service_map);
}

-- Without registrations there is nothing to remove from their map.
pub erase_tracked-IsAllowed :
    (c : Settings) (key : String) (t : ServiceResource)
    → Dict.has key t.consul_map ≡ false
    → IsAllowed c t
    → IsAllowed c (record t {
      service_map = erase key t.service_map;
      endpoints_map = erase key t.endpoints_map;
    })
erase_tracked-IsAllowed c key t unregistered v = record {
  registered = λ k h. elim (string_dec k key) [
    | yes same ↦ ground (arith, h, unregistered, ap (λ k. Dict.has k t.consul_map) same)
    | no other ↦ ground (arith, h, other, v.registered k, lookup-erase k key t.service_map)
  ];
  tracked = λ k h.
      ground (
        arith,
        h,
        v.tracked k,
        lookup-erase k key t.endpoints_map,
        lookup-erase k key t.service_map,
      );
  selected = λ k svc h. ground (arith, h, v.selected k svc, lookup-erase k key t.service_map);
}

-- A service that is to be synced becomes known.
pub insert-IsAllowed :
    (c : Settings) (key : String) (svc : Service) (t : ServiceResource)
    → should_sync c svc ≡ true
    → IsAllowed c t
    → IsAllowed c (record t { service_map = insert key svc t.service_map })
insert-IsAllowed c key svc t wanted v = record {
  registered = λ k h. ground (arith, h, v.registered k, lookup-insert k key svc t.service_map);
  tracked = λ k h. ground (arith, h, v.tracked k, lookup-insert k key svc t.service_map);
  selected = λ k svc' h.
      grind (arith, h, wanted, v.selected k svc', lookup-insert k key svc t.service_map);
}

-- Endpoints are kept for a service that is known.
pub insert_endpoints-IsAllowed :
    (c : Settings) (key : String) (endpoints : Endpoints) (t : ServiceResource)
    → should_track_endpoints c key t ≡ true
    → IsAllowed c t
    → IsAllowed c (record t { endpoints_map = insert key endpoints t.endpoints_map })
unfolding should_track_endpoints
insert_endpoints-IsAllowed c key endpoints t track v = record {
  registered = v.registered;
  tracked = λ k h. elim (Option-cases (lookup key t.service_map)) [
    | inl unknown ↦ ground (arith, unknown, track)
    | inr (svc, known) ↦
        ground (arith, h, known, v.tracked k, lookup-insert k key endpoints t.endpoints_map)
  ];
  selected = v.selected;
}

-- What the endpoints of a service leave when they go.
pub erase_endpoints-IsAllowed :
    (c : Settings) (key : String) (t : ServiceResource)
    → IsAllowed c t
    → IsAllowed c (record t { endpoints_map = erase key t.endpoints_map })
erase_endpoints-IsAllowed c key t v = record {
  registered = v.registered;
  tracked = λ k h. ground (arith, h, v.tracked k, lookup-erase k key t.endpoints_map);
  selected = v.selected;
}

pub erase_registrations-IsAllowed :
    (c : Settings) (key : String) (t : ServiceResource)
    → IsAllowed c t
    → IsAllowed c (record t { consul_map = erase key t.consul_map })
erase_registrations-IsAllowed c key t v = record {
  registered = λ k h. ground (arith, h, v.registered k, lookup-erase k key t.consul_map);
  tracked = v.tracked;
  selected = v.selected;
}
