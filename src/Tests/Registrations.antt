-- ===== src/Tests/Registrations.antt =====
-- Tests of the registrations that control-plane/connect-inject/controllers/endpoints makes of a pod.
use consul_k8s.Base.{◌≡◌, ◌≢◌, refl, String, false, ◌==◌, some, [], ◌∷◌, arith, string_dec}
use consul_k8s.Base.Dict.{lookup}
use consul_k8s.ConnectInject.{Pod}
use consul_k8s.ConnectInject.Endpoints.Services.{meta_of}
use consul_k8s.ConnectInject.Endpoints.Services.Meta.{lookup-meta_of}
use consul_k8s.Tests.Endpoints.{pod_with, endpoints}

different : (s t : String) → (s == t) ≡ false → s ≢ t
different s t h = ground (arith, h)

-- A pod with a mark of its own.
abbrev marked : Pod
marked = pod_with (("consul.hashicorp.com/service-meta-managed-by", "me") ∷ [])

lookup-meta_of_example : lookup "managed-by" (meta_of marked (endpoints "web")) ≡ some "me"
unfolding lookup string_dec
lookup-meta_of_example =
    lookup-meta_of marked (endpoints "web") "managed-by" (different "managed-by" "" refl)
      (refl, (refl, tt))
