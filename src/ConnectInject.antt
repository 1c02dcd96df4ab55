-- ===== src/ConnectInject.antt =====
-- The controller of connect-inject that registers pods of the mesh (control-plane/connect-inject).
-- Here is what it reads of a pod; the children have its parts.
pub mod Outcome
pub mod Common
pub mod Upstreams
pub mod Pods
pub mod Deregister
pub mod Metrics
pub mod Endpoints
use consul_k8s.Base.{String, Option, List}
use consul_k8s.Base.Int.{ℤ}
use consul_k8s.Base.Dict.{Dict}

-- `corev1.ContainerPort`
pub record ContainerPort : Type 0 where
  pub name : String
  pub container_port : ℤ

-- `intstr.IntOrString`
pub data IntOrString : Type 0 where
  int : ℤ → IntOrString
  string : String → IntOrString

-- `corev1.HTTPGetAction`
pub record HttpGet : Type 0 where
  pub path : String
  pub port : IntOrString

-- `corev1.Probe`
pub record Probe : Type 0 where
  pub http_get : Option HttpGet

-- `corev1.Container`
pub record Container : Type 0 where
  pub name : String
  pub ports : List ContainerPort
  pub liveness_probe : Option Probe
  pub readiness_probe : Option Probe
  pub startup_probe : Option Probe

-- `corev1.Pod`
pub record Pod : Type 0 where
  pub name : String
  pub namespace : String
  pub annotations : Dict String
  pub labels : Dict String
  pub containers : List Container
  pub node_name : String
  pub pod_ip : String
  pub host_ip : String
