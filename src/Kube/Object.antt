-- ===== src/Kube/Object.antt =====
-- The Kubernetes objects, by the fields that pkg/ports, pkg/remoteaddr and cmd/client read. An
-- int32 port is its bit pattern, a number below 2 ^ 32.
use krelay.Prelude.{ℕ, List, Bytes, Result}

-- ContainerPort and ServicePort.
pub record ObjectPort : Type 0 where
  pub name : Bytes
  pub port : ℕ
  pub protocol : Bytes

pub record PodSpec : Type 0 where
  pub containers : List (List ObjectPort)

pub record Pod : Type 0 where
  pub pod_spec : PodSpec
  pub pod_ip : Bytes

pub record Service : Type 0 where
  pub service_type : Bytes
  pub external_name : Bytes
  pub cluster_ip : Bytes
  pub service_selector : List (Bytes × Bytes)
  pub service_ports : List ObjectPort

-- A workload's label selector is what `LabelSelectorAsSelector` makes of it: the selector's text,
-- or an error.
pub record Workload : Type 0 where
  pub template : PodSpec
  pub selector : Result Bytes Bytes

pub data Object : Type 0 where
  pod : Pod → Object
  service : Service → Object
  deployment : Workload → Object
  stateful_set : Workload → Object
  replica_set : Workload → Object
  daemon_set : Workload → Object
  other : Object
