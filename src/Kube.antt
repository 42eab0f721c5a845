-- ===== src/Kube.antt =====
-- The Kubernetes objects that the program reads and patches, with the fields that it uses, and the
-- client through which it does so. The client is not part of the repository: it is a parameter.
pub mod Aggregate
pub mod Stored
use cluster_turndown.Prelude.{String, Bool, Option, List, ℤ, GoMap, Result}

-- `intstr.IntOrString`, whose `Type` says which of the two values counts.
pub data IntOrStringType : Type 0 where
  int string : IntOrStringType

pub record IntOrString : Type 0 where
  pub type : IntOrStringType
  pub int_val : ℤ
  pub str_val : String

pub record RollingUpdate : Type 0 where
  pub max_unavailable : Option IntOrString
  pub max_surge : Option IntOrString

pub record Toleration : Type 0 where
  pub key : String
  pub operator : String
  pub effect : String

-- `spec.replicas` is a pointer that the API server fills in before it stores a deployment.
pub record Deployment : Type 0 where
  pub namespace : String
  pub name : String
  pub annotations : GoMap String
  pub template_annotations : GoMap String
  pub replicas : ℤ
  pub rolling_update : Option RollingUpdate
  pub tolerations : List Toleration
  pub node_selector : GoMap String

pub record DaemonSet : Type 0 where
  pub namespace : String
  pub name : String
  pub annotations : GoMap String
  pub template_annotations : GoMap String

pub record CronJob : Type 0 where
  pub namespace : String
  pub name : String
  pub annotations : GoMap String
  pub suspend : Option Bool

pub record Taint : Type 0 where
  pub key : String
  pub value : String
  pub effect : String

-- Nodes have no namespace.
pub record Node : Type 0 where
  pub name : String
  pub labels : GoMap String
  pub unschedulable : Bool
  pub taints : List Taint
  pub provider_id : String

-- What `client-go`, `encoding/json` and `strategicpatch` do for one kind of object `D` in a world `W`.
pub record Client (W D : Type 0) : Type 1 where
  pub Bytes : Type 0
  pub Patch : Type 0
  pub list : W → Result (List D)
  pub marshal : D → Result Bytes
  pub no_bytes : Bytes  -- the nil slice
  pub two_way_patch : Bytes → Bytes → D → Result Patch
  pub patch : String → String → Patch → W → Result D × W

-- The names under which an object is stored.
pub record Named (D : Type 0) : Type 0 where
  pub namespace_of : D → String
  pub name_of : D → String

abbrev pub deployment_names : Named Deployment
deployment_names = record { namespace_of = λ d. d.namespace; name_of = λ d. d.name }

abbrev pub daemon_set_names : Named DaemonSet
daemon_set_names = record { namespace_of = λ d. d.namespace; name_of = λ d. d.name }

abbrev pub cron_job_names : Named CronJob
cron_job_names = record { namespace_of = λ d. d.namespace; name_of = λ d. d.name }

abbrev pub node_names : Named Node
node_names = record { namespace_of = λ n. ""; name_of = λ n. n.name }
