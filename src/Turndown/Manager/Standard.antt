-- ===== src/Turndown/Manager/Standard.antt =====
-- pkg/turndown/strategy/standard.go: the turndown pod on a master node. What is read of the cluster is a
-- parameter.
pub mod Labels
pub mod Prepared
use Prim.Native.String.{◌++◌ as str_append}
use cluster_turndown.Prelude.{
  String, true, Option, none, some, List, [], ◌∷◌, ◌++◌, put, Error, error, Result, ok, err, ◌>>=◌,
}
use cluster_turndown.Kube.{Node, Deployment, Client}
use cluster_turndown.Patcher.{patch_deployment, update_node_label, delete_node_label}
use cluster_turndown.Turndown.Manager.Environment.{TurndownStrategy}
use cluster_turndown.Pools.Resize.{turndown_node_label}

abbrev pub master_node_label_key : String
master_node_label_key = "node-role.kubernetes.io/master"

abbrev pub node_role_label_key : String
node_role_label_key = "kubernetes.io/role"

abbrev pub scheduler_toleration_annotation : String
scheduler_toleration_annotation = "scheduler.alpha.kubernetes.io/tolerations"

-- The nodes are listed by a label selector; the pods of kube-dns are deleted as a collection, whose error
-- is dropped.
pub record StandardCluster (W : Type 0) : Type 1 where
  pub nodes : Client W Node
  pub deployments : Client W Deployment
  pub list_by : String → W → Result (List Node)
  pub get_deployment : String → String → W → Result Deployment
  pub delete_pods : String → String → W → W

-- Adds the annotation to the deployment and to its pods.
put_annotation : String → Deployment → Deployment
put_annotation v d = record d {
  annotations = put d.annotations scheduler_toleration_annotation v;
  template_annotations = put d.template_annotations scheduler_toleration_annotation v;
}

-- What is sent of kube-dns when it may run on the master.
unfoldable pub allow_master : Deployment → Deployment × Option Error
unfolding put_annotation
allow_master d = (
  record (put_annotation
      (str_append "[{\"key\":\"CriticalAddonsOnly\", \"operator\":\"Exists\"}, {\"key\":\""
        (str_append master_node_label_key "\", \"operator\":\"Exists\"}]"))
      d) {
        tolerations =
            d.tolerations
            ++ record { key = master_node_label_key; operator = "Exists"; effect = "" } ∷ [];
      },
  none,
)

-- And when it may not.
unfoldable pub disallow_master : Deployment → Deployment × Option Error
unfolding put_annotation
disallow_master d = (
  record (put_annotation "[{\"key\":\"CriticalAddonsOnly\", \"operator\":\"Exists\"}]" d) {
    tolerations = [];
  },
  none,
)

abbrev failure : {A : Type 0} → Result A → Option Error
failure (ok a) = none
failure (err e) = some e

first_node : List Node → Result Node
first_node [] = err (error "Failed to locate master node in standard turndown strategy.")
first_node (n ∷ ns) = ok n

module _ {W : Type 0} (c : StandardCluster W) where
  -- By the second selector, when the first fails or finds none.
  other_master : W → Result Node
  unfolding first_node
  other_master w = c.list_by (str_append node_role_label_key "=master") w >>= first_node

  unfoldable pub master_node : W → Result Node
  unfolding other_master
  master_node w = elim (c.list_by master_node_label_key w) [
    | err e ↦ other_master w
    | ok [] ↦ other_master w
    | ok (n ∷ ns) ↦ ok n
  ]

  unfoldable pub label_master : W → Result Node × W
  unfolding master_node update_node_label
  label_master w = elim (master_node w) [
    | err e ↦ (err e, w)
    | ok n ↦ update_node_label c.nodes n turndown_node_label "true" w
  ]

  -- One change of kube-dns.
  patch_dns : (Deployment → Deployment × Option Error) → W → Option Error × W
  unfolding patch_deployment
  patch_dns change w = elim (c.get_deployment "kube-system" "kube-dns" w) [
    | err e ↦ (some e, w)
    | ok dns ↦
        let (answer, w') = patch_deployment c.deployments dns change w in (failure answer, w')
  ]

  unfoldable pub update_dns : W → Option Error × W
  unfolding patch_dns allow_master
  update_dns = patch_dns allow_master

  -- After the label is taken off the master; the pods are deleted once the deployment is found, whether or
  -- not it could be changed.
  reverse_dns : W → Option Error × W
  unfolding patch_deployment disallow_master
  reverse_dns w = elim (c.get_deployment "kube-system" "kube-dns" w) [
    | err e ↦ (some e, w)
    | ok dns ↦
        let (answer, w') = patch_deployment c.deployments dns disallow_master w in
        (failure answer, c.delete_pods "kube-system" "k8s-app=kube-dns" w')
  ]

  -- The error of taking the label off is overwritten.
  unfoldable pub reverse_host_node : W → Option Error × W
  unfolding master_node delete_node_label reverse_dns
  reverse_host_node w = elim (master_node w) [
    | err e ↦ (some e, w)
    | ok n ↦ reverse_dns (delete_node_label c.nodes n turndown_node_label w).1
  ]

  abbrev pub standard_strategy : TurndownStrategy W
  standard_strategy = record {
    taint_key = master_node_label_key;
    is_reversible = true;
    create_or_get_host_node = λ w. some (label_master w);
    update_dns = update_dns;
    reverse_host_node = reverse_host_node;
  }
