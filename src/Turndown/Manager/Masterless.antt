-- ===== src/Turndown/Manager/Masterless.antt =====
-- pkg/turndown/strategy/masterless.go: a node for the turndown pod where the masters are not nodes.
pub mod Host
use cluster_turndown.Prelude.{
  String, Bool, false, not, ◌||◌, Option, none, some, List, [], ◌∷◌, ◌++◌, str_eq, if◌then◌else◌,
  find?, GoMap, Error, error, Result, ok, err,
}
use cluster_turndown.Kube.{Node, Taint, Client}
use cluster_turndown.Patcher.{no_updates, patch_node, update_node_label}
use cluster_turndown.Pools.{NodePool}
use cluster_turndown.Turndown.Manager.{Provider}
use cluster_turndown.Turndown.Manager.Environment.{TurndownStrategy, Surroundings}
use cluster_turndown.Pools.Resize.{turndown_node_label}

abbrev pub masterless_taint_key : String
masterless_taint_key = "CriticalAddonsOnly"

unfoldable pub has_taint : String → List Taint → Bool
has_taint key [] = false
has_taint key (t ∷ ts) = str_eq t.key key || has_taint key ts

unfoldable pub add_taint : Node → Node × Option Error
unfolding has_taint
add_taint n = if has_taint masterless_taint_key n.taints then (n, some no_updates) else (
  record n {
    taints =
        n.taints
        ++ record { key = masterless_taint_key; value = "true"; effect = "NoSchedule" } ∷ [];
  },
  none,
)

-- What the strategy calls of the provider of pools, besides those methods that the manager calls.
pub record HostProvider (W : Type 0) : Type 0 where
  pub provider : Provider W
  pub is_turndown_node_pool : W → Bool
  pub create_singleton_node_pool : GoMap String → W → Option Error × W

module _ {W : Type 0} (client : Client W Node) (s : Surroundings W) (h : HostProvider W)
    (labels : GoMap String) where
  -- The node of the singleton pool, which is made if there is none; `none` is the panic on an empty list.
  unfoldable pub fixed_host : W → Option (Result Node × W)
  fixed_host w =
      let (failed, w₁) =
        if not (h.is_turndown_node_pool w)
        then h.create_singleton_node_pool labels w
        else (none, w) in
      elim failed [
        | some e ↦ some (err e, w₁)
        | none ↦ elim (s.list_turndown_nodes w₁) [
          | err e ↦ some (err e, w₁)
          | ok [] ↦ none
          | ok (n ∷ ns) ↦ some (ok n, w₁)
        ]
      ]

  -- A node of the pool that scales by itself, with the label of the turndown node.
  unfoldable pub scaling_host : NodePool → W → Result Node × W
  unfolding update_node_label
  scaling_host pool w = elim (client.list w) [
    | err e ↦ (err e, w)
    | ok nodes ↦ elim (find? (λ n. str_eq (h.provider.get_pool_id n) pool.name) nodes) [
      | none ↦ (err (error "Target node was not located for autoscaling cluster."), w)
      | some n ↦ update_node_label client n turndown_node_label "true" w
    ]
  ]

  unfoldable pub host_node : W → Option (Result Node × W)
  unfolding fixed_host scaling_host
  host_node w = elim (h.provider.get_node_pools w) [
    | err e ↦ some (err e, w)
    | ok pools ↦ elim (find? (λ np. np.auto_scaling) pools) [
      | none ↦ fixed_host w
      | some pool ↦ some (scaling_host pool w)
    ]
  ]

  unfoldable pub create_or_get_host_node : W → Option (Result Node × W)
  unfolding host_node add_taint patch_node
  create_or_get_host_node w = elim (host_node w) [
    | none ↦ none
    | some (err e, w₁) ↦ some (err e, w₁)
    | some (ok n, w₁) ↦ some (patch_node client n add_taint w₁)
  ]

  abbrev pub masterless_strategy : TurndownStrategy W
  masterless_strategy = record {
    taint_key = masterless_taint_key;
    is_reversible = false;
    create_or_get_host_node = create_or_get_host_node;
    update_dns = λ w. (none, w);
    reverse_host_node = λ w.
        (some (error "MasterlessTurndownStrategy::ReverseHostNode() is not yet implemented!"), w);
  }
