-- ===== src/Pools/Choice.antt =====
-- pkg/cluster/provider/clusterprovider.go and pkg/turndown/provider/provider.go: the choice of the provider
-- by the first node, and pkg/turndown/provider/validator.go: its validation.
use Prim.Native.String.{◌++◌ as str_append}
use cluster_turndown.Prelude.{
  ℕ, zero, suc, Bool, true, false, Option, none, some, List, [], ◌∷◌, ◌==◌, if◌then◌else◌, get,
  Error, error, Result, ok, err, ◌>>=◌,
}
use cluster_turndown.Strconv.{to_lower}
use cluster_turndown.Strconv.Find.{has_prefix}
use cluster_turndown.Kube.{Node}
use cluster_turndown.Pools.{NodePool}
use cluster_turndown.Pools.Eks.{label_eks_node_pool}

pub data ProviderKind : Type 0 where
  gke_kind eks_kind aws_kind : ProviderKind

has_pool_label : Node → Bool
has_pool_label n = elim (get n.labels label_eks_node_pool) [ none ↦ false | some v ↦ true ]

unfoldable pub kind_of_node : Node → Result ProviderKind
unfolding has_prefix has_pool_label
kind_of_node n =
    let provider = to_lower n.provider_id in
    if has_prefix provider "aws"
    then (if has_pool_label n then ok eks_kind else ok aws_kind)
    else if has_prefix provider "azure"
    then err (error "Azure Not Supported")
    else err (error "Custom Not Supported")

-- `metadata.OnGCE()` is asked once there is a node.
unfoldable pub kind_of_nodes : Bool → List Node → Result ProviderKind
unfolding kind_of_node
kind_of_nodes on_gce [] = err (error "Could not locate any Nodes in Kubernetes cluster.")
kind_of_nodes on_gce (n ∷ ns) = if on_gce then ok gke_kind else kind_of_node n

module _ {W : Type 0} (list_nodes : Option (W → Result (List Node))) (on_gce : Bool) where
  -- `none` is a nil client. The constructor of the provider may fail.
  unfoldable pub new_cluster_provider : {P : Type 0} → (ProviderKind → W → Result P) → W → Result P
  unfolding kind_of_nodes
  new_cluster_provider make w = elim list_nodes [
    | none ↦ err (error "Could not create new TurndownProvider with nil Kubernetes client")
    | some list ↦ elim (list w) [
      | err e ↦ err (record e { message = str_append "listing nodes: " e.message })
      | ok nodes ↦ kind_of_nodes on_gce nodes >>= (λ kind. make kind w)
    ]
  ]

  -- `none` is a nil provider of the cluster.
  unfoldable pub new_turndown_provider : {P : Type 0} → Option P → W → Result (ProviderKind × P)
  unfolding kind_of_nodes
  new_turndown_provider cluster w = elim list_nodes [
    | none ↦ err (error "Could not create new TurndownProvider with nil Kubernetes client")
    | some list ↦ elim cluster [
      | none ↦
          err
            (error "Could not create new TurndownProvider with nil ClusterProvider implementation")
      | some p ↦ elim (list w) [
        | err e ↦ err e
        | ok nodes ↦ kind_of_nodes on_gce nodes >>= (λ kind. ok (kind, p))
      ]
    ]
  ]

-- One attempt after the other, with a wait between two; what the goroutine sends is what is returned.
unfoldable pub validate :
    {W : Type 0} → (W → Result (List NodePool)) → (W → W) → ℕ → W → Option Error × W
validate get_node_pools wait zero w = (some (error "Failed to validate provider"), w)
validate get_node_pools wait (suc retries) w =
    let again = validate get_node_pools wait retries (if retries == 0 then w else wait w) in
    elim (get_node_pools w) [ err e ↦ again | ok [] ↦ again | ok (np ∷ nps) ↦ (none, w) ]
