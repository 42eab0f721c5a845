-- ===== src/Pools/Waits.antt =====
-- pkg/cluster/helper/helper.go: the waits for nodes of a pool. The poll of the library is a parameter.
use Prim.Native.String.{◌++◌ as str_append}
use cluster_turndown.Prelude.{
  String, Bool, false, not, ◌||◌, Option, none, some, List, [], ◌∷◌, length, ℤ, pos, ltb_ℤ, Error,
  Result, ok, err,
}
use cluster_turndown.Strconv.Find.{contains}
use cluster_turndown.Kube.{Node}

-- What is read of the cluster, and the wait of the library.
pub record NodeClient (W : Type 0) : Type 0 where
  pub list_nodes : W → Result (List Node)
  pub list_by : String → W → Result (List Node)
  pub poll_immediate : (W → Bool × Option Error) → W → Option Error × W

module _ {W : Type 0} (k : NodeClient W) where
  unfoldable pub wait_until_nodes_created : String → String → ℤ → W → Option Error × W
  wait_until_nodes_created key value count = k.poll_immediate created
    where
      created : W → Bool × Option Error
      created w = elim (k.list_by (str_append key (str_append "=" value)) w) [
        | err e ↦ (false, some e)
        | ok nodes ↦ (not (ltb_ℤ (pos (length nodes)) count), none)
      ]

  -- A node whose name has that of the pool in it.
  unfoldable pub wait_until_node_created : String → String → String → W → Option Error × W
  unfolding contains
  wait_until_node_created key value pool = k.poll_immediate created
    where
      has_named : List Node → Bool
      has_named [] = false
      has_named (n ∷ ns) = contains n.name pool || has_named ns

      created : W → Bool × Option Error
      created w = elim (k.list_by (str_append key (str_append "=" value)) w) [
        | err e ↦ (false, some e)
        | ok nodes ↦ (has_named nodes, none)
      ]
