-- ===== src/Pools/Eks/Calls/Sizes.antt =====
-- The sizes of node groups, which are resized by two services.
use cluster_turndown.Prelude.{ℕ, zero, suc, String, ◌≡◌, ap, none, some, ℤ, pos}
use cluster_turndown.Pools.Resize.Laws.{Sizes, resized}
use cluster_turndown.Pools.Aws.{GroupUpdate, AutoScalingGroup}
use cluster_turndown.Pools.Eks.{EksNodePool, EksClient, is_zero, scaling}
use cluster_turndown.Pools.Eks.Calls.{update_eks_node_pool_size}

-- What the documentation of AWS says of the node groups of one cluster: the auto scaling group behind one that
-- exists can be given a size of at least 0, and the node group in front of it follows; by the name of the
-- cluster, a node group that exists can be given a size of at least one. `asg_of` is the group behind a node
-- group.
pub record IsFronting {W : Type 0} (c : EksClient W) (cluster : String) (size_of : W → Sizes)
    (asg_of : String → String) : Type 0 where
  pub scales :
      (name : String) (m : ℤ) (n : ℕ) (w : W)
      → size_of w name ≡ some m
      → let r : GroupUpdate = record {
        name = asg_of name;
        min_size = pos n;
        max_size = pos n;
        desired_capacity = pos n;
      } in
        ((c.update_auto_scaling_group r w).0 ≡ none)
        × ((asked : String)
            → size_of (c.update_auto_scaling_group r w).1 asked
              ≡ resized name (pos n) (size_of w) asked)
  pub configures :
      (name : String) (m : ℤ) (n : ℕ) (w : W)
      → size_of w name ≡ some m
      → let r = scaling cluster name (pos (suc n)) in
        ((c.update_nodegroup_config r w).0 ≡ none)
        × ((asked : String)
            → size_of (c.update_nodegroup_config r w).1 asked
              ≡ resized name (pos (suc n)) (size_of w) asked)

module _ {W : Type 0} (c : EksClient W) (cluster : String) (size_of : W → Sizes)
    (asg_of : String → String) (law : IsFronting c cluster size_of asg_of) where
  -- Over clients that resize the node groups of a cluster as documented, one that exists in that cluster, loaded
  -- with the auto scaling group behind it, is resized to any number of nodes of at least 0 without a panic, an error or an
  -- effect on other node groups.
  pub update_eks_node_pool_size-resized :
      (np : EksNodePool) (g : AutoScalingGroup) (m : ℤ) (n : ℕ) (w : W)
      → np.asg ≡ some g
      → g.name ≡ asg_of np.ng.name
      → np.ng.cluster_name ≡ cluster
      → size_of w np.ng.name ≡ some m
      → (w' : W) × (update_eks_node_pool_size c np (pos n) w ≡ some (none, w'))
        × ((asked : String) → size_of w' asked ≡ resized np.ng.name (pos n) (size_of w) asked)
  unfolding update_eks_node_pool_size is_zero
  update_eks_node_pool_size-resized np g m zero w behind fronted inside at =
      let (fine, sized) = law.scales np.ng.name m 0 w at in
      let r : GroupUpdate = record {
        name = asg_of np.ng.name;
        min_size = pos 0;
        max_size = pos 0;
        desired_capacity = pos 0;
      } in
      let w' = (c.update_auto_scaling_group r w).1 in
      (
        w',
        simp (update_eks_node_pool_size, behind, fronted) (ap (λ failed. some (failed, w')) fine),
        sized,
      )
  update_eks_node_pool_size-resized np g m (suc n) w behind fronted inside at =
      let (fine, sized) = law.configures np.ng.name m n w at in
      let w' = (c.update_nodegroup_config (scaling cluster np.ng.name (pos (suc n))) w).1 in
      (w', rw (update_eks_node_pool_size, inside) (ap (λ failed. some (failed, w')) fine), sized)
