-- ===== src/Pools/Eks/Calls/Together.antt =====
-- The node groups that are resized together, each in a goroutine of its own.
use cluster_turndown.Prelude.{
  ℕ, String, ◌≡◌, refl, ◌∙◌, subst, inl, inr, false, none, some, List, [], ◌∷◌, map, str_eq, ◌==◌,
  Bool-cases, length, All, ℤ, pos,
}
use cluster_turndown.Tasks.Goroutines.{ended, select_wait}
use cluster_turndown.Tasks.Goroutines.Ends.{Ends, ended-Ends, All-Ends}
use cluster_turndown.Pools.{NodePool}
use cluster_turndown.Pools.Resize.Laws.{Sizes, resized}
use cluster_turndown.Pools.Resize.Sizes.{SetTo, SetTo-step, SetTo-same, Among-done, Among-all_done}
use cluster_turndown.Pools.Aws.{AutoScalingGroup}
use cluster_turndown.Pools.Eks.{EksNodePool, EksClient}
use cluster_turndown.Pools.Eks.Calls.{each_size, update_eks_node_pool_sizes}
use cluster_turndown.Pools.Eks.Calls.Sizes.{IsFronting, update_eks_node_pool_size-resized}

-- A pool by its name, which is all that its place among the sizes depends on.
abbrev pub by_name : EksNodePool → NodePool
by_name np = record {
  name = np.ng.name;
  min_nodes = pos 0;
  max_nodes = pos 0;
  node_count = pos 0;
  auto_scaling = false;
  tags = np.tags;
}

module _ {W : Type 0} (c : EksClient W) (cluster : String) (size_of : W → Sizes)
    (asg_of : String → String) (law : IsFronting c cluster size_of asg_of) where
  -- A node group of the cluster that exists, loaded with the group behind it.
  abbrev pub IsReady : W → EksNodePool → Type 0
  IsReady w np =
      (g : AutoScalingGroup) × (m : ℤ) × (np.asg ≡ some g)
      × (g.name ≡ asg_of np.ng.name)
      × (np.ng.cluster_name ≡ cluster)
      × (size_of w np.ng.name ≡ some m)

  still-IsReady :
      (np : EksNodePool) (n : ℤ) (w w' : W)
      → ((asked : String) → size_of w' asked ≡ resized np.ng.name n (size_of w) asked)
      → (ps : List EksNodePool) → All (IsReady w) ps
      → All (IsReady w') ps
  still-IsReady np n w w' same [] a = tt
  still-IsReady np n w w' same (p ∷ ps) ((g, m, behind, fronted, inside, at), a) = (
    elim (Bool-cases (str_eq np.ng.name p.ng.name)) [
      | inl h ↦ (g, n, behind, fronted, inside, same p.ng.name ∙ simp h)
      | inr h ↦ (g, m, behind, fronted, inside, same p.ng.name ∙ simp (h, at))
    ],
    still-IsReady np n w w' same ps a,
  )

  each_size-SetTo :
      (n : ℕ) (ps : List EksNodePool) (w : W)
      → All (IsReady w) ps
      → (w' : W) × (each_size c ps (pos n) w ≡ some w')
        × SetTo (pos n) (map by_name ps) (size_of w) (size_of w')
  unfolding each_size SetTo
  each_size-SetTo n [] w a = (w, refl, λ name. inr (refl, λ never. never))
  each_size-SetTo n (np ∷ ps) w ((g, m, behind, fronted, inside, at), a) =
      let (w₁, done, same) =
        update_eks_node_pool_size-resized c cluster size_of asg_of law np g m n w behind fronted
          inside at in
      let (w', later, set) = each_size-SetTo n ps w₁ (still-IsReady np (pos n) w w₁ same ps a) in
      (
        w',
        rw (each_size, done) later,
        SetTo-step (pos n) (by_name np) (map by_name ps) (size_of w) (size_of w₁) (size_of w') same
            set,
      )

  -- Over clients that resize the node groups of a cluster as documented, for pools of that cluster that exist and
  -- were loaded with the groups behind them: when the goroutines of all of them end in time, in any order, and
  -- `Wait` returns the channel rather than nil, resizing them to a number of nodes of at least 0 neither panics
  -- nor returns an error, gives each of them this number, and changes no other node group.
  pub update_eks_node_pool_sizes-SetTo :
      (nps : List EksNodePool) (finished : List ℕ) (n : ℕ) (w : W)
      → (length nps == 0) ≡ false
      → (ended finished nps).1 ≡ []
      → All (IsReady w) nps
      → (w' : W) × (update_eks_node_pool_sizes c nps false finished (pos n) w ≡ some (none, w'))
        × SetTo (pos n) (map by_name nps) (size_of w) (size_of w')
  unfolding update_eks_node_pool_sizes select_wait
  update_eks_node_pool_sizes-SetTo nps finished n w some_pools none_left a =
      let done = (ended finished nps).0 in
      let e = ended-Ends finished nps in
      let e' : Ends [] nps done = subst (λ left. Ends left nps done) none_left e in
      let (w', made, set) = each_size-SetTo n done w (All-Ends (IsReady w) e a) in
      (
        w',
        simp (some_pools, made, none_left) refl,
        SetTo-same (pos n) (map by_name done) (map by_name nps) _ _
            (λ name. Among-done by_name name e) (λ name. Among-all_done by_name name e') set,
      )
