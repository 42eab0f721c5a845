-- ===== src/Turndown/Manager/Cycle.antt =====
-- Scaling down and up again, with a provider that resizes pools as the ones of AWS and EKS do.
use cluster_turndown.Prelude.{
  String, ◌≡◌, refl, sym, ap, ◌∙◌, subst, ◌⊎◌, inl, inr, Bool, false, Option, none, some, List, [],
  ◌∷◌, arith, str_eq, if◌then◌else◌, Option-cases, All, pos, Error, Result, ok,
}
use cluster_turndown.Kube.{Node, Client}
use cluster_turndown.Patcher.Loop.{for_each}
use cluster_turndown.Patcher.Keeps.{for_each-Keeps}
use cluster_turndown.Flattener.{Flattener, flatten, suspend_jobs}
use cluster_turndown.Flattener.Keeps.{
  AllKeep, flatten-Keeps, expand-Keeps, suspend_jobs-Keeps, resume_jobs-Keeps,
}
use cluster_turndown.Pools.{NodePool, PoolResizer}
use cluster_turndown.Pools.Resize.{set_node_pool_sizes, reset_node_pool_sizes}
use cluster_turndown.Pools.Resize.Laws.{Sizes, IsLawful}
use cluster_turndown.Pools.Resize.Sizes.{SetTo}
use cluster_turndown.Pools.Resize.Restore.{IsLoaded, reset_node_pool_sizes-set_node_pool_sizes}
use cluster_turndown.Turndown.Manager.{
  Provider, KubernetesTurndownManager, scale_down_cluster, restart, scale_up_cluster, with_pools,
  reset_sizes, is_scaled_down, expand_or_resume, has_auto_scaling, target_pools, resize_down,
  current_pool_id, is_drained, pools_by_name,
}

-- The pools that have not a name and do not scale by themselves.
pub elsewhere : String → List NodePool → List NodePool
elsewhere host [] = []
elsewhere host (np ∷ nps) =
    if np.auto_scaling
    then elsewhere host nps
    else (if str_eq np.name host then elsewhere host nps else np ∷ elsewhere host nps)

-- The provider that `AWSProvider` and `EKSProvider` are.
abbrev pub resizing_provider :
    {W : Type 0}
    → PoolResizer W
    → (W → Result (List NodePool))
    → (Node → String)
    → (String → W → W)
    → Provider W
resizing_provider c get_node_pools get_pool_id drain = record {
  get_node_pools = get_node_pools;
  get_pool_id = get_pool_id;
  set_node_pool_sizes = set_node_pool_sizes c;
  reset_node_pool_sizes = reset_node_pool_sizes c;
  drain = drain;
}

module _ {W : Type 0} (client : Client W Node) (f : Flattener W) (c : PoolResizer W)
    (get_node_pools : W → Result (List NodePool)) (get_pool_id : Node → String)
    (drain : String → W → W) where
  abbrev provider : Provider W
  provider = resizing_provider c get_node_pools get_pool_id drain

  abbrev down : KubernetesTurndownManager W → Option Error × KubernetesTurndownManager W
  down = scale_down_cluster client provider f

  abbrev up : KubernetesTurndownManager W → Option (Option Error × KubernetesTurndownManager W)
  up = scale_up_cluster client provider f

  -- Those that do not scale by themselves and are not the pool of the current node.
  abbrev pub stoppable : List Node → List NodePool → KubernetesTurndownManager W → List NodePool
  stoppable nodes nps m = elsewhere (current_pool_id client provider f m.current_node nodes "") nps

  -- The pools that are resized.
  abbrev pub targets : List Node → List NodePool → KubernetesTurndownManager W → List NodePool
  targets nodes nps m =
      target_pools client provider f (current_pool_id client provider f m.current_node nodes "") nps

  target_pools-elsewhere :
      (host : String) (nps : List NodePool)
      → target_pools client provider f host nps ≡ elsewhere host nps
  unfolding target_pools elsewhere
  target_pools-elsewhere host [] = refl
  target_pools-elsewhere host (np ∷ nps) = ground (arith, target_pools-elsewhere host nps)

  module _ (size_of : W → Sizes) (law : IsLawful c size_of)
      (stays : (name : String) → AllKeep (λ w. size_of w name) f)
      (drained : (n name : String) (w : W) → size_of (drain n w) name ≡ size_of w name) where
    drains-Keeps :
        (b : Node → Bool) (nodes : List Node) (w : W) (name : String)
        → size_of (for_each (λ n w. if b n then drain n.name w else w) nodes w) name
          ≡ size_of w name
    drains-Keeps b nodes w name = for_each-Keeps (λ v. size_of v name) _ each nodes w
      where
        each :
            (n : Node) (w : W) → size_of (if b n then drain n.name w else w) name ≡ size_of w name
        each n w = ground (arith, drained n.name name w)

    expand_or_resume-Keeps :
        (m : KubernetesTurndownManager W) (w : W) (name : String)
        → size_of (expand_or_resume client provider f m w).1 name ≡ size_of w name
    unfolding expand_or_resume
    expand_or_resume-Keeps m w name = ground (
      arith,
      expand-Keeps (λ v. size_of v name) f (stays name) w,
      resume_jobs-Keeps (λ v. size_of v name) f (stays name) w,
    )

    restart-Keeps :
        (m : KubernetesTurndownManager W) (name : String)
        → size_of (restart client provider f m).1.world name ≡ size_of m.world name
    unfolding restart
    restart-Keeps m name = elim (Option-cases ((expand_or_resume client provider f m m.world).0)) [
      | inl fine ↦ rw (fine, restart) (expand_or_resume-Keeps m m.world name)
      | inr (e, failed) ↦ rw (failed, restart) (expand_or_resume-Keeps m m.world name)
    ]

    started-Keeps :
        (nps : List NodePool) (w : W) (name : String)
        → size_of (if has_auto_scaling nps then flatten f w else suspend_jobs f w).1 name
          ≡ size_of w name
    started-Keeps nps w name = ground (
      arith,
      flatten-Keeps (λ v. size_of v name) f (stays name) w,
      suspend_jobs-Keeps (λ v. size_of v name) f (stays name) w,
    )

    IsLoaded-same :
        (w v : W)
        → ((name : String) → size_of v name ≡ size_of w name)
        → (np : NodePool) → IsLoaded (size_of w) np
        → IsLoaded (size_of v) np
    IsLoaded-same w v same np loaded = record {
      at = same np.name ∙ loaded.at;
      min = loaded.min;
      max = loaded.max;
      count = loaded.count;
      counted = loaded.counted;
      untagged = loaded.untagged;
    }

    -- Of a list, those that are kept.
    targets-IsLoaded :
        (w v : W)
        → ((name : String) → size_of v name ≡ size_of w name)
        → (id : String) (nps : List NodePool) → All (IsLoaded (size_of w)) nps
        → All (IsLoaded (size_of v)) (target_pools client provider f id nps)
    unfolding target_pools
    targets-IsLoaded w v same id [] a = tt
    targets-IsLoaded w v same id (np ∷ nps) a =
        ground (arith, IsLoaded-same w v same np a.0, targets-IsLoaded w v same id nps a.1)

    module _ (nodes : List Node) (nps : List NodePool) (m : KubernetesTurndownManager W)
        (loaded : All (IsLoaded (size_of m.world)) nps) where
      SetTo-same :
          (w v : W) (g : Sizes)
          → ((name : String) → size_of v name ≡ size_of w name)
          → SetTo (pos 0) (targets nodes nps m) (size_of v) g
          → SetTo (pos 0) (targets nodes nps m) (size_of w) g
      unfolding SetTo
      SetTo-same w v g same set name = elim (set name) [
        | inl here ↦ inl here
        | inr (at, absent) ↦ inr (at ∙ same name, absent)
      ]

      resize_down-sizes :
          (w : W)
          → ((name : String) → size_of w name ≡ size_of m.world name)
          → let (failed, m₁) = resize_down client provider f nodes nps (record m { world = w }) in
            (failed ≡ none)
            × SetTo (pos 0) (targets nodes nps m) (size_of m.world) (size_of m₁.world)
            × ((w₂ : W) × (reset_node_pool_sizes c m₁.node_pools m₁.world
                  ≡ some (none, (targets nodes nps m), w₂))
                × ((name : String) → size_of w₂ name ≡ size_of m.world name))
      unfolding resize_down
      resize_down-sizes w kept =
          let v =
            for_each
              (λ n w.
                if is_drained client provider f m.current_node (pools_by_name nps []) n
                then drain n.name w
                else w)
              nodes w in
          let same : (name : String) → size_of v name ≡ size_of m.world name = λ name.
            drains-Keeps (is_drained client provider f m.current_node (pools_by_name nps [])) nodes
              w name
            ∙ kept name in
          let (fine, set, (w₂, done, back)) =
            reset_node_pool_sizes-set_node_pool_sizes c size_of law (pos 0) (targets nodes nps m) v
              (targets-IsLoaded m.world v same _ nps loaded) in
          (fine, SetTo-same m.world v _ same set, (w₂, done, λ name. back name ∙ same name))

    down-resize_down :
        (m : KubernetesTurndownManager W) (nodes : List Node) (nps : List NodePool)
        → client.list m.world ≡ ok nodes
        → get_node_pools m.world ≡ ok nps
        → (if has_auto_scaling nps then flatten f m.world else suspend_jobs f m.world).0 ≡ none
        → let w = (if has_auto_scaling nps then flatten f m.world else suspend_jobs f m.world).1 in
          down m ≡ resize_down client provider f nodes nps (record m { world = w })
    unfolding scale_down_cluster
    down-resize_down m nodes nps listed found prepared =
        simp (scale_down_cluster, listed, found, prepared)

    up-restart :
        (m : KubernetesTurndownManager W)
        → is_scaled_down client provider f m ≡ false
        → (nps : List NodePool) (w : W)
        → reset_node_pool_sizes c m.node_pools m.world ≡ some (none, nps, w)
        → up m ≡ some (restart client provider f (record m { node_pools = nps; world = w }))
    unfolding scale_up_cluster is_scaled_down with_pools reset_sizes
    up-restart m kept nps w done = simp (scale_up_cluster, with_pools, kept, reset_sizes, done)

    restart-forgets :
        (m : KubernetesTurndownManager W)
        → let (failed, m') = restart client provider f m in
          ((e : Error) × (failed ≡ some e))
          ⊎ ((failed ≡ none) × (m'.node_pools ≡ []) × (m'.auto_scaling ≡ none))
    unfolding restart
    restart-forgets m = elim (Option-cases ((expand_or_resume client provider f m m.world).0)) [
      | inl well ↦ inr (rw (well, restart) (refl, refl, refl))
      | inr (e, failed) ↦ inl (e, rw (failed, restart) refl)
    ]

    -- Over a lawful provider that resizes as those of AWS and EKS do, where neither the patches of the
    -- flattener nor drains change the sizes of pools: if `ScaleDownCluster` finds the nodes and the
    -- pools, which are as they were loaded, flattens or suspends without an error and keeps a pool,
    -- then it returns no error, each pool that does not scale by itself and does not hold the current
    -- node has no nodes, and every other what it had; and `ScaleUpCluster` after it does not panic,
    -- gives every pool of the cluster its number of nodes back, even if it fails later, and forgets the
    -- pools if it does not fail.
    pub scale_up_cluster-scale_down_cluster :
        (m : KubernetesTurndownManager W) (nodes : List Node) (nps : List NodePool)
        → client.list m.world ≡ ok nodes
        → get_node_pools m.world ≡ ok nps
        → (if has_auto_scaling nps then flatten f m.world else suspend_jobs f m.world).0 ≡ none
        → All (IsLoaded (size_of m.world)) nps
        → is_scaled_down client provider f (down m).1 ≡ false
        → ((down m).0 ≡ none)
          × SetTo (pos 0) (stoppable nodes nps m) (size_of m.world) (size_of (down m).1.world)
          × ((r : Option Error × KubernetesTurndownManager W) × (up (down m).1 ≡ some r)
              × ((name : String) → size_of r.1.world name ≡ size_of m.world name)
              × (((e : Error) × (r.0 ≡ some e))
                  ⊎ ((r.0 ≡ none) × (r.1.node_pools ≡ []) × (r.1.auto_scaling ≡ none))))
    scale_up_cluster-scale_down_cluster m nodes nps listed found prepared loaded kept =
        let w = (if has_auto_scaling nps then flatten f m.world else suspend_jobs f m.world).1 in
        let m₁ = (resize_down client provider f nodes nps (record m { world = w })).1 in
        let (fine, set, (w₂, done, back)) =
          resize_down-sizes nodes nps m loaded w (started-Keeps nps m.world) in
        let same = down-resize_down m nodes nps listed found prepared in
        let m₂ = record m₁ { node_pools = targets nodes nps m; world = w₂ } in
        let stopped =
          subst (λ ts. SetTo (pos 0) ts (size_of m.world) (size_of m₁.world))
            (target_pools-elsewhere _ nps) set in
        rw (same) (
          fine,
          stopped,
          (
            restart client provider f m₂,
            up-restart m₁ (ap (λ r. is_scaled_down client provider f r.1) (sym same) ∙ kept) _ w₂
                done,
            λ name. restart-Keeps m₂ name ∙ back name,
            restart-forgets m₂,
          ),
        )
