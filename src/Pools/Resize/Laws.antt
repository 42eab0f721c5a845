-- ===== src/Pools/Resize/Laws.antt =====
-- What resizing relies on of a provider: pkg/cluster/provider/clusterprovider.go says of the methods that
-- they update the number of nodes of a pool, and create, update and delete its tags.
use cluster_turndown.Prelude.{
  String, ◌≡◌, Option, none, some, [], ◌∷◌, str_eq, if◌then◌else◌, ℤ, Entries, insert, without,
}
use cluster_turndown.Pools.{NodePool, PoolResizer}

abbrev pub with_tags : NodePool → Entries String → NodePool
with_tags np tags = record np { tags = tags }

-- The number of nodes that a world has for each pool of a name.
abbrev pub Sizes : Type 0
Sizes = String → Option ℤ

abbrev pub resized : String → ℤ → Sizes → Sizes
resized name n f asked = if str_eq name asked then some n else f asked

-- A pool that exists is resized and tagged without an error, and without an effect on other pools.
pub record IsLawful {W : Type 0} (c : PoolResizer W) (size_of : W → Sizes) : Type 0 where
  pub resizes :
      (np : NodePool) (m n : ℤ) (w : W)
      → size_of w np.name ≡ some m
      → ((c.update_node_pool_size np n w).0 ≡ none)
        × ((name : String)
            → size_of (c.update_node_pool_size np n w).1 name ≡ resized np.name n (size_of w) name)
  pub tags :
      (np : NodePool) (m : ℤ) (k v : String) (w : W)
      → size_of w np.name ≡ some m
      → ((c.create_or_update_tags np ((k, v) ∷ []) w).0 ≡ none)
        × ((c.create_or_update_tags np ((k, v) ∷ []) w).1 ≡ with_tags np (insert k v np.tags))
        × ((name : String)
            → size_of (c.create_or_update_tags np ((k, v) ∷ []) w).2 name ≡ size_of w name)
  pub untags :
      (np : NodePool) (m : ℤ) (k : String) (w : W)
      → size_of w np.name ≡ some m
      → ((c.delete_tags np (k ∷ []) w).0 ≡ none)
        × ((c.delete_tags np (k ∷ []) w).1 ≡ with_tags np (without k np.tags))
        × ((name : String) → size_of (c.delete_tags np (k ∷ []) w).2 name ≡ size_of w name)
