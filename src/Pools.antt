-- ===== src/Pools.antt =====
-- pkg/cluster/provider/clusterprovider.go: node pools, and the providers that resize and tag them.
pub mod Range
pub mod Resize
pub mod Aws
pub mod Gke
pub mod Eks
pub mod Choice
pub mod Waits
use cluster_turndown.Prelude.{String, Bool, Option, List, ℤ, Entries, GoMap, Error}

-- The interface `NodePool`. The numbers of nodes are those of the time at which the pool was loaded; the
-- tags are a map that is shared and changed.
pub record NodePool : Type 0 where
  pub name : String
  pub min_nodes : ℤ
  pub max_nodes : ℤ
  pub node_count : ℤ
  pub auto_scaling : Bool
  pub tags : Entries String

-- What a pool is made with: name, machine type, number of nodes, disk type and size, and labels.
pub record PoolRequest : Type 0 where
  pub name : String
  pub machine_type : String
  pub node_count : ℤ
  pub disk_type : String
  pub disk_size_gb : ℤ
  pub labels : GoMap String

-- The methods of the interface `ClusterProvider` through which pools are resized, in a world `W`. A method
-- that changes the tags of a pool returns the pool; `updateNodes` is false in every call.
pub record PoolResizer (W : Type 0) : Type 0 where
  pub update_node_pool_size : NodePool → ℤ → W → Option Error × W
  pub create_or_update_tags : NodePool → Entries String → W → Option Error × NodePool × W
  pub delete_tags : NodePool → List String → W → Option Error × NodePool × W

-- Those through which the pool of the program's own node is found and made.
pub record PoolMaker (W : Type 0) : Type 0 where
  pub is_node_pool : String → W → Bool
  pub create_node_pool : PoolRequest → W → Option Error × W
