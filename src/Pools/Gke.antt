-- ===== src/Pools/Gke.antt =====
-- pkg/cluster/provider/gkeclusterprovider.go: requests that are repeated while the cluster is busy. The
-- client of the SDK is a parameter. The number of times that the wait between two requests ends before the
-- context is cancelled is an argument.
pub mod Retry
pub mod Calls
pub mod Metadata
pub mod Back
use Prim.Native.String.{◌++◌ as str_append}
use cluster_turndown.Prelude.{
  ℕ, zero, suc, String, Bool, true, false, Option, none, some, List, if◌then◌else◌, ℤ, Entries,
  GoMap, Error, Result, error,
}

-- `codes.Code`, with those that the program names.
pub data Code : Type 0 where
  failed_precondition unavailable deadline_exceeded other_code : Code

-- An error of the SDK, with the code of its status if it has one.
pub record CallError : Type 0 where
  pub error : Error
  pub status : Option Code

-- `isRetriableError`
unfoldable pub is_retriable_error : CallError → Bool
is_retriable_error e = elim (e.status) [
  | none ↦ false
  | some failed_precondition ↦ true
  | some unavailable ↦ true
  | some deadline_exceeded ↦ true
  | some other_code ↦ false
]

pub record GkeNodePool : Type 0 where
  pub project : String
  pub zone : String
  pub cluster_id : String
  pub name : String
  pub min : ℤ
  pub max : ℤ
  pub count : ℤ
  pub auto_scaling : Bool
  pub machine_type : String
  pub tags : Entries String

-- A pool as the SDK describes it, with its bounds if it scales by itself.
pub record PoolDescription : Type 0 where
  pub name : String
  pub initial_node_count : ℤ
  pub auto_scaling : Option (ℤ × ℤ)
  pub machine_type : String
  pub labels : GoMap String

-- What a pool is made with, besides the scopes, metadata and management that every request has.
pub record GkeRequest : Type 0 where
  pub parent : String
  pub name : String
  pub machine_type : String
  pub disk_type : String
  pub disk_size_gb : ℤ
  pub labels : Entries String
  pub initial_node_count : ℤ
  pub auto_scaling : Option (ℤ × ℤ)

pub record GkeClient (W : Type 0) : Type 0 where
  pub get_node_pool : String → W → Result (Option PoolDescription)
  pub list_node_pools : String → W → Result (List PoolDescription)
  pub create_node_pool : GkeRequest → W → Option CallError × W
  pub set_node_pool_size : String → ℤ → W → Option CallError × W
  pub delete_node_pool : String → W → Option CallError × W

unfoldable pub to_node_pool_resource : GkeNodePool → String
to_node_pool_resource np = str_append "projects/" (
    str_append np.project (
      str_append "/locations/" (
        str_append np.zone
          (str_append "/clusters/" (str_append np.cluster_id (str_append "/nodePools/" np.name))))))

module _ {W : Type 0} where
  -- The loop around one request.
  unfoldable pub retry : (W → Option CallError × W) → String → ℕ → W → Option Error × W
  unfolding is_retriable_error
  retry request cancelled zero w =
      let (failed, w') = request w in
      elim failed [
        | none ↦ (none, w')
        | some e ↦ (some (if is_retriable_error e then error cancelled else e.error), w')
      ]
  retry request cancelled (suc n) w =
      let (failed, w') = request w in
      let later = retry request cancelled n w' in
      elim failed [
        | none ↦ (none, w')
        | some e ↦ if is_retriable_error e then later else (some e.error, w')
      ]

  unfoldable pub resize_gke_pool : GkeClient W → ℕ → GkeNodePool → ℤ → W → Option Error × W
  unfolding retry to_node_pool_resource
  resize_gke_pool c waits np size =
      retry (c.set_node_pool_size (to_node_pool_resource np) size) "NodePool Resize Cancelled" waits

  unfoldable pub delete_gke_pool : GkeClient W → ℕ → GkeNodePool → W → Option Error × W
  unfolding retry to_node_pool_resource
  delete_gke_pool c waits np =
      retry (c.delete_node_pool (to_node_pool_resource np)) "NodePool Deletion Cancelled" waits
