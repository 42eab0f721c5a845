-- ===== src/Pools/Aws/Creation/Deleted.antt =====
-- pkg/cluster/provider/awsclusterprovider.go: a pool that is made and then deleted, and its instance group.
use Prim.Native.String.{◌++◌ as str_append}
use cluster_turndown.Prelude.{
  String, ◌≡◌, refl, ap, ◌∙◌, false, ◌&&◌, Option, none, some, List, [], ◌∷◌, arith, str_eq,
  if◌then◌else◌, Entries, lookup, insert, lookup-insert, put,
}
use cluster_turndown.Pools.{PoolRequest}
use cluster_turndown.Pools.Resize.{put_labels}
use cluster_turndown.Pools.Aws.{
  AwsNodePool, AwsClient, LaunchConfiguration, kops_instance_group_tag, kops_cluster_tag,
}
use cluster_turndown.Pools.Aws.ClusterData.{AwsClusterData}
use cluster_turndown.Pools.Aws.Calls.{delete_node_pool}
use cluster_turndown.Pools.Aws.Kops.{get_kops_instance_group_tags}
use cluster_turndown.Pools.Aws.Launch.{AwsMaker, upload_instance_group}
use cluster_turndown.Pools.Aws.Creation.{GroupRequest, group_request, map_to_tags}

-- The labels that are given with a request, and that they leave a key alone.
abbrev pub given : PoolRequest → Entries String
given r = elim (r.labels) [ none ↦ [] | some labels ↦ labels ]

abbrev pub IsFree : String → PoolRequest → Type 0
IsFree key r = lookup key (given r) ≡ none

map_to_tags-same : (m : Entries String) → map_to_tags m ≡ m
unfolding map_to_tags
map_to_tags-same [] = refl
map_to_tags-same ((k, v) ∷ m) = ap (λ rest. (k, v) ∷ rest) (map_to_tags-same m)

lookup-put_labels :
    (key : String) (labels m : Entries String)
    → lookup key labels ≡ none
    → lookup key (put_labels labels m) ≡ lookup key m
unfolding put_labels lookup
lookup-put_labels key [] m h = refl
lookup-put_labels key ((k, v) ∷ labels) m h =
    let other : str_eq k key ≡ false = ground (arith, h) in
    let rest : lookup key labels ≡ none = ground (arith, h) in
    lookup-put_labels key labels (insert k v m) rest ∙ lookup-insert k key v m ∙ rw other refl

module _ (r : PoolRequest) (lc : LaunchConfiguration) (p : AwsClusterData) (g : GroupRequest)
    (requested : group_request r lc p ≡ some g) where
  tags-given :
      (subnets : List String)
      → p.vpc_subnets ≡ subnets
      → g.tags
        ≡ map_to_tags (put_labels (given r) (get_kops_instance_group_tags p.cluster_name r.name))
  unfolding group_request
  tags-given [] e = ground (arith, requested, e)
  tags-given (subnet ∷ subnets) e = ground (arith, requested, e)

  tags-lookup :
      (key : String)
      → IsFree key r
      → lookup key g.tags ≡ lookup key (get_kops_instance_group_tags p.cluster_name r.name)
  tags-lookup key free =
      let base = get_kops_instance_group_tags p.cluster_name r.name in
      ap (lookup key) (tags-given p.vpc_subnets refl ∙ map_to_tags-same (put_labels (given r) base))
      ∙ lookup-put_labels key (given r) base free

-- The key under which the instance group is put.
abbrev object_key : String → String → String
object_key cluster group = str_append "/" (str_append cluster (str_append "/instancegroup/" group))

-- The contents of the buckets by bucket and key, and one object that is written or, as none, deleted.
abbrev pub Objects : Type 0
Objects = String → String → Option String

abbrev pub written : String → String → Option String → Objects → Objects
written bucket key body f b k = if str_eq bucket b && str_eq key k then body else f b k

-- What the documentation of S3 says of an object that is put in one bucket, which exists, and of one that is
-- deleted, there or not; and that requests for groups and launch configurations, granted or not, have nothing to
-- do with objects.
pub record IsStoring {W : Type 0} (m : AwsMaker W) (c : AwsClient W) (bucket : String)
    (objects : W → Objects) : Type 0 where
  pub puts :
      (key body : String) (w : W)
      → ((m.put_object bucket key body w).0 ≡ none)
        × ((b k : String)
            → objects (m.put_object bucket key body w).1 b k
              ≡ written bucket key (some body) (objects w) b k)
  pub deletes :
      (key : String) (w : W)
      → ((c.delete_object bucket key w).0 ≡ none)
        × ((b k : String)
            → objects (c.delete_object bucket key w).1 b k
              ≡ written bucket key none (objects w) b k)
  pub groups :
      (name : String) (w : W) (b k : String)
      → objects (c.delete_auto_scaling_group name w).1 b k ≡ objects w b k
  pub configurations :
      (name : String) (w : W) (b k : String)
      → objects (c.delete_launch_configuration name w).1 b k ≡ objects w b k

-- The group of a pool, and then its launch configuration, can be deleted.
abbrev pub IsDeletable : {W : Type 0} → AwsClient W → AwsNodePool → LaunchConfiguration → W → Type 0
IsDeletable c np lc u =
    ((c.delete_auto_scaling_group np.asg.name u).0 ≡ none)
    × ((c.delete_launch_configuration lc.name (c.delete_auto_scaling_group np.asg.name u).1).0
        ≡ none)

module _ {W : Type 0} (m : AwsMaker W) (c : AwsClient W) (objects : W → Objects)
    (p : AwsClusterData) (law : IsStoring m c p.cluster_bucket objects) where
  deleted :
      (np : AwsNodePool) (lc : LaunchConfiguration) (group : String) (u : W)
      → lookup kops_instance_group_tag np.tags ≡ some group
      → lookup kops_cluster_tag np.tags ≡ some p.cluster_name
      → np.lc ≡ some lc
      → str_eq p.cluster_name "" ≡ false
      → str_eq p.cluster_bucket "" ≡ false
      → IsDeletable c np lc u
      → (u' : W) × (delete_node_pool c p np u ≡ (none, u'))
        × ((b k : String)
            → objects u' b k
              ≡ written p.cluster_bucket (object_key p.cluster_name group) none (objects u) b k)
  unfolding delete_node_pool
  deleted np lc group u grouped clustered behind named stored (group_gone, configuration_gone) =
      let u₁ = (c.delete_auto_scaling_group np.asg.name u).1 in
      let u₂ = (c.delete_launch_configuration lc.name u₁).1 in
      let key = object_key p.cluster_name group in
      let u₃ = (c.delete_object p.cluster_bucket key u₂).1 in
      let (gone, others) = law.deletes key u₂ in
      let same : (b k : String) → objects u₂ b k ≡ objects u b k =
        λ b k. law.configurations lc.name u₁ b k ∙ law.groups np.asg.name u b k in
      (
        u₃,
        simp
            (
              delete_node_pool, grouped, clustered, named, stored, behind, group_gone,
              configuration_gone,
            )
            (ap (λ failed. (failed, u₃)) gone),
        λ b k.
            others b k
            ∙ ap (λ rest. if str_eq p.cluster_bucket b && str_eq key k then none else rest)
                (same b k),
      )

  -- Of a pool whose group has the tags that the group of a request is made with, where the labels of the request
  -- leave the two tags of kops alone, where the bucket is served and the group and the launch configuration can
  -- be deleted: the deletion returns no error and takes away the object that an upload for the pool puts into
  -- the bucket, whatever happened to objects in between, and no other object.
  pub delete_node_pool-upload_instance_group :
      (r : PoolRequest) (lc : LaunchConfiguration) (g : GroupRequest) (np : AwsNodePool)
      (yaml : String) (w u : W)
      → group_request r lc p ≡ some g
      → IsFree kops_instance_group_tag r
      → IsFree kops_cluster_tag r
      → np.tags ≡ g.tags
      → np.lc ≡ some lc
      → str_eq p.cluster_name "" ≡ false
      → str_eq p.cluster_bucket "" ≡ false
      → IsDeletable c np lc u
      → let (failed, w₁) = upload_instance_group m yaml p.cluster_bucket p.cluster_name r.name w in
        (key : String) × (failed ≡ none)
        × ((b k : String)
            → objects w₁ b k ≡ written p.cluster_bucket key (some yaml) (objects w) b k)
        × ((u' : W) × (delete_node_pool c p np u ≡ (none, u'))
            × ((b k : String) → objects u' b k ≡ written p.cluster_bucket key none (objects u) b k))
  unfolding upload_instance_group get_kops_instance_group_tags lookup
  delete_node_pool-upload_instance_group r lc g np yaml w u requested free free' tags behind named
        stored granted =
      let key = object_key p.cluster_name r.name in
      let (put, there) = law.puts key yaml w in
      (
        key,
        put,
        there,
        deleted np lc r.name u
            (ap (lookup kops_instance_group_tag) tags
              ∙ tags-lookup r lc p g requested kops_instance_group_tag free)
            (ap (lookup kops_cluster_tag) tags
              ∙ tags-lookup r lc p g requested kops_cluster_tag free')
            behind named stored granted,
      )
