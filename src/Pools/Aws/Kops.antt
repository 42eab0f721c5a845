-- ===== src/Pools/Aws/Kops.antt =====
-- pkg/cluster/provider/awskops.go: the instance group that kops reads, and the tags of its groups. The
-- encoding as YAML is a parameter.
use Prim.Native.String.{◌++◌ as str_append}
use cluster_turndown.Prelude.{String, List, [], ◌∷◌, ℤ, Entries, Result}
use cluster_turndown.Turndown.Time.{Time}
use cluster_turndown.Pools.Aws.{kops_instance_group_tag, kops_cluster_tag}

pub record KopsInstanceGroupSpec : Type 0 where
  pub image : String
  pub machine_type : String
  pub max_size : ℤ
  pub min_size : ℤ
  pub node_labels : Entries String
  pub role : String
  pub subnets : List String

pub record KopsInstanceGroupMetadata : Type 0 where
  pub creation_timestamp : Time
  pub labels : Entries String
  pub name : String

pub record KopsInstanceGroup : Type 0 where
  pub api_version : String
  pub kind : String
  pub metadata : KopsInstanceGroupMetadata
  pub spec : KopsInstanceGroupSpec

-- A group with the given sizes and subnets, made at a time.
unfoldable pub new_kops_instance_group :
    Time → String → String → String → String → ℤ → ℤ → List String → KopsInstanceGroup
new_kops_instance_group now cluster group image machine_type min max subnets = record {
  api_version = "kops.k8s.io/v1alpha2";
  kind = "InstanceGroup";
  metadata = record {
    creation_timestamp = now;
    labels = ("kops.k8s.io/cluster", cluster) ∷ [];
    name = group;
  };
  spec = record {
    image = image;
    machine_type = machine_type;
    max_size = max;
    min_size = min;
    node_labels = ("kops.k8s.io/instancegroup", group) ∷ [];
    role = "Node";
    subnets = subnets;
  };
}

-- `fmt.Sprintf("%s.%s", group, cluster)`
unfoldable pub qualified : String → String → String
qualified group cluster = str_append group (str_append "." cluster)

abbrev pub kops_cluster_name_tag : String
kops_cluster_name_tag = "Name"

abbrev pub kops_auto_scaler_tag : String
kops_auto_scaler_tag = "k8s.io/cluster-autoscaler/node-template/label/kops.k8s.io/instancegroup"

abbrev pub kops_role_node_tag : String
kops_role_node_tag = "k8s.io/role/node"

unfoldable pub get_kops_instance_group_tags : String → String → Entries String
unfolding qualified
get_kops_instance_group_tags cluster group =
    (kops_cluster_tag, cluster)
    ∷ (kops_cluster_name_tag, qualified group cluster)
    ∷ (kops_auto_scaler_tag, group)
    ∷ (kops_role_node_tag, "1")
    ∷ (kops_instance_group_tag, group)
    ∷ []

unfoldable pub get_kops_instance_group_yaml :
    (KopsInstanceGroup → Result String)
    → Time
    → String
    → String
    → String
    → String
    → ℤ
    → ℤ
    → List String
    → Result String
unfolding new_kops_instance_group
get_kops_instance_group_yaml marshal now cluster group image machine_type min max subnets =
    marshal (new_kops_instance_group now cluster group image machine_type min max subnets)
