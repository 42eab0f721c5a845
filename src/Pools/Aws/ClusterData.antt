-- ===== src/Pools/Aws/ClusterData.antt =====
-- pkg/cluster/provider/awsclusterprovider.go: AWSClusterData, what the provider keeps of the cluster, with the
-- template of the user data. Its lock is not modelled. The encoding in base 64 is a parameter, and an error
-- of the decoding leaves the data as it is. Space is that of ASCII.
pub mod Template
pub mod Filled
use Prim.Native.Char.{code}
use Prim.Native.String.{◌++◌ as str_append}
use cluster_turndown.Prelude.{
  String, Option, none, some, List, [], ◌∷◌, ◌++◌, str_eq, ◌==◌, if◌then◌else◌, Entries, lookup,
}
use cluster_turndown.Strconv.{split, put_first}
use cluster_turndown.Strconv.Find.{has_prefix}
use cluster_turndown.Pools.Gke.Metadata.{trim_space, split_colon}
use cluster_turndown.Pools.Aws.{LaunchConfiguration, drop_bytes, first_two}

-- Portions of the script of the user data: before, between and after the two lines with the group.
pub record NodeUpScript : Type 0 where
  pub first : String
  pub second : String
  pub end : String

pub record AwsImageData : Type 0 where
  pub image_id : String
  pub image_location : String

pub record AwsClusterData : Type 0 where
  pub launch_configs : Entries LaunchConfiguration
  pub security_groups : List String
  pub vpc_subnets : List String
  pub user_data : NodeUpScript
  pub image_data : AwsImageData
  pub cluster_bucket : String
  pub cluster_name : String
  pub iam_instance_profile : String
  pub key_name : String

unfoldable pub new_aws_cluster_data : AwsClusterData
new_aws_cluster_data = record {
  launch_configs = [];
  security_groups = [];
  vpc_subnets = [];
  user_data = record { first = ""; second = ""; end = "" };
  image_data = record { image_id = ""; image_location = "" };
  cluster_bucket = "";
  cluster_name = "";
  iam_instance_profile = "";
  key_name = "";
}

unfoldable pub launch_config_for : String → AwsClusterData → Option LaunchConfiguration
launch_config_for machine_type p = lookup machine_type p.launch_configs

-- The string of a pointer, which is empty where there is none.
unfoldable pub string_value : Option String → String
string_value none = ""
string_value (some s) = s

unfoldable pub update_image : Option String → Option String → AwsClusterData → AwsClusterData
unfolding string_value
update_image id location p = record p {
  image_data = record { image_id = string_value id; image_location = string_value location };
}

-- The lines that `ReadString('\n')` reads before the end: what follows the last line feed is lost.
unfoldable pub read_lines : String → List String
unfolding put_first
read_lines String.[] = []
read_lines (String.◌∷◌ c s) = onto (read_lines s)
  where
    onto : List String → List String
    onto rest =
        if code c == 10
        then String.◌∷◌ c "" ∷ rest
        else (elim rest [ [] ↦ [] | l ∷ ls ↦ put_first c (l ∷ ls) ])

-- The part that lines are appended to.
pub data Part : Type 0 where
  first_part second_part end_part : Part

-- What was read of a script so far: three lists of lines, the current one, bucket and name.
pub record Reading : Type 0 where
  pub first : List String
  pub second : List String
  pub end : List String
  pub current : Part
  pub cluster_bucket : String
  pub cluster_name : String

-- `*current = append(*current, line)`
unfoldable pub append_line : String → Reading → Reading
append_line line r = elim (r.current) [
  | first_part ↦ record r { first = r.first ++ line ∷ [] }
  | second_part ↦ record r { second = r.second ++ line ∷ [] }
  | end_part ↦ record r { end = r.end ++ line ∷ [] }
]

-- Bucket and name of the cluster, if the line has a value; `none` is a panic.
unfoldable pub config_base : List String → Option (Option (String × String))
unfolding drop_bytes first_two
config_base (k ∷ v ∷ []) = elim (drop_bytes 5 v) [
  | none ↦ none
  | some path ↦ elim (first_two (split path b'/')) [ none ↦ none | some pair ↦ some (some pair) ]
]
config_base _ = some none

-- What the beginning of a line says.
pub data LineKind : Type 0 where
  group_line name_line config_line other_line : LineKind

unfoldable pub line_kind : String → LineKind
unfolding trim_space has_prefix
line_kind line =
    let trimmed = trim_space line in
    if has_prefix trimmed "kops.k8s.io/instancegroup"
    then group_line
    else if has_prefix trimmed "InstanceGroupName"
    then name_line
    else if has_prefix trimmed "ConfigBase"
    then config_line
    else other_line

unfoldable pub read_line : String → Reading → Option Reading
unfolding line_kind config_base split_colon append_line
read_line line r = elim (line_kind line) [
  | group_line ↦ some (record r { current = second_part })
  | name_line ↦ some (record r { current = end_part })
  | config_line ↦ elim (config_base (split_colon (trim_space line))) [
    | none ↦ none
    | some none ↦ some (append_line line r)
    | some (some (bucket, name)) ↦
        some (append_line line (record r { cluster_bucket = bucket; cluster_name = name }))
  ]
  | other_line ↦ some (append_line line r)
]

unfoldable pub read_all : List String → Reading → Option Reading
unfolding read_line
read_all [] r = some r
read_all (l ∷ ls) r = elim (read_line l r) [ none ↦ none | some r' ↦ read_all ls r' ]

-- `strings.Join(parts, "")`
unfoldable pub join : List String → String
join [] = ""
join (s ∷ ss) = str_append s (join ss)

unfoldable pub new_reading : Reading
new_reading = record {
  first = [];
  second = [];
  end = [];
  current = first_part;
  cluster_bucket = "";
  cluster_name = "";
}

-- The data once a script was read.
unfoldable pub keep_reading : Reading → AwsClusterData → AwsClusterData
unfolding join
keep_reading r p = record p {
  user_data = record { first = join r.first; second = join r.second; end = join r.end };
  cluster_bucket = r.cluster_bucket;
  cluster_name = r.cluster_name;
}

-- `StdEncoding` of `encoding/base64`
pub record Base64 : Type 0 where
  pub encode : String → String
  pub decode : String → Option String

-- The two lines with the name of a group.
unfoldable pub instance_group_line : String → String
instance_group_line name = str_append "  kops.k8s.io/instancegroup: " (str_append name "\n")

unfoldable pub group_name_line : String → String
group_name_line name = str_append "InstanceGroupName: " (str_append name "\n")

module _ (b64 : Base64) where
  -- `none` is a panic.
  unfoldable pub update_user_data : String → AwsClusterData → Option AwsClusterData
  unfolding read_all read_lines new_reading keep_reading
  update_user_data encoded p = if str_eq encoded "" then some p else (elim (b64.decode encoded) [
    | none ↦ some p
    | some ud ↦ elim (read_all (read_lines ud) new_reading) [
      | none ↦ none
      | some r ↦ some (keep_reading r p)
    ]
  ])

  unfoldable pub get_user_data : String → AwsClusterData → String
  unfolding join instance_group_line group_name_line
  get_user_data group_name p =
      let s = p.user_data in
      b64.encode (
        join (
          s.first
          ∷ instance_group_line group_name
          ∷ s.second
          ∷ group_name_line group_name
          ∷ s.end
          ∷ []))
