-- ===== src/Pools/Aws/Discovery.antt =====
-- pkg/cluster/provider/awsclusterprovider.go: the pools of a cluster, which are the auto scaling groups of its
-- nodes, and what is kept of their launch configurations; the region and the key of access. The clients of
-- the SDK, the file and its decoding are parameters.
pub mod Known
use Prim.Native.String.{◌++◌ as str_append}
use cluster_turndown.Prelude.{
  zero, suc, ◌+◌, String, Bool, not, ◌||◌, Option, none, some, List, [], ◌∷◌, map, str_eq,
  if◌then◌else◌, Entries, lookup, insert, error, Result, ok, err,
}
use cluster_turndown.Strconv.{split}
use cluster_turndown.Strconv.Find.{contains, text_length, take_bytes}
use cluster_turndown.Kube.{Node}
use cluster_turndown.Turndown.Time.{is_before}
use cluster_turndown.Pools.Aws.{
  AutoScalingGroup, LaunchConfiguration, AwsNodePool, AwsClient, append_if_not_exists, drop_bytes,
  instances_of, groups_with, pools_of,
}
use cluster_turndown.Pools.Aws.ClusterData.{AwsClusterData, Base64, update_image, update_user_data}

-- What is described besides the groups: launch configurations by name, and the locations of an image.
pub record AwsImages (W : Type 0) : Type 0 where
  pub base64 : Base64
  pub describe_launch_configurations : List String → W → Result (List LaunchConfiguration)
  pub describe_images : Option String → W → Result (List String)

-- A location of which the first part is not that of kops; `none` is a panic.
unfoldable pub kope_location : String → Option String
unfolding contains text_length drop_bytes
kope_location location =
    if contains location "/"
    then (elim (split location b'/') [
      | [] ↦ none
      | owner ∷ parts ↦ elim (drop_bytes (text_length owner + 1) location) [
        | none ↦ none
        | some loc ↦ some (str_append "kope.io/" loc)
      ]
    ])
    else some location

-- What is gathered from launch configurations, the first of which that is not of a master is the template.
pub record Gathered : Type 0 where
  pub by_name : Entries LaunchConfiguration
  pub by_machine_type : Entries LaunchConfiguration
  pub template : Option LaunchConfiguration
  pub security_groups : List String

unfoldable pub new_gathered : Gathered
new_gathered = record { by_name = []; by_machine_type = []; template = none; security_groups = [] }

unfoldable pub add_unique : List String → List String → List String
unfolding append_if_not_exists
add_unique [] groups = groups
add_unique (g ∷ gs) groups = add_unique gs (append_if_not_exists groups g).0

-- A configuration takes the place of an older one of its machine type.
unfoldable pub put_newer :
    LaunchConfiguration → Entries LaunchConfiguration → Entries LaunchConfiguration
put_newer lc m = elim (lookup lc.instance_type m) [
  | none ↦ m
  | some existing ↦
      if is_before existing.created_time lc.created_time then insert lc.instance_type lc m else m
]

unfoldable pub gather : LaunchConfiguration → Gathered → Gathered
unfolding contains put_newer add_unique
gather lc a =
    let by_name = insert lc.name lc a.by_name in
    if contains lc.name "master" then record a { by_name = by_name } else record {
      by_name = by_name;
      by_machine_type = put_newer lc a.by_machine_type;
      template = elim (a.template) [ none ↦ some lc | some t ↦ some t ];
      security_groups = add_unique lc.security_groups a.security_groups;
    }

unfoldable pub gather_all : List LaunchConfiguration → Gathered → Gathered
unfolding gather
gather_all [] a = a
gather_all (lc ∷ lcs) a = gather_all lcs (gather lc a)

unfoldable pub subnets_of : List AutoScalingGroup → List String → List String
unfolding append_if_not_exists
subnets_of [] subnets = subnets
subnets_of (g ∷ gs) subnets = subnets_of gs (append_if_not_exists subnets g.vpc_zone_identifier).0

-- A field of the template, if there is one.
unfoldable pub field : (LaunchConfiguration → String) → Option LaunchConfiguration → String
field f none = ""
field f (some lc) = f lc

unfoldable pub image_of : Option LaunchConfiguration → Option String
image_of none = none
image_of (some lc) = lc.image_id

-- The data of a cluster with what was gathered, and the location of the image.
unfoldable pub keep_template : Gathered → Option String → AwsClusterData → AwsClusterData
unfolding update_image field image_of
keep_template a location p =
    record (update_image (image_of a.template) location (record p {
      launch_configs = a.by_machine_type;
      security_groups = a.security_groups;
      iam_instance_profile = field (λ lc. lc.iam_instance_profile) a.template;
    })) { key_name = field (λ lc. lc.key_name) a.template }

module _ {W : Type 0} (c : AwsClient W) (d : AwsImages W) where
  -- `none` is a panic: an answer without an image has no error whose text could be logged.
  unfoldable pub image_location_for : Option String → W → Option (Option String)
  unfolding kope_location
  image_location_for id w = elim (d.describe_images id w) [
    | err e ↦ some none
    | ok [] ↦ none
    | ok (location ∷ images) ↦ elim (kope_location location) [
      | none ↦ none
      | some loc ↦ some (some loc)
    ]
  ]

  -- The data of a cluster after a look at its groups and their configurations; `none` is a panic.
  unfoldable pub cluster_data_of :
      Gathered → List String → AwsClusterData → W → Option AwsClusterData
  unfolding image_location_for keep_template update_user_data field image_of
  cluster_data_of a subnets p w = elim (image_location_for (image_of a.template) w) [
    | none ↦ none
    | some location ↦
        elim (update_user_data d.base64 (field (λ lc. lc.user_data) a.template)
          (keep_template a location p)) [
            | none ↦ none
            | some p' ↦ some (record p' { vpc_subnets = subnets })
          ]
  ]

  -- The pools with the data that is kept; `none` is a panic.
  unfoldable pub get_aws_node_pools :
      AwsClusterData → W → Option (Result (List AwsNodePool) × AwsClusterData)
  unfolding instances_of groups_with subnets_of gather_all new_gathered cluster_data_of pools_of
  get_aws_node_pools p w = elim (c.list_nodes w) [
    | err e ↦ some (err e, p)
    | ok nodes ↦ elim (instances_of nodes) [
      | none ↦ none
      | some ids ↦ elim (c.describe_auto_scaling_groups [] w) [
        | err e ↦ some (err e, p)
        | ok all ↦
            let groups = groups_with ids all in
            elim (d.describe_launch_configurations (map (λ g. g.launch_configuration_name) groups)
              w) [
                | err e ↦ some (err e, p)
                | ok lcs ↦
                    let gathered = gather_all lcs new_gathered in
                    elim (cluster_data_of gathered (subnets_of groups []) p w) [
                      | none ↦ none
                      | some p' ↦ some (ok (pools_of gathered.by_name groups), p')
                    ]
              ]
      ]
    ]
  ]

-- The zone of the first node without its last letter; `none` is a panic.
unfoldable pub region_of : Result (List Node) → Option String
unfolding drop_bytes text_length take_bytes
region_of (err e) = some ""
region_of (ok []) = some ""
region_of (ok (n ∷ ns)) = elim (drop_bytes 7 n.provider_id) [
  | none ↦ none
  | some id ↦ elim (split id b'/') [
    | [] ↦ none
    | zone ∷ parts ↦ elim (text_length zone) [ zero ↦ none | suc l ↦ some (take_bytes l zone) ]
  ]
]

pub record AwsAccessKeyFile : Type 0 where
  pub access_key_id : String
  pub secret_access_key : String

-- Whether the file is there, its contents, and their decoding.
unfoldable pub load_aws_access_key :
    {B : Type 0}
    → String
    → Bool
    → Result B
    → (B → Result AwsAccessKeyFile)
    → Result AwsAccessKeyFile
load_aws_access_key key_file exists contents unmarshal =
    if not exists
    then err (error (str_append "Failed to locate service account file: " key_file))
    else (elim contents [
      | err e ↦ err (record e {
        message =
            str_append "reading key file '" (str_append key_file (str_append "': " e.message));
      })
      | ok b ↦ elim (unmarshal b) [
        | err e ↦ err (record e {
          message =
              str_append "unmarshaling key file '"
                (str_append key_file (str_append "' contents: " e.message));
        })
        | ok ak ↦
            if str_eq ak.access_key_id "" || str_eq ak.secret_access_key ""
            then err (error "Failed to populate access from service key. Empty values.")
            else ok ak
      ]
    ])
