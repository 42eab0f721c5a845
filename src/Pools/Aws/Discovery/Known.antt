-- ===== src/Pools/Aws/Discovery/Known.antt =====
-- pkg/cluster/provider/awsclusterprovider.go: what the provider keeps of launch configurations.
use cluster_turndown.Prelude.{
  String, ◌≡◌, refl, sym, ap, ◌∙◌, inl, inr, none, some, List, [], ◌∷◌, map, arith, str_eq,
  Bool-cases, Option-cases, lookup, ok, Result-cases,
}
use cluster_turndown.Strconv.Find.{contains}
use cluster_turndown.Pools.Aws.{
  LaunchConfiguration, AwsNodePool, AwsClient, instances_of, groups_with, Node, AutoScalingGroup,
}
use cluster_turndown.Pools.Aws.ClusterData.{
  AwsClusterData, Base64, update_user_data, keep_reading, update_image, read_all, read_lines,
  new_reading, launch_config_for,
}
use cluster_turndown.Pools.Aws.Discovery.{
  Gathered, AwsImages, put_newer, gather, gather_all, new_gathered, cluster_data_of,
  image_location_for, image_of, field, keep_template, get_aws_node_pools, subnets_of,
}

gather-unknown :
    (lc : LaunchConfiguration) (a : Gathered)
    → a.by_machine_type ≡ []
    → (gather lc a).by_machine_type ≡ []
unfolding gather put_newer lookup
gather-unknown lc a h = elim (Bool-cases (contains lc.name "master")) [
  | inl master ↦ rw master h
  | inr worker ↦ rw worker (rw h refl)
]

gather_all-unknown :
    (lcs : List LaunchConfiguration) (a : Gathered)
    → a.by_machine_type ≡ []
    → (gather_all lcs a).by_machine_type ≡ []
unfolding gather_all
gather_all-unknown [] a h = h
gather_all-unknown (lc ∷ lcs) a h = gather_all-unknown lcs (gather lc a) (gather-unknown lc a h)

update_user_data-configs :
    (b64 : Base64) (encoded : String) (p p' : AwsClusterData)
    → update_user_data b64 encoded p ≡ some p'
    → p'.launch_configs ≡ p.launch_configs
unfolding update_user_data keep_reading
update_user_data-configs b64 encoded p p' h = elim (Bool-cases (str_eq encoded "")) [
  | inl empty ↦ ground (arith, h, empty)
  | inr full ↦ elim (Option-cases (b64.decode encoded)) [
    | inl e ↦ ground (arith, h, full, e)
    | inr (ud, e) ↦ elim (Option-cases (read_all (read_lines ud) new_reading)) [
      | inl f ↦ ground (arith, h, full, e, f)
      | inr (r, f) ↦ ground (arith, h, full, e, f)
    ]
  ]
]

module _ {W : Type 0} (c : AwsClient W) (d : AwsImages W) where
  cluster_data_of-configs :
      (a : Gathered) (subnets : List String) (p p' : AwsClusterData) (w : W)
      → cluster_data_of c d a subnets p w ≡ some p'
      → p'.launch_configs ≡ a.by_machine_type
  unfolding cluster_data_of keep_template update_image
  cluster_data_of-configs a subnets p p' w h =
      elim (Option-cases (image_location_for c d (image_of a.template) w)) [
        | inl e ↦ ground (arith, h, e)
        | inr (location, e) ↦
            elim (Option-cases (
              update_user_data d.base64 (field (λ lc. lc.user_data) a.template)
                (keep_template a location p))) [
                  | inl f ↦ ground (arith, h, e, f)
                  | inr (q, f) ↦ ground (
                    arith,
                    h,
                    e,
                    f,
                    update_user_data-configs d.base64 (field (λ lc. lc.user_data) a.template)
                        (keep_template a location p) q f,
                  )
                ]
      ]

  -- Whatever launch configurations the cluster has, none is known for any machine type when the pools have
  -- been listed, so that a creation of a pool never uses one that is there.
  pub launch_config_for-get_aws_node_pools :
      (p p' : AwsClusterData) (nps : List AwsNodePool) (w : W) (machine_type : String)
      → get_aws_node_pools c d p w ≡ some (ok nps, p')
      → launch_config_for machine_type p' ≡ none
  unfolding get_aws_node_pools launch_config_for new_gathered lookup
  launch_config_for-get_aws_node_pools p p' nps w machine_type h =
      elim (Result-cases (c.list_nodes w)) [
        | inr (f, e) ↦ ground (arith, h, e)
        | inl (nodes, e) ↦ elim (Option-cases (instances_of nodes)) [
          | inl f ↦ ground (arith, h, e, f)
          | inr (ids, f) ↦ elim (Result-cases (c.describe_auto_scaling_groups [] w)) [
            | inr (x, g) ↦ ground (arith, h, e, f, g)
            | inl (all, g) ↦ known_of nodes ids all e f g
          ]
        ]
      ]
    where
      known_of :
          (nodes : List Node) (ids : List String) (all : List AutoScalingGroup)
          → c.list_nodes w ≡ ok nodes
          → instances_of nodes ≡ some ids
          → c.describe_auto_scaling_groups [] w ≡ ok all
          → launch_config_for machine_type p' ≡ none
      known_of nodes ids all e f g =
          elim (Result-cases (
            d.describe_launch_configurations
              (map (λ q. q.launch_configuration_name) (groups_with ids all)) w)) [
                | inr (x, k) ↦ ground (arith, h, e, f, g, k)
                | inl (lcs, k) ↦
                    elim (Option-cases (
                      cluster_data_of c d (gather_all lcs new_gathered)
                        (subnets_of (groups_with ids all) []) p w)) [
                          | inl l ↦ ground (arith, h, e, f, g, k, l)
                          | inr (q, l) ↦
                              let same : q ≡ p' = ground (arith, h, e, f, g, k, l) in
                              ap (launch_config_for machine_type) (sym same)
                              ∙ ap (lookup machine_type) (
                                  cluster_data_of-configs (gather_all lcs new_gathered)
                                    (subnets_of (groups_with ids all) []) p q w l
                                  ∙ gather_all-unknown lcs new_gathered refl)
                        ]
              ]
