-- ===== src/Draininator.antt =====
-- pkg/cluster/draininator.go: which pods of a node are evicted. The calls of the Kubernetes API are
-- parameters. What is written to the log only is left out.
pub mod Selection
pub mod Evictions
pub mod Drain
use Prim.Native.String.{◌++◌ as str_append}
use cluster_turndown.Prelude.{
  ℕ, String, Bool, true, false, not, ◌&&◌, ◌||◌, Option, none, some, List, [], ◌∷◌, ◌++◌, str_eq,
  if◌then◌else◌, GoMap, get, Error, error, is_not_found, Result, ok, err,
}
use cluster_turndown.Strconv.{equal_fold}
use cluster_turndown.Kube.{Node}

pub data PodPhase : Type 0 where
  pod_pending pod_running pod_succeeded pod_failed pod_unknown : PodPhase

-- `metav1.OwnerReference` of the owner that controls an object.
pub record OwnerReference : Type 0 where
  pub kind : String
  pub name : String

-- Of a volume, whether it is an empty directory.
pub record Pod : Type 0 where
  pub namespace : String
  pub name : String
  pub uid : String
  pub annotations : GoMap String
  pub empty_dirs : List Bool
  pub controller : Option OwnerReference  -- metav1.GetControllerOf
  pub phase : PodPhase

pub record ApiGroup : Type 0 where
  pub name : String
  pub preferred_version : String

pub record ApiResource : Type 0 where
  pub name : String
  pub kind : String

pub record Eviction : Type 0 where
  pub api_version : String
  pub namespace : String
  pub name : String
  pub grace_period_seconds : ℕ

-- What the client does in a world `W`. Of the DaemonSet only the error of the call is used.
pub record PodClient (W : Type 0) : Type 0 where
  pub get_node : String → W → Result Node
  pub list_pods_of_node : String → W → Result (List Pod)
  pub get_daemon_set : String → String → W → Option Error
  pub server_groups : W → Result (List ApiGroup)
  pub server_resources_for : String → W → Result (List ApiResource)
  pub delete_pod : String → String → ℕ → W → Option Error × W
  pub evict : Eviction → W → Option Error × W
  pub get_pod : String → String → W → (Option Pod × Option Error) × W

pub record Draininator : Type 0 where
  pub node : String
  pub grace_period_seconds : ℕ
  pub force : Bool
  pub ignore_daemon_sets : Bool
  pub delete_local_data : Bool
  pub ignore_pods : List String

unfoldable pub new_draininator : String → List String → Draininator
new_draininator node ignore_pods = record {
  node = node;
  grace_period_seconds = 30;
  force = true;
  ignore_daemon_sets = true;
  delete_local_data = true;
  ignore_pods = ignore_pods;
}

abbrev pub safe_to_evict_annotation : String
safe_to_evict_annotation = "cluster-autoscaler.kubernetes.io/safe-to-evict"

abbrev pub mirror_pod_annotation : String
mirror_pod_annotation = "kubernetes.io/config.mirror"

unfoldable pub pod_error : Pod → String → Error
pod_error p s =
    error (str_append "pod " (str_append p.namespace (str_append "." (str_append p.name s))))

-- The six filters: whether the pod may be deleted, and an error.
unfoldable pub mirror_filter : Pod → Bool × Option Error
mirror_filter p = elim (get p.annotations mirror_pod_annotation) [
  | some _ ↦ (false, none)
  | none ↦ (true, none)
]

unfoldable pub autoscaler_filter : Pod → Bool × Option Error
autoscaler_filter p = elim (get p.annotations safe_to_evict_annotation) [
  | some enabled ↦ (not (str_eq enabled "false"), none)
  | none ↦ (true, none)
]

unfoldable pub is_ignored_name : List String → Pod → Bool
is_ignored_name [] p = false
is_ignored_name (ignored ∷ rest) p = equal_fold ignored p.name || is_ignored_name rest p

unfoldable pub ignored_pod_filter : Draininator → Pod → Bool × Option Error
unfolding is_ignored_name
ignored_pod_filter d p = (not (is_ignored_name d.ignore_pods p), none)

unfoldable pub has_local_storage : List Bool → Bool
has_local_storage [] = false
has_local_storage (empty_dir ∷ rest) = empty_dir || has_local_storage rest

unfoldable pub local_storage_filter : Draininator → Pod → Bool × Option Error
unfolding has_local_storage pod_error
local_storage_filter d p =
    if not (has_local_storage p.empty_dirs)
    then (true, none)
    else if not d.delete_local_data
    then (false, some (pod_error p " has local storage, node cannot be drained."))
    else (true, none)

unfoldable pub is_finished : PodPhase → Bool
is_finished pod_succeeded = true
is_finished pod_failed = true
is_finished pod_pending = false
is_finished pod_running = false
is_finished pod_unknown = false

unfoldable pub unreplicated_filter : Draininator → Pod → Bool × Option Error
unfolding is_finished pod_error
unreplicated_filter d p = if is_finished p.phase then (true, none) else (elim (p.controller) [
  | some _ ↦ (true, none)
  | none ↦
      if not d.force
      then (
        false,
        some (pod_error p " is unreplicated, node cannot be drained (set force=true to drain)"),
      )
      else (true, none)
])

module _ {W : Type 0} (c : PodClient W) where
  unfoldable pub daemon_set_filter : Draininator → W → Pod → Bool × Option Error
  unfolding pod_error
  daemon_set_filter d w p = elim (p.controller) [
    | none ↦ (true, none)
    | some owner ↦
        if not (str_eq owner.kind "DaemonSet")
        then (true, none)
        else (elim (c.get_daemon_set p.namespace owner.name w) [
          | some e ↦ if is_not_found e && d.force then (true, none) else (false, some e)
          | none ↦
              if not d.ignore_daemon_sets
              then (
                false,
                some (pod_error p " is controlled by a DaemonSet, node cannot be drained."),
              )
              else (false, none)
        ])
  ]

  unfoldable pub pod_filters : Draininator → W → List (Pod → Bool × Option Error)
  unfolding daemon_set_filter mirror_filter local_storage_filter unreplicated_filter
      autoscaler_filter ignored_pod_filter
  pod_filters d w =
      daemon_set_filter d w
      ∷ mirror_filter
      ∷ local_storage_filter d
      ∷ unreplicated_filter d
      ∷ autoscaler_filter
      ∷ ignored_pod_filter d
      ∷ []

abbrev pub with_error : Option Error → List Error → List Error
with_error none es = es
with_error (some e) es = es ++ e ∷ []

-- The loop over the filters: all of them are asked, also after one that says no.
unfoldable pub run_filters :
    List (Pod → Bool × Option Error) → Pod → Bool → List Error → Bool × List Error
run_filters [] p deletable es = (deletable, es)
run_filters (filter ∷ filters) p deletable es =
    let (fine, failed) = filter p in
    run_filters filters p (deletable && fine) (with_error failed es)

-- The loop over the pods: those to delete and the errors.
unfoldable pub select_pods :
    List (Pod → Bool × Option Error) → List Pod → List Pod → List Error → List Pod × List Error
unfolding run_filters
select_pods filters [] chosen es = (chosen, es)
select_pods filters (p ∷ ps) chosen es =
    let (deletable, es') = run_filters filters p true es in
    select_pods filters ps (if deletable then chosen ++ p ∷ [] else chosen) es'

unfoldable pub error_lines : List Error → String
error_lines [] = ""
error_lines (e ∷ es) = str_append e.message (String.◌∷◌ "\n" (error_lines es))

module _ {W : Type 0} (c : PodClient W) where
  unfoldable pub pods_to_delete : Draininator → W → Result (List Pod)
  unfolding pod_filters select_pods error_lines
  pods_to_delete d w = elim (c.list_pods_of_node d.node w) [
    | err e ↦ err (record e { message = str_append "listing all Pods: " e.message })
    | ok pods ↦
        let (chosen, es) = select_pods (pod_filters c d w) pods [] [] in
        elim es [ [] ↦ ok chosen | e ∷ rest ↦ err (error (error_lines (e ∷ rest))) ]
  ]
