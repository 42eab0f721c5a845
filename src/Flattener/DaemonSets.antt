-- ===== src/Flattener/DaemonSets.antt =====
-- pkg/cluster/flattener.go: what flattening and expanding change of one daemon set.
pub mod Restore
use cluster_turndown.Prelude.{
  Bool, true, false, Option, none, some, str_eq, if◌then◌else◌, lookup, put, delete, get_text,
  Error,
}
use cluster_turndown.Kube.{DaemonSet}
use cluster_turndown.Patcher.{no_updates}
use cluster_turndown.Flattener.Deployments.{
  cluster_auto_scaler_safe_evict, turn_down_safe_evict_flag,
}

pub set_safe_evict_daemon_set : DaemonSet → DaemonSet × Bool
set_safe_evict_daemon_set d =
    let previous_value = get_text d.template_annotations cluster_auto_scaler_safe_evict in
    let marked = record d {
      template_annotations = put d.template_annotations cluster_auto_scaler_safe_evict "true";
    } in
    if str_eq previous_value "" then (marked, true) else (
      record marked { annotations = put d.annotations turn_down_safe_evict_flag previous_value },
      true,
    )

pub reset_safe_evict_daemon_set : DaemonSet → DaemonSet × Bool
reset_safe_evict_daemon_set d = elim (d.annotations) [
  | none ↦ (d, false)
  | some entries ↦ elim (lookup turn_down_safe_evict_flag entries) [
    | none ↦ (
      record d {
        template_annotations = delete d.template_annotations cluster_auto_scaler_safe_evict;
      },
      true,
    )
    | some safe_evict_entry ↦ (
      record d {
        annotations = delete d.annotations turn_down_safe_evict_flag;
        template_annotations =
            put d.template_annotations cluster_auto_scaler_safe_evict safe_evict_entry;
      },
      true,
    )
  ]
]

-- The patch function of `FlattenDaemonSet`.
pub flatten_daemon_set_change : DaemonSet → DaemonSet × Option Error
unfolding set_safe_evict_daemon_set
flatten_daemon_set_change d =
    let (d', update_evict_flag) = set_safe_evict_daemon_set d in
    (d', if update_evict_flag then none else some no_updates)

-- The patch function of `ExpandDaemonSet`.
pub expand_daemon_set_change : DaemonSet → DaemonSet × Option Error
unfolding reset_safe_evict_daemon_set
expand_daemon_set_change d =
    let (d', update_evict_flag) = reset_safe_evict_daemon_set d in
    (d', if update_evict_flag then none else some no_updates)
