-- ===== src/Flattener/Deployments.antt =====
-- pkg/cluster/flattener.go: what flattening and expanding change of one deployment. A function that
-- mutates its argument and returns a Boolean returns the changed object and the Boolean.
pub mod Mutators
pub mod Restore
pub mod Sent
pub mod Repeat
pub mod SafeEvict
use cluster_turndown.Prelude.{
  zero, suc, String, Bool, true, false, ◌||◌, Option, none, some, str_eq, if◌then◌else◌, ℤ, pos,
  negsuc, lookup, get, put, delete, get_text, Error,
}
use cluster_turndown.Strconv.{format_int, parse_int}
use cluster_turndown.Kube.{IntOrStringType, IntOrString, RollingUpdate, Deployment}
use cluster_turndown.Patcher.{no_updates}

abbrev pub cluster_auto_scaler_safe_evict : String
cluster_auto_scaler_safe_evict = "cluster-autoscaler.kubernetes.io/safe-to-evict"

abbrev pub turn_down_replicas : String
turn_down_replicas = "kubecost.kubernetes.io/turn-down-replicas"

abbrev pub turn_down_rollout : String
turn_down_rollout = "kubecost.kubernetes.io/turn-down-rollout"

abbrev pub turn_down_safe_evict_flag : String
turn_down_safe_evict_flag = "kubecost.kubernetes.io/safe-evict"

abbrev pub kube_system : String
kube_system = "kube-system"

-- `IntOrString.String` and `intstr.Parse`, of a package outside the repository.
pub record IntStr : Type 0 where
  pub to_text : IntOrString → String
  pub parse : String → IntOrString

pub set_safe_evict : Deployment → Deployment × Bool
set_safe_evict d =
    let previous_value = get_text d.template_annotations cluster_auto_scaler_safe_evict in
    let marked = record d {
      template_annotations = put d.template_annotations cluster_auto_scaler_safe_evict "true";
    } in
    if str_eq previous_value "" then (marked, true) else (
      record marked { annotations = put d.annotations turn_down_safe_evict_flag previous_value },
      true,
    )

pub reset_safe_evict : Deployment → Deployment × Bool
reset_safe_evict d = elim (d.annotations) [
  | none ↦ (d, false)
  | some entries ↦ elim (lookup turn_down_safe_evict_flag entries) [
    | none ↦ (
      record d {
        template_annotations = delete d.template_annotations cluster_auto_scaler_safe_evict;
      },
      true,
    )
    | some safe_evict_entry ↦ (
      record d {
        annotations = delete d.annotations turn_down_safe_evict_flag;
        template_annotations =
            put d.template_annotations cluster_auto_scaler_safe_evict safe_evict_entry;
      },
      true,
    )
  ]
]

pub is_zero : ℤ → Bool
is_zero (pos zero) = true
is_zero (pos (suc n)) = false
is_zero (negsuc n) = false

pub zero_out_replicas : Deployment → Deployment × Bool
unfolding is_zero
zero_out_replicas d = if is_zero d.replicas then (d, false) else (
  record d {
    replicas = pos 0;
    annotations = put d.annotations turn_down_replicas (format_int d.replicas);
  },
  true,
)

pub reset_replicas : Deployment → Deployment × Bool
reset_replicas d = elim (get d.annotations turn_down_replicas) [
  | none ↦ (d, false)
  | some replicas_entry ↦ elim (parse_int replicas_entry) [
    | none ↦ (d, false)
    | some replicas ↦ (
      record d { annotations = delete d.annotations turn_down_replicas; replicas = replicas },
      true,
    )
  ]
]

-- `rollingUpdate.MaxUnavailable` afterwards: a fresh value where there was none, and otherwise the
-- value that the pointer shows, with its type and integer overwritten.
one_unavailable : Option IntOrString → IntOrString
one_unavailable none = record { type = IntOrStringType.int; int_val = pos 1; str_val = "" }
one_unavailable (some v) = record v { type = IntOrStringType.int; int_val = pos 1 }

module _ (intstr : IntStr) where
  -- The local `maxUnavailable` is that same pointer, so the text is of the overwritten value.
  pub rollout_text : Option IntOrString → String
  unfolding one_unavailable
  rollout_text none = ""
  rollout_text (some v) = intstr.to_text (one_unavailable (some v))

  pub zero_out_rolling_update : Deployment → Deployment × Bool
  unfolding one_unavailable rollout_text
  zero_out_rolling_update d = elim (d.rolling_update) [
    | none ↦ (d, false)
    | some r ↦ (
      record d {
        rolling_update =
            some (record r { max_unavailable = some (one_unavailable r.max_unavailable) });
        annotations = put d.annotations turn_down_rollout (rollout_text r.max_unavailable);
      },
      true,
    )
  ]

  with_max_unavailable : Option RollingUpdate → IntOrString → RollingUpdate
  with_max_unavailable none v = record { max_unavailable = some v; max_surge = none }
  with_max_unavailable (some r) v = record r { max_unavailable = some v }

  pub reset_rolling_update : Deployment → Deployment × Bool
  unfolding with_max_unavailable
  reset_rolling_update d = elim (get d.annotations turn_down_rollout) [
    | none ↦ (d, false)
    | some max_unavailable_entry ↦ (
      record d {
        annotations = delete d.annotations turn_down_rollout;
        rolling_update =
            some (with_max_unavailable d.rolling_update (intstr.parse max_unavailable_entry));
      },
      true,
    )
  ]

  -- The patch function of `FlattenDeployment`.
  pub flatten_change : Deployment → Deployment × Option Error
  unfolding set_safe_evict zero_out_replicas zero_out_rolling_update
  flatten_change d =
      if str_eq d.namespace kube_system
      then (let (d', update_evict_flag) = set_safe_evict d in
          (d', if update_evict_flag then none else some no_updates))
      else (let (d', update_replicas) = zero_out_replicas d in
          let (d'', update_rollout) = zero_out_rolling_update d' in
          (d'', if update_replicas || update_rollout then none else some no_updates))

  -- The patch function of `ExpandDeployment`.
  pub expand_change : Deployment → Deployment × Option Error
  unfolding reset_safe_evict reset_replicas reset_rolling_update
  expand_change d =
      if str_eq d.namespace kube_system
      then (let (d', update_evict_flag) = reset_safe_evict d in
          (d', if update_evict_flag then none else some no_updates))
      else (let (d', update_replicas) = reset_replicas d in
          let (d'', update_rollout) = reset_rolling_update d' in
          (d'', if update_replicas || update_rollout then none else some no_updates))
