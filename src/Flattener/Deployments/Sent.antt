-- ===== src/Flattener/Deployments/Sent.antt =====
-- What the two patch functions leave in the store: they report no updates only where they change nothing.
use cluster_turndown.Prelude.{◌≡◌, inl, inr, true, false, arith, str_eq, Bool-cases}
use cluster_turndown.Kube.{Deployment, deployment_names}
use cluster_turndown.Kube.Stored.{SameName}
use cluster_turndown.Patcher.Loop.{patched}
use cluster_turndown.Flattener.Deployments.{
  IntStr, kube_system, set_safe_evict, reset_safe_evict, zero_out_replicas, reset_replicas,
  zero_out_rolling_update, reset_rolling_update, flatten_change, expand_change,
}
use cluster_turndown.Flattener.Deployments.Mutators.{
  zero_out_replicas-SameRest, reset_replicas-SameRest, zero_out_rolling_update-SameRest,
  reset_rolling_update-SameRest,
}

zero_out_replicas_unchanged :
    (d : Deployment) → (zero_out_replicas d).1 ≡ false → (zero_out_replicas d).0 ≡ d
unfolding zero_out_replicas
zero_out_replicas_unchanged d h = ground arith

reset_replicas_unchanged :
    (d : Deployment) → (reset_replicas d).1 ≡ false → (reset_replicas d).0 ≡ d
unfolding reset_replicas
reset_replicas_unchanged d h = ground arith

set_safe_evict_changes : (d : Deployment) → (set_safe_evict d).1 ≡ true
unfolding set_safe_evict
set_safe_evict_changes d = ground arith

reset_safe_evict_unchanged :
    (d : Deployment) → (reset_safe_evict d).1 ≡ false → (reset_safe_evict d).0 ≡ d
unfolding reset_safe_evict
reset_safe_evict_unchanged d h = ground arith

safe_evict-names :
    (d : Deployment)
    → SameName deployment_names d (set_safe_evict d).0
      × SameName deployment_names d (reset_safe_evict d).0
unfolding set_safe_evict reset_safe_evict
safe_evict-names d = ground arith

module _ (intstr : IntStr) where
  zero_out_rolling_update_unchanged :
      (d : Deployment)
      → (zero_out_rolling_update intstr d).1 ≡ false
      → (zero_out_rolling_update intstr d).0 ≡ d
  unfolding zero_out_rolling_update
  zero_out_rolling_update_unchanged d h = ground arith

  reset_rolling_update_unchanged :
      (d : Deployment)
      → (reset_rolling_update intstr d).1 ≡ false
      → (reset_rolling_update intstr d).0 ≡ d
  unfolding reset_rolling_update
  reset_rolling_update_unchanged d h = ground arith

  pub patched-flatten_change :
      (d : Deployment) → patched (flatten_change intstr) d ≡ (flatten_change intstr d).0
  unfolding flatten_change
  patched-flatten_change d = elim (Bool-cases (str_eq d.namespace kube_system)) [
    | inl inside ↦ ground (arith, set_safe_evict_changes d)
    | inr outside ↦ ground (
      arith,
      zero_out_replicas_unchanged d,
      zero_out_rolling_update_unchanged (zero_out_replicas d).0,
    )
  ]

  pub patched-expand_change :
      (d : Deployment) → patched (expand_change intstr) d ≡ (expand_change intstr d).0
  unfolding expand_change
  patched-expand_change d = elim (Bool-cases (str_eq d.namespace kube_system)) [
    | inl inside ↦ ground (arith, reset_safe_evict_unchanged d)
    | inr outside ↦
        ground
          (arith, reset_replicas_unchanged d, reset_rolling_update_unchanged (reset_replicas d).0)
  ]

  pub flatten_change-SameName :
      (d : Deployment) → SameName deployment_names d (flatten_change intstr d).0
  unfolding flatten_change
  flatten_change-SameName d = ground (
    arith,
    safe_evict-names d,
    zero_out_replicas-SameRest d,
    zero_out_rolling_update-SameRest intstr (zero_out_replicas d).0,
  )

  pub expand_change-SameName :
      (d : Deployment) → SameName deployment_names d (expand_change intstr d).0
  unfolding expand_change
  expand_change-SameName d = ground (
    arith,
    safe_evict-names d,
    reset_replicas-SameRest d,
    reset_rolling_update-SameRest intstr (reset_replicas d).0,
  )
