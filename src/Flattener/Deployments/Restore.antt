-- ===== src/Flattener/Deployments/Restore.antt =====
-- Expanding a deployment that was flattened gives back what flattening took away, but for the rollout.
use cluster_turndown.Prelude.{
  String, ◌≡◌, refl, ap, ◌∙◌, inl, inr, false, none, some, arith, str_eq, eq_iff, if◌then◌else◌,
  Bool-cases, pos, get, SameMap,
}
use cluster_turndown.Strconv.{format_int}
use cluster_turndown.Strconv.RoundTrip.{IsInt32}
use cluster_turndown.Kube.{Deployment}
use cluster_turndown.Flattener.Deployments.{
  IntStr, turn_down_replicas, turn_down_rollout, kube_system, zero_out_replicas, reset_replicas,
  zero_out_rolling_update, reset_rolling_update, flatten_change, expand_change, is_zero,
}
use cluster_turndown.Flattener.Deployments.Mutators.{
  is_zero→eq, get-zero_out_replicas, zero_out_replicas-replicas, reset_replicas_present,
  reset_replicas_absent, get-zero_out_rolling_update, get-reset_rolling_update,
  rolling_updates-keep, SameRest, zero_out_replicas-SameRest, reset_replicas-SameRest,
  zero_out_rolling_update-SameRest, reset_rolling_update-SameRest,
}

-- What flattening changes and expanding is to bring back.
pub record Restored (d e : Deployment) : Type 0 where
  pub replicas_back : e.replicas ≡ d.replicas
  pub annotations_back : SameMap e.annotations d.annotations
  pub template_back : SameMap e.template_annotations d.template_annotations
  pub name_kept : (e.namespace ≡ d.namespace) × (e.name ≡ d.name)
  pub pod_kept : (e.tolerations ≡ d.tolerations) × (e.node_selector ≡ d.node_selector)

module _ (intstr : IntStr) (d : Deployment) where
  abbrev zeroed : Deployment
  zeroed = (zero_out_rolling_update intstr (zero_out_replicas d).0).0

  abbrev restored : Deployment
  restored = (reset_rolling_update intstr (reset_replicas zeroed).0).0

  zeroed-SameRest : SameRest d zeroed
  zeroed-SameRest = ground (
    arith,
    zero_out_replicas-SameRest d,
    zero_out_rolling_update-SameRest intstr (zero_out_replicas d).0,
  )

  restored-SameRest : SameRest d restored
  restored-SameRest = ground (
    arith,
    zeroed-SameRest,
    reset_replicas-SameRest zeroed,
    reset_rolling_update-SameRest intstr (reset_replicas zeroed).0,
  )

  -- The two patch functions, outside of `kube-system`.
  expand-flatten-eq-restored :
      str_eq d.namespace kube_system ≡ false
      → (expand_change intstr (flatten_change intstr d).0).0 ≡ restored
  unfolding expand_change flatten_change
  expand-flatten-eq-restored outside = rw (outside, zeroed-SameRest.0, outside)

  get-zeroed :
      (k : String)
      → str_eq turn_down_rollout k ≡ false
      → get zeroed.annotations k ≡ (
          if str_eq turn_down_replicas k
          then (if is_zero d.replicas then get d.annotations k else some (format_int d.replicas))
          else get d.annotations k)
  get-zeroed k h =
      get-zero_out_rolling_update intstr (zero_out_replicas d).0 k h ∙ get-zero_out_replicas d k

  module _ (fits : IsInt32 d.replicas) (fresh : get d.annotations turn_down_replicas ≡ none) where
    reset-zeroed :
        (k : String)
        → str_eq turn_down_rollout k ≡ false
        → ((reset_replicas zeroed).0.replicas ≡ d.replicas)
          × (get (reset_replicas zeroed).0.annotations k ≡ get d.annotations k)
    reset-zeroed k h = elim (Bool-cases (is_zero d.replicas)) [
      | inl z ↦ ground (
        arith,
        reset_replicas_absent zeroed (get-zeroed turn_down_replicas refl ∙ rw (z) fresh),
        get-zeroed k h,
        eq_iff turn_down_replicas k,
        is_zero→eq d.replicas z,
        zero_out_replicas-replicas d,
        rolling_updates-keep intstr (zero_out_replicas d).0 zeroed,
        fresh,
      )
      | inr z ↦ ground (
        arith,
        reset_replicas_present zeroed d.replicas k fits (get-zeroed turn_down_replicas refl ∙ rw z),
        get-zeroed k h,
        eq_iff turn_down_replicas k,
        fresh,
      )
    ]

    restored_get :
        get d.annotations turn_down_rollout ≡ none → SameMap restored.annotations d.annotations
    restored_get fresh_rollout k = elim (Bool-cases (str_eq turn_down_rollout k)) [
      | inl e ↦
          get-reset_rolling_update intstr (reset_replicas zeroed).0 k
          ∙ rw e (ground (arith, eq_iff turn_down_rollout k, fresh_rollout))
      | inr e ↦
          get-reset_rolling_update intstr (reset_replicas zeroed).0 k ∙ rw e ((reset-zeroed k e).1)
    ]

-- Outside of kube-system, flattening sets the replicas to 0, and expanding what was flattened brings
-- back the number of replicas, the annotations and all else but the rolling update, if the deployment
-- carries neither of the two annotations before and its number of replicas is an int32.
pub expand-flatten :
    (intstr : IntStr) (d : Deployment)
    → str_eq d.namespace kube_system ≡ false
    → IsInt32 d.replicas
    → get d.annotations turn_down_replicas ≡ none
    → get d.annotations turn_down_rollout ≡ none
    → ((flatten_change intstr d).0.replicas ≡ pos 0)
      × Restored d (expand_change intstr (flatten_change intstr d).0).0
unfolding flatten_change
expand-flatten intstr d outside fits fresh fresh_rollout = (
  rw outside
      ((rolling_updates-keep intstr (zero_out_replicas d).0 d).0 ∙ zero_out_replicas-replicas d),
  rw (expand-flatten-eq-restored intstr d outside) (record {
    replicas_back =
        (rolling_updates-keep intstr d (reset_replicas (zeroed intstr d)).0).1
        ∙ (reset-zeroed intstr d fits fresh turn_down_replicas refl).0;
    annotations_back = restored_get intstr d fits fresh fresh_rollout;
    template_back = λ k. ap (λ m. get m k) (restored-SameRest intstr d).2;
    name_kept = ((restored-SameRest intstr d).0, (restored-SameRest intstr d).1);
    pod_kept = ((restored-SameRest intstr d).3, (restored-SameRest intstr d).4);
  }),
)
