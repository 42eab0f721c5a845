-- ===== src/Flattener/Deployments/Mutators.antt =====
-- The four functions that change a deployment outside of kube-system, seen through the lookups of its
-- annotations, and what they leave alone.
use cluster_turndown.Prelude.{
  String, ◌≡◌, ◌∙◌, inl, inr, true, false, none, some, arith, str_eq, eq_iff, if◌then◌else◌,
  Option-cases, ℤ, pos, get, get-put, get-delete,
}
use cluster_turndown.Strconv.{format_int}
use cluster_turndown.Strconv.RoundTrip.{IsInt32, parse_int-format_int}
use cluster_turndown.Kube.{Deployment}
use cluster_turndown.Flattener.Deployments.{
  IntStr, turn_down_replicas, turn_down_rollout, zero_out_replicas, reset_replicas,
  zero_out_rolling_update, reset_rolling_update, is_zero, rollout_text,
}

pub is_zero→eq : (z : ℤ) → is_zero z ≡ true → z ≡ pos 0
unfolding is_zero
is_zero→eq z h = ground arith

-- Each of the four mutators, seen through the lookups of the annotations.
pub get-zero_out_replicas :
    (d : Deployment) (k : String)
    → get (zero_out_replicas d).0.annotations k ≡ (
        if str_eq turn_down_replicas k
        then (if is_zero d.replicas then get d.annotations k else some (format_int d.replicas))
        else get d.annotations k)
unfolding zero_out_replicas
get-zero_out_replicas d k =
    ground (arith, get-put d.annotations turn_down_replicas k (format_int d.replicas))

pub zero_out_replicas-replicas : (d : Deployment) → (zero_out_replicas d).0.replicas ≡ pos 0
unfolding zero_out_replicas
zero_out_replicas-replicas d = ground arith

-- With its annotation present `reset_replicas` restores the number and takes the annotation out.
pub reset_replicas_present :
    (d : Deployment) (z : ℤ) (k : String)
    → IsInt32 z
    → get d.annotations turn_down_replicas ≡ some (format_int z)
    → ((reset_replicas d).0.replicas ≡ z)
      × (get (reset_replicas d).0.annotations k
          ≡ (if str_eq turn_down_replicas k then none else get d.annotations k))
unfolding reset_replicas
reset_replicas_present d z k fits e =
    ground (arith, parse_int-format_int z fits, get-delete d.annotations turn_down_replicas k)

pub reset_replicas_absent :
    (d : Deployment) → get d.annotations turn_down_replicas ≡ none → (reset_replicas d).0 ≡ d
unfolding reset_replicas
reset_replicas_absent d e = ground arith

module _ (intstr : IntStr) where
  pub get-zero_out_rolling_update :
      (d : Deployment) (k : String)
      → str_eq turn_down_rollout k ≡ false
      → get (zero_out_rolling_update intstr d).0.annotations k ≡ get d.annotations k
  unfolding zero_out_rolling_update
  get-zero_out_rolling_update d k h = elim (Option-cases d.rolling_update) [
    | inl e ↦ rw (e, zero_out_rolling_update)
    | inr (r, e) ↦
        rw (e, zero_out_rolling_update)
          (get-put d.annotations turn_down_rollout k (rollout_text intstr r.max_unavailable) ∙ rw h)
  ]

  pub get-reset_rolling_update :
      (d : Deployment) (k : String)
      → get (reset_rolling_update intstr d).0.annotations k
        ≡ (if str_eq turn_down_rollout k then none else get d.annotations k)
  unfolding reset_rolling_update
  get-reset_rolling_update d k =
      ground (arith, eq_iff turn_down_rollout k, get-delete d.annotations turn_down_rollout k)

  -- A rollout changes no field that is to come back but the annotations.
  pub rolling_updates-keep :
      (d e : Deployment)
      → let z = (zero_out_rolling_update intstr d).0 in
        let r = (reset_rolling_update intstr e).0 in
        (z.replicas ≡ d.replicas)
        × (r.replicas ≡ e.replicas)
        × (z.template_annotations ≡ d.template_annotations)
        × (r.template_annotations ≡ e.template_annotations)
  unfolding zero_out_rolling_update reset_rolling_update
  rolling_updates-keep d e = ground arith

-- The fields that no mutator touches.
abbrev pub SameRest : Deployment → Deployment → Type 0
SameRest d e =
    (e.namespace ≡ d.namespace)
    × (e.name ≡ d.name)
    × (e.template_annotations ≡ d.template_annotations)
    × (e.tolerations ≡ d.tolerations)
    × (e.node_selector ≡ d.node_selector)

pub zero_out_replicas-SameRest : (d : Deployment) → SameRest d (zero_out_replicas d).0
unfolding zero_out_replicas
zero_out_replicas-SameRest d = ground arith

pub reset_replicas-SameRest : (d : Deployment) → SameRest d (reset_replicas d).0
unfolding reset_replicas
reset_replicas-SameRest d = ground arith

module _ (intstr : IntStr) where
  pub zero_out_rolling_update-SameRest :
      (d : Deployment) → SameRest d (zero_out_rolling_update intstr d).0
  unfolding zero_out_rolling_update
  zero_out_rolling_update-SameRest d = ground arith

  pub reset_rolling_update-SameRest :
      (d : Deployment) → SameRest d (reset_rolling_update intstr d).0
  unfolding reset_rolling_update
  reset_rolling_update-SameRest d = ground arith
