-- ===== src/Flattener/Cluster.antt =====
-- The loops of the flattener over a cluster whose client serves its objects.
use cluster_turndown.Prelude.{
  String, ◌≡◌, refl, ap, ◌∙◌, ◌≢◌, inl, inr, true, false, none, some, List, ◌∷◌, ◌++◌, map, arith,
  str_eq, if◌then◌else◌, Bool-cases, All, Pairs, Pairs-map-map, Entries, lookup, get,
}
use cluster_turndown.Strconv.RoundTrip.{IsInt32}
use cluster_turndown.Kube.{Deployment, deployment_names}
use cluster_turndown.Kube.Stored.{Serves, SameName, Absent, Distinct}
use cluster_turndown.Patcher.{patch_deployment}
use cluster_turndown.Patcher.Loop.{patch_object-objects, for_each-objects, Distinct-map}
use cluster_turndown.Flattener.Deployments.Restore.{Restored, expand-flatten}
use cluster_turndown.Flattener.Deployments.SafeEvict.{expand-flatten_kube_system}
use cluster_turndown.Flattener.Deployments.{
  flatten_change, expand_change, kube_system, cluster_auto_scaler_safe_evict,
}
use cluster_turndown.Flattener.Deployments.Restore.{Restored, expand-flatten}
use cluster_turndown.Flattener.Deployments.SafeEvict.{expand-flatten_kube_system}
use cluster_turndown.Flattener.Deployments.Sent.{
  flatten_change-SameName, expand_change-SameName, patched-flatten_change, patched-expand_change,
}
use cluster_turndown.Flattener.{
  Flattener, is_omitted, flatten_deployment, expand_deployment, flatten_deployments,
  expand_deployments, turn_down_replicas, turn_down_rollout, turn_down_safe_evict_flag,
}

module _ {W : Type 0} (f : Flattener W) where
  -- What the loops make of one deployment.
  unfoldable pub flattened : Deployment → Deployment
  flattened d = if is_omitted f d then d else (flatten_change f.intstr d).0

  unfoldable pub expanded : Deployment → Deployment
  expanded d = if is_omitted f d then d else (expand_change f.intstr d).0

  flattened-SameName : (d : Deployment) → SameName deployment_names d (flattened d)
  unfolding flattened
  flattened-SameName d = ground (arith, flatten_change-SameName f.intstr d)

  expanded-SameName : (d : Deployment) → SameName deployment_names d (expanded d)
  unfolding expanded
  expanded-SameName d = ground (arith, expand_change-SameName f.intstr d)

  module _ {objects : W → List Deployment} (s : Serves f.deployments deployment_names objects) where
    flatten_step :
        (d : Deployment) (w : W) (pre post : List Deployment)
        → objects w ≡ pre ++ d ∷ post
        → Absent deployment_names d pre
        → objects (if is_omitted f d then w else (flatten_deployment f d w).1)
          ≡ pre ++ flattened d ∷ post
    unfolding flattened flatten_deployment patch_deployment
    flatten_step d w pre post here absent = elim (Bool-cases (is_omitted f d)) [
      | inl o ↦ rw o here
      | inr o ↦ rw o (
          patch_object-objects s (flatten_change f.intstr) d w pre post
            (flatten_change-SameName f.intstr d) here absent
          ∙ ap (λ e. pre ++ e ∷ post) (patched-flatten_change f.intstr d))
    ]

    expand_step :
        (d : Deployment) (w : W) (pre post : List Deployment)
        → objects w ≡ pre ++ d ∷ post
        → Absent deployment_names d pre
        → objects (if is_omitted f d then w else (expand_deployment f d w).1)
          ≡ pre ++ expanded d ∷ post
    unfolding expanded expand_deployment patch_deployment
    expand_step d w pre post here absent = elim (Bool-cases (is_omitted f d)) [
      | inl o ↦ rw o here
      | inr o ↦ rw o (
          patch_object-objects s (expand_change f.intstr) d w pre post
            (expand_change-SameName f.intstr d) here absent
          ∙ ap (λ e. pre ++ e ∷ post) (patched-expand_change f.intstr d))
    ]

    -- `FlattenDeployments` succeeds and changes every deployment that is not omitted, and no other.
    pub flatten_deployments-objects :
        (w : W)
        → Distinct deployment_names (objects w)
        → ((flatten_deployments f w).0 ≡ none)
          × (objects (flatten_deployments f w).1 ≡ map flattened (objects w))
    unfolding flatten_deployments
    flatten_deployments-objects w distinct =
        rw (s.lists w, flatten_deployments)
          (refl, for_each-objects s _ flattened flattened-SameName flatten_step w distinct)

    pub expand_deployments-objects :
        (w : W)
        → Distinct deployment_names (objects w)
        → ((expand_deployments f w).0 ≡ none)
          × (objects (expand_deployments f w).1 ≡ map expanded (objects w))
    unfolding expand_deployments
    expand_deployments-objects w distinct =
        rw (s.lists w, expand_deployments)
          (refl, for_each-objects s _ expanded expanded-SameName expand_step w distinct)

-- A deployment that can come back from flattening: it has an int32 of replicas and none of the
-- program's annotations, and in kube-system it has annotations and no empty flag on its pods.
pub record IsFresh (d : Deployment) : Type 0 where
  pub fits : IsInt32 d.replicas
  pub no_replicas : get d.annotations turn_down_replicas ≡ none
  pub no_rollout : get d.annotations turn_down_rollout ≡ none
  pub system_entries :
      str_eq d.namespace kube_system ≡ true
      → (entries : Entries String) × (d.annotations ≡ some entries)
        × (lookup turn_down_safe_evict_flag entries ≡ none)
  pub system_flag : get d.template_annotations cluster_auto_scaler_safe_evict ≢ some ""

module _ {W : Type 0} (f : Flattener W) where
  Restored-refl : (d : Deployment) → Restored d d
  Restored-refl d = record {
    replicas_back = refl;
    annotations_back = λ k. refl;
    template_back = λ k. refl;
    name_kept = (refl, refl);
    pod_kept = (refl, refl);
  }

  is_omitted-flattened : (d : Deployment) → is_omitted f (flattened f d) ≡ is_omitted f d
  unfolding is_omitted
  is_omitted-flattened d = rw (← (flattened-SameName f d).1)

  flattened-kept : (d : Deployment) → is_omitted f d ≡ true → flattened f d ≡ d
  unfolding flattened
  flattened-kept d o = rw o

  flattened-changed :
      (d : Deployment) → is_omitted f d ≡ false → flattened f d ≡ (flatten_change f.intstr d).0
  unfolding flattened
  flattened-changed d o = rw o

  Restored-change :
      (d : Deployment)
      → IsFresh d
      → Restored d (expand_change f.intstr (flatten_change f.intstr d).0).0
  Restored-change d fresh = elim (Bool-cases (str_eq d.namespace kube_system)) [
    | inl inside ↦
        let (entries, e, absent) = fresh.system_entries inside in
        expand-flatten_kube_system f.intstr d entries inside e absent fresh.system_flag
    | inr outside ↦
        (expand-flatten f.intstr d outside fresh.fits fresh.no_replicas fresh.no_rollout).1
  ]

  expanded-flattened : (d : Deployment) → IsFresh d → Restored d (expanded f (flattened f d))
  unfolding expanded
  expanded-flattened d fresh = elim (Bool-cases (is_omitted f d)) [
    | inl o ↦ rw (is_omitted-flattened d, o, flattened-kept d o) (Restored-refl d)
    | inr o ↦ rw (is_omitted-flattened d, o, flattened-changed d o) (Restored-change d fresh)
  ]

  -- Expanding a cluster that was flattened succeeds and leaves, at each place, a deployment that has
  -- its replicas, its annotations and those of its pods back, if the client serves the deployments,
  -- no two of them have one name, and each can come back from flattening.
  pub expand-flatten_cluster :
      {objects : W → List Deployment} (s : Serves f.deployments deployment_names objects) (w : W)
      → Distinct deployment_names (objects w)
      → All IsFresh (objects w)
      → let v = (flatten_deployments f w).1 in
        ((expand_deployments f v).0 ≡ none)
        × Pairs Restored (objects w) (objects (expand_deployments f v).1)
  expand-flatten_cluster {objects} s w distinct fresh =
      let flat = (flatten_deployments-objects f s w distinct).1 in
      let done = expand_deployments-objects f s (flatten_deployments f w).1 (
        rw flat (
          Distinct-map deployment_names (flattened f) (flattened-SameName f) (objects w)
            distinct)) in
      (
        done.0,
        rw (done.1, flat)
            (Pairs-map-map Restored (expanded f) (flattened f) IsFresh expanded-flattened
              (objects w) fresh),
      )
