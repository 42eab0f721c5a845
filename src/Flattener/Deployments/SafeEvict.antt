-- ===== src/Flattener/Deployments/SafeEvict.antt =====
-- Flattening and expanding a deployment of kube-system, where only the flag of the pods is written.
use cluster_turndown.Prelude.{
  String, ◌≡◌, refl, ap, ◌∙◌, ◌≢◌, inl, inr, true, none, some, arith, str_eq, eq_iff, Bool-cases,
  Option-cases, Entries, GoMap, lookup, lookup-insert, without-insert_absent, get, put, delete,
  get-put, SameMap, get_text_absent, get_text_present, put-put_restores, delete-put_restores,
}
use cluster_turndown.Kube.{Deployment}
use cluster_turndown.Flattener.Deployments.{
  IntStr, cluster_auto_scaler_safe_evict, turn_down_safe_evict_flag, kube_system, set_safe_evict,
  reset_safe_evict, flatten_change, expand_change,
}
use cluster_turndown.Flattener.Deployments.Restore.{Restored}
use cluster_turndown.Patcher.{no_updates}

-- The template of the pods with the flag set.
abbrev marked : Deployment → GoMap String
marked d = put d.template_annotations cluster_auto_scaler_safe_evict "true"

set_safe_evict_unset :
    (d : Deployment)
    → get d.template_annotations cluster_auto_scaler_safe_evict ≡ none
    → set_safe_evict d ≡ (record d { template_annotations = marked d }, true)
unfolding set_safe_evict
set_safe_evict_unset d h =
    rw (get_text_absent d.template_annotations cluster_auto_scaler_safe_evict h)

set_safe_evict_set :
    (d : Deployment) (v : String)
    → get d.template_annotations cluster_auto_scaler_safe_evict ≡ some v
    → v ≢ ""
    → set_safe_evict d ≡ (
      record d {
        template_annotations = marked d;
        annotations = put d.annotations turn_down_safe_evict_flag v;
      },
      true,
    )
unfolding set_safe_evict
set_safe_evict_set d v h full = elim (Bool-cases (str_eq v "")) [
  | inl empty ↦ absurd (full ((eq_iff v "").0 empty))
  | inr filled ↦
      rw (get_text_present d.template_annotations cluster_auto_scaler_safe_evict v h, filled)
]

module _ (d : Deployment) (entries : Entries String) (e : d.annotations ≡ some entries)
    (fresh : lookup turn_down_safe_evict_flag entries ≡ none) where
  reset_unset :
      get d.template_annotations cluster_auto_scaler_safe_evict ≡ none
      → reset_safe_evict (set_safe_evict d).0 ≡ (
        record d { template_annotations = delete (marked d) cluster_auto_scaler_safe_evict },
        true,
      )
  unfolding reset_safe_evict
  reset_unset h = ground (arith, set_safe_evict_unset d h, e, fresh)

  reset_set :
      (v : String)
      → get d.template_annotations cluster_auto_scaler_safe_evict ≡ some v
      → v ≢ ""
      → reset_safe_evict (set_safe_evict d).0 ≡ (
        record d { template_annotations = put (marked d) cluster_auto_scaler_safe_evict v },
        true,
      )
  unfolding reset_safe_evict
  reset_set v h full = ground (
    arith,
    set_safe_evict_set d v h full,
    e,
    eq_iff turn_down_safe_evict_flag turn_down_safe_evict_flag,
    lookup-insert turn_down_safe_evict_flag turn_down_safe_evict_flag v entries,
    without-insert_absent turn_down_safe_evict_flag v entries fresh,
  )

-- In kube-system the flag of the pods is not undone if the deployment had neither annotations nor a
-- flag: expanding sends nothing, and the pods stay marked as safe to evict.
pub expand_misses_safe_evict :
    (intstr : IntStr) (d : Deployment)
    → str_eq d.namespace kube_system ≡ true
    → d.annotations ≡ none
    → get d.template_annotations cluster_auto_scaler_safe_evict ≡ none
    → let flat = (flatten_change intstr d).0 in
      (expand_change intstr flat ≡ (flat, some no_updates))
      × (get flat.template_annotations cluster_auto_scaler_safe_evict ≡ some "true")
unfolding flatten_change expand_change
expand_misses_safe_evict intstr d inside e a = ground (
  arith,
  set_safe_evict_unset d a,
  get-put d.template_annotations cluster_auto_scaler_safe_evict cluster_auto_scaler_safe_evict
      "true",
)

set_safe_evict-namespace : (d : Deployment) → (set_safe_evict d).0.namespace ≡ d.namespace
unfolding set_safe_evict
set_safe_evict-namespace d = ground arith

expand-flatten-eq-reset :
    (intstr : IntStr) (d : Deployment)
    → str_eq d.namespace kube_system ≡ true
    → (expand_change intstr (flatten_change intstr d).0).0
      ≡ (reset_safe_evict (set_safe_evict d).0).0
unfolding flatten_change expand_change
expand-flatten-eq-reset intstr d inside = rw (inside, set_safe_evict-namespace d, inside)

-- A copy with other template annotations, which answer alike, has all that is to come back.
Restored-template :
    (d : Deployment) (m : GoMap String)
    → SameMap m d.template_annotations
    → Restored d (record d { template_annotations = m })
Restored-template d m same = record {
  replicas_back = refl;
  annotations_back = λ k. refl;
  template_back = same;
  name_kept = (refl, refl);
  pod_kept = (refl, refl);
}

-- In kube-system, expanding a flattened deployment that has annotations, but not the program's own,
-- brings back its annotations and the flag of its pods, unless that flag was the empty text.
pub expand-flatten_kube_system :
    (intstr : IntStr) (d : Deployment) (entries : Entries String)
    → str_eq d.namespace kube_system ≡ true
    → d.annotations ≡ some entries
    → lookup turn_down_safe_evict_flag entries ≡ none
    → get d.template_annotations cluster_auto_scaler_safe_evict ≢ some ""
    → Restored d (expand_change intstr (flatten_change intstr d).0).0
expand-flatten_kube_system intstr d entries inside e fresh set =
    rw (expand-flatten-eq-reset intstr d inside)
      (elim (Option-cases (get d.template_annotations cluster_auto_scaler_safe_evict)) [
        | inl h ↦ rw (reset_unset d entries e fresh h) (
            Restored-template d _
              (delete-put_restores d.template_annotations cluster_auto_scaler_safe_evict "true" h))
        | inr (v, h) ↦ rw (reset_set d entries e fresh v h (λ p. set (h ∙ ap some p))) (
            Restored-template d _
              (put-put_restores d.template_annotations cluster_auto_scaler_safe_evict "true" v h))
      ])
