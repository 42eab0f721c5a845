-- ===== src/Flattener/DaemonSets/Restore.antt =====
-- Expanding a daemon set that was flattened.
use cluster_turndown.Prelude.{
  String, ◌≡◌, refl, ap, ◌∙◌, ◌≢◌, inl, inr, none, some, arith, eq_iff, Option-cases, Entries,
  lookup, lookup-insert, without-insert_absent, get, put, delete, SameMap, get_text_absent,
  get_text_present, put-put_restores, delete-put_restores,
}
use cluster_turndown.Kube.{DaemonSet}
use cluster_turndown.Flattener.Deployments.{
  cluster_auto_scaler_safe_evict, turn_down_safe_evict_flag,
}
use cluster_turndown.Flattener.DaemonSets.{flatten_daemon_set_change, expand_daemon_set_change}

reset_unset :
    (d : DaemonSet) (entries : Entries String)
    → d.annotations ≡ some entries
    → lookup turn_down_safe_evict_flag entries ≡ none
    → get d.template_annotations cluster_auto_scaler_safe_evict ≡ none
    → (expand_daemon_set_change (flatten_daemon_set_change d).0).0 ≡ record d {
      template_annotations =
          delete
            (put d.template_annotations cluster_auto_scaler_safe_evict "true")
            cluster_auto_scaler_safe_evict;
    }
unfolding expand_daemon_set_change flatten_daemon_set_change
reset_unset d entries e fresh h =
    rw (get_text_absent d.template_annotations cluster_auto_scaler_safe_evict h)
      (ground (arith, e, fresh))

reset_set :
    (d : DaemonSet) (entries : Entries String)
    → d.annotations ≡ some entries
    → lookup turn_down_safe_evict_flag entries ≡ none
    → (v : String) → get d.template_annotations cluster_auto_scaler_safe_evict ≡ some v
    → v ≢ ""
    → (expand_daemon_set_change (flatten_daemon_set_change d).0).0 ≡ record d {
      template_annotations =
          put
            (put d.template_annotations cluster_auto_scaler_safe_evict "true")
            cluster_auto_scaler_safe_evict
            v;
    }
unfolding expand_daemon_set_change flatten_daemon_set_change
reset_set d entries e fresh v h full = ground (
  arith,
  e,
  fresh,
  full,
  get_text_present d.template_annotations cluster_auto_scaler_safe_evict v h,
  eq_iff v "",
  lookup-insert turn_down_safe_evict_flag turn_down_safe_evict_flag v entries,
  without-insert_absent turn_down_safe_evict_flag v entries fresh,
)

-- A daemon set that has annotations, but not the program's own, is the same after it was flattened and
-- expanded: its annotations are equal, and those of its pods answer every lookup alike, unless the
-- flag of its pods was the empty text.
pub expand-flatten_daemon_set :
    (d : DaemonSet) (entries : Entries String)
    → d.annotations ≡ some entries
    → lookup turn_down_safe_evict_flag entries ≡ none
    → get d.template_annotations cluster_auto_scaler_safe_evict ≢ some ""
    → let e = (expand_daemon_set_change (flatten_daemon_set_change d).0).0 in
      (e.annotations ≡ d.annotations)
      × SameMap e.template_annotations d.template_annotations
      × (e.name ≡ d.name)
      × (e.namespace ≡ d.namespace)
unfolding expand_daemon_set_change flatten_daemon_set_change
expand-flatten_daemon_set d entries e fresh set =
    elim (Option-cases (get d.template_annotations cluster_auto_scaler_safe_evict)) [
      | inl h ↦ rw (reset_unset d entries e fresh h) (
        refl,
        delete-put_restores d.template_annotations cluster_auto_scaler_safe_evict "true" h,
        refl,
        refl,
      )
      | inr (v, h) ↦ rw (reset_set d entries e fresh v h (λ p. set (h ∙ ap some p))) (
        refl,
        put-put_restores d.template_annotations cluster_auto_scaler_safe_evict "true" v h,
        refl,
        refl,
      )
    ]
