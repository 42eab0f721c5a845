-- ===== src/Draininator/Selection.antt =====
-- pkg/cluster/draininator.go: the choice of pods, with the options that the program sets.
use cluster_turndown.Prelude.{
  String, ◌≡◌, sym, ap, inl, inr, Bool, true, false, not, ◌&&◌, ◌||◌, none, some, List, [], ◌∷◌,
  ◌++◌, append-nil, append_assoc, arith, str_eq, Bool-cases, Option-cases, keep, All, get, Error,
  is_not_found, ok,
}
use cluster_turndown.Draininator.{
  OwnerReference, Pod, PodClient, Draininator, new_draininator, safe_to_evict_annotation,
  mirror_pod_annotation, mirror_filter, autoscaler_filter, is_ignored_name, ignored_pod_filter,
  local_storage_filter, unreplicated_filter, daemon_set_filter, pod_filters, run_filters,
  select_pods, pods_to_delete,
}

-- The lookup of a DaemonSet works, if only to say that there is none.
unfoldable pub Answers : {W : Type 0} → PodClient W → W → Pod → Type 0
Answers c w p =
    (owner : OwnerReference) (e : Error)
    → p.controller ≡ some owner
    → c.get_daemon_set p.namespace owner.name w ≡ some e
    → is_not_found e ≡ true

unfoldable pub has_daemon_set : {W : Type 0} → PodClient W → W → Pod → Bool
has_daemon_set c w p = elim (p.controller) [
  | none ↦ false
  | some owner ↦
      str_eq owner.kind "DaemonSet"
      && (elim (c.get_daemon_set p.namespace owner.name w) [ none ↦ true | some e ↦ false ])
]

unfoldable pub is_mirror : Pod → Bool
is_mirror p = elim (get p.annotations mirror_pod_annotation) [ none ↦ false | some _ ↦ true ]

unfoldable pub is_kept : Pod → Bool
is_kept p = elim (get p.annotations safe_to_evict_annotation) [
  | none ↦ false
  | some v ↦ str_eq v "false"
]

-- The pods that a drain leaves on its node: those of a DaemonSet that exists, mirrors, those marked as not
-- to be evicted, and those with a name that is ignored.
unfoldable pub is_left : {W : Type 0} → PodClient W → W → List String → Pod → Bool
unfolding has_daemon_set is_mirror is_kept is_ignored_name
is_left c w ignore_pods p =
    has_daemon_set c w p || (is_mirror p || (is_kept p || is_ignored_name ignore_pods p))

module _ {W : Type 0} (c : PodClient W) (w : W) (node : String) (ignore_pods : List String) where
  abbrev fresh : Draininator
  fresh = new_draininator node ignore_pods

  by_daemon_set :
      (p : Pod)
      → Answers c w p
      → daemon_set_filter c (new_draininator node ignore_pods) w p
        ≡ (not (has_daemon_set c w p), none)
  unfolding new_draininator daemon_set_filter has_daemon_set Answers
  by_daemon_set p answers = elim (Option-cases (p.controller)) [
    | inl alone ↦ ground (arith, alone)
    | inr (owner, owned) ↦ elim (Option-cases (c.get_daemon_set p.namespace owner.name w)) [
      | inl there ↦ ground (arith, owned, there)
      | inr (e, failed) ↦ ground (arith, owned, failed, answers owner e owned failed)
    ]
  ]

  by_storage : (p : Pod) → local_storage_filter (new_draininator node ignore_pods) p ≡ (true, none)
  unfolding new_draininator local_storage_filter
  by_storage p = ground arith

  by_controller :
      (p : Pod) → unreplicated_filter (new_draininator node ignore_pods) p ≡ (true, none)
  unfolding new_draininator unreplicated_filter
  by_controller p = ground arith

  by_mirror : (p : Pod) → mirror_filter p ≡ (not (is_mirror p), none)
  unfolding mirror_filter is_mirror
  by_mirror p = ground arith

  by_annotation : (p : Pod) → autoscaler_filter p ≡ (not (is_kept p), none)
  unfolding autoscaler_filter is_kept
  by_annotation p = ground arith

  verdict :
      (p : Pod) (es : List Error)
      → Answers c w p
      → run_filters (pod_filters c (new_draininator node ignore_pods) w) p true es
        ≡ (not (is_left c w ignore_pods p), es)
  unfolding run_filters pod_filters is_left ignored_pod_filter new_draininator
  verdict p es answers =
      simp
        (
          run_filters,
          by_daemon_set p answers,
          by_mirror p,
          by_storage p,
          by_controller p,
          by_annotation p,
        )
        (ground arith)

  chosen_pods :
      (ps chosen : List Pod)
      → All (Answers c w) ps
      → select_pods (pod_filters c (new_draininator node ignore_pods) w) ps chosen []
        ≡ (chosen ++ keep (λ p. not (is_left c w ignore_pods p)) ps, [])
  unfolding select_pods
  chosen_pods [] chosen answers = ap (λ xs. (xs, [])) (sym (append-nil chosen))
  chosen_pods (p ∷ ps) chosen answers = elim (Bool-cases (is_left c w ignore_pods p)) [
    | inl left ↦ simp (verdict p [] answers.0, left, chosen_pods ps chosen answers.1)
    | inr sent ↦
        simp
          (verdict p [] answers.0, sent, chosen_pods ps (chosen ++ p ∷ []) answers.1, append_assoc)
  ]

  -- With the options that the program sets, a drain whose lookups are answered takes exactly the pods of
  -- the node that are not left there, in order, and never fails.
  pub pods_to_delete-answered :
      (pods : List Pod)
      → c.list_pods_of_node node w ≡ ok pods
      → All (Answers c w) pods
      → pods_to_delete c (new_draininator node ignore_pods) w
        ≡ ok (keep (λ p. not (is_left c w ignore_pods p)) pods)
  unfolding pods_to_delete new_draininator
  pods_to_delete-answered pods listed answers =
      simp (pods_to_delete, listed, chosen_pods pods [] answers)
