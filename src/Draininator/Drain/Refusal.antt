-- ===== src/Draininator/Drain/Refusal.antt =====
-- pkg/cluster/draininator.go: a drain of a node with a pod that forbids it.
use Prim.Native.String.{◌++◌ as str_append}
use cluster_turndown.Prelude.{
  ℕ, ◌≤◌, ◌<◌, ◌≡◌, refl, Bool, true, ◌&&◌, Option, none, some, List, [], ◌∷◌, ◌++◌, arith,
  if◌then◌else◌, length, length-append, Error, error, ok,
}
use cluster_turndown.Kube.{Node, Client}
use cluster_turndown.Draininator.{
  Pod, PodClient, Draininator, pod_filters, run_filters, select_pods, pods_to_delete, with_error,
  error_lines,
}
use cluster_turndown.Draininator.Drain.{cordon_node, delete_pods_on_node, drain, wrapped}

with_error-length : (o : Option Error) (es : List Error) → length es ≤ length (with_error o es)
with_error-length none es = omega arith
with_error-length (some e) es = omega (arith, length-append es (e ∷ []))

with_error-some :
    (o : Option Error) (es : List Error) (e : Error)
    → o ≡ some e
    → length es < length (with_error o es)
with_error-some none es e h = absurd (cc h)
with_error-some (some e') es e h = omega (arith, length-append es (e' ∷ []))

module _ (p : Pod) where
  run_filters-length :
      (fs : List (Pod → Bool × Option Error)) (b : Bool) (es : List Error)
      → length es ≤ length (run_filters fs p b es).1
  unfolding run_filters
  run_filters-length [] b es = omega arith
  run_filters-length (f ∷ fs) b es = omega (
    arith,
    with_error-length (f p).1 es,
    run_filters-length fs (b && (f p).0) (with_error (f p).1 es),
  )

  -- The error of a filter is counted.
  run_filters-error :
      (before after : List (Pod → Bool × Option Error)) (f : Pod → Bool × Option Error) (b : Bool)
      (es : List Error) (e : Error)
      → (f p).1 ≡ some e
      → length es < length (run_filters (before ++ f ∷ after) p b es).1
  unfolding run_filters
  run_filters-error [] after f b es e failed = omega (
    arith,
    with_error-some (f p).1 es e failed,
    run_filters-length after (b && (f p).0) (with_error (f p).1 es),
  )
  run_filters-error (g ∷ before) after f b es e failed = omega (
    arith,
    with_error-length (g p).1 es,
    run_filters-error before after f (b && (g p).0) (with_error (g p).1 es) e failed,
  )

module _ (fs : List (Pod → Bool × Option Error)) where
  select_pods-length :
      (ps chosen : List Pod) (es : List Error) → length es ≤ length (select_pods fs ps chosen es).1
  unfolding select_pods
  select_pods-length [] chosen es = omega arith
  select_pods-length (p ∷ ps) chosen es = omega (
    arith,
    run_filters-length p fs true es,
    select_pods-length ps (if (run_filters fs p true es).0 then chosen ++ p ∷ [] else chosen)
        (run_filters fs p true es).1,
  )

  select_pods-error :
      (p : Pod) (before after chosen : List Pod) (es : List Error)
      → ((xs : List Error) → length xs < length (run_filters fs p true xs).1)
      → length es < length (select_pods fs (before ++ p ∷ after) chosen es).1
  unfolding select_pods
  select_pods-error p [] after chosen es hit = omega (
    arith,
    hit es,
    select_pods-length after (if (run_filters fs p true es).0 then chosen ++ p ∷ [] else chosen)
        (run_filters fs p true es).1,
  )
  select_pods-error p (q ∷ before) after chosen es hit = omega (
    arith,
    run_filters-length q fs true es,
    select_pods-error p before after
        (if (run_filters fs q true es).0 then chosen ++ q ∷ [] else chosen)
        (run_filters fs q true es).1 hit,
  )

first_error :
    (es : List Error) → 0 < length es → (e : Error) × (rest : List Error) × (es ≡ e ∷ rest)
first_error [] h = absurd (omega (arith, h))
first_error (e ∷ rest) h = (e, rest, refl)

errors_of :
    (all fs gs : List (Pod → Bool × Option Error)) (f : Pod → Bool × Option Error)
    (before after : List Pod) (p : Pod) (e : Error)
    → all ≡ fs ++ f ∷ gs
    → (f p).1 ≡ some e
    → 0 < length (select_pods all (before ++ p ∷ after) [] []).1
errors_of all fs gs f before after p e here failed =
    select_pods-error all p before after [] []
      (λ xs. rw here (run_filters-error p fs gs f true xs e failed))

-- If a filter has an error for some pod of a node that could be cordoned, the drain returns an error with
-- the messages of the filters, and nothing is evicted or deleted: the world is the one that cordoning left.
pub drain-filter_error :
    {W : Type 0} (c : PodClient W) (nodes : Client W Node) (d : Draininator) (is_nil : Bool)
    (schedule : List ℕ) (w : W) (fs gs : List (Pod → Bool × Option Error))
    (f : Pod → Bool × Option Error) (before after : List Pod) (p : Pod) (e : Error)
    → let (refused, w₁) = cordon_node c nodes d w in
      (refused ≡ none)
      → c.list_pods_of_node d.node w₁ ≡ ok (before ++ p ∷ after)
      → pod_filters c d w₁ ≡ fs ++ f ∷ gs
      → (f p).1 ≡ some e
      → (x : Error) × (drain c nodes d is_nil schedule w ≡ (some x, w₁))
unfolding drain delete_pods_on_node pods_to_delete
drain-filter_error c nodes d is_nil schedule w fs gs f before after p e fine listed filters failed =
    let w₁ = (cordon_node c nodes d w).1 in
    let hit = errors_of (pod_filters c d w₁) fs gs f before after p e filters failed in
    let (e₀, rest, is) = first_error _ hit in
    (
      wrapped (str_append "deleting Pods on node '" (str_append d.node "': "))
          (wrapped "retrieving pods to delete: " (error (error_lines (e₀ ∷ rest)))),
      simp (drain, delete_pods_on_node, pods_to_delete, fine, listed, is),
    )
