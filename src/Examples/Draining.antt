-- ===== src/Examples/Draining.antt =====
-- The theorems on drains, at a node with a pod of a deployment, one of a DaemonSet and one that is marked.
use cluster_turndown.Prelude.{
  ℕ, zero, suc, ◌≤◌, ◌<◌, ◌≡◌, refl, true, false, not, Option, none, some, [], ◌∷◌, arith, keep,
  lookup, Reason, Error, ok,
}
use cluster_turndown.Kube.{Node}
use cluster_turndown.Draininator.{
  Pod, PodClient, new_draininator, safe_to_evict_annotation, pods_to_delete, pod_running,
}
use cluster_turndown.Draininator.Selection.{Answers, is_left, pods_to_delete-answered}
use cluster_turndown.Draininator.Evictions.{evict_pods}
use cluster_turndown.Draininator.Evictions.Patience.{IsPatient, Scheduled, evict_pods-patient}

abbrev web_pod : Pod
web_pod = record {
  namespace = "default";
  name = "web-1";
  uid = "u1";
  annotations = none;
  empty_dirs = false ∷ true ∷ [];
  controller = some (record { kind = "ReplicaSet"; name = "web" });
  phase = pod_running;
}

abbrev agent_pod : Pod
agent_pod = record web_pod {
  name = "agent-1";
  controller = some (record { kind = "DaemonSet"; name = "agent" });
}

abbrev marked_pod : Pod
marked_pod = record web_pod {
  name = "db-1";
  annotations = some ((safe_to_evict_annotation, "false") ∷ []);
}

abbrev worker_node : Node
worker_node = record {
  name = "n1";
  labels = none;
  unschedulable = true;
  taints = [];
  provider_id = "aws:///us-east-1a/i-1";
}

abbrev busy_answer : Error
busy_answer = record { message = "too many requests"; reason = Reason.too_many_requests }

abbrev missing_answer : Error
missing_answer = record { message = "not found"; reason = Reason.not_found }

-- The world counts the answers by which an eviction is still put off.
put_off : ℕ → Option Error × ℕ
put_off zero = (none, 0)
put_off (suc n) = (some busy_answer, n)

abbrev busy_client : PodClient ℕ
busy_client = record {
  get_node = λ name w. ok worker_node;
  list_pods_of_node = λ name w. ok (web_pod ∷ agent_pod ∷ marked_pod ∷ []);
  get_daemon_set = λ namespace name w. none;
  server_groups = λ w. ok [];
  server_resources_for = λ version w. ok [];
  delete_pod = λ namespace name seconds w. (none, w);
  evict = λ e w. put_off w;
  get_pod = λ namespace name w. ((none, some missing_answer), w);
}

three_pods : pods_to_delete busy_client (new_draininator "n1" []) 0 ≡ ok (web_pod ∷ [])
unfolding pods_to_delete new_draininator lookup
three_pods = refl

pods_to_delete-answered_example :
    pods_to_delete busy_client (new_draininator "n1" []) 0
    ≡ ok (keep (λ p. not (is_left busy_client 0 [] p)) (web_pod ∷ agent_pod ∷ marked_pod ∷ []))
unfolding Answers
pods_to_delete-answered_example =
    pods_to_delete-answered busy_client 0 "n1" [] (web_pod ∷ agent_pod ∷ marked_pod ∷ []) refl
      (found web_pod, (found agent_pod, (found marked_pod, tt)))
  where
    found : (p : Pod) → Answers busy_client 0 p
    found p owner e owned failed = absurd (cc failed)

put_off-busy : (w : ℕ) (e : Error) → (put_off w).0 ≡ some e → (put_off w).1 < w
unfolding put_off
put_off-busy zero e h = absurd (cc h)
put_off-busy (suc n) e h = omega arith

put_off-less : (w : ℕ) → (put_off w).1 ≤ w
unfolding put_off
put_off-less zero = omega arith
put_off-less (suc n) = omega arith

busy_client-IsPatient : IsPatient busy_client 30 "policy/v1beta1" (λ p w. w)
busy_client-IsPatient = record {
  evict_others = λ q e w. put_off-less w;
  get_others = λ q namespace name w. omega arith;
  evicts = λ p e w many answer. put_off-busy w e answer;
  polls = λ p found w same answer. absurd (gone found answer);
}
  where
    gone :
        (found : Option Pod)
        → ◌≡◌ {A = Option Pod × Option Error} (none, some missing_answer) (found, none)
        → ⊥
    gone found h = cc h

evict_pods-patient_example :
    (evict_pods busy_client
      (new_draininator "n1" [])
      false
      (0 ∷ 0 ∷ 0 ∷ 0 ∷ [])
      (web_pod ∷ [])
      "policy/v1beta1"
      2).0
    ≡ none
unfolding Scheduled new_draininator
evict_pods-patient_example =
    evict_pods-patient busy_client (new_draininator "n1" []) "policy/v1beta1" (λ p w. w)
      busy_client-IsPatient (0 ∷ 0 ∷ 0 ∷ 0 ∷ []) (web_pod ∷ []) 2 (omega arith, tt)
