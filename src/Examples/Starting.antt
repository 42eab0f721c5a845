-- ===== src/Examples/Starting.antt =====
-- The theorems on the work queue, on channels that wait and on the start, at small inputs.
use cluster_turndown.Prelude.{
  ℕ, suc, String, ◌≡◌, refl, ◌≢◌, inl, Bool, true, false, none, some, List, [], ◌∷◌, ◌++◌, arith,
  ◌==◌, if◌then◌else◌, pos, lookup, error, Result, ok, err,
}
use cluster_turndown.Strconv.{to_lower}
use cluster_turndown.Kube.{Node}
use cluster_turndown.Pools.{NodePool}
use cluster_turndown.Pools.Choice.{ProviderKind, aws_kind, kind_of_nodes}
use cluster_turndown.Turndown.Controller.{ResourceClient, handle}
use cluster_turndown.Turndown.Controller.Worker.{
  WorkQueue, removed, KeyFuncs, ControllerState, on_change, run_worker,
}
use cluster_turndown.Turndown.Controller.Worker.Retries.{
  IsWorkQueue, after_handling, run_worker-on_change,
}
use cluster_turndown.Turndown.Start.{
  StartCalls, standard, main, init_kubernetes, strategy_for_provider,
}
use cluster_turndown.Turndown.Start.Serving.{main-serving}
use cluster_turndown.Tasks.WaitChannel.{
  call_turn, close_turn, done_turn, returned, add, new_wait_channel, run_turns, entering,
}
use cluster_turndown.Tasks.WaitChannel.Once.{IsSafe, one_call, run_turns-one_call}
use cluster_turndown.Examples.Groups.{workers}
use cluster_turndown.Examples.Hosting.{spare}
use cluster_turndown.Examples.Planner.{parts, empty_scheduler}
use cluster_turndown.Examples.Scheduling.{resource}

-- A queue that is the list of its keys.
abbrev list_queue : WorkQueue (List String)
list_queue = record {
  Item = String;
  of_key = λ key. key;
  key_of = λ key. some key;
  get = λ q. elim q [ [] ↦ (none, []) | key ∷ keys ↦ (some key, keys) ];
  add = λ key q. q ++ key ∷ [];
  add_rate_limited = λ key q. q ++ key ∷ [];
  forget = λ key q. q;
  done = λ key q. q;
  shut_down = λ q. q;
}

taken_first :
    (q : List String) (key : String) (keys : List String)
    → q ≡ key ∷ keys
    → ((list_queue.get q).0 ≡ some key) × ((list_queue.get q).1 ≡ keys)
taken_first q key keys at = rw at (refl, refl)

list_queue-IsWorkQueue : IsWorkQueue list_queue (λ q. q)
list_queue-IsWorkQueue = record {
  key_of-of_key = λ key. refl;
  gets = taken_first;
  adds = λ q key fresh. refl;
  puts_back = λ q key fresh. refl;
  forgets = λ q key. refl;
}

-- A resource that is being deleted and was never taken up; the first update of it meets a conflict.
abbrev conflicting : ResourceClient (List String)
conflicting = record {
  split_key = λ key. ok key;
  lister_get = λ name w.
      ok (record resource { is_deleted = true; status = record resource.status { state = "" } });
  schedules = record { list = λ w. ok []; update_status = λ td w. (ok td, w); now = λ w. pos 0 };
  update = λ td w. elim w [
    | [] ↦ (err (error "conflict"), "conflict" ∷ [])
    | c ∷ cs ↦ (ok td, "update" ∷ c ∷ cs)
  ];
  delete = λ name w. w;
}

abbrev names : KeyFuncs String
names = record {
  meta_namespace_key_func = λ name. ok name;
  deletion_handling_meta_namespace_key_func = λ name. ok name;
}

abbrev idle : ControllerState (List String) (List String)
idle = record { workqueue = []; scheduler = empty_scheduler }

fails : (handle parts conflicting (pos 1) "nightly" empty_scheduler).0 ≢ none
unfolding handle
fails e = cc e

run_worker-on_change_example :
    let changed = record idle { workqueue = on_change list_queue names (removed "nightly") [] } in
    let s' = run_worker list_queue parts conflicting (pos 1 ∷ pos 2 ∷ []) changed in
    (s'.scheduler ≡ after_handling parts conflicting "nightly" (pos 1 ∷ pos 2 ∷ []) empty_scheduler)
    × (s'.workqueue ≡ [])
unfolding handle
run_worker-on_change_example =
    run_worker-on_change list_queue (λ q. q) list_queue-IsWorkQueue names parts conflicting
      (pos 1 ∷ []) (pos 2) (removed "nightly") idle "nightly" refl refl (fails, tt) refl

-- One task and one call, whose goroutine is through before the call returns: nil is returned.
nil_returned :
    (run_turns
      (call_turn 0
        ∷ call_turn 0
        ∷ call_turn 0
        ∷ done_turn
        ∷ close_turn 0
        ∷ close_turn 0
        ∷ close_turn 0
        ∷ close_turn 0
        ∷ call_turn 0
        ∷ [])
      (one_call 1)).callers
    ≡ returned none ∷ []
unfolding run_turns add new_wait_channel
nil_returned = refl

-- Two calls: the goroutine of the first resets the channel after the second has made its own, whose goroutine
-- then closes nil.
nil_closed :
    (run_turns
      (call_turn 0
        ∷ call_turn 0
        ∷ call_turn 0
        ∷ close_turn 0
        ∷ close_turn 0
        ∷ close_turn 0
        ∷ call_turn 1
        ∷ call_turn 1
        ∷ call_turn 1
        ∷ close_turn 0
        ∷ close_turn 1
        ∷ close_turn 1
        ∷ close_turn 1
        ∷ close_turn 1
        ∷ close_turn 1
        ∷ [])
      (record (one_call 0) { callers = entering ∷ entering ∷ [] })).shared.panicked
    ≡ true
unfolding run_turns add new_wait_channel
nil_closed = refl

run_turns-one_call_example :
    IsSafe
      (run_turns
        (call_turn 0 ∷ done_turn ∷ call_turn 0 ∷ call_turn 0 ∷ close_turn 0 ∷ [])
        (one_call 1)).shared
run_turns-one_call_example =
    run_turns-one_call 1 (call_turn 0 ∷ done_turn ∷ call_turn 0 ∷ call_turn 0 ∷ close_turn 0 ∷ [])
      (omega arith)

-- Calls that make clients of one value, and a cluster of one node that is shown a pool at the second time.
abbrev calls : StartCalls Bool Bool
calls = record {
  Config = Bool;
  user_home_dir = err (error "no home");
  build_config_from_flags = λ file. err (error "no file");
  in_cluster_config = ok true;
  new_kube_client = λ config. ok config;
  new_client = λ config. ok config;
}

abbrev first_node : Node
first_node = record spare { provider_id = "aws:///us-east-2a/i-1"; labels = some [] }

abbrev nodes_of : Bool → ℕ → Result (List Node)
nodes_of kube w = ok (first_node ∷ [])

abbrev made : ProviderKind → ℕ → Result Bool
made kind w = ok true

abbrev shown : Bool → ℕ → Result (List NodePool)
shown provider w = if w == 0 then ok [] else ok (workers ∷ [])

main-serving_example :
    (kube : Bool) × (client : Bool) × (nodes : List Node) × (provider : Bool) × (np : NodePool)
    × (nps : List NodePool) × (init_kubernetes calls false ≡ ok (kube, client))
    × (nodes_of kube 0 ≡ ok nodes)
    × (kind_of_nodes false nodes ≡ ok aws_kind)
    × (made aws_kind 0 ≡ ok provider)
    × (strategy_for_provider (inl aws_kind) ≡ ok standard)
    × (shown provider 1 ≡ ok (np ∷ nps))
unfolding main kind_of_nodes to_lower lookup
main-serving_example =
    main-serving calls nodes_of false made shown (λ w. suc w) aws_kind standard 0 1 refl
