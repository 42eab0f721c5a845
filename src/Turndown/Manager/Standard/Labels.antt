-- ===== src/Turndown/Manager/Standard/Labels.antt =====
-- The label of the master node, put on and taken off.
use cluster_turndown.Prelude.{
  String, ◌≡◌, refl, sym, ap, ◌∙◌, inl, inr, Bool, true, false, none, some, List, [], ◌∷◌, ◌++◌,
  arith, keep, All, get, get-put, ok, Result-cases,
}
use cluster_turndown.Kube.{Node, node_names, deployment_names}
use cluster_turndown.Kube.Stored.{Serves, Absent}
use cluster_turndown.Patcher.{patch_deployment, update_node_label}
use cluster_turndown.Patcher.Keeps.{Keeps, patch_object-Keeps}
use cluster_turndown.Patcher.Labels.{
  labelled, unlabelled-labelled, update_node_label-objects, delete_node_label-objects,
}
use cluster_turndown.Pools.Resize.{turndown_node_label}
use cluster_turndown.Turndown.Manager.Standard.{
  master_node_label_key, StandardCluster, disallow_master, master_node, label_master, reverse_dns,
  reverse_host_node,
}

abbrev pub has_key : String → Node → Bool
has_key k n = elim (get n.labels k) [ none ↦ false | some v ↦ true ]

-- A cluster whose nodes are served and listed by the label of masters, and stay where deployments are
-- patched and pods deleted.
pub record IsServed {W : Type 0} (c : StandardCluster W) (objects : W → List Node) : Type 0 where
  pub nodes : Serves c.nodes node_names objects
  pub lists :
      (w : W)
      → c.list_by master_node_label_key w ≡ ok (keep (has_key master_node_label_key) (objects w))
  pub deployments : Keeps objects c.deployments
  pub deletes : (ns selector : String) (w : W) → objects (c.delete_pods ns selector w) ≡ objects w

-- A node without the label of masters.
abbrev pub IsWorker : Node → Type 0
IsWorker n = get n.labels master_node_label_key ≡ none

module _ {W : Type 0} (c : StandardCluster W) (objects : W → List Node)
    (served : IsServed c objects) where
  keep-master :
      (pre post : List Node) (n : Node) (v : String)
      → All IsWorker pre
      → get n.labels master_node_label_key ≡ some v
      → keep (has_key master_node_label_key) (pre ++ n ∷ post)
        ≡ n ∷ keep (has_key master_node_label_key) post
  keep-master [] post n v workers has = ground (arith, has)
  keep-master (m ∷ pre) post n v (worker, workers) has =
      ground (arith, worker, keep-master pre post n v workers has)

  master_node-first :
      (w : W) (pre post : List Node) (n : Node) (v : String)
      → objects w ≡ pre ++ n ∷ post
      → All IsWorker pre
      → get n.labels master_node_label_key ≡ some v
      → master_node c w ≡ ok n
  unfolding master_node
  master_node-first w pre post n v here workers has =
      simp (master_node, served.lists w, here, keep-master pre post n v workers has)

  reverse_dns-objects : (w : W) → objects (reverse_dns c w).1 ≡ objects w
  unfolding reverse_dns patch_deployment
  reverse_dns-objects w = elim (Result-cases (c.get_deployment "kube-system" "kube-dns" w)) [
    | inr (e, missing) ↦ rw (missing, reverse_dns) refl
    | inl (dns, found) ↦
        rw (found, reverse_dns)
          (served.deletes _ _ _
            ∙ patch_object-Keeps objects c.deployments deployment_names served.deployments dns
                disallow_master w)
  ]

  -- In a cluster that serves its nodes, lists its masters by their label and leaves its nodes alone
  -- where deployments are patched and pods deleted: if the first master is stored under a name that no
  -- node before it has, and has not the label of the turndown node, `CreateOrGetHostNode` returns that
  -- node with the label and stores it so, and `ReverseHostNode` then leaves the nodes as they were,
  -- whatever becomes of kube-dns.
  pub reverse_host_node-label_master :
      (w : W) (pre post : List Node) (n : Node) (v : String)
      → objects w ≡ pre ++ n ∷ post
      → Absent node_names n pre
      → All IsWorker pre
      → get n.labels master_node_label_key ≡ some v
      → get n.labels turndown_node_label ≡ none
      → let (answer, w₁) = label_master c w in
        let host = labelled turndown_node_label "true" n in
        (answer ≡ ok host)
        × (objects w₁ ≡ pre ++ host ∷ post)
        × (objects (reverse_host_node c w₁).1 ≡ objects w)
  unfolding label_master reverse_host_node
  reverse_host_node-label_master w pre post n v here absent workers has lacks =
      let host = labelled turndown_node_label "true" n in
      let labels =
        update_node_label-objects n _ v turndown_node_label has served.nodes w pre post here absent
          "true" in
      let w₁ = (update_node_label c.nodes n turndown_node_label "true" w).1 in
      let still : get host.labels master_node_label_key ≡ some v =
        get-put n.labels turndown_node_label master_node_label_key "true" ∙ has in
      let back =
        delete_node_label-objects host _ v turndown_node_label still served.nodes w₁ pre post
          labels.1 absent in
      simp (label_master, master_node-first w pre post n v here workers has)
        (
          labels.0,
          labels.1,
          simp (reverse_host_node, master_node-first w₁ pre post host v labels.1 workers still)
              (reverse_dns-objects _
                ∙ back
                ∙ ap (λ m. pre ++ m ∷ post)
                    (unlabelled-labelled n _ v turndown_node_label has "true" lacks)
                ∙ sym here),
        )
