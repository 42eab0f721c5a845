-- ===== src/Turndown/Start/Serving.antt =====
-- cmd/turndown/main.go: what holds once the program serves.
use cluster_turndown.Prelude.{
  ℕ, zero, suc, ◌≡◌, sym, ap, ◌∙◌, subst, inl, inr, Bool, false, none, List, [], ◌∷◌, arith, ◌==◌,
  if◌then◌else◌, Option-cases, Result, ok, Result-cases,
}
use cluster_turndown.Kube.{Node}
use cluster_turndown.Pools.{NodePool}
use cluster_turndown.Pools.Choice.{
  ProviderKind, kind_of_nodes, new_cluster_provider, new_turndown_provider, validate,
}
use cluster_turndown.Turndown.Start.{
  StartCalls, StrategyKind, strategy_for_provider, start_validated, serving, main, init_kubernetes,
}

-- A validation without an error ends in a world in which there is a pool.
validate-shown :
    {W : Type 0} (get_node_pools : W → Result (List NodePool)) (wait : W → W) (retries : ℕ) (w : W)
    → (validate get_node_pools wait retries w).0 ≡ none
    → (np : NodePool) × (nps : List NodePool) × (get_node_pools
          (validate get_node_pools wait retries w).1
        ≡ ok (np ∷ nps))
unfolding validate
validate-shown get_node_pools wait zero w h = ground (arith, h)
validate-shown get_node_pools wait (suc retries) w h = elim (Result-cases (get_node_pools w)) [
  | inl ([], e) ↦
      rw (validate, e)
        (validate-shown get_node_pools wait retries (if retries == 0 then w else wait w)
          (rw (validate, e) at h))
  | inl (np ∷ nps, e) ↦ rw (validate, e) (np, nps, e)
  | inr (x, e) ↦
      rw (validate, e)
        (validate-shown get_node_pools wait retries (if retries == 0 then w else wait w)
          (rw (validate, e) at h))
]

module _ {K C P W : Type 0} (calls : StartCalls K C) (list_nodes : K → W → Result (List Node))
    (on_gce : Bool) (make : ProviderKind → W → Result P)
    (get_node_pools : P → W → Result (List NodePool)) (wait : W → W) where
  started :
      (kind picked : ProviderKind) (strategy : StrategyKind) (provider : P) (w w' : W)
      → start_validated calls list_nodes on_gce make get_node_pools wait picked provider w
        ≡ (serving kind strategy, w')
      → (np : NodePool) × (nps : List NodePool) × (kind ≡ picked)
        × (strategy_for_provider (inl picked) ≡ ok strategy)
        × (get_node_pools provider w' ≡ ok (np ∷ nps))
  unfolding start_validated
  started kind picked strategy provider w w' h =
      elim (Option-cases (validate (get_node_pools provider) wait 5 w).0) [
        | inr (e, f) ↦ ground (arith, h, f)
        | inl f ↦ elim (Result-cases (strategy_for_provider (inl picked))) [
          | inr (x, t) ↦ ground (arith, h, f, t)
          | inl (chosen, t) ↦
              let (np, nps, shown) = validate-shown (get_node_pools provider) wait 5 w f in
              let there : (validate (get_node_pools provider) wait 5 w).1 ≡ w' =
                ground (arith, h, f, t) in
              let own : chosen ≡ strategy = ground (arith, h, f, t) in
              (
                np,
                nps,
                ground (arith, h, f, t),
                t ∙ ap ok own,
                subst (λ x. get_node_pools provider x ≡ ok (np ∷ nps)) there shown,
              )
        ]
      ]

  -- Once the program serves, its clients were made, the first node says which provider it is of, by which the
  -- strategy was picked, and the provider has shown a pool of nodes in one of five validations.
  pub main-serving :
      (kind : ProviderKind) (strategy : StrategyKind) (w w' : W)
      → main calls list_nodes on_gce make get_node_pools wait w ≡ (serving kind strategy, w')
      → (kube : K) × (client : C) × (nodes : List Node) × (provider : P) × (np : NodePool)
        × (nps : List NodePool) × (init_kubernetes calls false ≡ ok (kube, client))
        × (list_nodes kube w ≡ ok nodes)
        × (kind_of_nodes on_gce nodes ≡ ok kind)
        × (make kind w ≡ ok provider)
        × (strategy_for_provider (inl kind) ≡ ok strategy)
        × (get_node_pools provider w' ≡ ok (np ∷ nps))
  unfolding main new_cluster_provider new_turndown_provider
  main-serving kind strategy w w' h = elim (Result-cases (init_kubernetes calls false)) [
    | inr (x, e) ↦ ground (arith, h, e)
    | inl ((kube, client), e) ↦ elim (Result-cases (list_nodes kube w)) [
      | inr (x, f) ↦ ground (arith, h, e, f)
      | inl (nodes, f) ↦ elim (Result-cases (kind_of_nodes on_gce nodes)) [
        | inr (x, g) ↦ ground (arith, h, e, f, g)
        | inl (picked, g) ↦ elim (Result-cases (make picked w)) [
          | inr (x, k) ↦ ground (arith, h, e, f, g, k)
          | inl (provider, k) ↦
              let validated : start_validated calls list_nodes on_gce make get_node_pools wait
                    picked provider w
                  ≡ (serving kind strategy, w') =
                ground (arith, h, e, f, g, k) in
              let (np, nps, same, chosen, shown) =
                started kind picked strategy provider w w' validated in
              (
                kube,
                client,
                nodes,
                provider,
                np,
                nps,
                e,
                f,
                g ∙ ap ok (sym same),
                ap (λ q. make q w) same ∙ k,
                ap (λ q. strategy_for_provider (inl q)) same ∙ chosen,
                shown,
              )
        ]
      ]
    ]
  ]
