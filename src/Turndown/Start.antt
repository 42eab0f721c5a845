-- ===== src/Turndown/Start.antt =====
-- cmd/turndown/main.go: how the program starts. The clients that are built, the service of the cloud and the
-- provider of the cluster are parameters; what runs at last, the controller and the endpoints, is named only.
pub mod Serving
use Prim.Native.String.{◌++◌ as str_append}
use cluster_turndown.Prelude.{
  String, ◌⊎◌, inl, inr, Bool, false, none, some, List, if◌then◌else◌, Error, error, Result, ok,
  err, ◌>>=◌,
}
use cluster_turndown.Kube.{Node}
use cluster_turndown.Pools.{NodePool}
use cluster_turndown.Pools.Choice.{
  ProviderKind, new_cluster_provider, new_turndown_provider, validate, gke_kind, eks_kind, aws_kind,
}

-- What the start calls of client-go and of the operating system.
pub record StartCalls (K C : Type 0) : Type 1 where
  pub Config : Type 0
  pub user_home_dir : Result String
  pub build_config_from_flags : String → Result Config
  pub in_cluster_config : Result Config
  pub new_kube_client : Config → Result K
  pub new_client : Config → Result C

-- `filepath.Join(home, ".kube", "config")`
abbrev config_file : String → String
config_file home = str_append home "/.kube/config"

unfoldable pub init_kubernetes : {K C : Type 0} → StartCalls K C → Bool → Result (K × C)
init_kubernetes {K} {C} calls is_local =
    let config : Result calls.Config =
      if is_local
      then calls.user_home_dir >>= (λ home. calls.build_config_from_flags (config_file home))
      else calls.in_cluster_config in
    config
    >>= (λ kc. calls.new_kube_client kc >>= (λ kube. calls.new_client kc >>= (λ c. ok (kube, c))))

pub data StrategyKind : Type 0 where
  masterless standard : StrategyKind

-- A provider is one of the three, or another, which is printed as a text.
unfoldable pub strategy_for_provider : ProviderKind ⊎ String → Result StrategyKind
strategy_for_provider (inl gke_kind) = ok masterless
strategy_for_provider (inl eks_kind) = ok masterless
strategy_for_provider (inl aws_kind) = ok standard
strategy_for_provider (inr v) = err (error (str_append "No strategy available for: " v))

-- A start ends with the program killed, with a return, or with the controller and the endpoints at work.
pub data Outcome : Type 0 where
  killed stopped : Error → Outcome
  serving : ProviderKind → StrategyKind → Outcome

module _ {K C P W : Type 0} (calls : StartCalls K C) (list_nodes : K → W → Result (List Node))
    (on_gce : Bool) (make : ProviderKind → W → Result P)
    (get_node_pools : P → W → Result (List NodePool)) (wait : W → W) where
  -- From the validation on.
  unfoldable pub start_validated : ProviderKind → P → W → Outcome × W
  unfolding validate strategy_for_provider
  start_validated kind provider w =
      let (failed, w') = validate (get_node_pools provider) wait 5 w in
      elim failed [
        | some e ↦ (stopped e, w')
        | none ↦ elim (strategy_for_provider (inl kind)) [
          | err e ↦ (stopped e, w')
          | ok strategy ↦ (serving kind strategy, w')
        ]
      ]

  unfoldable pub main : W → Outcome × W
  unfolding init_kubernetes start_validated new_cluster_provider new_turndown_provider
  main w = elim (init_kubernetes calls false) [
    | err e ↦ (killed e, w)
    | ok (kube, client) ↦ elim (new_cluster_provider (some (list_nodes kube)) on_gce make w) [
      | err e ↦ (stopped e, w)
      | ok cluster ↦ elim (new_turndown_provider (some (list_nodes kube)) on_gce (some cluster) w) [
        | err e ↦ (stopped e, w)
        | ok (kind, provider) ↦ start_validated kind provider w
      ]
    ]
  ]
