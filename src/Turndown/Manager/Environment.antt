-- ===== src/Turndown/Manager/Environment.antt =====
-- pkg/turndown/turndown.go: moving the turndown pod to a node of its own, and back. `getenv` reads the
-- environment; the strategy is a parameter.
use cluster_turndown.Prelude.{
  String, Bool, false, not, Option, none, some, List, [], ◌∷◌, ◌++◌, str_eq, if◌then◌else◌, Error,
  Result, ok, err,
}
use cluster_turndown.Kube.{Deployment, Node, Client}
use cluster_turndown.Pools.Resize.{turndown_node_label}
use cluster_turndown.Patcher.{patch_deployment}

-- The interface `TurndownStrategy`. `none` is a panic.
pub record TurndownStrategy (W : Type 0) : Type 0 where
  pub taint_key : String
  pub is_reversible : Bool
  pub create_or_get_host_node : W → Option (Result Node × W)
  pub update_dns : W → Option Error × W
  pub reverse_host_node : W → Option Error × W

-- The environment that the manager runs in. The nodes are those with the label of the turndown node.
pub record Surroundings (W : Type 0) : Type 0 where
  pub getenv : String → String
  pub list_turndown_nodes : W → Result (List Node)
  pub get_deployment : String → String → W → Result Deployment

or_default : String → String → String
or_default value fallback = if str_eq value "" then fallback else value

unfoldable pub prepare_change : String → Deployment → Deployment × Option Error
prepare_change taint_key d = (
  record d {
    tolerations =
        d.tolerations
        ++ record { key = taint_key; operator = "Exists"; effect = "NoSchedule" } ∷ [];
    node_selector = some ((turndown_node_label, "true") ∷ []);
  },
  none,
)

unfoldable pub reset_change : Deployment → Deployment × Option Error
reset_change d = (record d { tolerations = []; node_selector = some [] }, none)

abbrev pub error_of : {A W : Type 0} → Result A × W → Option Error × W
error_of (ok a, w) = (none, w)
error_of (err e, w) = (some e, w)

module _ {W : Type 0} (deployments : Client W Deployment) (s : Surroundings W)
    (strategy : TurndownStrategy W) where
  unfoldable pub is_running_on_turndown_node : String → W → Bool × Option Error
  is_running_on_turndown_node current w = elim (s.list_turndown_nodes w) [
    | err e ↦ (false, some e)
    | ok [] ↦ (false, none)
    | ok (n ∷ ns) ↦ (str_eq n.name current, none)
  ]

  unfoldable pub turndown_namespace : String
  unfolding or_default
  turndown_namespace = or_default (s.getenv "TURNDOWN_NAMESPACE") "turndown"

  unfoldable pub turndown_deployment : String
  unfolding or_default
  turndown_deployment = or_default (s.getenv "TURNDOWN_DEPLOYMENT") "cluster-turndown"

  unfoldable pub patch_turndown : (Deployment → Deployment × Option Error) → W → Option Error × W
  unfolding turndown_namespace turndown_deployment patch_deployment
  patch_turndown change w = elim (s.get_deployment turndown_namespace turndown_deployment w) [
    | err e ↦ (some e, w)
    | ok d ↦ error_of (patch_deployment deployments d change w)
  ]

  unfoldable pub prepare_turndown_environment : W → Option (Option Error × W)
  unfolding patch_turndown prepare_change
  prepare_turndown_environment w = elim (strategy.create_or_get_host_node w) [
    | none ↦ none
    | some (err e, w₁) ↦ some (some e, w₁)
    | some (ok host, w₁) ↦
        let (failed, w₂) = strategy.update_dns w₁ in
        elim failed [
          | some e ↦ some (some e, w₂)
          | none ↦ some (patch_turndown (prepare_change strategy.taint_key) w₂)
        ]
  ]

  unfoldable pub reset_turndown_environment : W → Option Error × W
  unfolding patch_turndown reset_change
  reset_turndown_environment w =
      if not strategy.is_reversible
      then (none, w)
      else (let (failed, w₁) = strategy.reverse_host_node w in
          elim failed [ some e ↦ (some e, w₁) | none ↦ patch_turndown reset_change w₁ ])
