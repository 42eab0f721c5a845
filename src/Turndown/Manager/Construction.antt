-- ===== src/Turndown/Manager/Construction.antt =====
-- pkg/turndown/turndown.go: a new manager, and the deployments that its flattener leaves alone. The
-- environment variable `TURNDOWN_DEPLOYMENT` is an argument.
use cluster_turndown.Prelude.{
  String, ◌≡◌, refl, true, none, List, [], ◌∷◌, ◌++◌, arith, str_eq, eq_iff, if◌then◌else◌,
}
use cluster_turndown.Kube.{Deployment}
use cluster_turndown.Flattener.{Flattener, is_omitted, names_omitted}
use cluster_turndown.Flattener.Cluster.{flattened, expanded}
use cluster_turndown.Turndown.Manager.{KubernetesTurndownManager}

unfoldable pub new_kubernetes_turndown_manager :
    {W : Type 0} → String → W → KubernetesTurndownManager W
new_kubernetes_turndown_manager current w = record {
  current_node = current;
  node_pools = [];
  auto_scaling = none;
  world = w;
}

abbrev pub kubecost_flattener_omit : List String
kubecost_flattener_omit = "kube-dns" ∷ "kube-dns-autoscaler" ∷ []

abbrev pub own_deployment : String → String
own_deployment variable = if str_eq variable "" then "cluster-turndown" else variable

unfoldable pub get_deployment_blacklist : String → List String
get_deployment_blacklist variable = kubecost_flattener_omit ++ own_deployment variable ∷ []

own-is_omitted :
    {W : Type 0} (f : Flattener W) (variable : String) (d : Deployment)
    → f.omit_deployments ≡ get_deployment_blacklist variable
    → d.name ≡ own_deployment variable
    → is_omitted f d ≡ true
unfolding is_omitted names_omitted get_deployment_blacklist
own-is_omitted f variable d omits own =
    rw (is_omitted, omits, own)
      (ground (arith, (eq_iff (own_deployment variable) (own_deployment variable)).1 refl))

-- Neither flattening nor expanding changes the deployment of the program, by the name that the environment
-- gives or by default, if the flattener has the list that the manager makes.
pub flattened-own :
    {W : Type 0} (f : Flattener W) (variable : String) (d : Deployment)
    → f.omit_deployments ≡ get_deployment_blacklist variable
    → d.name ≡ own_deployment variable
    → (flattened f d ≡ d) × (expanded f d ≡ d)
unfolding flattened expanded
flattened-own f variable d omits own =
    let omitted = own-is_omitted f variable d omits own in
    (rw (flattened, omitted) refl, rw (expanded, omitted) refl)
