-- ===== src/Flattener/Deployments/Repeat.antt =====
-- What a second flattening does, and what a first one loses.
use cluster_turndown.Prelude.{◌≡◌, false, none, some, arith, str_eq}
use cluster_turndown.Kube.{Deployment, IntOrString, RollingUpdate}
use cluster_turndown.Flattener.Deployments.{IntStr, kube_system, flatten_change}
use cluster_turndown.Patcher.{no_updates}

-- A deployment outside of kube-system that has no rolling update is flattened once: doing it again
-- changes nothing and sends nothing, so that the recorded number of replicas is not overwritten.
pub flatten_again :
    (intstr : IntStr) (d : Deployment)
    → str_eq d.namespace kube_system ≡ false
    → d.rolling_update ≡ none
    → let once = (flatten_change intstr d).0 in flatten_change intstr once ≡ (once, some no_updates)
unfolding flatten_change
flatten_again intstr d outside e = ground arith

-- The value of `maxUnavailable` is lost: two deployments that differ in the type and the integer of it
-- are the same once they are flattened, so that no way to expand them tells them apart.
pub flatten_forgets_max_unavailable :
    (intstr : IntStr) (d : Deployment) (r : RollingUpdate) (v w : IntOrString)
    → str_eq d.namespace kube_system ≡ false
    → v.str_val ≡ w.str_val
    → (flatten_change intstr
        (record d { rolling_update = some (record r { max_unavailable = some v }) })).0
      ≡ (flatten_change intstr
          (record d { rolling_update = some (record r { max_unavailable = some w }) })).0
unfolding flatten_change
flatten_forgets_max_unavailable intstr d r v w outside e = ground arith
