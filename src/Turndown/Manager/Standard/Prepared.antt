-- ===== src/Turndown/Manager/Standard/Prepared.antt =====
-- The deployments of kube-dns and of the turndown pod, while the environment is prepared on a master node and reset.
use cluster_turndown.Prelude.{
  String, ◌≡◌, refl, sym, ap, ◌∙◌, subst, Option, none, some, List, [], ◌∷◌, ◌++◌, append_assoc,
  All, Error, Result, ok, err,
}
use cluster_turndown.Kube.{Node, Deployment, node_names, deployment_names}
use cluster_turndown.Kube.Stored.{Serves, SameName, Absent}
use cluster_turndown.Patcher.{
  set_label, remove_label, patch_node, patch_object, patch_deployment, update_node_label,
  delete_node_label,
}
use cluster_turndown.Patcher.Keeps.{Keeps, patch_object-Keeps}
use cluster_turndown.Patcher.Loop.{patched, patch_object-objects, patch_object-answer}
use cluster_turndown.Pools.Resize.{turndown_node_label}
use cluster_turndown.Turndown.Manager.Environment.{
  prepare_change, reset_change, prepare_turndown_environment, reset_turndown_environment,
  Surroundings, turndown_namespace, turndown_deployment, error_of, patch_turndown,
}
use cluster_turndown.Turndown.Manager.Standard.{
  StandardCluster, allow_master, disallow_master, master_node_label_key, master_node, label_master,
  patch_dns, update_dns, reverse_dns, reverse_host_node, standard_strategy,
}

-- A cluster that serves its deployments, finds each by its names, and leaves them alone where nodes are patched
-- and pods deleted; and in which a master is always found.
pub record Standing {W : Type 0} (c : StandardCluster W) (s : Surroundings W)
    (objects : W → List Deployment) : Type 0 where
  pub serves : Serves c.deployments deployment_names objects
  pub finds :
      (w : W) (pre post : List Deployment) (d : Deployment)
      → objects w ≡ pre ++ d ∷ post
      → Absent deployment_names d pre
      → (c.get_deployment d.namespace d.name w ≡ ok d)
        × (s.get_deployment d.namespace d.name w ≡ ok d)
  pub nodes : Keeps objects c.nodes
  pub deletes : (ns selector : String) (w : W) → objects (c.delete_pods ns selector w) ≡ objects w
  pub masters : (w : W) → (n : Node) × (master_node c w ≡ ok n)

-- One element of a list is exchanged.
All-exchanged :
    {A : Type 0} (P : A → Type 0) (x y : A)
    → (P x → P y)
    → (pre post : List A) → All P (pre ++ x ∷ post)
    → All P (pre ++ y ∷ post)
All-exchanged P x y h [] post a = (h a.0, a.1)
All-exchanged P x y h (z ∷ pre) post a = (a.0, All-exchanged P x y h pre post a.1)

error_of_ok : {A W : Type 0} (r : Result A × W) (a : A) → r.0 ≡ ok a → error_of r ≡ (none, r.1)
error_of_ok (ok b, w) a h = refl
error_of_ok (err e, w) a h = absurd (cc h)

module _ {W : Type 0} (c : StandardCluster W) (s : Surroundings W) (objects : W → List Deployment)
    (standing : Standing c s objects) where
  -- The deployment of the turndown pod, by the names that the environment gives, and that of kube-dns.
  abbrev pub IsTurndown : Deployment → Type 0
  IsTurndown d =
      (turndown_namespace c.deployments s (standard_strategy c) ≡ d.namespace)
      × (turndown_deployment c.deployments s (standard_strategy c) ≡ d.name)

  abbrev pub IsDns : Deployment → Type 0
  IsDns d = ("kube-system" ≡ d.namespace) × ("kube-dns" ≡ d.name)

  -- A deployment that is there is changed, and no other.
  sent :
      (pre post : List Deployment) (d d' : Deployment) (w : W)
      → Absent deployment_names d pre
      → (d.namespace ≡ d'.namespace) × (d.name ≡ d'.name)
      → (change : Deployment → Deployment × Option Error) → change d ≡ (d', none)
      → objects w ≡ pre ++ d ∷ post
      → let r = patch_object c.deployments deployment_names d change w in
        (r.0 ≡ ok d') × (objects r.1 ≡ pre ++ d' ∷ post)
  sent pre post d d' w absent same change made here =
      let first : (change d).0 ≡ d' = ap (λ (r : Deployment × Option Error). r.0) made in
      let same' = subst (λ x. (d.namespace ≡ x.namespace) × (d.name ≡ x.name)) (sym first) same in
      let fine : (change d).1 ≡ none = ap (λ (r : Deployment × Option Error). r.1) made in
      (
        patch_object-answer standing.serves change d w pre post fine same' here absent
            ∙ ap ok first,
        patch_object-objects standing.serves change d w pre post same' here absent
            ∙ ap (λ x. pre ++ x ∷ post) (rw (fine, patched) first),
      )

  patch_turndown-objects :
      (pre post : List Deployment) (d d' : Deployment) (w : W)
      → IsTurndown d
      → Absent deployment_names d pre
      → (d.namespace ≡ d'.namespace) × (d.name ≡ d'.name)
      → (change : Deployment → Deployment × Option Error) → change d ≡ (d', none)
      → objects w ≡ pre ++ d ∷ post
      → let (failed, w') = patch_turndown c.deployments s (standard_strategy c) change w in
        (failed ≡ none) × (objects w' ≡ pre ++ d' ∷ post)
  unfolding patch_turndown patch_deployment
  patch_turndown-objects pre post d d' w (ns, name) absent same change made here =
      let (answer, stored) = sent pre post d d' w absent same change made here in
      let found = (standing.finds w pre post d here absent).1 in
      let r = patch_object c.deployments deployment_names d change w in
      simp (patch_turndown, ns, name, found, error_of_ok r d' answer) (refl, stored)

  patch_dns-objects :
      (pre post : List Deployment) (d d' : Deployment) (w : W)
      → IsDns d
      → Absent deployment_names d pre
      → (d.namespace ≡ d'.namespace) × (d.name ≡ d'.name)
      → (change : Deployment → Deployment × Option Error) → change d ≡ (d', none)
      → objects w ≡ pre ++ d ∷ post
      → let (failed, w') = patch_dns c change w in (failed ≡ none) × (objects w' ≡ pre ++ d' ∷ post)
  unfolding patch_dns patch_deployment
  patch_dns-objects pre post d d' w (ns, name) absent same change made here =
      let (answer, stored) = sent pre post d d' w absent same change made here in
      let found = (standing.finds w pre post d here absent).0 in
      simp (patch_dns, ns, name, found, answer) (refl, stored)

  reverse_host_node-objects :
      (pre post : List Deployment) (d : Deployment) (w : W)
      → IsDns d
      → Absent deployment_names d pre
      → objects w ≡ pre ++ d ∷ post
      → let (failed, w') = reverse_host_node c w in
        (failed ≡ none) × (objects w' ≡ pre ++ (disallow_master d).0 ∷ post)
  unfolding reverse_host_node reverse_dns patch_deployment disallow_master delete_node_label
      patch_node
  reverse_host_node-objects pre post d w (ns, name) absent here =
      let (n, master) = standing.masters w in
      let u = (delete_node_label c.nodes n turndown_node_label w).1 in
      let kept : objects u ≡ objects w =
        patch_object-Keeps objects c.nodes node_names standing.nodes n
          (remove_label turndown_node_label) w in
      let (answer, stored) =
        sent pre post d (disallow_master d).0 u absent (refl, refl) disallow_master refl
          (kept ∙ here) in
      let found = (standing.finds u pre post d (kept ∙ here) absent).0 in
      simp (reverse_host_node, master, reverse_dns, ns, name, found, answer)
        (refl, standing.deletes _ _ _ ∙ stored)

  label_master-objects : (w : W) → objects (label_master c w).1 ≡ objects w
  unfolding label_master update_node_label patch_node
  label_master-objects w =
      let (n, master) = standing.masters w in
      rw (master, label_master)
        (patch_object-Keeps objects c.nodes node_names standing.nodes n
          (set_label turndown_node_label "true") w)

  module _ (pre mid post : List Deployment) (dns d : Deployment) (host : Node) (w : W)
      (is_dns : IsDns dns) (own : IsTurndown d) (dns_absent : Absent deployment_names dns pre)
      (absent : Absent deployment_names d (pre ++ dns ∷ mid))
      (labelled : (label_master c w).0 ≡ ok host)
      (here : objects w ≡ pre ++ dns ∷ (mid ++ d ∷ post)) where
    abbrev allowed : Deployment
    allowed = (allow_master dns).0

    abbrev prepared : Deployment
    prepared = record d {
      tolerations =
          d.tolerations
          ++ record { key = master_node_label_key; operator = "Exists"; effect = "NoSchedule" }
            ∷ [];
      node_selector = some ((turndown_node_label, "true") ∷ []);
    }

    abbrev cleared : Deployment
    cleared = record d { tolerations = []; node_selector = some [] }

    abbrev w₀ : W
    w₀ = (label_master c w).1

    abbrev w₀' : W
    w₀' = (update_dns c w₀).1

    regrouped : (x y : Deployment) → pre ++ x ∷ (mid ++ y ∷ post) ≡ (pre ++ x ∷ mid) ++ y ∷ post
    regrouped x y = sym (append_assoc pre (x ∷ mid) (y ∷ post))

    still-Absent :
        (x : Deployment)
        → (dns.namespace ≡ x.namespace) × (dns.name ≡ x.name)
        → Absent deployment_names d (pre ++ x ∷ mid)
    still-Absent x (ns, name) =
        All-exchanged (λ e. ¬ SameName deployment_names d e) dns x
          (λ apart same. apart (same.0 ∙ sym ns, same.1 ∙ sym name)) pre mid absent

    dns_allowed : ((update_dns c w₀).0 ≡ none) × (objects w₀' ≡ pre ++ allowed ∷ (mid ++ d ∷ post))
    unfolding update_dns allow_master
    dns_allowed =
        patch_dns-objects pre (mid ++ d ∷ post) dns allowed w₀ is_dns dns_absent (refl, refl)
          allow_master refl (label_master-objects w ∙ here)

    abbrev w₁ : W
    w₁ =
        (patch_turndown c.deployments s (standard_strategy c) (prepare_change master_node_label_key)
          w₀').1

    turndown_prepared :
        ((patch_turndown c.deployments s
            (standard_strategy c)
            (prepare_change master_node_label_key)
            w₀').0
          ≡ none)
        × (objects w₁ ≡ (pre ++ allowed ∷ mid) ++ prepared ∷ post)
    unfolding prepare_change allow_master
    turndown_prepared =
        patch_turndown-objects (pre ++ allowed ∷ mid) post d prepared w₀' own
          (still-Absent allowed (refl, refl)) (refl, refl) (prepare_change master_node_label_key)
          refl (dns_allowed.1 ∙ regrouped allowed d)

    abbrev disallowed : Deployment
    disallowed = (disallow_master allowed).0

    dns_reversed :
        ((reverse_host_node c w₁).0 ≡ none)
        × (objects (reverse_host_node c w₁).1 ≡ pre ++ disallowed ∷ (mid ++ prepared ∷ post))
    unfolding allow_master
    dns_reversed =
        reverse_host_node-objects pre (mid ++ prepared ∷ post) allowed w₁ is_dns dns_absent
          (turndown_prepared.1 ∙ sym (regrouped allowed prepared))

    -- In a cluster that serves its deployments and finds a master, with the strategy of the master node: where
    -- the master could be labelled and the deployments of kube-dns and, listed behind it, of the turndown pod
    -- are there, preparing the environment returns no error, gives the deployment of the turndown pod one
    -- toleration more, that of the master, and the label as its node selector, and lets kube-dns run on the
    -- master; resetting it then returns no error, leaves the deployment of the turndown pod without
    -- tolerations and with an empty selector, and kube-dns as the reversal makes it. No other deployment
    -- changes.
    pub reset_environment-prepare_environment :
        (w₁ : W) × (prepare_turndown_environment c.deployments s (standard_strategy c) w
          ≡ some (none, w₁))
        × (objects w₁ ≡ (pre ++ allowed ∷ mid) ++ prepared ∷ post)
        × (let (failed, w₂) = reset_turndown_environment c.deployments s (standard_strategy c) w₁ in
            (failed ≡ none) × (objects w₂ ≡ (pre ++ disallowed ∷ mid) ++ cleared ∷ post))
    unfolding prepare_turndown_environment reset_turndown_environment reset_change allow_master
        disallow_master
    reset_environment-prepare_environment =
        let u = (reverse_host_node c w₁).1 in
        let (fine, last) =
          patch_turndown-objects (pre ++ disallowed ∷ mid) post prepared cleared u own
            (still-Absent disallowed (refl, refl)) (refl, refl) reset_change refl
            (dns_reversed.1 ∙ regrouped disallowed prepared) in
        (
          w₁,
          rw (labelled, prepare_turndown_environment, dns_allowed.0)
              (ap (λ (failed : Option Error). some (failed, w₁)) turndown_prepared.0),
          turndown_prepared.1,
          simp (reset_turndown_environment, dns_reversed.0) (fine, last),
        )
