-- ===== src/Patcher.antt =====
-- pkg/cluster/patcher/patcher.go: an object is changed on a copy, and the difference is sent.
pub mod Loop
pub mod Keeps
pub mod Labels
use cluster_turndown.Prelude.{
  String, Bool, true, false, Option, none, some, [], ◌∷◌, str_eq, if◌then◌else◌, GoMap, put, delete,
  Error, error, Result, ok, err,
}
use cluster_turndown.Kube.{
  Deployment, DaemonSet, CronJob, Node, Client, Named, deployment_names, daemon_set_names,
  cron_job_names, node_names,
}

abbrev pub no_updates_reason : String
no_updates_reason = "NoUpdates"

-- The error that tells the patcher that nothing is to be sent.
abbrev pub no_updates : Error
no_updates = error no_updates_reason

unfoldable pub is_no_updates : Option Error → Bool
is_no_updates none = false
is_no_updates (some e) = str_eq e.message no_updates_reason

module _ {W D : Type 0} (c : Client W D) (n : Named D) where
  -- The error of the second `json.Marshal` is overwritten before it is read.
  marshal_again : D → c.Bytes
  marshal_again d = elim (c.marshal d) [ ok b ↦ b | err e ↦ c.no_bytes ]

  -- From the encoded object and what the patch function made of it to the request.
  send_difference : c.Bytes → D → W → Result D × W
  unfolding marshal_again
  send_difference old d w = elim (c.two_way_patch old (marshal_again d) d) [
    | ok p ↦ c.patch (n.namespace_of d) (n.name_of d) p w
    | err e ↦ (err e, w)
  ]

  -- The patch function returns the changed object and its error.
  unfoldable pub patch_object : D → (D → D × Option Error) → W → Result D × W
  unfolding send_difference is_no_updates
  patch_object d change w = elim (c.marshal d) [
    | err e ↦ (err e, w)
    | ok old ↦
        let (d', failed) = change d in
        elim failed [
          | some e ↦ if is_no_updates (some e) then (ok d', w) else (err e, w)
          | none ↦ send_difference old d' w
        ]
  ]

-- `len(n.Labels) == 0`
has_no_labels : GoMap String → Bool
has_no_labels none = true
has_no_labels (some []) = true
has_no_labels (some _) = false

pub set_label : String → String → Node → Node × Option Error
unfolding has_no_labels
set_label k v n =
    if has_no_labels n.labels
    then (record n { labels = some ((k, v) ∷ []) }, none)
    else (record n { labels = put n.labels k v }, none)

pub remove_label : String → Node → Node × Option Error
unfolding has_no_labels
remove_label k n =
    if has_no_labels n.labels
    then (n, some no_updates)
    else (record n { labels = delete n.labels k }, none)

module _ {W : Type 0} where
  unfoldable pub patch_node :
      Client W Node → Node → (Node → Node × Option Error) → W → Result Node × W
  unfolding patch_object
  patch_node c = patch_object c node_names

  unfoldable pub patch_deployment :
      Client W Deployment
      → Deployment
      → (Deployment → Deployment × Option Error)
      → W
      → Result Deployment × W
  unfolding patch_object
  patch_deployment c = patch_object c deployment_names

  unfoldable pub patch_daemon_set :
      Client W DaemonSet
      → DaemonSet
      → (DaemonSet → DaemonSet × Option Error)
      → W
      → Result DaemonSet × W
  unfolding patch_object
  patch_daemon_set c = patch_object c daemon_set_names

  unfoldable pub patch_cron_job :
      Client W CronJob → CronJob → (CronJob → CronJob × Option Error) → W → Result CronJob × W
  unfolding patch_object
  patch_cron_job c = patch_object c cron_job_names

  unfoldable pub update_node_label : Client W Node → Node → String → String → W → Result Node × W
  unfolding patch_node set_label
  update_node_label c n k v = patch_node c n (set_label k v)

  unfoldable pub delete_node_label : Client W Node → Node → String → W → Result Node × W
  unfolding patch_node remove_label
  delete_node_label c n k = patch_node c n (remove_label k)
