-- ===== src/Examples/Objects.antt =====
-- A small cluster: a client that serves a list of objects, and some objects.
use cluster_turndown.Prelude.{
  String, ◌≡◌, refl, ap, ◌∙◌, Bool, ◌&&◌, Option, none, some, List, [], ◌∷◌, ◌++◌, arith, str_eq,
  eq_iff, if◌then◌else◌, pos, ok,
}
use cluster_turndown.Kube.{Deployment, DaemonSet, CronJob, Client, Named, deployment_names, string}
use cluster_turndown.Kube.Stored.{Absent, Serves}
use cluster_turndown.Flattener.{Flattener}
use cluster_turndown.Flattener.Deployments.{IntStr}

module _ {D : Type 0} (n : Named D) where
  abbrev is_named : String → String → D → Bool
  is_named ns name x = str_eq (n.namespace_of x) ns && str_eq (n.name_of x) name

  abbrev pub replace_named : String → String → D → List D → List D
  replace_named ns name d [] = []
  replace_named ns name d (x ∷ xs) =
      let rest = replace_named ns name d xs in if is_named ns name x then d ∷ xs else x ∷ rest

  -- Bytes are an object or nil, and a patch is the object that it leads to.
  abbrev pub list_client : Client (List D) D
  list_client = record {
    Bytes = Option D;
    Patch = D;
    list = λ w. ok w;
    marshal = λ d. ok (some d);
    no_bytes = none;
    two_way_patch = λ a b d. ok (elim b [ none ↦ d | some e ↦ e ]);
    patch = λ ns name d w. (ok d, replace_named ns name d w);
  }

  replaces_named :
      (pre post : List D) (d d' : D)
      → Absent n d pre
      → replace_named (n.namespace_of d) (n.name_of d) d' (pre ++ d ∷ post) ≡ pre ++ d' ∷ post
  replaces_named [] post d d' a =
      ground
        (arith, eq_iff (n.namespace_of d) (n.namespace_of d), eq_iff (n.name_of d) (n.name_of d))
  replaces_named (x ∷ pre) post d d' (differs, a) = ground (
    arith,
    differs,
    eq_iff (n.namespace_of x) (n.namespace_of d),
    eq_iff (n.name_of x) (n.name_of d),
    replaces_named pre post d d' a,
  )

  pub list_client-Serves : Serves list_client n (λ w. w)
  list_client-Serves = record {
    lists = λ w. refl;
    encode = some;
    encodes = λ d. refl;
    difference = λ d d'. d';
    differs = λ d d'. refl;
    replaces = λ w pre post d d' here absent same. (
      refl,
      ap (replace_named (n.namespace_of d) (n.name_of d) d') here
          ∙ replaces_named pre post d d' absent,
    );
  }

-- `intstr.IntOrString`, read as text only.
abbrev pub plain_intstr : IntStr
plain_intstr = record {
  to_text = λ v. v.str_val;
  parse = λ t. record { type = string; int_val = pos 0; str_val = t };
}

abbrev pub web : Deployment
web = record {
  namespace = "default";
  name = "web";
  annotations = none;
  template_annotations = none;
  replicas = pos 3;
  rolling_update = none;
  tolerations = [];
  node_selector = none;
}

abbrev pub dns : Deployment
dns = record {
  namespace = "kube-system";
  name = "dns";
  annotations = some (("team", "core") ∷ []);
  template_annotations = none;
  replicas = pos 2;
  rolling_update = none;
  tolerations = [];
  node_selector = none;
}

abbrev pub agent : DaemonSet
agent = record {
  namespace = "default";
  name = "agent";
  annotations = some (("team", "core") ∷ []);
  template_annotations = none;
}

abbrev pub nightly : CronJob
nightly = record { namespace = "default"; name = "nightly"; annotations = none; suspend = none }

-- The parts of the cluster are served one by one; the other two kinds are not patched.
abbrev pub deployments_flattener :
    Client (List Deployment) DaemonSet
    → Client (List Deployment) CronJob
    → Flattener (List Deployment)
deployments_flattener ds js = record {
  deployments = list_client deployment_names;
  daemon_sets = ds;
  cron_jobs = js;
  intstr = plain_intstr;
  omit_deployments = [];
}

abbrev pub idle_client : {D : Type 0} → Client (List Deployment) D
idle_client {D} = record {
  Bytes = Option D;
  Patch = D;
  list = λ w. ok [];
  marshal = λ d. ok (some d);
  no_bytes = none;
  two_way_patch = λ a b d. ok d;
  patch = λ ns name d w. (ok d, w);
}

abbrev pub flattener : Flattener (List Deployment)
flattener = deployments_flattener idle_client idle_client
