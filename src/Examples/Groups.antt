-- ===== src/Examples/Groups.antt =====
-- A cluster of one pool of three nodes.
use cluster_turndown.Prelude.{
  refl, false, Option, none, some, List, [], arith, str_eq, if◌then◌else◌, pos, lookup, ok,
}
use cluster_turndown.Kube.{Client}
use cluster_turndown.Pools.{NodePool}
use cluster_turndown.Pools.Resize.Laws.{Sizes, resized}
use cluster_turndown.Pools.Resize.Restore.{IsLoaded}
use cluster_turndown.Pools.Aws.{AwsClient}
use cluster_turndown.Pools.Aws.Lawful.{IsScaling}

-- A client whose world is the sizes of the groups.
abbrev pub sizes_client : AwsClient Sizes
sizes_client = record {
  list_nodes = λ w. ok [];
  describe_auto_scaling_groups = λ names w. ok [];
  update_auto_scaling_group = λ r w. (none, resized r.name r.desired_capacity w);
  delete_auto_scaling_group = λ name w. (none, w);
  delete_launch_configuration = λ name w. (none, w);
  delete_object = λ bucket key w. (none, w);
  create_or_update_tags = λ tags w. (none, w);
  delete_tags = λ tags w. (none, w);
}

pub sizes_client-IsScaling : IsScaling sizes_client (λ w. w)
sizes_client-IsScaling = record {
  updates = λ name m n w at. (refl, λ asked. refl);
  tags = λ t m w at. (refl, λ asked. refl);
  untags = λ t m w at. (refl, λ asked. refl);
}

abbrev pub workers : NodePool
workers = record {
  name = "workers";
  min_nodes = pos 1;
  max_nodes = pos 5;
  node_count = pos 3;
  auto_scaling = false;
  tags = [];
}

abbrev pub three_nodes : Sizes
three_nodes name = if str_eq "workers" name then some (pos 3) else none

pub workers-IsLoaded : IsLoaded three_nodes workers
unfolding lookup
workers-IsLoaded = record {
  at = refl;
  min = omega arith;
  max = omega arith;
  count = omega arith;
  counted = refl;
  untagged = refl;
}

-- A client of objects that its patches do not change.
abbrev pub still_client : {W D : Type 0} → List D → Client W D
still_client {W} {D} ds = record {
  Bytes = Option D;
  Patch = D;
  list = λ w. ok ds;
  marshal = λ d. ok (some d);
  no_bytes = none;
  two_way_patch = λ a b d. ok d;
  patch = λ ns name d w. (ok d, w);
}
