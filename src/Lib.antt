-- ===== src/Lib.antt =====
-- kubecost/cluster-turndown: a program in a Kubernetes cluster that scales the cluster down and up on a
-- schedule. A TurndownSchedule resource asks for it; the turndown scheduler keeps one schedule as two
-- jobs, `scaledown` and `scaleup`, of a job scheduler that runs each at its time; when a job has run, its
-- completion handler plans it again or forgets the schedule. The jobs call the turndown manager, which on
-- an autoscaling cluster has the flattener set every deployment to 0 replicas, mark the pods of the
-- system as safe to evict and suspend the cron jobs, and later undo that from annotations that it left.
--
-- The files and the code (paths from the root of the repository):
--   Prelude       shared names; native integers, Go's maps and errors
--   Strconv       what the program calls of strconv and strings, as those packages document it
--   Kube          the Kubernetes objects with the fields that the program uses, and the client, which is
--                 a parameter; Kube.Stored says what is relied on of it: it serves a store of objects;
--                 Kube.Aggregate has the errors of pkg/cluster/helper/helper.go
--   Patcher       pkg/cluster/patcher/patcher.go; PatchDeployment, PatchNode, PatchDaemonSet and
--                 PatchCronJob are one function, patch_object, over a client for their kind
--   Flattener     pkg/cluster/flattener.go; Deployments, DaemonSets and CronJobs hold the patch
--                 functions, Flattener the loops over the cluster
--   Turndown      pkg/turndown: Time (Go's time.Time and time.Duration), Schedule and Store
--                 (schedulestore.go), Request (validateSchedule and the constants of
--                 turndownscheduler.go), Jobs (scheduler.go and pkg/async/asyncset.go), Scheduler
--                 (TurndownScheduler; Scheduler.Control has Cancel and the functions of the jobs,
--                 Scheduler.Completion has onJobCompleted), Controller (schedulecontroller.go;
--                 Controller.Worker has the work queue and the loops), Manager (ScaleDownCluster and
--                 ScaleUpCluster of turndown.go; Manager.Environment has PrepareTurndownEnvironment and
--                 ResetTurndownEnvironment, Manager.Masterless and Manager.Standard the strategies of
--                 pkg/turndown/strategy, Manager.Cycle the manager over the pools of Pools,
--                 Manager.Construction its construction), Start (cmd/turndown/main.go), Endpoints
--                 (turndownendpoints.go). Jobs.Routines has the goroutines of scheduleJob as a relation
--                 of steps
--   Pools         node pools: pkg/turndown/provider/awsprovider.go and eksprovider.go, which are one
--                 model (Range and Resize), pkg/cluster/provider/awsclusterprovider.go (Aws: Calls,
--                 Discovery for GetNodePools, ClusterData for the user data, Launch and Creation),
--                 awskops.go (Aws.Kops), eksclusterprovider.go (Eks: Calls, Tags, for the cluster of the
--                 program Start, and Provider, which is eksprovider.go over them) and
--                 gkeclusterprovider.go with gkeprovider.go (Gke; its Metadata is gkemetadata.go), over
--                 clients of the SDKs; Choice has the factories of both levels and validator.go, Waits
--                 the waits of helper.go; Pools.Resize.Laws is what the two levels agree on
--   Draininator   pkg/cluster/draininator.go and WaitUntilPodDeleted of pkg/cluster/helper/helper.go
--   Tasks         pkg/async/tasks/tasks.go and pkg/async/async.go, whose WaitChannel runs by a list of
--                 turns; Tasks.Executor has the two goroutines of SerialExecutor.Execute as a relation
--                 of steps, Tasks.Running the descriptions and RunExecutor
--   Examples      the theorems at concrete inputs
--
-- State is passed explicitly. What lies outside (the cluster, the disk, the turndown manager, the schedule
-- store of a scheduler) is a record of operations on a world `W`; the time is an argument. A time is a
-- number of nanoseconds, an integer without bound; a Duration is an int64, whose differences saturate and
-- whose sums wrap as Go's do. The number of replicas is an int32 where it is read as text (31 bits of
-- magnitude). The channel of the executor has 10 places. No definition runs on fuel but `digits`, whose
-- fuel is one more than the number that it prints, and so enough.
--
-- The goroutines that evict pods run by a schedule, a list that says whose call comes next until the
-- timeout; any list may be given. The loop of a request to GKE has as its bound the number of waits that
-- end before the context is cancelled.
--
-- Resizing several pools of EKS or GKE starts one goroutine for each (Tasks.Goroutines); which of them end in
-- time, and in which order, is an argument, a list of places among those that are left, so that each ends at
-- most once. That, and the eviction and deletion of pods, end in a `select` on the channel that `Wait` of
-- async.go returns, which is nil when the group is done too early; whether it is nil is an argument, too. The
-- wait of the HTTP handler is the library's, and a parameter.
--
-- The work queue of client-go is a parameter; the program runs one worker, so that keys are handled one
-- after the other. A worker is given the times at which it comes to its next item, as many as it may have.
-- A new launch configuration is asked for five times, as in the code. Texts are lists of characters; where
-- the code counts bytes, they are those of ASCII.
--
-- The name of a node's pool is a function of the node for the manager, as it is for EKS and GKE; that the one of
-- AWS asks the API, and can panic, is not part of the manager's model. Strings are lowered by their ASCII
-- letters only.
--
-- Not modelled: the construction of the clients of the SDKs; the informer; signals and logging; generated
-- code. The timer of a job is not tied to a clock: its goroutine may pass it at any time.
-- Locks are taken as given: an operation that holds one is one step.
pub mod Prelude
pub mod Strconv
pub mod Kube
pub mod Patcher
pub mod Flattener
pub mod Pools
pub mod Turndown
pub mod Tasks
pub mod Draininator
pub mod Examples
