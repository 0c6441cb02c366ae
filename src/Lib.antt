-- ===== src/Lib.antt =====
-- A model of the operator app-lifecycle-kubernetes-operator, which freezes the workloads of a
-- Kubernetes namespace (scales them to zero) and resumes them, by hand, at startup and after node
-- failures.
--
-- The program and its parts. A NamespaceLifecyclePolicy (api/v1alpha1) asks for an action on a target
-- namespace. The controller (internal/controller) reads policies, decides whether an operation is
-- due, and freezes or resumes Deployments and StatefulSets through the API client. A resume may be
-- throttled: it goes in batches whose size follows signals of stress in the cluster. Manual commands
-- can stop a resume that is under way, a priority gate orders the resumes of several policies, and a
-- node failure scales down what ran on that node alone.
--
-- The files.
-- - Base: lists over native numbers, Go's (value, error) results as actions on a world, int32, maps,
--   the order of texts, strings.Join, Split and Contains, strconv.Itoa and Atoi.
-- - Types: the structs and enumerations of api/v1alpha1/namespacelifecyclepolicy_types.go.
-- - Kube and Client: the fields of API objects that the source reads, and the calls of
--   controller-runtime, client-go, the context and the clock, which are parameters: a record of
--   functions on a world of which nothing is known. RetryLaws states what RetryOnConflict documents.
-- - Override: shouldSkipOperation, and checkManualOverride of adaptive_throttling_helper.go.
-- - Priority: isBlockedByHigherPriorityResume, and the conflict check at the start of Reconcile.
-- - Workloads: freezeDeployment, freezeStatefulSet, resumeDeployment, resumeStatefulSet,
--   filterWorkloadsRequiringResume; Workloads/Balance: shouldPerformBalancing, performBalancing;
--   Workloads/Quiet: a cluster on which nobody but the operator writes; Workloads/Restored: a resume in it.
-- - Signals: the checks of signals.go; Signals/Collect: collectSignals and the cache of node metrics;
--   Signals/Scraping: checkNodeUsage; Signals/Readers: the readers of the kubelet and of a URL;
--   Signals/Json: extractJSONPath.
-- - Nodes: isNodeReady, countTotalWorkerNodes, countReadyWorkerNodes; Nodes/Wait: waitForNodesReady.
-- - PreConditions: checkAppReadiness, checkHealthEndpoint, checkPreConditions; PreConditions/Wait:
--   waitForPreConditions; PreConditions/Looks: what its calls keep to, carried over to it.
-- - Progress: updateStatus, updateAdaptiveProgress, updatePreConditionsStatus and the final update of
--   an adaptive resume.
-- - Throttle: calculateBatchSize, calculateWaitDuration, getSignalTypes; Throttle/Clear:
--   waitForSignalClear; Throttle/Resume: the loop of resumeWithAdaptiveThrottling over an interface
--   of the operations that it calls; Throttle/Wired: these operations as the source has them;
--   Throttle/Wired/Steady: what the calls under them keep to, carried over to them.
-- - NodeFailure: node_failure.go, with HandleNodeFailureAtStartup in NodeFailure/Startup.
-- - Reconcile: Reconcile from its conflict check to its end. Reconcile/Skipping: the guards that end
--   it early and the event of a node that is ready again; Reconcile/Freezing: a pending startup
--   freeze; Reconcile/Resuming: a pending startup resume; Reconcile/Failing: a node failure;
--   Reconcile/Checking: the namespace; Reconcile/Dispatch, Reconcile/Manual and Reconcile/Acts: the
--   manual operation; Reconcile/Parts: what they share.
-- - Startup: ApplyStartupPolicy. Of cmd/main.go, Startup/Resumes: the scan for resumes and their
--   marking; Startup/Freezing: processPolicyWithDelayAndFreeze and waitForReplicasZero;
--   Startup/Programs: what a goroutine is; Startup/Groups: the startup freezes by priority;
--   Startup/Poll: the poll of the nodes; Startup/Run: applyStartupPolicies and the runnable of main.
-- - Watches: mapNodeReadyToPolicy and the predicates of SetupWithManager.
-- - Examples: concrete inputs.
--
-- State. The world of the API client is passed on explicitly; an error keeps the effects made before
-- it. In the throttled resume the reconciler's own state, the cache of node metrics, is paired with
-- the world; in Reconcile the world holds it, and the record Operator says how it is read and written
-- there. Functions called on an API object take the object as the caller holds it.
--
-- Numbers. int32 and int64 fields that the resource's validation keeps non-negative are natural
-- numbers; replica counts, grace periods and the percentages of node usage are signed, and the last
-- wrap as int64 and int32 do. The product in the batch size and the end of a batch wrap as int32 does.
-- Times and durations are in nanoseconds.
--
-- Fuel. The loop of the adaptive resume and the wait for a signal run on fuel. A round of the loop
-- either resumes a workload or waits, and a wait that succeeds takes time from a limit that is
-- measured from the start of the resume, so fuel above the number of workloads plus that limit is
-- enough, with as much for each wait, which takes at least a nanosecond a turn. The wait for nodes at
-- startup and the wait for pre-conditions run on fuel for their ticks, of which no number is stated: the
-- latter need not end, and Go's select takes any channel that is ready. A wait or a throttled resume
-- that runs out of fuel gives no answer of the source's; in Reconcile it counts as a fault of its own.
-- The waits of a startup freeze and the poll of the nodes run on fuel for their rounds, of two and ten seconds, up to their
-- limits of five and ten minutes and of 50 seconds.
--
-- Goroutines. A goroutine of a startup freeze is a tree of calls on the world, and a step of the
-- startup freezes is the next call of any goroutine of the group that runs. Other programs act at any
-- time. A goroutine's call of ApplyStartupPolicy is one step.
--
-- Not modelled. In cmd/main.go the flags, the manager, its servers and certificates. REST, HTTP, the
-- decoding of JSON and the conversion of a float64 are parameters. Log output and generated deep copies
-- are left out. Go visits maps in no fixed order, for which the model takes one order. ToLower is the
-- one of ASCII and the letter İ.
pub mod Base
pub mod Types
pub mod Kube
pub mod Client
pub mod Override
pub mod Priority
pub mod Workloads
pub mod Signals
pub mod Progress
pub mod Reconcile
pub mod Startup
pub mod Watches
pub mod Nodes
pub mod PreConditions
pub mod Throttle
pub mod NodeFailure
pub mod Examples
