-- ===== src/Lib.antt =====
-- A verification library for tvk-plugins: the preflight plugin and the log collector.
--
-- The preflight plugin checks whether a Kubernetes cluster can run TrilioVault. A run
-- (tools/preflight/preflight.go, `PerformPreflightChecks`) draws a suffix of six letters, does its
-- checks one after the other, some of which create pods, claims, snapshots and a namespace under
-- names that end in the suffix, reports a verdict for each, and then cleans up what carries the
-- run's labels (tools/preflight/cleanup.go). A user can start the cleanup by itself, with or without
-- a suffix.
--
-- The log collector (tools/log-collector/log_collector.go, `CollectLogsAndDump`) lists the resources
-- of a cluster, keeps the objects of the product and those that the user asks for by labels or kinds,
-- writes them and the logs of their pods below an output directory, and packs that into an archive.
-- The command lines of both plugins (cmd/preflight/cmd, cmd/log-collector/cmd) merge a config file
-- with flags and hand the result on.
--
-- Base: the library's names, tests on numbers, lists, and `map[string]V` as an association list.
-- Action: Go functions that return a value or an error and act on a state, with `do` blocks; what
--   was done before an error stays done. Action/Keeps: invariants of actions, a rule for each way
--   to build one. Program: code that can also end the process or panic, and its exit status.
-- Machine: environment, processes, clock and files as calls on an unknown state. Machine/Shell is
--   internal/utils/shell/cmd.go (Words: what becomes of the words of a command), Machine/KubeEnv is
--   internal/kube_helper.go and `InitKubeEnv` (Chosen: where a configuration comes from).
-- Utils: `GenerateRandomString` and `CheckIfAPIVersionKindAvailable` of internal/utils.go.
-- Kube: API objects (Objects); the cluster and the machine as an interface of calls on an unknown
--   state, and the world of a run: that state, the write requests sent so far, the verdicts reported
--   so far, and the variables that a run changes, `o.SnapshotClass` and `storageVolSnapClass`
--   (Clients). Trace and Closed follow what actions add to the requests.
-- Preflight/Options, Specs: `Run`, the constants, and the objects that a run creates
--   (tools/preflight/helper.go).
-- Preflight/Delete, Cleanup: `deleteK8sResource` and `CleanupPreflightResources`; Cleanup/Safety,
--   Success, Reach and Gone hold what is proved of them. Cleanup/Store is the cluster as a store of
--   objects under addresses, for Gone.
-- Preflight/Suffix: `CreateResourceNameSuffix`.
-- Preflight/HelmVersion, Checks: the checks that create nothing, and the search for a version in the
--   output of helm, with the regular expression written out.
-- Preflight/SnapshotClasses, Crds: the choice or creation of a volume snapshot class, and the
--   installation of missing CRDs.
-- Preflight/Wait, Pods: `WaitOnPod` (tools/preflight/wait), `ExecInContainer`
--   (tools/preflight/exec), and the checks that run a pod.
-- Preflight/Volumes: snapshot and restore in cluster scope and in namespace scope; Volumes/Seen writes
--   out what a successful check has done, for Restored.
-- Preflight/Run: `PerformPreflightChecks`. Its children follow the requests of all checks (Simple,
--   Classes, Requests, Probes, Restores, Safety), the verdicts (Judges, Expected, Report) and the
--   run as a whole (Whole).
-- Text, Paths: what the code uses of Go's `strings` and `path/filepath`. Text/Decimal prints numbers,
--   Text/Splits has the laws of splitting and joining, Paths/Clean those of clean paths, Paths/Relative those of `Rel`.
-- Collector/Host: the cluster and the machine of the log collector as calls on an unknown state, the
--   helpers of unstructured objects, and the session of a run: that state, the changes to the file
--   system asked for so far, and the fields of `LogCollector` that a run changes.
-- Collector/Archive: `extractTarFile`, `ensureWithinDir`, `decompressGzFile` and what they call; Within,
--   Bounded and Unpacked hold what is proved of them.
-- Collector/Labels, Filters, Redaction: helper.go, the tests and filters on objects, and what is taken
--   out of them before they are written.
-- Collector/Writer: the writers of objects, logs, events and the archive; Writer/Safe follows their
--   changes.
-- Collector/Gather: the listings (and Reads on them), the OpenShift objects (Ocp), the events (Events)
--   and the loop over the resources up to `CollectLogsAndDump` (Run; Run/Safety and Run/Licenses follow
--   its changes, Run/Secrets is about the kinds that are left out, Run/Claims about the claims of pods,
--   Events/Aggregated about the events of a namespace, Writer/EventFiles about their files).
-- Cmd/Pairs, Gvks: the flags that are lists of pairs or of kinds, and the removal of doubles.
-- Cmd/CollectInputs, PreflightInputs: the override of file inputs by flags, and the tests on inputs.
-- Cmd/PreflightCommands: `runCmd` and `cleanupCmd` from the flags to the checks or the cleanup.
--   Cmd/CollectCommand: `preRun` and `runLogCollector`. Cmd/Process: a process on two states, the
--   machine's and that of the cluster or the session. PreflightCommands/Validated and
--   CollectCommand/Collected put the parts together.
-- Tests: a small cluster, runs of the model on it, and the theorems applied to it.
--
-- Calls of other projects are parameters: `Cluster` has one field for each call of an API server, of
-- discovery, of the machine and of `wait.ExponentialBackoff`, and `Externals` the types and pure
-- functions of go-version, the YAML decoder and the embedded files. What a theorem relies on is a
-- record of laws: IsHonest and IsNaming (answers are what was asked for), IsBounded (random numbers
-- lie below their bound), IsBackoff (a backoff without an error has seen its condition hold). The
-- loops are structural recursion on the lists they run over, so no fuel is needed. A request counts
-- as sent whatever its answer is. The answer of a remote command and the timer of three minutes are
-- two calls: which one comes first is not known to the model.
--
-- In the commands, `Connector` has the constructors of the clients, `Decoders` the strict YAML decoder
-- and the test on log levels, and a `Cluster` or `Host` beside them stands for what the clients reach.
-- IsStore is a cluster in which nobody else creates anything during a cleanup, where lists are complete
-- and deletes take effect.
--
-- In the log collector, `Host` and `Objects` play these parts, and IsTree holds the promises of the
-- helpers of unstructured objects. A map is visited in the order of a list, and a key that is set again stays where it is. The chunks of a log and the
-- entries of an archive are a list that ends, with the error that ended it. Letters outside ASCII have
-- no case. A nil dereference is an error that no caller looks at, or, in `parseGVK` and
-- `GenerateRandomString`, an outcome of its own.
--
-- Not modelled: log lines (the verdicts of a run are kept), the declaration of flags by cobra, which is a
-- table of constants, what the tests alone call (`cleanupNamespace`), and the shell scripts.
pub mod Base
pub mod Text
pub mod Paths
pub mod Action
pub mod Program
pub mod Machine
pub mod Utils
pub mod Kube
pub mod Preflight
pub mod Collector
pub mod Cmd
pub mod Tests
