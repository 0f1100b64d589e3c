-- ===== src/Lib.antt =====
-- The control plane provider of cluster-api-provider-ocne, as functions, with the theorems that
-- make it correct.
--
-- The reconciler of a control plane (controlplane/ocne/internal/controllers) decides which machine to
-- create, to delete or to repair. It sees a cluster as a ControlPlane (controlplane/ocne/internal), a
-- set of machines with filters and orders (util/collections), counts machines by failure domain
-- (util/failuredomains), and reads and writes the conditions of objects (util/conditions). The
-- webhooks (controlplane/ocne/api) admit the specifications that it works on, the workload cluster's
-- etcd is kept in step with the machines, and the bootstrap controller (bootstrap/ocne/internal)
-- prepares the machines, the first of them under a lock.
--
-- - Conditions.Defs, .Getter, .Setter: getter.go and setter.go. An object is its kind, its name and
--   its conditions; Set, Mark* and Delete return the new object. Set takes the answer of time.Now().
-- - Conditions.Patch: NewPatch and Apply of patch.go. Apply returns the object as it then is, with an
--   error or none, since the code writes to the object until the conflict.
-- - Conditions.Merge, .Summary: merge.go and merge_strategies.go; summary, mirror and aggregate.
-- - Machines, Machines.Collection: machine_filters.go and machine_collection.go. A set of machines, a
--   map by name in the code, is a list in the order of an iteration.
-- - FailureDomains: failure_domains.go. PickMost and PickFewest are pick_most and pick_fewest.
-- - ControlPlane: control_plane.go, the decisions on machines.
-- - ControlPlane.Scaling: scale.go. initializeControlPlane, scaleUpControlPlane, scaleDownControlPlane
--   and the preflight checks return the calls that they make, in order, and the result.
-- - ControlPlane.Etcd, ControlPlane.Remediation: remediation.go. reconcileUnhealthyMachines returns its
--   calls and result; a patch of a machine carries the conditions that the code has written to it.
-- - ControlPlane.Reconcile: reconcile and reconcileDelete of controller.go, with their phases in order,
--   and upgrade.go. Each phase gives its calls and its result; Environment holds the answers of the
--   clusters. Sums of replicas and surge do not reach the bound of int32.
-- - ControlPlane.Filters: filters.go. The comparison of a machine's configuration with the
--   specification, with what it changes in place on the way.
-- - Locking: bootstrap/ocne/internal/locking, the lock of the control plane's initialization. Each
--   call of the API server is one step. Interleaving has the steps of all machines, among them those of
--   kubeadmconfig_controller.go that call Lock and Unlock, and machines that cease to exist; its steps
--   leave out that another machine locks between the reads and the Delete of an Unlock. Run makes the
--   calls of one machine in a row. Four calls are enough for Lock, two for Unlock.
-- - Versions: util/version. A text that the regular expression KubeSemver takes apart is the list of
--   its characters' codes; the expression is written out as functions that match its parts.
-- - Workload: workload_cluster_etcd.go, etcd_client_generator.go and etcd/util of
--   controlplane/ocne/internal. The members of etcd and its leader are the state.
-- - Admission: Default, ValidateCreate and ValidateUpdate of ocne_control_plane_webhook.go in
--   controlplane/ocne/api/v1alpha1, and ocneconfig_webhook.go of bootstrap/ocne/api/v1alpha1. An error
--   is its kind and its path, Paths are the changed fields, Config the bootstrap configuration, Spec
--   and Upgrade the checks of the specification and of the version, Update the handlers.
-- - Bootstrap: kubeadmconfig_controller.go and token.go of bootstrap/ocne/internal/controllers: the
--   choice of a reconciliation, Discovery of a joining node, Files with their secrets, and Tokens.
-- - Examples: the theorems at concrete inputs. Base: names, lists, order of strings, and sorting.
--
-- Choices of the model.
-- - Times are natural numbers of nanoseconds, zero being the zero time; metav1.Time's methods are the
--   interface TimeApi of Meta, fmt's are FmtApi of Fmt, those of cluster-api's FailureDomains are
--   DomainApi of ControlPlane, encoding/json's are JsonApi of Locking, blang/semver's comparison is
--   SemverApi of Versions, etcd is EtcdApi of Workload, and what a joining node needs of its
--   cluster is JoinApi of Bootstrap.Discovery. Each states the laws that are relied on.
-- - Pointers that may be nil are options; receivers that the callers never leave nil are not.
-- - sort.Slice and sort.Sort are an insertion sort. The theorems do not use its stability, except that
--   the order of equal elements is one order that Go may choose too.
-- - The API server, the workload cluster and the generation of machines are Remote: for each call its
--   answer. The answers do not change during one reconciliation.
-- - Counts do not reach the bound of Go's int. Loops are over finite lists and need no fuel; a machine
--   in Locking.run makes a given number of calls, four for Lock and two for Unlock.
-- - Logs and events are left out. So are the texts of errors, except where a condition keeps one.
--
-- Not modelled: the webhooks of cluster-api and its other packages that are copied here, the other
-- types of the API with their generated conversions, the user data of machines, certificates, proxies
-- and helm, which are text templates or calls of other libraries; the clients of runtime extensions;
-- of the control plane's loop its status and its adoption of machines; LowestVersion,
-- which sorts by semantic versions. In the decisions on machines `matches` stands for the filter on
-- specifications.
pub mod Base
pub mod Meta
pub mod Fmt
pub mod Conditions
pub mod Machines
pub mod FailureDomains
pub mod ControlPlane
pub mod Locking
pub mod Versions
pub mod Workload
pub mod Admission
pub mod Bootstrap
pub mod Examples
