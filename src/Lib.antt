-- ===== src/Lib.antt =====
-- mini_k8s is a small Kubernetes in Go: an API server over etcd, a kubelet and a service proxy on
-- each node, and controllers that read the API and write back what should be there. This library
-- models the parts that decide something, and leaves HTTP, Docker, IPVS and etcd outside.
--
-- Alloc.antt models pkg/kubeapiserver/utils/alloc.go, the bitmaps from which the API server takes
-- service addresses and node names: `alloc_internal`, `free_internal`, `alloc_ip`, `free_ip`,
-- `alloc_node` and `free_node` are the functions of those names. A slice is a list of bytes, and a
-- call that writes through it returns the new one. Alloc/Decimal.antt writes out the printing and
-- scanning of a number behind a prefix.
-- Api.antt holds the objects of pkg/api/v1 as far as the modelled code reads them.
-- ApiServer/ models pkg/kubeapiserver. Etcd.antt is etcd/client.go over the calls of the etcd library,
-- which are the record `Kv` and may fail or change the state of the store in any way; `Reliable` of
-- Store.antt says what a store does that answers each call, and MapStore.antt is one that does. A
-- handler of app/routine.go is an `Act` (Act.antt): it takes a state of the store to the next one and
-- to a reply, or to the HTTP statuses that it wrote before it returned on an error; the texts of the
-- errors are left out. `add_pod` of Pods.antt is `AddPodHandler`, and so on for Services.antt,
-- DnsNames.antt, Nodes.antt (nodes and scheduling), ReplicaSets.antt, Scaling.antt, Mesh.antt (virtual
-- services, subsets, the sidecar mapping) and Rollouts.antt. A parsed body, the parameters of the URL,
-- a new uid and the time are arguments. encoding/json is a `Codec` for each type; a theorem that needs
-- an object to come back from its text says so (`Survives`), since an empty map that `omitempty` drops
-- does not. The server's lock makes each handler one step.
-- Kubelet/ models pkg/kubelet. Server.antt is `updateLocalPods` of app/server.go, which turns the
-- list of a node's pods into additions and deletions. Sync.antt is the main loop of kubelet.go,
-- which keeps the pods in the manager (PodManager.antt, pod/pod_manager.go) and asks the pod workers
-- for work (PodWorkers.antt, pod_workers.go). Pleg.antt is pleg/pleg.go, which compares what the
-- container runtime shows with what it showed before, fills the status cache (Cache.antt,
-- runtime/cache.go) and sends events to the main loop. Status.antt is `computeApiStatus`. Locks are
-- taken for what they are: a call that holds its lock throughout is one step. The pod workers are
-- the exception, as `UpdatePod` can wait while it holds the lock; there a schedule of actions moves
-- the callers and the goroutines on, and the waiting call is part of the state.
-- Proxy/Server.antt models `updateService` of pkg/kubeproxy/app/server.go: which pods stand behind
-- a service, and what changed since the last look. Proxy/Dns.antt is `updateDNS` of the same file.
-- Control/ models the controllers: ReplicaSet.antt (pkg/controller/replicaset/controller.go),
-- Scheduler.antt (pkg/scheduler/scheduler.go) and Autoscaler.antt with Autoscaler/Run.antt
-- (pkg/controller/podautoscaler/horizonal.go).
-- Pilot.antt models the rolling update of pkg/microservice/pilot/pilot.go: which workers the pilot
-- starts, and the calls of the API client that a worker makes, batch by batch.
-- Base/ has what they share: the native numbers, Boolean tests, maps, bytes, integers with a sign.
--
-- A Go map is an association list with one entry for a key, and a loop over it takes the entries in
-- the order of the list, which stands for the order that Go leaves open. Calls to the outside are
-- arguments of a definition (what the client or the runtime answers) or values that it returns (the
-- requests made). Float numbers are a record of operations. A loop is a recursion on a list; the
-- rounds of a rolling update have as much fuel as there are pods, which is enough as each takes one
-- at least; `GetNewerThan` has its three rounds, `int32` arithmetic wraps around at 2 ^ 32,
-- and a number that the code never lets grow past an `int` is not bounded. A nil pointer that the
-- code reads is `none` or an error of the model.
--
-- Not modelled: the metrics that pkg/kubeapiserver keeps, its router, the rules that
-- pkg/kubeproxy/proxy.go and route set, the side car mapping and the envoy of pkg/microservice, the
-- Docker calls of pkg/kubelet/runtime, the HTTP clients, kubectl, and the programs of cmd and test.
-- The timers and tickers around the modelled rounds are left out, as are log messages.
pub mod Base
pub mod Alloc
pub mod Api
pub mod ApiServer
pub mod Control
pub mod Kubelet
pub mod Pilot
pub mod Proxy
