-- ===== src/Pilot.antt =====
-- The rolling update of pkg/microservice/pilot/pilot.go: the pods of a service are taken out of
-- service and made anew in batches. A call of the API client is a value; the waits between the calls
-- are left out. A reply that the code only logs is not looked at.
pub mod Windows
pub mod Batches
pub mod Traffic
mod Tests
use mini_k8s.Base.Ints.{ℤ, pos, negsuc, ◌-ℤ◌}
use mini_k8s.Base.{
  ltb, leb, if◌then◌else◌, string_Eq, nat_Eq, ◌==◌, length, Map, lookup, ℕ, zero, suc, ◌+◌, String,
  Bool, ◌&&◌, Option, none, some, List, [], ◌∷◌, ◌++◌, map,
}
use mini_k8s.Api.{
  ObjectMeta, Pod, PodStatus, Service, SubsetObject, VirtualService, RollingUpdate,
  rolling_update_pending,
}
use mini_k8s.Alloc.Decimal.{append}
use mini_k8s.Proxy.Server.{is_backend}

abbrev pub rolling_update_running : String
rolling_update_running = "Running"

abbrev pub rolling_update_finished : String
rolling_update_finished = "Finished"

-- The calls of the client.
pub data Call : Type 0 where
  set_phase : String → Call
  add_subset : SubsetObject → Call
  delete_subset : SubsetObject → Call
  add_virtual_service : VirtualService → Call
  delete_virtual_service : VirtualService → Call
  delete_pod : String → String → Call
  add_pod : Pod → Call

-- Metadata that names an object and its namespace, and no more.
unfoldable pub named_meta : String → String → ObjectMeta
named_meta own_name own_namespace = record {
  name = own_name;
  namespace = own_namespace;
  uid = "";
  creation_timestamp = 0;
  labels = none;
}

unfoldable pub subset_of : RollingUpdate → Service → String → List String → SubsetObject
subset_of ru service suffix names = record {
  kind = "Subset";
  metadata = named_meta (append service.name suffix) ru.namespace;
  pods = names;
}

unfoldable pub virtual_service_of : RollingUpdate → Service → VirtualService
virtual_service_of ru service = record {
  kind = "VirtualService";
  metadata = named_meta (append service.name "-rolling-update") ru.namespace;
  spec = record {
    service_ref = ru.spec.service_ref;
    port = ru.spec.port;
    subsets =
        record { name = append service.name "-available"; weight = some (pos 1); url = none }
        ∷ record { name = append service.name "-blocked"; weight = some (pos 0); url = none }
        ∷ [];
  };
}

-- `for k := 0; k < len(pods); k++`, from `k` on: the names that are blocked, and the other ones.
unfoldable pub split_names : ℕ → ℕ → ℕ → List Pod → List String × List String
split_names i j k [] = ([], [])
split_names i j k (pod ∷ pods) =
    let (blocked, available) = split_names i j (k + 1) pods in
    if leb i k && ltb k j then (pod.name ∷ blocked, available) else (blocked, pod.name ∷ available)

-- `pods[i:j]`, for a slice that starts at index `k`.
unfoldable pub slice : ℕ → ℕ → ℕ → List Pod → List Pod
slice i j k [] = []
slice i j k (pod ∷ pods) =
    let rest = slice i j (k + 1) pods in if leb i k && ltb k j then pod ∷ rest else rest

-- The pod that takes the place of another one. Its status is the zero value.
unfoldable pub new_pod : RollingUpdate → Pod → Pod
new_pod ru pod = record {
  kind = pod.kind;
  metadata = pod.metadata;
  spec = ru.spec.new_pod_spec;
  status = record { phase = ""; pod_ip = "" };
}

-- `for i := 0; i < len(pods); i += updateNum`: the bounds `i` and `j` of each round, with fuel.
unfoldable pub windows : ℕ → ℕ → ℕ → ℕ → List (ℕ × ℕ)
windows zero size i count = []
windows (suc fuel) size i count =
    let rest = windows fuel size (i + size) count in
    let j = if ltb count (i + size) then count else i + size in
    if ltb i count then (i, j) ∷ rest else []

-- The calls of one round.
unfoldable pub round_calls : RollingUpdate → Service → List Pod → ℕ × ℕ → List Call
round_calls ru service pods (i, j) =
    let (blocked, available) = split_names i j 0 pods in
    add_subset (subset_of ru service "-blocked" blocked)
    ∷ add_subset (subset_of ru service "-available" available)
    ∷ (map (λ name. delete_pod name ru.namespace) blocked
        ++ map (λ pod. add_pod (new_pod ru pod)) (slice i j 0 pods))

unfoldable pub all_rounds : RollingUpdate → Service → List Pod → List (ℕ × ℕ) → List Call
all_rounds ru service pods [] = []
all_rounds ru service pods (window ∷ more) =
    round_calls ru service pods window ++ all_rounds ru service pods more

-- The calls after the loop.
unfoldable pub last_calls : RollingUpdate → Service → List String → List String → List Call
last_calls ru service blocked available =
    set_phase rolling_update_finished
    ∷ delete_virtual_service (virtual_service_of ru service)
    ∷ delete_subset (subset_of ru service "-blocked" blocked)
    ∷ delete_subset (subset_of ru service "-available" available)
    ∷ []

-- What the two subsets hold after the loop: the names of the last round.
unfoldable pub last_names : List Pod → List (ℕ × ℕ) → List String × List String
last_names pods [] = ([], [])
last_names pods ((i, j) ∷ []) = split_names i j 0 pods
last_names pods (window ∷ next ∷ more) = last_names pods (next ∷ more)

-- The rounds and the calls after them.
unfoldable pub replace_pods : RollingUpdate → Service → List Pod → ℕ → List Call
replace_pods ru service pods size =
    let rounds = windows (length pods) size 0 (length pods) in
    let (blocked, available) = last_names pods rounds in
    all_rounds ru service pods rounds ++ last_calls ru service blocked available

-- The calls before the loop, of which each one has to be granted, and then the other ones.
unfoldable pub prepare : (Call → Bool) → List Call → List Call → List Call
prepare granted [] rest = rest
prepare granted (call ∷ more) rest =
    if granted call then call ∷ prepare granted more rest else call ∷ []

unfoldable pub first_calls : RollingUpdate → Service → List Call
first_calls ru service =
    set_phase rolling_update_running
    ∷ add_subset (subset_of ru service "-blocked" [])
    ∷ add_subset (subset_of ru service "-available" [])
    ∷ add_virtual_service (virtual_service_of ru service)
    ∷ []

-- How many pods a round takes.
unfoldable pub update_num : RollingUpdate → List Pod → ℤ
update_num ru pods = pos (length pods) -ℤ ru.spec.minimum_alive

unfoldable pub worker_calls : (Call → Bool) → RollingUpdate → Service → List Pod → ℤ → List Call
worker_calls granted ru service pods (pos zero) = []
worker_calls granted ru service pods (pos (suc n)) =
    prepare granted (first_calls ru service) (replace_pods ru service pods (suc n))
worker_calls granted ru service pods (negsuc n) = []

-- The calls that the worker makes, in order, for a client that grants some of the first ones.
unfoldable pub rolling_update_worker :
    (Call → Bool) → RollingUpdate → Service → List Pod → List Call
rolling_update_worker granted ru service pods =
    worker_calls granted ru service pods (update_num ru pods)

unfoldable pub service_pods : Service → List Pod → List Pod
service_pods service [] = []
service_pods service (pod ∷ pods) =
    let rest = service_pods service pods in if is_backend service pod then pod ∷ rest else rest

-- The body of the loop over the rolling updates, for what the map of the services gives.
unfoldable pub with_service :
    RollingUpdate
    → List Pod
    → List (RollingUpdate × Service × List Pod)
    → Option Service
    → List (RollingUpdate × Service × List Pod)
with_service ru pods rest none = rest
with_service ru pods rest (some service) =
    let chosen = service_pods service pods in
    if ltb 0 (length chosen) then (ru, service, chosen) ∷ rest else rest

-- The workers that the pilot starts: their rolling update, its service and the pods of it.
unfoldable pub do_rolling_update :
    List RollingUpdate → Map String Service → List Pod → List (RollingUpdate × Service × List Pod)
do_rolling_update [] services pods = []
do_rolling_update (ru ∷ more) services pods =
    let rest = do_rolling_update more services pods in
    if ru.status.phase == rolling_update_pending
    then with_service ru pods rest
        (lookup (append ru.namespace (append "_" ru.spec.service_ref)) services)
    else rest
