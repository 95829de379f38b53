-- ===== src/ApiServer/Aggregator.antt =====
-- aggregator.go: the APIServices that the aggregator registers for the listed paths, and the health check
-- that waits until each of them was seen available.
pub mod Registered
pub mod Laws
use Prim.Native.String
use Prim.Native.Char.{code}
use hohapiserver.Base.{
  ℕ, String, ◌==◌, if◌then◌else◌, Bool, true, false, not, ◌&&◌, Option, none, some, List, [], ◌∷◌,
  ltb, leb, elem,
}
use text.Mathlib.Text.{starts_with}
use hohapiserver.ApiServer.Sets.{set_of}

-- schema.GroupVersion
pub record GroupVersion : Type 0 where
  pub group : String
  pub version : String

pub record Priority : Type 0 where
  pub group_priority : ℕ
  pub version_priority : ℕ

-- v1.APIService: its name and spec.
pub record ApiService : Type 0 where
  pub name : String
  pub group_version : GroupVersion
  pub priority : Priority

abbrev entry : String → String → ℕ → ℕ → GroupVersion × Priority
entry g v n k =
    (record { group = g; version = v }, record { group_priority = n; version_priority = k })

abbrev pub api_version_priorities : List (GroupVersion × Priority)
api_version_priorities =
    entry "" "v1" 18000 1
    ∷ entry "events.k8s.io" "v1" 17750 15
    ∷ entry "events.k8s.io" "v1beta1" 17750 5
    ∷ entry "authentication.k8s.io" "v1" 17700 15
    ∷ entry "authorization.k8s.io" "v1" 17600 15
    ∷ entry "certificates.k8s.io" "v1" 17300 15
    ∷ entry "rbac.authorization.k8s.io" "v1" 17000 15
    ∷ entry "apiextensions.k8s.io" "v1" 16700 15
    ∷ entry "admissionregistration.k8s.io" "v1" 16700 15
    ∷ entry "coordination.k8s.io" "v1" 16500 15
    ∷ entry "discovery.k8s.io" "v1" 16200 15
    ∷ entry "discovery.k8s.io" "v1beta1" 16200 12
    ∷ entry "flowcontrol.apiserver.k8s.io" "v1beta2" 16100 15
    ∷ entry "flowcontrol.apiserver.k8s.io" "v1beta1" 16100 12
    ∷ entry "flowcontrol.apiserver.k8s.io" "v1alpha1" 16100 9
    ∷ entry "internal.apiserver.k8s.io" "v1alpha1" 16000 9
    ∷ []

-- The map read at a key, with its ok.
unfoldable pub priority_of : GroupVersion → List (GroupVersion × Priority) → Option Priority
priority_of gv [] = none
priority_of gv ((key, p) ∷ later) =
    let missed = priority_of gv later in
    if key.group == gv.group && key.version == gv.version then some p else missed

-- makeAPIService, nil as `none`.
unfoldable pub make_api_service : GroupVersion → Option ApiService
make_api_service gv = elim (priority_of gv api_version_priorities) [
  | none ↦ none
  | some p ↦ some (record {
    name = String.◌++◌ gv.version (String.◌++◌ "." gv.group);
    group_version = gv;
    priority = p;
  })
]

-- strings.Split(s, "/")
abbrev first_longer : String → List String → List String
first_longer c [] = c ∷ []
first_longer c (t ∷ ts) = String.◌++◌ c t ∷ ts

abbrev is_slash : ℕ → Bool
is_slash n = leb n 47 && leb 47 n

unfoldable pub split_slash : String → List String
split_slash String.[] = "" ∷ []
split_slash (String.◌∷◌ c s) =
    let tokens = split_slash s in
    if is_slash (code c) then "" ∷ tokens else first_longer (String.◌∷◌ c String.[]) tokens

abbrev pub core_v1 : GroupVersion
core_v1 = record { group = ""; version = "v1" }

-- What a path in three parts behind the first slash adds.
unfoldable pub service_of_tokens : List String → Option (Option ApiService)
service_of_tokens (root ∷ apis ∷ group ∷ version ∷ []) =
    elim (make_api_service (record { group = group; version = version })) [
      | none ↦ none
      | some s ↦ some (some s)
    ]
service_of_tokens _ = none

-- One round of the loop: `none` is a `continue` that adds nothing. The service for the path /api/v1 is
-- added without a test for nil.
unfoldable pub service_of_path : String → Option (Option ApiService)
service_of_path curr =
    if curr == "/api/v1"
    then some (make_api_service core_v1)
    else if not (starts_with curr "/apis/")
    then none
    else service_of_tokens (split_slash curr)

-- The calls of AddAPIServiceToSyncOnStart, and the slice that is returned.
pub record Registration : Type 0 where
  pub synced : List (Option ApiService)
  pub services : List (Option ApiService)

abbrev pub registered : Option (Option ApiService) → Registration → Registration
registered none r = r
registered (some s) r = record { synced = s ∷ r.synced; services = s ∷ r.services }

unfoldable pub api_services_to_register : List String → Registration
api_services_to_register [] = record { synced = []; services = [] }
api_services_to_register (curr ∷ later) =
    registered (service_of_path curr) (api_services_to_register later)

-- The names of the services; `none` is a panic at a nil pointer.
unfoldable pub service_names : List (Option ApiService) → Option (List String)
service_names [] = some []
service_names (none ∷ later) = none
service_names (some s ∷ later) = elim (service_names later) [
  | none ↦ none
  | some ns ↦ some (s.name ∷ ns)
]

-- What an add or update event tells of an APIService.
pub record Change : Type 0 where
  pub service : String
  pub available : Bool

unfoldable pub remove : String → List String → List String
remove name [] = []
remove name (n ∷ ns) = let rest = remove name ns in if n == name then rest else n ∷ rest

-- handleAPIServiceChange, on pendingServiceNames.
unfoldable pub handle_api_service_change : List String → Change → List String
handle_api_service_change pending c =
    if not (elem c.service pending)
    then pending
    else if c.available
    then remove c.service pending
    else pending

unfoldable pub after_changes : List String → List Change → List String
after_changes pending [] = pending
after_changes pending (c ∷ later) = after_changes (handle_api_service_change pending c) later

-- The answer of the check at a set of pending names: healthy is `none`, and an error lists them.
unfoldable pub verdict : List String → Option (List String)
verdict [] = none
verdict (n ∷ rest) = some (n ∷ rest)

-- The check after these events, over the services of the registration; the outer `none` is a panic.
unfoldable pub available_health_check :
    List (Option ApiService) → List Change → Option (Option (List String))
available_health_check services changes = elim (service_names services) [
  | none ↦ none
  | some ns ↦ some (verdict (after_changes (set_of ns) changes))
]
