-- ===== src/Discovery/Ports.antt =====
-- The port of a discovered object (internal/discovery/kubernetes.go, `findServicePort`,
-- `findPodPort` and `findEndpointPort`). A port is an int32.
use prometheus_multi_tenant.Shared.{
  ℕ, ◌-◌, ◌%◌, ◌^◌, String, Bool, ◌||◌, Option, none, some, List, [], ◌∷◌, if◌then◌else◌, str_eq,
  ltb, either,
}
use prometheus_multi_tenant.Shared.Int.{ℤ, pos, negsuc}
use prometheus_multi_tenant.Shared.Text.{show_int, atoi}

-- The fields that the code reads of a service's, a container's or an endpoint's port.
pub record Port : Type 0 where
  pub name : String
  pub number : ℤ

unfoldable pub is_wanted : String → Port → Bool
is_wanted wanted port = str_eq port.name wanted || str_eq (show_int port.number) wanted

-- The first port with the configured name or number.
unfoldable pub find_port : String → List Port → Option Port
find_port wanted [] = none
find_port wanted (p ∷ ps) = if is_wanted wanted p then some p else find_port wanted ps

abbrev first_port : List Port → Option Port
first_port [] = none
first_port (p ∷ ps) = some p

unfoldable pub find_service_port : String → List Port → Option Port
find_service_port wanted ports = either (find_port wanted ports) (first_port ports)

-- A bit pattern of 32 bits as a number.
abbrev signed32 : ℕ → ℤ
signed32 n = if ltb n (2 ^ 31) then pos n else negsuc (2 ^ 32 - n - 1)

-- `int32(n)` of an int.
unfoldable pub int32 : ℤ → ℤ
int32 (pos n) = signed32 (n % 2 ^ 32)
int32 (negsuc n) = signed32 (2 ^ 32 - 1 - n % 2 ^ 32)

abbrev pub number_or : ℤ → Option ℤ → ℤ
number_or default none = default
number_or default (some n) = int32 n

-- The configured port where it is a number, else 9090.
unfoldable pub fallback_port : String → ℤ
fallback_port wanted = number_or (pos 9090) (atoi wanted)

abbrev pub number_of : String → Option Port → ℤ
number_of wanted none = fallback_port wanted
number_of wanted (some p) = p.number

-- The loops over the containers, given by their ports.
unfoldable pub find_container_port : String → List (List Port) → Option Port
find_container_port wanted [] = none
find_container_port wanted (ports ∷ containers) =
    either (find_port wanted ports) (find_container_port wanted containers)

abbrev pub find_pod_port : String → List (List Port) → ℤ
find_pod_port wanted containers = number_of wanted (find_container_port wanted containers)

abbrev pub find_endpoint_port : String → List Port → ℤ
find_endpoint_port wanted ports = number_of wanted (find_port wanted ports)
