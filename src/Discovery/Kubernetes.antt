-- ===== src/Discovery/Kubernetes.antt =====
-- The discovery of targets (internal/discovery/kubernetes.go). The client's lists are parameters:
-- `none` is their error.
pub mod Laws
pub mod Subscribers
use prometheus_multi_tenant.Shared.{
  ℕ, String, Bool, true, false, ◌&&◌, Option, none, some, List, [], ◌∷◌, ◌++◌, if◌then◌else◌,
  str_eq, map,
}
use prometheus_multi_tenant.Shared.Int.{ℤ, pos, negsuc, eqb_ℤ}
use prometheus_multi_tenant.Shared.Map.{Map}
use prometheus_multi_tenant.Shared.Result.{Result, err, ok}
use prometheus_multi_tenant.Shared.Text.{join, is_empty, show_int}
use prometheus_multi_tenant.Shared.Time.{Time}
use prometheus_multi_tenant.Config.{KubernetesDiscoveryConfig}
use prometheus_multi_tenant.Discovery.{Target}
use prometheus_multi_tenant.Discovery.Labels.{matches_annotations, build_target_labels}
use prometheus_multi_tenant.Discovery.Ports.{
  Port, find_service_port, find_pod_port, find_endpoint_port,
}

pub record ObjectMeta : Type 0 where
  pub name : String
  pub namespace : String
  pub labels : Map String
  pub annotations : Map String

pub record Service : Type 0 where
  pub metadata : ObjectMeta
  pub ports : List Port

-- `containers` has the ports of each container.
pub record Pod : Type 0 where
  pub metadata : ObjectMeta
  pub phase : String
  pub pod_ip : String
  pub containers : List (List Port)

-- `addresses` has the IP of each address.
pub record EndpointSubset : Type 0 where
  pub addresses : List String
  pub ports : List Port

pub record Endpoints : Type 0 where
  pub metadata : ObjectMeta
  pub subsets : List EndpointSubset

-- The client: the lists of a namespace, all of them for the empty text, with a label selector for
-- services and pods; and `labels.Set.String`.
pub record Client : Type 0 where
  pub services : String → String → Option (List Service)
  pub pods : String → String → Option (List Pod)
  pub endpoints : String → Option (List Endpoints)
  pub selector_text : Map String → String

abbrev pub target_of : ObjectMeta → Time → String → Target
target_of meta now url = record {
  url = url;
  labels = build_target_labels meta.labels meta.annotations meta.namespace;
  healthy = true;
  last_seen = now;
}

-- `http://%s.%s.svc.cluster.local:%d`
abbrev pub service_url : ObjectMeta → Port → String
service_url meta port = join "http://" (
    join meta.name
      (join "." (join meta.namespace (join ".svc.cluster.local:" (show_int port.number)))))

-- `http://%s:%d`
abbrev pub address_url : ℤ → String → String
address_url port ip = join "http://" (join ip (join ":" (show_int port)))

abbrev pub service_target : ObjectMeta → Time → Option Port → List Target
service_target meta now none = []
service_target meta now (some port) = target_of meta now (service_url meta port) ∷ []

-- The configured namespaces; without any, all at once.
abbrev pub or_all : List String → List String
or_all [] = "" ∷ []
or_all (n ∷ ns) = n ∷ ns

abbrev pub append_later : List Target → Result (List Target) → Result (List Target)
append_later front (err e) = err e
append_later front (ok targets) = ok (front ++ targets)

abbrev pub after_list :
    {A : Type 0}
    → String
    → String
    → (List A → List Target)
    → Option (List A)
    → Result (List Target)
    → Result (List Target)
after_list kind namespace convert none later =
    err (join "failed to list " (join kind (join " in namespace " namespace)))
after_list kind namespace convert (some items) later = append_later (convert items) later

-- The three loops over the namespaces have this shape: the first list that fails ends the loop with
-- its error.
unfoldable pub collect_from :
    {A : Type 0}
    → String
    → (String → Option (List A))
    → (List A → List Target)
    → List String
    → Result (List Target)
collect_from kind list convert [] = ok []
collect_from kind list convert (namespace ∷ rest) =
    after_list kind namespace convert (list namespace) (collect_from kind list convert rest)

module _ (config : KubernetesDiscoveryConfig) (client : Client) (now : Time) where
  unfoldable pub service_to_targets : Service → List Target
  service_to_targets s = service_target s.metadata now (find_service_port config.port s.ports)

  unfoldable pub pod_to_targets : Pod → List Target
  pod_to_targets p =
      let port = find_pod_port config.port p.containers in
      if is_empty p.pod_ip
      then []
      else (if eqb_ℤ port (pos 0)
          then []
          else target_of p.metadata now (address_url port p.pod_ip) ∷ [])

  unfoldable pub subset_to_targets : ObjectMeta → EndpointSubset → List Target
  subset_to_targets meta s =
      let port = find_endpoint_port config.port s.ports in
      if eqb_ℤ port (pos 0)
      then []
      else map (λ ip. target_of meta now (address_url port ip)) s.addresses

  unfoldable pub subsets_to_targets : ObjectMeta → List EndpointSubset → List Target
  subsets_to_targets meta [] = []
  subsets_to_targets meta (s ∷ rest) = subset_to_targets meta s ++ subsets_to_targets meta rest

  abbrev pub endpoints_to_targets : Endpoints → List Target
  endpoints_to_targets e = subsets_to_targets e.metadata e.subsets

  abbrev pub matches : ObjectMeta → Bool
  matches meta = matches_annotations config.annotation_selectors meta.annotations

  unfoldable pub service_targets : List Service → List Target
  service_targets [] = []
  service_targets (s ∷ rest) =
      let later = service_targets rest in
      if matches s.metadata then service_to_targets s ++ later else later

  unfoldable pub pod_targets : List Pod → List Target
  pod_targets [] = []
  pod_targets (p ∷ rest) =
      let later = pod_targets rest in
      if str_eq p.phase "Running" && matches p.metadata then pod_to_targets p ++ later else later

  unfoldable pub endpoint_targets : List Endpoints → List Target
  endpoint_targets [] = []
  endpoint_targets (e ∷ rest) =
      let later = endpoint_targets rest in
      if matches e.metadata then endpoints_to_targets e ++ later else later

  abbrev pub build_label_selector : String
  build_label_selector = client.selector_text config.label_selectors

  unfoldable pub discover_services : Result (List Target)
  discover_services =
      collect_from "services" (λ n. client.services n build_label_selector) service_targets
        (or_all config.namespaces)

  unfoldable pub discover_pods : Result (List Target)
  discover_pods =
      collect_from "pods" (λ n. client.pods n build_label_selector) pod_targets
        (or_all config.namespaces)

  unfoldable pub discover_endpoints : Result (List Target)
  discover_endpoints =
      collect_from "endpoints" client.endpoints endpoint_targets (or_all config.namespaces)

  unfoldable pub discover_resource_type : String → Result (List Target)
  discover_resource_type type =
      if str_eq type "Service"
      then discover_services
      else (if str_eq type "Pod"
          then discover_pods
          else (if str_eq type "Endpoints"
              then discover_endpoints
              else err (join "unsupported resource type: " type)))

  abbrev pub or_nothing : Result (List Target) → List Target
  or_nothing (err e) = []
  or_nothing (ok targets) = targets

  -- The loop over the resource types, which goes on past one that fails.
  unfoldable pub discover_types : List String → List Target
  discover_types [] = []
  discover_types (type ∷ rest) = or_nothing (discover_resource_type type) ++ discover_types rest
