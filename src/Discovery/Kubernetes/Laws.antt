-- ===== src/Discovery/Kubernetes/Laws.antt =====
-- Which targets are discovered.
use prometheus_multi_tenant.Shared.{
  String, ◌≡◌, ◌↔◌, refl, sym, subst, true, Option, some, List, [], ◌∷◌, arith, Any, IsIn,
  IsIn-append, inl, inr,
}
use prometheus_multi_tenant.Shared.Result.{Result, err, ok, ok_inj}
use prometheus_multi_tenant.Shared.Time.{Time}
use prometheus_multi_tenant.Config.{KubernetesDiscoveryConfig}
use prometheus_multi_tenant.Discovery.{Target}
use prometheus_multi_tenant.Discovery.Ports.{Port, find_service_port}
use prometheus_multi_tenant.Discovery.Kubernetes.{
  Service, Client, target_of, service_url, matches, build_label_selector, discover_resource_type,
  or_nothing, discover_types,
}

module _ {A : Type 0} (kind : String) (list : String → Option (List A))
    (convert : List A → List Target) where
  -- The list of the namespace has an item that gives the target.
  abbrev Lists : Target → String → Type 0
  Lists t namespace = (items : List A) × (list namespace ≡ some items) × IsIn t (convert items)

module _ (config : KubernetesDiscoveryConfig) (client : Client) (now : Time) where
  -- The service is selected, has a port, and gives the target.
  abbrev Gives : Target → Service → Type 0
  Gives t s =
      (matches config client now s.metadata ≡ true)
      × (port : Port) × (find_service_port config.port s.ports ≡ some port)
      × (target_of s.metadata now (service_url s.metadata port) ≡ t)

  -- The service of a namespace gives the target.
  abbrev pub Serves : Target → String → Type 0
  Serves t namespace =
      (items : List Service) × (client.services namespace (build_label_selector config client now)
        ≡ some items)
      × Any (Gives t) items

  or_nothing_iff :
      (r : Result (List Target)) (t : Target)
      → IsIn t (or_nothing config client now r) ↔ ((ts : List Target) × (r ≡ ok ts) × IsIn t ts)
  or_nothing_iff (err e) t = ((λ i. absurd i), (λ (ts, bad, _). ground (arith, bad)))
  or_nothing_iff (ok found) t =
      ((λ i. (found, refl, i)), (λ (ts, e, i). subst (IsIn t) (ok_inj (sym e)) i))

  -- One round of discovery finds exactly the targets of the resource types that can be listed: a type
  -- that is unknown or fails is skipped and does not keep the others from being found.
  pub discover_types_iff :
      (types : List String) (t : Target)
      → IsIn t (discover_types config client now types)
        ↔ Any
            (λ type.
              (ts : List Target) × (discover_resource_type config client now type ≡ ok ts)
              × IsIn t ts)
            types
  unfolding discover_types
  discover_types_iff [] t = ((λ i. i), (λ a. a))
  discover_types_iff (type ∷ rest) t =
      let r = discover_resource_type config client now type in
      let parts =
        IsIn-append t (or_nothing config client now r) (discover_types config client now rest) in
      let later = discover_types_iff rest t in
      (
        (λ i. elim (parts.0 i) [
          | inl here ↦ inl ((or_nothing_iff r t).0 here)
          | inr there ↦ inr (later.0 there)
        ]),
        (λ a. parts.1 (elim a [
          | inl here ↦ inl ((or_nothing_iff r t).1 here)
          | inr there ↦ inr (later.1 there)
        ])),
      )
