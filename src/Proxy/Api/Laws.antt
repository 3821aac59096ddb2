-- ===== src/Proxy/Api/Laws.antt =====
-- What the proxy serves to whom.
use prometheus_multi_tenant.Shared.{
  String, ◌≡◌, ◌↔◌, refl, sym, ap, ◌∙◌, subst, Bool, false, Option, none, some, List, [], ◌∷◌,
  if◌then◌else◌, arith, Any, Bool-cases, inl, inr, some_inj, and_then-some, IsIn, ◌≢◌, false≢true,
}
use prometheus_multi_tenant.Shared.Map.{lookup}
use prometheus_multi_tenant.Shared.Result.{Result, err, ok}
use prometheus_multi_tenant.Shared.Text.{join}
use prometheus_multi_tenant.Shared.Time.{Time}
use prometheus_multi_tenant.Config
use prometheus_multi_tenant.Discovery.{Target}
use prometheus_multi_tenant.Tenant.Access.{TenantInfo, Manager, get_tenants_by_namespace}
use prometheus_multi_tenant.Tenant.Access.Laws.{IsKeyed}
use prometheus_multi_tenant.Proxy.Json.{Json}
use prometheus_multi_tenant.Proxy.LoadBalancer.{
  LoadBalancer, Pick, picked, no_target, index_panic, get_target,
}
use prometheus_multi_tenant.Proxy.Identity.{
  Request, extract_tenant_info, merged_tenant_for_namespace,
}
use prometheus_multi_tenant.Proxy.Identity.Laws.{
  is_internal, named_namespace, extract_tenant_info_iff, merged_tenant-id,
}
use prometheus_multi_tenant.Proxy.Aggregate.{
  Backend, envelope, query_targets, filter_results, aggregate, query_all_targets_and_aggregate,
}
use prometheus_multi_tenant.Proxy.Aggregate.Laws.{Reports, filter_results_iff, aggregate-envelope}
use prometheus_multi_tenant.Proxy.Api.{
  ReverseProxy, answered, or_no_response, forward_to, forward, is_query, serve, serve_tenant,
  handle_prometheus_api,
}
use prometheus_multi_tenant.Proxy.Api.Grants.{Grants, may_see_iff}

answered_inj : {a b : String} → answered a ≡ answered b → a ≡ b
answered_inj h = cc

forward_to-answered :
    (p : ReverseProxy) (r : Request) (target : Target) (o : Option String) (body : String)
    → forward_to p r target o ≢ answered body
forward_to-answered p r target none body h = ground (arith, h)
forward_to-answered p r target (some e) body h = ground (arith, h)

-- The items of an answer: each that is granted to the tenant and reported by a target, and no other.
abbrev pub AreServed : Manager → Backend → Request → LoadBalancer → TenantInfo → List Json → Type 0
AreServed m b r lb t items =
    (x : Json) → IsIn x items ↔ (Grants m t.id x × Any (Reports b r x) lb.targets)

nothing_in : (items : List Json) → ((x : Json) → IsIn x items → ⊥) → items ≡ []
nothing_in [] h = refl
nothing_in (x ∷ xs) h = absurd (h x (inl refl))

-- An identifier that no tenant has is served nothing.
no_items :
    (m : Manager) (b : Backend) (r : Request) (lb : LoadBalancer) (t : TenantInfo)
    (items : List Json)
    → lookup t.id m.tenants ≡ none
    → AreServed m b r lb t items
    → items ≡ []
no_items m b r lb t items unknown served = nothing_in items (λ x i.
    let (metric, _, granted) = ((served x).0 i).0 in
    let (u, found, _, _) = granted in ground (arith, found, unknown))

module _ (config : Config.Config) (m : Manager) (b : Backend) (p : ReverseProxy) (now : Time)
    (lb : LoadBalancer) (r : Request) where
  -- The body is the encoding of some items.
  abbrev pub IsBody : String → List Json → Type 0
  IsBody body items = b.encode (envelope items) ≡ some body

  aggregated :
      (id body : String) (targets : List Target)
      → query_all_targets_and_aggregate b m id r targets ≡ some body
      → IsBody body (filter_results m id (query_targets b r targets))
  unfolding query_all_targets_and_aggregate
  aggregated id body targets h =
      let (f, e, encoded) = and_then-some (aggregate b m id r targets) b.encode body h in
      subst (λ x. b.encode x ≡ some body) (aggregate-envelope b m id r targets f e) encoded

  -- What an answer tells of the items behind it.
  abbrev Behind : TenantInfo → List Target → String → Type 0
  Behind t targets body = IsBody body (filter_results m t.id (query_targets b r targets))

  or_no_response-answered :
      (o : Option String) (body : String) → (or_no_response lb o).0 ≡ answered body → o ≡ some body
  or_no_response-answered none body h = ground (arith, h)
  or_no_response-answered (some other) body h = ap some (answered_inj h)

  forward-answered : (pick : Pick) (body : String) → (forward p lb r pick).0 ≢ answered body
  forward-answered (picked target after) body h =
      forward_to-answered p r target (p.parse_error target.url) body h
  forward-answered no_target body h = ground (arith, h)
  forward-answered index_panic body h = ground (arith, h)

  serve-answered :
      (t : TenantInfo) (targets : List Target) (body : String)
      → (serve config m b p lb r t targets).0 ≡ answered body
      → Behind t targets body
  unfolding serve
  serve-answered t [] body h = ground (arith, h)
  serve-answered t (target ∷ targets) body h =
      let reply = query_all_targets_and_aggregate b m t.id r (target ∷ targets) in
      let taken = λ (q : Bool).
        (if q then or_no_response lb reply else forward p lb r (get_target lb)).0 ≡ answered body in
      elim (Bool-cases (is_query r.path)) [
        | inl query ↦
            aggregated t.id body (target ∷ targets)
              (or_no_response-answered reply body (subst taken query h))
        | inr other ↦ absurd (forward-answered (get_target lb) body (subst taken other h))
      ]

  serve_tenant-answered :
      (who : Result TenantInfo) (body : String)
      → (serve_tenant config m b p lb r who).0 ≡ answered body
      → (t : TenantInfo) × (who ≡ ok t) × Behind t lb.targets body
  unfolding serve_tenant
  serve_tenant-answered (err e) body h = ground (arith, h)
  serve_tenant-answered (ok t) body h = (t, refl, serve-answered t lb.targets body h)

  -- The proxy's answer to a query is the encoding of exactly those items that are granted to the
  -- tenant of the request, by a pattern that matches the metric and selectors that its labels pass,
  -- and that a target with a successful response reports: nothing else is served and nothing
  -- granted is lost. The tenants stand under their identifiers in the manager's table.
  pub answered-AreServed :
      (body : String)
      → IsKeyed m.tenants
      → (handle_prometheus_api config m b p now lb r).0 ≡ answered body
      → (t : TenantInfo) × (items : List Json) × (extract_tenant_info config m now r ≡ ok t)
        × IsBody body items
        × AreServed m b r lb t items
  unfolding handle_prometheus_api
  answered-AreServed body keyed h =
      let (t, e, behind) = serve_tenant-answered (extract_tenant_info config m now r) body h in
      (
        t,
        filter_results m t.id (query_targets b r lb.targets),
        e,
        behind,
        λ x.
            let served = filter_results_iff b m t.id r lb.targets x in
            let granted = may_see_iff m t.id x keyed in
            (
              (λ i. let (a, c) = served.0 i in (granted.0 a, c)),
              (λ (g, c). served.1 (granted.1 g, c)),
            ),
      )

  served_as :
      (namespace : String) (s : TenantInfo)
      → is_internal r ≡ false
      → named_namespace config r ≡ some namespace
      → extract_tenant_info config m now r ≡ ok s
      → merged_tenant_for_namespace m namespace ≡ ok s
  served_as namespace s out named e = elim ((extract_tenant_info_iff config m now r s).0 e) [
    | inl (internal, _) ↦ absurd (false≢true (sym out ∙ internal))
    | inr (_, served) ↦
        let (n, other, found) = served in
        subst (λ x. merged_tenant_for_namespace m x ≡ ok s) (some_inj (sym other ∙ named)) found
  ]

  -- Two resources or more in a namespace blind its tenant: unless a resource of the name of the
  -- namespace stands in a namespace called merged, every aggregated answer to a request for the
  -- namespace is without items, whatever the resources grant. The tenants stand under their
  -- identifiers in the manager's table.
  pub merged_tenant_sees_nothing :
      (namespace body : String) (t u : TenantInfo) (ts : List TenantInfo)
      → IsKeyed m.tenants
      → get_tenants_by_namespace m namespace ≡ t ∷ u ∷ ts
      → lookup (join "merged/" namespace) m.tenants ≡ none
      → is_internal r ≡ false
      → named_namespace config r ≡ some namespace
      → (handle_prometheus_api config m b p now lb r).0 ≡ answered body
      → IsBody body []
  merged_tenant_sees_nothing namespace body t u ts keyed two free out named h =
      let (s, items, e, behind, served) = answered-AreServed body keyed h in
      let known = served_as namespace s out named e in
      let unknown : lookup s.id m.tenants ≡ none =
        subst (λ id. lookup id m.tenants ≡ none)
          (sym (merged_tenant-id m namespace t u ts s two known)) free in
      subst (IsBody body) (no_items m b r lb s items unknown served) behind
