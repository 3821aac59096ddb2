-- ===== src/Proxy/Api/Relay.antt =====
-- What the proxy passes on without a look at it.
use prometheus_multi_tenant.Shared.{
  String, ◌≡◌, ◌↔◌, ◌≢◌, refl, sym, ap, ◌∙◌, subst, false, Option, none, some, List, [], ◌∷◌, arith,
  Any, Bool-cases, inl, inr,
}
use prometheus_multi_tenant.Shared.Result.{Result, err, ok}
use prometheus_multi_tenant.Shared.Time.{Time}
use prometheus_multi_tenant.Config
use prometheus_multi_tenant.Discovery.{Target}
use prometheus_multi_tenant.Tenant.Access.{TenantInfo, Manager}
use prometheus_multi_tenant.Proxy.LoadBalancer.{
  LoadBalancer, Pick, picked, no_target, index_panic, get_target,
}
use prometheus_multi_tenant.Proxy.LoadBalancer.Laws.{get_target_picks_healthy}
use prometheus_multi_tenant.Proxy.Identity.{Request, extract_tenant_info}
use prometheus_multi_tenant.Proxy.Aggregate.{Backend, query_all_targets_and_aggregate}
use prometheus_multi_tenant.Proxy.Api.{
  Relayed, ReverseProxy, proxied, or_no_response, forward_to, forward, is_query, Handled, serve,
  serve_tenant, handle_prometheus_api,
}

module _ (p : ReverseProxy) (lb : LoadBalancer) (r : Request) (target : Target) (reply : Relayed)
    (after : LoadBalancer) where
  abbrev passed_on : Handled
  passed_on = (proxied target reply, after)

  -- The target is the next one in turn, and the reply is what its reverse proxy gives.
  abbrev pub IsRelayed : Pick → Type 0
  IsRelayed pick =
      (pick ≡ picked target after)
      × (p.parse_error target.url ≡ none)
      × (reply ≡ p.relay target.url r)

  or_no_response-proxied : (o : Option String) → or_no_response lb o ≢ passed_on
  or_no_response-proxied none h = ground (arith, h)
  or_no_response-proxied (some body) h = ground (arith, h)

  forward_to_iff :
      (t : Target) (lb' : LoadBalancer) (o : Option String)
      → ◌≡◌ {A = Handled} (forward_to p r t o, lb') passed_on
        ↔ ((t ≡ target) × (lb' ≡ after) × (o ≡ none) × (reply ≡ p.relay t.url r))
  forward_to_iff t lb' none = (
    (λ h.
        let same : forward_to p r t none ≡ proxied target reply = ap (λ x. x.0) h in
        (cc, ap (λ x. x.1) h, refl, cc)),
    (λ (a, b, c, d). cc),
  )
  forward_to_iff t lb' (some e) = ((λ h. ground (arith, h)), (λ (a, b, c, d). ground (arith, c)))

  forward_iff : (pick : Pick) → (forward p lb r pick ≡ passed_on) ↔ IsRelayed pick
  forward_iff (picked t lb') =
      let iff = forward_to_iff t lb' (p.parse_error t.url) in
      (
        (λ h.
            let (same, later, good, given) = iff.0 h in
            (
              cc,
              subst (λ x. p.parse_error x.url ≡ none) same good,
              subst (λ x. reply ≡ p.relay x.url r) same given,
            )),
        (λ (e, good, given).
            let same : t ≡ target = cc in
            let later : lb' ≡ after = cc in
            iff.1 (
              same,
              later,
              subst (λ x. p.parse_error x.url ≡ none) (sym same) good,
              subst (λ x. reply ≡ p.relay x.url r) (sym same) given,
            )),
      )
  forward_iff no_target = ((λ h. ground (arith, h)), (λ h. ground (arith, h.0)))
  forward_iff index_panic = ((λ h. ground (arith, h)), (λ h. ground (arith, h.0)))

  no_target_picked :
      (targets : List Target)
      → lb.targets ≡ targets
      → get_target lb ≡ picked target after
      → targets ≢ []
  no_target_picked targets e h gone =
      let (up, present, stepped) = get_target_picks_healthy lb after target h in
      subst (Any (λ u. u ≡ target)) (e ∙ gone) present

  module _ (config : Config.Config) (m : Manager) (b : Backend) where
    -- The path is not a query's, and the reply is relayed.
    abbrev pub PassesOn : Type 0
    PassesOn = (is_query r.path ≡ false) × IsRelayed (get_target lb)

    serve_iff :
        (t : TenantInfo) (targets : List Target)
        → lb.targets ≡ targets
        → (serve config m b p lb r t targets ≡ passed_on) ↔ PassesOn
    unfolding serve
    serve_iff t [] e = ((λ h. ground (arith, h)), (λ h. absurd (no_target_picked [] e h.1.0 refl)))
    serve_iff t (first ∷ rest) e = elim (Bool-cases (is_query r.path)) [
      | inl query ↦ rw query (
        (λ h.
            absurd (
              or_no_response-proxied (query_all_targets_and_aggregate b m t.id r (first ∷ rest))
                h)),
        (λ h. ground (arith, h.0)),
      )
      | inr other ↦
          rw other
            (let iff = forward_iff (get_target lb) in ((λ h. (refl, iff.0 h)), (λ h. iff.1 h.1)))
    ]

    serve_tenant_iff :
        (who : Result TenantInfo)
        → (serve_tenant config m b p lb r who ≡ passed_on)
          ↔ (((t : TenantInfo) × (who ≡ ok t)) × PassesOn)
    unfolding serve_tenant
    serve_tenant_iff (err e) = ((λ h. ground (arith, h)), (λ ((t, bad), _). ground (arith, bad)))
    serve_tenant_iff (ok t) =
        let iff = serve_iff t lb.targets refl in ((λ h. ((t, refl), iff.0 h)), (λ h. iff.1 h.1))

    -- Paths other than those of queries are not filtered: a request is answered by a target's own
    -- reply exactly when its path is not a query's, it is served as some tenant, whatever that
    -- tenant was granted, the target is the load balancer's next one, its URL can be parsed, and
    -- the reply is the one that its reverse proxy gives to the request as it came.
    pub other_paths_unfiltered :
        (now : Time)
        → (handle_prometheus_api config m b p now lb r ≡ (proxied target reply, after)) ↔ (
            (is_query r.path ≡ false)
            × ((t : TenantInfo) × (extract_tenant_info config m now r ≡ ok t))
            × (get_target lb ≡ picked target after)
            × (p.parse_error target.url ≡ none)
            × (reply ≡ p.relay target.url r))
    unfolding handle_prometheus_api
    other_paths_unfiltered now =
        let iff = serve_tenant_iff (extract_tenant_info config m now r) in
        (
          (λ h. let (who, (path, (pick, good, given))) = iff.0 h in (path, who, pick, good, given)),
          (λ (path, who, pick, good, given). iff.1 (who, (path, (pick, good, given)))),
        )
