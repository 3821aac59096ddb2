-- ===== src/Proxy/Aggregate/Laws.antt =====
-- What an aggregated answer contains, and that it depends on nothing else.
use prometheus_multi_tenant.Shared.{
  String, ◌≡◌, ◌↔◌, ◌⊎◌, refl, sym, ap, ◌∙◌, subst, true, Option, none, some, List, [], ◌∷◌, ◌++◌,
  map, arith, keep_if, concat, map_option, Any, All, IsIn, IsIn-append, IsIn-keep_if, inl, inr,
  some_inj,
}
use prometheus_multi_tenant.Discovery.{Target}
use prometheus_multi_tenant.Tenant.Access.{Manager}
use prometheus_multi_tenant.Proxy.Json.{Json, Fields}
use prometheus_multi_tenant.Proxy.Identity.{Request}
use prometheus_multi_tenant.Proxy.Aggregate.{
  Backend, may_see, envelope, query_target, add_result, query_targets, filter_results,
  aggregate_results, aggregate,
}

aggregate_results-envelope :
    (m : Manager) (id : String) (results : List (List Json)) (f : Fields)
    → aggregate_results m id results ≡ some f
    → f ≡ envelope (filter_results m id results)
unfolding aggregate_results
aggregate_results-envelope m id [] f h = ground (arith, h)
aggregate_results-envelope m id (result ∷ rest) f h = sym (some_inj h)

module _ (b : Backend) where
  -- The response of the target is taken, and the item is in its result.
  abbrev pub Reports : Request → Json → Target → Type 0
  Reports r x target =
      (result : List Json) × (query_target b r target ≡ some result) × IsIn x result

  IsIn-add_result :
      (m : Manager) (id : String) (x : Json) (o : Option (List Json)) (results : List (List Json))
      → IsIn x (filter_results m id (add_result o results)) ↔ (
          ((may_see m id x ≡ true) × (result : List Json) × (o ≡ some result) × IsIn x result)
          ⊎ IsIn x (filter_results m id results))
  unfolding filter_results
  IsIn-add_result m id x none results =
      ((λ h. inr h), (λ h. elim h [ inl (_, q, e, _) ↦ ground (arith, e) | inr there ↦ there ]))
  IsIn-add_result m id x (some result) results =
      let kept = IsIn-keep_if (may_see m id) x result in
      let parts = IsIn-append x (keep_if (may_see m id) result) (filter_results m id results) in
      (
        (λ h. elim (parts.0 h) [
          | inl here ↦ let (a, c) = kept.0 here in inl (a, result, refl, c)
          | inr there ↦ inr there
        ]),
        (λ h. elim h [
          | inl (a, q, e, c) ↦
              parts.1 (inl (kept.1 (a, subst (λ z. IsIn x z) (sym (some_inj e)) c)))
          | inr there ↦ parts.1 (inr there)
        ]),
      )

  -- An aggregated result has exactly the items that the tenant may see and some target reports.
  pub filter_results_iff :
      (m : Manager) (id : String) (r : Request) (targets : List Target) (x : Json)
      → IsIn x (filter_results m id (query_targets b r targets))
        ↔ ((may_see m id x ≡ true) × Any (Reports r x) targets)
  unfolding filter_results query_targets
  filter_results_iff m id r [] x = ground arith
  filter_results_iff m id r (target ∷ rest) x =
      let first = IsIn-add_result m id x (query_target b r target) (query_targets b r rest) in
      let others = filter_results_iff m id r rest x in
      (
        (λ h. elim (first.0 h) [
          | inl (a, q, e, c) ↦ (a, inl (q, e, c))
          | inr there ↦ let (a, c) = others.0 there in (a, inr c)
        ]),
        (λ (a, h).
            first.1
              (elim h [ inl c ↦ inl (a, c.0, c.1, c.2) | inr there ↦ inr (others.1 (a, there)) ])),
      )

  -- The aggregated response is an envelope of those items.
  pub aggregate-envelope :
      (m : Manager) (id : String) (r : Request) (targets : List Target) (f : Fields)
      → aggregate b m id r targets ≡ some f
      → f ≡ envelope (filter_results m id (query_targets b r targets))
  unfolding aggregate
  aggregate-envelope m id r targets f h =
      aggregate_results-envelope m id (query_targets b r targets) f h

-- What a tenant can see of the outcome of a query.
abbrev pub visible : Manager → String → Option (List Json) → Option (List Json)
visible m id outcome = map_option (keep_if (may_see m id)) outcome

-- The aggregation of results that are filtered already.
abbrev envelope_all : List (List Json) → Option Fields
envelope_all [] = none
envelope_all (seen ∷ rest) = some (envelope (seen ++ concat rest))

filter_results-concat :
    (m : Manager) (id : String) (results : List (List Json))
    → filter_results m id results ≡ concat (map (keep_if (may_see m id)) results)
unfolding filter_results
filter_results-concat m id [] = refl
filter_results-concat m id (result ∷ rest) =
    ap (λ z. keep_if (may_see m id) result ++ z) (filter_results-concat m id rest)

aggregate_results-envelope_all :
    (m : Manager) (id : String) (results : List (List Json))
    → aggregate_results m id results ≡ envelope_all (map (keep_if (may_see m id)) results)
unfolding aggregate_results
aggregate_results-envelope_all m id [] = refl
aggregate_results-envelope_all m id (result ∷ rest) =
    ap (λ z. some (envelope z)) (filter_results-concat m id (result ∷ rest))

map-add_result :
    (m : Manager) (id : String) (o : Option (List Json)) (results : List (List Json))
    → map (keep_if (may_see m id)) (add_result o results)
      ≡ add_result (visible m id o) (map (keep_if (may_see m id)) results)
map-add_result m id none results = refl
map-add_result m id (some result) results = refl

module _ (b b' : Backend) (m : Manager) (id : String) (r : Request) where
  query_targets-visible :
      (targets : List Target)
      → All (λ t. visible m id (query_target b r t) ≡ visible m id (query_target b' r t)) targets
      → map (keep_if (may_see m id)) (query_targets b r targets)
        ≡ map (keep_if (may_see m id)) (query_targets b' r targets)
  unfolding query_targets
  query_targets-visible [] h = refl
  query_targets-visible (t ∷ ts) h =
      map-add_result m id (query_target b r t) (query_targets b r ts)
      ∙ ap (λ o. add_result o (map (keep_if (may_see m id)) (query_targets b r ts))) h.0
      ∙ ap (add_result (visible m id (query_target b' r t))) (query_targets-visible ts h.1)
      ∙ sym (map-add_result m id (query_target b' r t) (query_targets b' r ts))

  -- Noninterference: two outcomes of the queries that differ only in items which the tenant may not
  -- see, in value or in number, give the same aggregated response.
  pub aggregate_noninterference :
      (targets : List Target)
      → All (λ t. visible m id (query_target b r t) ≡ visible m id (query_target b' r t)) targets
      → aggregate b m id r targets ≡ aggregate b' m id r targets
  unfolding aggregate
  aggregate_noninterference targets h =
      aggregate_results-envelope_all m id (query_targets b r targets)
      ∙ ap envelope_all (query_targets-visible targets h)
      ∙ sym (aggregate_results-envelope_all m id (query_targets b' r targets))
