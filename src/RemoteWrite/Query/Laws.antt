-- ===== src/RemoteWrite/Query/Laws.antt =====
-- What one query of a job can return, and which requests it depends on.
use prometheus_multi_tenant.Shared.{
  String, ◌≡◌, ◌↔◌, refl, sym, ap, subst, ◌∙◌, true, false, Option, none, some, List, [], ◌∷◌, ◌==◌,
  arith, str_eq, eq_iff, Bool-cases, Option-cases, All, inl, inr,
}
use prometheus_multi_tenant.Shared.Float.{Float64}
use prometheus_multi_tenant.Shared.Map.{Map, lookup, has, keys}
use prometheus_multi_tenant.Shared.Result.{Result, err, ok}
use prometheus_multi_tenant.Shared.Text.{join}
use prometheus_multi_tenant.Shared.Time.{Time}
use prometheus_multi_tenant.Api.{MetricAccess}
use prometheus_multi_tenant.RemoteWrite.Metric.{Metric}
use prometheus_multi_tenant.RemoteWrite.Query.{
  Sample, PrometheusResponse, Request, Reply, replied, unreachable, Value, without_name, with_value,
  value_of, cons_some, convert, convert_all, convert_response, read_body, read_reply, make_request,
  request_for, query_prom_ql, http_ok,
}

has-without_name : (m : Map String) → has "__name__" (keys (without_name m)) ≡ false
has-without_name [] = refl
has-without_name ((k, v) ∷ rest) = ground (arith, has-without_name rest)

abbrev pub Unnamed : Metric → Type 0
Unnamed m = has "__name__" (keys m.labels) ≡ false

abbrev AllSome : Option Metric → Type 0
AllSome none = Unit
AllSome (some m) = Unnamed m

module _ (parse_float : String → Option Float64) (unix : Float64 → Time) (now : Time) where
  with_value-Unnamed :
      (labels : Map String) (ts : Value) (v : Option Float64)
      → AllSome (with_value parse_float unix now labels ts v)
  with_value-Unnamed labels ts none = tt
  with_value-Unnamed labels ts (some v) = has-without_name labels

  convert-Unnamed :
      (labels : Map String) (vs : List Value) → AllSome (convert parse_float unix now labels vs)
  convert-Unnamed labels [] = tt
  convert-Unnamed labels (ts ∷ []) = tt
  convert-Unnamed labels (ts ∷ v ∷ more) =
      with_value-Unnamed labels ts (value_of parse_float unix now v)

  cons_some-Unnamed :
      (o : Option Metric) (ms : List Metric)
      → AllSome o
      → All Unnamed ms
      → All Unnamed (cons_some parse_float unix now o ms)
  cons_some-Unnamed none ms h hs = hs
  cons_some-Unnamed (some m) ms h hs = (h, hs)

  convert_all-Unnamed :
      (samples : List Sample) → All Unnamed (convert_all parse_float unix now samples)
  unfolding convert_all
  convert_all-Unnamed [] = tt
  convert_all-Unnamed (s ∷ rest) =
      cons_some-Unnamed (convert parse_float unix now s.metric s.value)
        (convert_all parse_float unix now rest) (convert-Unnamed s.metric s.value)
        (convert_all-Unnamed rest)

  module _ (unmarshal : String → Result PrometheusResponse) where
    -- A reply that carries a result: read whole with status 200, decoded, and marked a success.
    pub record IsAnswer (reply : Reply) (ms : List Metric) : Type 0 where
      pub body : String
      pub response : PrometheusResponse
      pub received : reply ≡ replied http_ok body none
      pub decoded : unmarshal body ≡ ok response
      pub successful : response.status ≡ "success"
      pub converted : ms ≡ convert_all parse_float unix now response.result
      pub unnamed : All Unnamed ms

    ok_inj : {a b : List Metric} → ok a ≡ ok b → a ≡ b
    ok_inj e = cc

    successful_only :
        (r : PrometheusResponse) (ms : List Metric)
        → convert_response parse_float unix now unmarshal (ok r) ≡ ok ms
        → (r.status ≡ "success") × (ms ≡ convert_all parse_float unix now r.result)
    unfolding convert_response
    successful_only r ms e = elim (Bool-cases (str_eq r.status "success")) [
      | inl s ↦ ((eq_iff r.status "success").0 s, sym (ok_inj (ground (arith, s, e))))
      | inr f ↦ ground (arith, f, e)
    ]

    read_body-answers :
        (body : String) (o : Result PrometheusResponse) (ms : List Metric)
        → unmarshal body ≡ o
        → convert_response parse_float unix now unmarshal o ≡ ok ms
        → IsAnswer (replied http_ok body none) ms
    unfolding convert_response
    read_body-answers body (err e) ms decoded h = ground arith
    read_body-answers body (ok r) ms decoded h =
        let (s, c) = successful_only r ms h in
        record {
          body = body;
          response = r;
          received = refl;
          decoded = decoded;
          successful = s;
          converted = c;
          unnamed = rw c (convert_all-Unnamed r.result);
        }

    read_reply-answers :
        (reply : Reply) (ms : List Metric)
        → read_reply parse_float unix now unmarshal reply ≡ ok ms
        → IsAnswer reply ms
    unfolding read_reply read_body
    read_reply-answers (unreachable e) ms h = ground arith
    read_reply-answers (replied status body (some e)) ms h = ground arith
    read_reply-answers (replied status body none) ms h = elim (Bool-cases (status == http_ok)) [
      | inl s ↦
          subst (λ n. IsAnswer (replied n body none) ms) (ground (arith, s))
            (read_body-answers body (unmarshal body) ms refl (ground (arith, s, h)))
      | inr f ↦ ground (arith, f, h)
    ]

    answers-read_reply :
        (reply : Reply) (ms : List Metric)
        → IsAnswer reply ms
        → read_reply parse_float unix now unmarshal reply ≡ ok ms
    unfolding read_reply read_body convert_response
    answers-read_reply reply ms a = rw (a.received, a.decoded, a.successful, a.converted) refl

    module _ (escape : String → String) (request_error : String → Option String)
        (exchange : Request → Reply) where
      -- A query returns metrics exactly when its request is valid and the reply is read whole, has
      -- status 200 and decodes to a success, of which they are the converted samples; and none of
      -- them keeps its name among its labels.
      pub query_prom_ql_iff :
          (ma : MetricAccess) (target_url query : String) (ms : List Metric)
          → (query_prom_ql parse_float unix now unmarshal escape request_error exchange ma
                target_url query
              ≡ ok ms)
            ↔ ((request_error (request_for escape ma target_url query).url ≡ none)
                × IsAnswer (exchange (request_for escape ma target_url query)) ms)
      unfolding query_prom_ql make_request
      query_prom_ql_iff ma target_url query ms =
          elim (Option-cases (request_error (request_for escape ma target_url query).url)) [
            | inl valid ↦ (
              (λ h. (valid, read_reply-answers _ ms (ground (arith, valid, h)))),
              (λ (v, a). rw valid (answers-read_reply _ ms a)),
            )
            | inr (e, bad) ↦ ((λ h. ground (arith, bad, h)), (λ (v, a). ground (arith, bad, v)))
          ]

  module _ (unmarshal : String → Result PrometheusResponse) (escape : String → String)
      (request_error : String → Option String) where
    abbrev pub proxy_prefix : String
    proxy_prefix = "http://localhost:8082/api/v1/query?query="

    -- The requests to the proxy that carry the namespace.
    abbrev pub Filtered : String → Request → Type 0
    Filtered namespace r =
        ((q : String) × (r.url ≡ join proxy_prefix q))
        × (lookup "X-Tenant-Namespace" r.headers ≡ some namespace)

    request_for-Filtered :
        (ma : MetricAccess) (target_url query : String)
        → ma.spec.metric_isolation ≡ true
        → Filtered ma.namespace (request_for escape ma target_url query)
    unfolding request_for lookup
    request_for-Filtered ma target_url query h = rw h ((escape query, refl), refl)

    same_target :
        (ma : MetricAccess) (target_url target_url' query : String)
        → ma.spec.metric_isolation ≡ true
        → request_for escape ma target_url query ≡ request_for escape ma target_url' query
    unfolding request_for
    same_target ma target_url target_url' query h = rw h refl

    make_request-same :
        (exchange exchange' : Request → Reply) (r : Request) (o : Option String)
        → exchange r ≡ exchange' r
        → make_request parse_float unix now unmarshal escape request_error exchange r o
          ≡ make_request parse_float unix now unmarshal escape request_error exchange' r o
    unfolding make_request
    make_request-same exchange exchange' r none h = ap (read_reply parse_float unix now unmarshal) h
    make_request-same exchange exchange' r (some e) h = refl

    -- Metric isolation holds a tenant's queries to what the proxy shows its namespace: two worlds
    -- that answer alike the requests to the proxy with the namespace's header give the same result,
    -- whichever targets are queried.
    pub isolated_query :
        (exchange exchange' : Request → Reply) (ma : MetricAccess)
        (target_url target_url' query : String)
        → ma.spec.metric_isolation ≡ true
        → ((r : Request) → Filtered ma.namespace r → exchange r ≡ exchange' r)
        → query_prom_ql parse_float unix now unmarshal escape request_error exchange ma target_url
            query
          ≡ query_prom_ql parse_float unix now unmarshal escape request_error exchange' ma
              target_url' query
    unfolding query_prom_ql
    isolated_query exchange exchange' ma target_url target_url' query h same =
        let r = request_for escape ma target_url query in
        make_request-same exchange exchange' r (request_error r.url)
          (same r (request_for-Filtered ma target_url query h))
        ∙ ap
            (λ q.
              make_request parse_float unix now unmarshal escape request_error exchange' q
                (request_error q.url))
            (same_target ma target_url target_url' query h)
