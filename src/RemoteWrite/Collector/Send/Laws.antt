-- ===== src/RemoteWrite/Collector/Send/Laws.antt =====
-- When the collectors succeed, and what that means for a job's batches.
use prometheus_multi_tenant.Shared.{
  String, ◌≡◌, ◌↔◌, refl, sym, ◌∙◌, All-map, subst, true, Option, none, some, List, [], ◌∷◌,
  if◌then◌else◌, str_eq, arith, All, Bool-cases, Option-cases, inl, inr, some_inj,
}
use mathlib.Core.List.{Permᴰ}
use mathlib.Core.List.Permᴰ.{nil, cons, swap, trans}
use prometheus_multi_tenant.Shared.Int.{ℤ}
use prometheus_multi_tenant.Api.{MetricAccess}
use prometheus_multi_tenant.Api
use prometheus_multi_tenant.RemoteWrite.Metric.{Metric}
use prometheus_multi_tenant.RemoteWrite.Job.{is_target_type}
use prometheus_multi_tenant.RemoteWrite.Batch.{split_into_batches}
use prometheus_multi_tenant.RemoteWrite.Collect.Send.{sent, send_metrics, send_metrics_iff}
use prometheus_multi_tenant.RemoteWrite.Collector.Series.{TimeSeries}
use prometheus_multi_tenant.RemoteWrite.Collector.Write.{send_remote_write}
use prometheus_multi_tenant.RemoteWrite.Collector.Write.Laws.{Accepted, send_remote_write_iff}
use prometheus_multi_tenant.RemoteWrite.Collector.Send.{
  resolve_target_namespace, build_prometheus_urls, report, join_failures, or_failed, or_encoded,
  Outside, fan_out, series_to_send, send_prometheus, send_pushgateway, send_endpoint, send_by,
}

All-Permᴰ : (P : String → Type 0) {xs ys : List String} → Permᴰ xs ys → All P xs → All P ys
All-Permᴰ P nil h = tt
All-Permᴰ P (cons e p) h = (subst P e h.0, All-Permᴰ P p h.1)
All-Permᴰ P (swap e f) h = (subst P f h.1.0, (subst P e h.0, h.1.1))
All-Permᴰ P (trans p q) h = All-Permᴰ P q (All-Permᴰ P p h)

Permᴰ-sym : {xs ys : List String} → Permᴰ xs ys → Permᴰ ys xs
Permᴰ-sym nil = nil
Permᴰ-sym (cons e p) = cons (sym e) (Permᴰ-sym p)
Permᴰ-sym (swap e f) = swap (sym f) (sym e)
Permᴰ-sym (trans p q) = trans (Permᴰ-sym q) (Permᴰ-sym p)

report_iff :
    (url : String) (o : Option String) (errs : List String)
    → (join_failures (report url o errs) ≡ none) ↔ ((o ≡ none) × (join_failures errs ≡ none))
report_iff url none errs = ((λ h. (refl, h)), (λ h. h.1))
report_iff url (some e) errs = ((λ h. ground arith), (λ (bad, h). ground (arith, bad)))

or_failed_iff : (url : String) (o : Option String) → (or_failed url o ≡ none) ↔ (o ≡ none)
or_failed_iff url none = ((λ h. h), (λ h. h))
or_failed_iff url (some e) = ((λ h. ground arith), (λ h. ground arith))

module _ (out : Outside) where
  -- The series reach the receiver at the URL.
  abbrev pub Reaches : List TimeSeries → String → Type 0
  Reaches series url = Accepted (out.request_error url) (out.exchange url series)

  fan_out_iff :
      (series : List TimeSeries) (urls : List String)
      → (join_failures (fan_out out series urls) ≡ none) ↔ All (Reaches series) urls
  unfolding fan_out
  fan_out_iff series [] = ((λ h. tt), (λ h. refl))
  fan_out_iff series (url ∷ urls) =
      let one =
        report_iff url (send_remote_write out.request_error out.exchange url series)
          (fan_out out series urls) in
      let write = send_remote_write_iff out.request_error out.exchange url series in
      let rest = fan_out_iff series urls in
      ((λ h. let (a, b) = one.0 h in (write.0 a, rest.0 b)), (λ h. one.1 (write.1 h.0, rest.1 h.1)))

  -- The series can be encoded and reach every URL.
  abbrev pub Reached : List TimeSeries → List String → Type 0
  Reached series urls = (out.marshal series ≡ none) × All (Reaches series) urls

  abbrev pub urls_of : Api.PrometheusTarget → String → List String
  urls_of target namespace =
      build_prometheus_urls target (resolve_target_namespace target namespace)

  module _ (any_order : (urls : List String) → Permᴰ (out.finish urls) urls) where
    reaches_iff :
        (series : List TimeSeries) (urls : List String)
        → (or_encoded (out.marshal series) (join_failures (fan_out out series (out.finish urls)))
            ≡ none)
          ↔ Reached series urls
    reaches_iff series urls = elim (Option-cases (out.marshal series)) [
      | inr (e, bad) ↦ rw bad ((λ h. ground arith), (λ (good, _). ground (arith, good)))
      | inl good ↦
          let each = fan_out_iff series (out.finish urls) in
          rw good (
            (λ h. (refl, All-Permᴰ (Reaches series) (any_order urls) (each.0 h))),
            (λ h. each.1 (All-Permᴰ (Reaches series) (Permᴰ-sym (any_order urls)) h.1)),
          )
    ]

    prometheus_iff :
        (r : Api.RemoteWriteConfig) (namespace : String) (metrics : List Metric)
        (o : Option Api.PrometheusTarget)
        → (send_prometheus out r namespace metrics o ≡ none) ↔ (
            (target : Api.PrometheusTarget) × (o ≡ some target)
            × Reached (series_to_send out r metrics) (urls_of target namespace))
    unfolding send_prometheus
    prometheus_iff r namespace metrics none =
        ((λ h. ground arith), (λ (t, e, _). ground (arith, e)))
    prometheus_iff r namespace metrics (some target) =
        let sent_to = reaches_iff (series_to_send out r metrics) (urls_of target namespace) in
        (
          (λ h. (target, refl, sent_to.0 h)),
          (λ (t, e, h). sent_to.1 (
              subst (λ x. Reached (series_to_send out r metrics) (urls_of x namespace))
                (sym (some_inj e)) h)),
        )

  or_encoded_iff :
      (series : List TimeSeries) (url : String)
      → (or_encoded
            (out.marshal series)
            (or_failed url (send_remote_write out.request_error out.exchange url series))
          ≡ none)
        ↔ Reached series (url ∷ [])
  or_encoded_iff series url = elim (Option-cases (out.marshal series)) [
    | inr (e, bad) ↦ rw bad ((λ h. ground arith), (λ (good, _). ground (arith, good)))
    | inl good ↦
        let write = send_remote_write_iff out.request_error out.exchange url series in
        let o = send_remote_write out.request_error out.exchange url series in
        rw good (
          (λ h. (refl, (write.0 ((or_failed_iff url o).0 h), tt))),
          (λ h. (or_failed_iff url o).1 (write.1 h.1.0)),
        )
  ]

  endpoint_iff :
      (r : Api.RemoteWriteConfig) (metrics : List Metric) (o : Option Api.RemoteWriteEndpoint)
      → (send_endpoint out r metrics o ≡ none) ↔ (
          (endpoint : Api.RemoteWriteEndpoint) × (o ≡ some endpoint)
          × Reached (series_to_send out r metrics) (endpoint.url ∷ []))
  unfolding send_endpoint
  endpoint_iff r metrics none = ((λ h. ground arith), (λ (t, e, _). ground (arith, e)))
  endpoint_iff r metrics (some endpoint) =
      let sent_to = or_encoded_iff (series_to_send out r metrics) endpoint.url in
      (
        (λ h. (endpoint, refl, sent_to.0 h)),
        (λ (t, e, h). sent_to.1 (
            subst (λ x. Reached (series_to_send out r metrics) (x.url ∷ [])) (sym (some_inj e)) h)),
      )

  -- A batch of metrics is delivered: its series, relabelled, reach every replica of the Prometheus
  -- target, or the remote write endpoint. Nothing is asked of a Pushgateway.
  abbrev pub Delivered : String → Api.RemoteWriteConfig → String → List Metric → Type 0
  Delivered type r namespace metrics =
      if str_eq type "prometheus"
      then ((target : Api.PrometheusTarget) × (r.prometheus ≡ some target)
          × Reached (series_to_send out r metrics) (urls_of target namespace))
      else (if str_eq type "pushgateway"
          then Unit
          else ((endpoint : Api.RemoteWriteEndpoint) × (r.remote_write ≡ some endpoint)
              × Reached (series_to_send out r metrics) (endpoint.url ∷ [])))

  module _ (any_order : (urls : List String) → Permᴰ (out.finish urls) urls) where
    -- A collector reports success exactly when the batch is delivered, whatever the order in which
    -- the writes of a fan-out finish.
    send_by_iff :
        (type : String) (r : Api.RemoteWriteConfig) (namespace : String) (metrics : List Metric)
        → (send_by out type r namespace metrics ≡ none) ↔ Delivered type r namespace metrics
    unfolding send_by send_pushgateway
    send_by_iff type r namespace metrics = elim (Bool-cases (str_eq type "prometheus")) [
      | inl prom ↦ rw prom (prometheus_iff any_order r namespace metrics r.prometheus)
      | inr not_prom ↦ elim (Bool-cases (str_eq type "pushgateway")) [
        | inl push ↦ rw (not_prom, push) ((λ h. tt), (λ h. refl))
        | inr other ↦ rw (not_prom, other) (endpoint_iff r metrics r.remote_write)
      ]
    ]

  -- The collectors as the interface that the batches are sent through.
  abbrev pub IsCollector : (String → MetricAccess → List Metric → Option String) → Type 0
  IsCollector send =
      (type : String) (ma : MetricAccess) (r : Api.RemoteWriteConfig) (batch : List Metric)
      → ma.spec.remote_write ≡ some r
      → send type ma batch ≡ send_by out type r ma.namespace batch

  -- With the program's collectors, sending the metrics of a job succeeds exactly when its target
  -- type is a known one and every batch is delivered: after relabelling, its series are encoded and
  -- reach each replica of the Prometheus target, or the remote write endpoint, within three
  -- attempts; for a Pushgateway nothing is asked. The writes of a fan-out may finish in any order.
  pub send_metrics-Delivered :
      (any_order : (urls : List String) → Permᴰ (out.finish urls) urls)
      (send : String → MetricAccess → List Metric → Option String)
      → IsCollector send
      → (size : ℤ) (ma : MetricAccess) (metrics : List Metric) (r : Api.RemoteWriteConfig)
      → ma.spec.remote_write ≡ some r
      → (send_metrics send size ma metrics ≡ sent) ↔ (
          (is_target_type r.target.type ≡ true)
          × All (Delivered r.target.type r ma.namespace) (split_into_batches metrics size))
  send_metrics-Delivered any_order send collects size ma metrics r h =
      let whole = send_metrics_iff send size ma metrics in
      let batches = split_into_batches metrics size in
      let by_collector = λ (batch : List Metric). collects r.target.type ma r batch h in
      let delivery =
        λ (batch : List Metric). send_by_iff any_order r.target.type r ma.namespace batch in
      (
        (λ s.
            let (r', e, known, each) = whole.0 s in
            let same : r' ≡ r = some_inj (sym e ∙ h) in
            (
              subst (λ x. is_target_type x.target.type ≡ true) same known,
              All-map (λ b. send r.target.type ma b ≡ none) (Delivered r.target.type r ma.namespace)
                  batches (λ b d. (delivery b).0 (sym (by_collector b) ∙ d))
                  (subst (λ x. All (λ b. send x.target.type ma b ≡ none) batches) same each),
            )),
        (λ (known, each). whole.1 (
          r,
          h,
          known,
          All-map (Delivered r.target.type r ma.namespace) (λ b. send r.target.type ma b ≡ none)
              batches (λ b d. by_collector b ∙ (delivery b).1 d) each,
        )),
      )
