-- ===== src/RemoteWrite/Examples.antt =====
-- The theorems on batches, deduplication and queries at concrete inputs.
use prometheus_multi_tenant.Shared.{
  ℕ, String, ◌≡◌, ◌↔◌, refl, true, false, Option, none, some, List, [], ◌∷◌, arith, concat, All,
  Any,
}
use prometheus_multi_tenant.Shared.Float.{Float64, is_nan, gt, above, below}
use prometheus_multi_tenant.Shared.Int.{pos}
use prometheus_multi_tenant.Shared.Result.{Result, ok}
use prometheus_multi_tenant.Shared.Time.{Time}
use prometheus_multi_tenant.RemoteWrite.Fixtures.{one, two, nan, sample, fingerprint, resource}
use prometheus_multi_tenant.RemoteWrite.Batch.{
  split_into_batches, concat-split_into_batches, Fits, split_into_batches-Fits,
}
use prometheus_multi_tenant.RemoteWrite.Dedup.{deduplicate_metrics, dedup_loop, seen_at}
use prometheus_multi_tenant.RemoteWrite.Dedup.Reference.{merge_onto, deduplicate_metrics-merge_onto}
use prometheus_multi_tenant.RemoteWrite.Dedup.Laws.{Covers, deduplicate_metrics_keeps_highest}
use prometheus_multi_tenant.RemoteWrite.Query.{
  Request, Reply, replied, PrometheusResponse, request_for, query_prom_ql,
}
use prometheus_multi_tenant.RemoteWrite.Query.Laws.{IsAnswer, query_prom_ql_iff, isolated_query}

abbrev three : List ℕ
three = 1 ∷ 2 ∷ 3 ∷ []

concat-split_into_batches_example : concat (split_into_batches three (pos 2)) ≡ three
concat-split_into_batches_example = concat-split_into_batches three (pos 2)

split_into_batches-Fits_example : All (Fits 2) (split_into_batches three (pos 2))
split_into_batches-Fits_example = split_into_batches-Fits three 2 (omega arith) (omega arith)

deduplicate_metrics-merge_onto_example :
    deduplicate_metrics fingerprint (sample one ∷ sample two ∷ [])
    ≡ some (merge_onto fingerprint [] (sample one ∷ sample two ∷ []))
deduplicate_metrics-merge_onto_example =
    deduplicate_metrics-merge_onto fingerprint (sample one ∷ sample two ∷ [])

higher_stays :
    deduplicate_metrics fingerprint (sample one ∷ sample two ∷ []) ≡ some (sample two ∷ [])
unfolding deduplicate_metrics dedup_loop seen_at gt is_nan above below
higher_stays = refl

numbers : All (λ v. is_nan v ≡ false) (one ∷ two ∷ [])
unfolding is_nan
numbers = (refl, (refl, tt))

deduplicate_metrics_keeps_highest_example :
    All (λ m. Any (Covers fingerprint m) (sample two ∷ [])) (sample one ∷ sample two ∷ [])
deduplicate_metrics_keeps_highest_example =
    deduplicate_metrics_keeps_highest fingerprint (sample one ∷ sample two ∷ []) (sample two ∷ [])
      numbers higher_stays

nan_is : is_nan nan ≡ true
unfolding is_nan
nan_is = refl

-- Parameters of a query.
abbrev parse_float : String → Option Float64
parse_float s = some one

abbrev unix : Float64 → Time
unix ts = ts

abbrev unmarshal : String → Result PrometheusResponse
unmarshal s = ok (record { status = "success"; result = [] })

abbrev escape : String → String
escape s = s

abbrev request_error : String → Option String
request_error s = none

abbrev answers : Request → Reply
answers r = replied 200 "{}" none

abbrev also_answers : Request → Reply
also_answers r = replied 200 "{}" none

query_prom_ql_iff_example :
    (query_prom_ql parse_float unix 7 unmarshal escape request_error answers resource "http://p"
        "up"
      ≡ ok [])
    ↔ ((request_error (request_for escape resource "http://p" "up").url ≡ none)
        × IsAnswer parse_float unix 7 unmarshal
            (answers (request_for escape resource "http://p" "up"))
            [])
query_prom_ql_iff_example =
    query_prom_ql_iff parse_float unix 7 unmarshal escape request_error answers resource "http://p"
      "up" []

isolated_query_example :
    query_prom_ql parse_float unix 7 unmarshal escape request_error answers resource "http://p" "up"
    ≡ query_prom_ql parse_float unix 7 unmarshal escape request_error also_answers resource
        "http://q" "up"
isolated_query_example =
    isolated_query parse_float unix 7 unmarshal escape request_error answers also_answers resource
      "http://p" "http://q" "up" refl (λ r h. refl)
