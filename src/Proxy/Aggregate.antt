-- ===== src/Proxy/Aggregate.antt =====
-- The aggregated answer to a query (internal/proxy/handler.go, `queryAllTargetsAndAggregate` and
-- `readResponseBody`).
pub mod Laws
use prometheus_multi_tenant.Shared.{
  ℕ, String, Bool, true, false, Option, none, some, List, [], ◌∷◌, ◌++◌, if◌then◌else◌, str_eq,
  keep_if, and_then,
}
use prometheus_multi_tenant.Shared.Map.{Map, lookup, insert}
use prometheus_multi_tenant.Shared.Text.{join}
use prometheus_multi_tenant.Discovery.{Target}
use prometheus_multi_tenant.Tenant.Access.{Manager, validate_access}
use prometheus_multi_tenant.Proxy.Json.{
  Json, null, text, array, object, Items, item, end, Fields, field, end_of, get, to_items, as_text,
  as_array, as_object, string_labels,
}
use prometheus_multi_tenant.Proxy.Identity.{Request}

-- A request to a target.
pub record TargetRequest : Type 0 where
  pub method : String
  pub url : String
  pub headers : Map (List String)

-- A reply: its `Content-Encoding` and its body.
pub record Response : Type 0 where
  pub content_encoding : String
  pub body : String

-- What the handler calls. `exchange` is the client's `Do`, where `none` is an error, as it is of the
-- reads `read_all` and `gunzip` of a body and of the decoding and encoding of JSON.
pub record Backend : Type 0 where
  pub is_valid_request : String → String → Bool
  pub exchange : TargetRequest → Option Response
  pub read_all : String → Option String
  pub gunzip : String → Option String
  pub decode : String → Option Fields
  pub encode : Fields → Option String

abbrev text_or_empty : Option String → String
text_or_empty none = ""
text_or_empty (some s) = s

-- `ValidateAccess` on the name and the labels of a result's metric.
-- The name that the filter reads of a metric.
abbrev pub metric_name : Fields → String
metric_name metric = text_or_empty (as_text (get "__name__" metric))

abbrev pub may_see_metric : Manager → String → Option Fields → Bool
may_see_metric m id none = false
may_see_metric m id (some metric) =
    validate_access m id (metric_name metric) (string_labels [] metric)

abbrev pub metric_of : Option Fields → Option Fields
metric_of result_item = and_then result_item (λ fields. as_object (get "metric" fields))

-- Whether the filter keeps an item of a result.
unfoldable pub may_see : Manager → String → Json → Bool
may_see m id value = may_see_metric m id (metric_of (as_object (some value)))

-- `response["data"]["result"]`
unfoldable pub result_array : Fields → Option (List Json)
result_array response =
    and_then (as_object (get "data" response)) (λ data_fields. as_array (get "result" data_fields))

abbrev says_success : Option String → Bool
says_success none = false
says_success (some status) = str_eq status "success"

-- The result of a response that the aggregation takes.
unfoldable pub success_result : Fields → Option (List Json)
success_result response =
    if says_success (as_text (get "status" response)) then result_array response else none

abbrev values_of : Option (List String) → List String
values_of none = []
values_of (some values) = values

-- `Header.Add(key, value)` for each value.
unfoldable pub add_header : String → List String → Map (List String) → Map (List String)
add_header key [] headers = headers
add_header key (v ∷ vs) headers =
    add_header key vs (insert key (values_of (lookup key headers) ++ (v ∷ [])) headers)

unfoldable pub copy_headers : Map (List String) → Map (List String) → Map (List String)
copy_headers headers [] = headers
copy_headers headers ((key, values) ∷ rest) = copy_headers (add_header key values headers) rest

-- The `interface{}` of a slice, which is nil as long as nothing was appended.
abbrev pub from_list : List Json → Json
from_list [] = null
from_list (v ∷ vs) = array (to_items (v ∷ vs))

-- The aggregated response.
abbrev pub envelope : List Json → Fields
envelope results = field "status" (text "success") (
    field "data"
      (object (field "resultType" (text "vector") (field "result" (from_list results) end_of)))
      end_of)

abbrev pub add_result : Option (List Json) → List (List Json) → List (List Json)
add_result none results = results
add_result (some result) results = result ∷ results

-- The granted items of all responses.
unfoldable pub filter_results : Manager → String → List (List Json) → List Json
filter_results m id [] = []
filter_results m id (result ∷ rest) = keep_if (may_see m id) result ++ filter_results m id rest

pub aggregate_results : Manager → String → List (List Json) → Option Fields
aggregate_results m id [] = none
aggregate_results m id (result ∷ rest) = some (envelope (filter_results m id (result ∷ rest)))

module _ (b : Backend) where
  unfoldable pub read_response_body : Response → Option String
  read_response_body resp =
      if str_eq resp.content_encoding "gzip" then b.gunzip resp.body else b.read_all resp.body

  -- The request that a target gets.
  abbrev pub request_to : Request → Target → TargetRequest
  request_to r target = record {
    method = r.method;
    url = join target.url r.uri;
    headers = copy_headers [] r.headers;
  }

  -- One round of the loop over the targets: the result of the target's response, if the round takes
  -- it.
  unfoldable pub query_target : Request → Target → Option (List Json)
  unfolding read_response_body
  query_target r target =
      if b.is_valid_request r.method (join target.url r.uri)
      then and_then (b.exchange (request_to r target)) (λ resp.
        and_then (read_response_body resp) (λ body. and_then (b.decode body) success_result))
      else none

  unfoldable pub query_targets : Request → List Target → List (List Json)
  query_targets r [] = []
  query_targets r (target ∷ rest) = add_result (query_target r target) (query_targets r rest)

  -- The aggregated response, `none` where no target has one, and its body.
  unfoldable pub aggregate : Manager → String → Request → List Target → Option Fields
  unfolding aggregate_results
  aggregate m id r targets = aggregate_results m id (query_targets r targets)

  unfoldable pub query_all_targets_and_aggregate :
      Manager → String → Request → List Target → Option String
  query_all_targets_and_aggregate m id r targets = and_then (aggregate m id r targets) b.encode
