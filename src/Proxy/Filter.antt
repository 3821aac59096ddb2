-- ===== src/Proxy/Filter.antt =====
-- The filter of a single response (internal/proxy/handler.go, `modifyResponse` and
-- `filterQueryResponse`), which the handler keeps but does not install.
use prometheus_multi_tenant.Shared.{
  String, ◌≡◌, refl, sym, ap, ◌∙◌, Option, none, some, List, [], ◌∷◌, if◌then◌else◌, str_eq, arith,
  keep_if, and_then, map_option, eq_refl, append-nil, and_then-some,
}
use prometheus_multi_tenant.Shared.Result.{Result, err, ok}
use prometheus_multi_tenant.Shared.Text.{contains}
use prometheus_multi_tenant.Tenant.Access.{Manager}
use prometheus_multi_tenant.Proxy.Json.{
  Json, object, Fields, field, end_of, get, as_object, as_array,
}
use prometheus_multi_tenant.Proxy.Aggregate.{
  Backend, may_see, result_array, from_list, filter_results,
}

-- `m[key] = value`
unfoldable pub set_field : String → Json → Fields → Fields
set_field key value end_of = field key value end_of
set_field key value (field k v rest) =
    if str_eq k key then field key value rest else field k v (set_field key value rest)

abbrev pub with_result : Manager → String → Fields → Fields → List Json → Fields
with_result m id response data_fields result =
    set_field "data"
      (object (set_field "result" (from_list (keep_if (may_see m id) result)) data_fields)) response

abbrev pub filter_data : Manager → String → Fields → Fields → Option Fields
filter_data m id response data_fields =
    map_option (with_result m id response data_fields) (as_array (get "result" data_fields))

-- The filtered response; `none` is one without the structure of a query's, which passes as it is.
unfoldable pub filter_response : Manager → String → Fields → Option Fields
filter_response m id response =
    and_then (as_object (get "data" response)) (filter_data m id response)

abbrev encoded : Option String → Result String
encoded none = err "failed to marshal filtered response"
encoded (some body) = ok body

abbrev reply_body : Backend → String → Option Fields → Result String
reply_body b body none = ok body
reply_body b body (some filtered) = encoded (b.encode filtered)

abbrev filter_decoded : Backend → Manager → String → String → Option Fields → Result String
filter_decoded b m id body none = err "failed to parse response JSON"
filter_decoded b m id body (some response) = reply_body b body (filter_response m id response)

abbrev filter_read : Backend → Manager → String → Option String → Result String
filter_read b m id none = err "failed to read response body"
filter_read b m id (some body) = filter_decoded b m id body (b.decode body)

-- The new body, or an error.
unfoldable pub filter_query_response : Backend → Manager → String → String → Result String
filter_query_response b m id body = filter_read b m id (b.read_all body)

-- Outside the query paths the response is left alone.
unfoldable pub modify_response : Backend → Manager → String → String → String → Result String
modify_response b m id path body =
    if contains path "/api/v1/query" then filter_query_response b m id body else ok body

get-set_field_self :
    (key : String) (value : Json) (m : Fields) → get key (set_field key value m) ≡ some value
unfolding get set_field
get-set_field_self key value end_of = rw (eq_refl key) refl
get-set_field_self key value (field k v rest) =
    ground (arith, eq_refl key, get-set_field_self key value rest)

-- The `result` of the `data` of a response.
abbrev pub result_value : Fields → Option Json
result_value response = and_then (as_object (get "data" response)) (get "result")

-- The filtered response of a query has, where its result was, the items that the tenant may see:
-- the same that an aggregation of this response alone serves.
pub filter_response-result :
    (m : Manager) (id : String) (response : Fields) (result : List Json)
    → result_array response ≡ some result
    → (filtered : Fields) × (filter_response m id response ≡ some filtered)
      × (result_value filtered ≡ some (from_list (filter_results m id (result ∷ []))))
unfolding result_array filter_response filter_results get
filter_response-result m id response result h =
    let (data_fields, e, r) =
      and_then-some (as_object (get "data" response))
        (λ data_fields. as_array (get "result" data_fields)) result h in
    let kept = from_list (keep_if (may_see m id) result) in
    let new_data = object (set_field "result" kept data_fields) in
    (
      with_result m id response data_fields result,
      ap (λ o. and_then o (filter_data m id response)) e
          ∙ ap (map_option (with_result m id response data_fields)) r,
      ap (λ o. and_then (as_object o) (get "result")) (get-set_field_self "data" new_data response)
          ∙ get-set_field_self "result" kept data_fields
          ∙ ap (λ l. some (from_list l)) (sym (append-nil (keep_if (may_see m id) result))),
    )
