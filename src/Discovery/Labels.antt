-- ===== src/Discovery/Labels.antt =====
-- Labels and annotations of discovered objects (internal/discovery/kubernetes.go,
-- `matchesAnnotations` and `buildTargetLabels`).
pub mod Laws
use prometheus_multi_tenant.Shared.{
  String, Bool, true, false, Option, none, some, [], ◌∷◌, if◌then◌else◌, str_eq,
}
use prometheus_multi_tenant.Shared.Map.{Map, lookup, insert}
use prometheus_multi_tenant.Shared.Text.{join}

-- `m[key]`, the empty text for a missing key.
abbrev pub or_empty : Option String → String
or_empty none = ""
or_empty (some v) = v

-- The loop over the selectors, which returns false at the first that differs.
unfoldable pub matches_annotations : Map String → Map String → Bool
matches_annotations [] annotations = true
matches_annotations ((key, value) ∷ selectors) annotations =
    let later = matches_annotations selectors annotations in
    if str_eq (or_empty (lookup key annotations)) value then later else false

unfoldable pub add_labels : Map String → Map String → Map String
add_labels target_labels [] = target_labels
add_labels target_labels ((k, v) ∷ labels) = add_labels (insert k v target_labels) labels

abbrev pub annotation_label : String → String
annotation_label k = join "__meta_kubernetes_annotation_" k

unfoldable pub add_annotations : Map String → Map String → Map String
add_annotations target_labels [] = target_labels
add_annotations target_labels ((k, v) ∷ annotations) =
    add_annotations (insert (annotation_label k) v target_labels) annotations

unfoldable pub build_target_labels : Map String → Map String → String → Map String
build_target_labels labels annotations namespace =
    add_annotations (insert "__meta_kubernetes_namespace" namespace (add_labels [] labels))
      annotations
