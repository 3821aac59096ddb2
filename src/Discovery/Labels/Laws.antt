-- ===== src/Discovery/Labels/Laws.antt =====
-- What the labels of a target say.
use prometheus_multi_tenant.Shared.{
  String, ◌≡◌, ◌≢◌, refl, sym, ◌∙◌, ap, true, some, [], ◌∷◌, arith, false≢true,
}
use Prim.Native.String.{◌++◌}
use text.Mathlib.TextLemmas.{cons-append}
use prometheus_multi_tenant.Shared.Text.{has_prefix}
use prometheus_multi_tenant.Shared.Map.{Map, lookup, insert, lookup-insert_self, lookup-insert_ne}
use prometheus_multi_tenant.Discovery.Labels.{
  add_labels, annotation_label, add_annotations, build_target_labels,
}

-- A text has each of its beginnings as a prefix.
has_prefix-append : (t k : String) → has_prefix (t ++ k) t ≡ true
unfolding has_prefix
has_prefix-append String.[] k = refl
has_prefix-append (String.◌∷◌ c t) k =
    ap (λ s. has_prefix s (String.◌∷◌ c t)) (cons-append c t k)
    ∙ ground (arith, has_prefix-append t k)

-- No annotation's label is the one of the namespace.
annotation_ne_namespace : (k : String) → annotation_label k ≢ "__meta_kubernetes_namespace"
unfolding has_prefix
annotation_ne_namespace k h = false≢true (
    sym (ap (λ s. has_prefix s "__meta_kubernetes_annotation_") h)
    ∙ has_prefix-append "__meta_kubernetes_annotation_" k)

lookup-add_annotations :
    (annotations target_labels : Map String)
    → lookup "__meta_kubernetes_namespace" (add_annotations target_labels annotations)
      ≡ lookup "__meta_kubernetes_namespace" target_labels
unfolding add_annotations
lookup-add_annotations [] target_labels = refl
lookup-add_annotations ((k, v) ∷ annotations) target_labels =
    lookup-add_annotations annotations (insert (annotation_label k) v target_labels)
    ∙ lookup-insert_ne (annotation_label k) "__meta_kubernetes_namespace" v target_labels
        (annotation_ne_namespace k)

-- A target carries the namespace of its object, whatever labels and annotations the object has:
-- neither can forge or hide it.
pub build_target_labels-namespace :
    (labels annotations : Map String) (namespace : String)
    → lookup "__meta_kubernetes_namespace" (build_target_labels labels annotations namespace)
      ≡ some namespace
unfolding build_target_labels
build_target_labels-namespace labels annotations namespace =
    lookup-add_annotations annotations
      (insert "__meta_kubernetes_namespace" namespace (add_labels [] labels))
    ∙ lookup-insert_self "__meta_kubernetes_namespace" namespace (add_labels [] labels)
