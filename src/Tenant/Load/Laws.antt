-- ===== src/Tenant/Load/Laws.antt =====
-- What a load of the resources does to the table of tenants.
use prometheus_multi_tenant.Shared.{
  String, ◌≡◌, refl, sym, ap, ◌∙◌, Bool, true, false, Option, none, some, List, [], ◌∷◌, map, arith,
  str_eq, eq_iff, eq_refl, Bool-cases, inl, inr, All,
}
use prometheus_multi_tenant.Shared.Map.{Map, lookup, lookup-insert, insert-NoDup, has, Distinct}
use prometheus_multi_tenant.Shared.Time.{Time}
use prometheus_multi_tenant.Api.{MetricAccess, key_of}
use prometheus_multi_tenant.Tenant.Access.{Manager, validate_access, validate_for}
use prometheus_multi_tenant.Tenant.Access.Laws.{IsKeyed, find_by_id-lookup}
use prometheus_multi_tenant.Tenant.Load.{
  get_watch_namespaces, convert_to_tenant_info, process_tenant_update, process_all, process_list,
  load_namespaces, load_existing_tenants,
}

others :
    (key : String) (items : List MetricAccess)
    → has key (map key_of items) ≡ false
    → All (λ ma. str_eq (key_of ma) key ≡ false) items
others key [] h = tt
others key (ma ∷ rest) h = ground (arith, others key rest)

module _ (compile : String → Option (String → Bool)) (now : Time) where
  process-IsKeyed :
      (m : Manager) (ma : MetricAccess)
      → IsKeyed m.tenants
      → IsKeyed (process_tenant_update compile now m ma).tenants
  unfolding process_tenant_update convert_to_tenant_info
  process-IsKeyed m ma h = record {
    unique = insert-NoDup (key_of ma) _ m.tenants h.unique;
    keyed = λ key t e. elim (Bool-cases (str_eq (key_of ma) key)) [
      | inl q ↦ ground (
        arith,
        q,
        (eq_iff (key_of ma) key).0 q,
        e,
        lookup-insert (key_of ma) key (convert_to_tenant_info compile now ma) m.tenants,
      )
      | inr q ↦ h.keyed key t (
          ground (
            arith,
            q,
            e,
            lookup-insert (key_of ma) key (convert_to_tenant_info compile now ma) m.tenants,
          ))
    ];
  }

  process_all-IsKeyed :
      (m : Manager) (items : List MetricAccess)
      → IsKeyed m.tenants
      → IsKeyed (process_all compile now m items).tenants
  unfolding process_all
  process_all-IsKeyed m [] h = h
  process_all-IsKeyed m (ma ∷ rest) h =
      process_all-IsKeyed (process_tenant_update compile now m ma) rest (process-IsKeyed m ma h)

  process_list-IsKeyed :
      (m : Manager) (o : Option (List MetricAccess))
      → IsKeyed m.tenants
      → IsKeyed (process_list compile now m o).tenants
  unfolding process_list
  process_list-IsKeyed m none h = h
  process_list-IsKeyed m (some items) h = process_all-IsKeyed m items h

  -- No item of the list has the key.
  abbrev pub Without : String → Option (List MetricAccess) → Type 0
  Without key none = Unit
  Without key (some items) = All (λ ma. str_eq (key_of ma) key ≡ false) items

  process_all-lookup :
      (m : Manager) (items : List MetricAccess) (key : String)
      → All (λ ma. str_eq (key_of ma) key ≡ false) items
      → lookup key (process_all compile now m items).tenants ≡ lookup key m.tenants
  unfolding process_all process_tenant_update
  process_all-lookup m [] key h = refl
  process_all-lookup m (ma ∷ rest) key h =
      process_all-lookup (process_tenant_update compile now m ma) rest key h.1
      ∙ ground (
        arith,
        h.0,
        lookup-insert (key_of ma) key (convert_to_tenant_info compile now ma) m.tenants,
      )

  process_list-lookup :
      (m : Manager) (o : Option (List MetricAccess)) (key : String)
      → Without key o
      → lookup key (process_list compile now m o).tenants ≡ lookup key m.tenants
  unfolding process_list
  process_list-lookup m none key h = refl
  process_list-lookup m (some items) key h = process_all-lookup m items key h

  -- Each item ends up in the table, converted, where no two items have one key.
  process_all-installs :
      (m : Manager) (items : List MetricAccess)
      → Distinct (map key_of items)
      → All
          (λ ma.
            lookup (key_of ma) (process_all compile now m items).tenants
            ≡ some (convert_to_tenant_info compile now ma))
          items
  unfolding process_all process_tenant_update
  process_all-installs m [] d = tt
  process_all-installs m (ma ∷ rest) d = (
    process_all-lookup (process_tenant_update compile now m ma) rest (key_of ma)
          (others (key_of ma) rest d.0)
        ∙ ground (
          arith,
          eq_refl (key_of ma),
          lookup-insert (key_of ma) (key_of ma) (convert_to_tenant_info compile now ma) m.tenants,
        ),
    process_all-installs (process_tenant_update compile now m ma) rest d.1,
  )

  module _ (list : String → Option (List MetricAccess)) where
    load_namespaces-IsKeyed :
        (m : Manager) (ns : List String)
        → IsKeyed m.tenants
        → IsKeyed (load_namespaces compile now list m ns).tenants
    unfolding load_namespaces
    load_namespaces-IsKeyed m [] h = h
    load_namespaces-IsKeyed m (n ∷ ns) h =
        load_namespaces-IsKeyed (process_list compile now m (list n)) ns
          (process_list-IsKeyed m (list n) h)

    -- A load keeps the table a map in which each tenant stands under its identifier, whatever the
    -- client lists.
    pub load-IsKeyed :
        (m : Manager)
        → IsKeyed m.tenants
        → IsKeyed (load_existing_tenants compile now list m).tenants
    unfolding load_existing_tenants
    load-IsKeyed m h = load_namespaces-IsKeyed m (get_watch_namespaces m.config) h

    load_namespaces-lookup :
        (m : Manager) (ns : List String) (key : String)
        → All (λ n. Without key (list n)) ns
        → lookup key (load_namespaces compile now list m ns).tenants ≡ lookup key m.tenants
    unfolding load_namespaces
    load_namespaces-lookup m [] key h = refl
    load_namespaces-lookup m (n ∷ ns) key h =
        load_namespaces-lookup (process_list compile now m (list n)) ns key h.1
        ∙ process_list-lookup m (list n) key h.0

    -- A deleted resource is not revoked: in a table keyed by identifiers, where no list of a load
    -- holds the resource any more, its tenant is granted after the load what it was granted before.
    pub deleted_tenant_keeps_access :
        (m : Manager) (id name : String) (labels : Map String)
        → IsKeyed m.tenants
        → All (λ n. Without id (list n)) (get_watch_namespaces m.config)
        → validate_access (load_existing_tenants compile now list m) id name labels
          ≡ validate_access m id name labels
    unfolding validate_access load_existing_tenants
    deleted_tenant_keeps_access m id name labels h gone =
        ap (λ o. validate_for o name labels)
          (find_by_id-lookup id _ (load_namespaces-IsKeyed m (get_watch_namespaces m.config) h)
            ∙ load_namespaces-lookup m (get_watch_namespaces m.config) id gone
            ∙ sym (find_by_id-lookup id m.tenants h))

    -- Where all namespaces are watched and the client lists resources of different keys, every one
    -- of them is in the table after the load, as converted from its present content.
    pub load_installs :
        (m : Manager) (items : List MetricAccess)
        → m.config.watch_all_namespaces ≡ true
        → list "" ≡ some items
        → Distinct (map key_of items)
        → All
            (λ ma.
              lookup (key_of ma) (load_existing_tenants compile now list m).tenants
              ≡ some (convert_to_tenant_info compile now ma))
            items
    unfolding load_existing_tenants get_watch_namespaces load_namespaces process_list
    load_installs m items all listed d =
        simp (all, listed, process_list) (process_all-installs m items d)
