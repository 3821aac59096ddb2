-- ===== src/Proxy/Identity/Laws.antt =====
-- Whom a request is served as.
use prometheus_multi_tenant.Shared.{
  String, ◌≡◌, ◌↔◌, ◌⊎◌, refl, sym, ap, ◌∙◌, subst, Bool, true, false, not, Option, none, some,
  List, [], ◌∷◌, ◌++◌, if◌then◌else◌, str_eq, arith, is_some, ltb, Bool-cases, inl, inr, some_inj,
}
use prometheus_multi_tenant.Shared.Result.{err, ok, ok_inj}
use prometheus_multi_tenant.Shared.Text.{join, is_empty}
use prometheus_multi_tenant.Shared.Time.{Time}
use prometheus_multi_tenant.Config
use prometheus_multi_tenant.Tenant.Access.{TenantInfo, Manager, get_tenants_by_namespace}
use prometheus_multi_tenant.Proxy.Identity.{
  Request, get_first, internal_tenant, merge, fresh_merge, merged_of, merged_tenant_for_namespace,
  extract_tenant_from_auth, extract_tenant_info,
}

abbrev pub is_internal : Request → Bool
is_internal r = str_eq (get_first "X-Internal-Collection" r.headers) "true"

abbrev nonempty : String → Option String
nonempty s = if is_empty s then none else some s

-- The namespace that a request names: its header, or without one, where no authentication is
-- configured, its query parameter.
abbrev pub named_namespace : Config.Config → Request → Option String
named_namespace config r =
    if not (is_empty (get_first "X-Tenant-Namespace" r.headers))
    then some (get_first "X-Tenant-Namespace" r.headers)
    else (if is_some config.auth then none else nonempty (get_first "namespace" r.query))

-- The request is served as the tenant of its namespace.
abbrev pub ServedAs : Manager → Option String → TenantInfo → Type 0
ServedAs m named t =
    (namespace : String) × (named ≡ some namespace)
    × (merged_tenant_for_namespace m namespace ≡ ok t)

some_iff :
    (m : Manager) (namespace : String) (t : TenantInfo)
    → (merged_tenant_for_namespace m namespace ≡ ok t) ↔ ServedAs m (some namespace) t
some_iff m namespace t = (
  (λ h. (namespace, refl, h)),
  (λ (n, e, h). subst (λ x. merged_tenant_for_namespace m x ≡ ok t) (sym (some_inj e)) h),
)

none_iff : (m : Manager) (e : String) (t : TenantInfo) → (err e ≡ ok t) ↔ ServedAs m none t
none_iff m e t = ((λ h. ground (arith, h)), (λ (n, bad, h). ground (arith, bad)))

-- Without a tenant header the authentication has no tenant either.
auth_fails :
    (m : Manager) (r : Request)
    → is_empty (get_first "X-Tenant-Namespace" r.headers) ≡ true
    → (e : String) × (extract_tenant_from_auth m r ≡ err e)
unfolding extract_tenant_from_auth
auth_fails m r h = elim (Bool-cases (is_empty (get_first "Authorization" r.headers))) [
  | inl missing ↦ rw missing ("missing authorization header", refl)
  | inr given ↦ rw (given, h) ("missing tenant namespace", refl)
]

named_iff :
    (config : Config.Config) (m : Manager) (now : Time) (r : Request) (t : TenantInfo)
    → is_internal r ≡ false
    → (extract_tenant_info config m now r ≡ ok t) ↔ ServedAs m (named_namespace config r) t
unfolding extract_tenant_info
named_iff config m now r t out =
    let header = get_first "X-Tenant-Namespace" r.headers in
    let param = get_first "namespace" r.query in
    elim (Bool-cases (is_empty header)) [
      | inr given ↦ rw (out, given) (some_iff m header t)
      | inl missing ↦ elim (Bool-cases (is_some config.auth)) [
        | inl auth ↦
            let (e, failed) = auth_fails m r missing in
            rw (out, missing, auth, failed) (none_iff m e t)
        | inr open_access ↦ elim (Bool-cases (is_empty param)) [
          | inl absent ↦
              rw (out, missing, open_access, absent)
                (none_iff m "no tenant information found in request" t)
          | inr present ↦ rw (out, missing, open_access, present) (some_iff m param t)
        ]
      ]
    ]

internal_iff :
    (config : Config.Config) (m : Manager) (now : Time) (r : Request) (t : TenantInfo)
    → is_internal r ≡ true
    → (extract_tenant_info config m now r ≡ ok t) ↔ (internal_tenant now ≡ t)
unfolding extract_tenant_info
internal_iff config m now r t internal = rw internal ((λ h. ok_inj h), (λ e. ap ok e))

-- A request is served as a tenant exactly when it carries the internal header, and the tenant is the
-- internal one, or else when it names a namespace that has resources, and the tenant is theirs. With
-- authentication configured only the tenant header names one, whatever the Authorization header
-- says.
pub extract_tenant_info_iff :
    (config : Config.Config) (m : Manager) (now : Time) (r : Request) (t : TenantInfo)
    → (extract_tenant_info config m now r ≡ ok t) ↔ (
        ((is_internal r ≡ true) × (internal_tenant now ≡ t))
        ⊎ ((is_internal r ≡ false) × ServedAs m (named_namespace config r) t))
extract_tenant_info_iff config m now r t = elim (Bool-cases (is_internal r)) [
  | inl internal ↦
      let whole = internal_iff config m now r t internal in
      (
        (λ h. inl (internal, whole.0 h)),
        (λ h. elim h [ inl (_, e) ↦ whole.1 e | inr (out, _) ↦ ground (arith, out, internal) ]),
      )
  | inr out ↦
      let named = named_iff config m now r t out in
      (
        (λ h. inr (out, named.0 h)),
        (λ h. elim h [
          | inl (internal, e) ↦ ground (arith, out, internal)
          | inr (_, s) ↦ named.1 s
        ]),
      )
]

merge-id : (merged : TenantInfo) (ts : List TenantInfo) → (merge merged ts).id ≡ merged.id
unfolding merge
merge-id merged [] = refl
merge-id merged (t ∷ ts) =
    merge-id
      (record merged {
        metric_patterns = merged.metric_patterns ++ t.metric_patterns;
        last_updated =
            if ltb merged.last_updated t.last_updated then t.last_updated else merged.last_updated;
      })
      ts

-- Two resources or more in a namespace make a tenant of their own.
pub merged_tenant-id :
    (m : Manager) (namespace : String) (t u : TenantInfo) (ts : List TenantInfo) (s : TenantInfo)
    → get_tenants_by_namespace m namespace ≡ t ∷ u ∷ ts
    → merged_tenant_for_namespace m namespace ≡ ok s
    → s.id ≡ join "merged/" namespace
unfolding merged_tenant_for_namespace merged_of
merged_tenant-id m namespace t u ts s two h =
    let made : merged_of namespace (t ∷ u ∷ ts) ≡ ok s =
      subst (λ l. merged_of namespace l ≡ ok s) two h in
    ap (λ x. x.id) (sym (ok_inj made)) ∙ merge-id (fresh_merge namespace t) (t ∷ u ∷ ts)
