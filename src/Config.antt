-- ===== src/Config.antt =====
-- The configuration file (internal/config/config.go): its structures, `setDefaults`, `validate` and
-- `Load`. Reading the file and parsing YAML are parameters of `load`.
pub mod Laws
pub mod Fixtures
mod Examples
use prometheus_multi_tenant.Shared.{
  ℕ, ◌*◌, String, ◌≡◌, Bool, true, false, not, ◌&&◌, ◌||◌, Option, none, some, List, [], ◌∷◌,
  str_eq, if◌then◌else◌, length, ◌==◌,
}
use prometheus_multi_tenant.Shared.Int.{ℤ, pos, is_positive, is_zero, ltb_ℤ}
use prometheus_multi_tenant.Shared.Map.{Map}
use prometheus_multi_tenant.Shared.Text.{is_empty}
use prometheus_multi_tenant.Shared.Time.{Duration, second, minute}

pub record KubernetesDiscoveryConfig : Type 0 where
  pub namespaces : List String
  pub label_selectors : Map String
  pub annotation_selectors : Map String
  pub port : String
  pub resource_types : List String

pub record DiscoveryConfig : Type 0 where
  pub kubernetes : KubernetesDiscoveryConfig
  pub refresh_interval : Duration

pub record TenantConfig : Type 0 where
  pub watch_all_namespaces : Bool
  pub watch_namespaces : List String

pub record ProxyConfig : Type 0 where
  pub enable_caching : Bool
  pub cache_ttl : Duration
  pub enable_metrics : Bool
  pub enable_request_logging : Bool
  pub max_concurrent_requests : ℤ
  pub backend_timeout : Duration

pub record RemoteWriteConfig : Type 0 where
  pub enabled : Bool
  pub default_interval : Duration
  pub max_concurrent_jobs : ℤ
  pub collection_timeout : Duration
  pub retry_attempts : ℤ
  pub retry_delay : Duration
  pub batch_size : ℤ
  pub stall_grace_period : Duration
  pub recreate_backoff : Duration
  pub pod_restart_grace_period : Duration
  pub pod_restart_cooldown : Duration
  pub self_heal_pod_restart : Option Bool

pub record JwtConfig : Type 0 where
  pub secret_key : String
  pub issuer : String
  pub audience : String

pub record ApiKeyConfig : Type 0 where
  pub header_name : String
  pub static_keys : Map String

pub record AuthConfig : Type 0 where
  pub type : String
  pub jwt : Option JwtConfig
  pub api_key : Option ApiKeyConfig

pub record Config : Type 0 where
  pub discovery : DiscoveryConfig
  pub tenants : TenantConfig
  pub proxy : ProxyConfig
  pub remote_write : RemoteWriteConfig
  pub auth : Option AuthConfig

-- `if field == 0 { field = d }`, and `if field <= 0 { field = d }`.
unfoldable pub default_zero : ℤ → ℕ → ℤ
default_zero v d = if is_zero v then pos d else v

unfoldable pub default_nonpositive : ℤ → ℕ → ℤ
default_nonpositive v d = if is_positive v then v else pos d

unfoldable pub default_empty {ℓ} : {A : Type ℓ} → List A → List A → List A
default_empty [] d = d
default_empty (x ∷ xs) d = x ∷ xs

-- `setDefaults`, structure by structure.
kubernetes_defaults : KubernetesDiscoveryConfig → KubernetesDiscoveryConfig
kubernetes_defaults k = record k {
  port = if is_empty k.port then "9090" else k.port;
  resource_types = default_empty k.resource_types ("Service" ∷ []);
  label_selectors = default_empty k.label_selectors (("app", "prometheus") ∷ []);
}

discovery_defaults : DiscoveryConfig → DiscoveryConfig
unfolding kubernetes_defaults
discovery_defaults d = record {
  kubernetes = kubernetes_defaults d.kubernetes;
  refresh_interval = default_zero d.refresh_interval (30 * second);
}

proxy_defaults : ProxyConfig → ProxyConfig
proxy_defaults p = record p {
  cache_ttl = default_zero p.cache_ttl (5 * minute);
  max_concurrent_requests = default_zero p.max_concurrent_requests 100;
  backend_timeout = default_zero p.backend_timeout (30 * second);
}

unfoldable pub or_disabled : Option Bool → Option Bool
or_disabled none = some false
or_disabled (some b) = some b

unfoldable pub remote_write_defaults : RemoteWriteConfig → RemoteWriteConfig
remote_write_defaults r = record {
  enabled = r.enabled;
  default_interval = default_zero r.default_interval (30 * second);
  max_concurrent_jobs = default_zero r.max_concurrent_jobs 10;
  collection_timeout = default_zero r.collection_timeout (30 * second);
  retry_attempts = default_zero r.retry_attempts 3;
  retry_delay = default_zero r.retry_delay (5 * second);
  batch_size = default_nonpositive r.batch_size 5000;
  stall_grace_period = default_nonpositive r.stall_grace_period (15 * minute);
  recreate_backoff = default_nonpositive r.recreate_backoff (5 * minute);
  pod_restart_grace_period = default_nonpositive r.pod_restart_grace_period (45 * minute);
  pod_restart_cooldown = default_nonpositive r.pod_restart_cooldown (30 * minute);
  self_heal_pod_restart = or_disabled r.self_heal_pod_restart;
}

header_default : ApiKeyConfig → ApiKeyConfig
header_default k = if is_empty k.header_name then record k { header_name = "X-API-Key" } else k

auth_defaults : Option AuthConfig → Option AuthConfig
unfolding header_default
auth_defaults none = none
auth_defaults (some a) =
    some (record a { api_key = elim a.api_key [ none ↦ none | some k ↦ some (header_default k) ] })

pub set_defaults : Config → Config
unfolding discovery_defaults proxy_defaults remote_write_defaults auth_defaults
set_defaults c = record {
  discovery = discovery_defaults c.discovery;
  tenants = c.tenants;
  proxy = proxy_defaults c.proxy;
  remote_write = remote_write_defaults c.remote_write;
  auth = auth_defaults c.auth;
}

pub data ConfigError : Type 0 where
  read_failed parse_failed refresh_not_positive jwt_secret_missing : ConfigError
  invalid_resource_type invalid_auth_type : String → ConfigError

pub data Result {ℓ} (A : Type ℓ) : Type ℓ where
  ok : A → Result A
  err : ConfigError → Result A

infixl 5 ◌>>=◌ ◌>>◌
-- `if err != nil { return nil, err }` between two steps.
abbrev pub ◌>>=◌ {ℓ κ} : {X : Type ℓ} {Y : Type κ} → Result X → (X → Result Y) → Result Y
err reason >>= next = err reason
ok value >>= next = next value

abbrev pub ◌>>◌ {κ} : {Y : Type κ} → Result (Unit {0}) → Result Y → Result Y
check >> next = check >>= λ done. next

-- `validResourceTypes[t]` and `validAuthTypes[t]`
abbrev pub is_resource_type : String → Bool
is_resource_type t = str_eq t "Service" || str_eq t "Pod" || str_eq t "Endpoints"

abbrev pub is_auth_type : String → Bool
is_auth_type t = str_eq t "jwt" || str_eq t "apikey" || str_eq t "none"

validate_resource_types : List String → Result (Unit {0})
validate_resource_types [] = ok tt
validate_resource_types (t ∷ ts) =
    let rest = validate_resource_types ts in
    if is_resource_type t then rest else err (invalid_resource_type t)

abbrev lacks_secret : Option JwtConfig → Bool
lacks_secret none = true
lacks_secret (some j) = is_empty j.secret_key

validate_auth : Option AuthConfig → Result (Unit {0})
validate_auth none = ok tt
validate_auth (some a) =
    if not (is_auth_type a.type)
    then err (invalid_auth_type a.type)
    else if str_eq a.type "jwt" && lacks_secret a.jwt
    then err jwt_secret_missing
    else ok tt

-- The check of `validate` that only logs a warning.
pub premature_escalation : Config → Bool
premature_escalation c =
    ltb_ℤ c.remote_write.pod_restart_grace_period c.remote_write.stall_grace_period

pub validate : Config → Result (Unit {0})
validate c =
    if not (is_positive c.discovery.refresh_interval)
    then err refresh_not_positive
    else do validate_resource_types c.discovery.kubernetes.resource_types; validate_auth c.auth

-- `read_file` is `ioutil.ReadFile` and `unmarshal` is `yaml.Unmarshal`.
module _ (read_file : String → Option String) (unmarshal : String → Option Config) where
  parse : String → Result Config
  parse text = elim (unmarshal text) [ none ↦ err parse_failed | some c ↦ ok c ]

  read : String → Result String
  read filename = elim (read_file filename) [ none ↦ err read_failed | some text ↦ ok text ]

  pub load : String → Result Config
  load filename = do
    text ← read filename
    parsed ← parse text
    let config = set_defaults parsed
    validate config
    ok config
