-- ===== src/Api.antt =====
-- The MetricAccess custom resource (api/v1alpha1/metricaccess_types.go). Kubernetes' object metadata
-- is modelled by the two fields that the program reads, the namespace and the name.
use prometheus_multi_tenant.Shared.{ℕ, String, Bool, false, Option, none, some, List}
use prometheus_multi_tenant.Shared.Int.{ℤ}
use prometheus_multi_tenant.Shared.Map.{Map}
use prometheus_multi_tenant.Shared.Text.{namespaced}
use prometheus_multi_tenant.Shared.Time.{Time, Duration}

pub record SecretReference : Type 0 where
  pub name : String
  pub key : String

pub record BasicAuth : Type 0 where
  pub username : String
  pub password_secret : SecretReference

pub record PrometheusTarget : Type 0 where
  pub service_name : String
  pub service_port : ℤ
  pub replicas : ℤ
  pub stateful_set_name : String
  pub target_namespace : String

pub record PushgatewayTarget : Type 0 where
  pub service_name : String
  pub service_port : ℤ
  pub job_name : String

pub record RemoteWriteEndpoint : Type 0 where
  pub url : String
  pub basic_auth : Option BasicAuth
  pub headers : Map String

pub record RemoteWriteTarget : Type 0 where
  pub type : String
  pub prometheus : Option PrometheusTarget
  pub pushgateway : Option PushgatewayTarget
  pub remote_write : Option RemoteWriteEndpoint

pub record MetricRelabelConfig : Type 0 where
  pub source_labels : List String
  pub separator : String
  pub regex : String
  pub target_label : String
  pub replacement : String
  pub action : String

pub record RemoteWriteConfig : Type 0 where
  pub enabled : Bool
  pub interval : Duration
  pub target : RemoteWriteTarget
  pub prometheus : Option PrometheusTarget
  pub pushgateway : Option PushgatewayTarget
  pub remote_write : Option RemoteWriteEndpoint
  pub extra_labels : Map String
  pub honor_labels : Bool
  pub metric_relabelings : List MetricRelabelConfig

pub record MetricAccessSpec : Type 0 where
  pub metrics : List String
  pub source : String
  pub label_selectors : Map String
  pub metric_isolation : Bool
  pub remote_write : Option RemoteWriteConfig

-- `metrics_collected` is the bit pattern of an int32.
pub record RemoteWriteStatus : Type 0 where
  pub active : Bool
  pub last_collection : Time
  pub metrics_collected : ℕ
  pub last_error : String

-- The conditions, the update time and the list of validated metrics are never written.
pub record MetricAccessStatus : Type 0 where
  pub remote_write : Option RemoteWriteStatus

pub record MetricAccess : Type 0 where
  pub namespace : String
  pub name : String
  pub spec : MetricAccessSpec
  pub status : MetricAccessStatus

-- `fmt.Sprintf("%s/%s", metricAccess.Namespace, metricAccess.Name)`
abbrev pub key_of : MetricAccess → String
key_of ma = namespaced ma.namespace ma.name

-- `metricAccess.Spec.RemoteWrite != nil && metricAccess.Spec.RemoteWrite.Enabled`
abbrev pub is_enabled : Option RemoteWriteConfig → Bool
is_enabled none = false
is_enabled (some rw_config) = rw_config.enabled

abbrev pub wants_remote_write : MetricAccess → Bool
wants_remote_write ma = is_enabled ma.spec.remote_write
