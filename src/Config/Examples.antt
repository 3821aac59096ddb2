-- ===== src/Config/Examples.antt =====
-- The theorems on the configuration at a concrete file.
use prometheus_multi_tenant.Shared.{String, ◌≡◌, refl, Option, some}
use prometheus_multi_tenant.Config.{
  Config, ok, load, read, parse, validate_resource_types, validate_auth, set_defaults, validate,
  default_zero, default_empty,
}
use prometheus_multi_tenant.Config.Fixtures.{file}
use prometheus_multi_tenant.Config.Laws.{IsLoaded, load-IsLoaded}

abbrev read_file : String → Option String
read_file name = some "remote_write:"

abbrev unmarshal : String → Option Config
unmarshal text = some file

loads : load read_file unmarshal "config.yaml" ≡ ok (set_defaults file)
unfolding load read parse validate validate_resource_types validate_auth set_defaults default_zero
    default_empty
loads = refl

load-IsLoaded_example : IsLoaded (set_defaults file)
load-IsLoaded_example = load-IsLoaded read_file unmarshal "config.yaml" (set_defaults file) loads
