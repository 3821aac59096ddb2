-- ===== src/RemoteWrite/HealthMetrics/Examples.antt =====
-- A scrape at a concrete controller.
use prometheus_multi_tenant.Shared.{◌≡◌, refl, true, [], ◌⊎◌, All, Any}
use prometheus_multi_tenant.Shared.Int.{pos, negsuc}
use prometheus_multi_tenant.Shared.Time.{minute}
use prometheus_multi_tenant.RemoteWrite.Job.{Controller}
use prometheus_multi_tenant.RemoteWrite.Fixtures.{wedged, with_job, with_job-IsWellFormed}
use prometheus_multi_tenant.RemoteWrite.HealthMetrics.{labels_of, unix, signed64, collect}
use prometheus_multi_tenant.RemoteWrite.HealthMetrics.Laws.{NoRepeat, collect-NoRepeat}

unix_runs : (unix 0 ≡ negsuc 62135596799) × (signed64 5 ≡ pos 5)
unfolding unix signed64
unix_runs = (refl, refl)

abbrev scraped : Controller
scraped = with_job (wedged true minute) 0

collect-NoRepeat_example :
    NoRepeat (collect scraped)
    × All
        (λ e. (e.labels ≡ []) ⊎ Any (λ entry. e.labels ≡ labels_of entry.1) scraped.jobs)
        (collect scraped)
collect-NoRepeat_example = collect-NoRepeat scraped (with_job-IsWellFormed true minute 0)
