-- ===== src/RemoteWrite/Collector/Write.antt =====
-- A write request with its retries (internal/remote_write/collector.go, `sendRemoteWrite`).
-- `request_error` is the error of `http.NewRequest`, `exchange` the outcome of each attempt.
pub mod Laws
use prometheus_multi_tenant.Shared.{
  ℕ, zero, suc, String, ◌/◌, ◌+◌, Option, none, some, List, [], ◌∷◌, ◌==◌, if◌then◌else◌,
}
use prometheus_multi_tenant.Shared.Int.{pos}
use prometheus_multi_tenant.Shared.Text.{join, show_int}
use prometheus_multi_tenant.RemoteWrite.Collector.Series.{TimeSeries}

-- An error of the client, or a reply with its status and body.
pub data Reply : Type 0 where
  failed : String → Reply
  replied : ℕ → String → Reply

-- The `lastErr` that an attempt leaves; `none` is a status of 2xx.
unfoldable pub attempt_error : Reply → Option String
attempt_error (failed e) = some (join "request failed: " e)
attempt_error (replied status body) =
    if status / 100 == 2
    then none
    else some (join "status " (join (show_int (pos status)) (join ": " body)))

-- The loop from attempt `i` on, with `left` attempts to go. Every attempt makes the same request
-- anew, from the same arguments; `request` is the error of that.
unfoldable pub write_from : Option String → (ℕ → Reply) → ℕ → ℕ → String → Option String
write_from request exchange zero i last_err = some (join "failed after retries: " last_err)
write_from (some e) exchange (suc left) i last_err = some (join "failed to create request: " e)
write_from none exchange (suc left) i last_err = elim (attempt_error (exchange i)) [
  | none ↦ none
  | some e ↦ write_from none exchange left (i + 1) e
]

-- The error of the write, `none` if it succeeds.
unfoldable pub write : Option String → (ℕ → Reply) → Option String
unfolding write_from
write request exchange = write_from request exchange 3 0 ""

-- `request_error url` is the error of the request's creation, and `exchange url series` gives the
-- replies to the attempts with those series.
module _ (request_error : String → Option String)
    (exchange : String → List TimeSeries → ℕ → Reply) where
  unfoldable pub send_remote_write : String → List TimeSeries → Option String
  unfolding write
  send_remote_write url series = write (request_error url) (exchange url series)
