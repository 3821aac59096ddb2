-- ===== src/Proxy/Direct/Laws.antt =====
-- The bound on the direct query's output.
use prometheus_multi_tenant.Shared.{
  ℕ, ◌+◌, ◌≤◌, ◌≡◌, String, false, List, [], ◌∷◌, length, arith, Bool-cases, inl, inr, leb,
}
use prometheus_multi_tenant.Shared.Text.{has_prefix}
use prometheus_multi_tenant.RemoteWrite.Query.{Sample}
use prometheus_multi_tenant.Proxy.Pages.{Format}
use prometheus_multi_tenant.Proxy.Direct.{result_lines}

result_lines-le :
    (f : Format) (type : String) (count : ℕ) (samples : List Sample)
    → has_prefix type "apiserver_" ≡ false
    → count ≤ 9
    → length (result_lines f type count samples) + count ≤ 11
unfolding result_lines
result_lines-le f type count [] other small = omega (arith, small)
result_lines-le f type count (s ∷ rest) other small = elim (Bool-cases (leb 10 (count + 1))) [
  | inl full ↦ ground (arith, other, full, small)
  | inr room ↦
      let later = result_lines-le f type (count + 1) rest other (ground (arith, room)) in
      ground (arith, other, room, later)
]

-- The direct query prints at most ten samples of a metric and one line on the rest, unless the
-- metric is one of the API server's.
pub result_lines_bounded :
    (f : Format) (type : String) (samples : List Sample)
    → has_prefix type "apiserver_" ≡ false
    → length (result_lines f type 0 samples) ≤ 11
result_lines_bounded f type samples other =
    omega (arith, result_lines-le f type 0 samples other (omega arith))
