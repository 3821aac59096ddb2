-- ===== src/RemoteWrite/Collector/Write/Laws.antt =====
-- What the retries of a write come to.
use prometheus_multi_tenant.Shared.{
  ℕ, zero, suc, ◌+◌, ◌<◌, String, ◌≡◌, ◌↔◌, refl, subst, Option, none, some, List, arith,
  Option-cases, inl, inr,
}
use prometheus_multi_tenant.RemoteWrite.Collector.Series.{TimeSeries}
use prometheus_multi_tenant.RemoteWrite.Collector.Write.{
  Reply, attempt_error, write_from, write, send_remote_write,
}

-- One of the `left` attempts from `i` on gets a status of 2xx.
abbrev pub AcceptedWithin : (ℕ → Reply) → ℕ → ℕ → Type 0
AcceptedWithin exchange left i = (k : ℕ) × (k < left) × (attempt_error (exchange (i + k)) ≡ none)

AcceptedWithin-first :
    (exchange : ℕ → Reply) (left i : ℕ)
    → attempt_error (exchange i) ≡ none
    → AcceptedWithin exchange (suc left) i
AcceptedWithin-first exchange left i h =
    (0, omega arith, subst (λ j. attempt_error (exchange j) ≡ none) (omega arith) h)

AcceptedWithin-later :
    (exchange : ℕ → Reply) (left i : ℕ)
    → AcceptedWithin exchange left (i + 1)
    → AcceptedWithin exchange (suc left) i
AcceptedWithin-later exchange left i (k, b, h) =
    (suc k, omega (arith, b), subst (λ j. attempt_error (exchange j) ≡ none) (omega arith) h)

-- After a failed attempt the reply is among the later ones.
AcceptedWithin-rest :
    (exchange : ℕ → Reply) (left i : ℕ) (e : String)
    → attempt_error (exchange i) ≡ some e
    → AcceptedWithin exchange (suc left) i
    → AcceptedWithin exchange left (i + 1)
AcceptedWithin-rest exchange left i e bad (zero, b, h) =
    let at_i : attempt_error (exchange i) ≡ none =
      subst (λ j. attempt_error (exchange j) ≡ none) (omega arith) h in
    ground (arith, bad, at_i)
AcceptedWithin-rest exchange left i e bad (suc k, b, h) =
    (k, omega (arith, b), subst (λ j. attempt_error (exchange j) ≡ none) (omega arith) h)

write_from_iff :
    (exchange : ℕ → Reply) (left i : ℕ) (last_err : String)
    → (write_from none exchange left i last_err ≡ none) ↔ AcceptedWithin exchange left i
unfolding write_from
write_from_iff exchange zero i last_err = ((λ h. ground arith), (λ (k, b, h). ground (arith, b)))
write_from_iff exchange (suc left) i last_err = elim (Option-cases (attempt_error (exchange i))) [
  | inl good ↦ rw (write_from, good) ((λ h. AcceptedWithin-first exchange left i good), (λ h. refl))
  | inr (e, bad) ↦
      let rest = write_from_iff exchange left (i + 1) e in
      rw (write_from, bad)
        (
          (λ h. AcceptedWithin-later exchange left i (rest.0 h)),
          (λ h. rest.1 (AcceptedWithin-rest exchange left i e bad h)),
        )
]

-- A write is accepted: its request can be made, and one of three attempts gets a status of 2xx.
abbrev pub Accepted : Option String → (ℕ → Reply) → Type 0
Accepted request exchange = (request ≡ none) × AcceptedWithin exchange 3 0

write_iff :
    (request : Option String) (exchange : ℕ → Reply)
    → (write request exchange ≡ none) ↔ Accepted request exchange
unfolding write write_from
write_iff (some e) exchange = ((λ h. ground arith), (λ (bad, _). ground (arith, bad)))
write_iff none exchange =
    let loop = write_from_iff exchange 3 0 "" in ((λ h. (refl, loop.0 h)), (λ h. loop.1 h.1))

-- A write ends with success exactly when its request can be made and one of the first three
-- attempts gets a reply with a status of 2xx; it never takes a fourth attempt into account.
pub send_remote_write_iff :
    (request_error : String → Option String) (exchange : String → List TimeSeries → ℕ → Reply)
    (url : String) (series : List TimeSeries)
    → (send_remote_write request_error exchange url series ≡ none)
      ↔ Accepted (request_error url) (exchange url series)
unfolding send_remote_write
send_remote_write_iff request_error exchange url series =
    write_iff (request_error url) (exchange url series)
