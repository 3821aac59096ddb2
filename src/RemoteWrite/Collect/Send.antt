-- ===== src/RemoteWrite/Collect/Send.antt =====
-- Sending a collection in batches (internal/remote_write/controller.go, `sendMetrics`). The
-- collectors, an interface of the program with one implementation for each target type, are a
-- parameter: `send type resource batch` is the error of the collector's `Send`.
use prometheus_multi_tenant.Shared.{
  ℕ, String, ◌+◌, ◌≡◌, ◌↔◌, refl, sym, subst, some_inj, true, Option, none, some, List, [], ◌∷◌,
  arith, if◌then◌else◌, length, All, Bool-cases, Option-cases, inl, inr,
}
use prometheus_multi_tenant.Shared.Int.{ℤ, pos}
use prometheus_multi_tenant.Shared.Text.{join, join_with, show_int}
use prometheus_multi_tenant.Api.{MetricAccess}
use prometheus_multi_tenant.Api
use prometheus_multi_tenant.RemoteWrite.Metric.{Metric}
use prometheus_multi_tenant.RemoteWrite.Job.{is_target_type}
use prometheus_multi_tenant.RemoteWrite.Batch.{split_into_batches}

-- The result of `sendMetrics`; without a remote write section it dereferences a nil pointer.
pub data Sending : Type 0 where
  sent : Sending
  send_error : String → Sending
  nil_section : Sending

-- `fmt.Sprintf("batch %d/%d: %v", i+1, len(batches), err)`
abbrev batch_error : ℕ → ℕ → String → String
batch_error i total e =
    join "batch "
      (join (show_int (pos (i + 1))) (join "/" (join (show_int (pos total)) (join ": " e))))

-- `remote write errors (%d/%d batches failed): %s`
abbrev errors_text : ℕ → List String → String
errors_text total errs = join "remote write errors (" (
    join (show_int (pos (length errs)))
      (join "/" (join (show_int (pos total)) (join " batches failed): " (join_with "; " errs)))))

abbrev add_error : ℕ → ℕ → Option String → List String → List String
add_error i total none errs = errs
add_error i total (some e) errs = batch_error i total e ∷ errs

abbrev pub conclude : ℕ → List String → Sending
conclude total [] = sent
conclude total (e ∷ es) = send_error (errors_text total (e ∷ es))

-- Not a panic.
abbrev pub Ends : Sending → Type 0
Ends sent = Unit
Ends (send_error e) = Unit
Ends nil_section = ⊥

conclude-Ends : (total : ℕ) (errs : List String) → Ends (conclude total errs)
conclude-Ends total [] = tt
conclude-Ends total (e ∷ es) = tt

module _ (send : String → MetricAccess → List Metric → Option String) where
  -- The loop over the batches from index `i` on: a failed batch does not stop it.
  unfoldable pub send_batches : String → MetricAccess → ℕ → ℕ → List (List Metric) → List String
  send_batches type ma total i [] = []
  send_batches type ma total i (b ∷ bs) =
      add_error i total (send type ma b) (send_batches type ma total (i + 1) bs)

  pub send_to : ℤ → MetricAccess → List Metric → Option Api.RemoteWriteConfig → Sending
  unfolding send_batches
  send_to size ma metrics none = nil_section
  send_to size ma metrics (some r) =
      let batches = split_into_batches metrics size in
      if is_target_type r.target.type
      then conclude (length batches) (send_batches r.target.type ma (length batches) 0 batches)
      else send_error (join "unsupported remote write target type: " r.target.type)

  unfoldable pub send_metrics : ℤ → MetricAccess → List Metric → Sending
  unfolding send_to
  send_metrics size ma metrics = send_to size ma metrics ma.spec.remote_write

  send_to-Ends :
      (size : ℤ) (ma : MetricAccess) (metrics : List Metric) (r : Api.RemoteWriteConfig)
      → Ends (send_to size ma metrics (some r))
  unfolding send_to
  send_to-Ends size ma metrics r = elim (Bool-cases (is_target_type r.target.type)) [
    | inr unknown ↦ rw unknown tt
    | inl known ↦
        let batches = split_into_batches metrics size in
        rw known (
          conclude-Ends (length batches) (send_batches r.target.type ma (length batches) 0 batches))
  ]

  -- With a remote write section, sending ends in success or in an error.
  pub send_metrics-Ends :
      (size : ℤ) (ma : MetricAccess) (metrics : List Metric) (r : Api.RemoteWriteConfig)
      → ma.spec.remote_write ≡ some r
      → Ends (send_metrics size ma metrics)
  unfolding send_metrics
  send_metrics-Ends size ma metrics r h =
      subst (λ o. Ends (send_to size ma metrics o)) (sym h) (send_to-Ends size ma metrics r)

  conclude_iff :
      (type : String) (ma : MetricAccess) (total i : ℕ) (bs : List (List Metric))
      → (conclude total (send_batches type ma total i bs) ≡ sent)
        ↔ All (λ b. send type ma b ≡ none) bs
  unfolding send_batches
  conclude_iff type ma total i [] = ((λ h. tt), (λ h. refl))
  conclude_iff type ma total i (b ∷ bs) = elim (Option-cases (send type ma b)) [
    | inl q ↦
        let rest = conclude_iff type ma total (i + 1) bs in
        rw q ((λ h. (refl, rest.0 h)), (λ h. rest.1 h.1))
    | inr (e, q) ↦ rw q ((λ h. ground arith), (λ h. ground arith))
  ]

  accepted :
      (size : ℤ) (ma : MetricAccess) (metrics : List Metric) (r : Api.RemoteWriteConfig)
      → (send_to size ma metrics (some r) ≡ sent) ↔ (
          (is_target_type r.target.type ≡ true)
          × All (λ b. send r.target.type ma b ≡ none) (split_into_batches metrics size))
  unfolding send_to
  accepted size ma metrics r =
      let batches = split_into_batches metrics size in
      let all_of = conclude_iff r.target.type ma (length batches) 0 batches in
      elim (Bool-cases (is_target_type r.target.type)) [
        | inl known ↦ rw known ((λ h. (refl, all_of.0 h)), (λ h. all_of.1 h.1))
        | inr unknown ↦ rw unknown ((λ h. ground arith), (λ h. ground arith))
      ]

  send_to_iff :
      (size : ℤ) (ma : MetricAccess) (metrics : List Metric) (o : Option Api.RemoteWriteConfig)
      → (send_to size ma metrics o ≡ sent) ↔ (
          (r : Api.RemoteWriteConfig) × (o ≡ some r)
          × (is_target_type r.target.type ≡ true)
          × All (λ b. send r.target.type ma b ≡ none) (split_into_batches metrics size))
  unfolding send_to
  send_to_iff size ma metrics none = ((λ h. ground arith), (λ (r, e, _, _). ground (arith, e)))
  send_to_iff size ma metrics (some r) = (
    (λ h. let (a, b) = (accepted size ma metrics r).0 h in (r, refl, a, b)),
    (λ (r', e, a, b).
        subst (λ x. send_to size ma metrics (some x) ≡ sent) (some_inj (sym e))
          ((accepted size ma metrics r').1 (a, b))),
  )

  -- Sending succeeds exactly when the job's target type is a known one and the collector of that
  -- type accepts every batch: no failed batch is lost on the way.
  pub send_metrics_iff :
      (size : ℤ) (ma : MetricAccess) (metrics : List Metric)
      → (send_metrics size ma metrics ≡ sent) ↔ (
          (r : Api.RemoteWriteConfig) × (ma.spec.remote_write ≡ some r)
          × (is_target_type r.target.type ≡ true)
          × All (λ b. send r.target.type ma b ≡ none) (split_into_batches metrics size))
  unfolding send_metrics
  send_metrics_iff size ma metrics = send_to_iff size ma metrics ma.spec.remote_write
