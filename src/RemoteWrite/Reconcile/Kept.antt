-- ===== src/RemoteWrite/Reconcile/Kept.antt =====
-- Which jobs a reconciliation keeps.
use prometheus_multi_tenant.Shared.{
  String, ◌≡◌, ◌⊎◌, refl, sym, subst, true, false, Option, some, List, [], ◌∷◌, ◌++◌, arith, str_eq,
  eq_refl, All, Bool-cases, inl, inr,
}
use prometheus_multi_tenant.Shared.Map.{lookup, has}
use prometheus_multi_tenant.Shared.Time.{Time}
use prometheus_multi_tenant.Api.{MetricAccess, key_of, wants_remote_write}
use prometheus_multi_tenant.RemoteWrite.Job.{RemoteWriteJob, Controller}
use prometheus_multi_tenant.RemoteWrite.Reconcile.{
  has_configuration_changed, desired_jobs, reconcile_remote_write_jobs,
}
use prometheus_multi_tenant.RemoteWrite.Reconcile.Change.{
  SameConfiguration, HasLabels, has_configuration_changed_iff,
}
use prometheus_multi_tenant.RemoteWrite.Reconcile.Laws.{
  new_job, settled, settled_by, reconcile_settles,
}

-- No resource of the list has the key.
abbrev pub Others : String → List MetricAccess → Type 0
Others key items = All (λ ma. str_eq (key_of ma) key ≡ false) items

desired_member :
    (ma : MetricAccess) (before after : List MetricAccess)
    → wants_remote_write ma ≡ true
    → has (key_of ma) (desired_jobs (before ++ (ma ∷ after))) ≡ true
desired_member ma [] after w = ground (arith, w, eq_refl (key_of ma))
desired_member ma (x ∷ before) after w = ground (arith, desired_member ma before after w)

module _ (clock : String → Time) where
  settled_by-Others :
      (key : String) (items : List MetricAccess) (o : Option RemoteWriteJob)
      → Others key items
      → settled_by clock key items o ≡ o
  unfolding settled_by
  settled_by-Others key [] o h = refl
  settled_by-Others key (ma ∷ items) o h = ground (arith, h.0, settled_by-Others key items o h.1)

  settled_by_one :
      (ma : MetricAccess) (before after : List MetricAccess) (o : Option RemoteWriteJob)
      → wants_remote_write ma ≡ true
      → Others (key_of ma) before
      → Others (key_of ma) after
      → settled_by clock (key_of ma) (before ++ (ma ∷ after)) o ≡ settled clock ma o
  unfolding settled_by
  settled_by_one ma [] after o w b a =
      ground
        (arith, w, eq_refl (key_of ma), settled_by-Others (key_of ma) after (settled clock ma o) a)
  settled_by_one ma (x ∷ before) after o w b a =
      ground (arith, b.0, settled_by_one ma before after o w b.1 a)

  -- What becomes of the job of a resource.
  abbrev pub KeptOrRenewed : MetricAccess → RemoteWriteJob → Option RemoteWriteJob → Type 0
  KeptOrRenewed ma job now =
      (SameConfiguration job.metric_access ma × (now ≡ some job))
      ⊎ ((¬ SameConfiguration job.metric_access ma) × (now ≡ new_job clock ma ma.spec.remote_write))

  settled-KeptOrRenewed :
      (ma : MetricAccess) (job : RemoteWriteJob)
      → HasLabels job.metric_access.spec.remote_write
      → HasLabels ma.spec.remote_write
      → KeptOrRenewed ma job (settled clock ma (some job))
  settled-KeptOrRenewed ma job d e =
      let iff = has_configuration_changed_iff job.metric_access ma d e in
      elim (Bool-cases (has_configuration_changed job.metric_access ma)) [
        | inl changed ↦ inr ((λ same. ground (arith, iff.1 same, changed)), rw changed refl)
        | inr kept ↦ inl (iff.0 kept, rw kept refl)
      ]

  -- For the one listed resource of its key, with remote write enabled and a running job, a
  -- reconciliation does not panic, and it keeps the job as it is when the resource that the job
  -- holds and the listed one have the same isolation, the same number of patterns with every
  -- listed pattern among the job's, and, where both have a remote write section, the same interval,
  -- target type, extra labels, number of relabelings, and, where both have a Prometheus target,
  -- replicas and stateful set; when any of these differs, the job is replaced by a fresh one, or
  -- by none if the target type is unknown. Nothing else is compared: label selectors, the content
  -- of relabelings, URLs and credentials are not. The extra labels have each name once.
  pub job-KeptOrRenewed :
      (c : Controller) (before after : List MetricAccess) (ma : MetricAccess) (job : RemoteWriteJob)
      → wants_remote_write ma ≡ true
      → Others (key_of ma) before
      → Others (key_of ma) after
      → lookup (key_of ma) c.jobs ≡ some job
      → HasLabels job.metric_access.spec.remote_write
      → HasLabels ma.spec.remote_write
      → (c' : Controller) × (reconcile_remote_write_jobs clock c (some (before ++ (ma ∷ after)))
          ≡ some c')
        × KeptOrRenewed ma job (lookup (key_of ma) c'.jobs)
  job-KeptOrRenewed c before after ma job w b a found d e =
      let (c', done, jobs) = reconcile_settles clock c (before ++ (ma ∷ after)) in
      let here : lookup (key_of ma) c'.jobs ≡ settled clock ma (some job) = ground (
        arith,
        jobs (key_of ma),
        desired_member ma before after w,
        found,
        settled_by_one ma before after (lookup (key_of ma) c.jobs) w b a,
      ) in
      (c', done, subst (KeptOrRenewed ma job) (sym here) (settled-KeptOrRenewed ma job d e))
