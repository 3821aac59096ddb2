-- ===== src/RemoteWrite/HealthMetrics/Laws.antt =====
-- A scrape of the health metrics has no series twice.
use prometheus_multi_tenant.Shared.{
  ℕ, String, ◌≡◌, ◌≢◌, refl, sym, ap, ◌∙◌, List, [], ◌∷◌, ◌++◌, arith, All, All-append, All-map,
  Any, cons≢nil, ◌⊎◌, Bool-cases, inl, inr,
}
use prometheus_multi_tenant.Shared.Map.{Map, NoDup, lookup-All, Fresh-All}
use prometheus_multi_tenant.Shared.Text.{namespaced}
use prometheus_multi_tenant.Api.{key_of, wants_remote_write}
use prometheus_multi_tenant.RemoteWrite.Job.{RemoteWriteJob, Controller}
use prometheus_multi_tenant.RemoteWrite.SelfHeal.Spec.{IsWellFormed}
use prometheus_multi_tenant.RemoteWrite.HealthMetrics.{
  Family, collection_up, last_successful_collection, collected_series, stall_recreations,
  self_restart, Emitted, labels_of, emit_job, emit_jobs, collect,
}

-- The registry takes two metrics of one family with the same labels for a duplicate.
abbrev pub SameSeries : Emitted → Emitted → Type 0
SameSeries e f = (e.family ≡ f.family) × (e.labels ≡ f.labels)

abbrev pub NoRepeat : List Emitted → Type 0
NoRepeat [] = Unit
NoRepeat (e ∷ es) = All (λ f. SameSeries e f → ⊥) es × NoRepeat es

NoRepeat-append :
    (es fs : List Emitted)
    → NoRepeat es
    → NoRepeat fs
    → All (λ e. All (λ f. SameSeries e f → ⊥) fs) es
    → NoRepeat (es ++ fs)
NoRepeat-append [] fs h k apart = k
NoRepeat-append (e ∷ es) fs h k apart =
    (All-append (λ f. SameSeries e f → ⊥) es fs h.0 apart.0, NoRepeat-append es fs h.1 k apart.1)

-- The metrics of a job bear its labels.
Bears : List String → Emitted → Type 0
Bears labels e = e.labels ≡ labels

emit_job-Bears : (job : RemoteWriteJob) → All (Bears (labels_of job)) (emit_job job)
unfolding emit_job Bears
emit_job-Bears job = elim (Bool-cases (wants_remote_write job.metric_access)) [
  | inl on ↦ rw on (refl, (refl, (refl, (refl, tt))))
  | inr off ↦ rw off tt
]

rank : Family → ℕ
rank collection_up = 0
rank last_successful_collection = 1
rank collected_series = 2
rank stall_recreations = 3
rank self_restart = 4

differ : (f g : Family) → rank f ≢ rank g → f ≡ g → ⊥
differ f g h e = h (ap rank e)

emit_job-NoRepeat : (job : RemoteWriteJob) → NoRepeat (emit_job job)
unfolding emit_job rank
emit_job-NoRepeat job = elim (Bool-cases (wants_remote_write job.metric_access)) [
  | inl on ↦ rw on (
    (
      (λ s. differ collection_up last_successful_collection (omega arith) s.0),
      (
        (λ s. differ collection_up collected_series (omega arith) s.0),
        ((λ s. differ collection_up stall_recreations (omega arith) s.0), tt),
      ),
    ),
    (
      (
        (λ s. differ last_successful_collection collected_series (omega arith) s.0),
        ((λ s. differ last_successful_collection stall_recreations (omega arith) s.0), tt),
      ),
      (((λ s. differ collected_series stall_recreations (omega arith) s.0), tt), (tt, tt)),
    ),
  )
  | inr off ↦ rw off tt
]

key_from : List String → String
key_from [] = ""
key_from (namespace ∷ []) = ""
key_from (namespace ∷ name ∷ rest) = namespaced namespace name

-- Jobs of the same namespace and name have the same key.
keys_agree :
    (job other : RemoteWriteJob)
    → labels_of job ≡ labels_of other
    → key_of job.metric_access ≡ key_of other.metric_access
unfolding key_from
keys_agree job other h = ap key_from h

-- Each metric bears the labels of some job.
emit_jobs-Bears :
    (jobs : Map RemoteWriteJob)
    → All (λ e. Any (λ entry. Bears (labels_of entry.1) e) jobs) (emit_jobs jobs)
unfolding emit_jobs
emit_jobs-Bears [] = tt
emit_jobs-Bears ((key, job) ∷ rest) =
    All-append (λ e. Any (λ entry. Bears (labels_of entry.1) e) ((key, job) ∷ rest)) (emit_job job)
      (emit_jobs rest)
      (All-map (Bears (labels_of job))
        (λ e. Any (λ entry. Bears (labels_of entry.1) e) ((key, job) ∷ rest)) (emit_job job)
        (λ e b. inl b) (emit_job-Bears job))
      (All-map (λ e. Any (λ entry. Bears (labels_of entry.1) e) rest)
        (λ e. Any (λ entry. Bears (labels_of entry.1) e) ((key, job) ∷ rest)) (emit_jobs rest)
        (λ e b. inr b) (emit_jobs-Bears rest))

-- Each job stands under its key.
Keyed : Map RemoteWriteJob → Type 0
Keyed jobs = All (λ entry. key_of entry.1.metric_access ≡ entry.0) jobs

strangers :
    (key : String) (job : RemoteWriteJob) (rest : Map RemoteWriteJob)
    → key_of job.metric_access ≡ key
    → All (λ entry. entry.0 ≢ key) rest
    → Keyed rest
    → (e : Emitted) → Bears (labels_of job) e
    → Any (λ entry. Bears (labels_of entry.1) e) rest
    → ⊥
unfolding Keyed Bears
strangers key job [] own others keyed e b found = absurd found
strangers key job ((k, j) ∷ rest) own others keyed e b (inl here) =
    others.0 (sym keyed.0 ∙ keys_agree j job (sym here ∙ b) ∙ own)
strangers key job ((k, j) ∷ rest) own others keyed e b (inr there) =
    strangers key job rest own others.1 keyed.1 e b there

emit_jobs-NoRepeat :
    (jobs : Map RemoteWriteJob) → NoDup jobs → Keyed jobs → NoRepeat (emit_jobs jobs)
unfolding emit_jobs Keyed Bears
emit_jobs-NoRepeat [] h keyed = tt
emit_jobs-NoRepeat ((key, job) ∷ rest) h keyed =
    NoRepeat-append (emit_job job) (emit_jobs rest) (emit_job-NoRepeat job)
      (emit_jobs-NoRepeat rest h.1 keyed.1)
      (All-map (Bears (labels_of job)) (λ e. All (λ f. SameSeries e f → ⊥) (emit_jobs rest))
        (emit_job job)
        (λ e b.
          All-map (λ f. Any (λ entry. Bears (labels_of entry.1) f) rest) (λ f. SameSeries e f → ⊥)
            (emit_jobs rest)
            (λ f found s.
              strangers key job rest keyed.0 (Fresh-All key rest h.0) keyed.1 f (sym s.1 ∙ b) found)
            (emit_jobs-Bears rest))
        (emit_job-Bears job))

-- The metrics of jobs have labels, other than the one of the proxy.
unlabelled :
    (jobs : Map RemoteWriteJob) (e : Emitted)
    → e.labels ≡ []
    → Any (λ entry. Bears (labels_of entry.1) e) jobs
    → ⊥
unfolding Bears
unlabelled [] e none_at found = absurd found
unlabelled (entry ∷ rest) e none_at (inl here) = cons≢nil (sym here ∙ none_at)
unlabelled (entry ∷ rest) e none_at (inr there) = unlabelled rest e none_at there

-- A scrape of a well-formed controller has no series twice, and every series but the
-- one of the proxy itself bears the namespace and the name of a job in the table.
pub collect-NoRepeat :
    (c : Controller)
    → IsWellFormed c
    → NoRepeat (collect c)
      × All (λ e. (e.labels ≡ []) ⊎ Any (λ entry. e.labels ≡ labels_of entry.1) c.jobs) (collect c)
unfolding collect Keyed Bears
collect-NoRepeat c h =
    let bears = emit_jobs-Bears c.jobs in
    let keyed =
      lookup-All (λ key job. key_of job.metric_access ≡ key) c.jobs h.unique
        (λ key job e. (h.sound key job e).keyed) in
    (
      NoRepeat-append (emit_jobs c.jobs) _ (emit_jobs-NoRepeat c.jobs h.unique keyed) (tt, tt)
          (All-map (λ e. Any (λ entry. Bears (labels_of entry.1) e) c.jobs) _ (emit_jobs c.jobs)
            (λ e found. ((λ s. unlabelled c.jobs e s.1 found), tt)) bears),
      All-append _ (emit_jobs c.jobs) _
          (All-map (λ e. Any (λ entry. Bears (labels_of entry.1) e) c.jobs) _ (emit_jobs c.jobs)
            (λ e found. inr found) bears)
          (inl refl, tt),
    )
