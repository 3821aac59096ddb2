-- ===== src/RemoteWrite/SelfHeal/Refinement.antt =====
-- `evaluateSelfHeal` as a whole refines the specification of one job.
use prometheus_multi_tenant.Shared.{
  String, ◌≡◌, refl, sym, subst, ap, ◌∙◌, Bool, true, false, Option, none, some, List, [], ◌∷◌, ◌⊎◌,
  inl, inr, if◌then◌else◌, arith, Bool-cases, Option-cases, map_option, some_inj, str_eq, eq_iff,
  eq_refl,
}
use prometheus_multi_tenant.Shared.Map.{Map, lookup, has, Distinct, NoDup}
use prometheus_multi_tenant.Shared.Time.{Time}
use prometheus_multi_tenant.Shared.Word.{inc64}
use prometheus_multi_tenant.RemoteWrite.Job.{RemoteWriteJob, Controller, is_job_stalled, fresh_job}
use prometheus_multi_tenant.RemoteWrite.SelfHeal.{
  proceed, exited, mark_stalled, carry_over, stalled_keys, evaluate_self_heal,
}
use prometheus_multi_tenant.RemoteWrite.SelfHeal.Spec.{
  IsSound, IsWellFormed, exits_for, stalled_outcome, healed,
}
use prometheus_multi_tenant.RemoteWrite.SelfHeal.Sweep.{Listed, heal_all_cases}

abbrev is_stalled_at : Controller → Time → Option RemoteWriteJob → Bool
is_stalled_at c now none = false
is_stalled_at c now (some job) = is_job_stalled c job now

module _ (c : Controller) (now : Time) where
  has-stalled_keys :
      (j : String) (m : Map RemoteWriteJob)
      → NoDup m
      → has j (stalled_keys c now m) ≡ is_stalled_at c now (lookup j m)
  unfolding stalled_keys lookup
  has-stalled_keys j [] d = refl
  has-stalled_keys j ((k, job) ∷ m) d = elim (Bool-cases (str_eq k j)) [
    | inl e ↦
        ground (arith, e, has-stalled_keys j m d.1, d.0, ap (λ i. lookup i m) ((eq_iff k j).0 e))
    | inr e ↦ ground (arith, e, has-stalled_keys j m d.1)
  ]

  stalled_keys-Distinct : (m : Map RemoteWriteJob) → NoDup m → Distinct (stalled_keys c now m)
  unfolding stalled_keys
  stalled_keys-Distinct [] d = tt
  stalled_keys-Distinct ((k, job) ∷ m) d =
      ground (arith, stalled_keys-Distinct m d.1, has-stalled_keys k m d.1, d.0)

  Listed-of_has :
      (ks : List String)
      → ((j : String)
          → has j ks ≡ true
          → (job : RemoteWriteJob) × (lookup j c.jobs ≡ some job) × IsSound j job)
      → Listed c ks
  Listed-of_has [] f = tt
  Listed-of_has (k ∷ ks) f =
      (f k (ground (arith, eq_refl k)), Listed-of_has ks (λ j h. f j (ground (arith, h))))

  module _ (wf : IsWellFormed c) where
    stalled_entry :
        (j : String)
        → has j (stalled_keys c now c.jobs) ≡ true
        → (job : RemoteWriteJob) × (lookup j c.jobs ≡ some job) × IsSound j job
    stalled_entry j h = elim (Option-cases (lookup j c.jobs)) [
      | inl e ↦ cc (has-stalled_keys j c.jobs wf.unique, ap (is_stalled_at c now) e, h)
      | inr (job, e) ↦ (job, e, wf.sound j job e)
    ]

    stalled_job :
        (j : String) (job : RemoteWriteJob)
        → has j (stalled_keys c now c.jobs) ≡ true
        → lookup j c.jobs ≡ some job
        → is_job_stalled c job now ≡ true
    stalled_job j job h e = cc (has-stalled_keys j c.jobs wf.unique, ap (is_stalled_at c now) e, h)

    healed_entry :
        (clock : String → Time) (j : String) (o : Option RemoteWriteJob)
        → (if is_stalled_at c now o then map_option (stalled_outcome c now (clock j)) o else o)
          ≡ map_option (healed c now (clock j)) o
    unfolding healed
    healed_entry clock j none = refl
    healed_entry clock j (some job) = ground arith

    -- A sweep over a well-formed table either goes through, and has then changed every job by
    -- `healed`, a function of that job alone, and nothing else of the controller, no stalled job
    -- being one that `exits_for` singles out; or it exits the process for such a job, the restart
    -- recorded. It never panics.
    pub evaluate_self_heal_refines :
        (clock : String → Time)
        → ((jobs : Map RemoteWriteJob) × (evaluate_self_heal clock c now
              ≡ proceed (record c { jobs = jobs }))
            × NoDup jobs
            × ((j : String) (job : RemoteWriteJob)
                → lookup j c.jobs ≡ some job
                → is_job_stalled c job now ≡ true
                → exits_for c job now ≡ false)
            × ((j : String)
                → lookup j jobs ≡ map_option (healed c now (clock j)) (lookup j c.jobs)))
          ⊎ ((key : String) × (job : RemoteWriteJob) × (jobs : Map RemoteWriteJob) × (lookup key
                  c.jobs
                ≡ some job)
              × (is_job_stalled c job now ≡ true)
              × (exits_for c job now ≡ true)
              × (evaluate_self_heal clock c now
                  ≡ exited (record c {
                    jobs = jobs;
                    last_self_restart_at = now;
                    self_restart_total = inc64 c.self_restart_total;
                  })))
    unfolding evaluate_self_heal
    evaluate_self_heal_refines clock =
        elim (heal_all_cases clock now c (stalled_keys c now c.jobs)
          (stalled_keys-Distinct c.jobs wf.unique)
          (Listed-of_has (stalled_keys c now c.jobs) stalled_entry)) [
            | inl done ↦ inl (
              done.jobs,
              done.ends,
              done.unique wf.unique,
              (λ j job e h.
                  done.none_due j job
                    (cc (has-stalled_keys j c.jobs wf.unique, ap (is_stalled_at c now) e, h)) e),
              (λ j.
                  done.entries j
                  ∙ rw (has-stalled_keys j c.jobs wf.unique)
                      (healed_entry clock j (lookup j c.jobs))),
            )
            | inr r ↦ inr (
              r.key,
              r.job,
              r.jobs,
              r.present,
              stalled_job r.key r.job r.listed r.present,
              r.due,
              r.ends,
            )
          ]

proceed-injective : {c d : Controller} → proceed c ≡ proceed d → c ≡ d
proceed-injective h = cc

-- The outcome of a sweep that goes through, for the table that it returns.
pub sweep_entries :
    (c d : Controller) (now : Time) (clock : String → Time)
    → IsWellFormed c
    → evaluate_self_heal clock c now ≡ proceed d
    → (d ≡ record c { jobs = d.jobs })
      × NoDup d.jobs
      × ((j : String) → lookup j d.jobs ≡ map_option (healed c now (clock j)) (lookup j c.jobs))
sweep_entries c d now clock wf h = elim (evaluate_self_heal_refines c now wf clock) [
  | inl (jobs, ends, unique, none_due, entries) ↦
      let e = proceed-injective (sym ends ∙ h) in
      (
        subst (λ x. x ≡ record c { jobs = x.jobs }) e refl,
        subst (λ x. NoDup x.jobs) e unique,
        λ j. ap (λ (x : Controller). lookup j x.jobs) (sym e) ∙ entries j,
      )
  | inr (key, job, jobs, present, stalled, due, ends) ↦ cc
]

-- No branch touches the resource of a job.
pub healed-access :
    (c : Controller) (now reading : Time) (job : RemoteWriteJob)
    → (healed c now reading job).metric_access ≡ job.metric_access
unfolding healed stalled_outcome mark_stalled carry_over fresh_job
healed-access c now reading job = ground arith

healed-IsSound :
    (c : Controller) (now reading : Time) (key : String) (job : RemoteWriteJob)
    → IsSound key job
    → IsSound key (healed c now reading job)
healed-IsSound c now reading key job s = record {
  keyed = rw healed-access s.keyed;
  target = rw healed-access s.target;
}

map_option-IsSound :
    (c : Controller) (now reading : Time) (key : String) (job : RemoteWriteJob)
    (o : Option RemoteWriteJob)
    → ((old : RemoteWriteJob) → o ≡ some old → IsSound key old)
    → map_option (healed c now reading) o ≡ some job
    → IsSound key job
map_option-IsSound c now reading key job none sound e = cc
map_option-IsSound c now reading key job (some old) sound e =
    subst (IsSound key) (some_inj e) (healed-IsSound c now reading key old (sound old refl))

-- A sweep that goes through keeps the table well formed: a map of jobs that stand under the keys of
-- their resources and have supported targets.
pub sweep-IsWellFormed :
    (c d : Controller) (now : Time) (clock : String → Time)
    → IsWellFormed c
    → evaluate_self_heal clock c now ≡ proceed d
    → IsWellFormed d
sweep-IsWellFormed c d now clock wf h =
    let (_, unique, entries) = sweep_entries c d now clock wf h in
    record {
      unique = unique;
      sound = λ key job e.
          map_option-IsSound c now (clock key) key job (lookup key c.jobs) (wf.sound key)
            (sym (entries key) ∙ e);
    }
