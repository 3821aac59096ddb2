-- ===== src/RemoteWrite/SelfHeal/Sweep.antt =====
-- The whole sweep: it refines the specification of one job at every key, whatever the order of the
-- table, unless it restarts the pod for one of the stalled jobs.
use prometheus_multi_tenant.Shared.{
  String, ◌≡◌, refl, sym, subst, ◌∙◌, ap, some_inj, true, false, false≢true, some, List, [], ◌∷◌,
  ◌⊎◌, inl, inr, if◌then◌else◌, arith, All, Bool-cases, map_option, str_eq, eq_iff, eq_refl,
}
use prometheus_multi_tenant.Shared.Map.{Map, lookup, has, Distinct, NoDup, insert}
use prometheus_multi_tenant.Shared.Time.{Time}
use prometheus_multi_tenant.Shared.Word.{inc64}
use prometheus_multi_tenant.RemoteWrite.Job.{RemoteWriteJob, Controller}
use prometheus_multi_tenant.RemoteWrite.SelfHeal.{
  Turn, proceed, exited, heal_job, heal_all, mark_stalled,
}
use prometheus_multi_tenant.RemoteWrite.SelfHeal.Spec.{IsSound, exits_for, stalled_outcome}
use prometheus_multi_tenant.RemoteWrite.SelfHeal.Turns.{
  Proceeds, stalled_outcome-jobs, heal_job-Proceeds, heal_job-exits, jobs_laws,
}

-- Every key of the list holds a sound job.
abbrev pub Listed : Controller → List String → Type 0
Listed c = All (λ k. (job : RemoteWriteJob) × (lookup k c.jobs ≡ some job) × IsSound k job)

module _ (clock : String → Time) (now : Time) where
  -- The turns of the keys all went on.
  pub record Completed (c : Controller) (ks : List String) (t : Turn) : Type 0 where
    pub jobs : Map RemoteWriteJob
    pub ends : t ≡ proceed (record c { jobs = jobs })
    pub unique : NoDup c.jobs → NoDup jobs
    pub none_due :
        (j : String) (job : RemoteWriteJob)
        → has j ks ≡ true
        → lookup j c.jobs ≡ some job
        → exits_for c job now ≡ false
    pub entries :
        (j : String)
        → lookup j jobs ≡ (
            if has j ks
            then map_option (stalled_outcome c now (clock j)) (lookup j c.jobs)
            else lookup j c.jobs)

  -- The pod is restarted for one of the keys.
  pub record Restarted (c : Controller) (ks : List String) (t : Turn) : Type 0 where
    pub key : String
    pub listed : has key ks ≡ true
    pub job : RemoteWriteJob
    pub present : lookup key c.jobs ≡ some job
    pub due : exits_for c job now ≡ true
    pub jobs : Map RemoteWriteJob
    pub ends :
        t
        ≡ exited (record c {
          jobs = jobs;
          last_self_restart_at = now;
          self_restart_total = inc64 c.self_restart_total;
        })

  Listed-after :
      (c : Controller) (k : String) (job : RemoteWriteJob) (t : Turn) (p : Proceeds c k job t)
      (ks : List String)
      → has k ks ≡ false
      → Listed c ks
      → Listed (record c { jobs = p.jobs }) ks
  Listed-after c k job t p [] h l = tt
  Listed-after c k job t p (j ∷ ks) h l = (
    (l.0.0, ground (arith, p.entries j, eq_iff j k, eq_iff k j, l.0.1), l.0.2),
    Listed-after c k job t p ks (ground arith) l.1,
  )

  -- The rest of the sweep, seen from before the turn of its first key.
  Completed-cons :
      (c : Controller) (k : String) (job : RemoteWriteJob) (t u : Turn) (ks : List String)
      → lookup k c.jobs ≡ some job
      → has k ks ≡ false
      → exits_for c job now ≡ false
      → (p : Proceeds c k (stalled_outcome c now (clock k) job) t)
      → Completed (record c { jobs = p.jobs }) ks u
      → Completed c (k ∷ ks) u
  Completed-cons c k job t u ks present fresh not_due p done = record {
    jobs = done.jobs;
    ends = done.ends;
    unique = λ d. done.unique (p.unique d);
    none_due = λ j other h e. elim (Bool-cases (str_eq k j)) [
      | inl q ↦
          let same = some_inj (sym present ∙ ap (λ i. lookup i c.jobs) ((eq_iff k j).0 q) ∙ e) in
          subst (λ x. exits_for c x now ≡ false) same not_due
      | inr q ↦
          simp jobs_laws at
            (done.none_due j other (ground (arith, h, q)) (ground (arith, p.entries j, q, e)))
    ];
    entries = λ j. elim (Bool-cases (str_eq k j)) [
      | inl e ↦ ground (
        arith,
        e,
        (eq_iff k j).0 e,
        done.entries j,
        p.entries j,
        present,
        fresh,
        ap (λ i. has i ks) ((eq_iff k j).0 e),
        ap (λ i. lookup i c.jobs) ((eq_iff k j).0 e),
        ap (λ i. stalled_outcome c now (clock i) job) ((eq_iff k j).0 e),
      )
      | inr e ↦
          ground
            (arith, e, done.entries j, p.entries j, stalled_outcome-jobs c p.jobs now (clock j))
    ];
  }

  Restarted-present :
      (c : Controller) (k : String) (new : RemoteWriteJob) (t : Turn) (ks : List String)
      → has k ks ≡ false
      → (p : Proceeds c k new t) → {u : Turn} → (r : Restarted (record c { jobs = p.jobs }) ks u)
      → lookup r.key c.jobs ≡ some r.job
  Restarted-present c k new t ks fresh p r = elim (Bool-cases (str_eq k r.key)) [
    | inl e ↦ cc (fresh, r.listed, ap (λ i. has i ks) ((eq_iff k r.key).0 e))
    | inr e ↦ ground (arith, e, p.entries r.key, r.present)
  ]

  Restarted-cons :
      (c : Controller) (k : String) (job : RemoteWriteJob) (t u : Turn) (ks : List String)
      → has k ks ≡ false
      → (p : Proceeds c k job t) → Restarted (record c { jobs = p.jobs }) ks u
      → Restarted c (k ∷ ks) u
  Restarted-cons c k job t u ks fresh p r = record {
    key = r.key;
    listed = ground (arith, r.listed);
    job = r.job;
    present = Restarted-present c k job t ks fresh p r;
    due = simp jobs_laws at r.due;
    jobs = r.jobs;
    ends = r.ends;
  }

  heal_all_proceed :
      (c d : Controller) (k : String) (ks : List String)
      → heal_job c k now (clock k) (lookup k c.jobs) ≡ proceed d
      → heal_all clock c now (k ∷ ks) ≡ heal_all clock d now ks
  unfolding heal_all
  heal_all_proceed c d k ks h = rw (h, heal_all) refl

  heal_all_exited :
      (c d : Controller) (k : String) (ks : List String)
      → heal_job c k now (clock k) (lookup k c.jobs) ≡ exited d
      → heal_all clock c now (k ∷ ks) ≡ exited d
  unfolding heal_all
  heal_all_exited c d k ks h = rw (h, heal_all) refl

  pub heal_all_cases :
      (c : Controller) (ks : List String)
      → Distinct ks
      → Listed c ks
      → Completed c ks (heal_all clock c now ks) ⊎ Restarted c ks (heal_all clock c now ks)
  unfolding heal_all
  heal_all_cases c [] d l = inl (record {
    jobs = c.jobs;
    ends = refl;
    unique = λ h. h;
    none_due = λ j job h. absurd (false≢true h);
    entries = λ j. refl;
  })
  heal_all_cases c (k ∷ ks) d l =
      let (job, present, sound) = l.0 in
      elim (Bool-cases (exits_for c job now)) [
        | inl due ↦ inr (record {
          key = k;
          listed = ground (arith, eq_refl k);
          job = job;
          present = present;
          due = due;
          jobs = insert k (mark_stalled job now) c.jobs;
          ends = heal_all_exited c _ k ks (rw present (heal_job-exits c k job now (clock k) due));
        })
        | inr not_due ↦
            let p = heal_job-Proceeds c k job now (clock k) sound not_due in
            let step = heal_all_proceed c _ k ks (rw present p.ends) in
            let later =
              heal_all_cases (record c { jobs = p.jobs }) ks d.1
                (Listed-after c k _ _ p ks d.0 l.1) in
            rw step (elim later [
              | inl done ↦ inl (Completed-cons c k job _ _ ks present d.0 not_due p done)
              | inr r ↦ inr (Restarted-cons c k _ _ _ ks d.0 p r)
            ])
      ]
