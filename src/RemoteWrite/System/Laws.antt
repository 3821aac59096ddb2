-- ===== src/RemoteWrite/System/Laws.antt =====
-- What holds of every reachable controller.
use prometheus_multi_tenant.Shared.{
  ℕ, String, ◌≡◌, refl, sym, ap, ◌∙◌, subst, Bool, true, false, Option, none, some, List, [], ◌∷◌,
  arith, str_eq, eq_iff, if◌then◌else◌, Bool-cases, inl, inr, some_inj,
}
use prometheus_multi_tenant.Shared.Map.{
  Map, lookup, insert, has, keys, NoDup, lookup-insert, lookup-delete, insert-NoDup, delete-NoDup,
}
use prometheus_multi_tenant.Shared.Time.{Time}
use prometheus_multi_tenant.Api.{MetricAccess, key_of, is_enabled, wants_remote_write}
use prometheus_multi_tenant.Api
use prometheus_multi_tenant.Config
use prometheus_multi_tenant.RemoteWrite.Job.{
  RemoteWriteJob, Controller, new_controller, stop_all_jobs, stop_keys, stop_remote_write_job,
  create_for, create_remote_write_job, fresh_job, is_target_type,
}
use prometheus_multi_tenant.RemoteWrite.SelfHeal.Spec.{IsSound, IsWellFormed}
use prometheus_multi_tenant.RemoteWrite.SelfHeal.Refinement.{sweep-IsWellFormed}
use prometheus_multi_tenant.RemoteWrite.Reconcile.{
  after_creation, create, has_configuration_changed, reconcile_existing, reconcile_item,
  reconcile_items, stop_undesired, desired_jobs, stop_rest, reconcile_listed,
  reconcile_remote_write_jobs,
}
use prometheus_multi_tenant.RemoteWrite.Collect.Cycle.Watch.{cycle_jobs, collect_metrics-Keeps}
use prometheus_multi_tenant.RemoteWrite.System.{
  load_existing_remote_write_jobs, Step, loads, leads, reconciles, heals, collects, finishes, stops,
  Reachable, started, next,
}

-- A result that is well formed where there is one.
abbrev Good : Option Controller → Type 0
Good none = Unit
Good (some c) = IsWellFormed c

put-IsWellFormed :
    (c : Controller) (key : String) (job : RemoteWriteJob)
    → IsWellFormed c
    → IsSound key job
    → IsWellFormed (record c { jobs = insert key job c.jobs })
put-IsWellFormed c key job wf s = record {
  unique = insert-NoDup key job c.jobs wf.unique;
  sound = λ k j e. elim (Bool-cases (str_eq key k)) [
    | inl same ↦
        let here : some job ≡ some j = ground (arith, same, e, lookup-insert key k job c.jobs) in
        subst (λ i. IsSound i j) ((eq_iff key k).0 same) (subst (IsSound key) (some_inj here) s)
    | inr other ↦ wf.sound k j (ground (arith, other, e, lookup-insert key k job c.jobs))
  ];
}

stop-IsWellFormed :
    (c : Controller) (key : String) → IsWellFormed c → IsWellFormed (stop_remote_write_job c key)
unfolding stop_remote_write_job
stop-IsWellFormed c key wf = record {
  unique = delete-NoDup key c.jobs wf.unique;
  sound = λ k j e. wf.sound k j (ground (arith, e, lookup-delete key k c.jobs));
}

created_for-Good :
    (c : Controller) (ma : MetricAccess) (now : Time) (o : Option Api.RemoteWriteConfig)
    → ma.spec.remote_write ≡ o
    → IsWellFormed c
    → Good (after_creation c (create_for c ma now o))
unfolding create_for after_creation fresh_job
created_for-Good c ma now none e wf = tt
created_for-Good c ma now (some r) e wf = elim (Bool-cases (is_target_type r.target.type)) [
  | inl known ↦ rw known (
      put-IsWellFormed c (key_of ma) (fresh_job ma now) wf
        (record { keyed = refl; target = (r, e, known) }))
  | inr unknown ↦ rw unknown wf
]

create-Good :
    (clock : String → Time) (c : Controller) (ma : MetricAccess)
    → IsWellFormed c
    → Good (create clock c ma)
unfolding create_remote_write_job
create-Good clock c ma wf = created_for-Good c ma (clock (key_of ma)) ma.spec.remote_write refl wf

if-Good : (b : Bool) (x y : Option Controller) → Good x → Good y → Good (if b then x else y)
if-Good true x y hx hy = hx
if-Good false x y hx hy = hy

then-Good :
    (o : Option Controller) (f : Controller → Option Controller)
    → Good o
    → ((c : Controller) → IsWellFormed c → Good (f c))
    → Good (elim o [ none ↦ none | some c ↦ f c ])
then-Good none f h g = tt
then-Good (some c) f h g = g c h

module _ (clock : String → Time) where
  load_existing-Good :
      (c : Controller) (items : List MetricAccess)
      → IsWellFormed c
      → Good (load_existing_remote_write_jobs clock c items)
  unfolding load_existing_remote_write_jobs
  load_existing-Good c [] wf = wf
  load_existing-Good c (ma ∷ rest) wf =
      then-Good (if wants_remote_write ma then create clock c ma else some c)
        (λ c'. load_existing_remote_write_jobs clock c' rest)
        (if-Good (wants_remote_write ma) (create clock c ma) (some c) (create-Good clock c ma wf)
          wf)
        (λ c' wf'. load_existing-Good c' rest wf')

  existing-Good :
      (c : Controller) (ma : MetricAccess) (o : Option RemoteWriteJob)
      → IsWellFormed c
      → Good (reconcile_existing clock c ma o)
  unfolding reconcile_existing
  existing-Good c ma none wf = create-Good clock c ma wf
  existing-Good c ma (some job) wf =
      if-Good (has_configuration_changed job.metric_access ma) _ _
        (create-Good clock (stop_remote_write_job c (key_of ma)) ma
          (stop-IsWellFormed c (key_of ma) wf))
        wf

  item-Good :
      (c : Controller) (ma : MetricAccess) → IsWellFormed c → Good (reconcile_item clock c ma)
  unfolding reconcile_item
  item-Good c ma wf =
      if-Good (wants_remote_write ma) _ _ (existing-Good c ma (lookup (key_of ma) c.jobs) wf) wf

  stop_undesired-IsWellFormed :
      (desired : List String) (c : Controller) (ks : List String)
      → IsWellFormed c
      → IsWellFormed (stop_undesired clock desired c ks)
  unfolding stop_undesired
  stop_undesired-IsWellFormed desired c [] wf = wf
  stop_undesired-IsWellFormed desired c (k ∷ ks) wf = elim (Bool-cases (has k desired)) [
    | inl kept ↦ rw kept (stop_undesired-IsWellFormed desired c ks wf)
    | inr gone ↦ rw gone (
        stop_undesired-IsWellFormed desired (stop_remote_write_job c k) ks
          (stop-IsWellFormed c k wf))
  ]

  items-Good :
      (c : Controller) (items : List MetricAccess)
      → IsWellFormed c
      → Good (reconcile_items clock c items)
  unfolding reconcile_items
  items-Good c [] wf = wf
  items-Good c (ma ∷ rest) wf =
      then-Good (reconcile_item clock c ma) (λ c'. reconcile_items clock c' rest)
        (item-Good c ma wf) (λ c' wf'. items-Good c' rest wf')

  rest-Good :
      (items : List MetricAccess) (o : Option Controller) → Good o → Good (stop_rest clock items o)
  rest-Good items none h = tt
  rest-Good items (some c) h = stop_undesired-IsWellFormed (desired_jobs items) c (keys c.jobs) h

  reconcile-Good :
      (c : Controller) (listed : Option (List MetricAccess))
      → IsWellFormed c
      → Good (reconcile_remote_write_jobs clock c listed)
  unfolding reconcile_remote_write_jobs reconcile_listed
  reconcile-Good c none wf = wf
  reconcile-Good c (some items) wf =
      rest-Good items (reconcile_items clock c items) (items-Good c items wf)

stop_keys-IsWellFormed :
    (c : Controller) (ks : List String) → IsWellFormed c → IsWellFormed (stop_keys c ks)
unfolding stop_keys
stop_keys-IsWellFormed c [] wf = wf
stop_keys-IsWellFormed c (k ∷ ks) wf =
    stop_keys-IsWellFormed (stop_remote_write_job c k) ks (stop-IsWellFormed c k wf)

IsSound-Keeps :
    (key : String) (old new : RemoteWriteJob)
    → key_of new.metric_access ≡ key_of old.metric_access
    → new.metric_access.spec ≡ old.metric_access.spec
    → IsSound key old
    → IsSound key new
IsSound-Keeps key old new same_key same_spec s =
    let (r, e, known) = s.target in
    record {
      keyed = same_key ∙ s.keyed;
      target = (r, ap (λ (x : Api.MetricAccessSpec). x.remote_write) same_spec ∙ e, known);
    }

jobs-IsWellFormed : (c d : Controller) → d.jobs ≡ c.jobs → IsWellFormed c → IsWellFormed d
jobs-IsWellFormed c d e wf = record {
  unique = subst NoDup (sym e) wf.unique;
  sound = λ k j h. wf.sound k j (subst (λ m. lookup k m ≡ some j) e h);
}

module _ (fingerprint : Map String → ℕ) where
  Step-IsWellFormed : (c c' : Controller) → Step fingerprint c c' → IsWellFormed c → IsWellFormed c'
  unfolding stop_all_jobs
  Step-IsWellFormed c c' (loads clock items e) wf =
      subst Good e (load_existing-Good clock c items wf)
  Step-IsWellFormed c c' leads wf = record { unique = wf.unique; sound = wf.sound }
  Step-IsWellFormed c c' (reconciles clock listed e) wf =
      subst Good e (reconcile-Good clock c listed wf)
  Step-IsWellFormed c c' (heals clock now e) wf = sweep-IsWellFormed c c' now clock wf e
  Step-IsWellFormed c c'
        (collects key job targets query send wall collected_at clean_at cyc found e) wf =
      let k =
        collect_metrics-Keeps fingerprint query send wall collected_at clean_at c job targets cyc
          e in
      let same_jobs =
        cycle_jobs fingerprint query send wall collected_at clean_at c job targets cyc e in
      put-IsWellFormed cyc.controller key cyc.job (jobs-IsWellFormed c cyc.controller same_jobs wf)
        (IsSound-Keeps key job cyc.job k.key k.spec (wf.sound key job found))
  Step-IsWellFormed c c' (finishes job targets query send wall collected_at clean_at cyc e) wf =
      jobs-IsWellFormed c c'
        (cycle_jobs fingerprint query send wall collected_at clean_at c job targets cyc e) wf
  Step-IsWellFormed c c' stops wf = stop_keys-IsWellFormed c (keys c.jobs) wf

  -- Every controller that loads, reconciliations, sweeps, collection cycles, also those of jobs
  -- that are no longer in the table, and stops reach from a new one, in any order and whatever the
  -- clients answer, is well formed: its jobs are a map, and each stands under the key of its
  -- resource and has a supported target.
  pub Reachable-IsWellFormed :
      (config : Config.RemoteWriteConfig) (c : Controller)
      → Reachable fingerprint config c
      → IsWellFormed c
  unfolding new_controller lookup
  Reachable-IsWellFormed config c started = record {
    unique = tt;
    sound = λ key job e. ground (arith, e);
  }
  Reachable-IsWellFormed config c (next {c = b} r s) =
      Step-IsWellFormed b c s (Reachable-IsWellFormed config b r)
