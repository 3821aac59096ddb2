-- ===== src/RemoteWrite/Reconcile/Laws.antt =====
-- The table of jobs after a reconciliation, key by key.
use prometheus_multi_tenant.Shared.{
  String, ◌≡◌, refl, sym, ap, ◌∙◌, subst, true, not, ◌&&◌, Option, none, some, List, [], ◌∷◌, arith,
  str_eq, eq_iff, if◌then◌else◌, Bool-cases, Option-cases, inl, inr, false≢true,
}
use prometheus_multi_tenant.Shared.Map.{
  Map, lookup, has, keys, has_key, lookup-insert, lookup-delete, lookup-delete_self,
}
use prometheus_multi_tenant.Shared.Time.{Time}
use prometheus_multi_tenant.Api.{MetricAccess, is_enabled, key_of, wants_remote_write}
use prometheus_multi_tenant.Api
use prometheus_multi_tenant.RemoteWrite.Job.{
  RemoteWriteJob, Controller, is_target_type, fresh_job, create_for, create_remote_write_job,
  stop_remote_write_job,
}
use prometheus_multi_tenant.RemoteWrite.Reconcile.{
  has_configuration_changed, desired_jobs, after_creation, create, reconcile_existing,
  reconcile_item, reconcile_items, stop_undesired, reconcile_listed, reconcile_remote_write_jobs,
}

module _ (clock : String → Time) where
  -- The job that a resource gets anew: none where its target type is unknown.
  abbrev pub new_job : MetricAccess → Option Api.RemoteWriteConfig → Option RemoteWriteJob
  new_job ma none = none
  new_job ma (some r) =
      if is_target_type r.target.type then some (fresh_job ma (clock (key_of ma))) else none

  -- What one resource makes of the job of its key.
  abbrev pub settled : MetricAccess → Option RemoteWriteJob → Option RemoteWriteJob
  settled ma none = new_job ma ma.spec.remote_write
  settled ma (some job) =
      if has_configuration_changed job.metric_access ma
      then new_job ma ma.spec.remote_write
      else some job

  -- What a list of resources makes of the job of a key: each resource with that key and with remote
  -- write enabled has its turn.
  unfoldable pub settled_by :
      String → List MetricAccess → Option RemoteWriteJob → Option RemoteWriteJob
  settled_by key [] o = o
  settled_by key (ma ∷ rest) o =
      settled_by key rest
        (if wants_remote_write ma && str_eq (key_of ma) key then settled ma o else o)

  -- The jobs of the controller are what a function of the keys says.
  abbrev pub Holds : (String → Option RemoteWriteJob) → Option Controller → Type 0
  Holds f none = ⊥
  Holds f (some c) = (key : String) → lookup key c.jobs ≡ f key

  created_for :
      (c : Controller) (ma : MetricAccess) (o : Option Api.RemoteWriteConfig)
      → is_enabled o ≡ true
      → lookup (key_of ma) c.jobs ≡ none
      → Holds
          (λ key. if str_eq (key_of ma) key then new_job ma o else lookup key c.jobs)
          (after_creation c (create_for c ma (clock (key_of ma)) o))
  unfolding create_for after_creation
  created_for c ma none w h = absurd (false≢true w)
  created_for c ma (some r) w h = elim (Bool-cases (is_target_type r.target.type)) [
    | inl known ↦
        rw known (λ key. lookup-insert (key_of ma) key (fresh_job ma (clock (key_of ma))) c.jobs)
    | inr unknown ↦ rw unknown (λ key. elim (Bool-cases (str_eq (key_of ma) key)) [
      | inl same ↦ rw (same, ← (eq_iff (key_of ma) key).0 same) h
      | inr other ↦ rw other refl
    ])
  ]

  created_jobs :
      (c : Controller) (ma : MetricAccess)
      → wants_remote_write ma ≡ true
      → lookup (key_of ma) c.jobs ≡ none
      → Holds
          (λ key.
            if str_eq (key_of ma) key then new_job ma ma.spec.remote_write else lookup key c.jobs)
          (create clock c ma)
  unfolding create_remote_write_job
  created_jobs c ma w h = created_for c ma ma.spec.remote_write w h

  Holds-ext :
      (f g : String → Option RemoteWriteJob) (o : Option Controller)
      → ((key : String) → f key ≡ g key)
      → Holds f o
      → Holds g o
  Holds-ext f g none e h = absurd h
  Holds-ext f g (some c) e h = λ key. h key ∙ e key

  existing_jobs :
      (c : Controller) (ma : MetricAccess) (o : Option RemoteWriteJob)
      → wants_remote_write ma ≡ true
      → lookup (key_of ma) c.jobs ≡ o
      → Holds
          (λ key. if str_eq (key_of ma) key then settled ma o else lookup key c.jobs)
          (reconcile_existing clock c ma o)
  unfolding reconcile_existing stop_remote_write_job
  existing_jobs c ma none w h = created_jobs c ma w h
  existing_jobs c ma (some job) w h =
      elim (Bool-cases (has_configuration_changed job.metric_access ma)) [
        | inl changed ↦ rw changed (
            Holds-ext _ _ _ (λ key. ground (arith, lookup-delete (key_of ma) key c.jobs))
              (created_jobs (stop_remote_write_job c (key_of ma)) ma w
                (lookup-delete_self (key_of ma) c.jobs)))
        | inr kept ↦ rw kept (λ key. elim (Bool-cases (str_eq (key_of ma) key)) [
          | inl same ↦ rw (same, ← (eq_iff (key_of ma) key).0 same) h
          | inr other ↦ rw other refl
        ])
      ]

  item_jobs :
      (c : Controller) (ma : MetricAccess)
      → Holds
          (λ key.
            if wants_remote_write ma && str_eq (key_of ma) key
            then settled ma (lookup key c.jobs)
            else lookup key c.jobs)
          (reconcile_item clock c ma)
  unfolding reconcile_item
  item_jobs c ma = elim (Bool-cases (wants_remote_write ma)) [
    | inr idle ↦ rw idle (λ key. refl)
    | inl w ↦ rw w (
        Holds-ext _ _ _
          (λ key. elim (Bool-cases (str_eq (key_of ma) key)) [
            | inl same ↦ rw (same, (eq_iff (key_of ma) key).0 same) refl
            | inr other ↦ rw other refl
          ])
          (existing_jobs c ma (lookup (key_of ma) c.jobs) w refl))
  ]

  next_item :
      (c c' : Controller) (ma : MetricAccess) (rest : List MetricAccess)
      → reconcile_item clock c ma ≡ some c'
      → reconcile_items clock c (ma ∷ rest) ≡ reconcile_items clock c' rest
  unfolding reconcile_items
  next_item c c' ma rest e = rw (reconcile_items, e) refl

  items_jobs :
      (c : Controller) (items : List MetricAccess)
      → Holds (λ key. settled_by key items (lookup key c.jobs)) (reconcile_items clock c items)
  unfolding reconcile_items settled_by
  items_jobs c [] = λ key. refl
  items_jobs c (ma ∷ rest) = elim (Option-cases (reconcile_item clock c ma)) [
    | inl e ↦ absurd (subst (Holds _) e (item_jobs c ma))
    | inr (c', e) ↦
        subst (Holds (λ key. settled_by key (ma ∷ rest) (lookup key c.jobs)))
          (sym (next_item c c' ma rest e))
          (Holds-ext _ _ _
            (λ key. ap (settled_by key rest) (subst (Holds _) e (item_jobs c ma) key))
            (items_jobs c' rest))
  ]

  has-keys : (key : String) (m : Map RemoteWriteJob) → has key (keys m) ≡ has_key key m
  unfolding lookup
  has-keys key [] = refl
  has-keys key ((k, j) ∷ m) = ground (arith, has-keys key m)

  stop_undesired-lookup :
      (desired : List String) (c : Controller) (ks : List String) (key : String)
      → lookup key (stop_undesired clock desired c ks).jobs
        ≡ (if has key ks && not (has key desired) then none else lookup key c.jobs)
  unfolding stop_undesired stop_remote_write_job
  stop_undesired-lookup desired c [] key = refl
  stop_undesired-lookup desired c (k ∷ ks) key = ground (
    arith,
    eq_iff k key,
    lookup-delete k key c.jobs,
    stop_undesired-lookup desired (if has k desired then c else stop_remote_write_job c k) ks key,
  )

  -- A reconciliation never panics, and the jobs after it are, key by key: none where no resource
  -- with that key has remote write enabled; otherwise what the resources with that key make of the
  -- job before, which is kept where its configuration is found unchanged, and replaced by a fresh
  -- job otherwise.
  pub reconcile_settles :
      (c : Controller) (items : List MetricAccess)
      → (c' : Controller) × (reconcile_remote_write_jobs clock c (some items) ≡ some c')
        × ((key : String)
            → lookup key c'.jobs ≡ (
                if has key (desired_jobs items)
                then settled_by key items (lookup key c.jobs)
                else none))
  unfolding reconcile_remote_write_jobs reconcile_listed
  reconcile_settles c items = elim (Option-cases (reconcile_items clock c items)) [
    | inl e ↦ absurd (subst (Holds _) e (items_jobs c items))
    | inr (c', e) ↦ (
      stop_undesired clock (desired_jobs items) c' (keys c'.jobs),
      rw e refl,
      λ key.
          let settled_now = subst (Holds _) e (items_jobs c items) key in
          ground (
            arith,
            settled_now,
            has-keys key c'.jobs,
            stop_undesired-lookup (desired_jobs items) c' (keys c'.jobs) key,
          ),
    )
  ]
