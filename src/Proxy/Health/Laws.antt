-- ===== src/Proxy/Health/Laws.antt =====
-- The health checks in whatever order they finish.
use prometheus_multi_tenant.Shared.{
  ℕ, String, ◌≡◌, refl, sym, ap, subst, ◌∙◌, Bool, false, Option, List, [], ◌∷◌, map, arith, str_eq,
  eq_iff, if◌then◌else◌, Bool-cases, inl, inr,
}
use prometheus_multi_tenant.Shared.Map.{has, Distinct}
use prometheus_multi_tenant.Shared.Time.{Time}
use prometheus_multi_tenant.Discovery.{Target}
use prometheus_multi_tenant.Proxy.LoadBalancer.{LoadBalancer, set_health, update_target_health}
use prometheus_multi_tenant.Proxy.Health.{probe, check_target, check_all_targets}

abbrev pub url_of : Target → String
url_of t = t.url

module _ (request_error : String → Option String) (exchange : String → Option ℕ)
    (at : String → Time) where
  -- A target after the check of its URL.
  abbrev pub checked : Target → Target
  checked t = record t { healthy = probe request_error exchange at t.url; last_seen = at t.url }

  abbrev checked_if : Bool → Target → Target
  checked_if b t = if b then checked t else t

  absent :
      (url : String) (ts : List Target)
      → has url (map url_of ts) ≡ false
      → map (λ t. checked_if (str_eq t.url url) t) ts ≡ ts
  absent url [] h = refl
  absent url (t ∷ ts) h = ground (arith, absent url ts)

  -- With distinct URLs the update of the first target with a URL is the update of all of them.
  set_health_lem :
      (url : String) (ts : List Target)
      → Distinct (map url_of ts)
      → set_health url (probe request_error exchange at url) (at url) ts
        ≡ map (λ t. checked_if (str_eq t.url url) t) ts
  unfolding set_health
  set_health_lem url [] d = refl
  set_health_lem url (t ∷ ts) d = elim (Bool-cases (str_eq t.url url)) [
    | inl e ↦
        let same = (eq_iff t.url url).0 e in
        let others = absent url ts (subst (λ u. has u (map url_of ts) ≡ false) same d.0) in
        rw e (
          ap (λ u. record t { healthy = probe request_error exchange at u; last_seen = at u } ∷ ts)
            (sym same)
          ∙ ap (◌∷◌ (checked t)) (sym others))
    | inr e ↦ rw e (ap (◌∷◌ t) (set_health_lem url ts d.1))
  ]

  urls_kept :
      (f : Target → Bool) (ts : List Target)
      → map url_of (map (λ t. checked_if (f t) t) ts) ≡ map url_of ts
  urls_kept f [] = refl
  urls_kept f (t ∷ ts) = ground (arith, urls_kept f ts)

  twice_one :
      (url : String) (rest : List String) (t : Target)
      → checked_if
          (has (checked_if (str_eq t.url url) t).url rest)
          (checked_if (str_eq t.url url) t)
        ≡ checked_if (has t.url (url ∷ rest)) t
  twice_one url rest t =
      ground (arith, eq_iff t.url url, eq_iff url t.url, Bool-cases (has t.url rest))

  checked_twice :
      (url : String) (rest : List String) (ts : List Target)
      → map (λ t. checked_if (has t.url rest) t) (map (λ t. checked_if (str_eq t.url url) t) ts)
        ≡ map (λ t. checked_if (has t.url (url ∷ rest)) t) ts
  checked_twice url rest [] = refl
  checked_twice url rest (t ∷ ts) =
      ap
        (λ u.
          u
          ∷ map (λ t. checked_if (has t.url rest) t)
              (map (λ t. checked_if (str_eq t.url url) t) ts))
        (twice_one url rest t)
      ∙ ap (◌∷◌ (checked_if (has t.url (url ∷ rest)) t)) (checked_twice url rest ts)

  unchecked : (ts : List Target) → map (λ t. checked_if (has t.url []) t) ts ≡ ts
  unchecked [] = refl
  unchecked (t ∷ ts) = ap (◌∷◌ t) (unchecked ts)

  -- The health checks do not depend on the order in which they finish: where no two targets have
  -- one URL, the targets afterwards are the targets before, each one whose URL was checked with the
  -- verdict on it and its time, and the others as they were.
  pub check_all_targets_lem :
      (lb : LoadBalancer) (finished : List String)
      → Distinct (map url_of lb.targets)
      → check_all_targets request_error exchange at lb finished
        ≡ record lb { targets = map (λ t. if has t.url finished then checked t else t) lb.targets }
  unfolding check_all_targets check_target update_target_health
  check_all_targets_lem lb [] d = ap (λ ts. record lb { targets = ts }) (sym (unchecked lb.targets))
  check_all_targets_lem lb (url ∷ rest) d =
      let update = set_health_lem url lb.targets d in
      check_all_targets_lem (check_target request_error exchange at lb url) rest (
        subst Distinct (sym (ap (map url_of) update ∙ urls_kept (λ t. str_eq t.url url) lb.targets))
          d)
      ∙ ap (λ ts. record lb { targets = map (λ t. checked_if (has t.url rest) t) ts }) update
      ∙ ap (λ ts. record lb { targets = ts }) (checked_twice url rest lb.targets)
