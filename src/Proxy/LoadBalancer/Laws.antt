-- ===== src/Proxy/LoadBalancer/Laws.antt =====
-- Which targets the load balancer picks.
use prometheus_multi_tenant.Shared.{
  ℕ, zero, suc, ◌+◌, ◌%◌, ◌^◌, ◌<◌, ◌≡◌, ◌≢◌, refl, sym, ap, ◌∙◌, subst, Bool, true, false, Option,
  none, some, List, [], ◌∷◌, arith, if◌then◌else◌, length, get_elem?, keep_if, All, Any, inl, inr,
  Option-cases, map, some_inj, All-map,
}
use native.Mathlib.Nat.{mod-lt}
use prometheus_multi_tenant.Shared.Word.{inc64, inc64_small}
use prometheus_multi_tenant.Discovery.{Target}
use prometheus_multi_tenant.Proxy.LoadBalancer.{
  LoadBalancer, get_healthy_targets, picked, no_target, index_panic, counter_index, pick_found,
  pick_at, pick_from, get_target,
}

-- The targets that a number of successive calls return, as long as they return one.
unfoldable pub calls : ℕ → LoadBalancer → List Target
calls zero lb = []
calls (suc n) lb = elim (get_target lb) [
  | picked t lb' ↦ t ∷ calls n lb'
  | no_target ↦ []
  | index_panic ↦ []
]

-- Round robin: the healthy targets from a counter on, taken in a cycle.
unfoldable pub cycle_from : ℕ → ℕ → List Target → List (Option Target)
cycle_from zero counter healthy = []
cycle_from (suc n) counter healthy =
    get_elem? healthy (counter % length healthy) ∷ cycle_from n (counter + 1) healthy

picked_target : {t u : Target} {a b : LoadBalancer} → picked t a ≡ picked u b → t ≡ u
picked_target h = cc

picked_balancer : {t u : Target} {a b : LoadBalancer} → picked t a ≡ picked u b → a ≡ b
picked_balancer h = cc

get_elem?-in_range :
    {A : Type 0} (xs : List A) (i : ℕ) → i < length xs → (x : A) × (get_elem? xs i ≡ some x)
get_elem?-in_range [] i h = absurd (omega arith)
get_elem?-in_range (x ∷ xs) zero h = (x, refl)
get_elem?-in_range (x ∷ xs) (suc i) h = get_elem?-in_range xs i (omega arith)

counter_index_lem :
    (counter n : ℕ) → counter < 2 ^ 63 → counter_index counter n ≡ some (counter % n)
unfolding counter_index
counter_index_lem counter n h = ground arith

call_lem :
    (lb : LoadBalancer) (healthy : List Target)
    → healthy ≢ []
    → lb.counter < 2 ^ 63
    → (t : Target) × (get_elem? healthy (lb.counter % length healthy) ≡ some t)
      × (pick_from lb healthy ≡ picked t (record lb { counter = lb.counter + 1 }))
unfolding pick_from pick_at pick_found
call_lem lb [] some_up small = absurd (some_up refl)
call_lem lb (u ∷ us) some_up small =
    let n = length (u ∷ us) in
    let (t, found) =
      get_elem?-in_range (u ∷ us) (lb.counter % n) (mod-lt lb.counter (omega arith)) in
    (
      t,
      found,
      simp (counter_index_lem lb.counter n small, found, inc64_small lb.counter (omega arith)) refl,
    )

next_call :
    (n : ℕ) (lb lb' : LoadBalancer) (t : Target)
    → get_target lb ≡ picked t lb'
    → calls (suc n) lb ≡ t ∷ calls n lb'
unfolding calls
next_call n lb lb' t e = rw (calls, e) refl

-- Round robin: with some healthy target, and a counter that stays below 2 ^ 63, every one of n
-- successive calls returns a target, and together they return the healthy targets in a cycle that
-- starts at the counter.
pub calls-cycle_from :
    (n : ℕ) (lb : LoadBalancer)
    → get_healthy_targets lb ≢ []
    → lb.counter + n < 2 ^ 63
    → map some (calls n lb) ≡ cycle_from n lb.counter (get_healthy_targets lb)
unfolding calls cycle_from get_target get_healthy_targets
calls-cycle_from zero lb some_up small = refl
calls-cycle_from (suc n) lb some_up small =
    let (t, found, call) = call_lem lb (get_healthy_targets lb) some_up (omega arith) in
    ap (map some) (next_call n lb _ t call)
    ∙ ap (λ o. o ∷ map some (calls n (record lb { counter = lb.counter + 1 }))) (sym found)
    ∙ ap (◌∷◌ (get_elem? (get_healthy_targets lb) (lb.counter % length (get_healthy_targets lb))))
        (calls-cycle_from n (record lb { counter = lb.counter + 1 }) some_up (omega arith))

get_elem?-All :
    {A : Type 0} (P : A → Type 0) (xs : List A) (i : ℕ) (x : A)
    → All P xs
    → get_elem? xs i ≡ some x
    → P x
get_elem?-All P [] i x h e = ground arith
get_elem?-All P (y ∷ ys) zero x h e = subst P (some_inj e) h.0
get_elem?-All P (y ∷ ys) (suc i) x h e = get_elem?-All P ys i x h.1 e

picked_at :
    (lb lb' : LoadBalancer) (healthy : List Target) (t : Target) (o : Option ℕ)
    → pick_at lb healthy o ≡ picked t lb'
    → (i : ℕ) × (get_elem? healthy i ≡ some t) × (lb' ≡ record lb { counter = inc64 lb.counter })
unfolding pick_at pick_found
picked_at lb lb' healthy t none e = ground arith
picked_at lb lb' healthy t (some i) e = elim (Option-cases (get_elem? healthy i)) [
  | inl q ↦ ground (arith, q, e)
  | inr (u, q) ↦
      let same : picked u (record lb { counter = inc64 lb.counter }) ≡ picked t lb' =
        ap (pick_found lb) (sym q) ∙ e in
      (i, q ∙ ap some (picked_target same), sym (picked_balancer same))
]

picked_from :
    (lb lb' : LoadBalancer) (healthy : List Target) (t : Target)
    → pick_from lb healthy ≡ picked t lb'
    → (i : ℕ) × (get_elem? healthy i ≡ some t) × (lb' ≡ record lb { counter = inc64 lb.counter })
unfolding pick_from
picked_from lb lb' [] t e = ground arith
picked_from lb lb' (u ∷ us) t e = picked_at lb lb' (u ∷ us) t _ e

keep_step :
    (P : Target → Type 0) (t : Target) (rest : List Target) (b : Bool)
    → (b ≡ true → P t)
    → All P rest
    → All P (if b then t ∷ rest else rest)
keep_step P t rest true h a = (h refl, a)
keep_step P t rest false h a = a

-- The healthy targets are healthy and present.
kept_members :
    (ts : List Target)
    → All (λ u. (u.healthy ≡ true) × Any (λ v. v ≡ u) ts) (keep_if (λ t. t.healthy) ts)
kept_members [] = tt
kept_members (t ∷ ts) =
    let later =
      All-map _ (λ u. (u.healthy ≡ true) × Any (λ v. v ≡ u) (t ∷ ts)) _ (λ u h. (h.0, inr h.1))
        (kept_members ts) in
    keep_step (λ u. (u.healthy ≡ true) × Any (λ v. v ≡ u) (t ∷ ts)) t _ t.healthy
      (λ up. (up, inl refl)) later

-- A call that returns a target returns a healthy one of the present targets, and it leaves the
-- targets as they are and steps the counter.
pub get_target_picks_healthy :
    (lb lb' : LoadBalancer) (t : Target)
    → get_target lb ≡ picked t lb'
    → (t.healthy ≡ true)
      × Any (λ u. u ≡ t) lb.targets
      × (lb' ≡ record lb { counter = inc64 lb.counter })
unfolding get_target get_healthy_targets
get_target_picks_healthy lb lb' t e =
    let (i, at, after) = picked_from lb lb' (get_healthy_targets lb) t e in
    let (up, present) =
      get_elem?-All (λ u. (u.healthy ≡ true) × Any (λ v. v ≡ u) lb.targets) (get_healthy_targets lb)
        i t (kept_members lb.targets) at in
    (up, present, after)
