-- ===== src/Discovery/Kubernetes/Subscribers/Told.antt =====
-- What the events of a run tell of the discovery and its subscribers (internal/discovery/
-- kubernetes.go): a channel as a buffer that keeps the oldest list.
use prometheus_multi_tenant.Shared.{
  ℕ, suc, ◌≤◌, ◌≡◌, refl, Option, none, some, List, [], ◌∷◌, arith, get_elem?, length, ◌==◌, ltb,
  if◌then◌else◌,
}
use prometheus_multi_tenant.Discovery.{Target}
use prometheus_multi_tenant.Discovery.Kubernetes.Subscribers.{
  First, starting, sending, done, Channel, Discovery, fill, get_targets, Event, found, subscribed,
  read, sent, received,
}

-- The latest targets found.
unfoldable pub latest : List Event → List Target
latest [] = []
latest (found targets ∷ log) = targets
latest (e ∷ log) = latest log

-- The number of subscribers.
unfoldable pub count : List Event → ℕ
count [] = 0
count (subscribed ∷ log) = suc (count log)
count (e ∷ log) = count log

-- The lists offered to a subscriber, by rounds and by its goroutine, since it last received one.
unfoldable pub offered : ℕ → List Event → List (List Target)
offered i [] = []
offered i (found targets ∷ log) =
    let before = offered i log in if ltb i (count log) then targets ∷ before else before
offered i (sent j targets ∷ log) =
    let before = offered i log in if i == j then targets ∷ before else before
offered i (received j targets ∷ log) = let before = offered i log in if i == j then [] else before
offered i (e ∷ log) = offered i log

-- Where a subscriber's goroutine is: what it read were the latest targets.
unfoldable pub goroutine : ℕ → List Event → First
goroutine i [] = starting
goroutine i (read j ∷ log) =
    let before = goroutine i log in if i == j then sending (latest log) else before
goroutine i (sent j targets ∷ log) = let before = goroutine i log in if i == j then done else before
goroutine i (e ∷ log) = goroutine i log

abbrev pub oldest : List (List Target) → Option (List Target)
oldest [] = none
oldest (targets ∷ []) = some targets
oldest (targets ∷ t ∷ ts) = oldest (t ∷ ts)

pub fill-oldest : (t : List Target) (ts : List (List Target)) → fill t (oldest ts) ≡ oldest (t ∷ ts)
fill-oldest t [] = refl
fill-oldest t (u ∷ []) = refl
fill-oldest t (u ∷ v ∷ ts) = fill-oldest t (v ∷ ts)

oldest-some :
    (t : List Target) (ts : List (List Target)) → (x : List Target) × (oldest (t ∷ ts) ≡ some x)
oldest-some t [] = (t, refl)
oldest-some t (u ∷ ts) = oldest-some u ts

pub oldest-none : (ts : List (List Target)) → oldest ts ≡ none → ts ≡ []
oldest-none [] h = refl
oldest-none (t ∷ ts) h = let (x, e) = oldest-some t ts in ground (arith, h, e)

-- The state, told from the events.
pub record Tells (log : List Event) (d : Discovery) : Type 0 where
  pub current : get_targets d ≡ latest log
  pub counted : length d.subscribers ≡ count log
  pub held :
      (i : ℕ) (ch : Channel)
      → get_elem? d.subscribers i ≡ some ch
      → (ch.room ≡ oldest (offered i log)) × (ch.first ≡ goroutine i log)
  pub absent : (i : ℕ) → count log ≤ i → (offered i log ≡ []) × (goroutine i log ≡ starting)

-- What is sent was read and finds room, and what is received is the oldest of what was offered.
abbrev pub IsOrderly : List Event → Type 0
IsOrderly [] = Unit
IsOrderly (sent i targets ∷ log) =
    (offered i log ≡ []) × (goroutine i log ≡ sending targets) × IsOrderly log
IsOrderly (received i targets ∷ log) = (oldest (offered i log) ≡ some targets) × IsOrderly log
IsOrderly (e ∷ log) = IsOrderly log
