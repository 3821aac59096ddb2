-- ===== src/Discovery/Kubernetes/Subscribers/Laws.antt =====
-- The events of a run tell its state.
use prometheus_multi_tenant.Shared.{
  true, ℕ, ◌≤◌, ◌≡◌, ◌≢◌, refl, sym, ◌∙◌, ap, subst, none, some, List, [], ◌∷◌, arith, inl, inr,
  get_elem?, set, length-append, ltb,
}
use prometheus_multi_tenant.Discovery.{Target}
use prometheus_multi_tenant.Config.{KubernetesDiscoveryConfig}
use prometheus_multi_tenant.Discovery.Kubernetes.Subscribers.{
  sending, done, Channel, Discovery, fill, offer, new_channel, get_targets, subscribe,
  notify_subscribers, update_targets, discover, Event, found, subscribed, read, sent, received, Run,
  started, discovers, subscribes, reads, sends, receives,
}
use prometheus_multi_tenant.Discovery.Kubernetes.Subscribers.Indices.{
  get_elem?-map, get_elem?-lt, get_elem?-set, get_elem?-append_one, length-map, length-set,
}
use prometheus_multi_tenant.Discovery.Kubernetes.Subscribers.Told.{
  latest, count, offered, goroutine, oldest, fill-oldest, oldest-none, Tells, IsOrderly,
}

started-Tells : Tells [] (record { targets = []; subscribers = [] })
unfolding latest count offered goroutine
started-Tells = record {
  current = refl;
  counted = refl;
  held = λ i ch h. ground (arith, h);
  absent = λ i h. (refl, refl);
}

discovers-Tells :
    (log : List Event) (d : Discovery) (new : List Target)
    → Tells log d
    → Tells (found new ∷ log) (update_targets new d)
unfolding latest count offered goroutine update_targets notify_subscribers
discovers-Tells log d new t = record {
  current = refl;
  counted = length-map (offer new) d.subscribers ∙ t.counted;
  held = λ i ch h.
      let (old, there, same) = get_elem?-map (offer new) d.subscribers i ch h in
      let (room, first) = t.held i old there in
      let within : ltb i (count log) ≡ true =
        ground (arith, get_elem?-lt d.subscribers i old there, t.counted) in
      rw within (
        sym (ap (λ (c : Channel). c.room) same)
            ∙ ap (fill new) room
            ∙ fill-oldest new (offered i log),
        sym (ap (λ (c : Channel). c.first) same) ∙ first,
      );
  absent = λ i h. ground (arith, t.absent i h);
}

subscribes-Tells :
    (log : List Event) (d : Discovery) → Tells log d → Tells (subscribed ∷ log) (subscribe d)
unfolding latest count offered goroutine subscribe
subscribes-Tells log d t = record {
  current = t.current;
  counted = length-append d.subscribers (new_channel ∷ []) ∙ omega (arith, t.counted);
  held = λ i ch h. elim (get_elem?-append_one d.subscribers new_channel i ch h) [
    | inl there ↦ t.held i ch there
    | inr (e, same) ↦
        let (offers, first) = t.absent i (omega (arith, e, t.counted)) in
        (
          sym (ap (λ (c : Channel). c.room) same) ∙ sym (ap oldest offers),
          sym (ap (λ (c : Channel). c.first) same) ∙ sym first,
        )
  ];
  absent = λ i h. t.absent i (omega (arith, h));
}

-- One channel changes by an event that concerns no other.
changes-Tells :
    (log log' : List Event) (d : Discovery) (i : ℕ) (ch new : Channel)
    → Tells log d
    → get_elem? d.subscribers i ≡ some ch
    → latest log' ≡ latest log
    → count log' ≡ count log
    → (new.room ≡ oldest (offered i log')) × (new.first ≡ goroutine i log')
    → ((j : ℕ) → j ≢ i → (offered j log' ≡ offered j log) × (goroutine j log' ≡ goroutine j log))
    → Tells log' (record d { subscribers = set d.subscribers i new })
changes-Tells log log' d i ch new t there same_latest same_count here others = record {
  current = t.current ∙ sym same_latest;
  counted = length-set d.subscribers i new ∙ t.counted ∙ sym same_count;
  held = λ j other h. elim (get_elem?-set d.subscribers i j new other h) [
    | inl (e, same) ↦
        subst (λ k. (other.room ≡ oldest (offered k log')) × (other.first ≡ goroutine k log'))
          (sym e)
          (subst
            (λ (c : Channel). (c.room ≡ oldest (offered i log')) × (c.first ≡ goroutine i log'))
            same here)
    | inr (apart, unchanged) ↦
        let (room, first) = t.held j other unchanged in
        let (offers, at) = others j apart in (room ∙ sym (ap oldest offers), first ∙ sym at)
  ];
  absent = λ j h.
      let (offers, first) = t.absent j (subst (λ n. n ≤ j) same_count h) in
      let inside = get_elem?-lt d.subscribers i ch there in
      let (same_offers, same_first) =
        others j (λ e. omega (arith, e, inside, h, same_count, t.counted)) in
      (same_offers ∙ offers, same_first ∙ first);
}

reads-Tells :
    (log : List Event) (d : Discovery) (i : ℕ) (ch : Channel)
    → Tells log d
    → get_elem? d.subscribers i ≡ some ch
    → Tells (read i ∷ log) (record d {
      subscribers = set d.subscribers i (record ch { first = sending (get_targets d) });
    })
unfolding latest count offered goroutine
reads-Tells log d i ch t there =
    let (room, first) = t.held i ch there in
    changes-Tells log (read i ∷ log) d i ch (record ch { first = sending (get_targets d) }) t there
      refl refl (room, ground (arith, t.current)) (λ j apart. (refl, ground (arith, apart)))

sends-Tells :
    (log : List Event) (d : Discovery) (i : ℕ) (ch : Channel) (targets : List Target)
    → Tells log d
    → get_elem? d.subscribers i ≡ some ch
    → offered i log ≡ []
    → Tells (sent i targets ∷ log) (record d {
      subscribers = set d.subscribers i (record { room = some targets; first = done });
    })
unfolding latest count offered goroutine
sends-Tells log d i ch targets t there free =
    changes-Tells log (sent i targets ∷ log) d i ch (record { room = some targets; first = done }) t
      there refl refl (ground (arith, free), ground arith)
      (λ j apart. (ground (arith, apart), ground (arith, apart)))

receives-Tells :
    (log : List Event) (d : Discovery) (i : ℕ) (ch : Channel) (targets : List Target)
    → Tells log d
    → get_elem? d.subscribers i ≡ some ch
    → Tells
        (received i targets ∷ log)
        (record d { subscribers = set d.subscribers i (record ch { room = none }) })
unfolding latest count offered goroutine
receives-Tells log d i ch targets t there =
    let (room, first) = t.held i ch there in
    changes-Tells log (received i targets ∷ log) d i ch (record ch { room = none }) t there refl
      refl (ground arith, first) (λ j apart. (ground (arith, apart), refl))

-- In every run the events alone tell the state: the current targets are the latest found; a
-- subscriber's channel holds the oldest of the lists that were offered to it, by a round or by its
-- goroutine, since it last received one, so a newer list is missed while an older one waits; and
-- what its goroutine read were the latest targets then. What the goroutine sends is what it read,
-- once no offered list waits, and what a subscriber receives is the oldest of the offered lists.
pub Run-Tells :
    {config : KubernetesDiscoveryConfig} {log : List Event} {d : Discovery}
    → Run config log d
    → Tells log d × IsOrderly log
unfolding discover
Run-Tells started = (started-Tells, tt)
Run-Tells (discovers {log} {d} client now run) =
    let (t, orderly) = Run-Tells run in (discovers-Tells log d _ t, orderly)
Run-Tells (subscribes {log} {d} run) =
    let (t, orderly) = Run-Tells run in (subscribes-Tells log d t, orderly)
Run-Tells (reads {log} {d} i ch run there first) =
    let (t, orderly) = Run-Tells run in (reads-Tells log d i ch t there, orderly)
Run-Tells (sends {log} {d} i ch targets run there first room) =
    let (t, orderly) = Run-Tells run in
    let (holds, at) = t.held i ch there in
    let free = oldest-none (offered i log) (sym holds ∙ room) in
    (sends-Tells log d i ch targets t there free, (free, sym at ∙ first, orderly))
Run-Tells (receives {log} {d} i ch targets run there room) =
    let (t, orderly) = Run-Tells run in
    let (holds, at) = t.held i ch there in
    (receives-Tells log d i ch targets t there, (sym holds ∙ room, orderly))
