-- ===== src/Bus.antt =====
-- The event bus of both boards: `EventBusT` of embedded/shared/common/event_bus.h. Each subscriber has a
-- bounded queue of its own. A call is one step. The queues are those of FreeRTOS: what a queue is, and
-- what `xQueueSend` and `xQueueReceive` do with it, are parameters, and so is the queue that
-- `xQueueCreate` gives, if it has memory. What a handle does whose queue was deleted is not modelled: it
-- receives nothing here.
pub mod Slots
use desky.Prelude.{
  ℕ, suc, ◌+◌, Bool, true, false, not, ◌&&◌, Option, none, some, List, [], ◌∷◌, map, ltb, ◌==◌,
  if◌then◌else◌, get_or, set, u32,
}

abbrev pub max_subscribers : ℕ
max_subscribers = 8

abbrev pub default_depth : ℕ
default_depth = 16

abbrev pub invalid_slot : ℕ
invalid_slot = 0xFF

pub record Event : Type 0 where
  pub kind : ℕ
  pub payload : ℕ
  pub time : ℕ

-- A queue under its handle; `contents` is what FreeRTOS keeps of it.
pub record Queue (Q : Type 0) : Type 0 where
  pub handle : ℕ
  pub contents : Q

pub record Slot (Q : Type 0) : Type 0 where
  pub queue : Option (Queue Q)
  pub dropped : ℕ

abbrev pub no_slot : {Q : Type 0} → Slot Q
no_slot = record { queue = none; dropped = 0 }

pub record Subscription : Type 0 where
  pub queue : Option ℕ
  pub slot : ℕ

abbrev pub no_subscription : Subscription
no_subscription = record { queue = none; slot = invalid_slot }

abbrev pub empty_bus : {Q : Type 0} → List (Slot Q)
empty_bus =
    no_slot ∷ (no_slot ∷ (no_slot ∷ (no_slot ∷ (no_slot ∷ (no_slot ∷ (no_slot ∷ (no_slot ∷ [])))))))

-- The first free slot takes the queue, if one was created.
abbrev taken :
    {Q : Type 0} → ℕ → Option (Queue Q) → Slot Q → List (Slot Q) → List (Slot Q) × Subscription
taken i none s ss = (s ∷ ss, no_subscription)
taken i (some q) s ss =
    (record { queue = some q; dropped = 0 } ∷ ss, record { queue = some q.handle; slot = i })

abbrev is_free : {Q : Type 0} → Option (Queue Q) → Bool
is_free none = true
is_free (some q) = false

abbrev kept : {Q : Type 0} → Slot Q → List (Slot Q) × Subscription → List (Slot Q) × Subscription
kept s (ss, sub) = (s ∷ ss, sub)

abbrev subscribe_from :
    {Q : Type 0} → ℕ → Option (Queue Q) → List (Slot Q) → List (Slot Q) × Subscription
subscribe_from i created [] = ([], no_subscription)
subscribe_from i created (s ∷ ss) =
    let rest = subscribe_from (suc i) created ss in
    if is_free s.queue then taken i created s ss else kept s rest

-- `create` is `xQueueCreate`, which is given the depth.
unfoldable pub subscribe :
    {Q : Type 0} → (ℕ → Option (Queue Q)) → List (Slot Q) → ℕ → List (Slot Q) × Subscription
subscribe create bus depth =
    subscribe_from 0 (create (if depth == 0 then default_depth else depth)) bus

abbrev has_handle : {Q : Type 0} → Option ℕ → Option (Queue Q) → Bool
has_handle none q = false
has_handle (some h) none = false
has_handle (some h) (some q) = h == q.handle

unfoldable pub unsubscribe :
    {Q : Type 0} → List (Slot Q) → Subscription → List (Slot Q) × Subscription
unsubscribe bus sub =
    if ltb sub.slot max_subscribers && has_handle sub.queue (get_or bus sub.slot no_slot).queue
    then (set bus sub.slot no_slot, no_subscription)
    else (bus, no_subscription)

-- `send` is `xQueueSend` without a wait, and `receive_from` is `xQueueReceive`.
module _ {Q : Type 0} (send : Q → Event → Q × Bool) (receive_from : Q → Q × Option Event) where
  abbrev sent_to : Event → Slot Q → Option (Queue Q) → Slot Q
  sent_to e s none = s
  sent_to e s (some q) =
      let (c, ok) = send q.contents e in
      let t : Slot Q = record s { queue = some (record q { contents = c }) } in
      if ok then t else record t { dropped = u32 (s.dropped + 1) }

  -- One queue is offered an event; where it is not taken, that is counted.
  unfoldable pub offer : Event → Slot Q → Slot Q
  offer e s = sent_to e s s.queue

  unfoldable pub publish : List (Slot Q) → Event → List (Slot Q)
  unfolding offer
  publish bus e = map (offer e) bus

  abbrev pop_queue : Slot Q → Option (Queue Q) → Slot Q × Option Event
  pop_queue s none = (s, none)
  pop_queue s (some q) =
      let (c, o) = receive_from q.contents in
      (record s { queue = some (record q { contents = c }) }, o)

  unfoldable pub pop : Slot Q → Slot Q × Option Event
  pop s = pop_queue s s.queue

  -- What `xQueueReceive` gives before the wait is over, if it gives anything.
  unfoldable pub receive : List (Slot Q) → Subscription → List (Slot Q) × Option Event
  unfolding pop
  receive bus sub =
      let (s, o) = pop (get_or bus sub.slot no_slot) in
      if has_handle sub.queue (get_or bus sub.slot no_slot).queue
      then (set bus sub.slot s, o)
      else (bus, none)
