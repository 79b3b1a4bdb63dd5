-- ===== src/Bus/Slots.antt =====
-- A subscriber is served as if it were alone.
use desky.Prelude.{
  ℕ, zero, suc, ◌+◌, ◌-◌, ◌<◌, ◌≤◌, ◌≡◌, refl, sym, ap, ◌∙◌, arith, Bool, true, false, Option, none,
  some, List, [], ◌∷◌, ◌++◌, length, length-append, take, get_or, subst,
}
use desky.Bus.{Event, Queue, Slot, no_slot, offer, publish, pop}

append-none : (xs : List Event) → xs ++ [] ≡ xs
append-none [] = refl
append-none (x ∷ xs) = ap (λ l. x ∷ l) (append-none xs)

append-cons : (xs ys : List Event) (e : Event) → (xs ++ (e ∷ [])) ++ ys ≡ xs ++ (e ∷ ys)
append-cons [] ys e = refl
append-cons (x ∷ xs) ys e = ap (λ l. x ∷ l) (append-cons xs ys e)

take-none : (n : ℕ) → take {A = Event} n [] ≡ []
take-none zero = refl
take-none (suc n) = refl

-- What FreeRTOS documents of a queue: its places are bounded, a send without a wait puts an event behind
-- the others or, where it is full, refuses it, and the events come out in the order in which they went in.
pub record IsFifo {Q : Type 0} (send : Q → Event → Q × Bool) (receive_from : Q → Q × Option Event)
    (depth : Q → ℕ) (items : Q → List Event) : Type 0 where
  pub send_room :
      (q : Q) (e : Event)
      → length (items q) < depth q
      → ((send q e).1 ≡ true) × (items (send q e).0 ≡ items q ++ (e ∷ []))
  pub send_full :
      (q : Q) (e : Event)
      → depth q ≤ length (items q)
      → ((send q e).1 ≡ false) × (items (send q e).0 ≡ items q)
  pub send_depth : (q : Q) (e : Event) → depth (send q e).0 ≡ depth q
  pub receive_first :
      (q : Q) (e : Event) (es : List Event)
      → items q ≡ e ∷ es
      → ((receive_from q).1 ≡ some e) × (items (receive_from q).0 ≡ es)
  pub receive_empty : (q : Q) → items q ≡ [] → (receive_from q).1 ≡ none
  pub receive_depth : (q : Q) → depth (receive_from q).0 ≡ depth q

module _ {Q : Type 0} (send : Q → Event → Q × Bool) (receive_from : Q → Q × Option Event) where
  get_or-publish :
      (bus : List (Slot Q)) (i : ℕ) (e : Event)
      → get_or (publish send receive_from bus e) i no_slot
        ≡ offer send receive_from e (get_or bus i no_slot)
  unfolding publish offer
  get_or-publish [] i e = refl
  get_or-publish (s ∷ ss) zero e = refl
  get_or-publish (s ∷ ss) (suc i) e = get_or-publish ss i e

  -- The events, published in turn.
  abbrev pub publish_all : List (Slot Q) → List Event → List (Slot Q)
  publish_all bus [] = bus
  publish_all bus (e ∷ es) = publish_all (publish send receive_from bus e) es

  -- The events that the subscriber of a slot then takes out, at most `n`.
  abbrev pub take_out : ℕ → Slot Q → List Event
  take_out zero s = []
  take_out (suc n) s =
      let (s1, o) = pop send receive_from s in
      let rest = take_out n s1 in elim o [ none ↦ [] | some e ↦ e ∷ rest ]

  module _ (depth : Q → ℕ) (items : Q → List Event)
      (fifo : IsFifo send receive_from depth items) where
    -- The queue of a slot has `places`, and the count of what was dropped is `d`.
    abbrev Held : Slot Q → ℕ → ℕ → List Event → Type 0
    Held s places d xs =
        (q : Queue Q) × (s.queue ≡ some q)
        × (depth q.contents ≡ places)
        × (items q.contents ≡ xs)
        × (s.dropped ≡ d)

    offer-room :
        (e : Event) (s : Slot Q) (places d : ℕ) (xs : List Event)
        → Held s places d xs
        → length xs < places
        → Held (offer send receive_from e s) places d (xs ++ (e ∷ []))
    unfolding offer
    offer-room e s places d xs (q, a, b, c, x) h =
        let (ok, put_behind) = fifo.send_room q.contents e (omega (arith, ap length c)) in
        rw (a, ok)
          (
            record q { contents = (send q.contents e).0 },
            refl,
            fifo.send_depth q.contents e ∙ b,
            put_behind ∙ ap (λ l. l ++ (e ∷ [])) c,
            x,
          )

    offer-full :
        (e : Event) (s : Slot Q) (places d : ℕ) (xs : List Event)
        → Held s places d xs
        → length xs ≡ places
        → d + 1 < 4294967296
        → Held (offer send receive_from e s) places (d + 1) xs
    unfolding offer
    offer-full e s places d xs (q, a, b, c, x) h n =
        let (ok, same) = fifo.send_full q.contents e (omega (arith, ap length c)) in
        rw (a, ok)
          (
            record q { contents = (send q.contents e).0 },
            refl,
            fifo.send_depth q.contents e ∙ b,
            same ∙ c,
            omega arith,
          )

    -- `r` events still fit.
    Held-publish_all :
        (es : List Event) (bus : List (Slot Q)) (i places d r : ℕ) (xs : List Event)
        → Held (get_or bus i no_slot) places d xs
        → length xs + r ≡ places
        → d + length es < 4294967296
        → Held
            (get_or (publish_all bus es) i no_slot)
            places
            (d + (length es - r))
            (xs ++ take r es)
    Held-publish_all [] bus i places d r xs (q, a, b, c, x) l n =
        (q, a, b, c ∙ sym (ap (λ y. xs ++ y) (take-none r) ∙ append-none xs), omega arith)
    Held-publish_all (e ∷ es) bus i places d zero xs h l n =
        let full = offer-full e (get_or bus i no_slot) places d xs h (omega arith) (omega arith) in
        let (q, a, b, c, x) =
          Held-publish_all es (publish send receive_from bus e) i places (d + 1) zero xs
            (subst (λ s. Held s places (d + 1) xs) (sym (get_or-publish bus i e)) full) l
            (omega arith) in
        (q, a, b, c, omega arith)
    Held-publish_all (e ∷ es) bus i places d (suc r) xs h l n =
        let more = xs ++ (e ∷ []) in
        let room = offer-room e (get_or bus i no_slot) places d xs h (omega arith) in
        let (q, a, b, c, x) =
          Held-publish_all es (publish send receive_from bus e) i places d r more
            (subst (λ s. Held s places d more) (sym (get_or-publish bus i e)) room)
            (omega (arith, length-append xs (e ∷ []))) (omega arith) in
        (q, a, b, c ∙ append-cons xs (take r es) e, omega arith)

    take_out_lem :
        (n : ℕ) (s : Slot Q) (places d : ℕ) (xs : List Event)
        → Held s places d xs
        → take_out n s ≡ take n xs
    unfolding pop
    take_out_lem zero s places d xs h = refl
    take_out_lem (suc n) s places d [] (q, a, b, c, x) =
        rw (a, fifo.receive_empty q.contents c, take_out) refl
    take_out_lem (suc n) s places d (e ∷ es) (q, a, b, c, x) =
        let (first, left) = fifo.receive_first q.contents e es c in
        let t : Queue Q = record q { contents = (receive_from q.contents).0 } in
        let ih =
          take_out_lem n (record s { queue = some t }) places d es
            (t, refl, fifo.receive_depth q.contents ∙ b, left, x) in
        let popped : pop send receive_from s ≡ (record s { queue = some t }, some e) =
          rw (a, first) refl in
        ap
          (λ (r : Slot Q × Option Event).
            let rest = take_out n r.0 in elim r.1 [ none ↦ [] | some e ↦ e ∷ rest ])
          popped
        ∙ ap (λ l. e ∷ l) ih

    -- Where the queues behave as FreeRTOS documents: events are published in turn to a bus, and a
    -- subscriber whose queue was empty takes out events after that. It gets, in the order of publishing,
    -- the first events that its queue has places for, and the others are counted as dropped, whoever
    -- else subscribes and however full the other queues are (the count stays below 2^32).
    pub publish_all-take_out :
        (bus : List (Slot Q)) (i n d : ℕ) (q : Queue Q) (es : List Event)
        → get_or bus i no_slot ≡ record { queue = some q; dropped = d }
        → items q.contents ≡ []
        → d + length es < 4294967296
        → (take_out n (get_or (publish_all bus es) i no_slot) ≡ take n (take (depth q.contents) es))
          × ((get_or (publish_all bus es) i no_slot).dropped ≡ d + (length es - depth q.contents))
    publish_all-take_out bus i n d q es a c k =
        let places = depth q.contents in
        let start : Held (get_or bus i no_slot) places d [] =
          (q, ap (λ (s : Slot Q). s.queue) a, refl, c, ap (λ (s : Slot Q). s.dropped) a) in
        let (r, a', b', c', x) =
          Held-publish_all es bus i places d places [] start (omega arith) k in
        (take_out_lem n _ places _ _ (r, a', b', c', x), x)
