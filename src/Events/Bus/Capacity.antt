-- ===== src/Events/Bus/Capacity.antt =====
-- The channels of the bus of events.rs stay within their capacity.
use scuttled.Prelude.{◌≤◌, [], ◌∷◌, map, length, length-append, nat_key, arith}
use scuttled.Events.{Event}
use scuttled.Events.Bus.{EventDelivery, Subscriber, Subscribers, event_capacity, try_send, offer}

abbrev pub IsBounded : Subscribers → Type 0
IsBounded [] = Unit
IsBounded ((id, sub) ∷ s) = (length sub.unread ≤ event_capacity) × IsBounded s

offer_bounded :
    (e : Event) (d : EventDelivery) (sub : Subscriber)
    → length sub.unread ≤ event_capacity
    → length (offer e d sub).unread ≤ event_capacity
unfolding offer try_send
offer_bounded e d sub h =
    let longer = length-append sub.unread (d ∷ []) in ground (arith, longer, h)

pub map-IsBounded :
    (e : Event) (d : Subscriber → EventDelivery) (s : Subscribers)
    → IsBounded s
    → IsBounded (map (λ x. (x.0, offer e (d x.1) x.1)) s)
map-IsBounded e d [] h = tt
map-IsBounded e d ((id, sub) ∷ s) h = (offer_bounded e (d sub) sub h.0, map-IsBounded e d s h.1)
