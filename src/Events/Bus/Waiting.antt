-- ===== src/Events/Bus/Waiting.antt =====
-- events.rs: publish_sync waits for the acknowledgments of the deliveries that it made. A subscriber takes and
-- acknowledges a delivery in one step, in the order of its channel. No acknowledgment of an
-- earlier publish_sync is open when the loop comes to the next one, so the loop waits exactly while a
-- synchronous delivery is in a channel.
use scuttled.Prelude.{
  ℕ, ◌+◌, Bool, true, false, ◌||◌, ◌&&◌, not, leb, List, [], ◌∷◌, map, if◌then◌else◌, length, ltb,
  nat_eq, contains,
}
use scuttled.Events.{Event, kind}
use scuttled.Events.Bus.{
  kind_beq, kind_key, SubscriptionId, EventDelivery, Subscriber, Subscribers, event_capacity,
  delivery_of,
}

abbrev pub is_sync : EventDelivery → Bool
is_sync (EventDelivery.sync e) = true
is_sync (EventDelivery.async e) = false

abbrev pub has_sync : List EventDelivery → Bool
has_sync [] = false
has_sync (d ∷ ds) = is_sync d || has_sync ds

-- `for ack_rx in ack_receivers { let _ = ack_rx.await; }` is not through.
unfoldable pub is_waiting : Subscribers → Bool
is_waiting [] = false
is_waiting ((id, sub) ∷ s) = has_sync sub.unread || is_waiting s

-- What subscribers do meanwhile: one receives its oldest delivery and acknowledges it, or one drops its
-- receiver, and with it the deliveries and their senders of acknowledgments.
pub data Taking : Type 0 where
  acknowledge : SubscriptionId → Taking
  close : SubscriptionId → Taking

abbrev pub behind : List EventDelivery → List EventDelivery
behind [] = []
behind (d ∷ ds) = ds

unfoldable pub take_next : SubscriptionId → Taking → Subscriber → Subscriber
take_next id (Taking.acknowledge j) sub =
    if nat_eq j id then record sub { unread = behind sub.unread } else sub
take_next id (Taking.close j) sub =
    if nat_eq j id then record sub { unread = []; is_open = false } else sub

unfoldable pub taken : List Taking → Subscribers → Subscribers
unfolding take_next
taken [] s = s
taken (t ∷ ts) s = taken ts (map (λ x. (x.0, take_next x.0 t x.1)) s)

-- How often a subscriber acknowledges.
abbrev pub acknowledged : SubscriptionId → List Taking → ℕ
acknowledged id [] = 0
acknowledged id (Taking.acknowledge j ∷ ts) =
    let rest = acknowledged id ts in if nat_eq j id then rest + 1 else rest
acknowledged id (Taking.close j ∷ ts) = acknowledged id ts

-- Does a subscriber drop its receiver?
unfoldable pub closes : SubscriptionId → List Taking → Bool
closes id [] = false
closes id (Taking.acknowledge j ∷ ts) = closes id ts
closes id (Taking.close j ∷ ts) = nat_eq j id || closes id ts

-- A delivery behind `n` others is still there: its subscriber has neither acknowledged all of them and it,
-- nor dropped its receiver.
unfoldable pub is_due : SubscriptionId → List Taking → ℕ → Bool
unfolding closes
is_due id ts n = not (closes id ts) && leb (acknowledged id ts) n

-- The subscriber is sent the event with a channel for its acknowledgment.
unfoldable pub expects : Event → Subscriber → Bool
unfolding kind kind_beq
expects e sub =
    (contains sub.kinds (kind e) && (sub.is_open && ltb (length sub.unread) event_capacity))
    && is_sync (delivery_of sub.subscription_type e)

abbrev pub any_due : Event → List Taking → Subscribers → Bool
any_due e ts [] = false
any_due e ts ((id, sub) ∷ s) = expects e sub && is_due id ts (length sub.unread) || any_due e ts s
