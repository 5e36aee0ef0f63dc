-- ===== src/Events/Bus/Order.antt =====
-- What a subscriber of the bus of events.rs receives.
use scuttled.Prelude.{
  Bool, true, false, not, ◌&&◌, List, [], ◌∷◌, ◌++◌, contains, nat_key, nat_eq, if◌then◌else◌,
}
use scuttled.Events.{Event, EventKind, kind}
use scuttled.Events.Bus.{
  SubscriptionId, EventDelivery, Subscriber, kind_key, delivery_of, SubscriptionType, BusCommand,
}

-- What a subscriber is due: the published events of its kinds in order.
abbrev pub if_wanted : List EventKind → Event → EventDelivery → List EventDelivery
if_wanted kinds e d = if contains kinds (kind e) then d ∷ [] else []

abbrev pub due_of : List EventKind → SubscriptionType → BusCommand → List EventDelivery
due_of kinds t (BusCommand.publish e) = if_wanted kinds e (EventDelivery.async e)
due_of kinds t (BusCommand.publish_sync e) = if_wanted kinds e (delivery_of t e)
due_of kinds t _ = []

abbrev pub due : List EventKind → SubscriptionType → List BusCommand → List EventDelivery
due kinds t [] = []
due kinds t (c ∷ cs) = due_of kinds t c ++ due kinds t cs

-- No command ends or replaces the subscription.
abbrev pub leaves : SubscriptionId → BusCommand → Bool
leaves id (BusCommand.subscribe j kinds t) = not (nat_eq j id)
leaves id (BusCommand.unsubscribe j) = not (nat_eq j id)
leaves id BusCommand.shutdown = false
leaves id _ = true

abbrev pub all_leave : SubscriptionId → List BusCommand → Bool
all_leave id [] = true
all_leave id (c ∷ cs) = leaves id c && all_leave id cs

abbrev pub with_unread : Subscriber → List EventDelivery → Subscriber
with_unread sub ds = record sub { unread = sub.unread ++ ds }
