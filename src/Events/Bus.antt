-- ===== src/Events/Bus.antt =====
-- events.rs: event_bus_loop with handle_publish_async and handle_publish_sync. A subscriber's channel is
-- the list of deliveries that wait in it; the identifier that SubscriptionId::new draws is an argument.
pub mod Handle
pub mod Order
pub mod Capacity
pub mod Waiting
pub mod Acknowledgments
use scuttled.Prelude.{
  ◌↔◌, arith, ℕ, Bool, true, false, not, ◌&&◌, ◌≡◌, refl, sym, ◌∙◌, ap, Option, none, some, List,
  [], ◌∷◌, ◌++◌, map, length, ltb, contains, HashMap, insert, remove, nat_key, nat_eq, nat_eq_iff,
  Eq, if◌then◌else◌, ◌+◌, ◌==◌,
}
use scuttled.Events.{Event, EventKind, kind}

abbrev pub SubscriptionId : Type 0
SubscriptionId = ℕ

pub data SubscriptionType : Type 0 where
  async sync : SubscriptionType

pub data EventDelivery : Type 0 where
  async sync : Event → EventDelivery

unfoldable pub event : EventDelivery → Event
event (EventDelivery.async e) = e
event (EventDelivery.sync e) = e

-- The derived equality of kinds.
unfoldable pub kind_beq : EventKind → EventKind → Bool
kind_beq EventKind.mailbox_created EventKind.mailbox_created = true
kind_beq EventKind.mailbox_deleted EventKind.mailbox_deleted = true
kind_beq EventKind.mailbox_renamed EventKind.mailbox_renamed = true
kind_beq EventKind.message_created EventKind.message_created = true
kind_beq EventKind.message_modified EventKind.message_modified = true
kind_beq EventKind.message_deleted EventKind.message_deleted = true
kind_beq _ _ = false

pub kind_beq_iff : (j k : EventKind) → (kind_beq j k ≡ true) ↔ (j ≡ k)
unfolding kind_beq
kind_beq_iff _ _ = ground arith

instance abbrev pub kind_key : Eq EventKind
kind_key = record { same = kind_beq; same_iff = kind_beq_iff }

-- `channel(100)`
abbrev pub event_capacity : ℕ
event_capacity = 100

pub record Subscriber : Type 0 where
  pub kinds : List EventKind
  pub subscription_type : SubscriptionType
  pub unread : List EventDelivery
  pub is_open : Bool

-- `try_send`: it fails at a channel that is closed or full.
unfoldable pub try_send : Subscriber → EventDelivery → Option Subscriber
try_send sub d =
    if sub.is_open && ltb (length sub.unread) event_capacity
    then some (record sub { unread = sub.unread ++ d ∷ [] })
    else none

-- One pass through the `for` loop: a delivery that fails is only logged.
abbrev pub sent : Subscriber → Option Subscriber → Subscriber
sent sub none = sub
sent sub (some t) = t

unfoldable pub offer : Event → EventDelivery → Subscriber → Subscriber
unfolding try_send kind kind_beq
offer e delivery sub = if contains sub.kinds (kind e) then sent sub (try_send sub delivery) else sub

abbrev pub Subscribers : Type 0
Subscribers = HashMap SubscriptionId Subscriber

unfoldable pub handle_publish_async : Event → Subscribers → Subscribers
unfolding offer
handle_publish_async e subscribers =
    map (λ x. (x.0, offer e (EventDelivery.async e) x.1)) subscribers

abbrev pub delivery_of : SubscriptionType → Event → EventDelivery
delivery_of SubscriptionType.async e = EventDelivery.async e
delivery_of SubscriptionType.sync e = EventDelivery.sync e

unfoldable pub handle_publish_sync : Event → Subscribers → Subscribers
unfolding offer
handle_publish_sync e subscribers =
    map (λ x. (x.0, offer e (delivery_of x.1.subscription_type e) x.1)) subscribers

pub data BusCommand : Type 0 where
  publish publish_sync : Event → BusCommand
  subscribe : (id : SubscriptionId) → List EventKind → SubscriptionType → BusCommand
  unsubscribe : SubscriptionId → BusCommand
  shutdown : BusCommand

-- One turn of the loop; a publish_sync goes on to wait for the acknowledgments, which change nothing here.
unfoldable pub turn : BusCommand → Subscribers → Subscribers
unfolding handle_publish_async handle_publish_sync insert remove
turn (BusCommand.publish e) s = handle_publish_async e s
turn (BusCommand.publish_sync e) s = handle_publish_sync e s
turn (BusCommand.subscribe id kinds subscription_type) s =
    insert s id
      (record { kinds = kinds; subscription_type = subscription_type; unread = []; is_open = true })
turn (BusCommand.unsubscribe id) s = remove s id
turn BusCommand.shutdown s = s

unfoldable pub event_bus_loop : List BusCommand → Subscribers → Subscribers
unfolding turn
event_bus_loop [] s = s
event_bus_loop (BusCommand.shutdown ∷ cs) s = s
event_bus_loop (c ∷ cs) s = event_bus_loop cs (turn c s)
