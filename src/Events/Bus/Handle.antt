-- ===== src/Events/Bus/Handle.antt =====
-- The methods of `EventBus` in events.rs. A subscription returns the identifier that the loop drew; its
-- receiver is the channel that the subscriber has in the state.
use scuttled.Prelude.{List}
use scuttled.Text.{text}
use scuttled.Error.{Error, Result, ok}
use scuttled.Channel.{Loop, request}
use scuttled.Events.{Event, EventKind}
use scuttled.Events.Bus.{SubscriptionId, SubscriptionType, Subscribers, BusCommand, turn}

abbrev pub bus_stopped : Error
bus_stopped = Error.internal (text "Event bus stopped")

abbrev pub reply_dropped : Error
reply_dropped = Error.internal (text "Event bus dropped reply")

module _ (loop : Loop) where
  unfoldable pub publish : Event → Subscribers → Result (Unit {0}) × Subscribers
  unfolding turn
  publish e s =
      request loop bus_stopped reply_dropped (λ t. (ok tt, turn (BusCommand.publish e) t)) s

  unfoldable pub publish_sync : Event → Subscribers → Result (Unit {0}) × Subscribers
  unfolding turn
  publish_sync e s =
      request loop bus_stopped reply_dropped (λ t. (ok tt, turn (BusCommand.publish_sync e) t)) s

  unfoldable pub subscribe_with_type :
      SubscriptionId
      → List EventKind
      → SubscriptionType
      → Subscribers
      → Result SubscriptionId × Subscribers
  unfolding turn
  subscribe_with_type id kinds subscription_type s =
      request loop bus_stopped reply_dropped
        (λ t. (ok id, turn (BusCommand.subscribe id kinds subscription_type) t)) s

  unfoldable pub subscribe :
      SubscriptionId → List EventKind → Subscribers → Result SubscriptionId × Subscribers
  unfolding subscribe_with_type
  subscribe id kinds s = subscribe_with_type id kinds SubscriptionType.async s

  unfoldable pub subscribe_sync :
      SubscriptionId → List EventKind → Subscribers → Result SubscriptionId × Subscribers
  unfolding subscribe_with_type
  subscribe_sync id kinds s = subscribe_with_type id kinds SubscriptionType.sync s

  unfoldable pub unsubscribe : SubscriptionId → Subscribers → Result (Unit {0}) × Subscribers
  unfolding turn
  unsubscribe id s =
      request loop bus_stopped reply_dropped (λ t. (ok tt, turn (BusCommand.unsubscribe id) t)) s

-- Neither the send nor the reply is looked at.
unfoldable pub shutdown : Loop → Result (Unit {0}) × Loop
shutdown loop = (ok tt, Loop.stopped)
