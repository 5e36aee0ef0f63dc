-- ===== src/Examples/Events.antt =====
-- events.rs at a bus with one subscriber.
use scuttled.Prelude.{true, false, ◌≡◌, refl, List, [], ◌∷◌, nat_key}
use scuttled.Text.{text}
use scuttled.Events.{Event, EventKind, kind}
use scuttled.Events.Bus.{
  SubscriptionType, EventDelivery, Subscriber, Subscribers, BusCommand, kind_beq,
}
use scuttled.Events.Bus.Waiting.{Taking, any_due, is_due, expects, closes}

abbrev created : Event
created = Event.mailbox_created (text "alice") (text "Work")

abbrev deleted : Event
deleted = Event.mailbox_deleted (text "alice") (text "Work")

abbrev subscriber : Subscriber
subscriber = record {
  kinds = EventKind.mailbox_deleted ∷ [];
  subscription_type = SubscriptionType.sync;
  unread = [];
  is_open = true;
}

abbrev subscribers : Subscribers
subscribers = (1, subscriber) ∷ []

abbrev commands : List BusCommand
commands =
    BusCommand.publish created
    ∷ BusCommand.publish_sync deleted
    ∷ BusCommand.subscribe 2 (EventKind.mailbox_created ∷ []) SubscriptionType.async
    ∷ BusCommand.publish deleted
    ∷ BusCommand.unsubscribe 2
    ∷ []

-- Two events wait in the channel before.
abbrev busy : Subscribers
busy =
    (
      1,
      record subscriber { unread = EventDelivery.async created ∷ EventDelivery.async deleted ∷ [] },
    )
    ∷ []

abbrev thrice : List Taking
thrice = Taking.acknowledge 1 ∷ Taking.acknowledge 1 ∷ Taking.acknowledge 1 ∷ []

abbrev twice : List Taking
twice = Taking.acknowledge 1 ∷ Taking.acknowledge 2 ∷ Taking.acknowledge 1 ∷ []

through : (any_due deleted thrice busy ≡ false) × (any_due deleted twice busy ≡ true)
unfolding expects is_due closes kind kind_beq
through = (refl, refl)
