-- ===== src/Events/Bus/Acknowledgments.antt =====
-- events.rs: when the wait of publish_sync is over.
use scuttled.Prelude.{List, [], ◌∷◌}
use scuttled.Events.Bus.{kind_key, SubscriptionId, Subscriber}
use scuttled.Events.Bus.Waiting.{Taking, take_next}

all_taken : SubscriptionId → List Taking → Subscriber → Subscriber
all_taken id [] sub = sub
all_taken id (t ∷ ts) sub = all_taken id ts (take_next id t sub)
