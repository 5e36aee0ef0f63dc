-- ===== src/Events.antt =====
-- events.rs: the events that the components send each other, and their kinds. Events/Bus is the loop of
-- the event bus.
pub mod Bus
use scuttled.Prelude.{ℕ, Bool, List}
use scuttled.Text.{Text}
use scuttled.Types.{MessageFlag, DateTime}

pub data Event : Type 0 where
  mailbox_created : (username mailbox : Text) → Event
  mailbox_deleted : (username mailbox : Text) → Event
  mailbox_renamed : (username old_name new_name : Text) → Event
  message_created :
      (username mailbox unique_id path : Text)
      → (flags : List MessageFlag) → (is_new : Bool) → (from to subject body_preview : Text)
      → (size : ℕ) → (internal_date : DateTime) → Event
  message_modified : (username mailbox unique_id : Text) → (flags : List MessageFlag) → Event
  message_deleted : (username mailbox unique_id : Text) → Event

pub data EventKind : Type 0 where
  mailbox_created mailbox_deleted mailbox_renamed message_created message_modified message_deleted :
      EventKind

unfoldable pub kind : Event → EventKind
kind (Event.mailbox_created username mailbox) = EventKind.mailbox_created
kind (Event.mailbox_deleted username mailbox) = EventKind.mailbox_deleted
kind (Event.mailbox_renamed username old_name new_name) = EventKind.mailbox_renamed
kind
      (Event.message_created username mailbox unique_id path flags is_new from to subject
        body_preview size internal_date) =
    EventKind.message_created
kind (Event.message_modified username mailbox unique_id flags) = EventKind.message_modified
kind (Event.message_deleted username mailbox unique_id) = EventKind.message_deleted
