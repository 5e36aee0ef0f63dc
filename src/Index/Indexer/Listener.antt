-- ===== src/Index/Indexer/Listener.antt =====
-- event_listener of index/indexer.rs: one event of the mail store. The registry is a state `M` with
-- its get_next_uid, and the identifier that MessageId::new draws is an argument of each event.
pub mod Deleting
pub mod Creating
use scuttled.Prelude.{
  ℕ, Bool, true, false, not, Option, none, some, List, [], ◌∷◌, ◌++◌, HashMap, get, insert, remove,
  keep, list_key, nat_key,
}
use scuttled.Text.{Text, text, starts_with}
use scuttled.Types.{MessageId, Uid, MessageFlag}
use scuttled.Error.{Result, ok, err}
use scuttled.Channel.{Loop}
use scuttled.Events.{Event}
use scuttled.Index.{IndexedMessage, IndexBackend}
use scuttled.Index.Indexer.Handle.{
  add_message, update_flags, delete_message, remove_messages_for_mailbox,
}

-- What the listener works on: the mapping of unique ids, the index, and the registry.
pub record Listening (S M : Type 0) : Type 0 where
  pub unique_id_mapping : HashMap Text MessageId
  pub index : S
  pub mailboxes : M

-- `format!("{}/{}/", username, mailbox)`
abbrev pub mailbox_prefix : (username mailbox : Text) → Text
mailbox_prefix username mailbox = username ++ text "/" ++ mailbox ++ text "/"

-- `format!("{}/{}/{}", username, mailbox, unique_id)`
abbrev pub unique_id_key : (username mailbox unique_id : Text) → Text
unique_id_key username mailbox unique_id = mailbox_prefix username mailbox ++ unique_id

module _ {S M : Type 0} (backend : IndexBackend S) (loop : Loop)
    (get_next_uid : Option (M → (username mailbox : Text) → Result Uid × M)) where
  -- The write of a new message; its path is mapped when the write succeeds.
  unfoldable pub add_indexed :
      (username path : Text) → IndexedMessage → Listening S M → Listening S M
  unfolding add_message insert
  add_indexed username path message s =
      let (r, index) = add_message backend loop s.index username message.mailbox message in
      elim r [
        | ok p ↦ record s {
          index = index;
          unique_id_mapping = insert s.unique_id_mapping path message.id;
        }
        | err e ↦ record s { index = index }
      ]

  -- The assignment of a UID; without one the event is skipped.
  abbrev pub assigned :
      (Uid → Listening S M → Listening S M) → Listening S M → Result Uid × M → Listening S M
  assigned next s (ok uid, mailboxes) = next uid (record s { mailboxes = mailboxes })
  assigned next s (err e, mailboxes) = record s { mailboxes = mailboxes }

  abbrev pub with_uid :
      (username mailbox : Text)
      → (Uid → Listening S M → Listening S M)
      → Listening S M
      → Listening S M
  with_uid username mailbox next s = elim get_next_uid [
    | none ↦ s
    | some next_uid ↦ assigned next s (next_uid s.mailboxes username mailbox)
  ]

  unfoldable pub modified : (key : Text) → List MessageFlag → Listening S M → Listening S M
  unfolding get update_flags
  modified key flags s = elim (get s.unique_id_mapping key) [
    | none ↦ s
    | some id ↦ record s { index = (update_flags backend loop s.index id flags).1 }
  ]

  unfoldable pub deleted : (key : Text) → Listening S M → Listening S M
  unfolding get remove delete_message
  deleted key s = elim (get s.unique_id_mapping key) [
    | none ↦ s
    | some id ↦ record s {
      unique_id_mapping = remove s.unique_id_mapping key;
      index = (delete_message backend loop s.index id).1;
    }
  ]

  unfoldable pub mailbox_gone : (username mailbox : Text) → Listening S M → Listening S M
  unfolding remove_messages_for_mailbox starts_with
  mailbox_gone username mailbox s = record s {
    index = (remove_messages_for_mailbox backend loop s.index username mailbox).1;
    unique_id_mapping =
        keep (λ e. not (starts_with e.0 (mailbox_prefix username mailbox))) s.unique_id_mapping;
  }

  -- One pass through the loop.
  unfoldable pub listen : MessageId → Event → Listening S M → Listening S M
  unfolding add_indexed modified deleted mailbox_gone
  listen id
        (Event.message_created username mailbox unique_id path flags is_new from to subject
          body_preview size internal_date)
        s =
      with_uid username mailbox
        (λ uid. add_indexed username path (record {
          id = id;
          uid = uid;
          mailbox = mailbox;
          flags = flags;
          internal_date = internal_date;
          size = size;
          from = from;
          to = to;
          subject = subject;
          body_preview = body_preview;
        }))
        s
  listen id (Event.message_modified username mailbox unique_id flags) s =
      modified (unique_id_key username mailbox unique_id) flags s
  listen id (Event.message_deleted username mailbox unique_id) s =
      deleted (unique_id_key username mailbox unique_id) s
  listen id (Event.mailbox_deleted username mailbox) s = mailbox_gone username mailbox s
  listen id _ s = s
