-- ===== src/Index.antt =====
-- index/mod.rs and index/backend.rs: what the search index stores of a message, and the backend as an
-- interface over the state `S` that an implementation keeps.
pub mod Memory
pub mod Indexer
pub mod Tantivy
use scuttled.Prelude.{ℕ, Option, List}
use scuttled.Text.{Text}
use scuttled.Types.{MessageId, Uid, DateTime, MessageFlag}
use scuttled.Types.Query.{SearchQuery}
use scuttled.Error.{Result}

pub record IndexedMessage : Type 0 where
  pub id : MessageId
  pub uid : Uid
  pub mailbox : Text
  pub flags : List MessageFlag
  pub internal_date : DateTime
  pub size : ℕ
  pub from : Text
  pub to : Text
  pub subject : Text
  pub body_preview : Text

pub record IndexBackend (S : Type 0) : Type 0 where
  pub add_message : S → (username mailbox : Text) → IndexedMessage → Result Text × S
  pub update_flags : S → MessageId → List MessageFlag → Result (Unit {0}) × S
  pub delete_message : S → MessageId → Result (Unit {0}) × S
  pub remove_messages_for_mailbox : S → (username mailbox : Text) → Result (Unit {0}) × S
  pub get_message_path : S → MessageId → Result (Option Text)
  pub get_message_path_by_uid : S → (username mailbox : Text) → Uid → Result (Option Text)
  pub list_message_paths : S → (username mailbox : Text) → Result (List Text)
  pub get_message_metadata : S → MessageId → Result (Option IndexedMessage)
  pub search : S → (username mailbox : Text) → SearchQuery → Result (List Text)
