-- ===== src/Index/Indexer/Handle.antt =====
-- The methods of `Indexer` in index/indexer.rs: writes go through the channel, reads go to the backend.
use scuttled.Prelude.{Option, List}
use scuttled.Text.{Text, text}
use scuttled.Types.{MessageId, Uid, MessageFlag}
use scuttled.Types.Query.{SearchQuery}
use scuttled.Error.{Error, Result, ok}
use scuttled.Channel.{Loop, request}
use scuttled.Index.{IndexedMessage, IndexBackend}

abbrev pub loop_stopped : Error
loop_stopped = Error.internal (text "Writer loop stopped")

abbrev pub reply_dropped : Error
reply_dropped = Error.internal (text "Writer loop dropped reply")

module _ {S : Type 0} (backend : IndexBackend S) (loop : Loop) where
  unfoldable pub add_message : S → (username mailbox : Text) → IndexedMessage → Result Text × S
  add_message s username mailbox message =
      request loop loop_stopped reply_dropped (λ t. backend.add_message t username mailbox message)
        s

  unfoldable pub update_flags : S → MessageId → List MessageFlag → Result (Unit {0}) × S
  update_flags s id flags =
      request loop loop_stopped reply_dropped (λ t. backend.update_flags t id flags) s

  unfoldable pub delete_message : S → MessageId → Result (Unit {0}) × S
  delete_message s id = request loop loop_stopped reply_dropped (λ t. backend.delete_message t id) s

  -- The command that the listener sends.
  unfoldable pub remove_messages_for_mailbox : S → (username mailbox : Text) → Result (Unit {0}) × S
  remove_messages_for_mailbox s username mailbox =
      request loop loop_stopped reply_dropped
        (λ t. backend.remove_messages_for_mailbox t username mailbox) s

module _ {S : Type 0} (backend : IndexBackend S) where
  unfoldable pub get_message_path : S → MessageId → Result (Option Text)
  get_message_path s id = backend.get_message_path s id

  unfoldable pub get_message_path_by_uid :
      S → (username mailbox : Text) → Uid → Result (Option Text)
  get_message_path_by_uid s username mailbox uid =
      backend.get_message_path_by_uid s username mailbox uid

  unfoldable pub list_message_paths : S → (username mailbox : Text) → Result (List Text)
  list_message_paths s username mailbox = backend.list_message_paths s username mailbox

  unfoldable pub get_message_metadata : S → MessageId → Result (Option IndexedMessage)
  get_message_metadata s id = backend.get_message_metadata s id

  unfoldable pub search : S → (username mailbox : Text) → SearchQuery → Result (List Text)
  search s username mailbox query = backend.search s username mailbox query

-- Neither the send nor the reply is looked at.
unfoldable pub shutdown : Loop → Result (Unit {0}) × Loop
shutdown loop = (ok tt, Loop.stopped)
