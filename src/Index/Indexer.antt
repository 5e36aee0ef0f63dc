-- ===== src/Index/Indexer.antt =====
-- index/indexer.rs: the writer loop of the indexer over any backend, the methods of `Indexer`, and the
-- listener that follows the events of the mail store.
pub mod Handle
pub mod Listener
use scuttled.Prelude.{ℕ, Option, List, [], ◌∷◌}
use scuttled.Text.{Text}
use scuttled.Types.{MessageId, MessageFlag}
use scuttled.Error.{Result}
use scuttled.Index.{IndexedMessage, IndexBackend}

pub data WriteCommand : Type 0 where
  add_message : (username mailbox : Text) → IndexedMessage → WriteCommand
  update_flags : MessageId → List MessageFlag → WriteCommand
  delete_message : MessageId → WriteCommand
  remove_messages_for_mailbox : (username mailbox : Text) → WriteCommand
  shutdown : WriteCommand

-- What the loop sends back.
pub data Reply : Type 0 where
  path : Result Text → Reply
  done : Result (Unit {0}) → Reply
  closed : Reply

module _ {S : Type 0} (backend : IndexBackend S) where
  -- One turn of the loop.
  unfoldable pub write : S → WriteCommand → Reply × S
  write s (WriteCommand.add_message username mailbox message) =
      let (r, t) = backend.add_message s username mailbox message in (Reply.path r, t)
  write s (WriteCommand.update_flags id flags) =
      let (r, t) = backend.update_flags s id flags in (Reply.done r, t)
  write s (WriteCommand.delete_message id) =
      let (r, t) = backend.delete_message s id in (Reply.done r, t)
  write s (WriteCommand.remove_messages_for_mailbox username mailbox) =
      let (r, t) = backend.remove_messages_for_mailbox s username mailbox in (Reply.done r, t)
  write s WriteCommand.shutdown = (Reply.closed, s)

  unfoldable pub writer_loop : S → List WriteCommand → List Reply × S
  writer_loop s [] = ([], s)
  writer_loop s (WriteCommand.shutdown ∷ cs) = (Reply.closed ∷ [], s)
  writer_loop s (c ∷ cs) =
      let (reply, t) = write s c in let (replies, end) = writer_loop t cs in (reply ∷ replies, end)
