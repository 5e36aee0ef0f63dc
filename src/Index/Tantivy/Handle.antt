-- ===== src/Index/Tantivy/Handle.antt =====
-- The writes of TantivyBackedIndex in index/impl/tantivy.rs, which go through the channel.
use scuttled.Prelude.{List}
use scuttled.Text.{Text, text}
use scuttled.Types.{MessageId, Uid, MessageFlag}
use scuttled.Error.{Error, Result, ok}
use scuttled.Channel.{Loop, request}
use scuttled.Files.{Action}
use scuttled.Index.{IndexedMessage}
use scuttled.Index.Tantivy
use scuttled.Index.Tantivy.{IndexWriter, Writing}

abbrev pub loop_stopped : Error
loop_stopped = Error.internal (text "Writer loop stopped")

abbrev pub reply_dropped : Error
reply_dropped = Error.internal (text "Writer loop dropped reply")

module _ {W : Type 0} (loop : Loop) where
  unfoldable pub create_mailbox : (username name : Text) → Action (Writing W) (Unit {0})
  unfolding Tantivy.create_mailbox
  create_mailbox username name =
      request loop loop_stopped reply_dropped (Tantivy.create_mailbox username name)

  unfoldable pub delete_mailbox : (username name : Text) → Action (Writing W) (Unit {0})
  unfolding Tantivy.delete_mailbox
  delete_mailbox username name =
      request loop loop_stopped reply_dropped (Tantivy.delete_mailbox username name)

  unfoldable pub rename_mailbox :
      (username old_name new_name : Text) → Action (Writing W) (Unit {0})
  unfolding Tantivy.rename_mailbox
  rename_mailbox username old_name new_name =
      request loop loop_stopped reply_dropped (Tantivy.rename_mailbox username old_name new_name)

  unfoldable pub add_message :
      IndexWriter W
      → (display : MessageId → Text) → (debug : MessageFlag → Text) → (username mailbox : Text)
      → IndexedMessage
      → Action (Writing W) Text
  unfolding Tantivy.add_message
  add_message writer display debug username mailbox message =
      request loop loop_stopped reply_dropped
        (Tantivy.add_message writer display debug username mailbox message)

  unfoldable pub update_flags : MessageId → List MessageFlag → Action (Writing W) (Unit {0})
  update_flags id flags = request loop loop_stopped reply_dropped (λ s. (ok tt, s))

  unfoldable pub delete_message : MessageId → Action (Writing W) (Unit {0})
  delete_message id = request loop loop_stopped reply_dropped (λ s. (ok tt, s))

  unfoldable pub get_next_uid : (username mailbox : Text) → Action (Writing W) Uid
  unfolding Tantivy.get_next_uid
  get_next_uid username mailbox =
      request loop loop_stopped reply_dropped (Tantivy.get_next_uid username mailbox)

-- Neither the send nor the reply is looked at.
unfoldable pub shutdown : Loop → Result (Unit {0}) × Loop
shutdown loop = (ok tt, Loop.stopped)
