-- ===== src/Examples/Searching.antt =====
-- index/impl/inmemory.rs and index/indexer.rs at an index with two messages.
use scuttled.Prelude.{ℕ, ◌≡◌, refl, List, [], ◌∷◌, get, UniqueKeys, nat_key}
use scuttled.Text.{Text, text, decimal}
use scuttled.Types.{MessageFlag}
use scuttled.Index.{IndexedMessage}
use scuttled.Index.Memory.{Messages, in_memory_backend}
use scuttled.Index.Memory.Contents.{specified_loop}
use scuttled.Index.Memory.Replay.{writer_loop-get}
use scuttled.Index.Indexer.{WriteCommand, writer_loop}

abbrev pub message_of : ℕ → Text → List MessageFlag → IndexedMessage
message_of id from flags = record {
  id = id;
  uid = id;
  mailbox = text "INBOX";
  flags = flags;
  internal_date = 0;
  size = 1;
  from = from;
  to = text "bob";
  subject = text "hello";
  body_preview = text "text";
}

abbrev pub messages : Messages
messages =
    (
      1,
      record {
        metadata = message_of 1 (text "alice") (MessageFlag.seen ∷ []);
        path = text "alice/INBOX/1.eml";
        username = text "alice";
      },
    )
    ∷ (
      2,
      record {
        metadata = message_of 2 (text "carol") [];
        path = text "alice/INBOX/2.eml";
        username = text "alice";
      },
    )
    ∷ []

abbrev commands : List WriteCommand
commands =
    WriteCommand.update_flags 1 []
    ∷ WriteCommand.delete_message 2
    ∷ WriteCommand.add_message (text "alice") (text "INBOX") (message_of 3 (text "dan") [])
    ∷ WriteCommand.shutdown
    ∷ WriteCommand.delete_message 1
    ∷ []

writer_loop-get_example :
    (get (writer_loop (in_memory_backend decimal decimal) messages commands).1 3
      ≡ specified_loop decimal decimal (get messages) commands 3)
    × UniqueKeys (writer_loop (in_memory_backend decimal decimal) messages commands).1
unfolding get
writer_loop-get_example = writer_loop-get decimal decimal commands messages 3 (refl, (refl, tt))
