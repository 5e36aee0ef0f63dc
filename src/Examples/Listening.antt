-- ===== src/Examples/Listening.antt =====
-- event_listener of index/indexer.rs at an index with two messages.
use scuttled.Prelude.{
  ℕ, true, ◌+◌, ◌≡◌, refl, none, some, [], ◌∷◌, ◌++◌, get, list_key, nat_key, if◌then◌else◌, ◌==◌,
}
use scuttled.Text.{Text, text, decimal}
use scuttled.Types.{MessageId, Uid}
use scuttled.Error.{Result, ok}
use scuttled.Channel.{Loop}
use scuttled.Events.{Event}
use scuttled.Index.Memory.{Messages, in_memory_backend}
use scuttled.Index.Indexer.Listener.{Listening, unique_id_key, listen}
use scuttled.Index.Indexer.Listener.Deleting.{listen_inner}
use scuttled.Index.Indexer.Listener.Creating.{listen_created_deleted}
use scuttled.Examples.Searching.{messages}

-- A registry that counts.
abbrev pub next_uid : ℕ → (username mailbox : Text) → Result Uid × ℕ
next_uid n username mailbox = (ok n, n + 1)

abbrev pub listening : Listening Messages ℕ
listening = record {
  unique_id_mapping =
      (text "alice/INBOX/x", 1) ∷ (text "alice/INBOX/old/x", 2) ∷ (text "alice/Work/y", 9) ∷ [];
  index = messages;
  mailboxes = 7;
}

listen_inner_example :
    listen
      (in_memory_backend decimal decimal)
      Loop.running
      (some next_uid)
      0
      (Event.message_deleted (text "alice") (text "INBOX" ++ (text "/" ++ text "old")) (text "x"))
      (listen
        (in_memory_backend decimal decimal)
        Loop.running
        (some next_uid)
        0
        (Event.mailbox_deleted (text "alice") (text "INBOX"))
        listening)
    ≡ listen
        (in_memory_backend decimal decimal)
        Loop.running
        (some next_uid)
        0
        (Event.mailbox_deleted (text "alice") (text "INBOX"))
        listening
listen_inner_example =
    listen_inner decimal decimal (some next_uid) 0 (text "alice") (text "INBOX") (text "old")
      (text "x") listening

listen_created_deleted_example :
    ((j : MessageId)
      → get
          (listen
            (in_memory_backend decimal decimal)
            Loop.running
            (some next_uid)
            0
            (Event.message_deleted (text "alice") (text "INBOX") (text "x"))
            (listen
              (in_memory_backend decimal decimal)
              Loop.running
              (some next_uid)
              3
              (Event.message_created
                (text "alice")
                (text "INBOX")
                (text "x")
                (unique_id_key (text "alice") (text "INBOX") (text "x"))
                []
                true
                (text "dan")
                (text "bob")
                (text "hello")
                (text "text")
                5
                0)
              listening)).index
          j
        ≡ get messages j)
    × (((key : Text)
          → get
              (listen
                (in_memory_backend decimal decimal)
                Loop.running
                (some next_uid)
                0
                (Event.message_deleted (text "alice") (text "INBOX") (text "x"))
                (listen
                  (in_memory_backend decimal decimal)
                  Loop.running
                  (some next_uid)
                  3
                  (Event.message_created
                    (text "alice")
                    (text "INBOX")
                    (text "x")
                    (unique_id_key (text "alice") (text "INBOX") (text "x"))
                    []
                    true
                    (text "dan")
                    (text "bob")
                    (text "hello")
                    (text "text")
                    5
                    0)
                  listening)).unique_id_mapping
              key
            ≡ (if unique_id_key (text "alice") (text "INBOX") (text "x") == key
                then none
                else get listening.unique_id_mapping key))
        × ((listen
              (in_memory_backend decimal decimal)
              Loop.running
              (some next_uid)
              0
              (Event.message_deleted (text "alice") (text "INBOX") (text "x"))
              (listen
                (in_memory_backend decimal decimal)
                Loop.running
                (some next_uid)
                3
                (Event.message_created
                  (text "alice")
                  (text "INBOX")
                  (text "x")
                  (unique_id_key (text "alice") (text "INBOX") (text "x"))
                  []
                  true
                  (text "dan")
                  (text "bob")
                  (text "hello")
                  (text "text")
                  5
                  0)
                listening)).mailboxes
            ≡ 8))
unfolding get
listen_created_deleted_example =
    listen_created_deleted decimal decimal next_uid 3 0 (text "alice") (text "INBOX") (text "x") []
      true (text "dan") (text "bob") (text "hello") (text "text") 5 0 listening 7 refl refl
