-- ===== src/Examples/Watching.antt =====
-- mailstore/watcher/filesystem.rs at a mailbox with one message.
use scuttled.Prelude.{
  ℕ, ◌+◌, true, false, ◌≡◌, refl, Option, none, some, List, [], ◌∷◌, ◌++◌, get, list_beq, list_key,
  nat_key, pair_key, contains_key, arith,
}
use scuttled.Text.{text, decimal, starts_with}
use scuttled.Types.{MessageId, Uid, DateTime}
use scuttled.Channel.{Loop}
use scuttled.Mailstore.{FilePath, ParsedMessage, file_name, strip_prefix}
use scuttled.Mailstore.Maildir.{maildir_format, parse_message_path, parse_filename, is_new_of}
use scuttled.Events.{Event}
use scuttled.Files.{Bytes}
use scuttled.Index.Memory.{in_memory_backend}
use scuttled.Index.Indexer.Listener.{unique_id_key, listen}
use scuttled.Mailstore.Watcher.{ParsedMail, Notify, Watching}
use scuttled.Mailstore.Watcher.Changes.{handle_create_event, handle_remove_event}
use scuttled.Mailstore.Watcher.Commands.{WatchCommand, watcher_loop}
use scuttled.Mailstore.Watcher.Registered.{IsRegistered}
use scuttled.Mailstore.Watcher.Watched.{watcher_loop-IsRegistered}
use scuttled.Mailstore.Watcher.Indexing.{IsReadable, listen_file}
use scuttled.Examples.MemoryFiles.{Files, memory_files}
use scuttled.Examples.Searching.{messages}
use scuttled.Examples.Listening.{next_uid, listening}

abbrev root : FilePath
root = text "mail" ∷ []

abbrev path : FilePath
path = root ++ (text "alice" ∷ text "INBOX" ∷ text "new" ∷ text "17" ∷ [])

abbrev last : FilePath
last = root ++ (text "alice" ∷ text "INBOX" ∷ text "cur" ∷ text "17:2,S" ∷ [])

-- A reader of mails that takes all of them for a body.
abbrev parse_mail : Bytes → Option ParsedMail
parse_mail bytes = some (record { headers = []; body = some bytes })

-- A watcher that cannot give up a directory.
abbrev notify : Notify ℕ
notify = record { watch = λ p n. (none, n + 1); unwatch = λ p n. (some (text "busy"), n) }

abbrev now : ℕ → DateTime
now n = n

abbrev watching : Watching Files ℕ
watching = record {
  watched_mailboxes = [];
  path_to_mailbox = [];
  files = (path, text "Hi") ∷ [];
  notify = 0;
  published = [];
}

abbrev commands : List WatchCommand
commands =
    WatchCommand.watch (text "alice") (text "INBOX")
    ∷ WatchCommand.unwatch (text "alice") (text "INBOX")
    ∷ WatchCommand.watch (text "bob") (text "Work")
    ∷ []

watcher_loop-IsRegistered_example :
    IsRegistered root
      (watcher_loop notify memory_files maildir_format root parse_mail now commands watching).1
unfolding get text list_beq
watcher_loop-IsRegistered_example =
    watcher_loop-IsRegistered notify memory_files maildir_format root parse_mail now commands
      watching
      (
        (((assumption refl), refl, refl, refl), ((assumption refl), refl, refl, refl)),
        (tt, ((((assumption refl), refl, refl, refl), ((assumption refl), refl, refl, refl)), tt)),
      )
      (λ username mailbox p h. absurd (ground (arith, h)))

abbrev parsed_new : ParsedMessage
parsed_new = record {
  unique_id = text "17";
  flags = [];
  is_new = true;
  username = text "alice";
  mailbox = text "INBOX";
}

abbrev parsed_seen : ParsedMessage
parsed_seen = record {
  unique_id = text "17";
  flags = scuttled.Types.MessageFlag.seen ∷ [];
  is_new = false;
  username = text "alice";
  mailbox = text "INBOX";
}

file_IsReadable :
    IsReadable memory_files maildir_format root parse_mail now watching path parsed_new
      (text "Hi")
      (record { headers = []; body = some (text "Hi") })
unfolding parse_message_path is_new_of parse_filename strip_prefix file_name text list_beq get
    contains_key starts_with
file_IsReadable = record { is_message = refl; is_there = refl; is_read = refl; is_mail = refl }

last_is_message : parse_message_path last root ≡ some parsed_seen
unfolding parse_message_path is_new_of parse_filename strip_prefix file_name text list_beq get
    starts_with
last_is_message = refl

listen_file_example :
    (came : Event) × (gone : Event) × ((handle_create_event memory_files maildir_format root
        parse_mail now path watching).1.published
      ≡ came ∷ [])
    × ((handle_remove_event memory_files maildir_format root last watching).1.published ≡ gone ∷ [])
    × ((j : MessageId)
        → get
            (listen (in_memory_backend decimal decimal) Loop.running (some next_uid) 0 gone (
              listen
                (in_memory_backend decimal decimal)
                Loop.running
                (some next_uid)
                3
                came
                listening)).index
            j
          ≡ get messages j)
    × (get
          (listen (in_memory_backend decimal decimal) Loop.running (some next_uid) 0 gone (
            listen
              (in_memory_backend decimal decimal)
              Loop.running
              (some next_uid)
              3
              came
              listening)).unique_id_mapping
          (unique_id_key (text "alice") (text "INBOX") (text "17"))
        ≡ none)
unfolding get
listen_file_example =
    listen_file memory_files maildir_format root parse_mail now decimal decimal next_uid 3 0
      watching watching path last parsed_new parsed_seen (text "Hi")
      (record { headers = []; body = some (text "Hi") }) listening 7 file_IsReadable last_is_message
      (record { same_user = refl; same_mailbox = refl; same_id = refl }) refl refl
