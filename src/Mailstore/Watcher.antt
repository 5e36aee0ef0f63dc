-- ===== src/Mailstore/Watcher.antt =====
-- mailstore/watcher/filesystem.rs: the state of the watcher, and the events that it makes of message files.
-- The mailparse crate (`parse_mail`), the notify crate and the clock are arguments.
pub mod Changes
pub mod Scan
pub mod Commands
pub mod Handle
pub mod Lookups
pub mod Registered
pub mod Watched
pub mod Indexing
use scuttled.Prelude.{
  ℕ, Bool, true, false, Option, none, some, List, [], ◌∷◌, ◌++◌, if◌then◌else◌, length, take,
  HashMap,
}
use scuttled.Text.{Text, text, eq_ignore_ascii_case}
use scuttled.Types.{MessageFlag, DateTime}
use scuttled.Mailstore.{FilePath, ParsedMessage}
use scuttled.Events.{Event}
use scuttled.Files.{Bytes}
use scuttled.Index.Indexer.Listener.{unique_id_key}

-- What the program takes of a mail that mailparse has read: the headers with their values, and the
-- body where `get_body` succeeds.
pub record ParsedMail : Type 0 where
  pub headers : List (Text × Text)
  pub body : Option Text

-- The watcher of the notify crate: `watch` and `unwatch` say what went wrong, if anything did.
pub record Notify (N : Type 0) : Type 0 where
  pub watch : FilePath → N → Option Text × N
  pub unwatch : FilePath → N → Option Text × N

-- WatcherState, with the files, the watcher and the events published so far.
pub record Watching (S N : Type 0) : Type 0 where
  pub watched_mailboxes : HashMap (Text × Text) FilePath
  pub path_to_mailbox : HashMap FilePath (Text × Text)
  pub files : S
  pub notify : N
  pub published : List Event

-- `headers.iter().find(…).map(get_value).unwrap_or_default()`
unfoldable pub header : Text → List (Text × Text) → Text
unfolding eq_ignore_ascii_case
header name [] = []
header name ((key, value) ∷ headers) =
    let later = header name headers in if eq_ignore_ascii_case key name then value else later

abbrev pub body_of : Option Text → Text
body_of none = []
body_of (some body) = body

-- The flags of the file name, and Recent for a file below `new`.
abbrev pub flags_of : ParsedMessage → List MessageFlag
flags_of parsed = if parsed.is_new then parsed.flags ++ MessageFlag.recent ∷ [] else parsed.flags

unfoldable pub message_created :
    (username mailbox : Text) → ParsedMessage → Bytes → ParsedMail → DateTime → Event
unfolding header
message_created username mailbox parsed content email now =
    Event.message_created username mailbox parsed.unique_id
      (username ++ text "/" ++ mailbox ++ text "/" ++ parsed.unique_id) (flags_of parsed)
      parsed.is_new (header (text "from") email.headers) (header (text "to") email.headers)
      (header (text "subject") email.headers) (take 200 (body_of email.body)) (length content) now

module _ {S N : Type 0} where
  -- `event_bus.publish(…)`, whose result is ignored.
  abbrev pub publish : Event → Watching S N → Watching S N
  publish event w = record w { published = w.published ++ event ∷ [] }
