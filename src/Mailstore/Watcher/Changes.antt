-- ===== src/Mailstore/Watcher/Changes.antt =====
-- mailstore/watcher/filesystem.rs: what the watcher makes of the changes that the notify crate reports.
use scuttled.Prelude.{ℕ, Option, none, some, List, [], ◌∷◌, if◌then◌else◌, length}
use scuttled.Types.{DateTime}
use scuttled.Error.{Result, ok, err}
use scuttled.Mailstore.{FilePath, ParsedMessage, MailboxFormat}
use scuttled.Events.{Event}
use scuttled.Files.{Bytes, FileSystem, or_false}
use scuttled.Mailstore.Watcher.{ParsedMail, Watching, flags_of, message_created, publish}

pub data ChangeKind : Type 0 where
  create modify remove other : ChangeKind

-- `notify::Event`
pub record Change : Type 0 where
  pub kind : ChangeKind
  pub paths : List FilePath

module _ {S N : Type 0} (fs : FileSystem S) (format : MailboxFormat) (root : FilePath) where
  module _ (parse_mail : Bytes → Option ParsedMail) (now : ℕ → DateTime) where
    -- `if let Ok(email) = mailparse::parse_mail(&content)`
    unfoldable pub announce :
        ParsedMessage → Bytes → Option ParsedMail → Watching S N → Watching S N
    unfolding message_created
    announce parsed content none w = w
    announce parsed content (some email) w =
        publish
          (message_created parsed.username parsed.mailbox parsed content email
            (now (length w.published)))
          w

    -- A file that cannot be read is skipped.
    unfoldable pub read_new : ParsedMessage → Result Bytes → Watching S N → Watching S N
    unfolding announce
    read_new parsed (err e) w = w
    read_new parsed (ok content) w = announce parsed content (parse_mail content) w

    unfoldable pub created : FilePath → Option ParsedMessage → Watching S N → Watching S N
    unfolding read_new
    created path none w = w
    created path (some parsed) w =
        if or_false (fs.try_exists w.files path)
        then read_new parsed (fs.read w.files path) w
        else w

    unfoldable pub handle_create_event : FilePath → Watching S N → Result (Unit {0}) × Watching S N
    unfolding created
    handle_create_event path w = (ok tt, created path (format.parse_message_path path root) w)

  abbrev pub modified : Option ParsedMessage → Watching S N → Watching S N
  modified none w = w
  modified (some parsed) w =
      publish
        (Event.message_modified parsed.username parsed.mailbox parsed.unique_id (flags_of parsed)) w

  unfoldable pub handle_modify_event : FilePath → Watching S N → Result (Unit {0}) × Watching S N
  handle_modify_event path w = (ok tt, modified (format.parse_message_path path root) w)

  abbrev pub removed : Option ParsedMessage → Watching S N → Watching S N
  removed none w = w
  removed (some parsed) w =
      publish (Event.message_deleted parsed.username parsed.mailbox parsed.unique_id) w

  unfoldable pub handle_remove_event : FilePath → Watching S N → Result (Unit {0}) × Watching S N
  handle_remove_event path w = (ok tt, removed (format.parse_message_path path root) w)

  -- `for path in event.paths { handle(…).await?; }`
  abbrev pub proceed :
      Result (Unit {0}) × Watching S N
      → (Watching S N → Result (Unit {0}) × Watching S N)
      → Result (Unit {0}) × Watching S N
  proceed (ok u, w) next = next w
  proceed (err e, w) next = (err e, w)

  abbrev pub for_each :
      (FilePath → Watching S N → Result (Unit {0}) × Watching S N)
      → List FilePath
      → Watching S N
      → Result (Unit {0}) × Watching S N
  for_each handle [] w = (ok tt, w)
  for_each handle (path ∷ paths) w = proceed (handle path w) (for_each handle paths)

  module _ (parse_mail : Bytes → Option ParsedMail) (now : ℕ → DateTime) where
    -- The `match` on the kind of the change.
    unfoldable pub handle_kind :
        ChangeKind → List FilePath → Watching S N → Result (Unit {0}) × Watching S N
    unfolding handle_create_event handle_modify_event handle_remove_event
    handle_kind ChangeKind.create paths w = for_each (handle_create_event parse_mail now) paths w
    handle_kind ChangeKind.modify paths w = for_each handle_modify_event paths w
    handle_kind ChangeKind.remove paths w = for_each handle_remove_event paths w
    handle_kind ChangeKind.other paths w = (ok tt, w)

    unfoldable pub handle_filesystem_event :
        Change → Watching S N → Result (Unit {0}) × Watching S N
    unfolding handle_kind
    handle_filesystem_event change w = handle_kind change.kind change.paths w

    -- Errors are only logged.
    unfoldable pub event_processor : List (Result Change) → Watching S N → Watching S N
    unfolding handle_filesystem_event
    event_processor [] w = w
    event_processor (ok change ∷ changes) w =
        event_processor changes (handle_filesystem_event change w).1
    event_processor (err e ∷ changes) w = event_processor changes w
