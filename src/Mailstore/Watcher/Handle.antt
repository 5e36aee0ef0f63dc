-- ===== src/Mailstore/Watcher/Handle.antt =====
-- The methods of `FilesystemWatcher` in mailstore/watcher/filesystem.rs.
use scuttled.Prelude.{ℕ, Option, if◌then◌else◌}
use scuttled.Text.{Text, text}
use scuttled.Types.{DateTime}
use scuttled.Error.{Error, Result, ok}
use scuttled.Channel.{Loop, request}
use scuttled.Mailstore.{FilePath, MailboxFormat}
use scuttled.Files.{Action, Bytes, FileSystem, or_false}
use scuttled.Mailstore.Watcher.{ParsedMail, Notify, Watching}
use scuttled.Mailstore.Watcher.Commands.{handle_watch, handle_unwatch}

abbrev pub loop_stopped : Error
loop_stopped = Error.internal (text "Watcher loop stopped")

abbrev pub reply_dropped : Error
reply_dropped = Error.internal (text "Watcher loop dropped reply")

-- The directory that `FilesystemWatcher::new` makes, if it is not there.
unfoldable pub make_root : {S : Type 0} → FileSystem S → FilePath → Action S (Unit {0})
make_root fs root s =
    if or_false (fs.try_exists s root) then (ok tt, s) else fs.create_dir_all root s

module _ {S N : Type 0} (notify : Notify N) (loop : Loop) where
  unfoldable pub watch_mailbox :
      FileSystem S
      → MailboxFormat
      → FilePath
      → (Bytes → Option ParsedMail)
      → (ℕ → DateTime)
      → (username mailbox : Text) → Action (Watching S N) (Unit {0})
  unfolding handle_watch
  watch_mailbox fs format root parse_mail now username mailbox =
      request loop loop_stopped reply_dropped
        (handle_watch notify fs format root parse_mail now username mailbox)

  unfoldable pub unwatch_mailbox : (username mailbox : Text) → Action (Watching S N) (Unit {0})
  unfolding handle_unwatch
  unwatch_mailbox username mailbox =
      request loop loop_stopped reply_dropped (handle_unwatch notify username mailbox)

-- Neither the send nor the reply is looked at.
unfoldable pub shutdown : Loop → Result (Unit {0}) × Loop
shutdown loop = (ok tt, Loop.stopped)
