-- ===== src/Mailstore/Filesystem/Handle.antt =====
-- The methods of `FilesystemMailStore` in mailstore/impl/filesystem.rs: writes go through the channel, reads go
-- to the file system.
use scuttled.Prelude.{Bool, Option, none, if◌then◌else◌}
use scuttled.Text.{Text, text}
use scuttled.Error.{Error, Result, ok}
use scuttled.Channel.{Loop, request}
use scuttled.Mailstore.{FilePath}
use scuttled.Mailstore.Filesystem.{MailStore, store_file, delete_file}
use scuttled.Files.{Action, Bytes, FileSystem, or_false, join}
use scuttled.Storage.FilesystemStore.{found}

abbrev pub loop_stopped : Error
loop_stopped = Error.internal (text "Writer loop stopped")

abbrev pub reply_dropped : Error
reply_dropped = Error.internal (text "Writer loop dropped reply")

module _ {S : Type 0} (fs : FileSystem S) (root : FilePath) where
  unfoldable pub retrieve : S → Text → Result (Option Bytes)
  unfolding join
  retrieve s path =
      if or_false (fs.try_exists s (join root path))
      then found (fs.read s (join root path))
      else ok none

  unfoldable pub exists : S → Text → Result Bool
  unfolding join
  exists s path = ok (or_false (fs.try_exists s (join root path)))

  module _ (loop : Loop) where
    unfoldable pub store : Text → Bytes → Action S (Unit {0})
    unfolding store_file
    store path content = request loop loop_stopped reply_dropped (store_file fs root path content)

    unfoldable pub delete : Text → Action S (Unit {0})
    unfolding delete_file
    delete path = request loop loop_stopped reply_dropped (delete_file fs root path)

    -- `impl MailStore for FilesystemMailStore`
    abbrev pub filesystem_mail_store : MailStore S
    filesystem_mail_store = record {
      store = store;
      retrieve = retrieve;
      delete = delete;
      exists = exists;
    }

-- Neither the send nor the reply is looked at.
unfoldable pub shutdown : Loop → Result (Unit {0}) × Loop
shutdown loop = (ok tt, Loop.stopped)
