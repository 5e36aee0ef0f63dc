-- ===== src/Mailstore/Watcher/Scan.antt =====
-- mailstore/watcher/filesystem.rs: scan_existing_messages, which publishes the messages of a mailbox that the
-- watcher begins to watch.
use scuttled.Prelude.{
  ℕ, Bool, true, false, Option, none, some, List, [], ◌∷◌, if◌then◌else◌, length,
}
use scuttled.Text.{Text}
use scuttled.Types.{DateTime}
use scuttled.Error.{Result, ok, err}
use scuttled.Mailstore.{FilePath, ParsedMessage, MailboxFormat}
use scuttled.Files.{Action, pure, ◌>>=◌, ◌>>◌, fail, Bytes, FileSystem, or_false, join}
use scuttled.Mailstore.Watcher.{ParsedMail, Watching, message_created, publish}

module _ {S N : Type 0} (fs : FileSystem S) (format : MailboxFormat) (root : FilePath)
    (parse_mail : Bytes → Option ParsedMail) (now : ℕ → DateTime) (username mailbox : Text) where
  -- A look at the files, whose error ends the scan.
  abbrev pub look : {A : Type 0} → (S → Result A) → Action (Watching S N) A
  look f w = (f w.files, w)

  abbrev pub publish_mail :
      ParsedMessage → Bytes → Option ParsedMail → Action (Watching S N) (Unit {0})
  publish_mail parsed content none w = (ok tt, w)
  publish_mail parsed content (some email) w = (
    ok tt,
    publish (message_created username mailbox parsed content email (now (length w.published))) w,
  )

  abbrev pub scan_parsed : FilePath → Option ParsedMessage → Action (Watching S N) (Unit {0})
  scan_parsed path none = pure tt
  scan_parsed path (some parsed) = do
    content ← look (λ s. fs.read s path)
    publish_mail parsed content (parse_mail content)

  -- What is no regular file is skipped.
  abbrev pub scan_file : FilePath → (is_file : Bool) → Action (Watching S N) (Unit {0})
  scan_file path false = pure tt
  scan_file path true = scan_parsed path (format.parse_message_path path root)

  unfoldable pub scan_entries : List (Result FilePath) → Action (Watching S N) (Unit {0})
  unfolding message_created
  scan_entries [] = pure tt
  scan_entries (err e ∷ entries) = fail e
  scan_entries (ok path ∷ entries) = do
    is_file ← look (λ s. fs.is_file s path)
    scan_file path is_file
    scan_entries entries

  -- One turn of the loop over the subdirectories; one that is not there is skipped.
  unfoldable pub scan_directory : FilePath → Action (Watching S N) (Unit {0})
  unfolding scan_entries
  scan_directory directory w =
      if or_false (fs.try_exists w.files directory)
      then (do entries ← look (λ s. fs.read_dir s directory); scan_entries entries) w
      else (ok tt, w)

  abbrev pub scan_directories : List Text → Action (Watching S N) (Unit {0})
  scan_directories [] = pure tt
  scan_directories (subdir ∷ subdirs) = do
    scan_directory (join (join (join root username) mailbox) subdir)
    scan_directories subdirs

  unfoldable pub scan_existing_messages : Action (Watching S N) (Unit {0})
  unfolding scan_directory join
  scan_existing_messages = scan_directories format.watch_subdirectories
