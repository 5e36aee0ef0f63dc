-- ===== src/Mailstore/Watcher/Commands.antt =====
-- mailstore/watcher/filesystem.rs: the commands of the watcher loop, and the methods of `FilesystemWatcher`.
use scuttled.Prelude.{
  ℕ, Option, none, some, List, [], ◌∷◌, ◌++◌, if◌then◌else◌, get, insert, remove, list_key, nat_key,
  pair_key,
}
use scuttled.Text.{Text, text}
use scuttled.Types.{DateTime}
use scuttled.Error.{Error, Result, ok, err}
use scuttled.Mailstore.{FilePath, MailboxFormat}
use scuttled.Files.{Action, pure, ◌>>◌, Bytes, FileSystem, or_false, join}
use scuttled.Mailstore.Watcher.{ParsedMail, Notify, Watching}
use scuttled.Mailstore.Watcher.Scan.{scan_existing_messages}

pub data WatchCommand : Type 0 where
  watch : (username mailbox : Text) → WatchCommand
  unwatch : (username mailbox : Text) → WatchCommand
  shutdown : WatchCommand

-- What the loop sends back.
pub data Reply : Type 0 where
  done : Result (Unit {0}) → Reply
  closed : Reply

abbrev pub replied : {S : Type 0} → Result (Unit {0}) × S → Reply × S
replied (r, s) = (Reply.done r, s)

abbrev pub mailbox_path : (root : FilePath) → (username mailbox : Text) → FilePath
mailbox_path root username mailbox = join (join root username) mailbox

module _ {S N : Type 0} (notify : Notify N) where
  -- The answer of the notify crate, with what to say when it fails.
  abbrev pub answered : Text → Option Text × N → Action (Watching S N) (Unit {0})
  answered what (none, n) w = (ok tt, record w { notify = n })
  answered what (some m, n) w = (err (Error.internal (what ++ m)), record w { notify = n })

  unfoldable pub start_watching : FilePath → Action (Watching S N) (Unit {0})
  start_watching path w =
      answered (text "Failed to watch directory: ") (notify.watch path w.notify) w

  unfoldable pub stop_watching : FilePath → Action (Watching S N) (Unit {0})
  stop_watching path w =
      answered (text "Failed to unwatch directory: ") (notify.unwatch path w.notify) w

  abbrev pub forget_path : FilePath → Action (Watching S N) (Unit {0})
  forget_path path w = (ok tt, record w { path_to_mailbox = remove w.path_to_mailbox path })

  abbrev pub unwatch_found :
      (username mailbox : Text) → Option FilePath → Action (Watching S N) (Unit {0})
  unwatch_found username mailbox none w = (
    err (Error.not_found (text "Mailbox not being watched: " ++ username ++ text "/" ++ mailbox)),
    w,
  )
  unwatch_found username mailbox (some path) w =
      (do stop_watching path; forget_path path)
        (record w { watched_mailboxes = remove w.watched_mailboxes (username, mailbox) })

  unfoldable pub handle_unwatch : (username mailbox : Text) → Action (Watching S N) (Unit {0})
  unfolding get remove stop_watching
  handle_unwatch username mailbox w =
      unwatch_found username mailbox (get w.watched_mailboxes (username, mailbox)) w

  module _ (fs : FileSystem S) (format : MailboxFormat) (root : FilePath)
      (parse_mail : Bytes → Option ParsedMail) (now : ℕ → DateTime) where
    abbrev pub with_files : Result (Unit {0}) × S → Watching S N → Result (Unit {0}) × Watching S N
    with_files (r, s) w = (r, record w { files = s })

    -- `if !try_exists(…).unwrap_or(false) { create_dir_all(…).await?; }`
    unfoldable pub ensure_directory : FilePath → Action (Watching S N) (Unit {0})
    ensure_directory directory w =
        if or_false (fs.try_exists w.files directory)
        then (ok tt, w)
        else with_files (fs.create_dir_all directory w.files) w

    abbrev pub ensure_directories : FilePath → List Text → Action (Watching S N) (Unit {0})
    ensure_directories path [] = pure tt
    ensure_directories path (subdir ∷ subdirs) = do
      ensure_directory (join path subdir)
      ensure_directories path subdirs

    unfoldable pub register :
        (username mailbox : Text) → FilePath → Action (Watching S N) (Unit {0})
    unfolding insert
    register username mailbox path w = (
      ok tt,
      record w {
        watched_mailboxes = insert w.watched_mailboxes (username, mailbox) path;
        path_to_mailbox = insert w.path_to_mailbox path (username, mailbox);
      },
    )

    unfoldable pub handle_watch : (username mailbox : Text) → Action (Watching S N) (Unit {0})
    unfolding join ensure_directory start_watching register scan_existing_messages
    handle_watch username mailbox = do
      ensure_directories (mailbox_path root username mailbox) format.watch_subdirectories
      start_watching (mailbox_path root username mailbox)
      register username mailbox (mailbox_path root username mailbox)
      scan_existing_messages fs format root parse_mail now username mailbox

    -- One turn of the loop.
    unfoldable pub handle : WatchCommand → Watching S N → Reply × Watching S N
    unfolding handle_watch handle_unwatch
    handle (WatchCommand.watch username mailbox) w = replied (handle_watch username mailbox w)
    handle (WatchCommand.unwatch username mailbox) w = replied (handle_unwatch username mailbox w)
    handle WatchCommand.shutdown w = (Reply.closed, w)

    unfoldable pub watcher_loop : List WatchCommand → Watching S N → List Reply × Watching S N
    unfolding handle
    watcher_loop [] w = ([], w)
    watcher_loop (WatchCommand.shutdown ∷ cs) w = (Reply.closed ∷ [], w)
    watcher_loop (c ∷ cs) w =
        let (reply, v) = handle c w in
        let (replies, end) = watcher_loop cs v in (reply ∷ replies, end)
