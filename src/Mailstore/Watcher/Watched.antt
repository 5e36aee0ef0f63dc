-- ===== src/Mailstore/Watcher/Watched.antt =====
-- mailstore/watcher/filesystem.rs: through every run of the watcher loop, a watched mailbox is found again by
-- its path.
use scuttled.Prelude.{
  All, ℕ, Bool, true, false, Option, none, some, List, [], ◌∷◌, list_key, nat_key, pair_key,
  Bool-cases, inl, inr,
}
use scuttled.Text.{Text}
use scuttled.Types.{DateTime}
use scuttled.Error.{Result, ok, err}
use scuttled.Mailstore.{FilePath, ParsedMessage, MailboxFormat}
use scuttled.Files.{◌>>◌, Bytes, FileSystem, or_false, join}
use scuttled.Files.Paths.{IsName}
use scuttled.Mailstore.Watcher.{ParsedMail, Notify, Watching}
use scuttled.Mailstore.Watcher.Scan.{
  scan_entries, scan_file, scan_parsed, publish_mail, scan_directory, scan_directories,
  scan_existing_messages,
}
use scuttled.Mailstore.Watcher.Commands.{
  WatchCommand, mailbox_path, start_watching, ensure_directory, ensure_directories, register,
  handle_watch, handle, watcher_loop,
}
use scuttled.Mailstore.Watcher.Registered.{
  IsRegistered, Keeps, continue-Keeps, bind-Keeps, handle_unwatch-Keeps, start_watching-Keeps,
  insert-IsRegistered,
}

module _ {S N : Type 0} (notify : Notify N) (fs : FileSystem S) (format : MailboxFormat)
    (root : FilePath) (parse_mail : Bytes → Option ParsedMail) (now : ℕ → DateTime) where
  ensure_directory-Keeps :
      (directory : FilePath)
      → Keeps {N = N} root (ensure_directory notify fs format root parse_mail now directory)
  unfolding ensure_directory
  ensure_directory-Keeps directory w h =
      elim (Bool-cases (or_false (fs.try_exists w.files directory))) [
        | inl there ↦ rw there h
        | inr gone ↦ rw gone h
      ]

  ensure_directories-Keeps :
      (path : FilePath) (subdirs : List Text)
      → Keeps {N = N} root (ensure_directories notify fs format root parse_mail now path subdirs)
  unfolding ensure_directory
  ensure_directories-Keeps path [] = λ w h. h
  ensure_directories-Keeps path (subdir ∷ subdirs) =
      bind-Keeps root (ensure_directory notify fs format root parse_mail now (join path subdir))
        (λ u. ensure_directories notify fs format root parse_mail now path subdirs)
        (ensure_directory-Keeps (join path subdir)) (λ u. ensure_directories-Keeps path subdirs)

  module _ (username mailbox : Text) where
    publish_mail-Keeps :
        (parsed : ParsedMessage) (content : Bytes) (email : Option ParsedMail)
        → Keeps {N = N} root
            (publish_mail fs format root parse_mail now username mailbox parsed content email)
    publish_mail-Keeps parsed content none w h = h
    publish_mail-Keeps parsed content (some email) w h = h

    scan_parsed-Keeps :
        (path : FilePath) (parsed : Option ParsedMessage)
        → Keeps {N = N} root
            (scan_parsed fs format root parse_mail now username mailbox path parsed)
    scan_parsed-Keeps path none w h = h
    scan_parsed-Keeps path (some parsed) w h =
        continue-Keeps root (fs.read w.files path, w) _ h
          (λ content. publish_mail-Keeps parsed content (parse_mail content))

    scan_file-Keeps :
        (path : FilePath) (is_file : Bool)
        → Keeps {N = N} root (scan_file fs format root parse_mail now username mailbox path is_file)
    scan_file-Keeps path false w h = h
    scan_file-Keeps path true w h = scan_parsed-Keeps path (format.parse_message_path path root) w h

    scan_entries-Keeps :
        (entries : List (Result FilePath))
        → Keeps {N = N} root (scan_entries fs format root parse_mail now username mailbox entries)
    unfolding scan_entries
    scan_entries-Keeps [] w h = h
    scan_entries-Keeps (err e ∷ entries) w h = h
    scan_entries-Keeps (ok path ∷ entries) w h =
        continue-Keeps root (fs.is_file w.files path, w) _ h
          (λ is_file.
            bind-Keeps root (scan_file fs format root parse_mail now username mailbox path is_file)
              (λ u. scan_entries fs format root parse_mail now username mailbox entries)
              (scan_file-Keeps path is_file) (λ u. scan_entries-Keeps entries))

    scan_directory-Keeps :
        (directory : FilePath)
        → Keeps {N = N} root
            (scan_directory fs format root parse_mail now username mailbox directory)
    unfolding scan_directory
    scan_directory-Keeps directory w h =
        elim (Bool-cases (or_false (fs.try_exists w.files directory))) [
          | inl there ↦ rw there (
              continue-Keeps root (fs.read_dir w.files directory, w)
                (scan_entries fs format root parse_mail now username mailbox) h scan_entries-Keeps)
          | inr gone ↦ rw gone h
        ]

    scan_directories-Keeps :
        (subdirs : List Text)
        → Keeps {N = N} root
            (scan_directories fs format root parse_mail now username mailbox subdirs)
    scan_directories-Keeps [] w h = h
    scan_directories-Keeps (subdir ∷ subdirs) w h =
        bind-Keeps root
          (scan_directory fs format root parse_mail now username mailbox
            (join (mailbox_path root username mailbox) subdir))
          (λ u. scan_directories fs format root parse_mail now username mailbox subdirs)
          (scan_directory-Keeps (join (mailbox_path root username mailbox) subdir))
          (λ u. scan_directories-Keeps subdirs) w h

    handle_watch-Keeps :
        IsName username
        → IsName mailbox
        → Keeps {N = N} root (handle_watch notify fs format root parse_mail now username mailbox)
    unfolding handle_watch register scan_existing_messages
    handle_watch-Keeps nu nm =
        let path = mailbox_path root username mailbox in
        let scan = scan_existing_messages fs format root parse_mail now username mailbox in
        let enter = register notify fs format root parse_mail now username mailbox path in
        bind-Keeps root
          (ensure_directories notify fs format root parse_mail now path format.watch_subdirectories)
          (λ u. start_watching notify path >> (enter >> scan))
          (ensure_directories-Keeps path format.watch_subdirectories)
          (λ u.
            bind-Keeps root (start_watching notify path) (λ v. enter >> scan)
              (start_watching-Keeps root notify path)
              (λ v.
                bind-Keeps root enter (λ x. scan)
                  (λ w h. insert-IsRegistered root username mailbox w nu nm h)
                  (λ x. scan_directories-Keeps format.watch_subdirectories)))

  -- The mailboxes of the commands have names, of which no separator and no `..` is a part.
  abbrev pub HasNames : WatchCommand → Type 0
  HasNames (WatchCommand.watch username mailbox) = IsName username × IsName mailbox
  HasNames _ = Unit

  handle_keeps :
      (c : WatchCommand) (w : Watching S N)
      → HasNames c
      → IsRegistered root w
      → IsRegistered root (handle notify fs format root parse_mail now c w).1
  unfolding handle
  handle_keeps (WatchCommand.watch username mailbox) w n h =
      handle_watch-Keeps username mailbox n.0 n.1 w h
  handle_keeps (WatchCommand.unwatch username mailbox) w n h =
      handle_unwatch-Keeps root notify username mailbox w h
  handle_keeps WatchCommand.shutdown w n h = h

  -- Whatever the file system and the notify crate answer, after any commands to the watcher loop about
  -- mailboxes with names, every mailbox that counts as watched is registered with its directory, and its
  -- directory leads back to it; where this holds at the beginning.
  pub watcher_loop-IsRegistered :
      (cs : List WatchCommand) (w : Watching S N)
      → All HasNames cs
      → IsRegistered root w
      → IsRegistered root (watcher_loop notify fs format root parse_mail now cs w).1
  unfolding watcher_loop
  watcher_loop-IsRegistered [] w n h = h
  watcher_loop-IsRegistered (WatchCommand.shutdown ∷ cs) w n h = h
  watcher_loop-IsRegistered (WatchCommand.watch username mailbox ∷ cs) w n h =
      watcher_loop-IsRegistered cs
        (handle notify fs format root parse_mail now (WatchCommand.watch username mailbox) w).1 n.1
        (handle_keeps (WatchCommand.watch username mailbox) w n.0 h)
  watcher_loop-IsRegistered (WatchCommand.unwatch username mailbox ∷ cs) w n h =
      watcher_loop-IsRegistered cs
        (handle notify fs format root parse_mail now (WatchCommand.unwatch username mailbox) w).1
        n.1 (handle_keeps (WatchCommand.unwatch username mailbox) w n.0 h)
