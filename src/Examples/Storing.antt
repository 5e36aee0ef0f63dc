-- ===== src/Examples/Storing.antt =====
-- storage.rs over filesystem_store.rs at files in memory.
use scuttled.Prelude.{
  true, false, ◌&&◌, ◌≡◌, refl, some, List, [], ◌∷◌, ◌++◌, if◌then◌else◌, contains, get,
  contains_key, insert, remove, list_beq, list_key, nat_key,
}
use scuttled.Text.{text, starts_with, split_at_text}
use scuttled.Types.{MessageFlag}
use scuttled.Types.Flags.{flag_beq, flag_key}
use scuttled.Error.{ok, is_ok}
use scuttled.Channel.{Loop}
use scuttled.Mailstore.{FilePath, ParsedMessage, parent, file_name}
use scuttled.Mailstore.Maildir.{
  component_of, flags_to_filename_component, parse_message_path, maildir_format,
}
use scuttled.Mailstore.Maildir.Flags.{is_storable}
use scuttled.Files.{join, path_text, path_of, names, split_slash}
use scuttled.Files.Laws.{IsNormal, renamed}
use scuttled.Storage.{StorageCommand, Reply, run_storage_writer_loop, execute}
use scuttled.Storage.FilesystemStore.{filesystem_store, write, move_file}
use scuttled.Storage.Handle.{update_flags, move, new_path, new_parent, unique_id_of}
use scuttled.Storage.Flags.{message_path, flagged_path}
use scuttled.Storage.Names.{AreNames}
use scuttled.Storage.Updates.{update_flags_lem}
use scuttled.Examples.MemoryFiles.{Files, memory_files, memory_content, memory_files-IsLawful}

abbrev root : FilePath
root = text "var" ∷ text "mail" ∷ []

abbrev old_path : FilePath
old_path =
    message_path (text "alice") (text "INBOX") true (text "17.host" ++ component_of (text "F"))

abbrev files : Files
files = (root ++ old_path, text "Hi") ∷ []

abbrev commands : List StorageCommand
commands =
    StorageCommand.write (text "alice/a") (text "A")
    ∷ StorageCommand.move (text "alice/a") (text "alice/b")
    ∷ StorageCommand.remove (text "alice/none")
    ∷ StorageCommand.shutdown
    ∷ StorageCommand.remove (text "alice/b")
    ∷ []

replies :
    (run_storage_writer_loop (filesystem_store memory_files root) commands files).1
    ≡ (root ++ old_path, text "Hi") ∷ (root ++ (text "alice" ∷ text "b" ∷ []), text "A") ∷ []
unfolding run_storage_writer_loop execute write move_file scuttled.Storage.FilesystemStore.remove
    join parent path_of names split_slash starts_with text contains_key insert remove get list_beq
replies = refl

abbrev flags : List MessageFlag
flags = MessageFlag.seen ∷ MessageFlag.draft ∷ []

alice_AreNames : AreNames (text "alice") (text "INBOX") (text "17.host") (text "F")
unfolding text list_beq
alice_AreNames = record {
  user_names = ((assumption refl), refl, refl, refl);
  mailbox_names = ((assumption refl), refl, refl, refl);
  id_names = ((assumption refl), refl, refl, refl);
  id_unique = ((assumption refl), refl, refl);
  info_plain = (refl, tt);
}

flags_updated :
    update_flags
      (filesystem_store memory_files root)
      Loop.running
      maildir_format
      (path_text old_path)
      flags
      files
    ≡ (
      ok tt,
      (root ++ (text "alice" ∷ text "INBOX" ∷ text "cur" ∷ text "17.host:2,DS" ∷ []), text "Hi")
          ∷ [],
    )
unfolding update_flags move_file join parent path_text path_of names split_slash starts_with text
    contains_key insert remove get list_beq flag_beq move new_path new_parent unique_id_of file_name
    flags_to_filename_component split_at_text
flags_updated = refl

update_flags_example :
    ((q : FilePath)
      → IsNormal q
      → memory_content
          (update_flags
            (filesystem_store memory_files root)
            Loop.running
            maildir_format
            (path_text old_path)
            flags
            files).1
          q
        ≡ (if is_ok
              (update_flags
                (filesystem_store memory_files root)
                Loop.running
                maildir_format
                (path_text old_path)
                flags
                files).0
            then renamed
                (memory_content files)
                (root ++ old_path)
                (root ++ flagged_path (text "alice") (text "INBOX") (text "17.host") flags)
                q
            else memory_content files q))
    × ((m : ParsedMessage) × (parse_message_path
            (root ++ flagged_path (text "alice") (text "INBOX") (text "17.host") flags)
            root
          ≡ some m)
        × (m.unique_id ≡ text "17.host")
        × (m.username ≡ text "alice")
        × (m.mailbox ≡ text "INBOX")
        × (m.is_new ≡ false)
        × ((f : MessageFlag) → contains m.flags f ≡ (contains flags f && is_storable f)))
unfolding get list_beq text flag_beq
update_flags_example =
    update_flags_lem memory_files root (text "alice") (text "INBOX") true (text "17.host")
      (text "F") flags alice_AreNames memory_content memory_files-IsLawful files refl refl
