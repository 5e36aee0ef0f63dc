-- ===== src/Storage/Handle.antt =====
-- The methods of `Storage` in storage.rs: writes go through the channel, reads go to the store.
use scuttled.Prelude.{
  Bool, true, false, Option, none, some, List, [], ◌∷◌, ◌++◌, if◌then◌else◌, ◌==◌, list_key,
  nat_key, list_beq, contains,
}
use scuttled.Text.{Text, text, split_at_text}
use scuttled.Types.{MessageFlag}
use scuttled.Types.Flags.{flag_key}
use scuttled.Error.{Error, Result, ok}
use scuttled.Channel.{Loop, request}
use scuttled.Mailstore.{FilePath, MailboxFormat, file_name, parent}
use scuttled.Files.{Action, fail, Bytes, path_of, path_text}
use scuttled.Storage.{StoreMail}

abbrev pub loop_stopped : Error
loop_stopped = Error.internal (text "Storage writer loop stopped")

abbrev pub reply_dropped : Error
reply_dropped = Error.internal (text "Storage writer loop dropped reply")

-- The file name up to `:2,`.
abbrev pub before : Text → Option (Text × Text) → Text
before filename none = filename
before filename (some (id, rest)) = id

unfoldable pub unique_id_of : Text → Text
unfolding split_at_text
unique_id_of filename = before filename (split_at_text filename (text ":2,"))

-- `parent.parent().unwrap_or(parent)`
abbrev pub or_itself : FilePath → Option FilePath → FilePath
or_itself path none = path
or_itself path (some p) = p

-- `parent.file_name().unwrap_or("")`
abbrev pub or_empty : Option Text → Text
or_empty none = []
or_empty (some name) = name

-- Messages with the Seen flag go from `new` to `cur`, the others from `cur` to `new`.
unfoldable pub new_parent : FilePath → (seen : Bool) → FilePath
unfolding list_beq parent file_name
new_parent directory true =
    if or_empty (file_name directory) == text "new"
    then or_itself directory (parent directory) ++ text "cur" ∷ []
    else directory
new_parent directory false =
    if or_empty (file_name directory) == text "cur"
    then or_itself directory (parent directory) ++ text "new" ∷ []
    else directory

-- `path_obj.parent().unwrap_or(Path::new(""))`
abbrev pub or_empty_path : Option FilePath → FilePath
or_empty_path none = []
or_empty_path (some p) = p

module _ (format : MailboxFormat) where
  -- The path of the message once it has these flags.
  unfoldable pub new_path : FilePath → (filename : Text) → List MessageFlag → FilePath
  unfolding parent new_parent unique_id_of
  new_path path filename flags =
      new_parent (or_empty_path (parent path)) (contains flags MessageFlag.seen)
      ++ (unique_id_of filename ++ format.flags_to_filename_component flags) ∷ []

module _ {S : Type 0} (store : StoreMail S) (loop : Loop) where
  unfoldable pub store_message : (path : Text) → (content : Bytes) → Action S (Unit {0})
  store_message path content = request loop loop_stopped reply_dropped (store.write path content)

  unfoldable pub delete : (path : Text) → Action S (Unit {0})
  delete path = request loop loop_stopped reply_dropped (store.remove path)

  unfoldable pub move : (from to : Text) → Action S (Unit {0})
  move from to = request loop loop_stopped reply_dropped (store.move_file from to)

  -- The rest of update_flags once the file has a name.
  abbrev pub rename_flags :
      MailboxFormat → (current_path : Text) → List MessageFlag → Option Text → Action S (Unit {0})
  rename_flags format current_path flags none =
      fail (Error.internal (text "Invalid path: " ++ current_path))
  rename_flags format current_path flags (some filename) =
      move current_path (path_text (new_path format (path_of current_path) filename flags))

  unfoldable pub update_flags :
      MailboxFormat → (current_path : Text) → List MessageFlag → Action S (Unit {0})
  unfolding file_name path_of move new_path path_text
  update_flags format current_path flags =
      rename_flags format current_path flags (file_name (path_of current_path))

module _ {S : Type 0} (store : StoreMail S) where
  unfoldable pub retrieve : S → (path : Text) → Result (Option Bytes)
  retrieve s path = store.read s path

  unfoldable pub exists : S → (path : Text) → Result Bool
  exists s path = store.exists s path

-- Neither the send nor the reply is looked at.
unfoldable pub shutdown : Loop → Result (Unit {0}) × Loop
shutdown loop = (ok tt, Loop.stopped)
