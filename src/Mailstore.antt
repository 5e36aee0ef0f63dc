-- ===== src/Mailstore.antt =====
-- mailstore/format.rs: what a mailbox format offers, as an interface. A path is the list of its
-- components, with `/` as the first of an absolute one, as `Path::components` yields them; Text stands
-- for OsStr, so a component is always valid UTF-8.
pub mod Maildir
pub mod Filesystem
pub mod Watcher
use scuttled.Prelude.{
  Bool, true, false, ◌||◌, Option, none, some, List, [], ◌∷◌, if◌then◌else◌, ◌==◌, list_key,
  nat_key, list_beq,
}
use scuttled.Text.{Text, text}
use scuttled.Types.{MessageFlag}

abbrev pub FilePath : Type 0
FilePath = List Text

-- `Path::strip_prefix`
unfoldable pub strip_prefix : FilePath → FilePath → Option FilePath
unfolding list_beq
strip_prefix path [] = some path
strip_prefix [] (r ∷ root) = none
strip_prefix (c ∷ path) (r ∷ root) =
    let rest = strip_prefix path root in if c == r then rest else none

-- `Path::file_name`: nothing at the end of an empty path or of `/`, or behind `..`.
unfoldable pub file_name : FilePath → Option Text
unfolding list_beq
file_name [] = none
file_name (c ∷ []) = if c == text ".." || c == text "/" then none else some c
file_name (c ∷ d ∷ path) = file_name (d ∷ path)

-- `Path::parent`
unfoldable pub parent : FilePath → Option FilePath
unfolding list_beq
parent [] = none
parent (c ∷ []) = if c == text "/" then none else some []
parent (c ∷ d ∷ path) = elim (parent (d ∷ path)) [ none ↦ none | some p ↦ some (c ∷ p) ]

pub record ParsedMessage : Type 0 where
  pub unique_id : Text
  pub flags : List MessageFlag
  pub is_new : Bool
  pub username : Text
  pub mailbox : Text

-- The trait. `is_valid_message_file` takes what the file system says of the path, `is_file`.
pub record MailboxFormat : Type 0 where
  pub parse_message_path : (path root : FilePath) → Option ParsedMessage
  pub watch_subdirectories : List Text
  pub flags_to_filename_component : List MessageFlag → Text
  pub is_valid_message_file : (is_file : Bool) → FilePath → Bool
