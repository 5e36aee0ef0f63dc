-- ===== src/Mailstore/Maildir.antt =====
-- mailstore/watcher/maildir.rs: file names `<unique-id>:2,<flags>` below `new` and `cur`.
pub mod Flags
pub mod RoundTrip
use scuttled.Prelude.{
  ℕ, Bool, true, false, ◌||◌, Option, none, some, List, [], ◌∷◌, ◌++◌, if◌then◌else◌, leb, nat_eq,
  ◌==◌, list_key, nat_key, list_beq,
}
use scuttled.Text.{Text, text, starts_with, split_at_text}
use scuttled.Types.{MessageFlag}
use scuttled.Mailstore.{FilePath, ParsedMessage, MailboxFormat, strip_prefix, file_name, parent}

-- The arms of the `match` on a flag character; other characters are skipped.
unfoldable pub flag_of_char : ℕ → Option MessageFlag
flag_of_char ch =
    if nat_eq ch b'D'
    then some MessageFlag.draft
    else if nat_eq ch b'F'
    then some MessageFlag.flagged
    else if nat_eq ch b'R'
    then some MessageFlag.answered
    else if nat_eq ch b'S'
    then some MessageFlag.seen
    else if nat_eq ch b'T'
    then some MessageFlag.deleted
    else none

abbrev push {ℓ} : {A : Type ℓ} → Option A → List A → List A
push none xs = xs
push (some x) xs = x ∷ xs

unfoldable pub parse_flags : Text → List MessageFlag
unfolding flag_of_char
parse_flags [] = []
parse_flags (ch ∷ s) = push (flag_of_char ch) (parse_flags s)

-- What stands behind the unique identifier: `find(':')`, `split_at` and the test for `:2,`.
unfoldable pub parse_info : Text → List MessageFlag
unfolding starts_with parse_flags
parse_info (colon ∷ two ∷ comma ∷ chars) =
    if starts_with (colon ∷ two ∷ comma ∷ chars) (text ":2,") then parse_flags chars else []
parse_info _ = []

unfoldable pub parse_filename : Text → Text × List MessageFlag
unfolding split_at_text parse_info
parse_filename filename = elim (split_at_text filename (text ":")) [
  | none ↦ (filename, [])
  | some (id, rest) ↦ (id, parse_info rest)
]

-- `match subdir`: a message is new below `new`, and only `new` and `cur` hold messages.
unfoldable pub is_new_of : Text → Option Bool
unfolding list_beq
is_new_of subdir =
    if subdir == text "new" then some true else if subdir == text "cur" then some false else none

parsed : Text → Text → Option Bool → Option Text → Option ParsedMessage
unfolding parse_filename
parsed username mailbox (some is_new) (some filename) =
    let (unique_id, flags) = parse_filename filename in
    some (record {
      unique_id = unique_id;
      flags = flags;
      is_new = is_new;
      username = username;
      mailbox = mailbox;
    })
parsed username mailbox _ _ = none

-- The components below the root: at least username/mailbox/subdir/filename.
parse_components : Option FilePath → Option Text → Option ParsedMessage
unfolding is_new_of parsed
parse_components (some (username ∷ mailbox ∷ subdir ∷ name ∷ rest)) filename =
    parsed username mailbox (is_new_of subdir) filename
parse_components _ filename = none

unfoldable pub parse_message_path : FilePath → FilePath → Option ParsedMessage
unfolding strip_prefix file_name parse_components
parse_message_path path root = parse_components (strip_prefix path root) (file_name path)

unfoldable pub char_of_flag : MessageFlag → Option ℕ
char_of_flag MessageFlag.draft = some b'D'
char_of_flag MessageFlag.flagged = some b'F'
char_of_flag MessageFlag.answered = some b'R'
char_of_flag MessageFlag.seen = some b'S'
char_of_flag MessageFlag.deleted = some b'T'
char_of_flag MessageFlag.recent = none
char_of_flag (MessageFlag.custom s) = none

unfoldable pub flag_chars : List MessageFlag → Text
unfolding char_of_flag
flag_chars [] = []
flag_chars (f ∷ fs) = push (char_of_flag f) (flag_chars fs)

-- `sort_unstable` on characters: equal characters cannot be told apart, so any sort will do.
insert_sorted : ℕ → Text → Text
insert_sorted c [] = c ∷ []
insert_sorted c (d ∷ s) = let rest = insert_sorted c s in if leb c d then c ∷ d ∷ s else d ∷ rest

unfoldable pub sort : Text → Text
unfolding insert_sorted
sort [] = []
sort (c ∷ s) = insert_sorted c (sort s)

abbrev pub component_of : Text → Text
component_of [] = []
component_of (c ∷ s) = text ":2," ++ c ∷ s

unfoldable pub flags_to_filename_component : List MessageFlag → Text
unfolding flag_chars sort
flags_to_filename_component flags = component_of (sort (flag_chars flags))

in_new_or_cur : Option Text → Bool
unfolding list_beq
in_new_or_cur none = false
in_new_or_cur (some name) = name == text "new" || name == text "cur"

file_name_of : Option FilePath → Option Text
unfolding file_name
file_name_of none = none
file_name_of (some p) = file_name p

unfoldable pub is_valid_message_file : Bool → FilePath → Bool
unfolding in_new_or_cur file_name_of parent
is_valid_message_file false path = false
is_valid_message_file true path = in_new_or_cur (file_name_of (parent path))

-- `impl MailboxFormat for MaildirFormat`
abbrev pub maildir_format : MailboxFormat
maildir_format = record {
  parse_message_path = parse_message_path;
  watch_subdirectories = text "new" ∷ text "cur" ∷ [];
  flags_to_filename_component = flags_to_filename_component;
  is_valid_message_file = is_valid_message_file;
}
