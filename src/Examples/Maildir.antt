-- ===== src/Examples/Maildir.antt =====
-- mailstore/watcher/maildir.rs at a message file of alice's INBOX.
use scuttled.Prelude.{◌≡◌, refl, false, ◌&&◌, some, List, [], ◌∷◌, ◌++◌, list_beq, contains}
use scuttled.Text.{text}
use scuttled.Types.{MessageFlag}
use scuttled.Types.Flags.{flag_key}
use scuttled.Mailstore.{FilePath, ParsedMessage}
use scuttled.Mailstore.Maildir.{is_new_of, parse_message_path, flags_to_filename_component}
use scuttled.Mailstore.Maildir.Flags.{is_storable}
use scuttled.Mailstore.Maildir.RoundTrip.{parse_message_path-flags_to_filename_component}

abbrev root : FilePath
root = text "var" ∷ text "mail" ∷ []

abbrev flags : List MessageFlag
flags = MessageFlag.seen ∷ MessageFlag.recent ∷ MessageFlag.draft ∷ []

component : flags_to_filename_component flags ≡ text ":2,DS"
unfolding flags_to_filename_component text
component = refl

abbrev message_path : FilePath
message_path =
    root
    ++ (text "alice"
        ∷ text "INBOX"
        ∷ text "cur"
        ∷ (text "17.host" ++ flags_to_filename_component flags)
        ∷ [])

parse_message_path_example :
    (m : ParsedMessage) × (parse_message_path message_path root ≡ some m)
    × (m.unique_id ≡ text "17.host")
    × (m.username ≡ text "alice")
    × (m.mailbox ≡ text "INBOX")
    × (m.is_new ≡ false)
    × ((f : MessageFlag) → contains m.flags f ≡ (contains flags f && is_storable f))
unfolding is_new_of text list_beq
parse_message_path_example =
    parse_message_path-flags_to_filename_component root (text "alice") (text "INBOX") (text "cur")
      (text "17.host") false flags refl ((assumption refl), refl, refl)
