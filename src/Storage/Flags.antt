-- ===== src/Storage/Flags.antt =====
-- The new path of a Maildir message whose flags storage.rs updates.
use scuttled.Prelude.{
  Bool, true, false, not, ◌≡◌, refl, none, some, List, [], ◌∷◌, ◌++◌, arith, ◌==◌, list_key,
  nat_key, nat_eq, list_beq, append-nil, contains,
}
use scuttled.Text.{Text, text, starts_with, split_at_text}
use scuttled.Text.Trim.{HasNone}
use scuttled.Types.{MessageFlag}
use scuttled.Types.Flags.{flag_key}
use scuttled.Mailstore.{FilePath, file_name, parent}
use scuttled.Mailstore.Maildir.{component_of, flags_to_filename_component, maildir_format}
use scuttled.Mailstore.Maildir.RoundTrip.{IsUniqueId, not_parent-append, not_root-append}
use scuttled.Files.Paths.{IsName}
use scuttled.Storage.Handle.{unique_id_of, new_parent, new_path}

abbrev pub directory_of : (is_new : Bool) → Text
directory_of true = text "new"
directory_of false = text "cur"

-- The path of a message below the root of the store.
abbrev pub message_path : (username mailbox : Text) → (is_new : Bool) → (filename : Text) → FilePath
message_path username mailbox is_new filename =
    username ∷ mailbox ∷ directory_of is_new ∷ filename ∷ []

-- The path of a message that has these flags: `cur` holds what has been seen, `new` the rest.
abbrev pub flagged_path : (username mailbox id : Text) → List MessageFlag → FilePath
flagged_path username mailbox id flags =
    message_path username mailbox (not (contains flags MessageFlag.seen))
      (id ++ flags_to_filename_component flags)

no_colon_no_mark : (id : Text) → HasNone (nat_eq b':') id → split_at_text id (text ":2,") ≡ none
unfolding split_at_text starts_with text
no_colon_no_mark [] h = refl
no_colon_no_mark (c ∷ id) h = ground (arith, no_colon_no_mark id h.1, h.0)

split_at_mark-append :
    (id s : Text)
    → HasNone (nat_eq b':') id
    → split_at_text (id ++ (text ":2," ++ s)) (text ":2,") ≡ some (id, text ":2," ++ s)
unfolding split_at_text starts_with text
split_at_mark-append [] s h = ground arith
split_at_mark-append (c ∷ id) s h = ground (arith, split_at_mark-append id s h.1, h.0)

unique_id_of-component_of :
    (id s : Text) → HasNone (nat_eq b':') id → unique_id_of (id ++ component_of s) ≡ id
unfolding unique_id_of
unique_id_of-component_of id [] h = rw (append-nil id, no_colon_no_mark id h) refl
unique_id_of-component_of id (c ∷ s) h = rw (split_at_mark-append id (c ∷ s) h) refl

pub file_name-message_path :
    (username mailbox : Text) (is_new : Bool) (id s : Text)
    → IsUniqueId id
    → file_name (message_path username mailbox is_new (id ++ component_of s))
      ≡ some (id ++ component_of s)
unfolding file_name
file_name-message_path username mailbox is_new id s h =
    rw (not_parent-append id s h, not_root-append id s h) refl

parent-message_path :
    (username mailbox : Text) (is_new : Bool) (id s : Text)
    → IsUniqueId id
    → parent (message_path username mailbox is_new (id ++ component_of s))
      ≡ some (username ∷ mailbox ∷ directory_of is_new ∷ [])
unfolding parent
parent-message_path username mailbox is_new id s h = rw (not_root-append id s h, parent) refl

new_parent_lem :
    (username mailbox : Text) (is_new seen : Bool)
    → new_parent (username ∷ mailbox ∷ directory_of is_new ∷ []) seen
      ≡ username ∷ mailbox ∷ directory_of (not seen) ∷ []
unfolding new_parent parent file_name text list_beq
new_parent_lem username mailbox true true = refl
new_parent_lem username mailbox true false = refl
new_parent_lem username mailbox false true = refl
new_parent_lem username mailbox false false = refl

-- The message goes to `cur` if it has been seen and to `new` if not.
pub new_path-message_path :
    (username mailbox : Text) (is_new : Bool) (id s : Text) (flags : List MessageFlag)
    → IsUniqueId id
    → new_path maildir_format
        (message_path username mailbox is_new (id ++ component_of s))
        (id ++ component_of s)
        flags
      ≡ flagged_path username mailbox id flags
unfolding new_path
new_path-message_path username mailbox is_new id s flags h =
    rw
      (
        parent-message_path username mailbox is_new id s h,
        unique_id_of-component_of id s h.0,
        new_parent_lem username mailbox is_new (contains flags MessageFlag.seen),
      )
      refl

no_slash-append :
    (id s : Text)
    → HasNone (nat_eq b'/') id
    → HasNone (nat_eq b'/') s
    → HasNone (nat_eq b'/') (id ++ s)
no_slash-append [] s h k = k
no_slash-append (c ∷ id) s h k = (h.0, no_slash-append id s h.1 k)

component_plain : (s : Text) → HasNone (nat_eq b'/') s → HasNone (nat_eq b'/') (component_of s)
unfolding text
component_plain [] h = tt
component_plain (c ∷ s) h = (refl, (refl, (refl, h)))

not_dot : (id s : Text) → IsName id → ((id ++ component_of s) == text ".") ≡ false
unfolding list_beq text
not_dot id [] h = rw (append-nil id) h.2
not_dot [] (d ∷ s) h = refl
not_dot (a ∷ []) (d ∷ s) h = ground arith
not_dot (a ∷ b ∷ id) (d ∷ s) h = ground arith

not_empty : (id s : Text) → IsName id → ((id ++ component_of s) == []) ≡ false
unfolding list_beq
not_empty [] s h = absurd (ground (arith, h.1))
not_empty (c ∷ id) s h = refl

pub IsName-filename :
    (id s : Text)
    → IsUniqueId id
    → IsName id
    → HasNone (nat_eq b'/') s
    → IsName (id ++ component_of s)
IsName-filename id s u h plain = (
  no_slash-append id (component_of s) h.0 (component_plain s plain),
  not_empty id s h,
  not_dot id s h,
  not_parent-append id s u,
)
