-- ===== src/Mailstore/Maildir/RoundTrip.antt =====
-- mailstore/watcher/maildir.rs: a message file's path, written from an identifier and flags, reads
-- back as the message.
use scuttled.Prelude.{
  Bool, false, ◌&&◌, ◌≡◌, refl, ap, Option, none, some, List, [], ◌∷◌, ◌++◌, arith, contains,
  nat_key, nat_eq, ◌==◌, list_key, list_beq, beq_refl, append-nil,
}
use scuttled.Text.{Text, text, starts_with, split_at_text}
use scuttled.Text.Trim.{HasNone}
use scuttled.Types.{MessageFlag}
use scuttled.Types.Flags.{flag_key}
use scuttled.Mailstore.{FilePath, ParsedMessage, strip_prefix, file_name}
use scuttled.Mailstore.Maildir.{
  parse_components, parsed, parse_flags, parse_info, parse_filename, is_new_of, parse_message_path,
  flag_chars, sort, component_of, flags_to_filename_component,
}
use scuttled.Mailstore.Maildir.Flags.{is_storable, contains-parse_flags-sort}

-- An identifier that a message file is named by.
abbrev pub IsUniqueId : Text → Type 0
IsUniqueId id = HasNone (nat_eq b':') id × ((id == text "..") ≡ false) × ((id == text "/") ≡ false)

strip_prefix-append : (root path : FilePath) → strip_prefix (root ++ path) root ≡ some path
unfolding strip_prefix
strip_prefix-append [] path = refl
strip_prefix-append (c ∷ root) path = rw (beq_refl c, strip_prefix-append root path)

file_name-append :
    (root : FilePath) (u m d n : Text)
    → (n == text "..") ≡ false
    → (n == text "/") ≡ false
    → file_name (root ++ (u ∷ m ∷ d ∷ n ∷ [])) ≡ some n
unfolding file_name
file_name-append [] u m d n h k = rw (h, k)
file_name-append (c ∷ []) u m d n h k = rw (h, k)
file_name-append (c ∷ e ∷ root) u m d n h k = file_name-append (e ∷ root) u m d n h k

split_at_colon_none : (id : Text) → HasNone (nat_eq b':') id → split_at_text id (text ":") ≡ none
unfolding split_at_text starts_with text
split_at_colon_none [] h = refl
split_at_colon_none (c ∷ id) h = ground (arith, split_at_colon_none id h.1, h.0)

split_at_colon-append :
    (id s : Text)
    → HasNone (nat_eq b':') id
    → split_at_text (id ++ b':' ∷ s) (text ":") ≡ some (id, b':' ∷ s)
unfolding split_at_text starts_with text
split_at_colon-append [] s h = ground arith
split_at_colon-append (c ∷ id) s h = ground (arith, split_at_colon-append id s h.1, h.0)

-- The file name splits into the identifier and the flags that follow `:2,`.
parse_filename-component_of :
    (id s : Text)
    → HasNone (nat_eq b':') id
    → parse_filename (id ++ component_of s) ≡ (id, parse_flags s)
unfolding parse_filename parse_info starts_with text
parse_filename-component_of id [] h =
    rw (append-nil id, parse_filename, split_at_colon_none id h) (ap (λ t. (t, [])) (append-nil id))
parse_filename-component_of id (c ∷ s) h =
    rw (parse_filename, split_at_colon-append id (b'2' ∷ b',' ∷ c ∷ s) h)

pub not_parent-append :
    (id s : Text) → IsUniqueId id → ((id ++ component_of s) == text "..") ≡ false
unfolding list_beq text
not_parent-append id [] h = rw (append-nil id) h.1
not_parent-append [] (d ∷ s) h = refl
not_parent-append (a ∷ []) (d ∷ s) h = ground arith
not_parent-append (a ∷ b ∷ []) (d ∷ s) h = ground arith
not_parent-append (a ∷ b ∷ c ∷ id) (d ∷ s) h = ground arith

pub not_root-append : (id s : Text) → IsUniqueId id → ((id ++ component_of s) == text "/") ≡ false
unfolding list_beq text
not_root-append id [] h = rw (append-nil id) h.2
not_root-append [] (d ∷ s) h = refl
not_root-append (a ∷ []) (d ∷ s) h = ground arith
not_root-append (a ∷ b ∷ id) (d ∷ s) h = ground arith

-- A path below `new` or `cur` whose file name is a unique identifier followed by the component for
-- the flags is read as that identifier, user and mailbox, with exactly the flags that Maildir stores.
pub parse_message_path-flags_to_filename_component :
    (root : FilePath) (username mailbox subdir id : Text) (is_new : Bool) (fs : List MessageFlag)
    → is_new_of subdir ≡ some is_new
    → IsUniqueId id
    → (m : ParsedMessage) × (parse_message_path
          (root ++ (username ∷ mailbox ∷ subdir ∷ (id ++ flags_to_filename_component fs) ∷ []))
          root
        ≡ some m)
      × (m.unique_id ≡ id)
      × (m.username ≡ username)
      × (m.mailbox ≡ mailbox)
      × (m.is_new ≡ is_new)
      × ((f : MessageFlag) → contains m.flags f ≡ (contains fs f && is_storable f))
unfolding parse_message_path flags_to_filename_component parse_components parsed
parse_message_path-flags_to_filename_component root username mailbox subdir id is_new fs d h = (
  record {
    unique_id = id;
    flags = parse_flags (sort (flag_chars fs));
    is_new = is_new;
    username = username;
    mailbox = mailbox;
  },
  rw (
    strip_prefix-append root,
    file_name-append root username mailbox subdir (id ++ component_of (sort (flag_chars fs)))
        (not_parent-append id (sort (flag_chars fs)) h)
        (not_root-append id (sort (flag_chars fs)) h),
    d,
    parse_filename-component_of id (sort (flag_chars fs)) h.0,
  ),
  refl,
  refl,
  refl,
  refl,
  contains-parse_flags-sort fs,
)

parsed-none : (u m : Text) (name : Option Text) → parsed u m none name ≡ none
unfolding parsed
parsed-none u m none = refl
parsed-none u m (some n) = refl

-- Below any other directory of a mailbox, such as `tmp`, no path is read as a message.
parse_message_path_none :
    (root path : FilePath) (username mailbox subdir : Text)
    → is_new_of subdir ≡ none
    → parse_message_path (root ++ (username ∷ mailbox ∷ subdir ∷ path)) root ≡ none
unfolding parse_message_path parse_components
parse_message_path_none root [] username mailbox subdir d = rw (strip_prefix-append root)
parse_message_path_none root (n ∷ path) username mailbox subdir d =
    rw (strip_prefix-append root, d)
      (parsed-none username mailbox (file_name (root ++ (username ∷ mailbox ∷ subdir ∷ n ∷ path))))
