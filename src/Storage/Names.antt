-- ===== src/Storage/Names.antt =====
-- Paths of messages whose parts are names, as update_flags of storage.rs takes and makes them.
use scuttled.Prelude.{
  Bool, true, false, not, ◌&&◌, ◌≡◌, refl, List, [], ◌∷◌, ◌++◌, All, arith, list_key, nat_key,
  nat_eq, list_beq, contains,
}
use scuttled.Text.{Text, text}
use scuttled.Text.Trim.{HasNone}
use scuttled.Types.{MessageFlag}
use scuttled.Types.Flags.{flag_key}
use scuttled.Mailstore.{FilePath}
use scuttled.Mailstore.Maildir.{sort, flag_chars, component_of, flags_to_filename_component}
use scuttled.Mailstore.Maildir.Flags.{letters_plain}
use scuttled.Mailstore.Maildir.RoundTrip.{IsUniqueId}
use scuttled.Files.Laws.{is_normal, IsNormal}
use scuttled.Files.Paths.{IsName}
use scuttled.Storage.Flags.{message_path, flagged_path, directory_of, IsName-filename}

pub is_normal-append : (p q : FilePath) → is_normal (p ++ q) ≡ (is_normal p && is_normal q)
is_normal-append [] q = refl
is_normal-append (c ∷ p) q = ground (arith, is_normal-append p q)

pub IsName-IsNormal : (p : FilePath) → All IsName p → IsNormal p
IsName-IsNormal [] h = refl
IsName-IsNormal (w ∷ p) h = ground (arith, h.0.3, IsName-IsNormal p h.1)

IsName-directory_of : (is_new : Bool) → IsName (directory_of is_new)
unfolding text list_beq
IsName-directory_of true = ((refl, (refl, (refl, tt))), refl, refl, refl)
IsName-directory_of false = ((refl, (refl, (refl, tt))), refl, refl, refl)

-- A message's identifier and the names of its mailbox, which may stand in a path, and what its file name
-- says behind the identifier.
pub record AreNames (username mailbox id info : Text) : Type 0 where
  pub user_names : IsName username
  pub mailbox_names : IsName mailbox
  pub id_names : IsName id
  pub id_unique : IsUniqueId id
  pub info_plain : HasNone (nat_eq b'/') info

module _ {username mailbox id info : Text} (n : AreNames username mailbox id info) where
  pub names_before :
      (is_new : Bool) → All IsName (message_path username mailbox is_new (id ++ component_of info))
  names_before is_new = (
    n.user_names,
    (
      n.mailbox_names,
      (
        IsName-directory_of is_new,
        (IsName-filename id info n.id_unique n.id_names n.info_plain, tt),
      ),
    ),
  )

  pub names_behind :
      (flags : List MessageFlag) → All IsName (flagged_path username mailbox id flags)
  unfolding flags_to_filename_component
  names_behind flags = (
    n.user_names,
    (
      n.mailbox_names,
      (
        IsName-directory_of (not (contains flags MessageFlag.seen)),
        (
          IsName-filename id (sort (flag_chars flags)) n.id_unique n.id_names (letters_plain flags),
          tt,
        ),
      ),
    ),
  )
