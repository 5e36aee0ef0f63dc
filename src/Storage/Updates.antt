-- ===== src/Storage/Updates.antt =====
-- update_flags of storage.rs over filesystem_store.rs and the Maildir format: what becomes of the file, and
-- what its new path says.
use scuttled.Prelude.{
  Bool, true, false, not, ◌&&◌, ◌≡◌, refl, sym, ◌∙◌, ap, Option, some, List, [], ◌∷◌, ◌++◌, All,
  arith, if◌then◌else◌, list_key, nat_key, list_beq, subst, is_some, contains,
}
use scuttled.Text.{Text, text}
use scuttled.Types.{MessageFlag}
use scuttled.Types.Flags.{flag_key}
use scuttled.Error.{is_ok}
use scuttled.Channel.{Loop}
use scuttled.Mailstore.{FilePath, ParsedMessage, file_name}
use scuttled.Mailstore.Maildir.{
  component_of, flags_to_filename_component, parse_message_path, maildir_format, is_new_of,
}
use scuttled.Mailstore.Maildir.Flags.{is_storable}
use scuttled.Mailstore.Maildir.RoundTrip.{parse_message_path-flags_to_filename_component}
use scuttled.Files.{Bytes, FileSystem, path_text}
use scuttled.Files.Laws.{IsNormal, renamed, IsLawful}
use scuttled.Files.Paths.{IsName, path_of-path_text, join-path_text}
use scuttled.Storage.FilesystemStore.{filesystem_store, move_file}
use scuttled.Storage.Handle.{update_flags, rename_flags, move, new_path}
use scuttled.Storage.Replay.{move_file-effect, effect_of_move}
use scuttled.Storage.Flags.{
  message_path, flagged_path, directory_of, file_name-message_path, new_path-message_path,
}
use scuttled.Storage.Names.{AreNames, is_normal-append, IsName-IsNormal, names_before, names_behind}

is_new_of-directory_of : (is_new : Bool) → is_new_of (directory_of is_new) ≡ some is_new
unfolding is_new_of text list_beq
is_new_of-directory_of true = refl
is_new_of-directory_of false = refl

module _ {S : Type 0} (fs : FileSystem S) (root : FilePath) (username mailbox : Text)
    (is_new : Bool) (id info : Text) (flags : List MessageFlag)
    (n : AreNames username mailbox id info) where
  update_flags-path_text :
      update_flags
        (filesystem_store fs root)
        Loop.running
        maildir_format
        (path_text (message_path username mailbox is_new (id ++ component_of info)))
        flags
      ≡ move_file fs root
          (path_text (message_path username mailbox is_new (id ++ component_of info)))
          (path_text (flagged_path username mailbox id flags))
  unfolding update_flags move
  update_flags-path_text =
      let store = filesystem_store fs root in
      let name = id ++ component_of info in
      let old = message_path username mailbox is_new name in
      let e =
        path_of-path_text username (mailbox ∷ directory_of is_new ∷ name ∷ [])
          (names_before n is_new) in
      ap (λ p. rename_flags store Loop.running maildir_format (path_text old) flags (file_name p)) e
      ∙ ap (rename_flags store Loop.running maildir_format (path_text old) flags)
          (file_name-message_path username mailbox is_new id info n.id_unique)
      ∙ ap
          (λ p.
            move_file fs root (path_text old) (path_text (new_path maildir_format p name flags)))
          e
      ∙ ap (λ p. move_file fs root (path_text old) (path_text p))
          (new_path-message_path username mailbox is_new id info flags n.id_unique)

  module _ (content : S → FilePath → Option Bytes) (laws : IsLawful fs content) (s : S) where
    append-IsNormal : (p : FilePath) → IsNormal root → All IsName p → IsNormal (root ++ p)
    append-IsNormal p r h = rw (is_normal-append root p, r) (IsName-IsNormal p h)

    move_file-path_text :
        (q : FilePath)
        → IsNormal root
        → IsNormal q
        → is_some
            (content s (root ++ message_path username mailbox is_new (id ++ component_of info)))
          ≡ true
        → content
            (move_file fs root
              (path_text (message_path username mailbox is_new (id ++ component_of info)))
              (path_text (flagged_path username mailbox id flags))
              s).1
            q
          ≡ (if is_ok
                (move_file fs root
                  (path_text (message_path username mailbox is_new (id ++ component_of info)))
                  (path_text (flagged_path username mailbox id flags))
                  s).0
              then renamed
                  (content s)
                  (root ++ message_path username mailbox is_new (id ++ component_of info))
                  (root ++ flagged_path username mailbox id flags)
                  q
              else content s q)
    move_file-path_text q r nq there =
        let old = message_path username mailbox is_new (id ++ component_of info) in
        let new = flagged_path username mailbox id flags in
        let from =
          join-path_text root username
            (mailbox ∷ directory_of is_new ∷ (id ++ component_of info) ∷ [])
            (names_before n is_new) in
        let to =
          join-path_text root username
            (mailbox
              ∷ directory_of (not (contains flags MessageFlag.seen))
              ∷ (id ++ flags_to_filename_component flags)
              ∷ [])
            (names_behind n flags) in
        move_file-effect fs content root laws s (path_text old) (path_text new) q
          (
            rw from (append-IsNormal old r (names_before n is_new)),
            rw to (append-IsNormal new r (names_behind n flags)),
          )
          nq (rw from (ground (arith, there)))
        ∙ effect_of_move fs content root laws (content s) (path_text old) (path_text new) q _
        ∙ rw (from, to) refl

    -- With the writer loop running, over a lawful file system and the Maildir format: updating the flags of
    -- a message file under `new` or `cur` renames it, whatever info it had, and keeps what it holds; if the
    -- update fails, every file stays as it was. The new path is below `cur` exactly if the message is
    -- marked as seen, and it is read back as the same message with exactly those flags that Maildir stores.
    pub update_flags_lem :
        IsNormal root
        → is_some
            (content s (root ++ message_path username mailbox is_new (id ++ component_of info)))
          ≡ true
        → ((q : FilePath)
            → IsNormal q
            → content
                (update_flags
                  (filesystem_store fs root)
                  Loop.running
                  maildir_format
                  (path_text (message_path username mailbox is_new (id ++ component_of info)))
                  flags
                  s).1
                q
              ≡ (if is_ok
                    (update_flags
                      (filesystem_store fs root)
                      Loop.running
                      maildir_format
                      (path_text (message_path username mailbox is_new (id ++ component_of info)))
                      flags
                      s).0
                  then renamed
                      (content s)
                      (root ++ message_path username mailbox is_new (id ++ component_of info))
                      (root ++ flagged_path username mailbox id flags)
                      q
                  else content s q))
          × ((m : ParsedMessage) × (parse_message_path
                  (root ++ flagged_path username mailbox id flags)
                  root
                ≡ some m)
              × (m.unique_id ≡ id)
              × (m.username ≡ username)
              × (m.mailbox ≡ mailbox)
              × (m.is_new ≡ not (contains flags MessageFlag.seen))
              × ((f : MessageFlag) → contains m.flags f ≡ (contains flags f && is_storable f)))
    update_flags_lem normal there = (
      λ q nq.
          subst
            (λ op. content (op s).1 q ≡ (
              if is_ok (op s).0
              then renamed (content s)
                  (root ++ message_path username mailbox is_new (id ++ component_of info))
                  (root ++ flagged_path username mailbox id flags) q
              else content s q))
            (sym update_flags-path_text) (move_file-path_text q normal nq there),
      parse_message_path-flags_to_filename_component root username mailbox
          (directory_of (not (contains flags MessageFlag.seen))) id
          (not (contains flags MessageFlag.seen)) flags
          (is_new_of-directory_of (not (contains flags MessageFlag.seen))) n.id_unique,
    )
