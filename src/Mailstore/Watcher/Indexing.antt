-- ===== src/Mailstore/Watcher/Indexing.antt =====
-- The watcher of mailstore/watcher/filesystem.rs and the listener of index/indexer.rs together: a message file
-- that comes and goes.
use scuttled.Prelude.{
  ℕ, true, ◌≡◌, refl, ◌∙◌, Option, none, some, [], ◌∷◌, ◌++◌, get, length, take, list_key, nat_key,
  beq_refl,
}
use scuttled.Text.{Text, text}
use scuttled.Types.{MessageId, Uid, DateTime}
use scuttled.Error.{Result, ok}
use scuttled.Channel.{Loop}
use scuttled.Mailstore.{FilePath, ParsedMessage, MailboxFormat}
use scuttled.Events.{Event}
use scuttled.Files.{Bytes, FileSystem, or_false}
use scuttled.Index.Memory.{Messages, in_memory_backend}
use scuttled.Index.Indexer.Listener.{Listening, unique_id_key, listen}
use scuttled.Index.Indexer.Listener.Creating.{listen_created_deleted}
use scuttled.Mailstore.Watcher.{ParsedMail, Watching, flags_of, header, body_of, message_created}
use scuttled.Mailstore.Watcher.Changes.{
  announce, read_new, created, handle_create_event, handle_remove_event,
}

module _ {S N : Type 0} (fs : FileSystem S) (format : MailboxFormat) (root : FilePath)
    (parse_mail : Bytes → Option ParsedMail) (now : ℕ → DateTime) (w : Watching S N)
    (path : FilePath) (parsed : ParsedMessage) where
  -- A file of a message is there and can be read as a mail.
  pub record IsReadable (content : Bytes) (email : ParsedMail) : Type 0 where
    pub is_message : format.parse_message_path path root ≡ some parsed
    pub is_there : or_false (fs.try_exists w.files path) ≡ true
    pub is_read : fs.read w.files path ≡ ok content
    pub is_mail : parse_mail content ≡ some email

  handle_create_event-published :
      (content : Bytes) (email : ParsedMail)
      → IsReadable content email
      → (handle_create_event fs format root parse_mail now path w).1.published
        ≡ w.published
          ++ message_created parsed.username parsed.mailbox parsed content email
              (now (length w.published))
            ∷ []
  unfolding handle_create_event created read_new announce
  handle_create_event-published content email h =
      rw (h.is_message, created, h.is_there, h.is_read, read_new, h.is_mail, announce) refl

handle_remove_event-published :
    {S N : Type 0} (fs : FileSystem S) (format : MailboxFormat) (root path : FilePath)
    (parsed : ParsedMessage) (w : Watching S N)
    → format.parse_message_path path root ≡ some parsed
    → (handle_remove_event fs format root path w).1.published
      ≡ w.published ++ Event.message_deleted parsed.username parsed.mailbox parsed.unique_id ∷ []
unfolding handle_remove_event
handle_remove_event-published fs format root path parsed w h = rw h refl

-- Two paths of one message.
pub record AreSame (p q : ParsedMessage) : Type 0 where
  pub same_user : q.username ≡ p.username
  pub same_mailbox : q.mailbox ≡ p.mailbox
  pub same_id : q.unique_id ≡ p.unique_id

module _ {S N M : Type 0} (fs : FileSystem S) (format : MailboxFormat) (root : FilePath)
    (parse_mail : Bytes → Option ParsedMail) (now : ℕ → DateTime) (display debug : MessageId → Text)
    (next_uid : M → (username mailbox : Text) → Result Uid × M) (id other : MessageId)
    (w v : Watching S N) (path last : FilePath) (p q : ParsedMessage) (content : Bytes)
    (email : ParsedMail) (s : Listening Messages M) where
  -- When a message file that can be read as a mail is created, and later a file of the same message is
  -- removed, perhaps under another name: the watcher publishes one event for each; and if the index listens
  -- to the two, with its writer loop running, a registry that assigns a UID and a fresh identifier, then it
  -- holds at every identifier what it held before, and no mapping for the message is left.
  pub listen_file :
      (uid : Uid)
      → IsReadable fs format root parse_mail now w path p content email
      → format.parse_message_path last root ≡ some q
      → AreSame p q
      → (next_uid s.mailboxes p.username p.mailbox).0 ≡ ok uid
      → get s.index id ≡ none
      → (came : Event) × (gone : Event) × ((handle_create_event fs format root parse_mail now path
            w).1.published
          ≡ w.published ++ came ∷ [])
        × ((handle_remove_event fs format root last v).1.published ≡ v.published ++ gone ∷ [])
        × ((j : MessageId)
            → get
                (listen (in_memory_backend display debug) Loop.running (some next_uid) other gone (
                  listen
                    (in_memory_backend display debug)
                    Loop.running
                    (some next_uid)
                    id
                    came
                    s)).index
                j
              ≡ get s.index j)
        × (get
              (listen (in_memory_backend display debug) Loop.running (some next_uid) other gone (
                listen
                  (in_memory_backend display debug)
                  Loop.running
                  (some next_uid)
                  id
                  came
                  s)).unique_id_mapping
              (unique_id_key p.username p.mailbox p.unique_id)
            ≡ none)
  unfolding message_created
  listen_file uid readable is_last same assigned fresh =
      let both =
        listen_created_deleted display debug next_uid id other p.username p.mailbox p.unique_id
          (flags_of p) p.is_new (header (text "from") email.headers)
          (header (text "to") email.headers) (header (text "subject") email.headers)
          (take 200 (body_of email.body)) (length content) (now (length w.published)) s uid assigned
          fresh in
      (
        message_created p.username p.mailbox p content email (now (length w.published)),
        Event.message_deleted p.username p.mailbox p.unique_id,
        handle_create_event-published fs format root parse_mail now w path p content email readable,
        handle_remove_event-published fs format root last q v is_last
            ∙ rw (same.same_user, same.same_mailbox, same.same_id) refl,
        both.0,
        both.1.0 (unique_id_key p.username p.mailbox p.unique_id)
            ∙ rw (beq_refl (unique_id_key p.username p.mailbox p.unique_id)) refl,
      )
