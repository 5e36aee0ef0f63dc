-- ===== src/Index/Memory.antt =====
-- index/impl/inmemory.rs: the in-memory backend. How a `Uuid` is displayed and debugged is given by
-- `display` and `debug`.
pub mod Searches
pub mod Contents
pub mod Replay
use mathlib.Core.Option
use scuttled.Prelude.{
  ℕ, Bool, true, false, not, ◌&&◌, ◌||◌, Option, none, some, List, [], ◌∷◌, ◌++◌, map,
  if◌then◌else◌, is_some, ◌==◌, nat_key, list_key, list_beq, nat_eq, HashMap, get, contains_key,
  insert, remove, modify, keep, contains,
}
use scuttled.Text.{Text, text, contains_text}
use scuttled.Types.{MessageId, Uid, MessageFlag}
use scuttled.Types.Flags.{flag_key, flag_beq}
use scuttled.Types.Query.{SearchQuery}
use scuttled.Error.{Error, Result, ok, err}
use scuttled.Index.{IndexedMessage, IndexBackend}

pub record MessageEntry : Type 0 where
  pub metadata : IndexedMessage
  pub path : Text
  pub username : Text

-- `InMemoryBackend`
abbrev pub Messages : Type 0
Messages = HashMap MessageId MessageEntry

-- `entry.username == username && entry.metadata.mailbox == mailbox`
unfoldable pub is_in : Text → Text → MessageEntry → Bool
unfolding list_beq
is_in username mailbox entry = entry.username == username && entry.metadata.mailbox == mailbox

unfoldable pub matches_query : IndexedMessage → SearchQuery → Bool
unfolding contains_text flag_beq
matches_query m SearchQuery.all = true
matches_query m (SearchQuery.from s) = contains_text m.from s
matches_query m (SearchQuery.to s) = contains_text m.to s
matches_query m (SearchQuery.subject s) = contains_text m.subject s
matches_query m (SearchQuery.body s) = contains_text m.body_preview s
matches_query m (SearchQuery.text s) =
    contains_text m.from s
    || contains_text m.to s
    || contains_text m.subject s
    || contains_text m.body_preview s
matches_query m (SearchQuery.uid uids) = contains uids m.uid
matches_query m (SearchQuery.sequence ns) = false
matches_query m SearchQuery.seen = contains m.flags MessageFlag.seen
matches_query m SearchQuery.unseen = not (contains m.flags MessageFlag.seen)
matches_query m SearchQuery.flagged = contains m.flags MessageFlag.flagged
matches_query m SearchQuery.unflagged = not (contains m.flags MessageFlag.flagged)
matches_query m SearchQuery.deleted = contains m.flags MessageFlag.deleted
matches_query m SearchQuery.undeleted = not (contains m.flags MessageFlag.deleted)
matches_query m (SearchQuery.and p q) = matches_query m p && matches_query m q
matches_query m (SearchQuery.or p q) = matches_query m p || matches_query m q
matches_query m (SearchQuery.not q) = not (matches_query m q)

abbrev pub with_flags : List MessageFlag → MessageEntry → MessageEntry
with_flags flags entry = record entry { metadata = record entry.metadata { flags = flags } }

-- The paths of the entries that pass a test: `values().filter(p).map(path)`.
abbrev pub paths_where : (MessageEntry → Bool) → Messages → List Text
paths_where p messages = map (λ e. e.1.path) (keep (λ e. p e.1) messages)

-- The `for` loop of `get_message_path_by_uid`: the first entry that passes.
unfoldable pub first_where : (MessageEntry → Bool) → Messages → Option Text
first_where p [] = none
first_where p ((k, e) ∷ messages) =
    let later = first_where p messages in if p e then some e.path else later

module _ (display debug : MessageId → Text) where
  unfoldable pub make_message_path : (username mailbox : Text) → MessageId → Text
  make_message_path username mailbox id =
      username ++ text "/" ++ mailbox ++ text "/" ++ display id ++ text ".eml"

  unfoldable pub add_message :
      Messages → (username mailbox : Text) → IndexedMessage → Result Text × Messages
  unfolding make_message_path insert
  add_message s username mailbox message =
      let path = make_message_path username mailbox message.id in
      (
        ok path,
        insert s message.id (record { metadata = message; path = path; username = username }),
      )

  pub message_not_found : MessageId → Error
  message_not_found id = Error.not_found (text "Message " ++ debug id ++ text " not found")

  unfoldable pub update_flags :
      Messages → MessageId → List MessageFlag → Result (Unit {0}) × Messages
  unfolding contains_key modify
  update_flags s id flags =
      if contains_key s id
      then (ok tt, modify s id (with_flags flags))
      else (err (message_not_found id), s)

  unfoldable pub delete_message : Messages → MessageId → Result (Unit {0}) × Messages
  unfolding contains_key remove
  delete_message s id =
      if contains_key s id then (ok tt, remove s id) else (err (message_not_found id), s)

  unfoldable pub remove_messages_for_mailbox :
      Messages → (username mailbox : Text) → Result (Unit {0}) × Messages
  unfolding is_in
  remove_messages_for_mailbox s username mailbox =
      (ok tt, keep (λ e. not (is_in username mailbox e.1)) s)

  unfoldable pub get_message_path : Messages → MessageId → Result (Option Text)
  unfolding get
  get_message_path s id = ok (Option.map (λ e. e.path) (get s id))

  unfoldable pub get_message_path_by_uid :
      Messages → (username mailbox : Text) → Uid → Result (Option Text)
  unfolding is_in first_where
  get_message_path_by_uid s username mailbox uid =
      ok (first_where (λ e. is_in username mailbox e && nat_eq e.metadata.uid uid) s)

  unfoldable pub list_message_paths : Messages → (username mailbox : Text) → Result (List Text)
  unfolding is_in
  list_message_paths s username mailbox = ok (paths_where (is_in username mailbox) s)

  unfoldable pub get_message_metadata : Messages → MessageId → Result (Option IndexedMessage)
  unfolding get
  get_message_metadata s id = ok (Option.map (λ e. e.metadata) (get s id))

  unfoldable pub search : Messages → (username mailbox : Text) → SearchQuery → Result (List Text)
  unfolding is_in matches_query
  search s username mailbox query =
      ok (paths_where (λ e. is_in username mailbox e && matches_query e.metadata query) s)

  -- `impl IndexBackend for InMemoryBackend`
  abbrev pub in_memory_backend : IndexBackend Messages
  in_memory_backend = record {
    add_message = add_message;
    update_flags = update_flags;
    delete_message = delete_message;
    remove_messages_for_mailbox = remove_messages_for_mailbox;
    get_message_path = get_message_path;
    get_message_path_by_uid = get_message_path_by_uid;
    list_message_paths = list_message_paths;
    get_message_metadata = get_message_metadata;
    search = search;
  }
