-- ===== src/Mailbox.antt =====
-- mailbox.rs: the state that a mailbox's loop owns, the loop's commands, and the handle.
pub mod Mapping
pub mod Uids
pub mod Subscribers
pub mod Handle
use scuttled.Prelude.{
  ℕ, ◌+◌, ◌%◌, Bool, true, false, ◌&&◌, Option, none, some, List, [], ◌∷◌, ◌++◌, if◌then◌else◌, ltb,
  length, ◌==◌, nat_key, list_key, HashMap, get, contains_key, insert, remove,
}
use scuttled.Text.{Text, text, decimal}
use scuttled.Types.{Uid, u32_mod}
use scuttled.Error.{Error, Result, ok, err}

-- The snapshot that `get_state` returns.
pub record MailboxState : Type 0 where
  pub username : Text
  pub name : Text
  pub uid_validity : ℕ
  pub uid_next : Uid
  pub message_count : ℕ

pub data MailboxNotification : Type 0 where
  message_added message_expunged flags_changed : Uid → MailboxNotification

-- A subscriber's channel: what it has not received yet, and whether its receiver is still there.
pub record Subscriber : Type 0 where
  pub unread : List MailboxNotification
  pub is_connected : Bool

-- `channel(100)`
abbrev pub channel_size : ℕ
channel_size = 100

pub record InternalMailboxState : Type 0 where
  pub username : Text
  pub name : Text
  pub uid_validity : ℕ
  pub uid_next : Uid
  pub uid_to_path : HashMap Uid Text
  pub path_to_uid : HashMap Text Uid
  pub subscribers : List Subscriber

-- The state with which the loop starts.
unfoldable pub new : Text → Text → ℕ → InternalMailboxState
new username name uid_validity = record {
  username = username;
  name = name;
  uid_validity = uid_validity;
  uid_next = 1;
  uid_to_path = [];
  path_to_uid = [];
  subscribers = [];
}

pub data MailboxCommand : Type 0 where
  assign_uid : (path : Text) → MailboxCommand
  get_path : Uid → MailboxCommand
  get_uid : (path : Text) → MailboxCommand
  remove_message : Uid → MailboxCommand
  update_path : Uid → (new_path : Text) → MailboxCommand
  get_state subscribe : MailboxCommand
  notify : MailboxNotification → MailboxCommand
  shutdown : MailboxCommand

pub data Reply : Type 0 where
  uid : Result Uid → Reply
  path : Result (Option Text) → Reply
  found_uid : Result (Option Uid) → Reply
  done : Result (Unit {0}) → Reply
  snapshot : MailboxState → Reply
  receiver : Subscriber → Reply
  acknowledged : Reply

uid_not_found : Uid → Error
uid_not_found u = Error.not_found (text "UID not found: " ++ decimal u)

unfoldable pub assign : InternalMailboxState → Text → Result Uid × InternalMailboxState
assign s p =
    if contains_key s.path_to_uid p
    then (err (Error.internal (text "Path already has UID assigned: " ++ p)), s)
    else (
      ok s.uid_next,
      record s {
        uid_to_path = insert s.uid_to_path s.uid_next p;
        path_to_uid = insert s.path_to_uid p s.uid_next;
        uid_next = (s.uid_next + 1) % u32_mod;
      },
    )

unfoldable pub remove_uid : InternalMailboxState → Uid → Result (Unit {0}) × InternalMailboxState
unfolding uid_not_found
remove_uid s u = elim (get s.uid_to_path u) [
  | none ↦ (err (uid_not_found u), s)
  | some p ↦ (
    ok tt,
    record s { uid_to_path = remove s.uid_to_path u; path_to_uid = remove s.path_to_uid p },
  )
]

unfoldable pub move_uid :
    InternalMailboxState → Uid → Text → Result (Unit {0}) × InternalMailboxState
unfolding uid_not_found
move_uid s u new_path = elim (get s.uid_to_path u) [
  | none ↦ (err (uid_not_found u), s)
  | some old_path ↦ (
    ok tt,
    record s {
      uid_to_path = insert s.uid_to_path u new_path;
      path_to_uid = insert (remove s.path_to_uid old_path) new_path u;
    },
  )
]

unfoldable pub snapshot_of : InternalMailboxState → MailboxState
snapshot_of s = record {
  username = s.username;
  name = s.name;
  uid_validity = s.uid_validity;
  uid_next = s.uid_next;
  message_count = length s.uid_to_path;
}

-- `try_send`: it fails at a channel that is closed or full.
unfoldable pub try_send : Subscriber → MailboxNotification → Option Subscriber
try_send sub n =
    if sub.is_connected && ltb (length sub.unread) channel_size
    then some (record sub { unread = sub.unread ++ n ∷ [] })
    else none

abbrev keep_sent : Option Subscriber → List Subscriber → List Subscriber
keep_sent none subs = subs
keep_sent (some sub) subs = sub ∷ subs

-- `subscribers.retain(|sub| sub.try_send(notification).is_ok())`
unfoldable pub deliver : List Subscriber → MailboxNotification → List Subscriber
unfolding try_send
deliver [] n = []
deliver (sub ∷ subs) n = keep_sent (try_send sub n) (deliver subs n)

abbrev pub subscription : Subscriber
subscription = record { unread = []; is_connected = true }

unfoldable pub add_subscriber : InternalMailboxState → InternalMailboxState
add_subscriber s = record s { subscribers = s.subscribers ++ subscription ∷ [] }

unfoldable pub notify_all : InternalMailboxState → MailboxNotification → InternalMailboxState
unfolding deliver
notify_all s n = record s { subscribers = deliver s.subscribers n }

-- One turn of the loop.
unfoldable pub handle : InternalMailboxState → MailboxCommand → Reply × InternalMailboxState
unfolding assign remove_uid move_uid snapshot_of add_subscriber notify_all
handle s (MailboxCommand.assign_uid p) = let (r, t) = assign s p in (Reply.uid r, t)
handle s (MailboxCommand.get_path u) = (Reply.path (ok (get s.uid_to_path u)), s)
handle s (MailboxCommand.get_uid p) = (Reply.found_uid (ok (get s.path_to_uid p)), s)
handle s (MailboxCommand.remove_message u) = let (r, t) = remove_uid s u in (Reply.done r, t)
handle s (MailboxCommand.update_path u p) = let (r, t) = move_uid s u p in (Reply.done r, t)
handle s MailboxCommand.get_state = (Reply.snapshot (snapshot_of s), s)
handle s MailboxCommand.subscribe = (Reply.receiver subscription, add_subscriber s)
handle s (MailboxCommand.notify n) = (Reply.acknowledged, notify_all s n)
handle s MailboxCommand.shutdown = (Reply.acknowledged, s)

-- The loop, over the commands that its channel yields, up to a `Shutdown`.
unfoldable pub mailbox_state_loop :
    InternalMailboxState → List MailboxCommand → List Reply × InternalMailboxState
mailbox_state_loop s [] = ([], s)
mailbox_state_loop s (MailboxCommand.shutdown ∷ cs) = (Reply.acknowledged ∷ [], s)
mailbox_state_loop s (c ∷ cs) =
    let (reply, t) = handle s c in
    let (replies, end) = mailbox_state_loop t cs in (reply ∷ replies, end)
