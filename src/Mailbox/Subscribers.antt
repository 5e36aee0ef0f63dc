-- ===== src/Mailbox/Subscribers.antt =====
-- Notifications of mailbox.rs: a subscriber that keeps up receives every one in order, and one whose
-- channel is full is dropped like one that has gone.
use scuttled.Prelude.{
  ℕ, suc, ◌+◌, ◌≤◌, true, ◌≡◌, refl, List, [], ◌∷◌, ◌++◌, map, arith, All, length, length-append,
  append_assoc, append-nil, ◌∙◌,
}
use scuttled.Mailbox.{Subscriber, MailboxNotification, channel_size, deliver}

-- A run of notifications.
pub deliver_all : List Subscriber → List MailboxNotification → List Subscriber
deliver_all subs [] = subs
deliver_all subs (n ∷ ns) = deliver_all (deliver subs n) ns

abbrev pub receive : List MailboxNotification → Subscriber → Subscriber
receive ns sub = record sub { unread = sub.unread ++ ns }

-- The receiver is there, and its channel has room for `k` more.
abbrev pub HasRoom : ℕ → Subscriber → Type 0
HasRoom k sub = (sub.is_connected ≡ true) × (length sub.unread + k ≤ channel_size)

deliver_one :
    (n : MailboxNotification) (k : ℕ) (subs : List Subscriber)
    → All (HasRoom (suc k)) subs
    → (deliver subs n ≡ map (receive (n ∷ [])) subs) × All (HasRoom k) (map (receive (n ∷ [])) subs)
unfolding deliver
deliver_one n k [] h = (refl, tt)
deliver_one n k (sub ∷ subs) h =
    let (same, room) = deliver_one n k subs h.1 in
    let longer = length-append sub.unread (n ∷ []) in ground (arith, same, room, longer)

map-receive :
    (n : MailboxNotification) (ns : List MailboxNotification) (subs : List Subscriber)
    → map (receive ns) (map (receive (n ∷ [])) subs) ≡ map (receive (n ∷ ns)) subs
map-receive n ns [] = refl
map-receive n ns (sub ∷ subs) =
    ground (arith, map-receive n ns subs, append_assoc sub.unread (n ∷ []) ns)

map-receive-nil : (subs : List Subscriber) → subs ≡ map (receive []) subs
map-receive-nil [] = refl
map-receive-nil (sub ∷ subs) = ground (arith, map-receive-nil subs, append-nil sub.unread)

-- Subscribers that are connected and have room for a run of notifications receive all of it, in
-- order, and none is dropped.
pub deliver_all-receive :
    (ns : List MailboxNotification) (subs : List Subscriber)
    → All (HasRoom (length ns)) subs
    → deliver_all subs ns ≡ map (receive ns) subs
unfolding deliver_all
deliver_all-receive [] subs h = map-receive-nil subs
deliver_all-receive (n ∷ ns) subs h =
    let (same, room) = deliver_one n (length ns) subs h in
    rw same (deliver_all-receive ns (map (receive (n ∷ [])) subs) room ∙ map-receive n ns subs)

-- A subscriber with a hundred unread notifications, connected or not, is taken off the
-- list by the next one; the others are served as if it had not been there.
pub deliver_full :
    (n : MailboxNotification) (before : List Subscriber) (sub : Subscriber)
    (after : List Subscriber)
    → length sub.unread ≡ channel_size
    → deliver (before ++ sub ∷ after) n ≡ deliver before n ++ deliver after n
unfolding deliver
deliver_full n [] sub after full = ground arith
deliver_full n (b ∷ before) sub after full = ground (arith, deliver_full n before sub after)
