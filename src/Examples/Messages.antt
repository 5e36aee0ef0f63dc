-- ===== src/Examples/Messages.antt =====
-- mailbox.rs at a mailbox with two messages.
use scuttled.Prelude.{
  ℕ, ◌≡◌, refl, true, List, [], ◌∷◌, ◌++◌, map, arith, list_beq, list_key, nat_key, contains_key,
  insert, remove, zero, suc,
}
use scuttled.Text.{Text, text}
use scuttled.Error.{ok}
use scuttled.Mailbox.{
  InternalMailboxState, MailboxCommand, MailboxNotification, Subscriber, new, handle, assign,
  move_uid, subscription, deliver, mailbox_state_loop,
}
use scuttled.Mailbox.Mapping.{
  IsPaired, new-IsPaired, AreAllowed, mailbox_state_loop-IsPaired, move_uid-clash,
}
use scuttled.Mailbox.Uids.{assigned, assigned-consecutive}
use scuttled.Mailbox.Subscribers.{deliver_all, receive, deliver_all-receive, deliver_full}

abbrev alice : Text
alice = text "alice"

abbrev inbox : Text
inbox = text "INBOX"

abbrev old_path : Text
old_path = text "new/1"

abbrev new_path : Text
new_path = text "cur/1"

abbrev other_path : Text
other_path = text "cur/2"

abbrev empty_mailbox : InternalMailboxState
empty_mailbox = new alice inbox 7

abbrev traffic : List MailboxCommand
traffic =
    MailboxCommand.assign_uid old_path
    ∷ MailboxCommand.update_path 1 new_path
    ∷ MailboxCommand.assign_uid other_path
    ∷ MailboxCommand.shutdown
    ∷ []

abbrev two_messages : InternalMailboxState
two_messages = (mailbox_state_loop empty_mailbox traffic).1

traffic-AreAllowed : AreAllowed empty_mailbox traffic
unfolding new text handle assign move_uid insert remove contains_key list_beq
traffic-AreAllowed = (omega arith, ((λ v h. ground arith), (omega arith, (tt, tt))))

two_messages-IsPaired : IsPaired two_messages
two_messages-IsPaired =
    mailbox_state_loop-IsPaired traffic empty_mailbox traffic-AreAllowed
      (new-IsPaired alice inbox 7)

mailbox_state_loop-IsPaired_example : IsPaired two_messages
mailbox_state_loop-IsPaired_example =
    mailbox_state_loop-IsPaired traffic empty_mailbox traffic-AreAllowed
      (new-IsPaired alice inbox 7)

assigned-consecutive_example : assigned (mailbox_state_loop empty_mailbox traffic).0 ≡ 1 ∷ 2 ∷ []
unfolding new text mailbox_state_loop handle assign move_uid insert remove contains_key list_beq
assigned-consecutive_example = assigned-consecutive traffic empty_mailbox (omega arith)

-- The first message is moved onto the second.
move_uid-clash_example : (move_uid two_messages 1 other_path).0 ≡ ok tt
unfolding new text mailbox_state_loop handle assign move_uid insert remove contains_key list_beq
move_uid-clash_example =
    (move_uid-clash two_messages 1 2 new_path other_path two_messages-IsPaired refl refl
      (λ e. omega (arith, e))).0

abbrev arrivals : List MailboxNotification
arrivals = MailboxNotification.message_added 1 ∷ MailboxNotification.flags_changed 1 ∷ []

deliver_all-receive_example :
    deliver_all (subscription ∷ []) arrivals ≡ map (receive arrivals) (subscription ∷ [])
deliver_all-receive_example =
    deliver_all-receive arrivals (subscription ∷ []) ((refl, omega arith), tt)

-- A connected subscriber that reads nothing.
abbrev backlog : ℕ → List MailboxNotification
backlog zero = []
backlog (suc k) = MailboxNotification.message_added 1 ∷ backlog k

abbrev slow : Subscriber
slow = record { unread = backlog 100; is_connected = true }

deliver_full_example :
    deliver (subscription ∷ slow ∷ []) (MailboxNotification.message_added 2)
    ≡ deliver (subscription ∷ []) (MailboxNotification.message_added 2)
      ++ deliver [] (MailboxNotification.message_added 2)
deliver_full_example =
    deliver_full (MailboxNotification.message_added 2) (subscription ∷ []) slow [] refl
