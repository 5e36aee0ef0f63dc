-- ===== src/Mailbox/Handle.antt =====
-- The methods of the handle `Mailbox` of mailbox.rs, at a loop that runs, drains or has stopped.
use scuttled.Prelude.{Option, get, nat_key, list_key}
use scuttled.Text.{Text, text}
use scuttled.Types.{Uid}
use scuttled.Error.{Error, Result, ok, err}
use scuttled.Channel.{Loop, request}
use scuttled.Mailbox
use scuttled.Mailbox.{InternalMailboxState, MailboxState, MailboxNotification, Subscriber}

abbrev pub loop_stopped : Error
loop_stopped = Error.internal (text "Mailbox state loop stopped")

abbrev pub reply_dropped : Error
reply_dropped = Error.internal (text "Mailbox state loop dropped reply")

module _ (loop : Loop) (s : InternalMailboxState) where
  unfoldable pub assign_uid : Text → Result Uid × InternalMailboxState
  unfolding Mailbox.assign
  assign_uid path = request loop loop_stopped reply_dropped (λ t. Mailbox.assign t path) s

  unfoldable pub get_path : Uid → Result (Option Text) × InternalMailboxState
  unfolding get
  get_path uid = request loop loop_stopped reply_dropped (λ t. (ok (get t.uid_to_path uid), t)) s

  unfoldable pub get_uid : Text → Result (Option Uid) × InternalMailboxState
  unfolding get
  get_uid path = request loop loop_stopped reply_dropped (λ t. (ok (get t.path_to_uid path), t)) s

  unfoldable pub remove_message : Uid → Result (Unit {0}) × InternalMailboxState
  unfolding Mailbox.remove_uid
  remove_message uid = request loop loop_stopped reply_dropped (λ t. Mailbox.remove_uid t uid) s

  unfoldable pub update_path : Uid → Text → Result (Unit {0}) × InternalMailboxState
  unfolding Mailbox.move_uid
  update_path uid new_path =
      request loop loop_stopped reply_dropped (λ t. Mailbox.move_uid t uid new_path) s

  unfoldable pub get_state : Result MailboxState × InternalMailboxState
  unfolding Mailbox.snapshot_of
  get_state = request loop loop_stopped reply_dropped (λ t. (ok (Mailbox.snapshot_of t), t)) s

  unfoldable pub subscribe : Result Subscriber × InternalMailboxState
  unfolding Mailbox.add_subscriber
  subscribe =
      request loop loop_stopped reply_dropped
        (λ t. (ok Mailbox.subscription, Mailbox.add_subscriber t)) s

  -- The reply is not looked at: `let _ = rx.await; Ok(())`.
  unfoldable pub notify : MailboxNotification → Result (Unit {0}) × InternalMailboxState
  unfolding Mailbox.notify_all
  notify n = elim loop [
    | Loop.running ↦ (ok tt, Mailbox.notify_all s n)
    | Loop.draining ↦ (ok tt, s)
    | Loop.stopped ↦ (err loop_stopped, s)
  ]

-- Neither the send nor the reply is looked at.
unfoldable pub shutdown : Loop → Result (Unit {0}) × Loop
shutdown loop = (ok tt, Loop.stopped)
