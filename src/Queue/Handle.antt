-- ===== src/Queue/Handle.antt =====
-- The methods of `ChannelQueue` in queue/impl/channel.rs: writes go through the channel, reads go to the
-- tasks directly.
use scuttled.Prelude.{ℕ, Bool, Option, none, some, List, [], ◌∷◌}
use scuttled.Prelude
use scuttled.Text.{text}
use scuttled.Error.{Error, Result, ok}
use scuttled.Channel.{Loop, request}
use scuttled.Queue.{QueueTask, Tasks, push_back, pop_front, remove_first}

abbrev channel_closed : Error
channel_closed = Error.queue_error (text "Channel closed")

abbrev reply_closed : Error
reply_closed = Error.queue_error (text "Reply channel closed")

module _ (loop : Loop) (tasks : Tasks) where
  unfoldable pub enqueue : QueueTask → Result (Unit {0}) × Tasks
  unfolding push_back
  enqueue t = request loop channel_closed reply_closed (λ ts. (ok tt, push_back ts t)) tasks

  unfoldable pub dequeue : Result (Option QueueTask) × Tasks
  unfolding pop_front
  dequeue =
      request loop channel_closed reply_closed (λ ts. (ok (pop_front ts).0, (pop_front ts).1)) tasks

  unfoldable pub remove : ℕ → Result Bool × Tasks
  unfolding remove_first
  remove id =
      request loop channel_closed reply_closed
        (λ ts. (ok (remove_first id ts).0, (remove_first id ts).1)) tasks

  unfoldable pub clear : Result (Unit {0}) × Tasks
  clear = request loop channel_closed reply_closed (λ ts. (ok tt, [])) tasks

unfoldable pub peek : Tasks → Result (Option QueueTask)
peek [] = ok none
peek (t ∷ tasks) = ok (some t)

unfoldable pub len : Tasks → Result ℕ
len tasks = ok (Prelude.length tasks)

unfoldable pub is_empty : Tasks → Result Bool
is_empty tasks = ok (Prelude.is_empty tasks)

-- Neither the send nor the reply is looked at.
unfoldable pub shutdown : Loop → Result (Unit {0}) × Loop
shutdown loop = (ok tt, Loop.stopped)
