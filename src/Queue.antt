-- ===== src/Queue.antt =====
-- queue/impl/channel.rs: the task queue, its writer loop and the handle `ChannelQueue`, and the tasks of
-- types.rs. A payload is the text of its JSON value.
pub mod Handle
pub mod Order
use scuttled.Prelude.{
  ℕ, Bool, true, false, Option, none, some, List, [], ◌∷◌, ◌++◌, if◌then◌else◌, nat_eq, any,
}
use scuttled.Text.{Text}
use scuttled.Types.{DateTime}

pub data TaskType : Type 0 where
  uid_compaction index_update expunge : TaskType
  custom : Text → TaskType

pub record QueueTask : Type 0 where
  pub id : ℕ
  pub task_type : TaskType
  pub created_at : DateTime
  pub payload : Text

-- The `VecDeque`, from front to back.
abbrev pub Tasks : Type 0
Tasks = List QueueTask

pub data WriteCommand : Type 0 where
  enqueue : QueueTask → WriteCommand
  dequeue clear shutdown : WriteCommand
  remove : (id : ℕ) → WriteCommand

-- What the loop sends back; a dequeued task, or whether a task was removed.
pub data Reply : Type 0 where
  done : Reply
  task : Option QueueTask → Reply
  removed : Bool → Reply

unfoldable pub push_back : Tasks → QueueTask → Tasks
push_back tasks t = tasks ++ t ∷ []

unfoldable pub pop_front : Tasks → Option QueueTask × Tasks
pop_front [] = (none, [])
pop_front (t ∷ tasks) = (some t, tasks)

-- `position` and `remove`: the first task with the identifier.
unfoldable pub remove_first : ℕ → Tasks → Bool × Tasks
remove_first id [] = (false, [])
remove_first id (t ∷ tasks) =
    let (found, rest) = remove_first id tasks in
    if nat_eq t.id id then (true, tasks) else (found, t ∷ rest)

-- One turn of the loop.
unfoldable pub write : Tasks → WriteCommand → Reply × Tasks
unfolding push_back pop_front remove_first
write tasks (WriteCommand.enqueue t) = (Reply.done, push_back tasks t)
write tasks WriteCommand.dequeue = let (t, rest) = pop_front tasks in (Reply.task t, rest)
write tasks (WriteCommand.remove id) =
    let (found, rest) = remove_first id tasks in (Reply.removed found, rest)
write tasks WriteCommand.clear = (Reply.done, [])
write tasks WriteCommand.shutdown = (Reply.done, tasks)

unfoldable pub writer_loop : Tasks → List WriteCommand → List Reply × Tasks
writer_loop tasks [] = ([], tasks)
writer_loop tasks (WriteCommand.shutdown ∷ cs) = (Reply.done ∷ [], tasks)
writer_loop tasks (c ∷ cs) =
    let (reply, rest) = write tasks c in
    let (replies, end) = writer_loop rest cs in (reply ∷ replies, end)
