-- ===== src/Examples/Tasks.antt =====
-- queue/impl/channel.rs at a queue with one task.
use scuttled.Prelude.{ℕ, ◌≡◌, refl, List, [], ◌∷◌, ◌++◌}
use scuttled.Queue.{TaskType, QueueTask, WriteCommand, writer_loop}
use scuttled.Queue.Order.{dequeued, writer_loop-dequeued}

abbrev task_of : ℕ → QueueTask
task_of id = record { id = id; task_type = TaskType.expunge; created_at = 0; payload = [] }

abbrev commands : List WriteCommand
commands =
    WriteCommand.enqueue (task_of 2)
    ∷ WriteCommand.dequeue
    ∷ WriteCommand.enqueue (task_of 3)
    ∷ WriteCommand.dequeue
    ∷ []

writer_loop-dequeued_example :
    dequeued (writer_loop (task_of 1 ∷ []) commands).0 ++ (writer_loop (task_of 1 ∷ []) commands).1
    ≡ task_of 1 ∷ task_of 2 ∷ task_of 3 ∷ []
writer_loop-dequeued_example =
    writer_loop-dequeued commands (task_of 1 ∷ []) (refl, (refl, (refl, (refl, tt))))
