-- ===== src/Queue/Order.antt =====
-- The order of tasks in queue/impl/channel.rs: first in, first out.
use scuttled.Prelude.{
  ℕ, Bool, true, false, ◌≡◌, refl, sym, ◌∙◌, ap, some, List, [], ◌∷◌, ◌++◌, arith, All,
  if◌then◌else◌, nat_eq, any, append_assoc, append-nil, Bool-cases, inl, inr, ◌⊎◌, nat_eq_iff,
}
use scuttled.Queue.{
  QueueTask, Tasks, WriteCommand, Reply, push_back, pop_front, remove_first, write, writer_loop,
}

-- Does the command only put tasks in and take them out?
abbrev pub is_transfer : WriteCommand → Bool
is_transfer (WriteCommand.enqueue t) = true
is_transfer WriteCommand.dequeue = true
is_transfer _ = false

abbrev pub enqueued : List WriteCommand → Tasks
enqueued [] = []
enqueued (WriteCommand.enqueue t ∷ cs) = t ∷ enqueued cs
enqueued (c ∷ cs) = enqueued cs

abbrev pub dequeued : List Reply → Tasks
dequeued [] = []
dequeued (Reply.task (some t) ∷ rs) = t ∷ dequeued rs
dequeued (r ∷ rs) = dequeued rs

-- Over any commands that put tasks in and take them out, the tasks taken out followed by those left are
-- the tasks at the beginning followed by those put in: none is lost, repeated or overtaken.
pub writer_loop-dequeued :
    (cs : List WriteCommand) (tasks : Tasks)
    → All (λ c. is_transfer c ≡ true) cs
    → dequeued (writer_loop tasks cs).0 ++ (writer_loop tasks cs).1 ≡ tasks ++ enqueued cs
unfolding writer_loop write push_back pop_front
writer_loop-dequeued [] tasks h = sym (append-nil tasks)
writer_loop-dequeued (WriteCommand.enqueue t ∷ cs) tasks h =
    writer_loop-dequeued cs (push_back tasks t) h.1 ∙ append_assoc tasks (t ∷ []) (enqueued cs)
writer_loop-dequeued (WriteCommand.dequeue ∷ cs) [] h = writer_loop-dequeued cs [] h.1
writer_loop-dequeued (WriteCommand.dequeue ∷ cs) (t ∷ tasks) h =
    ap (◌∷◌ t) (writer_loop-dequeued cs tasks h.1)
writer_loop-dequeued (WriteCommand.remove id ∷ cs) tasks h = cc
writer_loop-dequeued (WriteCommand.clear ∷ cs) tasks h = cc
writer_loop-dequeued (WriteCommand.shutdown ∷ cs) tasks h = cc

-- What a removal does: it takes out the first task with the identifier, or finds none.
pub data Removed (id : ℕ) : Tasks → Bool × Tasks → Type 0 where
  absent :
      (tasks : Tasks) → any (λ t. nat_eq t.id id) tasks ≡ false → Removed id tasks (false, tasks)
  found :
      (before : Tasks) (t : QueueTask) (behind : Tasks)
      → any (λ x. nat_eq x.id id) before ≡ false
      → t.id ≡ id
      → Removed id (before ++ t ∷ behind) (true, before ++ behind)

Removed-cons :
    (id : ℕ) (t : QueueTask) (tasks : Tasks) (p : Bool × Tasks)
    → nat_eq t.id id ≡ false
    → Removed id tasks p
    → Removed id (t ∷ tasks) (p.0, t ∷ p.1)
Removed-cons id t _ _ other (absent tasks none_has) =
    absent (t ∷ tasks) (ground (arith, other, none_has))
Removed-cons id t _ _ other (found before x behind none_has same) =
    found (t ∷ before) x behind (ground (arith, other, none_has)) same

-- A removal takes out the first task with the identifier and leaves the others in their order, or
-- reports that no task has it and leaves all.
remove_first-Removed : (id : ℕ) (tasks : Tasks) → Removed id tasks (remove_first id tasks)
unfolding remove_first
remove_first-Removed id [] = absent [] refl
remove_first-Removed id (t ∷ tasks) =
    first (remove_first id tasks) (remove_first-Removed id tasks) (Bool-cases (nat_eq t.id id))
  where
    first :
        (p : Bool × Tasks)
        → Removed id tasks p
        → (nat_eq t.id id ≡ true) ⊎ (nat_eq t.id id ≡ false)
        → Removed id (t ∷ tasks) (if nat_eq t.id id then (true, tasks) else (p.0, t ∷ p.1))
    first p r (inl e) = rw e (found [] t tasks refl ((nat_eq_iff t.id id).0 e))
    first p r (inr e) = rw e (Removed-cons id t tasks p e r)
