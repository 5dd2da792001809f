-- ===== src/Queue.antt =====
-- CommandQueue, InOrderQueue and OutOfOrderQueue (lib/Core/CommandQueue.cpp) and Command::CanRun
-- (lib/Core/Command.cpp). A critical section of the queue's lock is one step; the statuses of the
-- events, and the answer of the device to a submission, are arguments of the step that reads them.
pub mod Order
pub mod Flush
pub mod Sync
use open_crun.Prelude.{
  ℕ, zero, suc, Bool, true, false, ◌&&◌, ◌||◌, not, List, [], ◌∷◌, ◌++◌, Option, none, some,
  if◌then◌else◌, ◌==◌, ℤ, eq_ℤ, ltb_ℤ, pos,
}

-- A command, with its notify event and the events that it waits for, by their numbers.
pub record Command : Type 0 where
  pub id : ℕ
  pub native_kernel : Bool
  pub wait_list : List ℕ
  pub notify_event : ℕ

pub data QueueType : Type 0 where
  out_of_order in_order : QueueType

pub record Queue : Type 0 where
  pub ty : QueueType
  pub context : ℕ
  pub native_kernels : Bool
  pub commands : List Command
  pub pending_commands : List Command
  pub command_on_fly : Bool

-- What the scheduler reads outside the queue: the statuses of the events, and whether the device
-- accepts a command.
pub record World : Type 0 where
  pub status : ℕ → ℤ
  pub accepts : Command → Bool

-- Command::CanRun, by Event::HasCompleted.
unfoldable pub can_run : World → List ℕ → Bool
can_run w [] = true
can_run w (e ∷ es) = (eq_ℤ (w.status e) (pos 0) || ltb_ℤ (w.status e) (pos 0)) && can_run w es

-- The new queue, the result of `RunScheduler`, and what went to the device.
pub record Scheduled : Type 0 where
  pub queue : Queue
  pub again : Bool
  pub submitted : List Command

abbrev pub is_empty {ℓ} : {A : Type ℓ} → List A → Bool
is_empty [] = true
is_empty (x ∷ xs) = false

unfoldable pub run_in_order : World → Queue → List Command → Scheduled
unfolding can_run
run_in_order w q [] = record { queue = q; again = false; submitted = [] }
run_in_order w q (c ∷ cs) =
    if q.command_on_fly
    then record { queue = q; again = false; submitted = [] }
    else if not (can_run w c.wait_list)
    then record { queue = q; again = true; submitted = [] }
    else if not (w.accepts c)
    then record { queue = q; again = true; submitted = [] }
    else record {
      queue = record q {
        commands = cs;
        pending_commands = c ∷ q.pending_commands;
        command_on_fly = true;
      };
      again = not (is_empty cs);
      submitted = c ∷ [];
    }

unfoldable pub run_by_type : QueueType → World → Queue → Scheduled
unfolding run_in_order
run_by_type out_of_order w q = record { queue = q; again = false; submitted = [] }
run_by_type in_order w q = run_in_order w q q.commands

unfoldable pub run_scheduler : World → Queue → Scheduled
unfolding run_by_type
run_scheduler w q = run_by_type q.ty w q

-- The checks of `Enqueue`, with the context of each event.
pub data EnqueueError : Type 0 where
  invalid_context invalid_operation : EnqueueError

unfoldable pub foreign_event : (ℕ → ℕ) → ℕ → List ℕ → Bool
foreign_event context_of ctx [] = false
foreign_event context_of ctx (e ∷ es) = not (context_of e == ctx) || foreign_event context_of ctx es

unfoldable pub check_command : (ℕ → ℕ) → Queue → Command → Option EnqueueError
unfolding foreign_event
check_command context_of q c =
    if foreign_event context_of q.context c.wait_list
    then some invalid_context
    else if c.native_kernel && not q.native_kernels
    then some invalid_operation
    else none

unfoldable pub push_command : Command → Queue → Queue
push_command c q = record q { commands = q.commands ++ c ∷ [] }

unfoldable pub enqueue : World → (ℕ → ℕ) → Command → Queue → Scheduled × Option EnqueueError
unfolding check_command push_command run_scheduler
enqueue w context_of c q = elim (check_command context_of q c) [
  | some e ↦ (record { queue = q; again = false; submitted = [] }, some e)
  | none ↦ (run_scheduler w (push_command c q), none)
]

unfoldable pub remove_pending : ℕ → List Command → List Command
remove_pending i [] = []
remove_pending i (c ∷ cs) = if c.id == i then cs else c ∷ remove_pending i cs

unfoldable pub land : QueueType → Queue → Queue
land out_of_order q = q
land in_order q = record q { command_on_fly = false }

unfoldable pub erase_pending : ℕ → QueueType → Queue → Queue
unfolding remove_pending
erase_pending i out_of_order q = q
erase_pending i in_order q = record q { pending_commands = remove_pending i q.pending_commands }

-- CommandDone
unfoldable pub command_done : World → Command → Queue → Scheduled
unfolding land erase_pending run_scheduler
command_done w c q =
    let s = run_scheduler w (land q.ty q) in record s { queue = erase_pending c.id q.ty s.queue }

-- The critical sections of the queue, in any interleaving of the application's threads and of the
-- completions of the device.
pub data Step : Type 0 where
  push : Command → Step
  schedule : World → Step
  landed : Step
  erased : Command → Step

unfoldable pub step : Step → Queue → Queue × List Command
unfolding push_command run_scheduler land erase_pending
step (push c) q = (push_command c q, [])
step (schedule w) q = let s = run_scheduler w q in (s.queue, s.submitted)
step landed q = (land q.ty q, [])
step (erased c) q = (erase_pending c.id q.ty q, [])

unfoldable pub run : List Step → Queue → Queue × List Command
run [] q = (q, [])
run (x ∷ xs) q = let (q', sent) = step x q in let (q'', more) = run xs q' in (q'', sent ++ more)

-- `while (RunScheduler()) {}` while the world stays as it is; `none` means that the fuel ran out.
unfoldable pub flush : World → ℕ → Queue → Option Queue
flush w zero q = none
flush w (suc fuel) q =
    let s = run_scheduler w q in
    let rest = flush w fuel s.queue in if s.again then rest else some s.queue

-- The events that `Finish` waits for after the flush.
unfoldable pub finish_wait_list : Queue → List ℕ
finish_wait_list q = events q.pending_commands ++ events q.commands
  where
    events : List Command → List ℕ
    events [] = []
    events (c ∷ cs) = c.notify_event ∷ events cs
