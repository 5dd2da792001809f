-- ===== src/Tests/Queue.antt =====
-- A queue with two commands, of which the second waits for the event of the first
-- (lib/Core/CommandQueue.cpp).
use open_crun.Prelude.{
  arith, ◌+◌, ◌≤◌, ◌≡◌, ◌==◌, refl, Bool, true, false, List, [], ◌∷◌, ◌++◌, some, All, length, pos,
  if◌then◌else◌,
}
use open_crun.Queue.{
  Command, Queue, QueueType, in_order, World, Step, push, schedule, landed, erased, run,
  run_scheduler, flush, can_run,
}
use open_crun.Queue.Order.{
  run-fifo, run-one_at_a_time, run_scheduler-IsReady, pushed, landings, one, IsReady,
}
use open_crun.Queue.Flush.{flush-settles}
use open_crun.Coherency.Transfer as Coherency
use open_crun.Queue.Sync.MapWrite.{Forgets, uncut, map_buffer-Forgets}

abbrev first : Command
first = record { id = 1; native_kernel = false; wait_list = []; notify_event = 1 }

abbrev second : Command
second = record { id = 2; native_kernel = false; wait_list = 1 ∷ []; notify_event = 2 }

abbrev empty_queue : QueueType → Queue
empty_queue ty = record {
  ty = ty;
  context = 0;
  native_kernels = true;
  commands = [];
  pending_commands = [];
  command_on_fly = false;
}

-- The first event has ended or not; the device takes every command.
abbrev world : Bool → World
world ended = record {
  status = λ e. if e == 1 then (if ended then pos 0 else pos 2) else pos 3;
  accepts = λ c. true;
}

abbrev history : List Step
history =
    push first
    ∷ push second
    ∷ schedule (world false)
    ∷ landed
    ∷ schedule (world true)
    ∷ erased first
    ∷ []

abbrev queue : Queue
queue = empty_queue in_order

run-fifo_example :
    (run history queue).1 ++ (run history queue).0.commands ≡ queue.commands ++ pushed history
run-fifo_example = run-fifo history queue

run-one_at_a_time_example :
    length (run history queue).1 + one queue.command_on_fly
    ≤ landings history + one (run history queue).0.command_on_fly
run-one_at_a_time_example = run-one_at_a_time history queue

abbrev loaded : List Command → Queue
loaded cs = record queue { commands = cs }

run_scheduler-IsReady_example :
    All (IsReady (world true)) (run_scheduler (world true) (loaded (second ∷ []))).submitted
run_scheduler-IsReady_example = run_scheduler-IsReady (world true) (loaded (second ∷ []))

flush-settles_example :
    (q : Queue) × (flush (world false) 2 (loaded (first ∷ second ∷ [])) ≡ some q)
unfolding can_run
flush-settles_example = flush-settles (world false) (loaded (first ∷ second ∷ [])) 0 refl

abbrev mapped : Coherency.Object
mapped = record {
  devices = 2;
  size = 8;
  use_host_ptr = false;
  copy_host_ptr = true;
  shares = λ i. false;
}

-- The first device has the data, the second one maps the object for writing.
map_buffer-Forgets_example :
    Forgets
      (record { id = 1; flags = 1 })
      mapped
      1
      (uncut mapped (λ i. i == 0) (record { bytes = λ a b. b; allocated = λ i. false }))
map_buffer-Forgets_example =
    map_buffer-Forgets (record { id = 1; flags = 1 }) mapped (λ i. i == 0)
      (record { bytes = λ a b. b; allocated = λ i. false }) 1 (omega arith) (omega arith) refl refl
