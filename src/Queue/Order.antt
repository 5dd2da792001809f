-- ===== src/Queue/Order.antt =====
-- An in-order queue submits its commands one at a time, in the order in which they were enqueued,
-- and each only when the events that it waits for have ended.
use open_crun.Prelude.{
  ℕ, suc, ◌+◌, ◌≤◌, ◌≡◌, refl, sym, ap, ◌∙◌, Bool, true, false, List, [], ◌∷◌, ◌++◌, arith, length,
  length-append, All, ◌≤ℤ◌, pos, Bool-cases, inl, inr,
}
use mathlib.Core.List.{append_assoc, append-nil}
use open_crun.Queue.{
  Command, Queue, QueueType, in_order, out_of_order, World, Step, push, schedule, landed, erased,
  step, run, run_scheduler, run_by_type, run_in_order, push_command, land, erase_pending, can_run,
}

-- The commands of a history in the order in which they were enqueued.
abbrev pub pushed : List Step → List Command
pushed [] = []
pushed (push c ∷ xs) = c ∷ pushed xs
pushed (_ ∷ xs) = pushed xs

abbrev pub pushed_by : Step → List Command
pushed_by (push c) = c ∷ []
pushed_by _ = []

run_in_order-commands :
    (w : World) (q : Queue) (cs : List Command)
    → q.commands ≡ cs
    → (run_in_order w q cs).submitted ++ (run_in_order w q cs).queue.commands ≡ cs
unfolding run_in_order
run_in_order-commands w q [] e = ground arith
run_in_order-commands w q (c ∷ cs) e = ground arith

run_by_type-commands :
    (ty : QueueType) (w : World) (q : Queue)
    → (run_by_type ty w q).submitted ++ (run_by_type ty w q).queue.commands ≡ q.commands
unfolding run_by_type
run_by_type-commands out_of_order w q = refl
run_by_type-commands in_order w q = run_in_order-commands w q q.commands refl

run_scheduler-commands :
    (w : World) (q : Queue)
    → (run_scheduler w q).submitted ++ (run_scheduler w q).queue.commands ≡ q.commands
unfolding run_scheduler
run_scheduler-commands w q = run_by_type-commands q.ty w q

land-commands : (ty : QueueType) (q : Queue) → (land ty q).commands ≡ q.commands
unfolding land
land-commands out_of_order q = refl
land-commands in_order q = refl

erase_pending-commands :
    (i : ℕ) (ty : QueueType) (q : Queue) → (erase_pending i ty q).commands ≡ q.commands
unfolding erase_pending
erase_pending-commands i out_of_order q = refl
erase_pending-commands i in_order q = refl

step-commands :
    (x : Step) (q : Queue) → (step x q).1 ++ (step x q).0.commands ≡ q.commands ++ pushed_by x
unfolding step push_command
step-commands (push c) q = refl
step-commands (schedule w) q = run_scheduler-commands w q ∙ sym (append-nil q.commands)
step-commands landed q = land-commands q.ty q ∙ sym (append-nil q.commands)
step-commands (erased c) q = erase_pending-commands c.id q.ty q ∙ sym (append-nil q.commands)

pushed-cons : (x : Step) (xs : List Step) → pushed (x ∷ xs) ≡ pushed_by x ++ pushed xs
pushed-cons (push c) xs = refl
pushed-cons (schedule w) xs = refl
pushed-cons landed xs = refl
pushed-cons (erased c) xs = refl

-- In every history of pushes, scheduler runs and completions, the commands submitted so far,
-- followed by the commands that the queue still holds, are the commands that it held at first
-- followed by those pushed, in this order: none is lost, doubled or overtaken.
pub run-fifo :
    (xs : List Step) (q : Queue) → (run xs q).1 ++ (run xs q).0.commands ≡ q.commands ++ pushed xs
unfolding run
run-fifo [] q = sym (append-nil q.commands)
run-fifo (x ∷ xs) q =
    append_assoc (step x q).1 (run xs (step x q).0).1 (run xs (step x q).0).0.commands
    ∙ ap (λ l. (step x q).1 ++ l) (run-fifo xs (step x q).0)
    ∙ sym (append_assoc (step x q).1 (step x q).0.commands (pushed xs))
    ∙ ap (λ l. l ++ pushed xs) (step-commands x q)
    ∙ append_assoc q.commands (pushed_by x) (pushed xs)
    ∙ ap (λ l. q.commands ++ l) (sym (pushed-cons x xs))

-- A flag as a number.
abbrev pub one : Bool → ℕ
one true = 1
one false = 0

abbrev pub landings : List Step → ℕ
landings [] = 0
landings (landed ∷ xs) = suc (landings xs)
landings (_ ∷ xs) = landings xs

run_in_order-on_fly :
    (w : World) (q : Queue) (cs : List Command)
    → length (run_in_order w q cs).submitted + one q.command_on_fly
      ≡ one (run_in_order w q cs).queue.command_on_fly
unfolding run_in_order
run_in_order-on_fly w q [] = ground arith
run_in_order-on_fly w q (c ∷ cs) = ground arith

run_by_type-on_fly :
    (ty : QueueType) (w : World) (q : Queue)
    → length (run_by_type ty w q).submitted + one q.command_on_fly
      ≡ one (run_by_type ty w q).queue.command_on_fly
unfolding run_by_type
run_by_type-on_fly out_of_order w q = ground arith
run_by_type-on_fly in_order w q = run_in_order-on_fly w q q.commands

land-on_fly :
    (ty : QueueType) (q : Queue) → one q.command_on_fly ≤ one (land ty q).command_on_fly + 1
unfolding land
land-on_fly out_of_order q = ground arith
land-on_fly in_order q = ground arith

erase_pending-on_fly :
    (i : ℕ) (ty : QueueType) (q : Queue) → (erase_pending i ty q).command_on_fly ≡ q.command_on_fly
unfolding erase_pending
erase_pending-on_fly i out_of_order q = refl
erase_pending-on_fly i in_order q = refl

landings-cons : (x : Step) (xs : List Step) → landings (x ∷ xs) ≡ landings (x ∷ []) + landings xs
landings-cons (push c) xs = omega arith
landings-cons (schedule w) xs = omega arith
landings-cons landed xs = omega arith
landings-cons (erased c) xs = omega arith

step-on_fly :
    (x : Step) (q : Queue)
    → length (step x q).1 + one q.command_on_fly
      ≤ landings (x ∷ []) + one (step x q).0.command_on_fly
unfolding step push_command run_scheduler
step-on_fly (push c) q = omega arith
step-on_fly (schedule w) q = omega (arith, run_by_type-on_fly q.ty w q)
step-on_fly landed q = omega (arith, land-on_fly q.ty q)
step-on_fly (erased c) q = ground (arith, erase_pending-on_fly c.id q.ty q)

-- In every history, the number of submitted commands exceeds the number of completions of in-order
-- commands by no more than the one that is on fly at the end, less the one that was on fly at the
-- beginning.
pub run-one_at_a_time :
    (xs : List Step) (q : Queue)
    → length (run xs q).1 + one q.command_on_fly ≤ landings xs + one (run xs q).0.command_on_fly
unfolding run
run-one_at_a_time [] q = omega arith
run-one_at_a_time (x ∷ xs) q = omega (
  arith,
  length-append (step x q).1 (run xs (step x q).0).1,
  step-on_fly x q,
  run-one_at_a_time xs (step x q).0,
  landings-cons x xs,
)

-- No event of the wait list has a status above CL_COMPLETE, and the device accepts the command.
abbrev pub IsReady : World → Command → Type 0
IsReady w c = All (λ e. w.status e ≤ℤ pos 0) c.wait_list × (w.accepts c ≡ true)

can_run-ended : (w : World) (es : List ℕ) → can_run w es ≡ true → All (λ e. w.status e ≤ℤ pos 0) es
unfolding can_run
can_run-ended w [] h = tt
can_run-ended w (e ∷ es) h = (ground arith, can_run-ended w es (ground arith))

run_in_order-IsReady :
    (w : World) (q : Queue) (cs : List Command) → All (IsReady w) (run_in_order w q cs).submitted
unfolding run_in_order
run_in_order-IsReady w q [] = ground arith
run_in_order-IsReady w q (c ∷ cs) = elim (Bool-cases (can_run w c.wait_list)) [
  | inl ready ↦ let ended = can_run-ended w c.wait_list ready in ground (arith, ended)
  | inr waits ↦ ground arith
]

run_by_type-IsReady :
    (ty : QueueType) (w : World) (q : Queue) → All (IsReady w) (run_by_type ty w q).submitted
unfolding run_by_type
run_by_type-IsReady out_of_order w q = ground arith
run_by_type-IsReady in_order w q = run_in_order-IsReady w q q.commands

-- Every command that a run of the scheduler submits was accepted by the device, and no event of its
-- wait list has a status above CL_COMPLETE: all have ended.
pub run_scheduler-IsReady : (w : World) (q : Queue) → All (IsReady w) (run_scheduler w q).submitted
unfolding run_scheduler
run_scheduler-IsReady w q = run_by_type-IsReady q.ty w q
