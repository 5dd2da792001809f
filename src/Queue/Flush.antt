-- ===== src/Queue/Flush.antt =====
-- `Flush` (the loop `while (RunScheduler())` of lib/Core/CommandQueue.cpp), and what an out-of-order
-- queue does with its commands.
use open_crun.Prelude.{
  ℕ, suc, ◌≡◌, refl, Bool, true, false, ◌&&◌, ◌||◌, List, [], ◌∷◌, some, arith, ◌⊎◌, inl, inr,
  Bool-cases,
}
use open_crun.Queue.{
  Command, Queue, QueueType, in_order, out_of_order, World, run_scheduler, run_by_type,
  run_in_order, can_run, flush,
}

-- Whether the scheduler can act on the first command, or has nothing to do.
abbrev pub settles : World → Queue → List Command → Bool
settles w q [] = true
settles w q (c ∷ cs) = q.command_on_fly || (can_run w c.wait_list && w.accepts c)

run_in_order-settles :
    (w : World) (q : Queue) (cs : List Command)
    → settles w q cs ≡ true
    → ((run_in_order w q cs).again ≡ false) ⊎ ((run_in_order w q cs).queue.command_on_fly ≡ true)
unfolding run_in_order
run_in_order-settles w q [] h = inl refl
run_in_order-settles w q (c ∷ cs) h = elim (Bool-cases q.command_on_fly) [
  | inl fly ↦ inl (rw fly)
  | inr idle ↦ inr (ground arith)
]

run_in_order-on_fly :
    (w : World) (q : Queue) (cs : List Command)
    → q.command_on_fly ≡ true
    → (run_in_order w q cs).again ≡ false
unfolding run_in_order
run_in_order-on_fly w q [] h = refl
run_in_order-on_fly w q (c ∷ cs) h = ground arith

run_by_type-on_fly :
    (ty : QueueType) (w : World) (q : Queue)
    → q.command_on_fly ≡ true
    → (run_by_type ty w q).again ≡ false
unfolding run_by_type
run_by_type-on_fly out_of_order w q h = refl
run_by_type-on_fly in_order w q h = run_in_order-on_fly w q q.commands h

run_by_type-settles :
    (ty : QueueType) (w : World) (q : Queue)
    → settles w q q.commands ≡ true
    → ((run_by_type ty w q).again ≡ false) ⊎ ((run_by_type ty w q).queue.command_on_fly ≡ true)
unfolding run_by_type
run_by_type-settles out_of_order w q h = inl refl
run_by_type-settles in_order w q h = run_in_order-settles w q q.commands h

-- Flush ends within two rounds of the scheduler if the queue is empty, a command is on fly, or the
-- first command is ready and the device accepts it, while the events and the device stay as they
-- are.
pub flush-settles :
    (w : World) (q : Queue) (fuel : ℕ)
    → settles w q q.commands ≡ true
    → (q' : Queue) × (flush w (suc (suc fuel)) q ≡ some q')
unfolding flush run_scheduler
flush-settles w q fuel h =
    let s = run_by_type q.ty w q in
    elim (Bool-cases s.again) [
      | inr stop ↦ (s.queue, rw stop)
      | inl more ↦ (
        (run_by_type s.queue.ty w s.queue).queue,
        rw more (
            rw (
              run_by_type-on_fly s.queue.ty w s.queue
                (ground (arith, run_by_type-settles q.ty w q h)))),
      )
    ]
