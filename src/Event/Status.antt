-- ===== src/Event/Status.antt =====
-- The status of an event only falls, and who waits is woken.
use open_crun.Prelude.{◌≡◌, true, false, arith, ◌≤ℤ◌}
use open_crun.Event.{
  Event, Call, add_callback, mark_submitted, mark_running, mark_complete, call, must_wait,
}

pub call-le : (c : Call) (e : Event) → (call c e).0.status ≤ℤ e.status
unfolding call
call-le (add_callback ty c) e = ground arith
call-le mark_submitted e = ground arith
call-le mark_running e = ground arith
call-le (mark_complete st) e = ground arith

-- No wake-up is lost: if a waiter must sleep before a call on the event and may return after it,
-- the call has woken the waiters.
pub call-broadcast :
    (c : Call) (e : Event)
    → must_wait e ≡ true
    → must_wait (call c e).0 ≡ false
    → (call c e).1.broadcast ≡ true
unfolding call must_wait
call-broadcast (add_callback ty c) e h k = ground arith
call-broadcast mark_submitted e h k = ground arith
call-broadcast mark_running e h k = ground arith
call-broadcast (mark_complete st) e h k = ground arith
