-- ===== src/Tests/Event.antt =====
-- A history of an event (lib/Core/Event.cpp).
use open_crun.Prelude.{◌≡◌, refl, true, List, [], ◌∷◌, some}
use open_crun.Event.{
  Event, Call, add_callback, mark_submitted, mark_running, mark_complete, call, run, must_wait,
  new_internal_event, complete, running,
}
use open_crun.Event.Status.{call-broadcast}
use open_crun.Event.Callbacks.{callback_once, notifications, registrations}

-- Callback 7 is registered for the end before the start and after the end.
abbrev history : List Call
history =
    add_callback complete (some 7)
    ∷ mark_submitted
    ∷ mark_running
    ∷ add_callback running (some 8)
    ∷ mark_complete complete
    ∷ add_callback complete (some 7)
    ∷ []

callback_once_example :
    notifications 7 complete (run history new_internal_event).1 ≡ registrations 7 complete history
callback_once_example = callback_once 7 complete history refl

abbrev running_event : Event
running_event = record new_internal_event { status = running }

call-broadcast_example : (call (mark_complete complete) running_event).1.broadcast ≡ true
unfolding call must_wait
call-broadcast_example = call-broadcast (mark_complete complete) running_event refl refl

-- Callback 7 is registered for the end, and later again, before the error.
abbrev failing : List Call
failing =
    add_callback complete (some 7)
    ∷ mark_submitted
    ∷ add_callback complete (some 7)
    ∷ mark_running
    ∷ []
