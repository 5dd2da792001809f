-- ===== src/Event.antt =====
-- Event, InternalEvent and UserEvent (lib/Core/Event.cpp and include/opencrun/Core/Event.h). The
-- monitor makes each method one step, so a history of an event is a list of calls.
pub mod Status
pub mod Callbacks
use open_crun.Prelude.{
  ℕ, ◌+◌, Bool, true, false, ◌&&◌, ◌||◌, not, List, [], ◌∷◌, ◌++◌, map, Option, none, some,
  if◌then◌else◌, ltb, ◌==◌, ℤ, pos, negsuc, ltb_ℤ, leb_ℤ, eq_ℤ,
}

-- The execution statuses of a command (CL/cl.h); an error is a negative status.
abbrev pub complete : ℤ
complete = pos 0

abbrev pub running : ℤ
running = pos 1

abbrev pub submitted : ℤ
submitted = pos 2

abbrev pub queued : ℤ
queued = pos 3

pub data EventType : Type 0 where
  internal_event user_event : EventType

-- The callbacks of each status in the order of their registration. A closure with no function to
-- call is `none`.
pub record Event : Type 0 where
  pub ty : EventType
  pub status : ℤ
  pub callbacks : List (ℤ × Option ℕ)

-- What a call lets others see: the notifications, as (callback, status) in order, and whether the
-- waiting threads were woken.
pub record Effects : Type 0 where
  pub notified : List (ℕ × ℤ)
  pub broadcast : Bool

unfoldable pub has_completed : Event → Bool
has_completed e = eq_ℤ e.status complete || ltb_ℤ e.status (pos 0)

unfoldable pub is_error : Event → Bool
is_error e = ltb_ℤ e.status (pos 0)

-- The condition under which `Wait` sleeps again.
unfoldable pub must_wait : Event → Bool
must_wait e = not (eq_ℤ e.status complete) && leb_ℤ (pos 0) e.status

-- EventCallbackClojure::Notify
unfoldable pub notify : Option ℕ → ℤ → List (ℕ × ℤ)
notify none st = []
notify (some c) st = (c, st) ∷ []

unfoldable pub notify_all : List (ℤ × Option ℕ) → ℤ → List (ℕ × ℤ)
unfolding notify
notify_all [] st = []
notify_all ((k, c) ∷ cs) st =
    let rest = notify_all cs st in if eq_ℤ k st then notify c st ++ rest else rest

unfoldable pub add_event_callback : ℤ → Option ℕ → Event → Event × Effects
unfolding notify
add_event_callback ty c e =
    if leb_ℤ e.status ty then (e, record { notified = notify c ty; broadcast = false }) else (
      record e { callbacks = e.callbacks ++ (ty, c) ∷ [] },
      record { notified = []; broadcast = false },
    )

unfoldable pub signal : ℤ → Event → Event × Effects
unfolding notify_all
signal st e = (
  record e { status = if ltb_ℤ st e.status then st else e.status },
  record { notified = notify_all e.callbacks st; broadcast = eq_ℤ st complete || ltb_ℤ st (pos 0) },
)

-- UserEvent::SetStatus
unfoldable pub set_status : ℤ → Event → Event × Effects × Bool
unfolding signal
set_status st e =
    if not (eq_ℤ e.status submitted)
    then (e, record { notified = []; broadcast = false }, false)
    else (let (e', f) = signal st e in (e', f, true))

-- InternalEvent::MarkCompleted: a status that is no end is reported and ignored.
unfoldable pub mark_completed : ℤ → Event → Event × Effects
unfolding signal
mark_completed st e =
    if not (eq_ℤ st complete) && leb_ℤ (pos 0) st
    then (e, record { notified = []; broadcast = false })
    else signal st e

unfoldable pub new_internal_event : Event
new_internal_event = record { ty = internal_event; status = queued; callbacks = [] }

unfoldable pub new_user_event : Event
new_user_event = record { ty = user_event; status = submitted; callbacks = [] }

-- The calls on an internal event: a registration by the application, and the marks of the runtime.
pub data Call : Type 0 where
  add_callback : ℤ → Option ℕ → Call
  mark_submitted mark_running : Call
  mark_complete : ℤ → Call

unfoldable pub call : Call → Event → Event × Effects
unfolding add_event_callback signal mark_completed
call (add_callback ty c) e = add_event_callback ty c e
call mark_submitted e = signal submitted e
call mark_running e = signal running e
call (mark_complete st) e = mark_completed st e

unfoldable pub run : List Call → Event → Event × List (ℕ × ℤ)
run [] e = (e, [])
run (c ∷ cs) e = let (e', f) = call c e in let (e'', log) = run cs e' in (e'', f.notified ++ log)
