-- ===== src/Event/Callbacks.antt =====
-- How often a callback is notified.
use open_crun.Prelude.{
  ℕ, ◌+◌, ◌≡◌, refl, Bool, true, false, ◌&&◌, not, List, [], ◌∷◌, ◌++◌, Option, none, some, arith,
  ◌==◌, if◌then◌else◌, Bool-cases, inl, inr, ℤ, ◌≤ℤ◌, eq_ℤ, leb_ℤ,
}
use open_crun.Event.{
  Event, Call, add_callback, mark_submitted, mark_running, mark_complete, call, run, notify,
  notify_all, signal, add_event_callback, mark_completed, new_internal_event, complete, running,
  submitted, has_completed,
}
use open_crun.Event.Status.{call-le}

abbrev pub one : Bool → ℕ
one true = 1
one false = 0

abbrev pub is_callback : ℕ → Option ℕ → Bool
is_callback c none = false
is_callback c (some c') = c' == c

-- Notifications of callback c with status k in a log.
abbrev pub notifications : ℕ → ℤ → List (ℕ × ℤ) → ℕ
notifications c k [] = 0
notifications c k ((c', k') ∷ log) = one (eq_ℤ k' k && c' == c) + notifications c k log

-- Registrations of c for k that wait for a signal.
abbrev pub waiting : ℕ → ℤ → List (ℤ × Option ℕ) → ℕ
waiting c k [] = 0
waiting c k ((k', c') ∷ cs) = one (eq_ℤ k' k && is_callback c c') + waiting c k cs

-- Registrations of c for k in a history.
abbrev pub registrations : ℕ → ℤ → List Call → ℕ
registrations c k [] = 0
registrations c k (add_callback k' c' ∷ cs) =
    one (eq_ℤ k' k && is_callback c c') + registrations c k cs
registrations c k (_ ∷ cs) = registrations c k cs

-- How often a history signals exactly the status k.
abbrev pub is_mark : ℤ → Call → Bool
is_mark k (add_callback _ _) = false
is_mark k mark_submitted = eq_ℤ submitted k
is_mark k mark_running = eq_ℤ running k
is_mark k (mark_complete st) = leb_ℤ st complete && eq_ℤ st k

abbrev pub marks : ℤ → List Call → ℕ
marks k [] = 0
marks k (c ∷ cs) = one (is_mark k c) + marks k cs

module _ (c : ℕ) (k : ℤ) where
  notifications-append :
      (xs ys : List (ℕ × ℤ))
      → notifications c k (xs ++ ys) ≡ notifications c k xs + notifications c k ys
  notifications-append [] ys = omega arith
  notifications-append ((c', k') ∷ xs) ys = omega (arith, notifications-append xs ys)

  waiting-append :
      (xs ys : List (ℤ × Option ℕ)) → waiting c k (xs ++ ys) ≡ waiting c k xs + waiting c k ys
  waiting-append [] ys = omega arith
  waiting-append ((k', c') ∷ xs) ys = omega (arith, waiting-append xs ys)

  notify-notifications :
      (c' : Option ℕ) (st : ℤ)
      → notifications c k (notify c' st) ≡ one (eq_ℤ st k && is_callback c c')
  unfolding notify
  notify-notifications none st = ground arith
  notify-notifications (some c') st = omega arith

  -- A signal of st notifies those that wait for it.
  notify_all-notifications :
      (cs : List (ℤ × Option ℕ)) (st : ℤ)
      → notifications c k (notify_all cs st) ≡ (if eq_ℤ st k then waiting c k cs else 0)
  unfolding notify_all
  notify_all-notifications [] st = ground arith
  notify_all-notifications ((k', c') ∷ cs) st = elim (Bool-cases (eq_ℤ k' st)) [
    | inl at ↦ rw at (
        ground (
          arith,
          notifications-append (notify c' st) (notify_all cs st),
          notify-notifications c' st,
          notify_all-notifications cs st,
        ))
    | inr other ↦ rw other (ground (arith, notify_all-notifications cs st))
  ]

  abbrev registered_by : Call → ℕ
  registered_by x = registrations c k (x ∷ [])

  -- What one call adds to the notifications, and to those that wait.
  call-notifications :
      (x : Call) (e : Event)
      → notifications c k (call x e).1.notified
          + (if is_mark k x then 0 else waiting c k (call x e).0.callbacks)
        ≡ registered_by x + waiting c k e.callbacks
  unfolding call add_event_callback signal mark_completed
  call-notifications (add_callback k' c') e =
      ground (arith, notify-notifications c' k', waiting-append e.callbacks ((k', c') ∷ []))
  call-notifications mark_submitted e =
      ground (arith, notify_all-notifications e.callbacks submitted)
  call-notifications mark_running e = ground (arith, notify_all-notifications e.callbacks running)
  call-notifications (mark_complete st) e = ground (arith, notify_all-notifications e.callbacks st)

  -- Once the status has been reached, a registration is notified at once.
  call-notifications_late :
      (x : Call) (e : Event)
      → e.status ≤ℤ k
      → is_mark k x ≡ false
      → notifications c k (call x e).1.notified ≡ registered_by x
  unfolding call add_event_callback signal mark_completed
  call-notifications_late (add_callback k' c') e h m = ground (arith, notify-notifications c' k')
  call-notifications_late mark_submitted e h m =
      ground (arith, notify_all-notifications e.callbacks submitted)
  call-notifications_late mark_running e h m =
      ground (arith, notify_all-notifications e.callbacks running)
  call-notifications_late (mark_complete st) e h m =
      ground (arith, notify_all-notifications e.callbacks st)

  call-mark : (x : Call) (e : Event) → is_mark k x ≡ true → (call x e).0.status ≤ℤ k
  unfolding call signal mark_completed
  call-mark (add_callback k' c') e m = cc
  call-mark mark_submitted e m = ground arith
  call-mark mark_running e m = ground arith
  call-mark (mark_complete st) e m = ground arith

  registrations-cons :
      (x : Call) (cs : List Call)
      → registrations c k (x ∷ cs) ≡ registered_by x + registrations c k cs
  registrations-cons (add_callback k' c') cs = omega arith
  registrations-cons mark_submitted cs = omega arith
  registrations-cons mark_running cs = omega arith
  registrations-cons (mark_complete st) cs = omega arith

  run-notifications_late :
      (cs : List Call) (e : Event)
      → e.status ≤ℤ k
      → marks k cs ≡ 0
      → notifications c k (run cs e).1 ≡ registrations c k cs
  unfolding run
  run-notifications_late [] e h m = refl
  run-notifications_late (x ∷ cs) e h m =
      let low : is_mark k x ≡ false = ground arith in
      omega (
        arith,
        notifications-append (call x e).1.notified (run cs (call x e).0).1,
        call-notifications_late x e h low,
        run-notifications_late cs (call x e).0 (omega (arith, call-le x e)) (ground arith),
        registrations-cons x cs,
      )

  run-notifications :
      (cs : List Call) (e : Event)
      → marks k cs ≡ 1
      → notifications c k (run cs e).1 ≡ waiting c k e.callbacks + registrations c k cs
  unfolding run
  run-notifications [] e m = absurd (omega arith)
  run-notifications (x ∷ cs) e m = elim (Bool-cases (is_mark k x)) [
    | inl now ↦ ground (
      arith,
      notifications-append (call x e).1.notified (run cs (call x e).0).1,
      call-notifications x e,
      run-notifications_late cs (call x e).0 (call-mark x e now),
      registrations-cons x cs,
    )
    | inr later ↦ ground (
      arith,
      notifications-append (call x e).1.notified (run cs (call x e).0).1,
      call-notifications x e,
      run-notifications cs (call x e).0,
      registrations-cons x cs,
    )
  ]

  -- In a history of an internal event that signals status k exactly once, a callback is notified of
  -- k exactly as often as it is registered for k, whether the registration comes before or after
  -- the signal.
  pub callback_once :
      (cs : List Call)
      → marks k cs ≡ 1
      → notifications c k (run cs new_internal_event).1 ≡ registrations c k cs
  unfolding new_internal_event
  callback_once cs m = omega (arith, run-notifications cs new_internal_event m)

-- Whether no call of a history ends the command.
abbrev pub ends : Call → Bool
ends (mark_complete st) = leb_ℤ st complete
ends _ = false

abbrev pub no_end : List Call → Bool
no_end [] = true
no_end (x ∷ cs) = not (ends x) && no_end cs

-- The command has ended, and the callback was not notified of its completion.
abbrev pub EndsUnnotified : ℕ → List Call → Event → Type 0
EndsUnnotified c history e =
    (has_completed (run history e).0 ≡ true) × (notifications c complete (run history e).1 ≡ 0)
