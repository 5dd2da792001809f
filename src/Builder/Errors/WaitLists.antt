-- ===== src/Builder/Errors/WaitLists.antt =====
-- What it takes for `SetWaitList` of a builder to end without an error (CommandBuilder::SetWaitList
-- and its overrides, lib/Core/Command.cpp).
use open_crun.Prelude.{
  ℕ, zero, suc, ◌≡◌, refl, subst, ◌∙◌, Bool, true, false, ◌&&◌, List, [], ◌∷◌, ◌++◌, Option, none,
  some, arith, inl, inr, Bool-cases, Option-cases, if◌then◌else◌, ◌==◌, ◌>>=◌,
}
use mathlib.Core.List.{append_assoc, append-nil}
use open_crun.Builder.{
  Builder, Event, is_success, notify_error, push_events, set_base_wait_list, has_error, has_foreign,
  is_wait_list_inconsistent, check_contexts, set_checked_wait_list, set_blocking_wait_list,
}

abbrev pub IsOk : Builder → Type 0
IsOk b = is_success b.err_code ≡ true

-- The `n` events of the array from position `i` on, unless one is null.
abbrev pub events : (ℕ → Option Event) → ℕ → ℕ → Option (List Event)
events evs zero i = some []
events evs (suc n) i = evs i >>= λ e. events evs n (suc i) >>= λ es. some (e ∷ es)

-- The wait list that the caller asks for; `none` if its arguments are not valid.
abbrev pub requested : ℕ → Option (ℕ → Option Event) → Option (List Event)
requested n none = if n == 0 then some [] else none
requested n (some evs) = if n == 0 then none else events evs n 0

-- The list replaces the one of the builder.
abbrev pub with_list : List Event → Builder → Builder
with_list l b = record b { wait_list = b.wait_list ++ l }

push_events-failed :
    (evs : ℕ → Option Event) (n i : ℕ) (b : Builder)
    → events evs n i ≡ none
    → is_success (push_events evs n i b).err_code ≡ false
unfolding push_events notify_error is_success
push_events-failed evs zero i b h = cc
push_events-failed evs (suc n) i b h = elim (Option-cases (evs i)) [
  | inl null ↦ rw (null, push_events) refl
  | inr (e, at) ↦
      ground
        (arith, push_events-failed evs n (suc i) (record b { wait_list = b.wait_list ++ e ∷ [] }))
]

push_events-some :
    (evs : ℕ → Option Event) (n i : ℕ) (b : Builder) {l : List Event}
    → events evs n i ≡ some l
    → push_events evs n i b ≡ with_list l b
unfolding push_events
push_events-some evs zero i b h = ground (arith, append-nil b.wait_list)
push_events-some evs (suc n) i b h = elim (Option-cases (evs i)) [
  | inl null ↦ ground arith
  | inr (e, at) ↦ elim (Option-cases (events evs n (suc i))) [
    | inl bad ↦ ground arith
    | inr (l', rest) ↦ ground (
      arith,
      push_events-some evs n (suc i) (record b { wait_list = b.wait_list ++ e ∷ [] }) rest,
      append_assoc b.wait_list (e ∷ []) l',
    )
  ]
]

set_base_wait_list-failed :
    (n : ℕ) (evs : Option (ℕ → Option Event)) (b : Builder)
    → requested n evs ≡ none
    → is_success (set_base_wait_list n evs b).err_code ≡ false
unfolding set_base_wait_list notify_error is_success
set_base_wait_list-failed n none b h = ground arith
set_base_wait_list-failed n (some evs) b h = ground (arith, push_events-failed evs n 0 b)

set_base_wait_list-some :
    (n : ℕ) (evs : Option (ℕ → Option Event)) (b : Builder) {l : List Event}
    → requested n evs ≡ some l
    → set_base_wait_list n evs b ≡ with_list l b
unfolding set_base_wait_list
set_base_wait_list-some n none b h = ground (arith, append-nil b.wait_list)
set_base_wait_list-some n (some evs) b {l} h = elim (Bool-cases (n == 0)) [
  | inl e ↦ ground arith
  | inr e ↦ ground (arith, push_events-some evs n 0 b {l = l})
]

-- What a wait list has to be for the builder to accept it.
abbrev pub Accepts : Bool → ℕ → List Event → Type 0
Accepts blocking ctx l = (has_foreign ctx l ≡ false) × (blocking && has_error l ≡ false)

blocking_checks :
    (blocking : Bool) (n : ℕ) (evs : Option (ℕ → Option Event)) (b : Builder)
    → IsOk (set_blocking_wait_list blocking n evs b)
    → (set_blocking_wait_list blocking n evs b ≡ set_base_wait_list n evs b)
      × Accepts blocking (set_base_wait_list n evs b).context (set_base_wait_list n evs b).wait_list
unfolding set_blocking_wait_list check_contexts is_wait_list_inconsistent notify_error is_success
blocking_checks blocking n evs b ok = (ground arith, ground arith)

contexts_checks :
    (n : ℕ) (evs : Option (ℕ → Option Event)) (b : Builder)
    → IsOk (set_checked_wait_list n evs b)
    → (set_checked_wait_list n evs b ≡ set_base_wait_list n evs b)
      × (has_foreign (set_base_wait_list n evs b).context (set_base_wait_list n evs b).wait_list
          ≡ false)
unfolding set_checked_wait_list check_contexts notify_error is_success
contexts_checks n evs b ok = (ground arith, ground arith)

module _ (n : ℕ) (evs : Option (ℕ → Option Event)) (b : Builder) (empty : b.wait_list ≡ []) where
  -- The caller's list, where the builder that it is given to ends without an error.
  abbrev Given : Builder → Type 0
  Given b' = (l : List Event) × (requested n evs ≡ some l) × (b' ≡ record b { wait_list = l })

  pub set_base_wait_list-IsOk :
      IsOk (set_base_wait_list n evs b) → Given (set_base_wait_list n evs b)
  set_base_wait_list-IsOk ok = elim (Option-cases (requested n evs)) [
    | inl bad ↦ absurd (ground (arith, set_base_wait_list-failed n evs b bad))
    | inr (l, good) ↦ (l, good, ground (arith, set_base_wait_list-some n evs b {l = l}))
  ]

  -- A builder without an error after `SetWaitList` had none, and has the list of the caller.
  pub set_blocking_wait_list-IsOk :
      (blocking : Bool)
      → IsOk (set_blocking_wait_list blocking n evs b)
      → (l : List Event) × (requested n evs ≡ some l)
        × (set_blocking_wait_list blocking n evs b ≡ record b { wait_list = l })
        × Accepts blocking b.context l
  set_blocking_wait_list-IsOk blocking ok =
      let (same, accepts) = blocking_checks blocking n evs b ok in
      let (l, good, eq) = set_base_wait_list-IsOk (subst IsOk same ok) in
      (l, good, same ∙ eq, subst (λ b'. Accepts blocking b'.context b'.wait_list) eq accepts)

  pub set_checked_wait_list-IsOk :
      IsOk (set_checked_wait_list n evs b)
      → (l : List Event) × (requested n evs ≡ some l)
        × (set_checked_wait_list n evs b ≡ record b { wait_list = l })
        × (has_foreign b.context l ≡ false)
  set_checked_wait_list-IsOk ok =
      let (same, accepts) = contexts_checks n evs b ok in
      let (l, good, eq) = set_base_wait_list-IsOk (subst IsOk same ok) in
      (l, good, same ∙ eq, subst (λ b'. has_foreign b'.context b'.wait_list ≡ false) eq accepts)

  pub set_blocking_wait_list-Accepts :
      (blocking : Bool) {l : List Event}
      → requested n evs ≡ some l
      → Accepts blocking b.context l
      → set_blocking_wait_list blocking n evs b ≡ record b { wait_list = l }
  unfolding set_blocking_wait_list check_contexts is_wait_list_inconsistent
  set_blocking_wait_list-Accepts blocking {l} good accepts =
      rw (set_base_wait_list-some n evs b {l = l} good) (ground arith)

  pub set_checked_wait_list-unforeign :
      {l : List Event}
      → requested n evs ≡ some l
      → has_foreign b.context l ≡ false
      → set_checked_wait_list n evs b ≡ record b { wait_list = l }
  unfolding set_checked_wait_list check_contexts
  set_checked_wait_list-unforeign {l} good accepts =
      rw (set_base_wait_list-some n evs b {l = l} good) (ground arith)

-- No error is cleared.
push_events-sticky :
    (evs : ℕ → Option Event) (n i : ℕ) (b : Builder) → IsOk (push_events evs n i b) → IsOk b
unfolding push_events notify_error is_success
push_events-sticky evs zero i b ok = ok
push_events-sticky evs (suc n) i b ok = elim (Option-cases (evs i)) [
  | inl null ↦ absurd (ground arith)
  | inr (e, at) ↦
      push_events-sticky evs n (suc i) (record b { wait_list = b.wait_list ++ e ∷ [] })
        (ground arith)
]

pub set_base_wait_list-sticky :
    (n : ℕ) (evs : Option (ℕ → Option Event)) (b : Builder)
    → IsOk (set_base_wait_list n evs b)
    → IsOk b
unfolding set_base_wait_list notify_error is_success
set_base_wait_list-sticky n none b ok = ground arith
set_base_wait_list-sticky n (some evs) b ok = ground (arith, push_events-sticky evs n 0 b)

pub set_blocking_wait_list-sticky :
    (blocking : Bool) (n : ℕ) (evs : Option (ℕ → Option Event)) (b : Builder)
    → IsOk (set_blocking_wait_list blocking n evs b)
    → IsOk b
set_blocking_wait_list-sticky blocking n evs b ok =
    set_base_wait_list-sticky n evs b (subst IsOk (blocking_checks blocking n evs b ok).0 ok)

pub set_checked_wait_list-sticky :
    (n : ℕ) (evs : Option (ℕ → Option Event)) (b : Builder)
    → IsOk (set_checked_wait_list n evs b)
    → IsOk b
set_checked_wait_list-sticky n evs b ok =
    set_base_wait_list-sticky n evs b (subst IsOk (contexts_checks n evs b ok).0 ok)
