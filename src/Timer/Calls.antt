-- ===== src/Timer/Calls.antt =====
-- The calls of a `Timer` of lib/utils/src/Timer.cpp and their invariant.
use spot_grid_bot.Base.{
  ℕ, ◌+◌, ◌<◌, ◌≡◌, refl, inl, inr, Bool, true, false, Option, none, some, arith, ◌==◌,
  if◌then◌else◌, Option-cases,
}
use spot_grid_bot.Timer.{
  Task, TaskMap, Timer, extract_first, next_key, max, start_timer, schedule_at, schedule, cancel,
  cancel_all, move_first, with_action, reschedule, execute_delayed, begin_stop_timer,
  end_stop_timer,
}
use spot_grid_bot.Timer.Steps.{
  Step, Reach, IsWell, moved-IsWell, entered-IsWell, erased-IsWell, forgotten-IsWell,
  cleared-IsWell,
}
use spot_grid_bot.Timer.Invariant.{take-IsWell, put_back-IsWell}

pub next_key_later : (last now : ℕ) → last < next_key last now
unfolding next_key
next_key_later last now = ground arith

module _ {A : Type 0} where
  -- Fields that the invariant does not read
  switched-IsWell :
      (tm : Timer A) (n : ℕ) (b : Bool)
      → IsWell tm
      → IsWell (record tm { threads = n; shutdown = b })
  unfolding IsWell
  switched-IsWell tm n b h = h

  schedule_at-IsWell :
      (tm : Timer A) (now random name : ℕ) (action : Option A) (first interval : ℕ)
      → IsWell tm
      → IsWell (schedule_at A now random tm name action first interval).0
  unfolding schedule_at
  schedule_at-IsWell tm now random name none first interval h = h
  schedule_at-IsWell tm now random name (some action) first interval h =
      let key = next_key tm.last_key now in
      let proposed = max (if first == 0 then now + random else first) now in
      let task : Task A = record {
        id = key;
        name = name;
        action = action;
        scheduled_time = 0;
        interval = interval;
      } in
      ground (arith, h, entered-IsWell tm task proposed key (next_key_later tm.last_key now) refl h)

  cancel-IsWell : (tm : Timer A) (id : ℕ) → IsWell tm → IsWell (cancel A tm id).0
  unfolding cancel
  cancel-IsWell tm id h = elim (Option-cases (extract_first A (λ t. t.id == id) tm.task_map)) [
    | inl n ↦ ground (arith, h, forgotten-IsWell tm id h)
    | inr ((t, m), n) ↦ ground (arith, h, erased-IsWell tm (λ u. u.id == id) t m n h)
  ]

  -- What both calls that move a task do
  move_first-IsWell :
      (tm : Timer A) (p : Task A → Bool) (change : Task A → Task A) (proposed : ℕ) (t : Task A)
      (m : TaskMap A)
      → ((u : Task A) → (change u).id ≡ u.id)
      → move_first A p change proposed tm.task_map ≡ some (t, m)
      → IsWell tm
      → IsWell (record tm { task_map = m })
  unfolding move_first
  move_first-IsWell tm p change proposed t m same x h =
      elim (Option-cases (extract_first A p tm.task_map)) [
        | inl n ↦ ground (arith, n)
        | inr ((u, rest), n) ↦
            ground (arith, n, x, moved-IsWell tm p u (change u) rest proposed n (same u) h)
      ]

  pub id-with_action : (action : Option A) (u : Task A) → (with_action A action u).id ≡ u.id
  id-with_action none u = refl
  id-with_action (some a) u = refl

  reschedule-IsWell :
      (tm : Timer A) (now id next_time : ℕ) (action : Option A)
      → IsWell tm
      → IsWell (reschedule A now tm id next_time action).0
  unfolding reschedule
  reschedule-IsWell tm now id next_time action h =
      let p : Task A → Bool = λ t. t.id == id in
      let change = with_action A action in
      elim (Option-cases (move_first A p change (max next_time now) tm.task_map)) [
        | inl n ↦ ground (arith, h, n)
        | inr ((t, m), n) ↦ ground (
          arith,
          h,
          n,
          move_first-IsWell tm p change (max next_time now) t m (id-with_action action) n h,
        )
      ]

  execute_delayed-IsWell :
      (tm : Timer A) (now later random name : ℕ) (action : Option A) (delay : ℕ)
      → IsWell tm
      → IsWell (execute_delayed A now later random tm name action delay).0
  unfolding execute_delayed schedule
  execute_delayed-IsWell tm now later random name none delay h = h
  execute_delayed-IsWell tm now later random name (some action) delay h =
      let change : Task A → Task A = λ t. record t { action = action } in
      let p : Task A → Bool = λ t. t.name == name in
      elim (Option-cases (move_first A p change (now + delay) tm.task_map)) [
        | inl n ↦
            ground (
              arith,
              h,
              n,
              schedule_at-IsWell tm later random name (some action) (later + delay) 0 h,
            )
        | inr ((t, m), n) ↦
            ground (arith, h, n, move_first-IsWell tm p change (now + delay) t m (λ u. refl) n h)
      ]

  cancel_all-IsWell : (tm : Timer A) → IsWell tm → IsWell (cancel_all A tm).0
  unfolding cancel_all
  cancel_all-IsWell tm h = ground (arith, h, cleared-IsWell tm h)

  Step-IsWell : {s t : Timer A} → Step s t → IsWell s → IsWell t
  unfolding start_timer begin_stop_timer end_stop_timer
  Step-IsWell (Step.start_call tm size n) h = ground (arith, h, switched-IsWell tm n tm.shutdown h)
  Step-IsWell (Step.schedule_call tm now random name action first interval) h =
      schedule_at-IsWell tm now random name action first interval h
  Step-IsWell (Step.cancel_call tm id) h = cancel-IsWell tm id h
  Step-IsWell (Step.cancel_all_call tm) h = cancel_all-IsWell tm h
  Step-IsWell (Step.reschedule_call tm now id next_time action) h =
      reschedule-IsWell tm now id next_time action h
  Step-IsWell (Step.delayed_call tm now later random name action delay) h =
      execute_delayed-IsWell tm now later random name action delay h
  Step-IsWell (Step.take_step tm now t tm' x) h = take-IsWell tm now t tm' tm.task_map refl x h
  Step-IsWell (Step.put_back_step tm now l t r action again interval x) h =
      put_back-IsWell tm now l t r action again interval x h
  Step-IsWell (Step.stop_call tm) h =
      let tm' = (cancel_all A tm).0 in
      let h' = cancel_all-IsWell tm h in ground (arith, h', switched-IsWell tm' tm'.threads true h')
  Step-IsWell (Step.join_step tm x) h = ground (arith, h, switched-IsWell tm 0 false h)

  -- Whatever its users and its threads do in whatever order, a timer's map is in the order of its
  -- times, each the scheduled time of its task; an id belongs to at most one task, in the map or
  -- in a thread, and was issued; and what is pending is being executed.
  pub Reach-IsWell : {s t : Timer A} → IsWell s → Reach s t → IsWell t
  Reach-IsWell h Reach.here = h
  Reach-IsWell h (Reach.next r st) = Step-IsWell st (Reach-IsWell h r)
