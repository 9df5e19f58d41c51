-- ===== src/Timer/Due.antt =====
-- The service of a `Timer` of lib/utils/src/Timer.cpp: a scheduled task enters the map, and the task
-- taken from it is the earliest one.
use spot_grid_bot.Base.{
  ℕ, ◌+◌, ◌≤◌, ◌<◌, ◌≡◌, refl, subst, true, false, some, [], ◌∷◌, arith, ◌==◌, if◌then◌else◌, has,
  All, is_some,
}
use spot_grid_bot.Timer.{
  Task, TaskMap, Timer, find_time, emplace, get_unused_schedule_time, next_key, max, is_up,
  schedule_at, take_due,
}
use spot_grid_bot.Timer.Unused.{get_unused_schedule_time_lem, IsSortedMap, emplace-new}
use spot_grid_bot.Timer.Steps.{IsWell}
use spot_grid_bot.Timer.Calls.{next_key_later}

module _ {A : Type 0} where
  find_time-emplace :
      (j k : ℕ) (t : Task A) (m : TaskMap A)
      → is_some (find_time A k m) ≡ false
      → find_time A j (emplace A k t m).0 ≡ (if k == j then some t else find_time A j m)
  unfolding find_time emplace
  find_time-emplace j k t [] h = refl
  find_time-emplace j k t ((i, u) ∷ m) h = ground (arith, find_time-emplace j k t m)

  -- On a running timer `ScheduleAt` always succeeds: the answer is a new id, and at some time,
  -- which is not before now nor before a given first time, the map has a task with this id and
  -- the given name, action and interval; every task that was there stays at its time.
  pub schedule_at-entered :
      (tm : Timer A) (now random name : ℕ) (action : A) (first interval : ℕ)
      → is_up A tm ≡ true
      → (time key : ℕ) × (now ≤ time)
        × (first ≤ time)
        × (tm.last_key < key)
        × (let (tm', answer) = schedule_at A now random tm name (some action) first interval in
            (answer ≡ some key)
            × ((j : ℕ)
                → find_time A j tm'.task_map ≡ (
                    if time == j
                    then some (record {
                      id = key;
                      name = name;
                      action = action;
                      scheduled_time = time;
                      interval = interval;
                    })
                    else find_time A j tm.task_map))
            × (is_some (find_time A time tm.task_map) ≡ false))
  unfolding schedule_at
  schedule_at-entered tm now random name action first interval up =
      let key = next_key tm.last_key now in
      let proposed = max (if first == 0 then now + random else first) now in
      let time = get_unused_schedule_time A tm.task_map proposed in
      let task : Task A = record {
        id = key;
        name = name;
        action = action;
        scheduled_time = time;
        interval = interval;
      } in
      let (le, free, _) = get_unused_schedule_time_lem tm.task_map proposed in
      (
        time,
        key,
        ground (arith, le),
        ground (arith, le),
        next_key_later tm.last_key now,
        (
          ground (arith, up, emplace-new time task tm.task_map free),
          (λ j. ground (arith, up, find_time-emplace j time task tm.task_map free)),
          free,
        ),
      )

  take_due_head :
      (tm : Timer A) (now : ℕ) (m : TaskMap A) (t : Task A) (tm' : Timer A)
      → tm.task_map ≡ m
      → take_due A now tm ≡ some (t, tm')
      → IsSortedMap m
      → All (λ e. e.1.scheduled_time ≡ e.0) m
      → (t.scheduled_time ≤ now)
        × All (λ e. t.scheduled_time < e.0) tm'.task_map
        × (m ≡ (t.scheduled_time, t) ∷ tm'.task_map)
        × (has tm'.pending_tasks t.id ≡ true)
        × (tm'.executing ≡ t ∷ tm.executing)
  unfolding take_due IsSortedMap
  take_due_head tm now [] t tm' e x s a = ground arith
  take_due_head tm now ((k, u) ∷ m) t tm' e x (later, s) (same, a) =
      let t_is : u ≡ t = ground arith in
      let m_is : m ≡ tm'.task_map = ground arith in
      let k_is : k ≡ t.scheduled_time = ground arith in
      (
        ground arith,
        subst (All (λ i. t.scheduled_time < i.0)) m_is
            (subst (λ j. All (λ i. j < i.0) m) k_is later),
        ground arith,
        ground arith,
        ground arith,
      )

  -- The task that a thread takes is due, its time is before that of every task that stays in the
  -- map, it alone leaves the map, and it becomes pending and is executed.
  pub take_due-first :
      (tm : Timer A) (now : ℕ) (t : Task A) (tm' : Timer A)
      → IsWell tm
      → take_due A now tm ≡ some (t, tm')
      → (t.scheduled_time ≤ now)
        × All (λ e. t.scheduled_time < e.0) tm'.task_map
        × (tm.task_map ≡ (t.scheduled_time, t) ∷ tm'.task_map)
        × (has tm'.pending_tasks t.id ≡ true)
        × (tm'.executing ≡ t ∷ tm.executing)
  unfolding IsWell
  take_due-first tm now t tm' (s, a, _, _, _) x = take_due_head tm now tm.task_map t tm' refl x s a
