-- ===== src/Timer/Gone.antt =====
-- That no step of a `Timer` of lib/utils/src/Timer.cpp brings a task back that is gone.
use spot_grid_bot.Base.{
  ℕ, ◌+◌, ◌≤◌, ◌≡◌, refl, ◌∙◌, inl, inr, Bool, false, Option, none, some, List, arith, ◌==◌,
  if◌then◌else◌, has, has-keep, Bool-cases, Option-cases, ==→eq,
}
use spot_grid_bot.Timer.{
  Task, TaskMap, Timer, emplace, extract_first, get_unused_schedule_time, next_key, max,
  schedule_at, schedule, cancel, move_first, with_action, reschedule, execute_delayed, take_due,
  put_back,
}
use spot_grid_bot.Timer.Unused.{get_unused_schedule_time_lem, count_tasks, count-emplace}
use spot_grid_bot.Timer.Entries.{count-extract_first}
use spot_grid_bot.Timer.Steps.{has_id, scheduled, count-moved}
use spot_grid_bot.Timer.Calls.{next_key_later, id-with_action}

module _ {A : Type 0} (i : ℕ) where
  -- A task with the issued id `i` is neither scheduled nor pending: it can only be in a thread,
  -- which will not put it back.
  unfoldable pub IsGone : Timer A → Type 0
  IsGone tm = (scheduled i tm ≡ 0) × (has tm.pending_tasks i ≡ false) × (i ≤ tm.last_key)

  pub schedule_at-IsGone :
      (tm : Timer A) (now random name : ℕ) (action : Option A) (first interval : ℕ)
      → IsGone tm
      → IsGone (schedule_at A now random tm name action first interval).0
  unfolding IsGone schedule_at
  schedule_at-IsGone tm now random name none first interval h = h
  schedule_at-IsGone tm now random name (some action) first interval (c, p, l) =
      let key = next_key tm.last_key now in
      let proposed = max (if first == 0 then now + random else first) now in
      let time = get_unused_schedule_time A tm.task_map proposed in
      let task : Task A = record {
        id = key;
        name = name;
        action = action;
        scheduled_time = time;
        interval = interval;
      } in
      let (_, free, _) = get_unused_schedule_time_lem tm.task_map proposed in
      let later = next_key_later tm.last_key now in
      let same : count_tasks (has_id i) (emplace A time task tm.task_map).0 ≡ 0 =
        ground (arith, c, l, later, count-emplace (has_id i) time task tm.task_map free) in
      (ground (arith, c, same), ground (arith, p), ground (arith, l, later))

  pub cancel-IsGone : (tm : Timer A) (id : ℕ) → IsGone tm → IsGone (cancel A tm id).0
  unfolding IsGone cancel
  cancel-IsGone tm id (c, p, l) =
      let q : Task A → Bool = λ t. t.id == id in
      elim (Option-cases (extract_first A q tm.task_map)) [
        | inl n ↦ (
          ground (arith, c, n),
          ground (arith, p, n, has-keep id i tm.pending_tasks),
          ground (arith, l, n),
        )
        | inr ((t, m), n) ↦ (
          ground (arith, c, n, count-extract_first q (has_id i) tm.task_map t m n),
          ground (arith, p, n),
          ground (arith, l, n),
        )
      ]

  move_first_count :
      (tm : Timer A) (p : Task A → Bool) (change : Task A → Task A) (proposed : ℕ) (t : Task A)
      (m : TaskMap A)
      → ((u : Task A) → (change u).id ≡ u.id)
      → move_first A p change proposed tm.task_map ≡ some (t, m)
      → count_tasks (has_id i) m ≡ scheduled i tm
  unfolding move_first
  move_first_count tm p change proposed t m same x =
      elim (Option-cases (extract_first A p tm.task_map)) [
        | inl n ↦ ground (arith, n)
        | inr ((u, rest), n) ↦
            ground (arith, n, x, count-moved tm p u (change u) rest proposed i n (same u))
      ]

  pub reschedule-IsGone :
      (tm : Timer A) (now id next_time : ℕ) (action : Option A)
      → IsGone tm
      → IsGone (reschedule A now tm id next_time action).0
  unfolding IsGone reschedule
  reschedule-IsGone tm now id next_time action (c, p, l) =
      let q : Task A → Bool = λ t. t.id == id in
      let change = with_action A action in
      elim (Option-cases (move_first A q change (max next_time now) tm.task_map)) [
        | inl n ↦ (ground (arith, c, n), ground (arith, p, n), ground (arith, l, n))
        | inr ((t, m), n) ↦ (
          ground (
            arith,
            c,
            n,
            move_first_count tm q change (max next_time now) t m (id-with_action action) n,
          ),
          ground (arith, p, n),
          ground (arith, l, n),
        )
      ]

  pub same_count-IsGone :
      (tm : Timer A) (m : TaskMap A)
      → count_tasks (has_id i) m ≡ scheduled i tm
      → IsGone tm
      → IsGone (record tm { task_map = m })
  unfolding IsGone
  same_count-IsGone tm m e (c, p, l) = (e ∙ c, p, l)

  pub execute_delayed-IsGone :
      (tm : Timer A) (now later random name : ℕ) (action : Option A) (delay : ℕ)
      → IsGone tm
      → IsGone (execute_delayed A now later random tm name action delay).0
  unfolding execute_delayed schedule
  execute_delayed-IsGone tm now later random name none delay h = h
  execute_delayed-IsGone tm now later random name (some action) delay h =
      let change : Task A → Task A = λ t. record t { action = action } in
      let q : Task A → Bool = λ t. t.name == name in
      elim (Option-cases (move_first A q change (now + delay) tm.task_map)) [
        | inl n ↦
            ground (
              arith,
              h,
              n,
              schedule_at-IsGone tm later random name (some action) (later + delay) 0 h,
            )
        | inr ((t, m), n) ↦ ground (
          arith,
          h,
          n,
          same_count-IsGone tm m (move_first_count tm q change (now + delay) t m (λ u. refl) n) h,
        )
      ]

  pub put_back-IsGone :
      (tm : Timer A) (now : ℕ) (l : List (Task A)) (t : Task A) (r : List (Task A)) (action : A)
      (again interval : ℕ)
      → IsGone tm
      → IsGone (put_back A now tm l t r action again interval)
  unfolding IsGone put_back
  put_back-IsGone tm now l t r action again interval (c, p, b) =
      let proposed = max (again + interval) now in
      let time = get_unused_schedule_time A tm.task_map proposed in
      let u : Task A = record t { action = action; scheduled_time = time; interval = interval } in
      let (_, free, _) = get_unused_schedule_time_lem tm.task_map proposed in
      let more = count-emplace (has_id i) time u tm.task_map free in
      elim (Bool-cases (t.id == i)) [
        | inl q ↦ (
          ground (arith, c, p, ==→eq t.id i q),
          ground (arith, p, has-keep t.id i tm.pending_tasks),
          ground (arith, b),
        )
        | inr q ↦ (
          ground (arith, c, more, q),
          ground (arith, p, has-keep t.id i tm.pending_tasks),
          ground (arith, b),
        )
      ]

  pub take-IsGone :
      (tm : Timer A) (now : ℕ) (t : Task A) (tm' : Timer A)
      → take_due A now tm ≡ some (t, tm')
      → IsGone tm
      → IsGone tm'
  unfolding IsGone take_due
  take-IsGone tm now t tm' x (c, p, l) = (ground arith, ground arith, ground arith)
