-- ===== src/Timer/Steps.antt =====
-- The steps of a `Timer` of lib/utils/src/Timer.cpp, by its users and by its threads, and the
-- invariant that they keep.
use spot_grid_bot.Base.{
  ℕ, ◌+◌, ◌≤◌, ◌<◌, ◌≡◌, refl, Bool, true, not, Option, some, List, [], ◌∷◌, ◌++◌, arith, ◌==◌,
  if◌then◌else◌, keep, has, has-keep, count, All,
}
use spot_grid_bot.Timer.{
  Task, TaskMap, Timer, emplace, extract_first, get_unused_schedule_time, start_timer, schedule_at,
  cancel, cancel_all, reschedule, execute_delayed, take_due, put_back, begin_stop_timer,
  end_stop_timer,
}
use spot_grid_bot.Timer.Unused.{
  get_unused_schedule_time_lem, IsSortedMap, count_tasks, count-emplace, All-emplace,
}
use spot_grid_bot.Timer.Entries.{
  emplace-IsSortedMap, count-extract_first, All-extract_first, extract_first-IsSortedMap,
  extract_first_unused,
}

module _ {A : Type 0} where
  -- One call of the timer, or one step of its threads: a thread takes the task that is due, and
  -- puts back a task that it executed, which the action may have changed.
  pub data Step : Timer A → Timer A → Type 0 where
    start_call : (tm : Timer A) (size n : ℕ) → Step tm (start_timer A tm size n).0
    schedule_call :
        (tm : Timer A) (now random name : ℕ) (action : Option A) (first interval : ℕ)
        → Step tm (schedule_at A now random tm name action first interval).0
    cancel_call : (tm : Timer A) (id : ℕ) → Step tm (cancel A tm id).0
    cancel_all_call : (tm : Timer A) → Step tm (cancel_all A tm).0
    reschedule_call :
        (tm : Timer A) (now id next_time : ℕ) (action : Option A)
        → Step tm (reschedule A now tm id next_time action).0
    delayed_call :
        (tm : Timer A) (now later random name : ℕ) (action : Option A) (delay : ℕ)
        → Step tm (execute_delayed A now later random tm name action delay).0
    take_step :
        (tm : Timer A) (now : ℕ) (t : Task A) (tm' : Timer A)
        → take_due A now tm ≡ some (t, tm')
        → Step tm tm'
    put_back_step :
        (tm : Timer A) (now : ℕ) (l : List (Task A)) (t : Task A) (r : List (Task A)) (action : A)
        (scheduled interval : ℕ)
        → tm.executing ≡ l ++ (t ∷ r)
        → Step tm (put_back A now tm l t r action scheduled interval)
    stop_call : (tm : Timer A) → Step tm (begin_stop_timer A tm)
    join_step : (tm : Timer A) → tm.executing ≡ [] → Step tm (end_stop_timer A tm)

  pub data Reach (s : Timer A) : Timer A → Type 0 where
    here : Reach s s
    next : {t u : Timer A} → Reach s t → Step t u → Reach s u

  abbrev pub has_id : ℕ → Task A → Bool
  has_id i t = t.id == i

  -- How many tasks have an id: in the map, and in the threads
  abbrev pub scheduled : ℕ → Timer A → ℕ
  scheduled i tm = count_tasks (has_id i) tm.task_map

  abbrev pub executed : ℕ → Timer A → ℕ
  executed i tm = count (has_id i) tm.executing

  -- The map is in the order of its times, each of which is its task's; an id belongs to at most one
  -- task, in the map or in a thread, and was issued by `NewInt64Key`; what is pending is in a thread.
  unfoldable pub IsWell : Timer A → Type 0
  IsWell tm =
      IsSortedMap tm.task_map
      × All (λ e. e.1.scheduled_time ≡ e.0) tm.task_map
      × ((i : ℕ) → scheduled i tm + executed i tm ≤ 1)
      × ((i : ℕ) → tm.last_key < i → scheduled i tm + executed i tm ≡ 0)
      × ((i : ℕ) → has tm.pending_tasks i ≡ true → executed i tm ≡ 1)

  pub count-moved :
      (tm : Timer A) (p : Task A → Bool) (t u : Task A) (rest : TaskMap A) (proposed i : ℕ)
      → extract_first A p tm.task_map ≡ some (t, rest)
      → u.id ≡ t.id
      → let time = get_unused_schedule_time A tm.task_map proposed in
        count_tasks (has_id i) (emplace A time (record u { scheduled_time = time }) rest).0
        ≡ scheduled i tm
  count-moved tm p t u rest proposed i x e =
      let time = get_unused_schedule_time A tm.task_map proposed in
      let u' : Task A = record u { scheduled_time = time } in
      let (_, free, _) = get_unused_schedule_time_lem tm.task_map proposed in
      ground (
        arith,
        count-emplace (has_id i) time u' rest
            (extract_first_unused p time tm.task_map t rest x free),
        count-extract_first p (has_id i) tm.task_map t rest x,
      )

  -- A task of the timer's own map, extracted, changed but for its id, and placed at a time unused
  -- in the whole map
  pub moved-IsWell :
      (tm : Timer A) (p : Task A → Bool) (t u : Task A) (rest : TaskMap A) (proposed : ℕ)
      → extract_first A p tm.task_map ≡ some (t, rest)
      → u.id ≡ t.id
      → IsWell tm
      → let time = get_unused_schedule_time A tm.task_map proposed in
        IsWell
          (record tm { task_map = (emplace A time (record u { scheduled_time = time }) rest).0 })
  unfolding IsWell
  moved-IsWell tm p t u rest proposed x e (s, a, c, f, d) =
      let time = get_unused_schedule_time A tm.task_map proposed in
      let u' : Task A = record u { scheduled_time = time } in
      let same : (i : ℕ) → count_tasks (has_id i) (emplace A time u' rest).0 ≡ scheduled i tm =
        λ i. count-moved tm p t u rest proposed i x e in
      (
        emplace-IsSortedMap time u' rest (extract_first-IsSortedMap p tm.task_map t rest x s),
        All-emplace (λ e. e.1.scheduled_time ≡ e.0) time u' rest refl
            (All-extract_first (λ e. e.1.scheduled_time ≡ e.0) p tm.task_map t rest x a),
        (λ i. ground (arith, c i, same i)),
        (λ i l. ground (arith, f i l, same i)),
        d,
      )

  pub entered-IsWell :
      (tm : Timer A) (t : Task A) (proposed key : ℕ)
      → tm.last_key < key
      → t.id ≡ key
      → IsWell tm
      → let time = get_unused_schedule_time A tm.task_map proposed in
        IsWell (record tm {
          task_map = (emplace A time (record t { scheduled_time = time }) tm.task_map).0;
          last_key = key;
        })
  unfolding IsWell
  entered-IsWell tm t proposed key l e (s, a, c, f, d) =
      let time = get_unused_schedule_time A tm.task_map proposed in
      let t' : Task A = record t { scheduled_time = time } in
      let (_, free, _) = get_unused_schedule_time_lem tm.task_map proposed in
      let more : (i : ℕ)
          → count_tasks (has_id i) (emplace A time t' tm.task_map).0
            ≡ scheduled i tm + (if t.id == i then 1 else 0) =
        λ i. count-emplace (has_id i) time t' tm.task_map free in
      (
        emplace-IsSortedMap time t' tm.task_map s,
        All-emplace (λ e. e.1.scheduled_time ≡ e.0) time t' tm.task_map refl a,
        (λ i. ground (arith, c i, more i, f i)),
        (λ i k. ground (arith, f i, more i)),
        d,
      )

  pub erased-IsWell :
      (tm : Timer A) (p : Task A → Bool) (t : Task A) (rest : TaskMap A)
      → extract_first A p tm.task_map ≡ some (t, rest)
      → IsWell tm
      → IsWell (record tm { task_map = rest })
  unfolding IsWell
  erased-IsWell tm p t rest x (s, a, c, f, d) = (
    extract_first-IsSortedMap p tm.task_map t rest x s,
    All-extract_first (λ e. e.1.scheduled_time ≡ e.0) p tm.task_map t rest x a,
    (λ i. ground (arith, c i, count-extract_first p (has_id i) tm.task_map t rest x)),
    (λ i l. ground (arith, f i l, count-extract_first p (has_id i) tm.task_map t rest x)),
    d,
  )

  pub forgotten-IsWell :
      (tm : Timer A) (id : ℕ)
      → IsWell tm
      → IsWell (record tm { pending_tasks = keep (λ j. not (j == id)) tm.pending_tasks })
  unfolding IsWell
  forgotten-IsWell tm id (s, a, c, f, d) =
      (s, a, c, f, (λ i h. ground (arith, d i, h, has-keep id i tm.pending_tasks)))

  pub cleared-IsWell :
      (tm : Timer A) → IsWell tm → IsWell (record tm { task_map = []; pending_tasks = [] })
  unfolding IsWell IsSortedMap
  cleared-IsWell tm (s, a, c, f, d) =
      (tt, tt, (λ i. ground (arith, c i)), (λ i l. ground (arith, f i l)), (λ i h. ground arith))
