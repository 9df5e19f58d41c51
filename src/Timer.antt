-- ===== src/Timer.antt =====
-- `UTILS::Timer` of lib/utils/include/Utils/Timer.h and lib/utils/src/Timer.cpp: tasks by the time at
-- which they are due, and the threads that execute them. Each operation holds the lock while it
-- changes the tasks, and a thread gives it up only while it executes a task, so taking a task and
-- finishing it are one step each. Times are natural numbers of nanoseconds; an interval that is
-- not positive is 0. A name is the number of its text, with 0 for the empty one.
pub mod Unused
pub mod Entries
pub mod Steps
pub mod Invariant
pub mod Calls
pub mod Gone
pub mod Cancel
pub mod Due
pub mod Tests
use spot_grid_bot.Base.{
  ℕ, zero, suc, ◌+◌, Bool, true, false, not, ◌||◌, Option, none, some, List, [], ◌∷◌, ◌++◌, ◌==◌,
  ltb, leb, if◌then◌else◌, length, keep, has, is_some,
}

-- `std::max`
abbrev pub max : ℕ → ℕ → ℕ
max m n = if ltb m n then n else m

-- `NewInt64Key` of lib/utils/src/Utils.cpp, with the last key and what the clock shows
unfoldable pub next_key : ℕ → ℕ → ℕ
next_key last now = if leb now last then suc last else now

module _ (A : Type 0) where
  -- `Timer::Task`
  pub record Task : Type 0 where
    pub id : ℕ
    pub name : ℕ
    pub action : A
    pub scheduled_time : ℕ
    pub interval : ℕ

  -- `std::map` from times to tasks, in the order of its keys
  abbrev pub TaskMap : Type 0
  TaskMap = List (ℕ × Task)

  -- `m_taskMap`, `m_pendingTasks`, the number of threads, `m_shutdown`; the last key of
  -- `NewInt64Key`, and the tasks that the threads execute
  pub record Timer : Type 0 where
    pub task_map : TaskMap
    pub pending_tasks : List ℕ
    pub threads : ℕ
    pub shutdown : Bool
    pub last_key : ℕ
    pub executing : List Task

  -- `find` by key
  unfoldable pub find_time : ℕ → TaskMap → Option Task
  find_time k [] = none
  find_time k ((j, t) ∷ m) = if j == k then some t else find_time k m

  -- `emplace` and `insert`, and whether the key was new
  unfoldable pub emplace : ℕ → Task → TaskMap → TaskMap × Bool
  emplace k t [] = ((k, t) ∷ [], true)
  emplace k t ((j, u) ∷ m) =
      let (m', ok) = emplace k t m in
      if k == j
      then ((j, u) ∷ m, false)
      else if ltb k j
      then ((k, t) ∷ (j, u) ∷ m, true)
      else ((j, u) ∷ m', ok)

  -- The first task that passes a test, and the map without it
  unfoldable pub extract_first : (Task → Bool) → TaskMap → Option (Task × TaskMap)
  extract_first p [] = none
  extract_first p ((k, t) ∷ m) =
      let rest = extract_first p m in
      if p t then some (t, m) else elim rest [ none ↦ none | some (u, m') ↦ some (u, (k, t) ∷ m') ]

  -- The loop of `GetUnusedScheduleTime`, with a number of rounds
  unfoldable pub unused_time : ℕ → TaskMap → ℕ → ℕ
  unused_time zero m t = t
  unused_time (suc n) m t = if is_some (find_time t m) then unused_time n m (suc t) else t

  -- `GetUnusedScheduleTime`: a round more than there are tasks is enough.
  unfoldable pub get_unused_schedule_time : TaskMap → ℕ → ℕ
  get_unused_schedule_time m t = unused_time (suc (length m)) m t

  -- `Running` and not `IsShuttingDown`
  abbrev pub is_up : Timer → Bool
  is_up tm = if tm.threads == 0 then false else not tm.shutdown

  -- `Start`, with the length of the name
  unfoldable pub start_timer : Timer → ℕ → ℕ → Timer × Bool
  start_timer tm name_size n =
      if not (tm.threads == 0)
      then (tm, false)
      else if (name_size == 0) || ltb 12 name_size
      then (tm, false)
      else if ltb n 1 || ltb 99 n
      then (tm, false)
      else (record tm { threads = n }, true)

  -- `ScheduleAt`, at a time; `random` is the time it draws when the first time is 0. The result
  -- is the task's id.
  unfoldable pub schedule_at : ℕ → ℕ → Timer → ℕ → Option A → ℕ → ℕ → Timer × Option ℕ
  schedule_at now random tm name none first interval = (tm, none)
  schedule_at now random tm name (some action) first interval =
      let time =
        get_unused_schedule_time tm.task_map
          (max (if first == 0 then now + random else first) now) in
      let key = next_key tm.last_key now in
      let task : Task = record {
        id = key;
        name = name;
        action = action;
        scheduled_time = time;
        interval = interval;
      } in
      let (m, ok) = emplace time task tm.task_map in
      if is_up tm
      then (record tm { task_map = m; last_key = key }, (if ok then some key else none))
      else (tm, none)

  -- `Schedule`
  unfoldable pub schedule : ℕ → ℕ → Timer → ℕ → Option A → ℕ → ℕ → Timer × Option ℕ
  unfolding schedule_at
  schedule now random tm name action first_interval interval =
      schedule_at now random tm name action (now + first_interval) interval

  -- `Cancel`
  unfoldable pub cancel : Timer → ℕ → Timer × Bool
  cancel tm id =
      if not (is_up tm) then (tm, false) else elim (extract_first (λ t. t.id == id) tm.task_map) [
        | some (t, m) ↦ (record tm { task_map = m }, true)
        | none ↦ (
          record tm { pending_tasks = keep (λ j. not (j == id)) tm.pending_tasks },
          has tm.pending_tasks id,
        )
      ]

  -- `CancelAll`
  unfoldable pub cancel_all : Timer → Timer × Bool
  cancel_all tm =
      if not (is_up tm)
      then (tm, false)
      else (record tm { task_map = []; pending_tasks = [] }, true)

  -- `GetScheduledTime`: a time of 0 counts as not found.
  unfoldable pub get_scheduled_time : Timer → ℕ → Option ℕ
  get_scheduled_time tm id =
      if not (is_up tm) then none else elim (extract_first (λ t. t.id == id) tm.task_map) [
        | none ↦ none
        | some (t, m) ↦ if t.scheduled_time == 0 then none else some t.scheduled_time
      ]

  -- The first task that passes a test, changed and moved to an unused time from a proposed one on.
  -- The time is computed while the task is still in the map.
  unfoldable pub move_first : (Task → Bool) → (Task → Task) → ℕ → TaskMap → Option (Task × TaskMap)
  unfolding extract_first emplace get_unused_schedule_time
  move_first p change proposed m = elim (extract_first p m) [
    | none ↦ none
    | some (t, rest) ↦
        let time = get_unused_schedule_time m proposed in
        some (t, (emplace time (record (change t) { scheduled_time = time }) rest).0)
  ]

  abbrev pub with_action : Option A → Task → Task
  with_action none t = t
  with_action (some a) t = record t { action = a }

  -- `Reschedule`; the action stays when there is no new one.
  unfoldable pub reschedule : ℕ → Timer → ℕ → ℕ → Option A → Timer × Bool
  unfolding move_first
  reschedule now tm id next_time new_action =
      if not (is_up tm)
      then (tm, false)
      else elim (move_first (λ t. t.id == id) (with_action new_action) (max next_time now)
          tm.task_map) [ none ↦ (tm, false) | some (t, m) ↦ (record tm { task_map = m }, true) ]

  -- `ExecuteDelayed`: the task with the name is moved and gets the action, or else a task is
  -- scheduled, at a later time of the clock.
  unfoldable pub execute_delayed : ℕ → ℕ → ℕ → Timer → ℕ → Option A → ℕ → Timer × Option ℕ
  unfolding move_first schedule
  execute_delayed now later random tm name none delay = (tm, none)
  execute_delayed now later random tm name (some action) delay =
      if (name == 0) || not (is_up tm)
      then (tm, none)
      else elim (move_first (λ t. t.name == name) (λ t. record t { action = action }) (now + delay)
          tm.task_map) [
            | none ↦ schedule later random tm name (some action) delay 0
            | some (t, m) ↦ (record tm { task_map = m }, some t.id)
          ]

  -- A thread takes the first task of the map if it is due.
  unfoldable pub take_due : ℕ → Timer → Option (Task × Timer)
  take_due now tm = elim tm.task_map [
    | [] ↦ none
    | (k, t) ∷ m ↦
        if tm.shutdown
        then none
        else if leb k now
        then some (
          t,
          record tm {
            task_map = m;
            pending_tasks = t.id ∷ tm.pending_tasks;
            executing = t ∷ tm.executing;
          },
        )
        else none
  ]

  -- The end of the execution of a task `t` that stands between `l` and `r`: it goes back into the
  -- map if it was not canceled meanwhile and still has an interval. The action may have changed
  -- the task's time, interval and action.
  unfoldable pub put_back : ℕ → Timer → List Task → Task → List Task → A → ℕ → ℕ → Timer
  unfolding get_unused_schedule_time emplace
  put_back now tm l t r action scheduled interval =
      let time = get_unused_schedule_time tm.task_map (max (scheduled + interval) now) in
      let again : Task = record t { action = action; scheduled_time = time; interval = interval } in
      let rest : Timer = record tm {
        pending_tasks = keep (λ j. not (j == t.id)) tm.pending_tasks;
        executing = l ++ r;
      } in
      if has tm.pending_tasks t.id
      then if interval == 0
        then rest
        else record rest { task_map = (emplace time again tm.task_map).0 }
      else rest

  -- `Stop` up to the shutdown flag, and its end when all threads are joined
  unfoldable pub begin_stop_timer : Timer → Timer
  unfolding cancel_all
  begin_stop_timer tm =
      let canceled = (cancel_all tm).0 in
      if tm.threads == 0 then canceled else record canceled { shutdown = true }

  unfoldable pub end_stop_timer : Timer → Timer
  end_stop_timer tm = if tm.threads == 0 then tm else record tm { threads = 0; shutdown = false }
