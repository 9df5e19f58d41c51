-- ===== src/Timer/Tests.antt =====
-- The theorems about the timer, at a timer with one task.
use spot_grid_bot.Base.{ℕ, ◌≤◌, ◌<◌, ◌≡◌, refl, true, false, some, [], ◌∷◌, arith, has, is_some}
use spot_grid_bot.Timer.{
  Task, Timer, find_time, extract_first, get_unused_schedule_time, cancel, schedule_at, take_due,
  put_back, next_key, unused_time, emplace,
}
use spot_grid_bot.Timer.Unused.{get_unused_schedule_time_lem, IsSortedMap}
use spot_grid_bot.Timer.Steps.{Step, Reach, IsWell, scheduled}
use spot_grid_bot.Timer.Calls.{Reach-IsWell}
use spot_grid_bot.Timer.Cancel.{canceled_stays_out}

abbrev task : Task ℕ
task = record { id = 7; name = 1; action = 0; scheduled_time = 20; interval = 5 }

abbrev timer : Timer ℕ
timer = record {
  task_map = (20, task) ∷ [];
  pending_tasks = [];
  threads = 1;
  shutdown = false;
  last_key = 7;
  executing = [];
}

timer-IsWell : IsWell timer
unfolding IsWell IsSortedMap
timer-IsWell =
    ((tt, tt), (refl, tt), (λ i. ground arith), (λ i h. ground arith), (λ i h. ground arith))

abbrev running : Timer ℕ
running = record timer { task_map = []; pending_tasks = 7 ∷ []; executing = task ∷ [] }

taken : take_due ℕ 21 timer ≡ some (task, running)
unfolding take_due
taken = refl

get_unused_schedule_time_lem_example :
    let time = get_unused_schedule_time ℕ timer.task_map 20 in
    (20 ≤ time)
    × (is_some (find_time ℕ time timer.task_map) ≡ false)
    × ((k : ℕ) → 20 ≤ k → k < time → is_some (find_time ℕ k timer.task_map) ≡ true)
get_unused_schedule_time_lem_example = get_unused_schedule_time_lem timer.task_map 20

run_of_task : Reach timer running
run_of_task = Reach.next Reach.here (Step.take_step timer 21 task running taken)

Reach-IsWell_example : IsWell running
Reach-IsWell_example = Reach-IsWell timer-IsWell run_of_task

-- The running task is canceled, and then its thread comes to put it back.
abbrev after_cancel : Timer ℕ
after_cancel = (cancel ℕ running 7).0

abbrev after_all : Timer ℕ
after_all = put_back ℕ 30 after_cancel [] task [] 0 20 5

still_running : after_cancel.executing ≡ task ∷ []
unfolding cancel extract_first
still_running = refl

canceled : (cancel ℕ running 7).1 ≡ true
unfolding cancel extract_first
canceled = refl

put_back_after : Reach after_cancel after_all
put_back_after =
    Reach.next Reach.here (Step.put_back_step after_cancel 30 [] task [] 0 20 5 still_running)

canceled_stays_out_example : (scheduled 7 after_all ≡ 0) × (has after_all.pending_tasks 7 ≡ false)
canceled_stays_out_example =
    canceled_stays_out 7 running after_all (Reach-IsWell timer-IsWell run_of_task) canceled
      put_back_after

-- The time 20 is taken, so the second task gets the time 21.
second_at_21 :
    find_time ℕ 21 (schedule_at ℕ 12 0 timer 2 (some 4) 20 0).0.task_map
    ≡ some (record { id = 12; name = 2; action = 4; scheduled_time = 21; interval = 0 })
unfolding find_time schedule_at get_unused_schedule_time unused_time emplace next_key
second_at_21 = refl
