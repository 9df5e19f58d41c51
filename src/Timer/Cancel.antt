-- ===== src/Timer/Cancel.antt =====
-- What `Cancel` of lib/utils/src/Timer.cpp promises of a task.
use spot_grid_bot.Base.{
  ℕ, ◌≡◌, inl, inr, Bool, true, false, arith, ◌==◌, has, has-keep, Option-cases,
}
use spot_grid_bot.Timer.{
  Task, Timer, extract_first, start_timer, cancel, cancel_all, begin_stop_timer, end_stop_timer,
}
use spot_grid_bot.Timer.Entries.{count-extract_first, extract_first-passes, extract_first-none}
use spot_grid_bot.Timer.Steps.{Step, Reach, IsWell, has_id, scheduled}
use spot_grid_bot.Timer.Gone.{
  IsGone, schedule_at-IsGone, cancel-IsGone, reschedule-IsGone, execute_delayed-IsGone,
  put_back-IsGone, take-IsGone,
}

module _ {A : Type 0} (i : ℕ) where
  cancel_all-IsGone : (tm : Timer A) → IsGone i tm → IsGone i (cancel_all A tm).0
  unfolding IsGone cancel_all
  cancel_all-IsGone tm (c, p, l) = (ground (arith, c), ground (arith, p), ground (arith, l))

  switched-IsGone :
      (tm : Timer A) (n : ℕ) (b : Bool)
      → IsGone i tm
      → IsGone i (record tm { threads = n; shutdown = b })
  unfolding IsGone
  switched-IsGone tm n b h = h

  Step-IsGone : {s t : Timer A} → Step s t → IsGone i s → IsGone i t
  unfolding start_timer begin_stop_timer end_stop_timer
  Step-IsGone (Step.start_call tm size n) h = ground (arith, h, switched-IsGone tm n tm.shutdown h)
  Step-IsGone (Step.schedule_call tm now random name action first interval) h =
      schedule_at-IsGone i tm now random name action first interval h
  Step-IsGone (Step.cancel_call tm id) h = cancel-IsGone i tm id h
  Step-IsGone (Step.cancel_all_call tm) h = cancel_all-IsGone tm h
  Step-IsGone (Step.reschedule_call tm now id next_time action) h =
      reschedule-IsGone i tm now id next_time action h
  Step-IsGone (Step.delayed_call tm now later random name action delay) h =
      execute_delayed-IsGone i tm now later random name action delay h
  Step-IsGone (Step.take_step tm now t tm' x) h = take-IsGone i tm now t tm' x h
  Step-IsGone (Step.put_back_step tm now l t r action again interval x) h =
      put_back-IsGone i tm now l t r action again interval h
  Step-IsGone (Step.stop_call tm) h =
      let tm' = (cancel_all A tm).0 in
      let h' = cancel_all-IsGone tm h in ground (arith, h', switched-IsGone tm' tm'.threads true h')
  Step-IsGone (Step.join_step tm x) h = ground (arith, h, switched-IsGone tm 0 false h)

  Reach-IsGone : {s t : Timer A} → IsGone i s → Reach s t → IsGone i t
  Reach-IsGone h Reach.here = h
  Reach-IsGone h (Reach.next r st) = Step-IsGone st (Reach-IsGone h r)

  -- A `Cancel` that answers true leaves its task in no place from which it could run again.
  canceled-IsGone :
      (tm : Timer A) → (cancel A tm i).1 ≡ true → IsWell tm → IsGone i (cancel A tm i).0
  unfolding IsGone IsWell cancel
  canceled-IsGone tm ok (s, a, c, f, d) =
      let q : Task A → Bool = λ t. t.id == i in
      elim (Option-cases (extract_first A q tm.task_map)) [
        | inl n ↦ (
          ground (arith, ok, n, extract_first-none q tm.task_map n),
          ground (arith, ok, n, has-keep i i tm.pending_tasks),
          ground (arith, ok, n, f i, d i),
        )
        | inr ((t, m), n) ↦
            let taken = count-extract_first q (has_id i) tm.task_map t m n in
            let passed = extract_first-passes q tm.task_map t m n in
            (
              ground (arith, ok, n, c i, taken, passed),
              ground (arith, ok, n, c i, d i, taken, passed),
              ground (arith, ok, n, f i, taken, passed),
            )
      ]

  -- After a `Cancel` of a task that answers true, whatever steps follow (a thread that still
  -- executes the task and puts it back, a reschedule, new tasks, a stop and a start), the task is
  -- never again in the map, from which alone threads take tasks.
  pub canceled_stays_out :
      (tm t : Timer A)
      → IsWell tm
      → (cancel A tm i).1 ≡ true
      → Reach (cancel A tm i).0 t
      → (scheduled i t ≡ 0) × (has t.pending_tasks i ≡ false)
  unfolding IsGone
  canceled_stays_out tm t h ok r =
      let (c, p, l) = Reach-IsGone (canceled-IsGone tm ok h) r in (c, p)
