-- ===== src/Timer/Invariant.antt =====
-- Every step of a `Timer` of lib/utils/src/Timer.cpp keeps its invariant.
use spot_grid_bot.Base.{
  ℕ, suc, ◌+◌, ◌≤◌, ◌≡◌, refl, ap, subst, inl, inr, true, not, some, List, [], ◌∷◌, ◌++◌, arith,
  ◌==◌, if◌then◌else◌, keep, has, has-keep, count, count-append, All, Bool-cases, ==→eq,
}
use spot_grid_bot.Timer.{
  Task, TaskMap, Timer, emplace, get_unused_schedule_time, max, take_due, put_back,
}
use spot_grid_bot.Timer.Unused.{
  get_unused_schedule_time_lem, IsSortedMap, count_tasks, count-emplace, All-emplace,
}
use spot_grid_bot.Timer.Entries.{emplace-IsSortedMap}
use spot_grid_bot.Timer.Steps.{IsWell, has_id, scheduled, executed}

module _ {A : Type 0} where
  taken-IsWell :
      (tm : Timer A) (k : ℕ) (t : Task A) (m : TaskMap A)
      → tm.task_map ≡ (k, t) ∷ m
      → IsWell tm
      → IsWell (record tm {
        task_map = m;
        pending_tasks = t.id ∷ tm.pending_tasks;
        executing = t ∷ tm.executing;
      })
  unfolding IsWell IsSortedMap
  taken-IsWell tm k t m e (s, a, c, f, d) =
      let sorted : IsSortedMap ((k, t) ∷ m) = subst IsSortedMap e s in
      let timed : All (λ x. x.1.scheduled_time ≡ x.0) ((k, t) ∷ m) =
        subst (All (λ x. x.1.scheduled_time ≡ x.0)) e a in
      let less : (i : ℕ)
          → scheduled i tm ≡ count_tasks (has_id i) m + (if t.id == i then 1 else 0) =
        λ i. ground (arith, ap (count_tasks (has_id i)) e) in
      (
        sorted.1,
        timed.1,
        (λ i. ground (arith, c i, less i)),
        (λ i l. ground (arith, f i l, less i)),
        (λ i h. elim (Bool-cases (i == t.id)) [
          | inl q ↦ ground (arith, c i, less i, ==→eq i t.id q)
          | inr q ↦ ground (arith, d i, h, c i, less i)
        ]),
      )

  pub take-IsWell :
      (tm : Timer A) (now : ℕ) (t : Task A) (tm' : Timer A) (m : TaskMap A)
      → tm.task_map ≡ m
      → take_due A now tm ≡ some (t, tm')
      → IsWell tm
      → IsWell tm'
  unfolding take_due
  take-IsWell tm now t tm' [] e x h = ground arith
  take-IsWell tm now t tm' ((k, u) ∷ m) e x h =
      subst IsWell (ground (arith, e, x)) (taken-IsWell tm k u m e h)

  -- The task leaves its thread.
  left-IsWell :
      (tm : Timer A) (l : List (Task A)) (t : Task A) (r : List (Task A))
      → tm.executing ≡ l ++ (t ∷ r)
      → IsWell tm
      → IsWell (record tm {
        pending_tasks = keep (λ j. not (j == t.id)) tm.pending_tasks;
        executing = l ++ r;
      })
  unfolding IsWell
  left-IsWell tm l t r x (s, a, c, f, d) =
      let one : (i : ℕ) → executed i tm ≡ count (has_id i) (l ++ r) + (if t.id == i then 1 else 0) =
        λ i. ground (
          arith,
          ap (count (has_id i)) x,
          count-append (has_id i) l (t ∷ r),
          count-append (has_id i) l r,
        ) in
      (
        s,
        a,
        (λ i. ground (arith, c i, one i)),
        (λ i k. ground (arith, f i k, one i)),
        (λ i h. ground (arith, d i, h, has-keep t.id i tm.pending_tasks, one i)),
      )

  -- It is placed again: its id is in no other task.
  again-IsWell :
      (tm : Timer A) (u : Task A) (proposed : ℕ)
      → u.id ≤ tm.last_key
      → scheduled u.id tm + executed u.id tm ≡ 0
      → IsWell tm
      → let time = get_unused_schedule_time A tm.task_map proposed in
        IsWell (record tm {
          task_map = (emplace A time (record u { scheduled_time = time }) tm.task_map).0;
        })
  unfolding IsWell
  again-IsWell tm u proposed l z (s, a, c, f, d) =
      let time = get_unused_schedule_time A tm.task_map proposed in
      let u' : Task A = record u { scheduled_time = time } in
      let (_, free, _) = get_unused_schedule_time_lem tm.task_map proposed in
      let more : (i : ℕ)
          → count_tasks (has_id i) (emplace A time u' tm.task_map).0
            ≡ scheduled i tm + (if u.id == i then 1 else 0) =
        λ i. count-emplace (has_id i) time u' tm.task_map free in
      (
        emplace-IsSortedMap time u' tm.task_map s,
        All-emplace (λ e. e.1.scheduled_time ≡ e.0) time u' tm.task_map refl a,
        (λ i. elim (Bool-cases (u.id == i)) [
          | inl q ↦ ground (arith, c i, more i, z, ==→eq u.id i q)
          | inr q ↦ ground (arith, c i, more i)
        ]),
        (λ i k. ground (arith, f i k, more i)),
        d,
      )

  -- The id of a pending task that leaves its thread
  ids_of :
      (tm : Timer A) (l : List (Task A)) (t : Task A) (r : List (Task A))
      → tm.executing ≡ l ++ (t ∷ r)
      → has tm.pending_tasks t.id ≡ true
      → IsWell tm
      → (t.id ≤ tm.last_key) × (scheduled t.id tm + count (has_id t.id) (l ++ r) ≡ 0)
  unfolding IsWell
  ids_of tm l t r x p (s, a, c, f, d) =
      let one : executed t.id tm ≡ suc (count (has_id t.id) (l ++ r)) = ground (
        arith,
        ap (count (has_id t.id)) x,
        count-append (has_id t.id) l (t ∷ r),
        count-append (has_id t.id) l r,
      ) in
      (ground (arith, f t.id, d t.id p), ground (arith, c t.id, d t.id p, one))

  pub put_back-IsWell :
      (tm : Timer A) (now : ℕ) (l : List (Task A)) (t : Task A) (r : List (Task A)) (action : A)
      (again interval : ℕ)
      → tm.executing ≡ l ++ (t ∷ r)
      → IsWell tm
      → IsWell (put_back A now tm l t r action again interval)
  unfolding put_back
  put_back-IsWell tm now l t r action again interval x h =
      let rest : Timer A = record tm {
        pending_tasks = keep (λ j. not (j == t.id)) tm.pending_tasks;
        executing = l ++ r;
      } in
      let u : Task A = record t { action = action; interval = interval } in
      let well = left-IsWell tm l t r x h in
      elim (Bool-cases (has tm.pending_tasks t.id)) [
        | inl p ↦
            let (le, none_left) = ids_of tm l t r x p h in
            ground (arith, well, again-IsWell rest u (max (again + interval) now) le none_left well)
        | inr p ↦ ground (arith, well)
      ]
