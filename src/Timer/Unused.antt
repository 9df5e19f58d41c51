-- ===== src/Timer/Unused.antt =====
-- The task map of `Timer` of lib/utils/src/Timer.cpp: the time that `GetUnusedScheduleTime` finds, and
-- what insertion and extraction do to the map.
use spot_grid_bot.Base.{
  ℕ, zero, suc, ◌+◌, ◌≤◌, ◌<◌, ◌≡◌, refl, inl, inr, Bool, true, false, [], ◌∷◌, arith, ◌==◌, ltb,
  leb, if◌then◌else◌, length, count, All, is_some, Bool-cases, ==→eq,
}
use spot_grid_bot.Timer.{Task, TaskMap, find_time, emplace, unused_time, get_unused_schedule_time}

module _ {A : Type 0} where
  -- The number of tasks at a time or later
  abbrev pub count_from : ℕ → TaskMap A → ℕ
  count_from t m = count (λ e. leb t e.0) m

  count_from-suc : (t : ℕ) (m : TaskMap A) → count_from (suc t) m ≤ count_from t m
  count_from-suc t [] = ground arith
  count_from-suc t (e ∷ m) = ground (arith, count_from-suc t m)

  count_from_used :
      (t : ℕ) (m : TaskMap A)
      → is_some (find_time A t m) ≡ true
      → count_from (suc t) m < count_from t m
  unfolding find_time
  count_from_used t [] h = ground arith
  count_from_used t (e ∷ m) h = ground (arith, count_from_used t m, count_from-suc t m)

  count_from-length : (t : ℕ) (m : TaskMap A) → count_from t m ≤ length m
  count_from-length t [] = ground arith
  count_from-length t (e ∷ m) = ground (arith, count_from-length t m)

  unused_time_free :
      (n : ℕ) (m : TaskMap A) (t : ℕ)
      → count_from t m < n
      → is_some (find_time A (unused_time A n m t) m) ≡ false
  unfolding unused_time
  unused_time_free zero m t h = absurd (omega arith)
  unused_time_free (suc n) m t h = elim (Bool-cases (is_some (find_time A t m))) [
    | inl u ↦ ground (arith, unused_time_free n m (suc t), count_from_used t m u)
    | inr u ↦ ground arith
  ]

  unused_time_later : (n : ℕ) (m : TaskMap A) (t : ℕ) → t ≤ unused_time A n m t
  unfolding unused_time
  unused_time_later zero m t = ground arith
  unused_time_later (suc n) m t = ground (arith, unused_time_later n m (suc t))

  unused_time_least :
      (n : ℕ) (m : TaskMap A) (t k : ℕ)
      → t ≤ k
      → k < unused_time A n m t
      → is_some (find_time A k m) ≡ true
  unfolding unused_time
  unused_time_least zero m t k h l = absurd (omega (arith, h, l))
  unused_time_least (suc n) m t k h l = elim (Bool-cases (is_some (find_time A t m))) [
    | inl u ↦ elim (Bool-cases (t == k)) [
      | inl e ↦ ground (arith, ==→eq t k e)
      | inr e ↦ ground (arith, unused_time_least n m (suc t) k)
    ]
    | inr u ↦ ground arith
  ]

  -- The loop of `GetUnusedScheduleTime` ends, after at most a round more than there are tasks, at
  -- the first time from the proposed one on at which no task is scheduled.
  pub get_unused_schedule_time_lem :
      (m : TaskMap A) (proposed : ℕ)
      → let time = get_unused_schedule_time A m proposed in
        (proposed ≤ time)
        × (is_some (find_time A time m) ≡ false)
        × ((k : ℕ) → proposed ≤ k → k < time → is_some (find_time A k m) ≡ true)
  unfolding get_unused_schedule_time
  get_unused_schedule_time_lem m proposed =
      let n = suc (length m) in
      (
        unused_time_later n m proposed,
        unused_time_free n m proposed (omega (arith, count_from-length proposed m)),
        unused_time_least n m proposed,
      )

  -- The keys ascend.
  unfoldable pub IsSortedMap : TaskMap A → Type 0
  IsSortedMap [] = Unit
  IsSortedMap ((k, t) ∷ m) = All (λ e. k < e.0) m × IsSortedMap m

  -- How many tasks of a map pass a test
  abbrev pub count_tasks : (Task A → Bool) → TaskMap A → ℕ
  count_tasks p m = count (λ e. p e.1) m

  pub emplace-new :
      (k : ℕ) (t : Task A) (m : TaskMap A)
      → is_some (find_time A k m) ≡ false
      → (emplace A k t m).1 ≡ true
  unfolding emplace find_time
  emplace-new k t [] h = refl
  emplace-new k t ((j, u) ∷ m) h = ground (arith, emplace-new k t m)

  pub count-emplace :
      (p : Task A → Bool) (k : ℕ) (t : Task A) (m : TaskMap A)
      → is_some (find_time A k m) ≡ false
      → count_tasks p (emplace A k t m).0 ≡ count_tasks p m + (if p t then 1 else 0)
  unfolding emplace find_time
  count-emplace p k t [] h = ground arith
  count-emplace p k t ((j, u) ∷ m) h = ground (arith, count-emplace p k t m)

  pub All-emplace :
      (P : ℕ × Task A → Type 0) (k : ℕ) (t : Task A) (m : TaskMap A)
      → P (k, t)
      → All P m
      → All P (emplace A k t m).0
  unfolding emplace
  All-emplace P k t [] h a = (h, tt)
  All-emplace P k t ((j, u) ∷ m) h (b, a) = elim (Bool-cases (k == j)) [
    | inl x ↦ rw (emplace, x) (b, a)
    | inr x ↦ elim (Bool-cases (ltb k j)) [
      | inl y ↦ rw (emplace, x, y) (h, (b, a))
      | inr y ↦ rw (emplace, x, y) (b, All-emplace P k t m h a)
    ]
  ]
