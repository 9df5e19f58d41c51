-- ===== src/Timer/Entries.antt =====
-- Insertion into the ordered task map of `Timer` of lib/utils/src/Timer.cpp, and extraction from it.
use spot_grid_bot.Base.{
  ℕ, ◌+◌, ◌<◌, ◌≡◌, refl, ◌⊎◌, inl, inr, Bool, true, false, Option, none, some, [], ◌∷◌, arith,
  ◌==◌, ltb, if◌then◌else◌, All, is_some, Bool-cases, Option-cases, ltb→lt,
}
use spot_grid_bot.Timer.{Task, TaskMap, find_time, emplace, extract_first}
use spot_grid_bot.Timer.Unused.{IsSortedMap, count_tasks, All-emplace}

module _ {A : Type 0} where
  All-later : (j k : ℕ) (m : TaskMap A) → j < k → All (λ e. k < e.0) m → All (λ e. j < e.0) m
  All-later j k [] h a = tt
  All-later j k (e ∷ m) h (b, a) = (omega (arith, h, b), All-later j k m h a)

  pub emplace-IsSortedMap :
      (k : ℕ) (t : Task A) (m : TaskMap A) → IsSortedMap m → IsSortedMap (emplace A k t m).0
  unfolding emplace IsSortedMap
  emplace-IsSortedMap k t [] h = (tt, tt)
  emplace-IsSortedMap k t ((j, u) ∷ m) (a, h) = elim (Bool-cases (k == j)) [
    | inl x ↦ rw (emplace, x) (a, h)
    | inr x ↦ elim (Bool-cases (ltb k j)) [
      | inl y ↦ rw (emplace, x, y) ((ltb→lt k j y, All-later k j m (ltb→lt k j y) a), (a, h))
      | inr y ↦
          rw (emplace, x, y)
            (All-emplace (λ e. j < e.0) k t m (ground (arith, x, y)) a, emplace-IsSortedMap k t m h)
    ]
  ]

  -- What extraction takes out of a map: a task that passes the test, and nothing else.
  pub count-extract_first :
      (p q : Task A → Bool) (m : TaskMap A) (t : Task A) (m' : TaskMap A)
      → extract_first A p m ≡ some (t, m')
      → count_tasks q m ≡ count_tasks q m' + (if q t then 1 else 0)
  unfolding extract_first
  count-extract_first p q [] t m' h = ground arith
  count-extract_first p q ((k, u) ∷ m) t m' h = elim (Bool-cases (p u)) [
    | inl x ↦ ground (arith, x)
    | inr x ↦ elim (Option-cases (extract_first A p m)) [
      | inl n ↦ ground (arith, x, n)
      | inr ((v, r), n) ↦ ground (arith, x, n, count-extract_first p q m v r n)
    ]
  ]

  pub extract_first-passes :
      (p : Task A → Bool) (m : TaskMap A) (t : Task A) (m' : TaskMap A)
      → extract_first A p m ≡ some (t, m')
      → p t ≡ true
  unfolding extract_first
  extract_first-passes p [] t m' h = ground arith
  extract_first-passes p ((k, u) ∷ m) t m' h = elim (Bool-cases (p u)) [
    | inl x ↦ ground (arith, x)
    | inr x ↦ elim (Option-cases (extract_first A p m)) [
      | inl n ↦ ground (arith, x, n)
      | inr ((v, r), n) ↦ ground (arith, x, n, extract_first-passes p m v r n)
    ]
  ]

  pub extract_first-none :
      (p : Task A → Bool) (m : TaskMap A) → extract_first A p m ≡ none → count_tasks p m ≡ 0
  unfolding extract_first
  extract_first-none p [] h = refl
  extract_first-none p ((k, u) ∷ m) h = elim (Bool-cases (p u)) [
    | inl x ↦ ground (arith, x)
    | inr x ↦ elim (Option-cases (extract_first A p m)) [
      | inl n ↦ ground (arith, x, n, extract_first-none p m n)
      | inr ((v, r), n) ↦ ground (arith, x, n)
    ]
  ]

  extract_split :
      (p : Task A → Bool) (k : ℕ) (u : Task A) (m : TaskMap A) (t : Task A) (m' : TaskMap A)
      (r : Option (Task A × TaskMap A))
      → extract_first A p m ≡ r
      → extract_first A p ((k, u) ∷ m) ≡ some (t, m')
      → ((t ≡ u) × (m' ≡ m)) ⊎ ((rest : TaskMap A) × (r ≡ some (t, rest)) × (m' ≡ (k, u) ∷ rest))
  unfolding extract_first
  extract_split p k u m t m' none e h = elim (Bool-cases (p u)) [
    | inl x ↦ inl (ground arith, ground arith)
    | inr x ↦ ground arith
  ]
  extract_split p k u m t m' (some (v, rest)) e h = elim (Bool-cases (p u)) [
    | inl x ↦ inl (ground arith, ground arith)
    | inr x ↦ inr (rest, ground arith, ground arith)
  ]

  pub All-extract_first :
      (P : ℕ × Task A → Type 0) (p : Task A → Bool) (m : TaskMap A) (t : Task A) (m' : TaskMap A)
      → extract_first A p m ≡ some (t, m')
      → All P m
      → All P m'
  unfolding extract_first
  All-extract_first P p [] t m' h a = ground arith
  All-extract_first P p ((k, u) ∷ m) t m' h (b, a) =
      elim (extract_split p k u m t m' (extract_first A p m) refl h) [
        | inl (x, y) ↦ rw y a
        | inr (rest, x, y) ↦ rw y (b, All-extract_first P p m t rest x a)
      ]

  pub extract_first-IsSortedMap :
      (p : Task A → Bool) (m : TaskMap A) (t : Task A) (m' : TaskMap A)
      → extract_first A p m ≡ some (t, m')
      → IsSortedMap m
      → IsSortedMap m'
  unfolding IsSortedMap extract_first
  extract_first-IsSortedMap p [] t m' h a = ground arith
  extract_first-IsSortedMap p ((k, u) ∷ m) t m' h (b, a) =
      elim (extract_split p k u m t m' (extract_first A p m) refl h) [
        | inl (x, y) ↦ rw y a
        | inr (rest, x, y) ↦ rw y (
          All-extract_first (λ e. k < e.0) p m t rest x b,
          extract_first-IsSortedMap p m t rest x a,
        )
      ]

  pub extract_first_unused :
      (p : Task A → Bool) (k : ℕ) (m : TaskMap A) (t : Task A) (m' : TaskMap A)
      → extract_first A p m ≡ some (t, m')
      → is_some (find_time A k m) ≡ false
      → is_some (find_time A k m') ≡ false
  unfolding extract_first find_time
  extract_first_unused p k [] t m' h u = ground arith
  extract_first_unused p k ((j, v) ∷ m) t m' h u =
      elim (extract_split p j v m t m' (extract_first A p m) refl h) [
        | inl (x, y) ↦ ground arith
        | inr (rest, x, y) ↦ ground (arith, extract_first_unused p k m t rest x)
      ]
