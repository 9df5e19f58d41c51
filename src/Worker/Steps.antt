-- ===== src/Worker/Steps.antt =====
-- The steps of a running `BackgroundWorker` of lib/utils/include/Utils/BackgroundWorker.hpp, and what
-- holds after every sequence of them.
use spot_grid_bot.Base.{
  ℕ, ◌+◌, ◌≤◌, ◌<◌, ◌≡◌, ap, inl, inr, Bool, true, false, none, some, List, [], ◌∷◌, ◌++◌, arith,
  ◌==◌, if◌then◌else◌, length, has, has-keep, count, count-append, length-append, Bool-cases,
  Option-cases, ==→eq,
}
use spot_grid_bot.Worker.{
  Worker, Element, enqueue_tagged, is_ready, find_ready, open_sequence, close_sequence, fetch,
  finish, clear_queue, begin_stop,
}

module _ {ℓ} {A : Type ℓ} where
  -- One step of the threads that use the worker, and of the worker's own threads. A thread that
  -- processes no element is free to take one. `Stop` joins the threads.
  pub data Step : Worker A → Worker A → Type ℓ where
    enqueue : (w : Worker A) (now : ℕ) (e : Element A) → Step w (enqueue_tagged A now w e).0
    take :
        (w : Worker A) (now : ℕ) (b : List (Element A)) (e : Element A) (a : List (Element A))
        → length w.processed < w.threads
        → find_ready A w.open_sequences w.queue ≡ some (b, (e, a))
        → Step w (fetch A now w b e a)
    done :
        (w : Worker A) (l : List (Element A)) (e : Element A) (r : List (Element A))
        → w.processed ≡ l ++ (e ∷ r)
        → Step w (finish A w l e r)
    clear : (w : Worker A) → Step w (clear_queue A w)
    stop : (w : Worker A) (cancel_queue : Bool) → Step w (begin_stop A w cancel_queue false)

  pub data Reach (s : Worker A) : Worker A → Type ℓ where
    here : Reach s s
    next : {t u : Worker A} → Reach s t → Step t u → Reach s u

  abbrev pub has_tag : ℕ → Element A → Bool
  has_tag t e = elim e.tag [ none ↦ false | some u ↦ t == u ]

  -- Just after `Start`: no element is in process, and the queue keeps its bound.
  unfoldable pub IsStarted : Worker A → Type ℓ
  IsStarted w = (w.processed ≡ []) × (w.open_sequences ≡ []) × (length w.queue ≤ w.max_queue_size)

  -- A sequence is open exactly if one element with its tag is in process, and then it is the only
  -- one; the queue and the elements in process keep their bounds.
  unfoldable pub IsSafe : Worker A → Type 0
  IsSafe w =
      ((t : ℕ) → count (has_tag t) w.processed ≡ (if has w.open_sequences t then 1 else 0))
      × (length w.queue ≤ w.max_queue_size)
      × (length w.processed ≤ w.threads)

  pub find_ready_lem :
      (opened : List ℕ) (q b : List (Element A)) (e : Element A) (a : List (Element A))
      → find_ready A opened q ≡ some (b, (e, a))
      → (q ≡ b ++ (e ∷ a)) × (is_ready A opened e ≡ true)
  unfolding find_ready
  find_ready_lem opened [] b e a h = (ground arith, ground arith)
  find_ready_lem opened (f ∷ q) b e a h = elim (Bool-cases (is_ready A opened f)) [
    | inl r ↦ (ground (arith, r), ground (arith, r))
    | inr r ↦ elim (Option-cases (find_ready A opened q)) [
      | inl n ↦ ground (arith, r, n)
      | inr ((b', (e', a')), s) ↦
          let (x, y) = find_ready_lem opened q b' e' a' s in
          (ground (arith, r, s, x), ground (arith, r, s, y))
    ]
  ]

  has-open_sequence :
      (w : List ℕ) (e : Element A) (t : ℕ)
      → is_ready A w e ≡ true
      → (if has w t then 1 else 0) + (if has_tag t e then 1 else 0)
        ≡ (if has (open_sequence A e.tag w) t then 1 else 0)
  unfolding open_sequence is_ready
  has-open_sequence w e t h = elim (Option-cases e.tag) [
    | inl n ↦ ground arith
    | inr (u, n) ↦ elim (Bool-cases (t == u)) [
      | inl x ↦ ground (arith, ==→eq t u x)
      | inr x ↦ ground arith
    ]
  ]

  has-close_sequence :
      (w : List ℕ) (e : Element A) (t n : ℕ)
      → n + (if has_tag t e then 1 else 0) ≡ (if has w t then 1 else 0)
      → n ≡ (if has (close_sequence A e.tag w) t then 1 else 0)
  unfolding close_sequence
  has-close_sequence w e t n h = elim (Option-cases e.tag) [
    | inl x ↦ ground arith
    | inr (u, x) ↦ ground (arith, has-keep u t w)
  ]

  take-IsSafe :
      (w : Worker A) (now : ℕ) (b : List (Element A)) (e : Element A) (a : List (Element A))
      → length w.processed < w.threads
      → find_ready A w.open_sequences w.queue ≡ some (b, (e, a))
      → IsSafe w
      → IsSafe (fetch A now w b e a)
  unfolding IsSafe fetch
  take-IsSafe w now b e a free f (c, q, p) =
      let (x, y) = find_ready_lem w.open_sequences w.queue b e a f in
      (
        (λ t. ground (arith, c t, has-open_sequence w.open_sequences e t y)),
        ground (arith, q, ap length x, length-append b (e ∷ a), length-append b a),
        ground arith,
      )

  done-IsSafe :
      (w : Worker A) (l : List (Element A)) (e : Element A) (r : List (Element A))
      → w.processed ≡ l ++ (e ∷ r)
      → IsSafe w
      → IsSafe (finish A w l e r)
  unfolding IsSafe finish
  done-IsSafe w l e r x (c, q, p) = (
    (λ t. has-close_sequence w.open_sequences e t (count (has_tag t) (l ++ r)) (
        ground (
          arith,
          c t,
          ap (count (has_tag t)) x,
          count-append (has_tag t) l (e ∷ r),
          count-append (has_tag t) l r,
        ))),
    q,
    ground (arith, p, ap length x, length-append l (e ∷ r), length-append l r),
  )

  Step-IsSafe : {s t : Worker A} → Step s t → IsSafe s → IsSafe t
  unfolding IsSafe enqueue_tagged clear_queue begin_stop
  Step-IsSafe (enqueue w now e) (c, q, p) =
      (ground (arith, c), ground (arith, q, length-append w.queue (e ∷ [])), ground arith)
  Step-IsSafe (take w now b e a free f) h = take-IsSafe w now b e a free f h
  Step-IsSafe (done w l e r x) h = done-IsSafe w l e r x h
  Step-IsSafe (clear w) (c, q, p) = (c, ground arith, p)
  Step-IsSafe (stop w cancel_queue) (c, q, p) = (ground (arith, c), ground arith, ground arith)

  started-IsSafe : (w : Worker A) → IsStarted w → IsSafe w
  unfolding IsStarted IsSafe
  started-IsSafe w (p, o, q) = (
    (λ t. ground (arith, ap (count (has_tag t)) p, ap (λ l. has l t) o)),
    q,
    ground (arith, ap length p),
  )

  -- After every sequence of steps from the start, whatever threads enqueue and finish when, and
  -- also while a `Stop` that joins the threads waits for them, but with no `Stop` that detaches
  -- them, at most one element of a sequence is in process, and one is exactly if the sequence is open; the
  -- queue never exceeds its maximum, and no more elements are in process than there are threads.
  pub Reach-IsSafe : {s t : Worker A} → IsStarted s → Reach s t → IsSafe t
  Reach-IsSafe h here = started-IsSafe _ h
  Reach-IsSafe h (next r st) = Step-IsSafe st (Reach-IsSafe h r)
