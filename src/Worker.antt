-- ===== src/Worker.antt =====
-- `UTILS::BackgroundWorker` of lib/utils/include/Utils/BackgroundWorker.hpp: a pool of threads that
-- takes items from one queue. An item may have a sequence tag (its hash); the items of a tag are
-- processed one at a time. A thread holds the lock but while it processes an item, so taking an
-- item and finishing it are one step each.
pub mod Steps
pub mod Order
pub mod Tests
use spot_grid_bot.Base.{
  ℕ, zero, suc, ◌-◌, Bool, true, false, not, Option, none, some, List, [], ◌∷◌, ◌++◌, ◌==◌, ltb,
  if◌then◌else◌, length, keep, has,
}

-- `Element`
pub record Element {ℓ} (A : Type ℓ) : Type ℓ where
  pub tag : Option ℕ
  pub args : A

module _ {ℓ} (A : Type ℓ) where
  -- `m_queue`, `m_openSequences`, `m_maxQueueSize`, `m_shutdown`, `m_waitingSince`; the number of
  -- threads, and the elements that they process
  pub record Worker : Type ℓ where
    pub queue : List (Element A)
    pub open_sequences : List ℕ
    pub max_queue_size : ℕ
    pub shutdown : Bool
    pub waiting_since : ℕ
    pub threads : ℕ
    pub processed : List (Element A)

  -- `EnqueueTagged`, at a time
  unfoldable pub enqueue_tagged : ℕ → Worker → Element A → Worker × Bool
  enqueue_tagged now w e =
      if w.shutdown
      then (w, false)
      else if ltb (length w.queue) w.max_queue_size
      then (
        record w {
          queue = w.queue ++ (e ∷ []);
          waiting_since = if length w.queue == 0 then now else w.waiting_since;
        },
        true,
      )
      else (w, false)

  -- Whether the loop of `worker` accepts an element
  unfoldable pub is_ready : List ℕ → Element A → Bool
  is_ready opened e = elim e.tag [ none ↦ true | some t ↦ not (has opened t) ]

  -- The first accepted element of the queue, with those before it and those after it
  unfoldable pub find_ready :
      List ℕ → List (Element A) → Option (List (Element A) × (Element A × List (Element A)))
  find_ready opened [] = none
  find_ready opened (e ∷ q) =
      if is_ready opened e
      then some ([], (e, q))
      else elim (find_ready opened q) [ none ↦ none | some (b, (f, a)) ↦ some (e ∷ b, (f, a)) ]

  -- `m_openSequences.insert` and `erase` with an element's tag
  unfoldable pub open_sequence : Option ℕ → List ℕ → List ℕ
  open_sequence none opened = opened
  open_sequence (some t) opened = if has opened t then opened else t ∷ opened

  unfoldable pub close_sequence : Option ℕ → List ℕ → List ℕ
  close_sequence none opened = opened
  close_sequence (some t) opened = keep (λ j. not (j == t)) opened

  -- The thread fetches an accepted element: what stands before and after it stays queued.
  unfoldable pub fetch : ℕ → Worker → List (Element A) → Element A → List (Element A) → Worker
  fetch now w before e after = record w {
    queue = before ++ after;
    waiting_since =
        if length (before ++ after) == 0
        then 0
        else if length before == 0
        then now
        else w.waiting_since;
    open_sequences = open_sequence e.tag w.open_sequences;
    processed = e ∷ w.processed;
  }

  -- One round of the loop up to `unlock`, at a time: the element to process, if there is one
  unfoldable pub take_next : ℕ → Worker → Worker × Option (Element A)
  unfolding fetch
  take_next now w = elim (find_ready w.open_sequences w.queue) [
    | none ↦ (w, none)
    | some (b, (e, a)) ↦ (fetch now w b e a, some e)
  ]

  -- The end of the round after `lock`, for the element between two others in process
  unfoldable pub finish : Worker → List (Element A) → Element A → List (Element A) → Worker
  finish w l e r = record w {
    open_sequences = close_sequence e.tag w.open_sequences;
    processed = l ++ r;
  }

  -- At most a number of rounds of the loop, by one thread that no other disturbs, and what it
  -- takes. It stops when it would wait.
  unfoldable pub work : ℕ → ℕ → Worker → Worker × List (Element A)
  unfolding take_next finish
  work zero now w = (w, [])
  work (suc n) now w =
      let (t, taken) = take_next now w in
      elim taken [
        | none ↦ (t, [])
        | some e ↦ let (u, l) = work n now (finish t [] e []) in (u, e ∷ l)
      ]

  -- `ClearQueue`
  unfoldable pub clear_queue : Worker → Worker
  clear_queue w = record w { queue = []; waiting_since = 0 }

  -- `Start`, when it is not running: none is the error
  unfoldable pub start_worker : Worker → ℕ → ℕ → Option Worker
  start_worker w n size =
      if not (w.threads == 0)
      then none
      else if ltb n 1
      then none
      else if ltb size 1
      then none
      else some (record w { max_queue_size = size; threads = n })

  -- `Stop`: what happens before the threads are joined or detached
  unfoldable pub begin_stop : Worker → Bool → Bool → Worker
  unfolding clear_queue
  begin_stop w cancel_queue detach_threads =
      if w.threads == 0
      then w
      else let v = if cancel_queue then clear_queue w else w in
        record v {
          shutdown = true;
          open_sequences = if detach_threads then [] else w.open_sequences;
        }

  -- Its end, when all threads are joined or detached
  unfoldable pub end_stop : Worker → Worker
  end_stop w = if w.threads == 0 then w else record w { threads = 0; shutdown = false }

  -- `BlockedForNsec`
  unfoldable pub blocked_for : ℕ → Worker → ℕ
  blocked_for now w =
      if w.waiting_since == 0 then 0 else if w.threads == 0 then 0 else now - w.waiting_since
