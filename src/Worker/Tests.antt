-- ===== src/Worker/Tests.antt =====
-- The theorems about the background worker, at a queue of three elements.
use spot_grid_bot.Base.{ℕ, ◌≡◌, ◌<◌, refl, false, none, some, [], ◌∷◌, arith, length}
use spot_grid_bot.Worker.{Worker, Element, find_ready, is_ready, fetch, work, open_sequence}
use spot_grid_bot.Worker.Steps.{Reach, Step, IsStarted, IsSafe, Reach-IsSafe}
use spot_grid_bot.Worker.Order.{Trace, IsInOrder, Trace-IsInOrder, work_all}

abbrev first : Element ℕ
first = record { tag = some 4; args = 1 }

abbrev second : Element ℕ
second = record { tag = some 4; args = 2 }

abbrev third : Element ℕ
third = record { tag = none; args = 3 }

abbrev three : Worker ℕ
three = record {
  queue = first ∷ second ∷ third ∷ [];
  open_sequences = [];
  max_queue_size = 3;
  shutdown = false;
  waiting_since = 8;
  threads = 2;
  processed = [];
}

three-IsStarted : IsStarted three
unfolding IsStarted
three-IsStarted = (refl, refl, ground arith)

abbrev after_first : Worker ℕ
after_first = fetch ℕ 9 three [] first (second ∷ third ∷ [])

found_first : find_ready ℕ [] three.queue ≡ some ([], (first, second ∷ third ∷ []))
unfolding find_ready is_ready
found_first = refl

-- The second element waits for the first one's sequence, so the third is found.
found_third :
    find_ready ℕ after_first.open_sequences after_first.queue ≡ some (second ∷ [], (third, []))
unfolding find_ready is_ready fetch open_sequence
found_third = refl

abbrev after_third : Worker ℕ
after_third = fetch ℕ 10 after_first (second ∷ []) third []

one_processed : length after_first.processed < after_first.threads
unfolding fetch
one_processed = ground arith

run_of_three : Reach three after_third
run_of_three =
    Reach.next
      (Reach.next Reach.here
        (Step.take three 9 [] first (second ∷ third ∷ []) (ground arith) found_first))
      (Step.take after_first 10 (second ∷ []) third [] one_processed found_third)

Reach-IsSafe_example : IsSafe after_third
Reach-IsSafe_example = Reach-IsSafe three-IsStarted run_of_three

trace_of_three : Trace three after_third three.queue (first ∷ third ∷ [])
trace_of_three =
    Trace.take 10 (second ∷ []) third [] found_third
      (Trace.take 9 [] first (second ∷ third ∷ []) found_first Trace.here)

Trace-IsInOrder_example : IsInOrder three.queue (first ∷ third ∷ []) after_third.queue
Trace-IsInOrder_example = Trace-IsInOrder trace_of_three

work_all_example :
    let (t, taken) = work ℕ 3 5 three in
    (taken ≡ three.queue) × (t.queue ≡ []) × (t.open_sequences ≡ [])
work_all_example = work_all three.queue three 5 refl refl
