-- ===== src/Messages/Tests.antt =====
-- The theorems about the message processor, with handlers that add to a number.
use spot_grid_bot.Base.{ℕ, ◌+◌, ◌≡◌, refl, false, some, [], ◌∷◌, arith, length}
use spot_grid_bot.Base.Dict.{lookup}
use spot_grid_bot.Worker.{work}
use spot_grid_bot.Messages.{Processor, Handler, find_message_handler, get_message_type, handle_all}
use spot_grid_bot.Messages.Dispatch.{process_all, effect, handler_of, messages_in_order}

abbrev add_message : Handler 0 ℕ ℕ
add_message m s = m + s

abbrev processor : ℕ → Processor 0 ℕ ℕ
processor size = record {
  detector = some (λ m. m);
  handlers = (5, add_message) ∷ [];
  messages = record {
    queue = [];
    open_sequences = [];
    max_queue_size = size;
    shutdown = false;
    waiting_since = 0;
    threads = 1;
    processed = [];
  };
}

handler_5 : handler_of 0 ℕ ℕ (processor 0) 5 ≡ some add_message
unfolding find_message_handler get_message_type lookup
handler_5 = refl

messages_in_order_example :
    let p' = process_all 0 ℕ ℕ 3 (processor 9) (5 ∷ 6 ∷ 5 ∷ []) in
    let (w, taken) = work (ℕ × Handler 0 ℕ ℕ) (length p'.messages.queue) 4 p'.messages in
    (handle_all 0 ℕ ℕ taken 1
      ≡ effect 0 ℕ ℕ
          (processor 9)
          (5 ∷ 6 ∷ 5 ∷ [])
          (handle_all 0 ℕ ℕ (processor 9).messages.queue 1))
    × (w.queue ≡ [])
messages_in_order_example =
    messages_in_order 0 ℕ ℕ 3 4 (5 ∷ 6 ∷ 5 ∷ []) (processor 9) 1 refl (ground arith) refl
