-- ===== src/Messages/Dispatch.antt =====
-- What the handlers of `MessageProcessor` of src/MessageProcessor.cpp do to a sequence of messages, and
-- what becomes of a message that the queue refuses.
use spot_grid_bot.Base.{
  ℕ, suc, ◌+◌, ◌≤◌, ◌≡◌, refl, ap, ◌∙◌, inl, inr, true, false, Option, none, some, List, [], ◌∷◌,
  ◌++◌, arith, ◌==◌, ltb, if◌then◌else◌, length, length-append, Option-cases,
}
use spot_grid_bot.Base.Dict.{lookup-insert}
use spot_grid_bot.Worker.{Element, enqueue_tagged, work}
use spot_grid_bot.Worker.Order.{work_all}
use spot_grid_bot.Messages.{
  Processor, Handler, get_message_type, register, find_message_handler, enqueue, process_message,
  handle_all,
}

module _ (no_detector : ℕ) (M S : Type 0) where
  abbrev pub Queued : Type 0
  Queued = Element (M × Handler no_detector M S)

  -- `ProcessMessage` for one message after another
  abbrev pub process_all : ℕ → Processor no_detector M S → List M → Processor no_detector M S
  process_all now p [] = p
  process_all now p (m ∷ l) = process_all now (process_message no_detector M S now p (some m)).0 l

  -- The handler of a message, and the effect of the messages one after the other
  abbrev pub handler_of : Processor no_detector M S → M → Option (Handler no_detector M S)
  handler_of p m = find_message_handler no_detector M S p (get_message_type no_detector M S p m)

  abbrev pub effect : Processor no_detector M S → List M → S → S
  effect p [] s = s
  effect p (m ∷ l) s = effect p l (elim (handler_of p m) [ none ↦ s | some h ↦ h m s ])

  -- `Register`: the first handler of a type stays, and a null handler is refused.
  pub register_first :
      (p : Processor no_detector M S) (kind other : ℕ) (h : Option (Handler no_detector M S))
      → let (p', ok) = register no_detector M S p kind h in
        (find_message_handler no_detector M S p' other ≡ (
          if kind == other
          then elim (find_message_handler no_detector M S p kind) [ none ↦ h | some old ↦ some old ]
          else find_message_handler no_detector M S p other))
        × (p'.messages ≡ p.messages)
  unfolding register find_message_handler
  register_first p kind other none = (ground arith, refl)
  register_first p kind other (some h) =
      (ground (arith, lookup-insert other kind h p.handlers), ground arith)

  -- `ProcessMessage` on a message with a handler answers true, also when the queue is full or the
  -- processor is being stopped; then nothing is queued.
  pub process_message_drops :
      (now : ℕ) (p : Processor no_detector M S) (m : M) (h : Handler no_detector M S)
      → handler_of p m ≡ some h
      → let (p', ok) = process_message no_detector M S now p (some m) in
        (ok ≡ true)
        × (p'.messages.queue ≡ (
            if p.messages.shutdown
            then p.messages.queue
            else if ltb (length p.messages.queue) p.messages.max_queue_size
            then p.messages.queue ++ (record { tag = none; args = (m, h) } ∷ [])
            else p.messages.queue))
  unfolding process_message enqueue enqueue_tagged
  process_message_drops now p m h e = (ground arith, ground arith)

  handle_all-append :
      (l k : List Queued) (s : S)
      → handle_all no_detector M S (l ++ k) s
        ≡ handle_all no_detector M S k (handle_all no_detector M S l s)
  unfolding handle_all
  handle_all-append [] k s = refl
  handle_all-append (e ∷ l) k s = handle_all-append l k (e.args.1 e.args.0 s)

  -- What one `ProcessMessage` with room in the queue adds to it and keeps
  process_one :
      (now : ℕ) (p : Processor no_detector M S) (m : M) (s : S)
      → p.messages.shutdown ≡ false
      → suc (length p.messages.queue) ≤ p.messages.max_queue_size
      → let p' = (process_message no_detector M S now p (some m)).0 in
        (handle_all no_detector M S p'.messages.queue s ≡ elim (handler_of p m) [
          | none ↦ handle_all no_detector M S p.messages.queue s
          | some h ↦ h m (handle_all no_detector M S p.messages.queue s)
        ])
        × (p'.messages.shutdown ≡ false)
        × (length p'.messages.queue ≤ suc (length p.messages.queue))
        × (p'.messages.max_queue_size ≡ p.messages.max_queue_size)
        × (p'.messages.open_sequences ≡ p.messages.open_sequences)
        × (p'.handlers ≡ p.handlers)
        × (p'.detector ≡ p.detector)
  unfolding process_message enqueue enqueue_tagged handle_all
  process_one now p m s run room = elim (Option-cases (handler_of p m)) [
    | inl n ↦ (
      ground arith,
      ground arith,
      ground arith,
      ground arith,
      ground arith,
      ground arith,
      ground arith,
    )
    | inr (h, n) ↦
        let e : Queued = record { tag = none; args = (m, h) } in
        (
          ground (arith, handle_all-append p.messages.queue (e ∷ []) s),
          ground arith,
          ground (arith, length-append p.messages.queue (e ∷ [])),
          ground arith,
          ground arith,
          ground arith,
          ground arith,
        )
  ]

  effect_same :
      (p q : Processor no_detector M S) (l : List M) (s : S)
      → q.handlers ≡ p.handlers
      → q.detector ≡ p.detector
      → effect q l s ≡ effect p l s
  unfolding find_message_handler get_message_type
  effect_same p q [] s h d = refl
  effect_same p q (m ∷ l) s h d =
      rw (h, d) (effect_same p q l (elim (handler_of p m) [ none ↦ s | some f ↦ f m s ]) h d)

  process_all-effect :
      (now : ℕ) (l : List M) (p : Processor no_detector M S) (s : S)
      → p.messages.shutdown ≡ false
      → length p.messages.queue + length l ≤ p.messages.max_queue_size
      → let p' = process_all now p l in
        (handle_all no_detector M S p'.messages.queue s
          ≡ effect p l (handle_all no_detector M S p.messages.queue s))
        × (p'.messages.open_sequences ≡ p.messages.open_sequences)
  process_all-effect now [] p s run room = (refl, refl)
  process_all-effect now (m ∷ l) p s run room =
      let p' = (process_message no_detector M S now p (some m)).0 in
      let (a, b, c, d, e, f, g) = process_one now p m s run (ground (arith, room)) in
      let (x, y) = process_all-effect now l p' s b (ground (arith, room)) in
      (
        x
            ∙ effect_same p p' l (handle_all no_detector M S p'.messages.queue s) f g
            ∙ ap (effect p l) a,
        y ∙ e,
      )

  -- A running processor whose queue has room for some messages: after `ProcessMessage` of each, the
  -- worker's thread, undisturbed, empties the queue, and the state is what the queued handlers make of it and
  -- then, message after message in the order of arrival, the handler that is registered for the
  -- message's type; a message whose type has no handler changes nothing.
  pub messages_in_order :
      (now later : ℕ) (l : List M) (p : Processor no_detector M S) (s : S)
      → p.messages.shutdown ≡ false
      → length p.messages.queue + length l ≤ p.messages.max_queue_size
      → p.messages.open_sequences ≡ []
      → let p' = process_all now p l in
        let (w, taken) =
          work (M × Handler no_detector M S) (length p'.messages.queue) later p'.messages in
        (handle_all no_detector M S taken s
          ≡ effect p l (handle_all no_detector M S p.messages.queue s))
        × (w.queue ≡ [])
  messages_in_order now later l p s run room opened =
      let p' = process_all now p l in
      let (x, y) = process_all-effect now l p s run room in
      let (a, b, c) = work_all p'.messages.queue p'.messages later refl (y ∙ opened) in
      (ap (λ t. handle_all no_detector M S t s) a ∙ x, b)
