-- ===== src/Messages.antt =====
-- `CRYPTO::MessageProcessor` of include/MessageProcessor.h and src/MessageProcessor.cpp: the handlers of
-- message types and the queue of a `BackgroundWorker` with one thread. A type is a text; a message
-- or a handler that is a null pointer is none.
pub mod Dispatch
pub mod Tests
use spot_grid_bot.Base.{ℕ, Bool, true, false, Option, none, some, List, [], ◌∷◌}
use spot_grid_bot.Base.Dict.{Dict, lookup, insert, contains}
use spot_grid_bot.Worker.{Worker, Element, enqueue_tagged, begin_stop, end_stop, start_worker}

-- The type that a processor without detector reports
module _ (no_detector : ℕ) (M S : Type 0) where
  -- What a handler does to the state that the handlers share
  abbrev pub Handler : Type 0
  Handler = M → S → S

  -- `m_messageTypeDetector`, `m_messageHandlers` and `m_messageQueue`
  pub record Processor : Type 0 where
    pub detector : Option (M → ℕ)
    pub handlers : Dict Handler
    pub messages : Worker (M × Handler)

  -- `GetMessageType`
  unfoldable pub get_message_type : Processor → M → ℕ
  get_message_type p m = elim p.detector [ none ↦ no_detector | some detect ↦ detect m ]

  -- `Register` of a detector
  unfoldable pub register_detector : Processor → (M → ℕ) → Processor
  register_detector p detect = record p { detector = some detect }

  -- `Register` of a handler, and whether it is taken
  unfoldable pub register : Processor → ℕ → Option Handler → Processor × Bool
  register p kind none = (p, false)
  register p kind (some h) = elim (lookup kind p.handlers) [
    | none ↦ (record p { handlers = insert kind h p.handlers }, true)
    | some old ↦ (p, false)
  ]

  -- `FindMessageHandler`
  unfoldable pub find_message_handler : Processor → ℕ → Option Handler
  find_message_handler p kind = lookup kind p.handlers

  -- `Enqueue`
  unfoldable pub enqueue : ℕ → Processor → Option M → Option Handler → Processor × Bool
  enqueue now p none h = (p, false)
  enqueue now p (some m) none = (p, false)
  enqueue now p (some m) (some h) =
      let e : Element (M × Handler) = record { tag = none; args = (m, h) } in
      let (w, ok) = enqueue_tagged (M × Handler) now p.messages e in (record p { messages = w }, ok)

  -- `ProcessMessage`, which does not look at the result of `Enqueue`
  unfoldable pub process_message : ℕ → Processor → Option M → Processor × Bool
  unfolding get_message_type find_message_handler enqueue
  process_message now p none = (p, false)
  process_message now p (some m) =
      let h = find_message_handler p (get_message_type p m) in
      elim h [ none ↦ (p, false) | some found ↦ ((enqueue now p (some m) (some found)).0, true) ]

  -- `Start`
  unfoldable pub start_processor : Processor → Option Processor
  start_processor p = elim (start_worker (M × Handler) p.messages 1 100_000) [
    | none ↦ none
    | some w ↦ some (record p { messages = w })
  ]

  -- `Stop`, before its thread is joined and after
  unfoldable pub begin_stop_processor : Processor → Processor
  begin_stop_processor p = record p { messages = begin_stop (M × Handler) p.messages true false }

  unfoldable pub end_stop_processor : Processor → Processor
  end_stop_processor p = record p { messages = end_stop (M × Handler) p.messages }

  -- The worker's action on the elements that it takes
  unfoldable pub handle_all : List (Element (M × Handler)) → S → S
  handle_all [] s = s
  handle_all (e ∷ l) s = handle_all l (e.args.1 e.args.0 s)
