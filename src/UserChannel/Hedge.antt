-- ===== src/UserChannel/Hedge.antt =====
-- From the exchange's push to the hedge: `OnOrderUpdate` of src/coinbase/ConnectionORDWS.cpp writes
-- the order cache of src/OrderManager.cpp, which the next round of
-- `GridStrategy::CheckFilledOrders` reads.
use spot_grid_bot.Base.{ℕ, ◌≡◌, ◌<◌, refl, true, none, some, Option, List, [], ◌∷◌, arith, length}
use spot_grid_bot.Base.Double.{Double}
use spot_grid_bot.Instrument.{CurrencyPair}
use spot_grid_bot.Orders.{
  Manager, Order, OrderStatus, Outcome, is_rest, get_order_local, update_order,
}
use spot_grid_bot.Grid.{GridConfig, Strategy, visit}
use spot_grid_bot.Grid.Start.{accepts_all}
use spot_grid_bot.Grid.Visit.{visit_lem, Effect, goes}
use spot_grid_bot.Grid.Known.{Remembers}
use spot_grid_bot.UserChannel.{Item, Event, cached_status, filled_of, on_order_update}
use spot_grid_bot.UserChannel.Updates.{last_update, on_order_update-last}

module _ (D : Double) where
  abbrev pub manager_or : Manager D → Option (Manager D) → Manager D
  manager_or m none = m
  manager_or m (some m') = m'

  -- The strategy after a message with order updates
  unfoldable pub pushed : Strategy D → List (Item (Event D)) → Strategy D
  unfolding on_order_update
  pushed s events = record s {
    manager = manager_or s.manager (on_order_update D (some s.manager) events);
  }

  update_order_frame :
      (m : Manager D) (id : ℕ) (status : OrderStatus) (filled : D.F)
      → let m' = update_order D m id status filled in
        (m'.connection ≡ m.connection) × (m'.sent ≡ m.sent) × (m'.balance ≡ m.balance)
  unfolding update_order
  update_order_frame m id status filled = (ground arith, ground arith, ground arith)

  on_order_update_frame :
      (m : Manager D) (events : List (Item (Event D)))
      → (m' : Manager D) × (on_order_update D (some m) events ≡ some m')
        × ((m'.connection ≡ m.connection) × (m'.sent ≡ m.sent) × (m'.balance ≡ m.balance))
  unfolding on_order_update
  on_order_update_frame m [] = (m, refl, (refl, refl, refl))
  on_order_update_frame m (Item.null_item ∷ rest) = on_order_update_frame m rest
  on_order_update_frame m (Item.other_item ∷ rest) = (m, refl, (refl, refl, refl))
  on_order_update_frame m (Item.object e ∷ rest) =
      let status = cached_status e.status in
      let (a, b, c) = update_order_frame m e.order_id status (filled_of D e) in
      let (m', f, (x, y, z)) =
        on_order_update_frame (update_order D m e.order_id status (filled_of D e)) rest in
      (m', f, (ground arith, ground arith, ground arith))

  -- A message with order updates keeps all of the strategy but the cache of its manager. The next
  -- round for a cached order whose last event has a status and a filled size does with them what
  -- `Effect` and `Remembers` say: the hedge of a filled order, or of the part of a partly filled one
  -- beyond what is remembered of it, and what is remembered then. The connection is REST with an exchange that accepts every order, and the vector has room.
  pub pushed-visit :
      (cfg : GridConfig D) (cp : CurrencyPair) (grow ids : ℕ → ℕ) (s : Strategy D) (id : ℕ)
      (o : Order D) (events : List (Item (Event D))) (e : Event D)
      → is_rest s.manager.connection ≡ true
      → length s.active < s.capacity
      → get_order_local D s.manager id ≡ some o
      → last_update D id events ≡ some e
      → let s' = pushed s events in
        let (t, answer) = visit D (accepts_all ids) cfg cp grow s' id in
        (answer ≡ Outcome.returned (goes D cfg cp grow ids (cached_status e.status)))
        × Effect D cfg cp grow ids s' id (filled_of D e) (cached_status e.status) t
        × Remembers D cfg cp grow ids s' id (filled_of D e) (cached_status e.status) t
        × (s'.manager.sent ≡ s.manager.sent)
        × (s'.manager.balance ≡ s.manager.balance)
  unfolding pushed
  pushed-visit cfg cp grow ids s id o events e r room known last =
      let (m', f, (x, y, z)) = on_order_update_frame s.manager events in
      let s' = pushed s events in
      let o' : Order D = record o { status = cached_status e.status; filled = filled_of D e } in
      let cached = on_order_update-last D (some s.manager) events id in
      let (a, b, c) =
        visit_lem D cfg cp grow ids s' id o' (ground arith) (ground arith)
          (ground (arith, cached)) in
      (a, b, c, (ground arith), ground arith)
