-- ===== src/UserChannel/Updates.antt =====
-- What the order updates of a message of the "user" channel leave in the order cache:
-- `OnOrderUpdate` of src/coinbase/ConnectionORDWS.cpp on the manager of src/OrderManager.cpp.
use spot_grid_bot.Base.{
  ℕ, ◌≡◌, refl, inl, inr, Bool, true, false, ◌||◌, Option, none, some, List, [], ◌∷◌, arith, ◌==◌,
  if◌then◌else◌, Bool-cases,
}
use spot_grid_bot.Base.Double.{Double}
use spot_grid_bot.Orders.{Manager, Order, same_text, get_order_local, update_order}
use spot_grid_bot.Orders.Cache.{update_order-lookup}
use spot_grid_bot.UserChannel.{
  Item, Event, cached_status, filled_of, on_order_update, user_event, user_events, on_user,
}

module _ (D : Double) where
  -- An order of the cache, when there is a manager
  abbrev pub order_in : Option (Manager D) → ℕ → Option (Order D)
  order_in none k = none
  order_in (some m) k = get_order_local D m k

  -- The last event that names the order `k`, before the first element that is not an object
  unfoldable pub last_update : ℕ → List (Item (Event D)) → Option (Event D)
  last_update k [] = none
  last_update k (Item.null_item ∷ rest) = last_update k rest
  last_update k (Item.other_item ∷ rest) = none
  last_update k (Item.object e ∷ rest) = elim (last_update k rest) [
    | some later ↦ some later
    | none ↦ if e.order_id == k then some e else none
  ]

  -- An order with the status and the filled size of an event
  abbrev pub written : Event D → Order D → Order D
  written e o = record o { status = cached_status e.status; filled = filled_of D e }

  abbrev pub after_update : Option (Event D) → Option (Order D) → Option (Order D)
  after_update e none = none
  after_update none (some o) = some o
  after_update (some e) (some o) = some (written e o)

  -- After the updates of a message an order of the cache has the status and the filled size of
  -- the last event with its id, and its own side, price and quantity; an order that no event
  -- names stays, and no order enters or leaves the cache. An element that is not an object ends
  -- the loop, and what came before it stays written.
  pub on_order_update-last :
      (m : Option (Manager D)) (events : List (Item (Event D))) (k : ℕ)
      → order_in (on_order_update D m events) k ≡ after_update (last_update k events) (order_in m k)
  unfolding on_order_update last_update get_order_local
  on_order_update-last none events k = refl
  on_order_update-last (some m) [] k = ground arith
  on_order_update-last (some m) (Item.null_item ∷ rest) k = on_order_update-last (some m) rest k
  on_order_update-last (some m) (Item.other_item ∷ rest) k = ground arith
  on_order_update-last (some m) (Item.object e ∷ rest) k = ground (
    arith,
    on_order_update-last
        (some (update_order D m e.order_id (cached_status e.status) (filled_of D e))) rest k,
    update_order-lookup D m e.order_id k (cached_status e.status) (filled_of D e),
  )

  -- No element is something other than an object, and each event has a type, which is not "snapshot".
  unfoldable pub is_plain : List (Item (Event D)) → Bool
  is_plain [] = true
  is_plain (Item.null_item ∷ rest) = is_plain rest
  is_plain (Item.other_item ∷ rest) = false
  is_plain (Item.object e ∷ rest) = elim e.kind [
    | none ↦ false
    | some kind ↦ if same_text kind "snapshot" then false else is_plain rest
  ]

  unfoldable pub has_update : List (Item (Event D)) → Bool
  has_update [] = false
  has_update (Item.object e ∷ rest) =
      elim e.kind [ none ↦ false | some kind ↦ same_text kind "update" ] || has_update rest
  has_update (_ ∷ rest) = has_update rest

  after_update_twice :
      (e : Option (Event D)) (o : Option (Order D))
      → after_update e (after_update e o) ≡ after_update e o
  after_update_twice e none = refl
  after_update_twice none (some o) = refl
  after_update_twice (some e) (some o) = refl

  user_events-last :
      (events rest : List (Item (Event D))) (m : Option (Manager D)) (k : ℕ)
      → is_plain rest ≡ true
      → let (m', ends) = user_events D events m rest in
        (ends ≡ true)
        × (order_in m' k ≡ (
            if has_update rest
            then after_update (last_update k events) (order_in m k)
            else order_in m k))
  unfolding user_events user_event is_plain has_update
  user_events-last events [] m k h = (refl, refl)
  user_events-last events (Item.null_item ∷ rest) m k h = user_events-last events rest m k h
  user_events-last events (Item.other_item ∷ rest) m k h = ground arith
  user_events-last events (Item.object e ∷ rest) m k h =
      let later = on_order_update D m events in
      elim (Bool-cases (has_update rest)) [
        | inl u ↦ ground (
          arith,
          user_events-last events rest m k,
          user_events-last events rest later k,
          on_order_update-last m events k,
          after_update_twice (last_update k events) (order_in m k),
        )
        | inr u ↦ ground (
          arith,
          user_events-last events rest m k,
          user_events-last events rest later k,
          on_order_update-last m events k,
        )
      ]

  -- The "user" handler on a message without snapshots returns, and each order of the cache is as
  -- if the message's updates had been applied once, though the handler applies all of them again
  -- for each update event; without an update event nothing changes.
  pub on_user-last :
      (m : Option (Manager D)) (events : List (Item (Event D))) (k : ℕ)
      → is_plain events ≡ true
      → let (m', ends) = on_user D m events in
        (ends ≡ true)
        × (order_in m' k
            ≡ (if has_update events then order_in (on_order_update D m events) k else order_in m k))
  unfolding on_user
  on_user-last m events k h =
      ground (arith, user_events-last events events m k h, on_order_update-last m events k)
