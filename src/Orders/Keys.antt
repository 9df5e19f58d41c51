-- ===== src/Orders/Keys.antt =====
-- The ids of the orders in the cache of `OrderManager` of src/OrderManager.cpp, and the keys under
-- which they stand.
use spot_grid_bot.Base.{
  ℕ, ◌≡◌, refl, inl, inr, Bool, Option, none, some, List, [], ◌∷◌, arith, ◌==◌, Option-cases,
  Bool-cases, ==→eq, length,
}
use spot_grid_bot.Base.Dict.{Dict, lookup, insert, erase, lookup-insert, lookup-erase}
use spot_grid_bot.Base.Double.{Double}
use spot_grid_bot.FixTypes.{Side}
use spot_grid_bot.Instrument.{CurrencyPair, Currency}
use spot_grid_bot.Orders.{
  Manager, Order, Request, OrderStatus, Reply, QueryReply, Account, place_limit_order, note_reply,
  cancel_order, get_order, refresh, order_status, write_status, update_order, sync_order,
  get_balance, set_balance, initialize_balances, enter_accounts, enter_account, fresh_order,
}

module _ (D : Double) where
  unfoldable pub IsKeyed : Dict (Order D) → Type 0
  IsKeyed d = (k : ℕ) (o : Order D) → lookup k d ≡ some o → o.id ≡ k

  -- One call of the manager, with what the exchange answers to it
  pub data Call : Type 0 where
    place : CurrencyPair → Side → D.F → D.F → Call
    cancel : Bool → ℕ → Call
    query : QueryReply D → ℕ → Call
    update : ℕ → OrderStatus → D.F → Call
    sync : ℕ → Side → D.F → D.F → OrderStatus → D.F → Call
    read_balance : Currency → Call
    write_balance : Currency → D.F → Call
    read_accounts : Dict Currency → Option (List (Account D)) → Call

  unfoldable pub apply : (ℕ → Reply) → Call → Manager D → Manager D
  apply exchange (place cp side price qty) m = (place_limit_order D exchange m cp side price qty).0
  apply exchange (cancel fails id) m = (cancel_order D fails m id).0
  apply exchange (query reply id) m = (get_order D reply m id).0
  apply exchange (update id status filled) m = update_order D m id status filled
  apply exchange (sync id side price qty status filled) m =
      sync_order D m id side price qty status filled
  apply exchange (read_balance c) m = (get_balance D m c).0
  apply exchange (write_balance c b) m = set_balance D m c b
  apply exchange (read_accounts names listing) m = initialize_balances D names listing m

  insert-IsKeyed :
      (k : ℕ) (o : Order D) (d : Dict (Order D)) → o.id ≡ k → IsKeyed d → IsKeyed (insert k o d)
  unfolding IsKeyed
  insert-IsKeyed k o d e h j p q = elim (Bool-cases (k == j)) [
    | inl t ↦ ground (arith, lookup-insert j k o d, ==→eq k j t)
    | inr t ↦ ground (arith, lookup-insert j k o d, h j p)
  ]

  found-key :
      (k : ℕ) (o : Order D) (d : Dict (Order D)) → IsKeyed d → lookup k d ≡ some o → o.id ≡ k
  unfolding IsKeyed
  found-key k o d h e = h k o e

  erase-IsKeyed : (k : ℕ) (d : Dict (Order D)) → IsKeyed d → IsKeyed (erase k d)
  unfolding IsKeyed
  erase-IsKeyed k d h j p q = ground (arith, lookup-erase j k d, h j p)

  accounts-orders :
      (names : Dict Currency) (m : Manager D) (l : List (Account D))
      → (enter_accounts D names m l).orders ≡ m.orders
  unfolding enter_accounts enter_account set_balance
  accounts-orders names m [] = refl
  accounts-orders names m (a ∷ l) =
      ground (arith, accounts-orders names (enter_account D names m a) l)

  write_status-IsKeyed :
      (m : Manager D) (id : ℕ) (o : Order D) (st : Option OrderStatus) (f : Option D.F)
      → o.id ≡ id
      → IsKeyed m.orders
      → IsKeyed (write_status D m id o st f).0.orders
  unfolding write_status
  write_status-IsKeyed m id o none f e h = h
  write_status-IsKeyed m id o (some st) none e h =
      insert-IsKeyed id (record o { status = st }) m.orders e h
  write_status-IsKeyed m id o (some st) (some f) e h =
      insert-IsKeyed id (record o { status = st; filled = f }) m.orders e h

  refresh-IsKeyed :
      (m : Manager D) (id : ℕ) (o : Order D) (reply : QueryReply D)
      → o.id ≡ id
      → IsKeyed m.orders
      → IsKeyed (refresh D m id o reply).0.orders
  unfolding refresh
  refresh-IsKeyed m id o QueryReply.query_broken e h = h
  refresh-IsKeyed m id o QueryReply.query_refused e h = h
  refresh-IsKeyed m id o (QueryReply.answered text size) e h =
      write_status-IsKeyed m id o (order_status text) size e h

  note_reply-IsKeyed :
      (m : Manager D) (r : Reply) (side : Side) (price qty : D.F)
      → IsKeyed m.orders
      → IsKeyed (note_reply D m r side price qty).0.orders
  unfolding note_reply
  note_reply-IsKeyed m Reply.broken side price qty h = h
  note_reply-IsKeyed m Reply.refused side price qty h = h
  note_reply-IsKeyed m (Reply.accepted id) side price qty h =
      insert-IsKeyed id (fresh_order D id side price qty) m.orders refl h

  -- Each call of the manager keeps every order of its cache under the order's own id, whatever
  -- the exchange answers.
  pub apply-IsKeyed :
      (exchange : ℕ → Reply) (c : Call) (m : Manager D)
      → IsKeyed m.orders
      → IsKeyed (apply exchange c m).orders
  unfolding apply place_limit_order cancel_order get_order update_order sync_order get_balance
      set_balance initialize_balances
  apply-IsKeyed exchange (Call.place cp side price qty) m h =
      let request : Request D = record {
        instrument = cp;
        side = side;
        price = price;
        quantity = qty;
      } in
      ground (
        arith,
        h,
        note_reply-IsKeyed (record m { sent = request ∷ m.sent }) (exchange (length m.sent)) side
            price qty h,
      )
  apply-IsKeyed exchange (Call.cancel fails id) m h = ground (arith, h, erase-IsKeyed id m.orders h)
  apply-IsKeyed exchange (Call.query reply id) m h = elim (Option-cases (lookup id m.orders)) [
    | inl e ↦ ground (arith, h)
    | inr (o, e) ↦ ground (arith, h, refresh-IsKeyed m id o reply (found-key id o m.orders h e) h)
  ]
  apply-IsKeyed exchange (Call.update id status filled) m h =
      elim (Option-cases (lookup id m.orders)) [
        | inl e ↦ ground (arith, h)
        | inr (o, e) ↦ ground (
          arith,
          h,
          insert-IsKeyed id (record o { status = status; filled = filled }) m.orders
              (found-key id o m.orders h e) h,
        )
      ]
  apply-IsKeyed exchange (Call.sync id side price qty status filled) m h =
      let new_entry : Order D = record {
        id = id;
        side = side;
        price = price;
        quantity = qty;
        filled = filled;
        status = status;
      } in
      elim (Option-cases (lookup id m.orders)) [
        | inl e ↦ ground (arith, insert-IsKeyed id new_entry m.orders refl h)
        | inr (o, e) ↦ ground (
          arith,
          insert-IsKeyed id (record o { status = status; filled = filled }) m.orders
              (found-key id o m.orders h e) h,
        )
      ]
  apply-IsKeyed exchange (Call.read_balance c) m h = ground (arith, h)
  apply-IsKeyed exchange (Call.write_balance c b) m h = h
  apply-IsKeyed exchange (Call.read_accounts names none) m h = ground (arith, h)
  apply-IsKeyed exchange (Call.read_accounts names (some l)) m h =
      ground (arith, h, accounts-orders names m l)
