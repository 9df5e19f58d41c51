-- ===== src/UserChannel.antt =====
-- `COINBASE::ConnectionORDWS` of src/coinbase/ConnectionORDWS.cpp: the order updates and snapshots
-- that the exchange pushes over its "user" channel, and the orders sent over the same socket. A
-- JSON document is what the code reads of it: `optValue` gives a default for a member that is
-- missing or of another type, and `stod` of a text is none when it throws. The order manager is
-- none when the connection manager has no pointer to it.
pub mod Status
pub mod Updates
pub mod Snapshot
pub mod Pending
pub mod Hedge
pub mod Tests
use Prim.Native.String.{String}
use spot_grid_bot.Base.{
  ℕ, suc, Bool, true, false, ◌||◌, Option, none, some, List, [], ◌∷◌, ◌==◌, if◌then◌else◌,
}
use spot_grid_bot.Base.Double.{Double}
use spot_grid_bot.FixTypes.{Side, buy_side, sell_side, is_buy}
use spot_grid_bot.Instrument.{CurrencyPair}
use spot_grid_bot.Orders.{Manager, OrderStatus, same_text, update_order, sync_order, zero_f}

-- An element of a JSON array, extracted as an object: a null pointer, or an exception when it is
-- something else.
pub data Item {ℓ} (A : Type ℓ) : Type ℓ where
  null_item : Item A
  other_item : Item A
  object : A → Item A

-- The translation of a status in `OnOrderUpdate`, and the same in the snapshot's loop
unfoldable pub cached_status : String → OrderStatus
cached_status s =
    if same_text s "OPEN" || same_text s "PENDING"
    then OrderStatus.new_order
    else if same_text s "FILLED" || same_text s "DONE"
    then OrderStatus.filled_order
    else if same_text s "CANCELLED"
    then OrderStatus.canceled_order
    else if same_text s "REJECTED" || same_text s "FAILED"
    then OrderStatus.rejected_order
    else if same_text s "PARTIALLY_FILLED"
    then OrderStatus.partly_filled_order
    else OrderStatus.new_order

-- `TranslateOrderStatus`: the characters ORDSTATUS and EXECTYPE of FixDefs.h
unfoldable pub translate_order_status : String → ℕ × ℕ
translate_order_status s =
    if same_text s "OPEN" || same_text s "PENDING" || same_text s "NEW"
    then (b'0', b'0')
    else if same_text s "FILLED" || same_text s "DONE" || same_text s "FILLED"
    then (b'2', b'2')
    else if same_text s "CANCELLED" || same_text s "CANCELED"
    then (b'4', b'4')
    else if same_text s "REJECTED" || same_text s "FAILED" || same_text s "REJECTED"
    then (b'8', b'8')
    else if same_text s "PARTIALLY_FILLED" || same_text s "PARTIALLY_FILLED"
    then (b'1', b'1')
    else if same_text s "EXPIRED" || same_text s "EXPIRED"
    then (b'C', b'C')
    else (b'0', b'0')

module _ (D : Double) where
  -- What the snapshot's loop reads of an order
  pub record SnapshotOrder : Type 0 where
    pub order_id : ℕ
    pub side : String
    pub status : String
    pub size : Option D.F
    pub price : Option D.F
    pub filled_size : Option D.F

  -- What the handlers read of an event: its type, none when it has none; the members of an update;
  -- its orders, none of which when the array is missing.
  pub record Event : Type 0 where
    pub kind : Option String
    pub order_id : ℕ
    pub status : String
    pub filled_size : Option D.F
    pub orders : List (Item SnapshotOrder)

  abbrev pub filled_of : Event → D.F
  filled_of e = elim e.filled_size [ none ↦ zero_f D | some f ↦ f ]

  -- `OnOrderUpdate`: what throws is caught around the loop.
  unfoldable pub on_order_update : Option (Manager D) → List (Item Event) → Option (Manager D)
  on_order_update none events = none
  on_order_update (some m) [] = some m
  on_order_update (some m) (Item.null_item ∷ rest) = on_order_update (some m) rest
  on_order_update (some m) (Item.other_item ∷ rest) = some m
  on_order_update (some m) (Item.object e ∷ rest) =
      on_order_update (some (update_order D m e.order_id (cached_status e.status) (filled_of e)))
        rest

  abbrev pub side_of : String → Side
  side_of s = if same_text s "BUY" then buy_side else sell_side

  -- The body of the snapshot's loop: an order whose numbers do not convert is skipped.
  unfoldable pub sync_snapshot_order : Manager D → SnapshotOrder → Manager D
  sync_snapshot_order m o = if o.order_id == 0 then m else elim o.size [
    | none ↦ m
    | some size ↦ elim o.price [
      | none ↦ m
      | some price ↦ elim o.filled_size [
        | none ↦ m
        | some filled ↦
            sync_order D m o.order_id (side_of o.side) price size (cached_status o.status) filled
      ]
    ]
  ]

  -- The snapshot's loop, and whether it ends without an exception
  unfoldable pub sync_snapshot : Manager D → List (Item SnapshotOrder) → Manager D × Bool
  sync_snapshot m [] = (m, true)
  sync_snapshot m (Item.null_item ∷ rest) = sync_snapshot m rest
  sync_snapshot m (Item.other_item ∷ rest) = (m, false)
  sync_snapshot m (Item.object o ∷ rest) = sync_snapshot (sync_snapshot_order m o) rest

  unfoldable pub on_snapshot :
      Option (Manager D) → List (Item SnapshotOrder) → Option (Manager D) × Bool
  unfolding sync_snapshot
  on_snapshot none orders = (none, true)
  on_snapshot (some m) orders = let (m', ends) = sync_snapshot m orders in (some m', ends)

  -- One event of the "user" handler. An update event hands on all events of the message.
  unfoldable pub user_event :
      List (Item Event) → Option (Manager D) → Event → Option (Manager D) × Bool
  unfolding on_order_update on_snapshot
  user_event events m e = elim e.kind [
    | none ↦ (m, false)
    | some kind ↦
        if same_text kind "snapshot"
        then on_snapshot m e.orders
        else if same_text kind "update"
        then (on_order_update m events, true)
        else (m, true)
  ]

  unfoldable pub user_events :
      List (Item Event) → Option (Manager D) → List (Item Event) → Option (Manager D) × Bool
  user_events events m [] = (m, true)
  user_events events m (Item.null_item ∷ rest) = user_events events m rest
  user_events events m (Item.other_item ∷ rest) = (m, false)
  user_events events m (Item.object e ∷ rest) =
      let (m', ends) = user_event events m e in
      let later = user_events events m' rest in if ends then later else (m', false)

  -- The handler of the "user" channel, and whether it returns without an exception
  unfoldable pub on_user : Option (Manager D) → List (Item Event) → Option (Manager D) × Bool
  unfolding user_events
  on_user m events = user_events events m events
