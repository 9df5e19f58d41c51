-- ===== src/UserChannel/Snapshot.antt =====
-- What a snapshot on the "user" channel leaves in the order cache: the loop of
-- src/coinbase/ConnectionORDWS.cpp over `SyncOrder` of src/OrderManager.cpp.
use spot_grid_bot.Base.{
  ℕ, ◌≡◌, inl, inr, Option, none, some, List, [], ◌∷◌, arith, ◌==◌, if◌then◌else◌, Option-cases,
}
use spot_grid_bot.Base.Dict.{lookup, lookup-insert}
use spot_grid_bot.Base.Double.{Double}
use spot_grid_bot.Orders.{Manager, Order, get_order_local, sync_order}
use spot_grid_bot.UserChannel.{
  Item, SnapshotOrder, cached_status, side_of, sync_snapshot_order, sync_snapshot,
}

module _ (D : Double) where
  -- The order that an entry of a snapshot describes: none without id or with a number that does
  -- not convert.
  unfoldable pub described : SnapshotOrder D → Option (Order D)
  described o = if o.order_id == 0 then none else elim o.size [
    | none ↦ none
    | some size ↦ elim o.price [
      | none ↦ none
      | some price ↦ elim o.filled_size [
        | none ↦ none
        | some filled ↦ some (record {
          id = o.order_id;
          side = side_of D o.side;
          price = price;
          quantity = size;
          filled = filled;
          status = cached_status o.status;
        })
      ]
    ]
  ]

  -- That order, if it has the id `k`
  abbrev pub described_as : ℕ → SnapshotOrder D → Option (Order D)
  described_as k o = elim (described o) [
    | none ↦ none
    | some p ↦ if p.id == k then some p else none
  ]

  -- The first and the last entry with the id `k`, before the first that is not an object
  unfoldable pub first_described : ℕ → List (Item (SnapshotOrder D)) → Option (Order D)
  first_described k [] = none
  first_described k (Item.null_item ∷ rest) = first_described k rest
  first_described k (Item.other_item ∷ rest) = none
  first_described k (Item.object o ∷ rest) = elim (described_as k o) [
    | some p ↦ some p
    | none ↦ first_described k rest
  ]

  unfoldable pub last_described : ℕ → List (Item (SnapshotOrder D)) → Option (Order D)
  last_described k [] = none
  last_described k (Item.null_item ∷ rest) = last_described k rest
  last_described k (Item.other_item ∷ rest) = none
  last_described k (Item.object o ∷ rest) = elim (last_described k rest) [
    | some p ↦ some p
    | none ↦ described_as k o
  ]

  abbrev pub either : Option (Order D) → Option (Order D) → Option (Order D)
  either (some p) q = some p
  either none q = q

  -- An order with the status and the filled size of another
  abbrev pub synced : Option (Order D) → Option (Order D) → Option (Order D)
  synced p none = none
  synced none (some o) = some o
  synced (some p) (some o) = some (record o { status = p.status; filled = p.filled })

  -- `SyncOrder` for an entry that describes an order, and nothing for another
  sync_order-lookup :
      (m : Manager D) (p : Order D) (k : ℕ)
      → lookup k (sync_order D m p.id p.side p.price p.quantity p.status p.filled).orders ≡ (
          if p.id == k
          then synced (some p) (either (lookup k m.orders) (some p))
          else lookup k m.orders)
  unfolding sync_order
  sync_order-lookup m p k = elim (Option-cases (lookup p.id m.orders)) [
    | inl e ↦ ground (arith, lookup-insert k p.id p m.orders)
    | inr (o, e) ↦
        ground
          (arith, lookup-insert k p.id (record o { status = p.status; filled = p.filled }) m.orders)
  ]

  sync_described :
      (m : Manager D) (o : SnapshotOrder D)
      → sync_snapshot_order D m o ≡ elim (described o) [
        | none ↦ m
        | some p ↦ sync_order D m p.id p.side p.price p.quantity p.status p.filled
      ]
  unfolding sync_snapshot_order described
  sync_described m o = ground arith

  sync_snapshot_order-lookup :
      (m : Manager D) (o : SnapshotOrder D) (k : ℕ)
      → lookup k (sync_snapshot_order D m o).orders
        ≡ synced (described_as k o) (either (lookup k m.orders) (described_as k o))
  sync_snapshot_order-lookup m o k = elim (Option-cases (described o)) [
    | inl e ↦ ground (arith, sync_described m o)
    | inr (p, e) ↦ ground (arith, sync_described m o, sync_order-lookup m p k)
  ]

  -- After a snapshot every order that an entry describes is in the cache: one that was there
  -- keeps its side, price and quantity, another has those of the first entry with its id, and
  -- both have the status and the filled size of the last one. Every other order stays. An entry
  -- without id or with a number that does not convert describes none, and an element that is not
  -- an object ends the loop.
  pub sync_snapshot-synced :
      (m : Manager D) (orders : List (Item (SnapshotOrder D))) (k : ℕ)
      → get_order_local D (sync_snapshot D m orders).0 k
        ≡ synced
            (last_described k orders)
            (either (get_order_local D m k) (first_described k orders))
  unfolding sync_snapshot first_described last_described get_order_local
  sync_snapshot-synced m [] k = ground arith
  sync_snapshot-synced m (Item.null_item ∷ rest) k = sync_snapshot-synced m rest k
  sync_snapshot-synced m (Item.other_item ∷ rest) k = ground arith
  sync_snapshot-synced m (Item.object o ∷ rest) k = ground (
    arith,
    sync_snapshot-synced (sync_snapshot_order D m o) rest k,
    sync_snapshot_order-lookup m o k,
  )
