-- ===== src/Orders.antt =====
-- `OrderManager` of include/OrderManager.h and src/OrderManager.cpp, with `Order` and
-- `OrderStatus` of lib/gridbot/include/IOrderManager.h. An order's id is a text, here its number
-- in an enumeration in which the empty text has number 0. The connection belongs to the exchange:
-- what a call of it answers is an argument.
pub mod Cache
pub mod Keys
pub mod Balances
pub mod Tests
use Prim.Native.String.{String, compare}
use Prim.Native.Nat.{Ordering}
use spot_grid_bot.Base.{
  ℕ, ◌≡◌, ap, Bool, true, false, ◌||◌, Option, none, some, List, [], ◌∷◌, ◌==◌, if◌then◌else◌,
  length,
}
use spot_grid_bot.Base.Int.{pos}
use spot_grid_bot.Base.Dict.{Dict, lookup, insert, erase, contains, lookup_or}
use spot_grid_bot.Base.Double.{Double}
use spot_grid_bot.FixTypes.{Side}
use spot_grid_bot.Instrument.{Currency, CurrencyPair, str_to_val}

pub data OrderStatus : Type 0 where
  new_order : OrderStatus
  partly_filled_order : OrderStatus
  filled_order : OrderStatus
  canceled_order : OrderStatus
  rejected_order : OrderStatus

abbrev pub same_text : String → String → Bool
same_text s t = elim (compare s t) [ Ordering.eq ↦ true | _ ↦ false ]

-- `order_status`; none is the exception.
unfoldable pub order_status : String → Option OrderStatus
order_status s =
    if same_text s "NEW"
    then some OrderStatus.new_order
    else if same_text s "PARTIALLY_FILLED"
    then some OrderStatus.partly_filled_order
    else if same_text s "FILLED"
    then some OrderStatus.filled_order
    else if same_text s "CANCELED"
    then some OrderStatus.canceled_order
    else if same_text s "REJECTED"
    then some OrderStatus.rejected_order
    else none

-- How a call ends: with a value, with an exception, or with undefined behaviour.
pub data Outcome {ℓ} (A : Type ℓ) : Type ℓ where
  returned : A → Outcome A
  thrown : Outcome A
  undefined : Outcome A

-- The next call, unless the one before threw or was undefined; the state is kept either way.
abbrev pub follow {ℓ κ μ} :
    {S : Type ℓ} {A : Type κ} {B : Type μ} → S × Outcome A → (S → A → S × Outcome B) → S × Outcome B
follow (s, Outcome.returned a) f = f s a
follow (s, Outcome.thrown) f = (s, Outcome.thrown)
follow (s, Outcome.undefined) f = (s, Outcome.undefined)

pub follow-returned {ℓ κ μ} :
    {S : Type ℓ} {A : Type κ} {B : Type μ} (r : S × Outcome A) (f : S → A → S × Outcome B) (a : A)
    → r.1 ≡ Outcome.returned a
    → follow r f ≡ f r.0 a
follow-returned r f a e = ap (λ o. follow (r.0, o) f) e

pub follow-undefined {ℓ κ μ} :
    {S : Type ℓ} {A : Type κ} {B : Type μ} (r : S × Outcome A) (f : S → A → S × Outcome B)
    → r.1 ≡ Outcome.undefined
    → (follow r f).1 ≡ Outcome.undefined
follow-undefined r f e = ap (λ o. (follow (r.0, o) f).1) e

-- What `OrderConnection()` is: null, a `COINBASE::ConnectionORD`, another `RestConnectionBase`,
-- a `COINBASE::ConnectionORDWS`, or something else.
pub data Connection : Type 0 where
  no_connection : Connection
  coinbase_rest : Connection
  other_rest : Connection
  websocket : Connection
  other_connection : Connection

abbrev pub is_rest : Connection → Bool
is_rest Connection.coinbase_rest = true
is_rest Connection.other_rest = true
is_rest _ = false

-- The answer to a new order: the call throws, `success` is not "true", or the order's id.
pub data Reply : Type 0 where
  broken : Reply
  refused : Reply
  accepted : ℕ → Reply

module _ (D : Double) where
  pub record Order : Type 0 where
    pub id : ℕ
    pub side : Side
    pub price : D.F
    pub quantity : D.F
    pub filled : D.F
    pub status : OrderStatus

  -- The arguments of one `SendOrder`
  pub record Request : Type 0 where
    pub instrument : CurrencyPair
    pub side : Side
    pub price : D.F
    pub quantity : D.F

  -- `m_orders`, `m_balance`, the connection, and the orders sent to the exchange, latest first
  pub record Manager : Type 0 where
    pub orders : Dict (Order)
    pub balance : Dict D.F
    pub connection : Connection
    pub sent : List (Request)

  -- The answer to a query: the call throws, `success` is not "true", or the order's status and
  -- filled size, which is none when its conversion throws.
  pub data QueryReply : Type 0 where
    query_broken : QueryReply
    query_refused : QueryReply
    answered : String → Option D.F → QueryReply

  -- One entry of the `accounts` array: null, or its currency and what `stod` makes of its balance
  pub data Account : Type 0 where
    null_account : Account
    account : ℕ → Option D.F → Account

  abbrev pub zero_f : D.F
  zero_f = D.of_int (pos 0)

  abbrev pub fresh_order : ℕ → Side → D.F → D.F → Order
  fresh_order id side price quantity = record {
    id = id;
    side = side;
    price = price;
    quantity = quantity;
    filled = zero_f;
    status = OrderStatus.new_order;
  }

  -- The end of `PlaceLimitOrder`, after the exchange's answer
  unfoldable pub note_reply : Manager → Reply → Side → D.F → D.F → Manager × Outcome ℕ
  note_reply m Reply.broken side price quantity = (m, Outcome.thrown)
  note_reply m Reply.refused side price quantity = (m, Outcome.returned 0)
  note_reply m (Reply.accepted id) side price quantity = (
    record m { orders = insert id (fresh_order id side price quantity) m.orders },
    Outcome.returned id,
  )

  -- `PlaceLimitOrder`; the exchange answers its n-th request with `exchange n`.
  unfoldable pub place_limit_order :
      (ℕ → Reply) → Manager → CurrencyPair → Side → D.F → D.F → Manager × Outcome ℕ
  place_limit_order exchange m cp side price quantity =
      let request : Request = record {
        instrument = cp;
        side = side;
        price = price;
        quantity = quantity;
      } in
      elim m.connection [
        | Connection.no_connection ↦ (m, Outcome.undefined)
        | Connection.websocket ↦ (m, Outcome.returned 0)
        | Connection.other_connection ↦ (m, Outcome.returned 0)
        | _ ↦
            note_reply (record m { sent = request ∷ m.sent }) (exchange (length m.sent)) side price
              quantity
      ]

  unfoldable pub is_closed : OrderStatus → Bool
  is_closed OrderStatus.filled_order = true
  is_closed OrderStatus.canceled_order = true
  is_closed _ = false

  -- `CancelOrder`. `fails` says whether the connection's own call throws.
  unfoldable pub cancel_order : Bool → Manager → ℕ → Manager × Outcome Bool
  unfolding is_closed
  cancel_order fails m id = elim (lookup id m.orders) [
    | none ↦ (m, Outcome.returned false)
    | some o ↦ if is_closed o.status then (m, Outcome.returned false) else (
      record m { orders = erase id m.orders },
      elim m.connection [
        | Connection.no_connection ↦ Outcome.returned true
        | Connection.other_connection ↦ Outcome.returned true
        | _ ↦ if fails then Outcome.thrown else Outcome.returned true
      ],
    )
  ]

  -- `GetOrderLocal`
  unfoldable pub get_order_local : Manager → ℕ → Option Order
  get_order_local m id = lookup id m.orders

  -- The two writes in the REST branch of `GetOrder` to an order `o` of the cache: the status is
  -- written before the filled size is read.
  unfoldable pub write_status :
      Manager → ℕ → Order → Option OrderStatus → Option D.F → Manager × Outcome (Option Order)
  write_status m id o none size = (m, Outcome.thrown)
  write_status m id o (some status) none =
      (record m { orders = insert id (record o { status = status }) m.orders }, Outcome.thrown)
  write_status m id o (some status) (some filled) = (
    record m { orders = insert id (record o { status = status; filled = filled }) m.orders },
    Outcome.returned (some (record o { status = status; filled = filled })),
  )

  -- The REST branch of `GetOrder`
  unfoldable pub refresh : Manager → ℕ → Order → QueryReply → Manager × Outcome (Option Order)
  refresh m id o query_broken = (m, Outcome.thrown)
  refresh m id o query_refused = (m, Outcome.returned none)
  refresh m id o (answered text size) = write_status m id o (order_status text) size

  -- `GetOrder`
  unfoldable pub get_order : QueryReply → Manager → ℕ → Manager × Outcome (Option Order)
  unfolding refresh
  get_order reply m id = elim (lookup id m.orders) [
    | none ↦ (m, Outcome.returned none)
    | some o ↦ elim m.connection [
      | Connection.no_connection ↦ (m, Outcome.returned none)
      | Connection.websocket ↦ (m, Outcome.returned (some o))
      | Connection.other_connection ↦ (m, Outcome.returned none)
      | _ ↦ refresh m id o reply
    ]
  ]

  -- `UpdateOrder`
  unfoldable pub update_order : Manager → ℕ → OrderStatus → D.F → Manager
  update_order m id status filled = elim (lookup id m.orders) [
    | none ↦ m
    | some o ↦ record m {
      orders = insert id (record o { status = status; filled = filled }) m.orders;
    }
  ]

  -- `SyncOrder`
  unfoldable pub sync_order : Manager → ℕ → Side → D.F → D.F → OrderStatus → D.F → Manager
  sync_order m id side price quantity status filled = elim (lookup id m.orders) [
    | none ↦ record m {
      orders =
          insert id
            (record {
              id = id;
              side = side;
              price = price;
              quantity = quantity;
              filled = filled;
              status = status;
            })
            m.orders;
    }
    | some o ↦ record m {
      orders = insert id (record o { status = status; filled = filled }) m.orders;
    }
  ]

  -- `GetBalance`: `operator[]` enters a zero for a currency without balance.
  unfoldable pub get_balance : Manager → Currency → Manager × D.F
  get_balance m c = elim (lookup c m.balance) [
    | none ↦ (record m { balance = insert c zero_f m.balance }, zero_f)
    | some b ↦ (m, b)
  ]

  -- `SetBalance`
  unfoldable pub set_balance : Manager → Currency → D.F → Manager
  set_balance m c b = record m { balance = insert c b m.balance }

  -- One round of the loop of `InitializeBalances`: what throws is caught and skips the account.
  unfoldable pub enter_account : Dict Currency → Manager → Account → Manager
  unfolding str_to_val set_balance
  enter_account names m null_account = m
  enter_account names m (account currency available) =
      if currency == 0
      then m
      else elim available [ none ↦ m | some b ↦ set_balance m (str_to_val names currency) b ]

  unfoldable pub enter_accounts : Dict Currency → Manager → List Account → Manager
  enter_accounts names m [] = m
  enter_accounts names m (a ∷ rest) = enter_accounts names (enter_account names m a) rest

  -- `InitializeBalances`. The listing is none if the call throws or its answer has no accounts.
  unfoldable pub initialize_balances : Dict Currency → Option (List Account) → Manager → Manager
  initialize_balances names listing m = elim m.connection [
    | Connection.coinbase_rest ↦ elim listing [ none ↦ m | some l ↦ enter_accounts names m l ]
    | _ ↦ m
  ]
