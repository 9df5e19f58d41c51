-- ===== src/Orders/Tests.antt =====
-- The theorems about the order manager, at concrete managers.
use spot_grid_bot.Base.{ℕ, suc, some, List, [], ◌∷◌, arith}
use spot_grid_bot.Base.Int.{pos}
use spot_grid_bot.Base.Dict.{lookup-nil}
use spot_grid_bot.FixTypes.{buy_side}
use spot_grid_bot.Instrument.{CurrencyPair}
use spot_grid_bot.Samples.{whole}
use spot_grid_bot.Orders.{Manager, Order, Reply, QueryReply, Connection, Account, fresh_order}
use spot_grid_bot.Orders.Keys.{IsKeyed, Call, apply, apply-IsKeyed}

abbrev pair : CurrencyPair
pair = record { base_ccy = 1; quote_ccy = 2 }

abbrev fresh : Manager whole
fresh = record { orders = []; balance = []; connection = Connection.coinbase_rest; sent = [] }

abbrev exchange : ℕ → Reply
exchange n = Reply.accepted (suc n)

abbrev placed_once : Manager whole
placed_once = record fresh { orders = (1, fresh_order whole 1 buy_side (pos 90) (pos 5)) ∷ [] }

abbrev half_filled : QueryReply whole
half_filled = QueryReply.answered "PARTIALLY_FILLED" (some (pos 2))

fresh-IsKeyed : IsKeyed whole []
unfolding IsKeyed
fresh-IsKeyed k o e = ground (arith, lookup-nil {V = Order whole} k, e)

apply-IsKeyed_example :
    IsKeyed whole (apply whole exchange (Call.place pair buy_side (pos 90) (pos 5)) fresh).orders
apply-IsKeyed_example =
    apply-IsKeyed whole exchange (Call.place pair buy_side (pos 90) (pos 5)) fresh fresh-IsKeyed

abbrev two_accounts : List (Account whole)
two_accounts = Account.account 7 (some (pos 10)) ∷ Account.account 7 (some (pos 20)) ∷ []
