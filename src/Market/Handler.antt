-- ===== src/Market/Handler.antt =====
-- The "l2_data" handler of src/coinbase/ConnectionMD.cpp as a whole: from the exchange's updates to
-- the order book of lib/orderbook/src/OrderBook.cpp.
use Prim.Native.String.{String}
use spot_grid_bot.Base.{ℕ, ◌≡◌, Bool, false, if◌then◌else◌, ◌==◌}
use spot_grid_bot.Base.Int.{ℤ}
use spot_grid_bot.Base.Double.{Double}
use spot_grid_bot.FixTypes.{QuoteType, bid_type, offer_type}
use spot_grid_bot.Instrument.{CurrencyPair}
use spot_grid_bot.Orders.{same_text}
use spot_grid_bot.Book.{OrderBook}
use spot_grid_bot.Feed.{Feed}

module _ (D : Double) (pip_factor : CurrencyPair → ℤ) (clock : ℕ → ℤ) (start : OrderBook)
    (place_of : ℕ → CurrencyPair × Bool) (entry_id : CurrencyPair → Bool → ℕ → ℕ) where
  -- The text of the id of an entry of a pair is not empty, and the pair and the side can be read
  -- off it.
  unfoldable pub IsReadable : CurrencyPair → Type 0
  IsReadable c =
      (side : Bool) (text : ℕ)
      → ((entry_id c side text == 0) ≡ false) × (place_of (entry_id c side text) ≡ (c, side))

  abbrev pub kind_of : String → QuoteType
  kind_of side = if same_text side "bid" then bid_type else offer_type
