-- ===== src/Market/Tests.antt =====
-- The theorem about the level updates, at an empty book.
use spot_grid_bot.Base.{ℕ, ◌+◌, ◌*◌, ◌%◌, Bool, true, none, some, [], ◌==◌, if◌then◌else◌}
use spot_grid_bot.Base.Int.{ℤ, pos}
use spot_grid_bot.Instrument.{CurrencyPair}
use spot_grid_bot.Samples.{whole}
use spot_grid_bot.Quote.{fresh_mark}
use spot_grid_bot.Book.{OrderBook}
use spot_grid_bot.Feed.{Feed}
use spot_grid_bot.Market.{Level}

abbrev pair : CurrencyPair
pair = record { base_ccy = 1; quote_ccy = 2 }

abbrev pips : CurrencyPair → ℤ
pips cp = pos 1

abbrev clock : ℕ → ℤ
clock n = pos n

abbrev empty_book : OrderBook
empty_book = record { quotes = []; marks = λ _. fresh_mark; last_quote = none; has_action = true }

-- An id is twice the price's number, and 1 for a bid or 2 for an offer.
abbrev entry_id : CurrencyPair → Bool → ℕ → ℕ
entry_id cp bid text = 2 * text + (if bid then 1 else 2)

abbrev place_of : ℕ → CurrencyPair × Bool
place_of id = (pair, id % 2 == 1)

abbrev empty_feed : Feed ℤ
empty_feed = record { table = []; last_key = pos 0; published = [] }

-- A bid comes, is changed and is deleted, and an offer comes.
abbrev bid_level : ℤ → Level whole
bid_level size = record { text = 7; price = some (pos 100); size = some size }

abbrev offer_level : Level whole
offer_level = record { text = 8; price = some (pos 101); size = some (pos 3) }
