-- ===== src/Book/Tests.antt =====
-- The theorems about the order book, at a small book.
use spot_grid_bot.Base.{ℕ, true, false, none, [], All, arith}
use spot_grid_bot.Base.Int.{ℤ, pos, ◌≤ℤ◌}
use spot_grid_bot.Instrument.{CurrencyPair, pair_lt, pair_valid, currency_valid}
use spot_grid_bot.Quote.{Quote, fresh_mark, qt_new, set_invalid, is_valid, is_used}
use spot_grid_bot.Book.{
  OrderBook, add_quote, clear, vec_of, get_best_quotes, get_best_prices, any_quote, get_mid_price,
  same_pair, update_vec, get_levels, sides_of, find_pair, put_pair, invalidate_all, middle,
  drop_found, drop_referred, referred,
}
use spot_grid_bot.Book.Side.{insert_quote, goes_before, first_accepted, erase_key, find_key}
use spot_grid_bot.Book.Sorted.{IsSortedBook, Call, call, call-IsSortedBook, cleared-IsSortedBook}
use spot_grid_bot.Book.Best.{IsBest, Counts, get_best_quotes-IsBest}
use spot_grid_bot.Book.Ranking.{IsRanked, get_levels-IsRanked}

abbrev pair : CurrencyPair
pair = record { base_ccy = 1; quote_ccy = 2 }

abbrev quote_at : ℕ → ℤ → Quote
quote_at k price = record {
  address = k;
  adpt_receive_time = pos 1;
  receipt_time = pos 1;
  sort_time = pos 1;
  quote_id = 0;
  seqnum = pos 0;
  price = price;
  volume = pos 100;
  min_qty = pos 0;
  key = pos k;
  ref_key = pos 0;
  sending_time = pos 1;
  quote_type = qt_new;
  position_no = pos 0;
  settl_date = 0;
  originator = 0;
}

abbrev no_book : OrderBook
no_book = record { quotes = []; marks = λ _. fresh_mark; last_quote = none; has_action = true }

abbrev empty_book : OrderBook
empty_book = clear no_book (pos 0)

abbrev one_bid : OrderBook
one_bid = call empty_book (Call.add pair true (quote_at 1 (pos 90)) (pos 2))

one_bid-IsSortedBook : IsSortedBook one_bid
one_bid-IsSortedBook =
    call-IsSortedBook empty_book (Call.add pair true (quote_at 1 (pos 90)) (pos 2))
      (cleared-IsSortedBook no_book (pos 0))

abbrev two_bids : OrderBook
two_bids = call one_bid (Call.add pair true (quote_at 2 (pos 95)) (pos 3))

two_bids-IsSortedBook : IsSortedBook two_bids
two_bids-IsSortedBook =
    call-IsSortedBook one_bid (Call.add pair true (quote_at 2 (pos 95)) (pos 3))
      one_bid-IsSortedBook

abbrev asked : Call
asked = Call.add pair false (quote_at 3 (pos 97)) (pos 4)

abbrev sample : OrderBook
sample = call two_bids asked

call-IsSortedBook_example : IsSortedBook sample
call-IsSortedBook_example = call-IsSortedBook two_bids asked two_bids-IsSortedBook

get_best_quotes-IsBest_example :
    let best = get_best_quotes two_bids pair any_quote in
    All (IsBest true (any_quote true) best.bid) (vec_of two_bids pair true)
    × All (IsBest false (any_quote false) best.ask) (vec_of two_bids pair false)
    × Counts (any_quote true) best.bid (vec_of two_bids pair true)
    × Counts (any_quote false) best.ask (vec_of two_bids pair false)
get_best_quotes-IsBest_example =
    get_best_quotes-IsBest two_bids pair any_quote two_bids-IsSortedBook

best_in_order :
    (get_best_prices sample pair any_quote).bid ≤ℤ (get_best_prices sample pair any_quote).ask
unfolding get_best_prices get_best_quotes sides_of find_pair put_pair add_quote clear invalidate_all
    update_vec call get_mid_price middle insert_quote goes_before first_accepted same_pair pair_lt
    pair_valid drop_found drop_referred erase_key find_key set_invalid referred is_valid is_used
    currency_valid
best_in_order = ground arith

get_levels-IsRanked_example : IsRanked true (get_levels two_bids pair true 2 (any_quote true))
get_levels-IsRanked_example =
    get_levels-IsRanked two_bids pair true 2 (any_quote true) two_bids-IsSortedBook
