-- ===== src/Book.antt =====
-- `class OrderBook` of lib/orderbook/include/OrderBook/OrderBook.h and
-- lib/orderbook/src/OrderBook.cpp. Each call is taken as one step: the locks are not modelled.
pub mod Side
pub mod Levels
pub mod Ahead
pub mod Sorted
pub mod Contents
pub mod Best
pub mod Runs
pub mod Depth
pub mod Ranking
pub mod View
mod Tests
use spot_grid_bot.Base.{
  ℕ, ◌+◌, Bool, true, false, not, ◌&&◌, ◌||◌, List, [], ◌∷◌, Option, none, some, ◌==◌,
  if◌then◌else◌, length,
}
use spot_grid_bot.Base.Int.{ℤ, pos, ◌+ℤ◌, ◌-ℤ◌, quot, ltb_ℤ, eqb_ℤ}
use spot_grid_bot.FixTypes.{BidAskPair, get_side, set_side}
use spot_grid_bot.Instrument.{CurrencyPair}
use spot_grid_bot.Quote.{Quote, Store, set_invalid, qt_update, qt_delete}
use Side.{QuoteVec, insert_quote, find_key, erase_key, first_accepted, cleanup}
use Levels.{QuoteGroupVec, iterate_quote_groups, push_level}

-- The keys of the map are valid pairs, for which the map's order identifies equal pairs only
-- (`Instrument.pair_lt_keys`).
unfoldable pub same_pair : CurrencyPair → CurrencyPair → Bool
same_pair a b = (a.base_ccy == b.base_ccy) && (a.quote_ccy == b.quote_ccy)

-- `m_quoteVectorMap`
abbrev pub QuoteVectorMap : Type 0
QuoteVectorMap = List (CurrencyPair × BidAskPair QuoteVec)

unfoldable pub find_pair : CurrencyPair → QuoteVectorMap → Option (BidAskPair QuoteVec)
unfolding same_pair
find_pair cp [] = none
find_pair cp ((k, s) ∷ m) = if same_pair k cp then some s else find_pair cp m

unfoldable pub put_pair : CurrencyPair → BidAskPair QuoteVec → QuoteVectorMap → QuoteVectorMap
unfolding same_pair
put_pair cp s [] = (cp, s) ∷ []
put_pair cp s ((k, t) ∷ m) = if same_pair k cp then (cp, s) ∷ m else (k, t) ∷ put_pair cp s m

-- The members of the class; `has_action` says that `m_action` holds a function.
pub record OrderBook : Type 0 where
  pub quotes : QuoteVectorMap
  pub marks : Store
  pub last_quote : Option Quote
  pub has_action : Bool

abbrev pub no_quotes : BidAskPair QuoteVec
no_quotes = record { bid = []; ask = [] }

-- The two vectors of a pair, empty where the map has no entry.
unfoldable pub sides_of : OrderBook → CurrencyPair → BidAskPair QuoteVec
sides_of b cp = elim (find_pair cp b.quotes) [ none ↦ no_quotes | some s ↦ s ]

abbrev pub vec_of : OrderBook → CurrencyPair → Bool → QuoteVec
vec_of b cp bid = get_side (sides_of b cp) bid

abbrev pub any_quote : Bool → Quote → Bool
any_quote _ _ = true

-- `GetBestQuotes`, for a predicate on the side and the quote
unfoldable pub get_best_quotes :
    OrderBook → CurrencyPair → (Bool → Quote → Bool) → BidAskPair (Option Quote)
get_best_quotes b cp accept = record {
  bid = first_accepted (accept true) (vec_of b cp true);
  ask = first_accepted (accept false) (vec_of b cp false);
}

-- `GetBestQuote`, which does not look at its predicate
unfoldable pub get_best_quote : OrderBook → CurrencyPair → Bool → Option Quote
get_best_quote b cp bid = first_accepted (any_quote bid) (vec_of b cp bid)

abbrev pub price_or_zero : Option Quote → ℤ
price_or_zero none = pos 0
price_or_zero (some q) = q.price

-- `GetBestPrices` and `GetBestPrice`
unfoldable pub get_best_prices : OrderBook → CurrencyPair → (Bool → Quote → Bool) → BidAskPair ℤ
unfolding get_best_quotes
get_best_prices b cp accept =
    let best = get_best_quotes b cp accept in
    record { bid = price_or_zero best.bid; ask = price_or_zero best.ask }

unfoldable pub get_best_price : OrderBook → CurrencyPair → Bool → ℤ
unfolding get_best_quote
get_best_price b cp bid = price_or_zero (get_best_quote b cp bid)

-- The middle of two prices, 0 where a side has none.
unfoldable pub middle : BidAskPair ℤ → ℤ
middle p =
    if ltb_ℤ (pos 0) p.bid && ltb_ℤ (pos 0) p.ask then quot (p.bid +ℤ p.ask) (pos 2) else pos 0

-- `GetMidPrice`
unfoldable pub get_mid_price : OrderBook → CurrencyPair → ℤ
unfolding middle get_best_prices
get_mid_price b cp = middle (get_best_prices b cp any_quote)

-- `GetQuoteCount`
unfoldable pub get_quote_count : OrderBook → CurrencyPair → Bool → ℕ
get_quote_count b cp bid = length (vec_of b cp bid)

abbrev pub is_delete : Quote → Bool
is_delete q = eqb_ℤ q.quote_type qt_delete

abbrev pub replaces : Quote → Bool
replaces q = is_delete q || eqb_ℤ q.quote_type qt_update

-- The quote that an UPDATE or DELETE refers to, if it has a reference and the vector holds it.
unfoldable pub referred : Quote → QuoteVec → Option Quote
referred q vec = if replaces q && ltb_ℤ (pos 0) q.ref_key then find_key q.ref_key vec else none

-- The quote that was found is invalidated by its successor and leaves the vector.
unfoldable pub drop_found : Option Quote → Quote → ℤ → QuoteVec × Store → QuoteVec × Store
drop_found none q now s = s
drop_found (some old) q now (vec, h) =
    (erase_key q.ref_key vec, (set_invalid h old (some q) now now).0)

unfoldable pub drop_referred : Quote → ℤ → QuoteVec × Store → QuoteVec × Store
drop_referred q now (vec, h) = drop_found (referred q vec) q now (vec, h)

-- What `AddQuote` does to the vector and the marks.
unfoldable pub update_vec : Bool → Quote → ℤ → QuoteVec × Store → QuoteVec × Store
unfolding drop_referred
update_vec bid q now s =
    let (vec, h) = drop_referred q now s in
    (if not (is_delete q) then insert_quote bid q vec else vec, h)

-- Whether the call ran `m_action`: calling an empty std::function throws bad_function_call.
pub data Signal : Type 0 where
  quiet notified bad_function_call : Signal

unfoldable pub add_quote : OrderBook → CurrencyPair → Bool → Quote → ℤ → OrderBook × Signal
unfolding update_vec
add_quote b cp bid q now =
    let (vec, h) = update_vec bid q now (vec_of b cp bid, b.marks) in
    let after : OrderBook = record b {
      quotes = put_pair cp (set_side (sides_of b cp) bid vec) b.quotes;
      marks = h;
      last_quote = some q;
    } in
    (
      after,
      if eqb_ℤ (get_mid_price b cp) (get_mid_price after cp)
          then quiet
          else if b.has_action
          then notified
          else bad_function_call,
    )

-- `Initialise`
unfoldable pub initialise : OrderBook → OrderBook
initialise b = record b { has_action = true }

-- `GetLevels`: the lambda pushes the group, and counts `n` down unless it is 0 at the start.
unfoldable pub get_levels : OrderBook → CurrencyPair → Bool → ℕ → (Quote → Bool) → QuoteGroupVec
get_levels b cp bid n accept = (iterate_quote_groups push_level accept (vec_of b cp bid) ([], n)).0

-- The marks once every quote of a vector is set invalid without a successor.
unfoldable pub invalidate_all : ℤ → QuoteVec → Store → Store
invalidate_all now [] h = h
invalidate_all now (q ∷ vec) h = invalidate_all now vec (set_invalid h q none now now).0

invalidate_map : ℤ → QuoteVectorMap → Store → Store
invalidate_map now [] h = h
invalidate_map now ((_, s) ∷ m) h =
    invalidate_map now m (invalidate_all now s.ask (invalidate_all now s.bid h))

-- `Clear`
unfoldable pub clear : OrderBook → ℤ → OrderBook
unfolding invalidate_map
clear b now = record b {
  quotes = [];
  marks = invalidate_map now b.quotes b.marks;
  last_quote = none;
}

-- `CleanupQuoteVec` on one vector of the book
unfoldable pub cleanup_quote_vec : OrderBook → CurrencyPair → Bool → ℤ → ℤ → OrderBook
cleanup_quote_vec b cp bid max_age now =
    let (vec, h) = cleanup max_age now (vec_of b cp bid) b.marks in
    record b { quotes = put_pair cp (set_side (sides_of b cp) bid vec) b.quotes; marks = h }
