-- ===== src/Book/Sorted.antt =====
-- The order of the quotes on every side of a book of lib/orderbook/src/OrderBook.cpp.
use spot_grid_bot.Base.{◌≡◌, refl, Bool, true, false, [], ◌∷◌, some, arith, if◌then◌else◌}
use spot_grid_bot.Base.Int.{ℤ}
use spot_grid_bot.FixTypes.{BidAskPair, set_side}
use spot_grid_bot.Instrument.{CurrencyPair}
use spot_grid_bot.Quote.{Quote}
use spot_grid_bot.Book.Side.{QuoteVec, cleanup}
use spot_grid_bot.Book.{
  OrderBook, QuoteVectorMap, same_pair, find_pair, put_pair, sides_of, vec_of, add_quote,
  update_vec, clear, cleanup_quote_vec,
}
use spot_grid_bot.Book.Ahead.{IsSorted, update_vec-IsSorted, cleanup-IsSorted}

pub find-put :
    (c cp : CurrencyPair) (s : BidAskPair QuoteVec) (m : QuoteVectorMap)
    → find_pair c (put_pair cp s m) ≡ (if same_pair cp c then some s else find_pair c m)
unfolding find_pair put_pair same_pair
find-put c cp s [] = refl
find-put c cp s (e ∷ m) = ground (arith, find-put c cp s m)

-- Both sides of every pair.
pub IsSortedBook : OrderBook → Type 0
IsSortedBook b = (cp : CurrencyPair) (bid : Bool) → IsSorted bid (vec_of b cp bid)

-- What a pair's sides are once one entry of the map has been written.
pub sides_of-put :
    (b b' : OrderBook) (c cp : CurrencyPair) (s : BidAskPair QuoteVec)
    → b'.quotes ≡ put_pair cp s b.quotes
    → sides_of b' c ≡ (if same_pair cp c then s else sides_of b c)
unfolding sides_of
sides_of-put b b' c cp s e = ground (arith, find-put c cp s b.quotes)

put-IsSortedBook :
    (b b' : OrderBook) (cp : CurrencyPair) (bid : Bool) (vec : QuoteVec)
    → b'.quotes ≡ put_pair cp (set_side (sides_of b cp) bid vec) b.quotes
    → IsSortedBook b
    → IsSorted bid vec
    → IsSortedBook b'
unfolding IsSortedBook
put-IsSortedBook b b' cp true vec e s v c side =
    ground
      (arith, sides_of-put b b' c cp (set_side (sides_of b cp) true vec) e, s cp side, s c side)
put-IsSortedBook b b' cp false vec e s v c side =
    ground
      (arith, sides_of-put b b' c cp (set_side (sides_of b cp) false vec) e, s cp side, s c side)

pub at :
    (b : OrderBook)
    → IsSortedBook b
    → (cp : CurrencyPair) (bid : Bool) → IsSorted bid (vec_of b cp bid)
unfolding IsSortedBook
at b s cp bid = s cp bid

pub cleared-IsSortedBook : (b : OrderBook) (now : ℤ) → IsSortedBook (clear b now)
unfolding IsSortedBook clear sides_of find_pair
cleared-IsSortedBook b now cp true = tt
cleared-IsSortedBook b now cp false = tt

-- The calls that change a book.
pub data Call : Type 0 where
  add : CurrencyPair → Bool → Quote → ℤ → Call
  clean_up : CurrencyPair → Bool → ℤ → ℤ → Call
  clear_all : ℤ → Call

unfoldable pub call : OrderBook → Call → OrderBook
call b (add cp bid q now) = (add_quote b cp bid q now).0
call b (clean_up cp bid max_age now) = cleanup_quote_vec b cp bid max_age now
call b (clear_all now) = clear b now

-- Adding, updating and deleting quotes, cleaning a side up and clearing the book all keep both
-- sides of every pair in order: no quote stands behind one with a worse price, or behind one of the
-- same price with a smaller volume.
pub call-IsSortedBook : (b : OrderBook) (c : Call) → IsSortedBook b → IsSortedBook (call b c)
unfolding call add_quote cleanup_quote_vec
call-IsSortedBook b (add cp bid q now) s =
    put-IsSortedBook b _ cp bid (update_vec bid q now (vec_of b cp bid, b.marks)).0 refl s
      (update_vec-IsSorted bid q now (vec_of b cp bid) b.marks (at b s cp bid))
call-IsSortedBook b (clean_up cp bid max_age now) s =
    put-IsSortedBook b _ cp bid (cleanup max_age now (vec_of b cp bid) b.marks).0 refl s
      (cleanup-IsSorted bid max_age now (vec_of b cp bid) b.marks (at b s cp bid))
call-IsSortedBook b (clear_all now) s = cleared-IsSortedBook b now
