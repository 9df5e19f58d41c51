-- ===== src/Lib.antt =====
-- SpotGridBot places a grid of orders around a base price on a crypto exchange and hedges each
-- fill one step away; an order book collects the exchange's quotes. This library models the
-- program's own logic and proves it.
--
-- The parts and their files, with the paths of the code they are about:
--   FixTypes      lib/utils/include/Utils/FixTypes.h: sides, quote types, times in force
--   Instrument    lib/utils/include/Utils/CurrencyPair.h: currencies, pairs, their scaling
--   Position      lib/utils/src/Position.cpp: a position's quantities, price and profit
--   Quote         lib/orderbook/src/Quote.cpp: quotes and groups of quotes
--   Book          lib/orderbook/src/OrderBook.cpp: the sorted book of quotes and its signal;
--                 Book.View is lib/orderbook/src/BookView.cpp
--   Orders        src/OrderManager.cpp: the cache of orders and balances before the exchange
--   Table, Feed   src/ActiveQuoteTable.cpp, src/ConnectionBaseMD.cpp: from the exchange's
--                 messages to the entries of the book
--   Market        src/coinbase/ConnectionMD.cpp and src/ConnectionBaseMD.cpp: from the exchange's
--                 levels to the quotes of the book, which joins Feed and Book
--   UserChannel   src/coinbase/ConnectionORDWS.cpp: pushed order updates and snapshots, which write
--                 the cache of Orders that Grid reads
--   Reports       src/coinbase/ConnectionORD.cpp, src/binance/ConnectionORD.cpp,
--                 src/OKX/ConnectionORD.cpp: from an exchange's answer to execution reports
--   Rates         lib/utils/src/CurrentRateManager.cpp: rates, direct and by a path of currencies
--   Symbols       lib/utils/src/CurrencyPair.cpp: names of currencies, parsing of symbols, masks,
--                 rounding of prices, CurrencyConfig.xml
--   Durations     lib/utils/src/Utils.cpp: durations with units
--   Messages      src/MessageProcessor.cpp: the handlers of messages and their queue, a Worker
--   Worker        lib/utils/include/Utils/BackgroundWorker.hpp: a pool of threads on one queue
--   Timer         lib/utils/src/Timer.cpp: scheduled tasks and the threads that execute them
--   Pool          lib/utils/include/Utils/ObjectPool.h: the free list of the pooled quotes
--   Ring          lib/utils/include/Utils/OneToOneQueue.hpp: the ring buffer between threads
--   Grid          lib/gridbot/src/GridStrategy.cpp: the strategy, which owns its order manager
-- Base has what they share: Boolean tests, lists, integers, maps as association lists, and the
-- operations of `double`. Samples has a concrete arithmetic for the tests.
--
-- How the code corresponds: a class is a record of its fields, a method a function from the state
-- and the arguments to the new state and the result, in snake_case of the method's name. A call
-- that throws or is undefined is a value (Orders.Outcome). Objects shared by pointer stand in a
-- store by address (Quote.Store). Loops are recursion on their list or their number of rounds,
-- and need no fuel, but for six: the search for an unused time (Timer.unused_time), for which a
-- round more than there are tasks is enough, a worker's rounds (Worker.work), for which the
-- length of the queue is, the search for a path (Rates.search_path), for which one more than
-- there are currencies is, GetBidRate's calls of itself, of which two levels are, the levels of a
-- side of the book (Book.Levels.iterate), each of which takes at least one of the quotes that are
-- left, and the digits of a number (Durations.decimal_from), each of which divides it by 10. Each
-- operation runs under its class's lock and is one step; what threads do between two locks is a
-- sequence of steps in any order (Worker.Steps, Timer.Steps, Pool.Live).
--
-- What is a parameter: the machine's `double` (Base.Double), the conversions between texts and
-- numbers but for the decimal digits of an integer, what the exchange answers to a call, the
-- growth of a full std::vector, what malloc returns, the clock's times, and the id that an entry
-- has for its exchange, pair, side and price (Market.Handler.IsReadable). A text that is
-- only compared is its number in an enumeration of texts, with 0 for the empty one. int64_t is ℤ;
-- where the code converts to an unsigned type the conversion is written out; the overflow of
-- int64_t sums is not modelled. In the loop of CheckFilledOrders the end of the vector is read as
-- the position that it had when the loop began, as the usual libraries do.
--
-- Not modelled: sockets, HTTP and the parsing of JSON, the waiting of threads, the opening
-- of configuration files, logging, and all that only prints.
pub mod Base
pub mod FixTypes
pub mod Instrument
pub mod Position
pub mod Quote
pub mod Book
pub mod Orders
pub mod Grid
pub mod Samples
pub mod Table
pub mod Feed
pub mod Ring
pub mod UserChannel
pub mod Worker
pub mod Messages
pub mod Timer
pub mod Pool
pub mod Market
pub mod Reports
pub mod Rates
pub mod Durations
pub mod Symbols
