-- ===== src/Market.antt =====
-- From the exchange's level updates to the order book: the "l2_data" handler of
-- src/coinbase/ConnectionMD.cpp, `ParseQuote` and `PublishQuote` of src/ConnectionBaseMD.cpp, and
-- `AddEntry` of lib/orderbook/src/OrderBook.cpp. The text of an entry's id, which
-- `GenerateStandardEntryId` writes, is a function of the pair, the side and the price's text; what
-- `stod` makes of a text is none when it throws. An update that is a null pointer is skipped and not
-- listed; one that lacks a member throws, as one does whose price is none.
pub mod Counts
pub mod Open
pub mod Mirror
pub mod Step
pub mod Joined
pub mod Handler
pub mod Tests
use Prim.Native.String.{String}
use spot_grid_bot.Base.{
  ℕ, Bool, true, false, Option, none, some, List, [], ◌∷◌, map, if◌then◌else◌, length,
}
use spot_grid_bot.Base.Int.{ℤ, pos}
use spot_grid_bot.Base.Double.{Double}
use spot_grid_bot.FixTypes.{QuoteType, bid_type, offer_type, is_bid}
use spot_grid_bot.Instrument.{CurrencyPair, dbl_to_cpip, double_to_qty}
use spot_grid_bot.Quote.{Quote, qt_new, qt_delete}
use spot_grid_bot.Book.{OrderBook, add_quote}
use spot_grid_bot.Feed.{Feed, Entry, Published, publish_quotes}
use spot_grid_bot.Orders.{same_text, zero_f}

module _ (D : Double) where
  -- `Level`: its price's text, and what `stod` makes of the price and the size
  pub record Level : Type 0 where
    pub text : ℕ
    pub price : Option D.F
    pub size : Option D.F

  module _ (entry_id : CurrencyPair → Bool → ℕ → ℕ) where
    -- One round of the loop of `ParseQuote`
    unfoldable pub parse_level : CurrencyPair → QuoteType → ℕ → D.F → D.F → Entry D.F
    parse_level cp side text price volume = record {
      id = entry_id cp (is_bid side) text;
      ref_id = entry_id cp (is_bid side) text;
      quote_id = 0;
      entry_type = side;
      instrument = cp;
      update_type = if D.eq volume (zero_f D) then qt_delete else qt_new;
      price = price;
      volume = volume;
      position_no = pos 0;
      end_of_message = false;
      sequence_tag = 0;
    }

    -- `ParseQuote`; none is the exception.
    unfoldable pub parse_quote : CurrencyPair → QuoteType → List (Level) → Option (List (Entry D.F))
    unfolding parse_level
    parse_quote cp side [] = some []
    parse_quote cp side (l ∷ rest) =
        let later = parse_quote cp side rest in
        elim l.price [
          | none ↦ none
          | some price ↦ elim l.size [
            | none ↦ none
            | some volume ↦ elim later [
              | none ↦ none
              | some entries ↦ some (parse_level cp side l.text price volume ∷ entries)
            ]
          ]
        ]

    abbrev pub at : ℤ → List (Entry D.F) → List (ℤ × Entry D.F)
    at now entries = map (λ e. (now, e)) entries

    -- The loop of the "l2_data" handler over the updates of an event, each with its side's text
    -- and what the clock shows, and whether it ends without an exception
    unfoldable pub l2_updates :
        ℕ → CurrencyPair → Feed D.F → List (ℤ × (String × Level)) → Feed D.F × Bool
    unfolding parse_quote
    l2_updates tag cp f [] = (f, true)
    l2_updates tag cp f ((now, (side, l)) ∷ rest) =
        let kind = if same_text side "bid" then bid_type else offer_type in
        elim (parse_quote cp kind (l ∷ [])) [
          | none ↦ (f, false)
          | some entries ↦ l2_updates tag cp (publish_quotes tag f (some (at now entries))) rest
        ]

  module _ (pip_factor : CurrencyPair → ℤ) where
    -- The quote that `AddEntry` makes, at an address, with the times of the call. The members of
    -- an entry that `ParseQuote` does not set have their defaults.
    unfoldable pub quote_of : Published D.F → ℕ → ℤ → ℤ → ℤ → Quote
    quote_of p address sent received now = record {
      address = address;
      adpt_receive_time = pos 0;
      receipt_time = received;
      sort_time = now;
      quote_id = p.entry.quote_id;
      seqnum = pos 1;
      price = dbl_to_cpip D pip_factor p.cp p.entry.price;
      volume = double_to_qty D pip_factor p.cp p.entry.volume;
      min_qty = double_to_qty D pip_factor p.cp (zero_f D);
      key = p.key;
      ref_key = p.ref_key;
      sending_time = sent;
      quote_type = p.entry.update_type;
      position_no = p.entry.position_no;
      settl_date = 0;
      originator = 0;
    }

    -- `AddEntry`
    unfoldable pub add_entry : OrderBook → Published D.F → ℕ → ℤ → OrderBook
    unfolding quote_of
    add_entry b p address now =
        (add_quote b p.cp (is_bid p.entry.entry_type) (quote_of p address now now now) now).0

    -- The book once everything that was published, latest first, was added to it, the n-th at the
    -- time `clock n` and with the address n
    unfoldable pub book_after : (ℕ → ℤ) → OrderBook → List (Published D.F) → OrderBook
    unfolding add_entry
    book_after clock b [] = b
    book_after clock b (p ∷ l) = add_entry (book_after clock b l) p (length l) (clock (length l))
