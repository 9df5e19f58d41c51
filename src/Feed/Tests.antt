-- ===== src/Feed/Tests.antt =====
-- The theorems about publishing, at a small feed.
use spot_grid_bot.Base.{ℕ, refl, false, []}
use spot_grid_bot.Base.Int.{ℤ, pos}
use spot_grid_bot.Base.Dict.{lookup}
use spot_grid_bot.FixTypes.{bid_type, type_valid}
use spot_grid_bot.Instrument.{CurrencyPair, pair_valid, currency_valid}
use spot_grid_bot.Quote.{qt_new}
use spot_grid_bot.Feed.{Feed, Entry, publish_entry}
use spot_grid_bot.Feed.Live.{IsOwn, IsLive, publish_entry-IsLive}

abbrev pair : CurrencyPair
pair = record { base_ccy = 1; quote_ccy = 2 }

abbrev entry : ℤ → Entry ℕ
entry update_type = record {
  id = 5;
  ref_id = 5;
  quote_id = 0;
  entry_type = bid_type;
  instrument = pair;
  update_type = update_type;
  price = 90;
  volume = 1;
  position_no = pos 0;
  end_of_message = false;
  sequence_tag = 0;
}

abbrev silent : Feed ℕ
silent = record { table = []; last_key = pos 3; published = [] }

entry-IsOwn : (u : ℤ) → IsOwn (entry u)
unfolding IsOwn type_valid pair_valid currency_valid
entry-IsOwn u = (refl, refl, refl)

silent-IsLive : IsLive silent
unfolding IsLive lookup
silent-IsLive j = refl

abbrev once : Feed ℕ
once = (publish_entry silent (pos 2) (entry qt_new)).0

publish_entry-IsLive_example : IsLive once
publish_entry-IsLive_example =
    publish_entry-IsLive silent (pos 2) (entry qt_new) (entry-IsOwn qt_new) silent-IsLive
