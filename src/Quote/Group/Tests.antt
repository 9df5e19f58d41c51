-- ===== src/Quote/Group/Tests.antt =====
-- The theorem about a group's cached values, at a small group.
use spot_grid_bot.Base.{ℕ, false, none, [], ◌∷◌}
use spot_grid_bot.Base.Int.{pos}
use spot_grid_bot.Quote.{Quote, Store, fresh_mark, qt_new}
use spot_grid_bot.Quote.Group.{QuoteGroup}
use spot_grid_bot.Quote.Group.Cache.{Fresh, IsCoherent, Call, apply_group, apply_group-IsCoherent}

abbrev quote_at : ℕ → Quote
quote_at k = record {
  address = k;
  adpt_receive_time = pos 1;
  receipt_time = pos 5;
  sort_time = pos 1;
  quote_id = 0;
  seqnum = pos 0;
  price = pos 90;
  volume = pos 100;
  min_qty = pos 0;
  key = pos k;
  ref_key = pos 0;
  sending_time = pos 4;
  quote_type = qt_new;
  position_no = pos 0;
  settl_date = 0;
  originator = 0;
}

abbrev unmarked : Store
unmarked a = fresh_mark

abbrev pair_of_quotes : QuoteGroup
pair_of_quotes = record {
  quotes = quote_at 1 ∷ quote_at 2 ∷ [];
  unused_values = none;
  all_values = none;
}

pair-IsCoherent : IsCoherent unmarked pair_of_quotes
unfolding Fresh
pair-IsCoherent = record { unused_fresh = tt; all_fresh = tt }

abbrev read_once : QuoteGroup
read_once = (apply_group unmarked pair_of_quotes (Call.read false)).1

read_once-IsCoherent : IsCoherent unmarked read_once
unfolding apply_group
read_once-IsCoherent =
    apply_group-IsCoherent unmarked pair_of_quotes (Call.read false) pair-IsCoherent

apply_group-IsCoherent_example :
    let (h', g') = apply_group unmarked read_once (Call.use_quote (quote_at 1)) in IsCoherent h' g'
apply_group-IsCoherent_example =
    apply_group-IsCoherent unmarked read_once (Call.use_quote (quote_at 1)) read_once-IsCoherent
