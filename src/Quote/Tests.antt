-- ===== src/Quote/Tests.antt =====
-- The theorems about a quote's marks and fields, at concrete quotes.
use spot_grid_bot.Base.{ℕ, ◌≡◌, refl, true}
use spot_grid_bot.Base.Int.{pos}
use spot_grid_bot.Quote.{Quote, Store, fresh_mark, qt_new, is_valid}
use spot_grid_bot.Quote.Fields.{Field, FieldBaseType, get_base_type}

abbrev quote_at : ℕ → Quote
quote_at k = record {
  address = k;
  adpt_receive_time = pos 1;
  receipt_time = pos 5;
  sort_time = pos 1;
  quote_id = 0;
  seqnum = pos 0;
  price = pos 90;
  volume = pos 100;
  min_qty = pos 0;
  key = pos k;
  ref_key = pos 0;
  sending_time = pos 4;
  quote_type = qt_new;
  position_no = pos 0;
  settl_date = 0;
  originator = 0;
}

abbrev unmarked : Store
unmarked a = fresh_mark

valid_1 : is_valid unmarked (quote_at 1) ≡ true
unfolding is_valid
valid_1 = refl

price_is_int64 : get_base_type Field.fld_price ≡ FieldBaseType.int64_type
unfolding get_base_type
price_is_int64 = refl
